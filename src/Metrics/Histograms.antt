-- ===== src/Metrics/Histograms.antt =====
-- Histograms: the counts against the list of observed values.
use feature_flags_control_pl.Shared.{
  ℕ, suc, ◌+◌, ◌≡◌, refl, List, [], ◌∷◌, Str, arith, length, leb, if◌then◌else◌,
}
use feature_flags_control_pl.Metrics.{
  int64, HistEntry, zeros, new_hist_entry, bump_counts, observe_entry,
}

-- How many of the values are at most `b`.
abbrev pub at_most : ℕ → List ℕ → ℕ
at_most b [] = 0
at_most b (v ∷ vs) = let rest = at_most b vs in if leb v b then suc rest else rest

abbrev pub sum : List ℕ → ℕ
sum [] = 0
sum (v ∷ vs) = v + sum vs

-- A count for each bucket bound, of the values up to that bound, and one of all values.
abbrev pub cumulative : List ℕ → List ℕ → List ℕ
cumulative [] vs = int64 (length vs) ∷ []
cumulative (b ∷ bs) vs = int64 (at_most b vs) ∷ cumulative bs vs

-- The observations in order; the last one stands first in the list.
abbrev pub observe_all : HistEntry → List ℕ → HistEntry
observe_all e [] = e
observe_all e (v ∷ vs) = observe_entry (observe_all e vs) v

bump_counts-cumulative :
    (v : ℕ) (bs vs : List ℕ) → bump_counts v bs (cumulative bs vs) ≡ cumulative bs (v ∷ vs)
unfolding bump_counts
bump_counts-cumulative v [] vs = ground arith
bump_counts-cumulative v (b ∷ bs) vs = ground (arith, bump_counts-cumulative v bs vs)

zeros-cumulative : (bs : List ℕ) → zeros bs ≡ cumulative bs []
unfolding zeros
zeros-cumulative [] = refl
zeros-cumulative (b ∷ bs) = ground (arith, zeros-cumulative bs)

observe_all-buckets :
    (vals : List Str) (bs vs : List ℕ) → (observe_all (new_hist_entry vals bs) vs).buckets ≡ bs
unfolding observe_entry new_hist_entry
observe_all-buckets vals bs [] = refl
observe_all-buckets vals bs (v ∷ vs) = observe_all-buckets vals bs vs

-- After any observations a fresh histogram entry holds, in its buckets, for each bound how many
-- values are at most that bound and last the number of all values, each as an int64; the same number
-- as its total; and the sum of the values.
pub observe-cumulative :
    (vals : List Str) (bs vs : List ℕ)
    → ((observe_all (new_hist_entry vals bs) vs).counts ≡ cumulative bs vs)
      × ((observe_all (new_hist_entry vals bs) vs).total ≡ int64 (length vs))
      × ((observe_all (new_hist_entry vals bs) vs).sum ≡ sum vs)
unfolding observe_entry new_hist_entry
observe-cumulative vals bs [] = (zeros-cumulative bs, omega arith, refl)
observe-cumulative vals bs (v ∷ vs) =
    let (c, t, s) = observe-cumulative vals bs vs in
    (
      rw (observe_all-buckets vals bs vs) (rw c (bump_counts-cumulative v bs vs)),
      omega arith,
      omega arith,
    )
