-- ===== src/Metrics/Counters.antt =====
-- Counters: one for each vector of label values.
use feature_flags_control_pl.Shared.{
  ◌+◌, ◌≡◌, refl, ◌≢◌, List, [], ◌∷◌, ◌++◌, Str, arith, length, All, str_eq, str_eq_iff,
  str_eq_refl, lookup-insert, if◌then◌else◌,
}
use feature_flags_control_pl.Metrics.{
  int64, join, label_key, CounterVec, counter_entry, counter_inc, counter_value,
}

-- No NUL byte.
abbrev pub NoNul : Str → Type 0
NoNul s = All (λ b. b ≢ 0) s

split_unique : (s t x y : Str) → NoNul s → NoNul t → s ++ 0 ∷ x ≡ t ++ 0 ∷ y → (s ≡ t) × (x ≡ y)
split_unique [] [] x y hs ht e = (refl, cc)
split_unique [] (b ∷ t) x y hs ht e = absurd (ht.0 cc)
split_unique (a ∷ s) [] x y hs ht e = absurd (hs.0 cc)
split_unique (a ∷ s) (b ∷ t) x y hs ht e =
    let (p, q) = split_unique s t x y hs.1 ht.1 (cc) in (cc, q)

-- Label keys tell label values apart: vectors of one length, without NUL bytes, that have the same
-- key are equal.
label_key_injective :
    (us vs : List Str)
    → length us ≡ length vs
    → All NoNul us
    → All NoNul vs
    → label_key us ≡ label_key vs
    → us ≡ vs
unfolding label_key join
label_key_injective [] [] h hu hv e = refl
label_key_injective [] (v ∷ vs) h hu hv e = absurd (omega arith)
label_key_injective (u ∷ us) [] h hu hv e = absurd (omega arith)
label_key_injective (u ∷ []) (v ∷ []) h hu hv e = cc
label_key_injective (u ∷ []) (v ∷ v2 ∷ vs) h hu hv e = absurd (omega arith)
label_key_injective (u ∷ u2 ∷ us) (v ∷ []) h hu hv e = absurd (omega arith)
label_key_injective (u ∷ u2 ∷ us) (v ∷ v2 ∷ vs) h hu hv e =
    let (p, q) = split_unique u v (join (0 ∷ []) (u2 ∷ us)) (join (0 ∷ []) (v2 ∷ vs)) hu.0 hv.0 e in
    let r = label_key_injective (u2 ∷ us) (v2 ∷ vs) (omega arith) hu.1 hv.1 q in cc

pub counter_value-inc :
    (cv : CounterVec) (us vs : List Str)
    → counter_value (counter_inc cv us) vs ≡ (
        if str_eq (label_key us) (label_key vs)
        then int64 (counter_value cv us + 1)
        else counter_value cv vs)
unfolding counter_value counter_inc counter_entry
counter_value-inc cv us vs =
    let e = counter_entry cv us in
    ground (
      arith,
      lookup-insert (label_key us) (label_key vs) (record e { n = int64 (e.n + 1) }) cv.entries,
    )

-- An increment adds one, modulo 2^64, to the counter of its own label values, and leaves the counter
-- of every other vector of label values of the same length, without NUL bytes, as it was.
pub counter_inc-exact :
    (cv : CounterVec) (us vs : List Str)
    → length us ≡ length vs
    → All NoNul us
    → All NoNul vs
    → (counter_value (counter_inc cv us) us ≡ int64 (counter_value cv us + 1))
      × (us ≢ vs → counter_value (counter_inc cv us) vs ≡ counter_value cv vs)
counter_inc-exact cv us vs h hu hv = (
  rw (counter_value-inc, str_eq_refl),
  λ ne.
      rw counter_value-inc (
        ground
          (arith, str_eq_iff (label_key us) (label_key vs), label_key_injective us vs h hu hv)),
)
