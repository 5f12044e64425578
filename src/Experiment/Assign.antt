-- ===== src/Experiment/Assign.antt =====
-- Which variant a user gets.
use feature_flags_control_pl.Shared.{
  ℕ, zero, suc, ◌<◌, ◌≡◌, refl, ap, ◌≢◌, inl, inr, some, List, [], ◌∷◌, Str, arith, length,
  get_elem?, In,
}
use native.Mathlib.Nat.{mod-lt}
use feature_flags_control_pl.Metrics.{CounterVec, counter_inc}
use feature_flags_control_pl.Experiment.{Experiment, variant_index, exposed, assign, assign_variant}

get_elem?-In :
    (xs : List Str) (i : ℕ) → i < length xs → (x : Str) × (get_elem? xs i ≡ some x) × In x xs
get_elem?-In [] i h = elim h [ ]
get_elem?-In (x ∷ xs) zero h = (x, refl, inl refl)
get_elem?-In (x ∷ xs) (suc i) h = let (y, e, m) = get_elem?-In xs i (omega arith) in (y, e, inr m)

some_variant :
    (e : Experiment) (user v0 : Str) (vs : List Str)
    → e.variants ≡ v0 ∷ vs
    → variant_index e user < length e.variants
unfolding variant_index
some_variant e user v0 vs shape =
    let long : length e.variants ≡ suc (length vs) = ap length shape in grind (arith, mod-lt)

assign-In :
    (exposure : CounterVec) (e : Experiment) (user : Str) (vs : List Str)
    → e.variants ≡ vs
    → vs ≢ []
    → (v : Str) × In v e.variants
      × (assign exposure e user vs ≡ (counter_inc exposure (e.name ∷ v ∷ []), some v))
unfolding assign exposed variant_index
assign-In exposure e user [] shape ne = absurd (ne refl)
assign-In exposure e user (v0 ∷ vs) shape ne =
    let (v, found, member) =
      get_elem?-In e.variants (variant_index e user) (some_variant e user v0 vs shape) in
    (v, member, ground arith)

-- An experiment with variants assigns every user one of its variants, never indexes out of range, and
-- counts exactly one exposure, of that variant.
pub assign_variant-In :
    (exposure : CounterVec) (e : Experiment) (user : Str)
    → e.variants ≢ []
    → (v : Str) × In v e.variants
      × (assign_variant exposure e user ≡ (counter_inc exposure (e.name ∷ v ∷ []), some v))
unfolding assign_variant
assign_variant-In exposure e user ne = assign-In exposure e user e.variants refl ne
