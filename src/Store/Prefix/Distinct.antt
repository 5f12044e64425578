-- ===== src/Store/Prefix/Distinct.antt =====
-- Maps in which each key stands once, and what a listing by prefix keeps of that.
use feature_flags_control_pl.Shared.{
  ◌≡◌, refl, ◌∙◌, inl, inr, Bool, Bool-cases, false, true, Option, none, some, [], ◌∷◌, Str, arith,
  str_eq, str_eq_iff, has_prefix, Dict, lookup, insert, Distinct, insert-Distinct, All,
  if◌then◌else◌,
}
use feature_flags_control_pl.Store.Prefix.{filter_prefix}
use feature_flags_control_pl.Store.Prefix.Pages.{filter_prefix-lookup}

pub filter_prefix-Distinct :
    (prefix : Str) (m out : Dict Str) → Distinct out → Distinct (filter_prefix prefix m out)
unfolding filter_prefix
filter_prefix-Distinct prefix [] out d = d
filter_prefix-Distinct prefix ((k, v) ∷ m) out d = elim (Bool-cases (has_prefix k prefix)) [
  | inl wanted ↦
      rw wanted (filter_prefix-Distinct prefix m (insert k v out) (insert-Distinct k v out d))
  | inr other ↦ rw other (filter_prefix-Distinct prefix m out d)
]

-- What holds of every entry that is looked up holds of every entry of the list.
pub All-of_lookup :
    (P : Str × Str → Type 0) (m : Dict Str)
    → Distinct m
    → ((k v : Str) → lookup k m ≡ some v → P (k, v))
    → All P m
unfolding lookup
All-of_lookup P [] d h = tt
All-of_lookup P ((j, w) ∷ m) (fresh, d) h = (
  h j w (ground (arith, str_eq_iff j j)),
  All-of_lookup P m d (λ k v found. h k v (later k v found)),
)
  where
    later : (k v : Str) → lookup k m ≡ some v → lookup k ((j, w) ∷ m) ≡ some v
    later k v found = elim (Bool-cases (str_eq j k)) [
      | inl same ↦ absurd (ground (arith, str_eq_iff j k))
      | inr other ↦ rw other found
    ]

same_or_none :
    (b : Bool) (o : Option Str)
    → (if b then elim o [ none ↦ none | some v ↦ some v ] else none) ≡ (if b then o else none)
same_or_none true none = refl
same_or_none true (some v) = refl
same_or_none false o = refl

pub lookup-filter_prefix :
    (prefix k : Str) (m : Dict Str)
    → Distinct m
    → lookup k (filter_prefix prefix m []) ≡ (if has_prefix k prefix then lookup k m else none)
unfolding lookup
lookup-filter_prefix prefix k m d =
    filter_prefix-lookup prefix k m [] d ∙ same_or_none (has_prefix k prefix) (lookup k m)

-- An entry of a listing is an entry of the map, and its key has the prefix.
pub filter_prefix-found :
    (prefix k v : Str) (m : Dict Str)
    → Distinct m
    → lookup k (filter_prefix prefix m []) ≡ some v
    → (has_prefix k prefix ≡ true) × (lookup k m ≡ some v)
filter_prefix-found prefix k v m d found =
    let listed = lookup-filter_prefix prefix k m d in
    (ground (arith, listed), ground (arith, listed))
