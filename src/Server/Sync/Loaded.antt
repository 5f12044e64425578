-- ===== src/Server/Sync/Loaded.antt =====
-- What a reload makes of the stored flags.
use feature_flags_control_pl.Shared.{
  Distinct, ◌≡◌, refl, Option, none, some, [], ◌∷◌, ◌++◌, Str, lit, arith, str_eq, str_eq_iff, Dict,
  lookup, insert, lookup-insert,
}
use feature_flags_control_pl.Flag.{FeatureFlag}
use feature_flags_control_pl.Server.{Codec}
use feature_flags_control_pl.Server.Sync.{add_flag, load_flags}

-- Each stored flag decodes, and stands under its own name.
abbrev pub Consistent : Codec → Dict Str → Type 0
Consistent c [] = Unit
Consistent c ((k, v) ∷ entries) =
    ((f : FeatureFlag) × (c.unmarshal_flag v ≡ some f) × (k ≡ lit "flag:" ++ f.name))
    × Consistent c entries

-- The decoded flag at the key of a name, or else what was there.
abbrev flag_at : Codec → Dict Str → Str → Option FeatureFlag → Option FeatureFlag
flag_at c entries name other = elim (lookup (lit "flag:" ++ name) entries) [
  | none ↦ other
  | some v ↦ c.unmarshal_flag v
]

key_eq : (a b : Str) → str_eq (lit "flag:" ++ a) (lit "flag:" ++ b) ≡ str_eq a b
key_eq a b = unfold str_eq in refl

load_flags-from :
    (c : Codec) (entries : Dict Str) (next : Dict FeatureFlag) (name : Str)
    → Distinct entries
    → Consistent c entries
    → lookup name (load_flags c entries next) ≡ flag_at c entries name (lookup name next)
unfolding load_flags add_flag lookup
load_flags-from c [] next name d h = refl
load_flags-from c ((k, v) ∷ entries) next name d ((f, decoded, at), h) =
    let ih = load_flags-from c entries (insert f.name f next) name d.1 h in
    rw (decoded, at)
      (ground (
        arith,
        ih,
        key_eq f.name name,
        str_eq_iff f.name name,
        lookup-insert f.name name f next,
        d.0,
        at,
      ))

-- From a store whose flag entries each decode to a flag of the entry's own name, a reload knows under
-- every name just the flag that stands in the store for it, whatever order the entries are visited in.
pub load_flags-lookup :
    (c : Codec) (entries : Dict Str) (name : Str)
    → Distinct entries
    → Consistent c entries
    → lookup name (load_flags c entries [])
      ≡ (elim (lookup (lit "flag:" ++ name) entries) [ none ↦ none | some v ↦ c.unmarshal_flag v ])
load_flags-lookup c entries name d h = unfold lookup in load_flags-from c entries [] name d h
