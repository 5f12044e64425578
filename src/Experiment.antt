-- ===== src/Experiment.antt =====
-- control-plane/experiment.go: assignment of a user to a variant, and the two counters.
pub mod Assign
mod Tests
use feature_flags_control_pl.Shared.{
  ℕ, ◌+◌, ◌%◌, Option, none, some, List, [], ◌∷◌, ◌++◌, Str, lit, length, get_elem?,
}
use feature_flags_control_pl.Flag.{hash_string}
use feature_flags_control_pl.Metrics.{CounterVec, counter_inc}

pub record Experiment : Type 0 where
  pub name : Str
  pub variants : List Str

-- `int(h) % len(e.Variants)`; an int holds every uint32.
pub variant_index : Experiment → Str → ℕ
variant_index e user_id = hash_string (user_id ++ (lit "|" ++ e.name)) % length e.variants

unfoldable pub exposed : CounterVec → Experiment → Option Str → CounterVec × Option Str
exposed exposure e none = (exposure, none)
exposed exposure e (some variant) = (counter_inc exposure (e.name ∷ variant ∷ []), some variant)

unfoldable pub assign : CounterVec → Experiment → Str → List Str → CounterVec × Option Str
assign exposure e user_id [] = (exposure, some [])
assign exposure e user_id (_ ∷ _) =
    exposed exposure e (get_elem? e.variants (variant_index e user_id))

-- `AssignVariant` with the exposure counter; `none` is an index out of range, a panic in Go.
unfoldable pub assign_variant : CounterVec → Experiment → Str → CounterVec × Option Str
assign_variant exposure e user_id = assign exposure e user_id e.variants

unfoldable pub record_conversion : CounterVec → Experiment → Str → CounterVec
record_conversion events e variant = counter_inc events (e.name ∷ variant ∷ [])
