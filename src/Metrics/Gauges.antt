-- ===== src/Metrics/Gauges.antt =====
-- The values of a gauge with one label.
use feature_flags_control_pl.Shared.{
  ℕ, ◌≡◌, refl, Bool-cases, inl, inr, Str, [], ◌∷◌, str_eq, lookup-insert, if◌then◌else◌,
}
use feature_flags_control_pl.Metrics.{
  GaugeVec, join, label_key, gauge_entry, gauge_set, gauge_value,
}

-- Setting one value leaves the others.
pub gauge_value-set :
    (gv : GaugeVec) (r k : Str) (v : ℕ)
    → gauge_value (gauge_set gv (r ∷ []) v) (k ∷ [])
      ≡ (if str_eq r k then v else gauge_value gv (k ∷ []))
unfolding gauge_value gauge_set gauge_entry label_key join
gauge_value-set gv r k v = elim (Bool-cases (str_eq r k)) [
  | inl same ↦ rw (gauge_value, gauge_entry, lookup-insert, same) refl
  | inr other ↦ rw (gauge_value, gauge_entry, lookup-insert, other) refl
]
