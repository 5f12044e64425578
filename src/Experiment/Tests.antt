-- ===== src/Experiment/Tests.antt =====
-- An experiment of the demo, assigned.
use feature_flags_control_pl.Shared.{◌≡◌, some, [], ◌∷◌, Str, lit, In}
use feature_flags_control_pl.Metrics.{CounterVec, new_counter, counter_inc}
use feature_flags_control_pl.Experiment.{Experiment, assign_variant}
use feature_flags_control_pl.Experiment.Assign.{assign_variant-In}

abbrev button_color : Experiment
button_color = record { name = lit "button-color"; variants = lit "blue" ∷ lit "green" ∷ [] }

abbrev exposure : CounterVec
exposure =
    new_counter (lit "experiment_variant_exposure_total") [] (lit "experiment" ∷ lit "variant" ∷ [])

assign_variant-In_example :
    (v : Str) × In v button_color.variants
    × (assign_variant exposure button_color (lit "alice")
        ≡ (counter_inc exposure (lit "button-color" ∷ v ∷ []), some v))
assign_variant-In_example = assign_variant-In exposure button_color (lit "alice") (λ e. cc)
