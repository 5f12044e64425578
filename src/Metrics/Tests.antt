-- ===== src/Metrics/Tests.antt =====
-- The metrics at concrete inputs.
use feature_flags_control_pl.Shared.{
  ℕ, ◌≡◌, refl, false, some, List, [], ◌∷◌, ◌++◌, Str, lit, length,
}
use feature_flags_control_pl.Metrics.{
  int64, CounterVec, new_counter, new_hist_entry, zeros, observe_entry, bump_counts, replace_byte,
  escape_label,
}
use feature_flags_control_pl.Metrics.Labels.{read_value, read_value-escape_label}
use feature_flags_control_pl.Metrics.Histograms.{observe_all, cumulative, sum, observe-cumulative}

abbrev requests : CounterVec
requests =
    new_counter (lit "control_plane_requests_total") (lit "Total requests handled.")
      (lit "route" ∷ [])

abbrev root_route : List Str
root_route = lit "/" ∷ []

abbrev latencies : List ℕ
latencies = 7 ∷ 30 ∷ 1 ∷ []

observe-cumulative_example :
    ((observe_all (new_hist_entry root_route (5 ∷ 10 ∷ [])) latencies).counts
      ≡ cumulative (5 ∷ 10 ∷ []) latencies)
    × ((observe_all (new_hist_entry root_route (5 ∷ 10 ∷ [])) latencies).total
        ≡ int64 (length latencies))
    × ((observe_all (new_hist_entry root_route (5 ∷ 10 ∷ [])) latencies).sum ≡ sum latencies)
observe-cumulative_example = observe-cumulative root_route (5 ∷ 10 ∷ []) latencies

counts_of_latencies :
    (observe_all (new_hist_entry root_route (5 ∷ 10 ∷ [])) latencies).counts ≡ 1 ∷ 2 ∷ 3 ∷ []
unfolding observe_entry new_hist_entry zeros bump_counts
counts_of_latencies = refl

escaped : escape_label (34 ∷ 97 ∷ 10 ∷ []) ≡ 92 ∷ 34 ∷ 97 ∷ 92 ∷ 110 ∷ []
unfolding escape_label replace_byte
escaped = refl

read_value-escape_label_example :
    read_value false (escape_label (34 ∷ 97 ∷ 92 ∷ []) ++ 34 ∷ lit ",x")
    ≡ some (34 ∷ 97 ∷ 92 ∷ [], lit ",x")
read_value-escape_label_example = read_value-escape_label (34 ∷ 97 ∷ 92 ∷ []) (lit ",x")
