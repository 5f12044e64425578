-- ===== src/Metrics/Registry.antt =====
-- control-plane/metrics.go: the metrics of the control plane as they are registered, in their order.
use feature_flags_control_pl.Shared.{[], ◌∷◌, lit}
use feature_flags_control_pl.Metrics.{
  CounterVec, GaugeVec, HistogramVec, new_counter, new_gauge, new_histogram,
}

abbrev pub qps : CounterVec
qps =
    new_counter (lit "control_plane_requests_total")
      (lit "Total requests handled, labelled by route.") (lit "route" ∷ [])

abbrev pub error_rate : CounterVec
error_rate =
    new_counter (lit "control_plane_errors_total")
      (lit "Total HTTP errors (4xx/5xx), labelled by route.") (lit "route" ∷ [])

abbrev pub latency : HistogramVec
latency =
    new_histogram (lit "control_plane_latency_ms") (lit "Request latency in milliseconds.")
      (1 ∷ 5 ∷ 10 ∷ 25 ∷ 50 ∷ 100 ∷ 250 ∷ 500 ∷ 1000 ∷ 2500 ∷ []) (lit "route" ∷ [])

abbrev pub variant_exposure : CounterVec
variant_exposure =
    new_counter (lit "experiment_variant_exposure_total")
      (lit "Number of times each variant was exposed to a user.")
      (lit "experiment" ∷ lit "variant" ∷ [])

abbrev pub conversion_events : CounterVec
conversion_events =
    new_counter (lit "experiment_conversion_total")
      (lit "Conversion events per experiment and variant.") (lit "experiment" ∷ lit "variant" ∷ [])

abbrev pub flag_evaluations : CounterVec
flag_evaluations =
    new_counter (lit "feature_flag_evaluations_total")
      (lit "Feature flag evaluation results, labelled by flag name and result.")
      (lit "flag" ∷ lit "result" ∷ [])

abbrev pub throttled_requests : CounterVec
throttled_requests =
    new_counter (lit "rate_limit_throttled_total")
      (lit "Total requests rejected by the rate limiter, labelled by route.") (lit "route" ∷ [])

abbrev pub circuit_breaker_state_gauge : GaugeVec
circuit_breaker_state_gauge =
    new_gauge (lit "circuit_breaker_state")
      (lit "Current circuit breaker state per route (0=closed, 0.5=half-open, 1=open).")
      (lit "route" ∷ [])
