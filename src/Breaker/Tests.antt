-- ===== src/Breaker/Tests.antt =====
-- The circuit breaker at concrete inputs.
use feature_flags_control_pl.Shared.{
  ℕ, ◌+◌, ◌≤◌, ◌<◌, ◌≡◌, refl, true, false, List, [], ◌∷◌, lit, arith, str_eq, All,
}
use feature_flags_control_pl.Shared.Int.{pos}
use feature_flags_control_pl.Breaker.{
  CircuitBreaker, closed_state, open_state, half_open_state, ten_seconds, set_last_change, is_due,
  refresh_state, check_state, check, record_success, record_failure, latency_exceeded, observe,
}
use feature_flags_control_pl.Breaker.Steps.{
  Op, checked, observed, apply, run, Probe, closed_needs-Probe,
}
use feature_flags_control_pl.Breaker.Probes.{allowed_checks, open_limit}
use feature_flags_control_pl.Breaker.Threshold.{succeed_all, probe_failure-stays_half_open}

-- A breaker that opened at 0.
abbrev tripped : CircuitBreaker
tripped = record {
  route = lit "/a";
  state = open_state;
  error_threshold = record { num = pos 1; scale = 1 };
  latency_ms = pos 0;
  latency_threshold_ms = pos 250;
  last_transition_unix = pos 0;
  successes = 0;
  failures = 0;
  last_change = 0;
  open_duration = ten_seconds;
  probe_in_flight = false;
}

abbrev recovery : List Op
recovery = checked 5 ∷ checked ten_seconds ∷ observed 10000000005 true (pos 3) ∷ []

recovered : (run tripped recovery).state ≡ closed_state
unfolding apply check check_state refresh_state is_due set_last_change observe latency_exceeded
    record_success record_failure str_eq
recovered = refl

closed_needs-Probe_example : Probe tripped recovery
closed_needs-Probe_example = closed_needs-Probe tripped recovery refl recovered

abbrev early : List ℕ
early = 1 ∷ 2 ∷ 3 ∷ []

open_limit_example :
    (allowed_checks tripped early ≤ 1)
    × (All (λ now. now < tripped.last_change + tripped.open_duration) early
        → allowed_checks tripped early ≡ 0)
open_limit_example = open_limit tripped early refl

probe_failure-stays_half_open_example :
    let probed = check (succeed_all tripped (1 ∷ 2 ∷ [])) ten_seconds in
    let failed = record_failure probed.breaker 10000000001 in
    (probed.allowed ≡ true)
    × (failed.state ≡ half_open_state)
    × ((check failed 10000000002).allowed ≡ true)
probe_failure-stays_half_open_example =
    probe_failure-stays_half_open tripped 1 2 [] ten_seconds 10000000001 10000000002 refl refl refl
      refl (omega arith)
