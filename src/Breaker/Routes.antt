-- ===== src/Breaker/Routes.antt =====
-- No operation changes the route of a circuit breaker.
use feature_flags_control_pl.Shared.{ℕ, ◌≡◌, refl, ◌∙◌, Bool, Str, arith}
use feature_flags_control_pl.Shared.Int.{ℤ}
use feature_flags_control_pl.Breaker.{
  CircuitBreaker, new_circuit_breaker, set_last_change, refresh_state, check_state, check,
  record_success, record_failure, observe, set_state,
}

pub new_circuit_breaker-route :
    (route : Str) (now : ℕ) → (new_circuit_breaker route now).route ≡ route
unfolding new_circuit_breaker set_last_change
new_circuit_breaker-route route now = refl

refresh_state-route : (cb : CircuitBreaker) (now : ℕ) → (refresh_state cb now).route ≡ cb.route
unfolding refresh_state set_last_change
refresh_state-route cb now = ground arith

check_state-route : (cb : CircuitBreaker) → (check_state cb).breaker.route ≡ cb.route
unfolding check_state
check_state-route cb = ground arith

pub check-route : (cb : CircuitBreaker) (now : ℕ) → (check cb now).breaker.route ≡ cb.route
unfolding check
check-route cb now = check_state-route (refresh_state cb now) ∙ refresh_state-route cb now

record_success-route : (cb : CircuitBreaker) (now : ℕ) → (record_success cb now).route ≡ cb.route
unfolding record_success set_last_change
record_success-route cb now = ground arith

record_failure-route : (cb : CircuitBreaker) (now : ℕ) → (record_failure cb now).route ≡ cb.route
unfolding record_failure set_last_change
record_failure-route cb now = ground arith

pub observe-route :
    (cb : CircuitBreaker) (now : ℕ) (success : Bool) (latency : ℤ)
    → (observe cb now success latency).route ≡ cb.route
unfolding observe
observe-route cb now success latency =
    let noted = record cb { latency_ms = latency } in
    ground (arith, record_success-route noted now, record_failure-route noted now)

pub set_state-route :
    (cb : CircuitBreaker) (state : Str) (now : ℕ) → (set_state cb state now).route ≡ cb.route
unfolding set_state set_last_change
set_state-route cb state now = refl
