-- ===== src/Breaker/Restore.antt =====
-- What `restoreRuntimeState` leaves of a decoded breaker.
use feature_flags_control_pl.Shared.{ℕ, zero, suc, ◌≡◌, false, arith}
use feature_flags_control_pl.Shared.Int.{ℤ, pos, negsuc}
use feature_flags_control_pl.Breaker.{
  CircuitBreaker, ten_seconds, set_last_change, restored_time, restore_runtime_state,
}

pub record Restored (before after : CircuitBreaker) : Type 0 where
  pub route_kept : after.route ≡ before.route
  pub state_kept : after.state ≡ before.state
  pub successes_kept : after.successes ≡ before.successes
  pub failures_kept : after.failures ≡ before.failures
  pub no_probe : after.probe_in_flight ≡ false
  pub waits : after.open_duration ≡ ten_seconds

restored_time-Restored :
    (z : ℤ) (now : ℕ) (cb : CircuitBreaker)
    → Restored cb (record (restored_time z now (record cb { open_duration = ten_seconds })) {
      probe_in_flight = false;
    })
unfolding restored_time set_last_change
restored_time-Restored (pos zero) now cb = ground arith
restored_time-Restored (pos (suc n)) now cb = ground arith
restored_time-Restored (negsuc n) now cb = ground arith

pub restore_runtime_state-Restored :
    (cb : CircuitBreaker) (now : ℕ) → Restored cb (restore_runtime_state cb now)
unfolding restore_runtime_state
restore_runtime_state-Restored cb now = restored_time-Restored cb.last_transition_unix now cb
