-- ===== src/Breaker.antt =====
-- control-plane/ratelimit.go, the circuit breaker. Times are nanoseconds of one clock, `now` being
-- what `time.Now()` returns. A threshold, a float64 in the source, is the fraction num / 2 ^ scale
-- that a finite float64 denotes; the quotient of the counters is compared to it exactly, where the
-- source rounds the quotient. The counters are unbounded.
pub mod Steps
pub mod Probes
pub mod Routes
pub mod Threshold
pub mod Restore
mod Tests
use feature_flags_control_pl.Shared.{
  ℕ, suc, ◌+◌, ◌*◌, ◌^◌, Bool, true, false, ◌&&◌, not, List, [], ◌∷◌, Str, lit, str_eq, ltb, leb,
  if◌then◌else◌,
}
use feature_flags_control_pl.Shared.Int.{ℤ, pos, ltb_ℤ, leb_ℤ, ◌*ℤ◌}

abbrev pub closed_state : Str
closed_state = lit "closed"

abbrev pub open_state : Str
open_state = lit "open"

abbrev pub half_open_state : Str
half_open_state = lit "half-open"

pub record Fraction : Type 0 where
  pub num : ℤ
  pub scale : ℕ

pub record CircuitBreaker : Type 0 where
  pub route : Str
  pub state : Str
  pub error_threshold : Fraction
  pub latency_ms : ℤ
  pub latency_threshold_ms : ℤ
  pub last_transition_unix : ℤ
  pub successes : ℕ
  pub failures : ℕ
  pub last_change : ℕ
  pub open_duration : ℕ
  pub probe_in_flight : Bool

-- 10 * time.Second
abbrev pub ten_seconds : ℕ
ten_seconds = 10000000000

unfoldable pub set_last_change : CircuitBreaker → ℕ → CircuitBreaker
set_last_change cb now = record cb { last_change = now; last_transition_unix = pos now }

pub new_circuit_breaker : Str → ℕ → CircuitBreaker
new_circuit_breaker route now =
    set_last_change
      (record {
        route = route;
        state = closed_state;
        error_threshold = record { num = pos 1; scale = 1 };
        latency_ms = pos 0;
        latency_threshold_ms = pos 250;
        last_transition_unix = pos 0;
        successes = 0;
        failures = 0;
        last_change = 0;
        open_duration = ten_seconds;
        probe_in_flight = false;
      })
      now

-- `time.Unix(0, n)` for a positive `n`.
unfoldable pub restored_time : ℤ → ℕ → CircuitBreaker → CircuitBreaker
restored_time (pos (suc n)) now cb = record cb { last_change = n + 1 }
restored_time _ now cb = set_last_change cb now

unfoldable pub restore_runtime_state : CircuitBreaker → ℕ → CircuitBreaker
restore_runtime_state cb now =
    let timed =
      restored_time cb.last_transition_unix now (record cb { open_duration = ten_seconds }) in
    record timed { probe_in_flight = false }

-- `now.Sub(cb.lastChange) >= cb.openDuration`
pub is_due : CircuitBreaker → ℕ → Bool
is_due cb now = leb (cb.last_change + cb.open_duration) now

pub refresh_state : CircuitBreaker → ℕ → CircuitBreaker
refresh_state cb now =
    if str_eq cb.state open_state && is_due cb now
    then set_last_change (record cb { state = half_open_state; probe_in_flight = false }) now
    else cb

pub record Checked : Type 0 where
  pub breaker : CircuitBreaker
  pub allowed : Bool
  pub state : Str

-- The `switch` of `Check`, behind the refresh.
pub check_state : CircuitBreaker → Checked
check_state cb =
    if str_eq cb.state open_state
    then record { breaker = cb; allowed = false; state = cb.state }
    else if str_eq cb.state half_open_state
    then if cb.probe_in_flight
      then record { breaker = cb; allowed = false; state = cb.state }
      else record {
        breaker = record cb { probe_in_flight = true };
        allowed = true;
        state = cb.state;
      }
    else record { breaker = cb; allowed = true; state = cb.state }

pub check : CircuitBreaker → ℕ → Checked
check cb now = check_state (refresh_state cb now)

pub record_success : CircuitBreaker → ℕ → CircuitBreaker
record_success cb now =
    let counted = record cb {
      successes = cb.successes + 1;
      latency_ms = pos 0;
      probe_in_flight = false;
    } in
    if str_eq cb.state half_open_state
    then set_last_change (record counted { state = closed_state; successes = 0; failures = 0 }) now
    else counted

-- `total > 0 && float64(failures)/float64(total) >= threshold`
pub exceeds : ℕ → ℕ → Fraction → Bool
exceeds failures total t = ltb 0 total && leb_ℤ (t.num *ℤ pos total) (pos (failures * 2 ^ t.scale))

pub record_failure : CircuitBreaker → ℕ → CircuitBreaker
record_failure cb now =
    let counted = record cb { failures = cb.failures + 1; probe_in_flight = false } in
    let total = cb.successes + (cb.failures + 1) in
    if exceeds (cb.failures + 1) total cb.error_threshold
    then set_last_change (record counted { state = open_state; successes = 0; failures = 0 }) now
    else counted

pub latency_exceeded : CircuitBreaker → ℤ → Bool
latency_exceeded cb latency =
    ltb_ℤ (pos 0) cb.latency_threshold_ms && ltb_ℤ cb.latency_threshold_ms latency

pub observe : CircuitBreaker → ℕ → Bool → ℤ → CircuitBreaker
observe cb now success latency =
    let noted = record cb { latency_ms = latency } in
    if success && not (latency_exceeded cb latency)
    then record_success noted now
    else record_failure noted now

pub set_state : CircuitBreaker → Str → ℕ → CircuitBreaker
set_state cb state now =
    set_last_change
      (record cb { state = state; successes = 0; failures = 0; probe_in_flight = false }) now

-- The gauge value, in halves.
pub state_to_float : Str → ℕ
state_to_float state =
    if str_eq state open_state then 2 else if str_eq state half_open_state then 1 else 0
