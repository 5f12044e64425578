-- ===== src/Breaker/Steps.antt =====
-- The breaker as a state machine: its operations as steps, and the moves between its states.
use feature_flags_control_pl.Shared.{
  ℕ, ◌+◌, ◌≤◌, ◌≡◌, refl, sym, ◌∙◌, ap, ◌≢◌, ◌⊎◌, inl, inr, Bool, true, false, List, [], ◌∷◌, ◌++◌,
  Str, arith, str_eq, str_eq_iff, Bool-cases,
}
use feature_flags_control_pl.Shared.Int.{ℤ}
use feature_flags_control_pl.Breaker.{
  CircuitBreaker, closed_state, open_state, half_open_state, set_last_change, is_due, refresh_state,
  check_state, check, record_success, exceeds, record_failure, latency_exceeded, observe,
}
use feature_flags_control_pl.Breaker.Probes.{check-due}

-- The operations of the data path. `SetState`, which the administrator calls, is not among them.
pub data Op : Type 0 where
  checked : ℕ → Op
  observed : ℕ → Bool → ℤ → Op

unfoldable pub apply : CircuitBreaker → Op → CircuitBreaker
apply cb (checked now) = (check cb now).breaker
apply cb (observed now success latency) = observe cb now success latency

abbrev pub run : CircuitBreaker → List Op → CircuitBreaker
run cb [] = cb
run cb (op ∷ ops) = run (apply cb op) ops

-- What a reported outcome does to the state.
pub data Reported (s t : Str) : Type 0 where
  stay : t ≡ s → Reported s t
  trip : t ≡ open_state → Reported s t
  recover : s ≡ half_open_state → t ≡ closed_state → Reported s t

pub data Move (s t : Str) : Type 0 where
  reported : Reported s t → Move s t
  probe : s ≡ open_state → t ≡ half_open_state → Move s t

pub states_apart :
    (str_eq half_open_state open_state ≡ false)
    × (str_eq closed_state open_state ≡ false)
    × (str_eq closed_state half_open_state ≡ false)
    × (str_eq open_state half_open_state ≡ false)
    × (str_eq open_state open_state ≡ true)
    × (str_eq half_open_state half_open_state ≡ true)
unfolding str_eq
states_apart = (refl, refl, refl, refl, refl, refl)

check_state-state : (cb : CircuitBreaker) → (check_state cb).breaker.state ≡ cb.state
unfolding check_state
check_state-state cb = ground arith

-- A check moves the breaker only from open to half-open, and only once it has been open for its
-- duration.
pub check-Move :
    (cb : CircuitBreaker) (now : ℕ)
    → ((check cb now).breaker.state ≡ cb.state)
      ⊎ ((cb.state ≡ open_state)
          × ((check cb now).breaker.state ≡ half_open_state)
          × (cb.last_change + cb.open_duration ≤ now))
unfolding check refresh_state set_last_change is_due
check-Move cb now = elim (Bool-cases (str_eq cb.state open_state)) [
  | inl e ↦ elim (Bool-cases (is_due cb now)) [
    | inl due ↦ inr ((str_eq_iff _ _).0 e, rw check_state-state (ground arith), ground arith)
    | inr early ↦ inl (rw check_state-state (ground arith))
  ]
  | inr e ↦ inl (rw check_state-state (ground arith))
]

record_failure-Reported :
    (cb : CircuitBreaker) (now : ℕ) → Reported cb.state (record_failure cb now).state
unfolding record_failure set_last_change
record_failure-Reported cb now =
    elim (Bool-cases
      (exceeds (cb.failures + 1) (cb.successes + (cb.failures + 1)) cb.error_threshold)) [
        | inl e ↦ trip (ground arith)
        | inr e ↦ stay (ground arith)
      ]

record_success-Reported :
    (cb : CircuitBreaker) (now : ℕ) → Reported cb.state (record_success cb now).state
unfolding record_success set_last_change
record_success-Reported cb now = elim (Bool-cases (str_eq cb.state half_open_state)) [
  | inl e ↦ recover ((str_eq_iff _ _).0 e) (ground arith)
  | inr e ↦ stay (ground arith)
]

observe-Reported :
    (cb : CircuitBreaker) (now : ℕ) (success : Bool) (latency : ℤ)
    → Reported cb.state (observe cb now success latency).state
unfolding observe
observe-Reported cb now true latency = elim (Bool-cases (latency_exceeded cb latency)) [
  | inl slow ↦ rw slow (record_failure-Reported (record cb { latency_ms = latency }) now)
  | inr fast ↦ rw fast (record_success-Reported (record cb { latency_ms = latency }) now)
]
observe-Reported cb now false latency =
    record_failure-Reported (record cb { latency_ms = latency }) now

-- Every check and every reported outcome leaves the breaker's state, moves it to open, moves it from
-- open to half-open, or moves it from half-open to closed.
pub apply-Move : (cb : CircuitBreaker) (op : Op) → Move cb.state (apply cb op).state
unfolding apply
apply-Move cb (checked now) = elim (check-Move cb now) [
  | inl same ↦ reported (stay same)
  | inr (from, to, _) ↦ probe from to
]
apply-Move cb (observed now success latency) = reported (observe-Reported cb now success latency)

open_ne_half : open_state ≢ half_open_state
open_ne_half h = cc

open_ne_closed : open_state ≢ closed_state
open_ne_closed h = cc

-- The first check that finds the breaker open for its whole duration, and is let through.
pub record Probe (cb : CircuitBreaker) (ops : List Op) : Type 0 where
  pub before : List Op
  pub now : ℕ
  pub after : List Op
  pub split : ops ≡ before ++ checked now ∷ after
  pub was_open : (run cb before).state ≡ open_state
  pub waited : (run cb before).last_change + (run cb before).open_duration ≤ now
  pub let_through : (check (run cb before) now).allowed ≡ true

Probe-later :
    (cb : CircuitBreaker) (op : Op) {ops : List Op} → Probe (apply cb op) ops → Probe cb (op ∷ ops)
Probe-later cb op p = record {
  before = op ∷ p.before;
  now = p.now;
  after = p.after;
  split = ap (λ r. op ∷ r) p.split;
  was_open = p.was_open;
  waited = p.waited;
  let_through = p.let_through;
}

observed-open :
    (cb : CircuitBreaker) (now : ℕ) (success : Bool) (latency : ℤ)
    → cb.state ≡ open_state
    → (observe cb now success latency).state ≡ open_state
observed-open cb now success latency o = elim (observe-Reported cb now success latency) [
  | stay e ↦ e ∙ o
  | trip e ↦ e
  | recover e f ↦ absurd (open_ne_half (sym o ∙ e))
]

-- An open breaker that checks and reported outcomes, in any order, have made closed was let through a
-- check on the way, made while it was open and at least its open duration after its last change.
pub closed_needs-Probe :
    (cb : CircuitBreaker) (ops : List Op)
    → cb.state ≡ open_state
    → (run cb ops).state ≡ closed_state
    → Probe cb ops
unfolding apply
closed_needs-Probe cb [] o c = absurd (open_ne_closed (sym o ∙ c))
closed_needs-Probe cb (checked now ∷ ops) o c = elim (check-Move cb now) [
  | inl same ↦
      Probe-later cb (checked now) (closed_needs-Probe (check cb now).breaker ops (same ∙ o) c)
  | inr (from, to, due) ↦ record {
    before = [];
    now = now;
    after = ops;
    split = refl;
    was_open = o;
    waited = due;
    let_through = ap (λ r. r.allowed) (check-due cb now o due);
  }
]
closed_needs-Probe cb (observed now success latency ∷ ops) o c =
    Probe-later cb (observed now success latency) (
      closed_needs-Probe (observe cb now success latency) ops
        (observed-open cb now success latency o) c)
