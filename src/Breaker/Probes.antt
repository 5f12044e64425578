-- ===== src/Breaker/Probes.antt =====
-- How many checks a breaker lets through.
use feature_flags_control_pl.Shared.{
  ℕ, suc, ◌+◌, ◌≤◌, ◌<◌, ◌≡◌, refl, ◌≢◌, leb→le, ◌⊎◌, inl, inr, true, false, not, List, [], ◌∷◌,
  Str, arith, str_eq, str_eq_iff, if◌then◌else◌, Bool-cases, All,
}
use feature_flags_control_pl.Breaker.{
  CircuitBreaker, open_state, half_open_state, set_last_change, is_due, refresh_state, check_state,
  check, set_state,
}

-- Checks at the given times, with no outcome reported in between: how many are let through.
pub allowed_checks : CircuitBreaker → List ℕ → ℕ
allowed_checks cb [] = 0
allowed_checks cb (now ∷ times) =
    let rest = allowed_checks (check cb now).breaker times in
    if (check cb now).allowed then suc rest else rest

pub half_open_case :
    (t : Str)
    → t ≡ half_open_state
    → (str_eq t open_state ≡ false) × (str_eq t half_open_state ≡ true)
unfolding str_eq
half_open_case t e = (rw e, rw e)

pub open_case :
    (t : Str) → t ≡ open_state → (str_eq t open_state ≡ true) × (str_eq t half_open_state ≡ false)
unfolding str_eq
open_case t e = (rw e, rw e)

-- A half-open breaker stays half-open under checks; it lets one through if no probe is in flight.
pub check-half_open :
    (cb : CircuitBreaker) (now : ℕ)
    → cb.state ≡ half_open_state
    → ((check cb now).breaker.state ≡ half_open_state)
      × ((check cb now).breaker.probe_in_flight ≡ true)
      × ((check cb now).allowed ≡ not cb.probe_in_flight)
unfolding check check_state refresh_state
check-half_open cb now h =
    let apart = half_open_case cb.state h in (ground arith, ground arith, ground arith)

pub check-half_open_state :
    (cb : CircuitBreaker) (now : ℕ)
    → cb.state ≡ half_open_state
    → (check cb now).state ≡ half_open_state
unfolding check check_state refresh_state
check-half_open_state cb now h = let apart = half_open_case cb.state h in ground arith

-- A check answers with the state that it leaves.
pub check-state :
    (cb : CircuitBreaker) (now : ℕ) → (check cb now).state ≡ (check cb now).breaker.state
unfolding check check_state
check-state cb now = ground arith

-- An open breaker that is due, after the refresh.
abbrev pub refreshed : CircuitBreaker → ℕ → CircuitBreaker
refreshed cb now =
    set_last_change (record cb { state = half_open_state; probe_in_flight = false }) now

pub refresh_state-due :
    (cb : CircuitBreaker) (now : ℕ)
    → cb.state ≡ open_state
    → is_due cb now ≡ true
    → refresh_state cb now ≡ refreshed cb now
unfolding refresh_state
refresh_state-due cb now h due = ground (arith, open_case cb.state h)

refresh_state-early :
    (cb : CircuitBreaker) (now : ℕ) → is_due cb now ≡ false → refresh_state cb now ≡ cb
unfolding refresh_state
refresh_state-early cb now early = ground arith

check_state-open :
    (cb : CircuitBreaker)
    → cb.state ≡ open_state
    → ((check_state cb).breaker ≡ cb) × ((check_state cb).allowed ≡ false)
unfolding check_state
check_state-open cb h = (ground (arith, open_case cb.state h), ground (arith, open_case cb.state h))

-- An open breaker either stays as it is and refuses, or is due, turns half-open and lets the check
-- through as its probe.
pub check-open :
    (cb : CircuitBreaker) (now : ℕ)
    → cb.state ≡ open_state
    → ((check cb now).breaker ≡ cb)
        × ((check cb now).allowed ≡ false)
        × (now < cb.last_change + cb.open_duration)
      ⊎ ((check cb now).breaker.state ≡ half_open_state)
        × ((check cb now).breaker.probe_in_flight ≡ true)
        × ((check cb now).allowed ≡ true)
        × (cb.last_change + cb.open_duration ≤ now)
unfolding check is_due
check-open cb now h = elim (Bool-cases (is_due cb now)) [
  | inl due ↦ inr (
      rw (refresh_state-due cb now h due)
        (unfold check_state set_last_change str_eq in (refl, refl, refl, leb→le _ _ due)))
  | inr early ↦
      let (same, refused) = check_state-open cb h in
      inl (rw (refresh_state-early cb now early) (same, refused, ground arith))
]

-- The check that finds an open breaker due turns it half-open and is let through as its probe.
pub check-due :
    (cb : CircuitBreaker) (now : ℕ)
    → cb.state ≡ open_state
    → cb.last_change + cb.open_duration ≤ now
    → check cb now ≡ record {
      breaker = record (refreshed cb now) { probe_in_flight = true };
      allowed = true;
      state = half_open_state;
    }
unfolding check is_due
check-due cb now h due =
    rw (refresh_state-due cb now h (ground arith))
      (unfold check_state set_last_change str_eq in refl)

-- While half-open, at most one of any checks is let through, and none if a probe is in flight.
half_open_limit :
    (cb : CircuitBreaker) (times : List ℕ)
    → cb.state ≡ half_open_state
    → allowed_checks cb times ≤ (if cb.probe_in_flight then 0 else 1)
unfolding allowed_checks
half_open_limit cb [] h = omega arith
half_open_limit cb (now ∷ times) h =
    let (state, flying, ok) = check-half_open cb now h in
    ground (arith, half_open_limit (check cb now).breaker times state)

-- Of any checks of an open breaker, at any times and with no outcome reported in between, at most one
-- is let through, and none if all are made before the breaker has been open for its duration.
pub open_limit :
    (cb : CircuitBreaker) (times : List ℕ)
    → cb.state ≡ open_state
    → (allowed_checks cb times ≤ 1)
      × (All (λ now. now < cb.last_change + cb.open_duration) times → allowed_checks cb times ≡ 0)
unfolding allowed_checks
open_limit cb [] h = (omega arith, λ _. refl)
open_limit cb (now ∷ times) h = elim (check-open cb now h) [
  | inl (same, refused, early) ↦
      let (most, none_early) = open_limit cb times h in
      (rw (same, refused) most, λ soon. rw (same, refused) (none_early soon.1))
  | inr (state, flying, ok, due) ↦
      let rest = half_open_limit (check cb now).breaker times state in
      (ground arith, λ soon. absurd (omega arith))
]

-- Any state but open and half-open lets every check through and stays.
pub check-unknown_state :
    (cb : CircuitBreaker) (now : ℕ)
    → cb.state ≢ open_state
    → cb.state ≢ half_open_state
    → check cb now ≡ record { breaker = cb; allowed = true; state = cb.state }
unfolding check check_state refresh_state
check-unknown_state cb now o h =
    ground (arith, str_eq_iff cb.state open_state, str_eq_iff cb.state half_open_state)

pub set_state-state :
    (cb : CircuitBreaker) (state : Str) (now : ℕ) → (set_state cb state now).state ≡ state
unfolding set_state set_last_change
set_state-state cb state now = refl
