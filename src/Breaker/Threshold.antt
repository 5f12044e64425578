-- ===== src/Breaker/Threshold.antt =====
-- When failures open the breaker, and what a failed probe does.
use feature_flags_control_pl.Shared.{
  ℕ, ◌+◌, ◌*◌, ◌^◌, ◌≤◌, ◌<◌, ◌≡◌, refl, ◌∙◌, true, false, List, [], ◌∷◌, lt→ltb, length, arith,
}
use feature_flags_control_pl.Shared.Int.{ℤ, pos, negsuc, ◌*ℤ◌, ◌≤ℤ◌, le→leb_ℤ, int_laws}
use feature_flags_control_pl.Breaker.Probes.{open_case, refreshed, check-due, check-half_open}
use feature_flags_control_pl.Breaker.{
  Fraction, CircuitBreaker, open_state, half_open_state, set_last_change, check, record_success,
  exceeds, record_failure,
}

scaled_le : (z : ℤ) (f total p : ℕ) → total ≡ f → z ≤ℤ pos p → z *ℤ pos total ≤ℤ pos (f * p)
scaled_le (pos n) f total p e h =
    let bound : n * total ≤ f * p = grind arith in omega (int_laws, bound)
scaled_le (negsuc n) f total p e h = omega int_laws

exceeds_all :
    (f total : ℕ) (t : Fraction)
    → total ≡ f
    → 0 < f
    → t.num ≤ℤ pos (2 ^ t.scale)
    → exceeds f total t ≡ true
unfolding exceeds
exceeds_all f total t same some_failure low = rw (
  lt→ltb 0 total (omega arith),
  le→leb_ℤ (t.num *ℤ pos total) (pos (f * 2 ^ t.scale))
      (scaled_le t.num f total (2 ^ t.scale) same low),
)

-- Reports of successes, at the given times.
pub succeed_all : CircuitBreaker → List ℕ → CircuitBreaker
succeed_all cb [] = cb
succeed_all cb (t ∷ ts) = succeed_all (record_success cb t) ts

-- A failure report for a breaker without earlier successes opens it, if the threshold is at most 1: the
-- counters are reset, no probe is in flight and the breaker counts as changed now.
pub record_failure-opens :
    (cb : CircuitBreaker) (now : ℕ)
    → cb.successes ≡ 0
    → cb.error_threshold.num ≤ℤ pos (2 ^ cb.error_threshold.scale)
    → record_failure cb now ≡ record cb {
      state = open_state;
      successes = 0;
      failures = 0;
      probe_in_flight = false;
      last_change = now;
      last_transition_unix = pos now;
    }
unfolding record_failure set_last_change
record_failure-opens cb now none_ok low = rw (
    exceeds_all (cb.failures + 1) (cb.successes + (cb.failures + 1)) cb.error_threshold
      (omega arith) (omega arith) low)

-- What success reports leave of a breaker that is not half-open.
record Counted (before after : CircuitBreaker) (n : ℕ) : Type 0 where
  state : after.state ≡ before.state
  threshold : after.error_threshold ≡ before.error_threshold
  successes : after.successes ≡ before.successes + n
  failures : after.failures ≡ before.failures
  last_change : after.last_change ≡ before.last_change
  open_duration : after.open_duration ≡ before.open_duration

record_success-Counted :
    (cb : CircuitBreaker) (now : ℕ) → cb.state ≡ open_state → Counted cb (record_success cb now) 1
unfolding record_success
record_success-Counted cb now h = ground (arith, open_case cb.state h)

succeed_all-Counted :
    (cb : CircuitBreaker) (ts : List ℕ)
    → cb.state ≡ open_state
    → Counted cb (succeed_all cb ts) (length ts)
unfolding succeed_all
succeed_all-Counted cb [] h = ground arith
succeed_all-Counted cb (t ∷ ts) h =
    let one = record_success-Counted cb t h in
    let rest = succeed_all-Counted (record_success cb t) ts (one.state ∙ h) in ground arith

abbrev pub one_half : Fraction
one_half = record { num = pos 1; scale = 1 }

-- One failure among three or more reports is below one half.
half_not_exceeded :
    (ok f : ℕ) (t : Fraction) → 2 ≤ ok → f ≡ 1 → t ≡ one_half → exceeds f (ok + f) t ≡ false
unfolding exceeds ◌*ℤ◌
half_not_exceeded ok f t many e h = rw (h, e) (ground arith)

record_failure-kept :
    (cb : CircuitBreaker) (now : ℕ)
    → exceeds (cb.failures + 1) (cb.successes + (cb.failures + 1)) cb.error_threshold ≡ false
    → record_failure cb now ≡ record cb { failures = cb.failures + 1; probe_in_flight = false }
unfolding record_failure
record_failure-kept cb now low = ground arith

-- A failure of a half-open breaker that has counted two successes and no failure yet.
half_open_failure :
    (b : CircuitBreaker) (failed_at next_at : ℕ)
    → b.state ≡ half_open_state
    → 2 ≤ b.successes
    → b.failures ≡ 0
    → b.error_threshold ≡ one_half
    → ((record_failure b failed_at).state ≡ half_open_state)
      × ((check (record_failure b failed_at) next_at).allowed ≡ true)
half_open_failure b failed_at next_at h many z thr =
    rw
      (record_failure-kept b failed_at
        (half_not_exceeded b.successes (b.failures + 1) b.error_threshold many (omega arith) thr))
      (
        h,
        (check-half_open (record b { failures = b.failures + 1; probe_in_flight = false }) next_at
            h).2,
      )

failed_probe :
    (cb : CircuitBreaker) (probe_at failed_at next_at : ℕ)
    → cb.state ≡ open_state
    → 2 ≤ cb.successes
    → cb.failures ≡ 0
    → cb.error_threshold ≡ one_half
    → cb.last_change + cb.open_duration ≤ probe_at
    → ((check cb probe_at).allowed ≡ true)
      × ((record_failure (check cb probe_at).breaker failed_at).state ≡ half_open_state)
      × ((check (record_failure (check cb probe_at).breaker failed_at) next_at).allowed ≡ true)
unfolding set_last_change
failed_probe cb probe_at failed_at next_at o many z thr due =
    let b = record (refreshed cb probe_at) { probe_in_flight = true } in
    let (stays, again) = half_open_failure b failed_at next_at refl many z thr in
    rw (check-due cb probe_at o due) (refl, stays, again)

-- A failed probe does not reopen the breaker when two or more successes were reported while it was
-- open: with the default threshold of one half and the counters at zero when it opened, a check that
-- is due is let through, the failure of that probe leaves the breaker half-open, and the next check is
-- let through at once.
pub probe_failure-stays_half_open :
    (cb : CircuitBreaker) (s1 s2 : ℕ) (late : List ℕ) (probe_at failed_at next_at : ℕ)
    → cb.state ≡ open_state
    → cb.successes ≡ 0
    → cb.failures ≡ 0
    → cb.error_threshold ≡ one_half
    → cb.last_change + cb.open_duration ≤ probe_at
    → let probed = check (succeed_all cb (s1 ∷ s2 ∷ late)) probe_at in
      let failed = record_failure probed.breaker failed_at in
      (probed.allowed ≡ true)
      × (failed.state ≡ half_open_state)
      × ((check failed next_at).allowed ≡ true)
probe_failure-stays_half_open cb s1 s2 late probe_at failed_at next_at o z1 z2 thr due =
    let c = succeed_all-Counted cb (s1 ∷ s2 ∷ late) o in
    failed_probe (succeed_all cb (s1 ∷ s2 ∷ late)) probe_at failed_at next_at (c.state ∙ o)
      (omega arith) (omega arith) (c.threshold ∙ thr) (omega arith)
