-- ===== src/Demo/Action/Throttled.antt =====
-- An action against the control plane's own handlers.
use feature_flags_control_pl.Shared.{
  ℕ, List, ◌≡◌, refl, ap, ◌∙◌, true, false, not, some, [], Str, lit, str_eq, trim_space, is_empty,
  lookup, insert, lookup-insert_self,
}
use feature_flags_control_pl.Shared.Int.{ℤ}
use feature_flags_control_pl.Breaker.{CircuitBreaker, half_open_state, check}
use feature_flags_control_pl.Breaker.Probes.{check-half_open, check-half_open_state}
use feature_flags_control_pl.Store.{Env}
use feature_flags_control_pl.Server.{
  Codec, Server, Response, parsed, json_ok, rate_allowed, breaker_allowed,
}
use feature_flags_control_pl.Server.Breakers.{check_breaker, check_circuit_breaker_handler}
use feature_flags_control_pl.Server.Breakers.Reports.{
  checked_all, Holds, check_breaker-known, checked_all-Holds,
}
use feature_flags_control_pl.Server.Limits.{
  CheckRequest, check_rate_limit, check_rate_limit_handler,
}
use feature_flags_control_pl.Json.{Answer, answer, object, answer_of, truth_at}
use feature_flags_control_pl.Sdk.{Outgoing}
use feature_flags_control_pl.Demo.{Demo}
use feature_flags_control_pl.Demo.Client.{
  ControlPlane, check_rate_limit_request, check_rate_limit as limiter_says,
  check_circuit_breaker_request, check_circuit_breaker,
}
use feature_flags_control_pl.Demo.Action.{
  refusal, or_anonymous, ActionQuery, action_route, counted, fail_open, act, action_handler,
}

abbrev pub answered_by : {R : Type 0} → Server R × Response → Server R × Answer
answered_by (s, r) = (s, answer r)

abbrev pub limit_check : ActionQuery → CheckRequest
limit_check q = record { route = action_route; user_id = or_anonymous q.user_id; tenant_id = [] }

-- An action whose breaker lets it through and whose limiter refuses.
action_handler-throttled :
    {W : Type 0} {w w1 w2 : W} {a1 a2 : Answer}
    → (cp : ControlPlane) (network : W → Outgoing → W × Answer) (q : ActionQuery)
    → network w (check_circuit_breaker_request cp action_route) ≡ (w1, a1)
    → (check_circuit_breaker a1).0 ≡ true
    → network w1 (check_rate_limit_request cp action_route (or_anonymous q.user_id) []) ≡ (w2, a2)
    → fail_open (limiter_says a2) ≡ false
    → (d : Demo) (latency_ms : ℤ)
    → action_handler cp network w d q latency_ms
      ≡ (w2, counted (lit "demo_action_throttled") d, refusal 429 (lit "rate limit exceeded"))
unfolding action_handler act
action_handler-throttled cp network q first allowed second refused d latency_ms =
    rw (first, allowed, second, refused) refl

module _ {R : Type 0} (env : Env R) (c : Codec) where
  check_breaker-found :
      (s : Server R) (now : ℕ) (cb : CircuitBreaker)
      → lookup action_route s.breakers ≡ some cb
      → let (s', r) = check_breaker env c s now action_route in
        (s'.breakers ≡ insert action_route (check cb now).breaker s.breakers)
        × (r ≡ json_ok (breaker_allowed action_route (check cb now).allowed (check cb now).state))
  unfolding is_empty
  check_breaker-found s now cb found = check_breaker-known env c s now action_route cb refl found

  -- The breaker waits for the outcome of a probe.
  abbrev Waiting : CircuitBreaker → Type 0
  Waiting cb = (cb.state ≡ half_open_state) × (cb.probe_in_flight ≡ true)

  abbrev pub Probing : Server R → Type 0
  Probing = Holds env c Waiting action_route

  check-Waiting : (cb : CircuitBreaker) (at : ℕ) → Waiting cb → Waiting (check cb at).breaker
  check-Waiting cb at (half, busy) =
      let (state, flying, refused) = check-half_open cb at half in (state, flying)

  checked_all-Probing :
      (s : Server R) (later : List (ℕ × Str)) → Probing s → Probing (checked_all env c s later)
  unfolding is_empty
  checked_all-Probing s later probing =
      checked_all-Holds env c Waiting check-Waiting action_route refl s later probing

  check_breaker-Probing :
      (s : Server R) (now : ℕ)
      → Probing s
      → (check_breaker env c s now action_route).1
        ≡ json_ok (breaker_allowed action_route false half_open_state)
  check_breaker-Probing s now (cb, found, (half, busy)) =
      let (kept, probing, refused) = check-half_open cb now half in
      let state = check-half_open_state cb now half in
      let denied = refused ∙ ap not busy in
      (check_breaker-found s now cb found).1
      ∙ ap (λ b. json_ok (breaker_allowed action_route b (check cb now).state)) denied
      ∙ ap (λ t. json_ok (breaker_allowed action_route false t)) state

  check_breaker-taken :
      (s : Server R) (now : ℕ) (cb : CircuitBreaker)
      → lookup action_route s.breakers ≡ some cb
      → cb.state ≡ half_open_state
      → cb.probe_in_flight ≡ false
      → Probing (check_breaker env c s now action_route).0
        × ((check_breaker env c s now action_route).1
            ≡ json_ok (breaker_allowed action_route true half_open_state))
  check_breaker-taken s now cb found half idle =
      let (kept, probing, let_through) = check-half_open cb now half in
      let state = check-half_open_state cb now half in
      let (breakers, answered) = check_breaker-found s now cb found in
      (
        (
          (check cb now).breaker,
          ap (lookup action_route) breakers
              ∙ lookup-insert_self action_route (check cb now).breaker s.breakers,
          (kept, probing),
        ),
        answered
            ∙ ap (λ b. json_ok (breaker_allowed action_route b (check cb now).state))
                (let_through ∙ ap not idle)
            ∙ ap (λ t. json_ok (breaker_allowed action_route true t)) state,
      )

  -- The limiter's handler leaves the breakers alone.
  limited-Probing :
      (s : Server R) (created now : ℕ) (req : CheckRequest)
      → Probing s
      → Probing (check_rate_limit_handler s created now (parsed req)).0
  unfolding check_rate_limit_handler check_rate_limit
  limited-Probing s created now req probing = probing

  -- What the handlers answer to the two requests.
  served-check_breaker :
      (s : Server R) (now : ℕ)
      → (check_breaker env c s now action_route).1
        ≡ json_ok (breaker_allowed action_route true half_open_state)
      → answered_by (check_circuit_breaker_handler env c s now [] (parsed action_route)) ≡ (
        (check_breaker env c s now action_route).0,
        answer (json_ok (breaker_allowed action_route true half_open_state)),
      )
  unfolding check_circuit_breaker_handler trim_space is_empty
  served-check_breaker s now allowed =
      ap (λ r. ((check_breaker env c s now action_route).0, answer r)) allowed

  module _ (cp : ControlPlane) (network : Server R → Outgoing → Server R × Answer) (q : ActionQuery)
      (created now : ℕ) where
    -- A throttled action takes the probe of a half-open breaker and never reports on it. The network
    -- carries the two requests of the action to their handlers, the breaker is half-open with no probe
    -- in flight, and the limiter refuses: then the action is answered with 429, and every later check of
    -- the route is refused, whatever checks of this and other routes are made in between and at whatever
    -- times.
    pub action_handler-throttled_probe :
        (asks_breaker : (s : Server R)
          → network s (check_circuit_breaker_request cp action_route)
            ≡ answered_by (check_circuit_breaker_handler env c s now [] (parsed action_route)))
        (asks_limiter : (s : Server R)
          → network s (check_rate_limit_request cp action_route (or_anonymous q.user_id) [])
            ≡ answered_by (check_rate_limit_handler s created now (parsed (limit_check q))))
        (s : Server R) (d : Demo) (latency_ms : ℤ) (cb : CircuitBreaker)
        → lookup action_route s.breakers ≡ some cb
        → cb.state ≡ half_open_state
        → cb.probe_in_flight ≡ false
        → (check_rate_limit_handler
            (check_breaker env c s now action_route).0
            created
            now
            (parsed (limit_check q))).1
          ≡ json_ok (rate_allowed false action_route)
        → let (s', d', reply) = action_handler cp network s d q latency_ms in
          (reply ≡ refusal 429 (lit "rate limit exceeded"))
          × ((between : List (ℕ × Str)) (at : ℕ)
              → (check_breaker env c (checked_all env c s' between) at action_route).1
                ≡ json_ok (breaker_allowed action_route false half_open_state))
    unfolding check_circuit_breaker limiter_says fail_open object answer_of truth_at lookup str_eq
    action_handler-throttled_probe asks_breaker asks_limiter s d latency_ms cb found half idle
          throttled =
        let (probing, let_through) = check_breaker-taken s now cb found half idle in
        let s1 = (check_breaker env c s now action_route).0 in
        let s2 = (check_rate_limit_handler s1 created now (parsed (limit_check q))).0 in
        let ended =
          action_handler-throttled cp network q
            (asks_breaker s ∙ served-check_breaker s now let_through) refl
            (asks_limiter s1 ∙ ap (λ r. (s2, answer r)) throttled) refl d latency_ms in
        (
          ap (λ o. o.2) ended,
          λ between at.
              ap (λ o. (check_breaker env c (checked_all env c o.0 between) at action_route).1)
                ended
              ∙ check_breaker-Probing (checked_all env c s2 between) at (
                  checked_all-Probing s2 between
                    (limited-Probing s1 created now (limit_check q) probing)),
        )
