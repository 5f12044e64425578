-- ===== src/Demo/Tests.antt =====
-- The demo service at concrete inputs.
use Prim.Native.Nat.{min}
use feature_flags_control_pl.Shared.{
  ℕ, zero, suc, ◌+◌, ◌≡◌, refl, true, false, some, List, [], ◌∷◌, Str, lit, length, lookup, str_eq,
  is_empty, if◌then◌else◌,
}
use feature_flags_control_pl.Shared.Int.{pos, ◌+ℤ◌, ◌-ℤ◌, ◌*ℤ◌}
use feature_flags_control_pl.RateLimit.{
  resolve_rate_limit, resolve_keys, rate_limit_scope_key, is_seen, allow, find_bucket, new_bucket,
  take_token, refill,
}
use feature_flags_control_pl.Breaker.{CircuitBreaker, half_open_state}
use feature_flags_control_pl.Server.{
  Server, parsed, json_ok, rate_allowed, breaker_allowed, persist_json, persist_in,
}
use feature_flags_control_pl.Server.Samples.{env, codec, start, half_open_config}
use feature_flags_control_pl.Server.Breakers.{
  check_breaker, keep_breaker, check_circuit_breaker_handler,
}
use feature_flags_control_pl.Server.Breakers.Reports.{checked_all}
use feature_flags_control_pl.Server.Limits.{
  check_rate_limit, check_rate_limit_handler, effective_limit,
}
use feature_flags_control_pl.Server.Sync.{from_config}
use feature_flags_control_pl.Json.{truth, unreachable, Answer}
use feature_flags_control_pl.Sdk.{Outgoing, with_content_type, post}
use feature_flags_control_pl.Demo.{
  CapturedRequest, IncomingRequest, Demo, capture_request, max_captured_traffic,
}
use feature_flags_control_pl.Demo.Log.{run, log, last, fresh, run-log}
use feature_flags_control_pl.Demo.Replay.{
  ReplayTrafficRequest, replay_path, replay_method, matching, select_captured_traffic,
  ReplayRequest, Outcome, answered, unanswered, Report, replay_traffic,
}
use feature_flags_control_pl.Demo.Replay.Selected.{Newest, select_captured_traffic-Newest}
use feature_flags_control_pl.Demo.Replay.Counted.{
  total, allowance, Arrives, lost, handled, replay_traffic-total,
}
use feature_flags_control_pl.Demo.Client.{
  ControlPlane, check_circuit_breaker_request, check_rate_limit_request, new_post,
}
use feature_flags_control_pl.Demo.Action.{
  ActionQuery, action_handler, action_route, or_anonymous, refusal,
}
use feature_flags_control_pl.Demo.Action.Throttled.{
  answered_by, limit_check, action_handler-throttled_probe,
}

abbrev action_request : IncomingRequest
action_request = record {
  method = lit "POST";
  path = lit "/demo/action";
  query = [];
  headers = [];
  body = some (lit "x");
}

abbrev health_request : IncomingRequest
health_request = record action_request { path = lit "/demo/health" }

abbrev arrivals : List (Str × IncomingRequest)
arrivals = (lit "t1", action_request) ∷ (lit "t2", health_request) ∷ []

run-log_example :
    ((run fresh arrivals).captured ≡ last max_captured_traffic (log 0 arrivals))
    × ((run fresh arrivals).seq ≡ length (log 0 arrivals))
run-log_example = run-log arrivals

abbrev captured_action : ℕ → CapturedRequest
captured_action id = record {
  id = id;
  timestamp = lit "t";
  method = lit "POST";
  path = lit "/demo/action";
  query = [];
  headers = [];
  body = [];
}

abbrev two_captured : List CapturedRequest
two_captured = captured_action 1 ∷ captured_action 2 ∷ []

select_captured_traffic-Newest_example :
    Newest two_captured
      (lit "/demo/action")
      (lit "POST")
      1
      (select_captured_traffic two_captured (lit "/demo/action") (lit "POST") 1)
select_captured_traffic-Newest_example =
    select_captured_traffic-Newest two_captured (lit "/demo/action") (lit "POST") 1

-- The first request comes back to the service, which handles it, and the second is lost.
abbrev come_back : ReplayRequest → IncomingRequest
come_back r = record {
  method = r.method;
  path = r.target;
  query = [];
  headers = r.headers;
  body = some r.body;
}

abbrev flaky : ℕ → Demo → ReplayRequest → ℕ × Demo × Outcome
flaky zero d r = (1, (capture_request d (lit "t3") (come_back r)).0, answered 200)
flaky (suc n) d r = (suc n, d, unanswered)

flaky-Arrives : (n : ℕ) (d : Demo) (r : ReplayRequest) → Arrives d r (flaky n d r).1
flaky-Arrives zero d r = handled (lit "t3") (come_back r) (λ k v found. found) refl refl
flaky-Arrives (suc n) d r = lost refl

abbrev replay_two : ReplayTrafficRequest
replay_two = record { path = []; method = lit "post"; limit = pos 2; delay_ms = pos 0 }

replay_traffic-total_example :
    let d = record fresh { captured = two_captured; seq = 2 } in
    let (w', d', report) = replay_traffic (lit "8081") flaky 0 d (some replay_two) in
    (r : Report) × (report ≡ some r)
    × (r.attempted
        ≡ min
            (allowance replay_two.limit)
            (length (matching (replay_path replay_two) (replay_method replay_two) d.captured)))
    × (r.successful + r.failed ≡ r.attempted)
    × (total r.status_counts ≡ r.successful)
    × (d'.captured ≡ d.captured)
    × (d'.seq ≡ d.seq)
replay_traffic-total_example =
    replay_traffic-total (lit "8081") flaky 0 (record fresh { captured = two_captured; seq = 2 })
      replay_two flaky-Arrives

abbrev control_plane : ControlPlane
control_plane = record { url = lit "http://cp"; auth_token = lit "t" }

abbrev failing_action : ActionQuery
failing_action = record { user_id = []; fail = lit "True" }

-- The breaker lets the action through, and the limiter cannot be asked.
abbrev half_reachable : List Outgoing → Outgoing → Answer
half_reachable [] r = Answer.answered ((lit "allowed", truth true) ∷ [])
half_reachable (_ ∷ _) r = unreachable

-- A breaker that waits for a probe, and a limit of 0.
abbrev probing_breaker : CircuitBreaker
probing_breaker = from_config (record half_open_config { route = action_route })

abbrev strict : Server ℕ
strict = record start {
  breakers = (action_route, probing_breaker) ∷ [];
  rate_limits = (action_route, pos 0) ∷ [];
}

-- The control plane, with the two handlers that an action asks.
abbrev asked : Server ℕ → Outgoing → Server ℕ × Answer
asked s r =
    if str_eq r.url (lit "http://cp/circuitbreaker/check")
    then answered_by (check_circuit_breaker_handler env codec s 7 [] (parsed action_route))
    else answered_by (check_rate_limit_handler s 7 7 (parsed (limit_check failing_action)))

asks_breaker :
    (s : Server ℕ)
    → asked s (check_circuit_breaker_request control_plane action_route)
      ≡ answered_by (check_circuit_breaker_handler env codec s 7 [] (parsed action_route))
unfolding check_circuit_breaker_request with_content_type new_post str_eq
asks_breaker s = refl

asks_limiter :
    (s : Server ℕ)
    → asked s (
        check_rate_limit_request control_plane action_route
          (or_anonymous failing_action.user_id)
          [])
      ≡ answered_by (check_rate_limit_handler s 7 7 (parsed (limit_check failing_action)))
unfolding check_rate_limit_request post str_eq
asks_limiter s = refl

refused :
    (check_rate_limit_handler
      (check_breaker env codec strict 7 action_route).0
      7
      7
      (parsed (limit_check failing_action))).1
    ≡ json_ok (rate_allowed false action_route)
unfolding check_rate_limit_handler check_rate_limit effective_limit check_breaker keep_breaker
    persist_json persist_in resolve_rate_limit resolve_keys rate_limit_scope_key is_seen allow
    find_bucket new_bucket or_anonymous take_token refill lookup str_eq is_empty ◌+ℤ◌ ◌-ℤ◌ ◌*ℤ◌
refused = refl

probing_found : lookup action_route strict.breakers ≡ some probing_breaker
unfolding lookup str_eq
probing_found = refl

action_handler-throttled_probe_example :
    let (s', d', reply) = action_handler control_plane asked strict fresh failing_action (pos 3) in
    (reply ≡ refusal 429 (lit "rate limit exceeded"))
    × ((between : List (ℕ × Str)) (at : ℕ)
        → (check_breaker env codec (checked_all env codec s' between) at action_route).1
          ≡ json_ok (breaker_allowed action_route false half_open_state))
unfolding from_config
action_handler-throttled_probe_example =
    action_handler-throttled_probe env codec control_plane asked failing_action 7 7 asks_breaker
      asks_limiter strict fresh (pos 3) probing_breaker probing_found refl refl refused
