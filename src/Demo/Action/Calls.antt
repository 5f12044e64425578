-- ===== src/Demo/Action/Calls.antt =====
-- Which calls an action makes, for which answers.
use feature_flags_control_pl.Shared.{
  ◌≡◌, ◌≢◌, none, some, none, lit, lookup, ℕ, true, false, List, [], ◌∷◌, ◌++◌,
}
use feature_flags_control_pl.Shared.Int.{ℤ}
use feature_flags_control_pl.Json.{Json, truth, Answer, unreachable, garbled, answered}
use feature_flags_control_pl.Sdk.{Outgoing}
use feature_flags_control_pl.Demo.{Demo}
use feature_flags_control_pl.Demo.Replay.{to_upper}
use feature_flags_control_pl.Demo.Client.{
  ControlPlane, check_rate_limit_request, check_circuit_breaker_request,
  report_circuit_breaker_request,
}
use feature_flags_control_pl.Demo.Action.{
  Reply, refusal, page, or_anonymous, ActionQuery, action_route,
}

unfoldable pub status : Reply → ℕ
status (refusal code msg) = code
status (page fields) = 200

-- A network whose answer depends on all that was sent, and which keeps that.
abbrev pub recording :
    (List Outgoing → Outgoing → Answer) → List Outgoing → Outgoing → List Outgoing × Answer
recording answers sent r = (sent ++ r ∷ [], answers sent r)

-- An answer that refuses: an object that does not say `"allowed": true`. An answer that lets the action go
-- on says so, or is missing, or is no object.
abbrev pub Refuses : Answer → Type 0
Refuses unreachable = ⊥
Refuses garbled = ⊥
Refuses (answered fields) = ¬ (lookup (lit "allowed") fields ≡ some (truth true))

abbrev pub LetsThrough : Answer → Type 0
LetsThrough unreachable = Unit
LetsThrough garbled = Unit
LetsThrough (answered fields) = lookup (lit "allowed") fields ≡ some (truth true)

-- What an action has sent, and the status of its reply, for the answers that it got: `breaker` to its
-- first request and `limiter` to its second.
pub data Ran (cp : ControlPlane) (q : ActionQuery) (latency_ms : ℤ) (breaker limiter : Answer)
    : List Outgoing → ℕ → Type 0 where
  circuit_open :
      Refuses breaker
      → Ran cp q latency_ms breaker limiter (check_circuit_breaker_request cp action_route ∷ []) 503
  throttled :
      LetsThrough breaker
      → Refuses limiter
      → Ran cp q latency_ms breaker limiter
          (check_circuit_breaker_request cp action_route
            ∷ check_rate_limit_request cp action_route (or_anonymous q.user_id) []
            ∷ [])
          429
  failed :
      LetsThrough breaker
      → LetsThrough limiter
      → to_upper q.fail ≡ lit "TRUE"
      → Ran cp q latency_ms breaker limiter
          (check_circuit_breaker_request cp action_route
            ∷ check_rate_limit_request cp action_route (or_anonymous q.user_id) []
            ∷ report_circuit_breaker_request cp action_route false latency_ms
            ∷ [])
          500
  performed :
      LetsThrough breaker
      → LetsThrough limiter
      → to_upper q.fail ≢ lit "TRUE"
      → Ran cp q latency_ms breaker limiter
          (check_circuit_breaker_request cp action_route
            ∷ check_rate_limit_request cp action_route (or_anonymous q.user_id) []
            ∷ report_circuit_breaker_request cp action_route true latency_ms
            ∷ [])
          200
