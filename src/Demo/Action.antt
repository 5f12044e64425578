-- ===== src/Demo/Action.antt =====
-- microservice-demo/main.go: the pages that ask the control plane. The network is a parameter: what a
-- request is answered, with a state of its own. `error_text` is the text of a Go error.
pub mod Calls
pub mod Throttled
use feature_flags_control_pl.Shared.{
  ℕ, Bool, true, false, not, Option, none, some, [], ◌∷◌, ◌++◌, Str, lit, str_eq, is_empty, Dict,
  if◌then◌else◌,
}
use feature_flags_control_pl.Shared.Int.{ℤ}
use feature_flags_control_pl.Json.{Json, truth, number, text, Answer, ClientError}
use feature_flags_control_pl.Sdk.{Outgoing}
use feature_flags_control_pl.Demo.{Demo, counter_bump}
use feature_flags_control_pl.Demo.Replay.{to_upper}
use feature_flags_control_pl.Demo.Client.{
  ControlPlane, evaluate_flag_request, evaluate_flag, get_variant_request, get_variant,
  check_rate_limit_request, check_rate_limit, check_circuit_breaker_request, check_circuit_breaker,
  report_circuit_breaker_request,
}

-- What a page answers: an error text, or an object with status 200.
pub data Reply : Type 0 where
  refusal : ℕ → Str → Reply
  page : Dict Json → Reply

pub counted : Str → Demo → Demo
counted name d = record d { counters = counter_bump name d.counters }

unfoldable pub or_anonymous : Str → Str
or_anonymous user_id = if is_empty user_id then lit "anonymous" else user_id

-- The query of `/demo/action`, without the time to sleep, which only the latency shows.
pub record ActionQuery : Type 0 where
  pub user_id : Str
  pub fail : Str

-- `strings.EqualFold(..., "true")`, on ASCII text
unfoldable pub should_fail : ActionQuery → Bool
should_fail q = str_eq (to_upper q.fail) (lit "TRUE")

abbrev pub action_route : Str
action_route = lit "/demo/action"

-- An error leaves the request allowed.
unfoldable pub fail_open : Bool × Option ClientError → Bool
fail_open (allowed, none) = allowed
fail_open (allowed, some e) = true

-- U+1F319 in UTF-8
abbrev pub moon : Str
moon = 240 ∷ 159 ∷ 140 ∷ 153 ∷ []

pub greeting : Bool → Str → Str
greeting dark user_id =
    if dark
    then lit "Hello, " ++ (user_id ++ (lit "! " ++ (moon ++ lit " (dark mode)")))
    else lit "Hello, " ++ (user_id ++ lit "! (light mode)")

module _ {W : Type 0} (cp : ControlPlane) (network : W → Outgoing → W × Answer) where
  pub hello_handler : (Option ClientError → Str) → W → Demo → Str → W × Demo × Reply
  hello_handler error_text w d query_user =
      let user_id = or_anonymous query_user in
      let (w', answer) = network w (evaluate_flag_request cp (lit "dark-mode") user_id) in
      let (enabled, err) = evaluate_flag answer in
      (
        w',
        counted (lit "demo_dark_mode_" ++ (if enabled then lit "on" else lit "off")) d,
        page (
            (lit "userId", text user_id)
            ∷ (lit "greeting", text (greeting enabled user_id))
            ∷ (lit "darkMode", truth enabled)
            ∷ (lit "flagError", text (error_text err))
            ∷ []),
      )

  pub or_blue : Str × Option ClientError → Str
  or_blue (variant, none) = variant
  or_blue (variant, some e) = lit "blue"

  pub experiment_handler : W → Demo → Str → W × Demo × Reply
  experiment_handler w d query_user =
      let user_id = or_anonymous query_user in
      let (w', answer) = network w (get_variant_request cp (lit "button-color") user_id) in
      let variant = or_blue (get_variant answer) in
      (
        w',
        counted (lit "demo_experiment_variant_" ++ variant) d,
        page (
            (lit "userId", text user_id)
            ∷ (lit "experiment", text (lit "button-color"))
            ∷ (lit "variant", text variant)
            ∷ (lit "message", text (lit "Show " ++ (variant ++ (lit " button to " ++ user_id))))
            ∷ []),
      )

  -- The action itself, and the report of its outcome.
  unfoldable pub perform : W → Demo → ActionQuery → Str → ℤ → W × Demo × Reply
  perform w d q cb_state latency_ms =
      let ok = not (should_fail q) in
      let w' = (network w (report_circuit_breaker_request cp action_route ok latency_ms)).0 in
      if ok
      then (
        w',
        counted (lit "demo_action_ok") d,
        page (
            (lit "userId", text (or_anonymous q.user_id))
            ∷ (lit "result", text (lit "action performed"))
            ∷ (lit "cbState", text cb_state)
            ∷ (lit "latencyMs", number latency_ms)
            ∷ []),
      )
      else (w', counted (lit "demo_action_failure") d, refusal 500 (lit "downstream error"))

  -- Behind the circuit breaker: the rate limiter.
  unfoldable pub act : W → Demo → ActionQuery → Str → ℤ → W × Demo × Reply
  act w d q cb_state latency_ms =
      let (w', answer) =
        network w (check_rate_limit_request cp action_route (or_anonymous q.user_id) []) in
      if fail_open (check_rate_limit answer)
      then perform w' d q cb_state latency_ms
      else (w', counted (lit "demo_action_throttled") d, refusal 429 (lit "rate limit exceeded"))

  -- `latency_ms` is what the clock says has passed when the action is done.
  unfoldable pub action_handler : W → Demo → ActionQuery → ℤ → W × Demo × Reply
  action_handler w d q latency_ms =
      let (w', answer) = network w (check_circuit_breaker_request cp action_route) in
      let (allowed, cb_state, err) = check_circuit_breaker answer in
      if allowed then act w' d q cb_state latency_ms else (
        w',
        counted (lit "demo_action_circuit_open") d,
        refusal 503 (lit "service unavailable (circuit open)"),
      )
