-- ===== src/Server/Breakers.antt =====
-- control-plane/main.go: the circuit breaker handlers. A handler changes the breaker that the map holds
-- for the route, through a pointer in the source.
pub mod Reports
use feature_flags_control_pl.Shared.{
  ℕ, Bool, true, false, not, Option, none, some, List, [], ◌∷◌, ◌++◌, Str, lit, is_empty,
  trim_space, Dict, lookup, insert, if◌then◌else◌,
}
use feature_flags_control_pl.Shared.Int.{ℤ, pos, ltb_ℤ}
use feature_flags_control_pl.Breaker.{
  Fraction, CircuitBreaker, Checked, new_circuit_breaker, check, observe, set_state, state_to_float,
}
use feature_flags_control_pl.Metrics.{gauge_set}
use feature_flags_control_pl.Store.{Env}
use feature_flags_control_pl.Server.{
  BreakerConfig, Codec, Server, Decoded, parsed, empty_body, malformed, Response, json_ok,
  json_error, breaker_view, breaker_set, breaker_default, breaker_allowed, breaker_report,
  persist_json,
}

pub exported : CircuitBreaker → BreakerConfig
exported cb = record {
  route = cb.route;
  state = cb.state;
  error_threshold = cb.error_threshold;
  latency_ms = cb.latency_ms;
  latency_threshold_ms = cb.latency_threshold_ms;
  last_transition_unix = cb.last_transition_unix;
}

-- The body of a set request, and of a report.
pub record SetRequest : Type 0 where
  pub route : Str
  pub state : Str
  pub error_threshold : Fraction
  pub latency_threshold_ms : ℤ

pub record Report : Type 0 where
  pub route : Str
  pub success : Bool
  pub latency_ms : ℤ

abbrev pub zero_set_request : SetRequest
zero_set_request = record {
  route = [];
  state = [];
  error_threshold = record { num = pos 0; scale = 0 };
  latency_threshold_ms = pos 0;
}

-- The request that the handler reads, whether or not decoding failed.
pub lenient : Decoded SetRequest → SetRequest
lenient (parsed req) = req
lenient empty_body = zero_set_request
lenient (malformed req) = req

abbrev pub or_text : Str → Str → Str
or_text s t = if is_empty s then t else s

-- `if req.ErrorThreshold > 0 { ... } else if ...`: the thresholds that the request gives.
unfoldable pub set_thresholds : CircuitBreaker → SetRequest → CircuitBreaker
set_thresholds cb req =
    let cb' =
      if ltb_ℤ (pos 0) req.error_threshold.num
      then record cb { error_threshold = req.error_threshold }
      else cb in
    if ltb_ℤ (pos 0) req.latency_threshold_ms
    then record cb' { latency_threshold_ms = req.latency_threshold_ms }
    else cb'

module _ {R : Type 0} where
  -- The breaker that `ensureCircuitBreaker` returns.
  unfoldable pub ensured : Server R → ℕ → Str → CircuitBreaker
  ensured s now route = elim (lookup route s.breakers) [
    | none ↦ new_circuit_breaker route now
    | some cb ↦ cb
  ]

module _ {R : Type 0} (env : Env R) (c : Codec) where
  -- What each handler does with the changed breaker: it stands in the map, its state goes to the gauge
  -- and its exported fields to the store.
  unfoldable pub keep_breaker : Server R → Str → CircuitBreaker → Str → Server R
  keep_breaker s route cb state =
      persist_json env
        (record s {
          breakers = insert route cb s.breakers;
          breaker_gauge = gauge_set s.breaker_gauge (route ∷ []) (state_to_float state);
        })
        (lit "cb:") route (c.marshal_breaker (exported cb))

  unfoldable pub set_circuit_breaker_handler :
      Server R → ℕ → Str → Str → Decoded SetRequest → Server R × Response
  set_circuit_breaker_handler s now route_query state_query body =
      let req = lenient body in
      let route = or_text route_query req.route in
      let state = or_text state_query req.state in
      let cb = ensured s now route in
      let forced = if is_empty state then cb else set_state cb state now in
      let cb' = set_thresholds forced req in
      if is_empty route
      then (s, json_error (lit "route is required") 400)
      else (keep_breaker s route cb' cb'.state, json_ok (breaker_set cb'))

  unfoldable pub check_breaker : Server R → ℕ → Str → Server R × Response
  check_breaker s now route =
      let r = check (ensured s now route) now in
      if is_empty route then (s, json_error (lit "route is required") 400) else (
        keep_breaker s route r.breaker r.state,
        json_ok (breaker_allowed route r.allowed r.state),
      )

  -- The body's route, trimmed, or else the query's.
  unfoldable pub check_circuit_breaker_handler :
      Server R → ℕ → Str → Decoded Str → Server R × Response
  check_circuit_breaker_handler s now route_query (malformed _) =
      (s, json_error (lit "invalid JSON body") 400)
  check_circuit_breaker_handler s now route_query empty_body =
      check_breaker s now (trim_space route_query)
  check_circuit_breaker_handler s now route_query (parsed route) =
      check_breaker s now (or_text (trim_space route) (trim_space route_query))

  unfoldable pub report_breaker : Server R → ℕ → Report → Server R × Response
  report_breaker s now req =
      let cb = observe (ensured s now req.route) now req.success req.latency_ms in
      if is_empty req.route
      then (s, json_error (lit "route is required") 400)
      else (keep_breaker s req.route cb cb.state, json_ok (breaker_report cb req.latency_ms))

  unfoldable pub report_circuit_breaker_handler :
      Server R → ℕ → Decoded Report → Server R × Response
  report_circuit_breaker_handler s now (parsed req) = report_breaker s now req
  report_circuit_breaker_handler s now _ = (s, json_error (lit "invalid JSON body") 400)

module _ {R : Type 0} where
  unfoldable pub get_circuit_breaker_handler : Server R → Str → Server R × Response
  get_circuit_breaker_handler s route = (
    s,
    elim (lookup route s.breakers) [
      | none ↦ json_ok (breaker_default route)
      | some cb ↦ json_ok (breaker_view cb)
    ],
  )
