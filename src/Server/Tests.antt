-- ===== src/Server/Tests.antt =====
-- The handlers at concrete inputs, with small stand-ins for the server behind the store and the codec.
use feature_flags_control_pl.Shared.{
  ℕ, ◌+◌, leb, ◌≡◌, refl, ◌≢◌, true, false, some, List, [], ◌∷◌, Str, lit, lookup, insert, delete,
  str_eq, str_ne, is_empty, has_prefix, trim_space, trim_prefix, if◌then◌else◌,
}
use feature_flags_control_pl.Breaker.{
  CircuitBreaker, restore_runtime_state, restored_time, set_last_change, open_state,
  half_open_state, check,
}
use feature_flags_control_pl.Metrics.{new_histogram, counter_value, int64}
use feature_flags_control_pl.Server.{Server, empty_body, json_ok, breaker_allowed}
use feature_flags_control_pl.Server.Samples.{env, half_open_config, codec, start, counter}
use feature_flags_control_pl.Server.Auth.{
  request_requires_auth, Request, auth_middleware, pass, unauthorized,
}
use feature_flags_control_pl.Server.Auth.Guarded.{create_flag, auth_middleware-mutating}
use feature_flags_control_pl.Server.Stream.{
  net_http, status_recorder, stream_handler, opened, Move, told, received, ticked, run,
}
use feature_flags_control_pl.Server.Stream.Fifo.{Delivered, run-Delivered}
use feature_flags_control_pl.Server.Middleware.{Handler, Traffic, counted, served}
use feature_flags_control_pl.Server.Middleware.Counted.{served-counted}
use feature_flags_control_pl.Server.Middleware.Refused.{served-stream_refused}
use feature_flags_control_pl.Server.Payloads.{broadcast_sse}
use feature_flags_control_pl.Server.Payloads.Delivery.{SentTo, broadcast_sse-environment}
use feature_flags_control_pl.Server.Flags.{delete_flag_handler}
use feature_flags_control_pl.Server.Flags.Handled.{delete_flag-silent}
use feature_flags_control_pl.Server.Breakers.{set_circuit_breaker_handler, check_breaker}
use feature_flags_control_pl.Server.Breakers.Reports.{checked_all, check-set_unknown_state}
use feature_flags_control_pl.Server.Sync.{
  Listings, install, from_config, restored, add_breaker, load_breakers,
}
use feature_flags_control_pl.Server.Sync.Reloaded.{Fresh, install-breakers_forget}

token_set : is_empty (trim_space (lit "t")) ≡ false
unfolding trim_space is_empty
token_set = refl

let_through :
    auth_middleware
      (lit "t")
      (record { method = lit "POST"; path = lit "/flags"; authorization = lit "Bearer t" })
    ≡ pass
unfolding auth_middleware request_requires_auth trim_space trim_prefix has_prefix is_empty str_eq
let_through = refl

auth_middleware-mutating_example :
    (has_prefix (trim_space (lit "Bearer t")) (lit "Bearer ") ≡ true)
    × (trim_space (trim_prefix (trim_space (lit "Bearer t")) (lit "Bearer "))
        ≡ trim_space (lit "t"))
auth_middleware-mutating_example =
    auth_middleware-mutating (lit "t") (lit "POST") (lit "/flags") (lit "Bearer t") create_flag
      token_set let_through

delete_flag-silent_example :
    lookup (lit "dev") (delete_flag_handler env codec start (lit "old")).0.clients
    ≡ lookup (lit "dev") start.clients
unfolding delete str_eq
delete_flag-silent_example =
    delete_flag-silent env codec start (lit "old") (lit "dev") (str_ne (lit "dev") (lit "all") refl)
      tt

broadcast_sse-environment_example :
    let after = broadcast_sse (lit "dev") (lit "[]") start.clients in
    SentTo (lit "[]") (lookup (lit "dev") start.clients) (lookup (lit "dev") after)
    × SentTo (lit "[]") (lookup (lit "all") start.clients) (lookup (lit "all") after)
    × ((k : Str) → k ≢ lit "dev" → k ≢ lit "all" → lookup k after ≡ lookup k start.clients)
unfolding str_eq
broadcast_sse-environment_example =
    broadcast_sse-environment (lit "dev") (lit "[]") start.clients
      (str_ne (lit "dev") (lit "all") refl)

check-set_unknown_state_example :
    let s' = (set_circuit_breaker_handler env codec start 9 (lit "/a") (lit "Open") empty_body).0 in
    (check_breaker env codec
      (checked_all env codec s' ((10, lit "/a") ∷ (11, lit "/b") ∷ []))
      12
      (lit "/a")).1
    ≡ json_ok (breaker_allowed (lit "/a") true (lit "Open"))
unfolding str_eq
check-set_unknown_state_example =
    check-set_unknown_state env codec start 9 (lit "/a") (lit "Open") empty_body
      ((10, lit "/a") ∷ (11, lit "/b") ∷ []) 12 (λ e. cc) (λ e. cc)
      (str_ne (lit "Open") open_state refl) (str_ne (lit "Open") half_open_state refl)

abbrev one_breaker : Listings
one_breaker = record {
  flags = [];
  experiments = [];
  breakers = (lit "cb:/a", lit "/a") ∷ [];
  limits = [];
}

abbrev reloaded : CircuitBreaker
reloaded = restored (from_config half_open_config) 7

reloaded_found : lookup (lit "/a") (install env codec start 7 one_breaker).breakers ≡ some reloaded
unfolding install load_breakers add_breaker restored from_config restore_runtime_state restored_time
    set_last_change insert lookup str_eq
reloaded_found = refl

install-breakers_forget_example :
    Fresh reloaded
    × (reloaded.state ≡ half_open_state → (at : ℕ) → (check reloaded at).allowed ≡ true)
install-breakers_forget_example =
    install-breakers_forget env codec start 7 one_breaker (lit "/a") reloaded reloaded_found

abbrev visit : Request
visit = record { method = lit "GET"; path = lit "/flags/stream"; authorization = [] }

abbrev no_traffic : Traffic
no_traffic = record {
  qps = counter;
  latency = new_histogram (lit "h") [] (1 ∷ 5 ∷ []) [];
  error_rate = counter;
}

served-counted_example :
    let handler : Handler (Server ℕ) = λ w s. (s, 404) in
    let out = served (lit "t") visit 3 handler net_http (no_traffic, start) in
    ((out.0.1, out.1) ≡ (elim (auth_middleware (lit "t") visit) [
      | pass ↦ handler (status_recorder net_http) start
      | unauthorized ↦ (start, 401)
    ]))
    × (counter_value out.0.0.qps (visit.path ∷ [])
        ≡ int64 (counter_value no_traffic.qps (visit.path ∷ []) + 1))
    × (counter_value out.0.0.error_rate (visit.path ∷ []) ≡ (
        if leb 400 out.1
        then int64 (counter_value no_traffic.error_rate (visit.path ∷ []) + 1)
        else counter_value no_traffic.error_rate (visit.path ∷ [])))
served-counted_example =
    served-counted (lit "t") visit 3 (λ w s. (s, 404)) net_http no_traffic start

visit_passes : auth_middleware [] visit ≡ pass
unfolding auth_middleware trim_space is_empty
visit_passes = refl

served-stream_refused_example :
    served [] visit 3 (stream_handler codec 1 (lit "dev")) net_http (no_traffic, start)
    ≡ ((counted no_traffic visit.path 3 500, start), 500)
served-stream_refused_example =
    served-stream_refused codec 1 3 (lit "dev") [] visit net_http no_traffic start visit_passes

abbrev session_moves : List Move
session_moves = told (lit "[1]") ∷ ticked ∷ received ∷ told (lit "[2]") ∷ []

run-Delivered_example : Delivered (lit "[]") session_moves (run (opened 1 (lit "[]")) session_moves)
run-Delivered_example = run-Delivered 1 (lit "[]") session_moves
