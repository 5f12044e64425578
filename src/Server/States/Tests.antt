-- ===== src/Server/States/Tests.antt =====
-- A reload and two requests, and what holds behind them.
use feature_flags_control_pl.Shared.{
  ◌∷◌, lookup, insert, str_eq, trim_space, is_empty, ℕ, ◌≡◌, refl, none, some, [], Str, lit,
}
use feature_flags_control_pl.Server.{Server, persist_in, persist_json}
use feature_flags_control_pl.Server.Auth.{auth_middleware}
use feature_flags_control_pl.Server.Breakers
use feature_flags_control_pl.Server.Breakers.{ensured, keep_breaker, check_circuit_breaker_handler}
use feature_flags_control_pl.Breaker.{CircuitBreaker, check, state_to_float}
use feature_flags_control_pl.Metrics.{gauge_value}
use feature_flags_control_pl.Server.Samples.{
  env, codec, decoders, only_create_flag, anonymous, start,
}
use feature_flags_control_pl.Server.Sync.{load_in, load_from_store}
use feature_flags_control_pl.Server.Stream.{net_http}
use feature_flags_control_pl.Server.Middleware.{
  Traffic, served, metrics_middleware, tracing_middleware, guarded,
}
use feature_flags_control_pl.Server.Mux.{
  HttpRequest, Picked, picked, check_breaker, query_value, handle_picked, handle, serve,
}
use feature_flags_control_pl.Server.States.{
  fresh_traffic, fresh_server, metrics_text, Reached, begun, asked, reloaded,
}
use feature_flags_control_pl.Server.States.Keyed.{Keyed}
use feature_flags_control_pl.Server.States.Invariants.{
  metrics_text-Reached, gauge_value-Reached, Reached-Keyed,
}

abbrev begin : Traffic × Server ℕ
begin = (fresh_traffic, fresh_server none start.world)

-- A request that is let through, as no token is configured, and posts a flag.
abbrev posted : Traffic × Server ℕ → Traffic × Server ℕ
posted ts = (serve env codec decoders only_create_flag [] anonymous net_http ts).0

begin-reloaded :
    load_from_store env codec 0 (fresh_server none start.world) 7
    ≡ some (fresh_server none start.world)
unfolding load_from_store load_in fresh_server
begin-reloaded = refl

begin-Reached : Reached env codec decoders only_create_flag [] begin (posted (posted begin))
begin-Reached =
    asked anonymous net_http (asked anonymous net_http (reloaded 0 7 begun begin-reloaded))

metrics_text-Reached_example :
    (text : Str) × (metrics_text (λ n. lit "1") (posted (posted begin)) ≡ some text)
metrics_text-Reached_example =
    metrics_text-Reached env codec decoders only_create_flag [] (λ n. lit "1") none start.world
      (posted (posted begin)) begin-Reached

abbrev only_check_breaker : Str → Str → Picked
only_check_breaker method path = picked check_breaker

abbrev check_request : HttpRequest
check_request = record anonymous { query = (lit "route", lit "/a") ∷ [] }

abbrev checked : Traffic × Server ℕ
checked = (serve env codec decoders only_check_breaker [] check_request net_http begin).0

abbrev kept : CircuitBreaker
kept = (check (ensured begin.1 0 (lit "/a")) 0).breaker

checked-kept : lookup (lit "/a") checked.1.breakers ≡ some kept
unfolding serve served metrics_middleware tracing_middleware guarded auth_middleware handle_picked
    handle check_circuit_breaker_handler Breakers.check_breaker keep_breaker persist_json persist_in
    fresh_server query_value trim_space is_empty lookup insert str_eq
checked-kept = refl

gauge_value-Reached_example :
    gauge_value checked.1.breaker_gauge (lit "/a" ∷ []) ≡ state_to_float kept.state
gauge_value-Reached_example =
    gauge_value-Reached env codec decoders only_check_breaker [] none start.world checked (lit "/a")
      kept (asked check_request net_http begun) checked-kept

Reached-Keyed_example :
    Keyed (λ f. f.name) (posted (posted begin)).1.flags
    × Keyed (λ e. e.name) (posted (posted begin)).1.experiments
    × Keyed (λ cb. cb.route) (posted (posted begin)).1.breakers
Reached-Keyed_example =
    Reached-Keyed env codec decoders only_create_flag [] none start.world (posted (posted begin))
      begin-Reached
