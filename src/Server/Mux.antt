-- ===== src/Server/Mux.antt =====
-- control-plane/main.go, `main`: the table of the mux, and a request on its way through the middleware
-- to its handler. Which entry the mux of net/http picks is a parameter; a body is a text, which the
-- JSON decoder reads for each handler. A request that the mux answers itself has the mux's status.
pub mod Same
pub mod Protected
mod Tests
use feature_flags_control_pl.Shared.{
  ℕ, Option, none, some, List, [], ◌∷◌, ◌++◌, ◌≡◌, ◌⊎◌, Str, lit, str_eq, Dict, lookup,
  if◌then◌else◌,
}
use feature_flags_control_pl.Flag.{FeatureFlag, EvalContext}
use feature_flags_control_pl.Experiment.{Experiment}
use feature_flags_control_pl.Store.{Env}
use feature_flags_control_pl.Server.{Codec, Server, Decoded, Response}
use feature_flags_control_pl.Server.Auth.{Request}
use feature_flags_control_pl.Server.Routing.{path_var, route_param}
use feature_flags_control_pl.Server.Flags.{
  create_flag_handler, get_all_flags_handler, get_flag_handler, update_flag_handler,
  delete_flag_handler, evaluate_flag_handler,
}
use feature_flags_control_pl.Server.Experiments.{
  create_experiment_handler, get_variant_handler, record_conversion_handler,
}
use feature_flags_control_pl.Server.Limits.{
  RateLimitConfig, CheckRequest, set_rate_limit_handler, get_rate_limit_handler,
  check_rate_limit_handler,
}
use feature_flags_control_pl.Server.Breakers.{
  SetRequest, Report, set_circuit_breaker_handler, check_circuit_breaker_handler,
  report_circuit_breaker_handler, get_circuit_breaker_handler,
}
use feature_flags_control_pl.Server.Config.{ConfigRequest, set_config_handler, get_config_handler}
use feature_flags_control_pl.Server.Stream.{Writer, stream_handler}
use feature_flags_control_pl.Server.Middleware.{Handler, Traffic, served}

-- The entries of the table, in its order.
pub data Route : Type 0 where
  landing metrics health create_flag all_flags flag_stream evaluate_flag get_flag : Route
  update_flag delete_flag create_experiment get_variant record_conversion set_rate_limit : Route
  check_rate_limit rate_limit rate_limit_of set_breaker check_breaker report_breaker : Route
  breaker breaker_of set_config get_config : Route

-- A pattern is a method and the pieces of a path: a text, a `{name}`, or any rest behind "/".
pub data Piece : Type 0 where
  fixed : Str → Piece
  name rest : Piece

unfoldable pub pattern : Route → Str × List Piece
pattern landing = (lit "GET", fixed (lit "/") ∷ rest ∷ [])
pattern metrics = (lit "GET", fixed (lit "/metrics") ∷ [])
pattern health = (lit "GET", fixed (lit "/health") ∷ [])
pattern create_flag = (lit "POST", fixed (lit "/flags") ∷ [])
pattern all_flags = (lit "GET", fixed (lit "/flags/all") ∷ [])
pattern flag_stream = (lit "GET", fixed (lit "/flags/stream") ∷ [])
pattern evaluate_flag = (lit "POST", fixed (lit "/flags/") ∷ name ∷ fixed (lit "/evaluate") ∷ [])
pattern get_flag = (lit "GET", fixed (lit "/flags/") ∷ name ∷ [])
pattern update_flag = (lit "PUT", fixed (lit "/flags/") ∷ name ∷ [])
pattern delete_flag = (lit "DELETE", fixed (lit "/flags/") ∷ name ∷ [])
pattern create_experiment = (lit "POST", fixed (lit "/experiment") ∷ [])
pattern get_variant = (lit "GET", fixed (lit "/experiment/") ∷ name ∷ fixed (lit "/variant") ∷ [])
pattern record_conversion =
    (lit "POST", fixed (lit "/experiment/") ∷ name ∷ fixed (lit "/convert") ∷ [])
pattern set_rate_limit = (lit "POST", fixed (lit "/ratelimit") ∷ [])
pattern check_rate_limit = (lit "POST", fixed (lit "/ratelimit/check") ∷ [])
pattern rate_limit = (lit "GET", fixed (lit "/ratelimit") ∷ [])
pattern rate_limit_of = (lit "GET", fixed (lit "/ratelimit/") ∷ name ∷ [])
pattern set_breaker = (lit "POST", fixed (lit "/circuitbreaker") ∷ [])
pattern check_breaker = (lit "POST", fixed (lit "/circuitbreaker/check") ∷ [])
pattern report_breaker = (lit "POST", fixed (lit "/circuitbreaker/report") ∷ [])
pattern breaker = (lit "GET", fixed (lit "/circuitbreaker") ∷ [])
pattern breaker_of = (lit "GET", fixed (lit "/circuitbreaker/") ∷ name ∷ [])
pattern set_config = (lit "POST", fixed (lit "/config") ∷ [])
pattern get_config = (lit "GET", fixed (lit "/config/") ∷ name ∷ [])

-- What the JSON decoder makes of a body.
pub record Decoders : Type 0 where
  pub flag : Str → Decoded FeatureFlag
  pub context : Str → Decoded EvalContext
  pub experiment : Str → Decoded Experiment
  pub limit : Str → Decoded RateLimitConfig
  pub limit_check : Str → Decoded CheckRequest
  pub breaker : Str → Decoded SetRequest
  pub route : Str → Decoded Str
  pub report : Str → Decoded Report
  pub config : Str → Decoded ConfigRequest

-- `path_value` is what the pattern's name stands for, and empty where it has none. `created` and `now`
-- are the times that the handler reads, and `id` tells the channel of an event stream from all others.
pub record HttpRequest : Type 0 where
  pub request : Request
  pub path_value : Str
  pub query : Dict Str
  pub body : Str
  pub created : ℕ
  pub now : ℕ
  pub id : ℕ
  pub duration : ℕ

-- `r.URL.Query().Get(key)`
unfoldable pub query_value : Str → HttpRequest → Str
query_value key r = elim (lookup key r.query) [ none ↦ [] | some v ↦ v ]

pub var_of : HttpRequest → Str
var_of r = path_var r.path_value r.request.path

pub route_of : HttpRequest → Str
route_of r = route_param r.path_value (query_value (lit "route") r) r.request.path

-- The entry that the mux picks, or the status with which it answers itself.
pub data Picked : Type 0 where
  picked : Route → Picked
  refused : ℕ → Picked

abbrev pub status_of : {R : Type 0} → Server R × Response → Server R × ℕ
status_of (s, r) = (s, r.status)

module _ {R : Type 0} (env : Env R) (c : Codec) (d : Decoders) where
  unfoldable pub handle : Route → HttpRequest → Handler (Server R)
  handle landing r w s = (s, (if str_eq r.request.path (lit "/") then 200 else 404))
  handle metrics r w s = (s, 200)
  handle health r w s = (s, 200)
  handle create_flag r w s = status_of (create_flag_handler env c s (d.flag r.body))
  handle all_flags r w s = status_of (get_all_flags_handler env c s (query_value (lit "env") r))
  handle flag_stream r w s = stream_handler c r.id (query_value (lit "env") r) w s
  handle evaluate_flag r w s =
      status_of (evaluate_flag_handler env c s (var_of r) (d.context r.body))
  handle get_flag r w s = status_of (get_flag_handler env c s (var_of r))
  handle update_flag r w s = status_of (update_flag_handler env c s (var_of r) (d.flag r.body))
  handle delete_flag r w s = status_of (delete_flag_handler env c s (var_of r))
  handle create_experiment r w s =
      status_of (create_experiment_handler env c s (d.experiment r.body))
  handle get_variant r w s =
      status_of (get_variant_handler s (var_of r) (query_value (lit "userId") r))
  handle record_conversion r w s =
      status_of (record_conversion_handler s (var_of r) (query_value (lit "variant") r))
  handle set_rate_limit r w s = status_of (set_rate_limit_handler env c s (d.limit r.body))
  handle check_rate_limit r w s =
      status_of (check_rate_limit_handler s r.created r.now (d.limit_check r.body))
  handle rate_limit r w s = status_of (
      get_rate_limit_handler s (route_of r) (query_value (lit "userId") r)
        (query_value (lit "tenantId") r))
  handle rate_limit_of r w s = status_of (
      get_rate_limit_handler s (route_of r) (query_value (lit "userId") r)
        (query_value (lit "tenantId") r))
  handle set_breaker r w s = status_of (
      set_circuit_breaker_handler env c s r.now (query_value (lit "route") r)
        (query_value (lit "state") r) (d.breaker r.body))
  handle check_breaker r w s =
      status_of
        (check_circuit_breaker_handler env c s r.now (query_value (lit "route") r) (d.route r.body))
  handle report_breaker r w s =
      status_of (report_circuit_breaker_handler env c s r.now (d.report r.body))
  handle breaker r w s = status_of (get_circuit_breaker_handler s (route_of r))
  handle breaker_of r w s = status_of (get_circuit_breaker_handler s (route_of r))
  handle set_config r w s = status_of (set_config_handler env s (d.config r.body))
  handle get_config r w s = status_of (get_config_handler env s (var_of r))

  unfoldable pub handle_picked : Picked → HttpRequest → Handler (Server R)
  handle_picked (picked route) r w s = handle route r w s
  handle_picked (refused status) r w s = (s, status)

  -- A request through the whole chain: `mux` says which entry is for a method and a path.
  unfoldable pub serve : (Str → Str → Picked) → Str → HttpRequest → Handler (Traffic × Server R)
  serve mux token r =
      served token r.request r.duration (handle_picked (mux r.request.method r.request.path) r)
