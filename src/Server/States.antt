-- ===== src/Server/States.antt =====
-- control-plane/main.go and metrics.go: the state that the control plane starts in, and the text of
-- /metrics in each state that it comes to, by requests and reloads. A metric is a global variable of the source; the server and
-- the middleware hold them here.
pub mod Shown
pub mod Keyed
pub mod Unstored
pub mod Stored
pub mod Kept
pub mod Invariants
mod Tests
use feature_flags_control_pl.Shared.{ℕ, ◌≡◌, Option, some, List, [], ◌∷◌, Str, lit}
use feature_flags_control_pl.Metrics.Registry
use feature_flags_control_pl.Metrics.Text.{Metric, counter, gauge, histogram, serve_metrics}
use feature_flags_control_pl.Store.{Env, ConfigStore, World}
use feature_flags_control_pl.Server.{Codec, Server}
use feature_flags_control_pl.Server.Stream.{Writer}
use feature_flags_control_pl.Server.Middleware.{Traffic}
use feature_flags_control_pl.Server.Mux.{Decoders, HttpRequest, Picked, serve}
use feature_flags_control_pl.Server.Sync.{load_from_store}

unfoldable pub fresh_traffic : Traffic
fresh_traffic = record {
  qps = Registry.qps;
  latency = Registry.latency;
  error_rate = Registry.error_rate;
}

-- The package variables, with the store that `main` opens.
unfoldable pub fresh_server : {R : Type 0} → Option ConfigStore → World R → Server R
fresh_server store world = record {
  flags = [];
  experiments = [];
  breakers = [];
  rate_limits = [];
  buckets = [];
  store = store;
  world = world;
  clients = [];
  flag_evaluations = Registry.flag_evaluations;
  variant_exposure = Registry.variant_exposure;
  conversion_events = Registry.conversion_events;
  throttled_requests = Registry.throttled_requests;
  breaker_gauge = Registry.circuit_breaker_state_gauge;
}

-- `allMetrics`, in the order in which the variables are initialised.
unfoldable pub all_metrics : {R : Type 0} → Traffic → Server R → List Metric
all_metrics t s =
    counter t.qps
    ∷ counter t.error_rate
    ∷ histogram t.latency
    ∷ counter s.variant_exposure
    ∷ counter s.conversion_events
    ∷ counter s.flag_evaluations
    ∷ counter s.throttled_requests
    ∷ gauge s.breaker_gauge
    ∷ []

-- What a request for /metrics writes; `none` is a panic.
unfoldable pub metrics_text : {R : Type 0} → (ℕ → Str) → Traffic × Server R → Option Str
metrics_text float_text (t, s) = serve_metrics float_text (all_metrics t s)

module _ {R : Type 0} (env : Env R) (c : Codec) (d : Decoders) (mux : Str → Str → Picked)
    (token : Str) where
  -- The states that requests and reloads lead to, in any order.
  pub data Reached (ts : Traffic × Server R) : Traffic × Server R → Type 0 where
    begun : Reached ts ts
    asked :
        {now : Traffic × Server R} (r : HttpRequest) (w : Writer)
        → Reached ts now
        → Reached ts (serve env c d mux token r w now).0
    reloaded :
        {t : Traffic} {s s' : Server R} (fuel at : ℕ)
        → Reached ts (t, s)
        → load_from_store env c fuel s at ≡ some s'
        → Reached ts (t, s')
