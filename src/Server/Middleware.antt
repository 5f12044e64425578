-- ===== src/Server/Middleware.antt =====
-- control-plane/main.go: the middleware around the handlers, in the order in which `main` puts it. A
-- handler is a function of the writer and the state, to the new state and the status that it writes; a
-- handler that panics is left out.
pub mod Counted
pub mod Refused
use feature_flags_control_pl.Shared.{ℕ, Bool, true, false, List, [], ◌∷◌, Str, leb, if◌then◌else◌}
use feature_flags_control_pl.Metrics.{CounterVec, counter_inc, HistogramVec, hist_observe}
use feature_flags_control_pl.Server.Auth.{Request, Verdict, pass, unauthorized, auth_middleware}
use feature_flags_control_pl.Server.Stream.{Writer, status_recorder}

abbrev pub Handler : Type 0 → Type 0
Handler S = Writer → S → S × ℕ

-- The three metrics of the middleware.
pub record Traffic : Type 0 where
  pub qps : CounterVec
  pub latency : HistogramVec
  pub error_rate : CounterVec

-- What is counted behind a request of `path` that took `duration` milliseconds.
unfoldable pub counted : Traffic → Str → ℕ → ℕ → Traffic
counted t path duration status = record {
  qps = counter_inc t.qps (path ∷ []);
  latency = hist_observe t.latency (path ∷ []) duration;
  error_rate = if leb 400 status then counter_inc t.error_rate (path ∷ []) else t.error_rate;
}

module _ {S : Type 0} where
  unfoldable pub metrics_middleware : Str → ℕ → Handler S → Handler (Traffic × S)
  metrics_middleware path duration next w (t, s) =
      let (s', status) = next (status_recorder w) s in
      ((counted t path duration status, s'), status)

  -- The span that `tracingMiddleware` starts and ends is only logged, as in module Tracing, and no
  -- handler reads the context that holds it: the request is passed on.
  unfoldable pub tracing_middleware : Handler S → Handler S
  tracing_middleware next w s = next w s

  unfoldable pub guarded : Verdict → Handler S → Handler S
  guarded pass next w s = next w s
  guarded unauthorized next w s = (s, 401)

  -- `metricsMiddleware(tracingMiddleware(authMiddleware(mux)))`, with the handler that the mux picks.
  unfoldable pub served : Str → Request → ℕ → Handler S → Handler (Traffic × S)
  served token r duration handler =
      metrics_middleware r.path duration
        (tracing_middleware (guarded (auth_middleware token r) handler))
