-- ===== src/Server/States/Invariants.antt =====
-- What holds in every state of the control plane.
use feature_flags_control_pl.Shared.{
  lookup, ℕ, ◌≡◌, Option, some, Str, lit, [], ◌∷◌, arith, leb, if◌then◌else◌, Bool, true, false,
}
use feature_flags_control_pl.Breaker.{CircuitBreaker, state_to_float}
use feature_flags_control_pl.Metrics.{gauge_value, counter_inc}
use feature_flags_control_pl.Metrics.Text.Sized.{
  CounterSized, counter_inc-CounterSized, HistSized, hist_observe-HistSized,
  new_counter-CounterSized, new_gauge-GaugeSized, new_histogram-HistSized, counter-Writable,
  histogram-Writable, gauge-Writable, serve_metrics-some,
}
use feature_flags_control_pl.Store.{Env, ConfigStore, World}
use feature_flags_control_pl.Server.{Codec, Server}
use feature_flags_control_pl.Server.Auth.{Verdict, pass, unauthorized, auth_middleware}
use feature_flags_control_pl.Server.Flags.{get_all_flags_handler, get_flag_handler}
use feature_flags_control_pl.Server.Limits.{get_rate_limit_handler}
use feature_flags_control_pl.Server.Breakers.{get_circuit_breaker_handler}
use feature_flags_control_pl.Server.Stream.{Writer, status_recorder}
use feature_flags_control_pl.Server.Middleware.{
  Traffic, counted, metrics_middleware, tracing_middleware, guarded, served,
}
use feature_flags_control_pl.Server.Mux.{
  Route, Decoders, HttpRequest, Picked, picked, refused, handle, handle_picked, serve,
}
use feature_flags_control_pl.Server.States.{
  fresh_traffic, fresh_server, all_metrics, metrics_text, Reached, begun, asked, reloaded,
}
use feature_flags_control_pl.Server.States.Unstored.{
  WellFormed, evaluate-WellFormed, variant-WellFormed, conversion-WellFormed,
  check_rate_limit-WellFormed, stream-WellFormed,
}
use feature_flags_control_pl.Server.States.Stored.{
  create_flag_handler-WellFormed, update_flag_handler-WellFormed, delete_flag_handler-WellFormed,
  create_experiment_handler-WellFormed, set_rate_limit_handler-WellFormed,
  set_config_handler-WellFormed, get_config_handler-WellFormed,
}
use feature_flags_control_pl.Server.States.Kept.{
  set_circuit_breaker_handler-WellFormed, check_circuit_breaker_handler-WellFormed,
  report_circuit_breaker_handler-WellFormed, load_from_store-WellFormed,
}
use feature_flags_control_pl.Server.States.Keyed.{Keyed, empty-Keyed}

-- The metrics of the middleware have a value for their one label.
abbrev TrafficSized : Traffic → Type 0
TrafficSized t = CounterSized 1 t.qps × HistSized 1 t.latency × CounterSized 1 t.error_rate

counted-TrafficSized :
    (t : Traffic) (path : Str) (duration status : ℕ)
    → TrafficSized t
    → TrafficSized (counted t path duration status)
unfolding counted
counted-TrafficSized t path duration status (q, l, e) = (
  counter_inc-CounterSized 1 t.qps (path ∷ []) (omega arith) q,
  hist_observe-HistSized 1 t.latency (path ∷ []) duration (omega arith) l,
  errors (leb 400 status),
)
  where
    errors :
        (b : Bool)
        → CounterSized 1 (if b then counter_inc t.error_rate (path ∷ []) else t.error_rate)
    errors true = counter_inc-CounterSized 1 t.error_rate (path ∷ []) (omega arith) e
    errors false = e

module _ {R : Type 0} (env : Env R) (c : Codec) (d : Decoders) where
  handle-WellFormed :
      (route : Route) (r : HttpRequest) (w : Writer) (s : Server R)
      → WellFormed s
      → WellFormed (handle env c d route r w s).0
  unfolding handle get_all_flags_handler get_flag_handler get_rate_limit_handler
      get_circuit_breaker_handler
  handle-WellFormed Route.landing r w s h = h
  handle-WellFormed Route.metrics r w s h = h
  handle-WellFormed Route.health r w s h = h
  handle-WellFormed Route.create_flag r w s h = create_flag_handler-WellFormed env c s _ h
  handle-WellFormed Route.all_flags r w s h = h
  handle-WellFormed Route.flag_stream r w s h = stream-WellFormed c _ _ w s h
  handle-WellFormed Route.evaluate_flag r w s h = evaluate-WellFormed env c s _ _ h
  handle-WellFormed Route.get_flag r w s h = h
  handle-WellFormed Route.update_flag r w s h = update_flag_handler-WellFormed env c s _ _ h
  handle-WellFormed Route.delete_flag r w s h = delete_flag_handler-WellFormed env c s _ h
  handle-WellFormed Route.create_experiment r w s h =
      create_experiment_handler-WellFormed env c s _ h
  handle-WellFormed Route.get_variant r w s h = variant-WellFormed s _ _ h
  handle-WellFormed Route.record_conversion r w s h = conversion-WellFormed s _ _ h
  handle-WellFormed Route.set_rate_limit r w s h = set_rate_limit_handler-WellFormed env c s _ h
  handle-WellFormed Route.check_rate_limit r w s h = check_rate_limit-WellFormed s _ _ _ h
  handle-WellFormed Route.rate_limit r w s h = h
  handle-WellFormed Route.rate_limit_of r w s h = h
  handle-WellFormed Route.set_breaker r w s h =
      set_circuit_breaker_handler-WellFormed env c s _ _ _ _ h
  handle-WellFormed Route.check_breaker r w s h =
      check_circuit_breaker_handler-WellFormed env c s _ _ _ h
  handle-WellFormed Route.report_breaker r w s h =
      report_circuit_breaker_handler-WellFormed env c s _ _ h
  handle-WellFormed Route.breaker r w s h = h
  handle-WellFormed Route.breaker_of r w s h = h
  handle-WellFormed Route.set_config r w s h = set_config_handler-WellFormed env s _ h
  handle-WellFormed Route.get_config r w s h = get_config_handler-WellFormed env s _ h

  guarded-WellFormed :
      (v : Verdict) (p : Picked) (r : HttpRequest) (w : Writer) (s : Server R)
      → WellFormed s
      → WellFormed (guarded v (handle_picked env c d p r) w s).0
  unfolding guarded handle_picked
  guarded-WellFormed unauthorized p r w s h = h
  guarded-WellFormed pass (refused status) r w s h = h
  guarded-WellFormed pass (picked route) r w s h = handle-WellFormed route r w s h

  module _ (mux : Str → Str → Picked) (token : Str) where
    -- Every metric can be written.
    abbrev Sound : Traffic × Server R → Type 0
    Sound (t, s) = TrafficSized t × WellFormed s

    serve-Sound :
        (r : HttpRequest) (w : Writer) (ts : Traffic × Server R)
        → Sound ts
        → Sound (serve env c d mux token r w ts).0
    unfolding serve served metrics_middleware tracing_middleware
    serve-Sound r w (t, s) (traffic, metered) = (
      counted-TrafficSized t r.request.path r.duration _ traffic,
      guarded-WellFormed (auth_middleware token r.request) (mux r.request.method r.request.path) r
          (status_recorder w) s metered,
    )

    Reached-Sound :
        {before now : Traffic × Server R}
        → Reached env c d mux token before now
        → Sound before
        → Sound now
    Reached-Sound begun h = h
    Reached-Sound (asked {now} r w earlier) h = serve-Sound r w now (Reached-Sound earlier h)
    Reached-Sound (reloaded {t} {s} {s'} fuel at earlier e) h =
        let (traffic, metered) = Reached-Sound earlier h in
        (traffic, load_from_store-WellFormed env c fuel s s' at e metered)

    fresh-Sound :
        (store : Option ConfigStore) (world : World R)
        → Sound (fresh_traffic, fresh_server store world)
    unfolding fresh_traffic fresh_server lookup
    fresh-Sound store world = (
      (
        new_counter-CounterSized _ _ (lit "route" ∷ []),
        new_histogram-HistSized _ _ _ (lit "route" ∷ []),
        new_counter-CounterSized _ _ (lit "route" ∷ []),
      ),
      (
        new_counter-CounterSized _ _ (lit "flag" ∷ lit "result" ∷ []),
        new_counter-CounterSized _ _ (lit "experiment" ∷ lit "variant" ∷ []),
        new_counter-CounterSized _ _ (lit "experiment" ∷ lit "variant" ∷ []),
        new_counter-CounterSized _ _ (lit "route" ∷ []),
        (
          empty-Keyed _,
          empty-Keyed _,
          empty-Keyed _,
          new_gauge-GaugeSized _ _ (lit "route" ∷ []),
          λ k cb found. absurd (ground arith),
        ),
      ),
    )

    text-some :
        (float_text : ℕ → Str) (ts : Traffic × Server R)
        → Sound ts
        → (text : Str) × (metrics_text float_text ts ≡ some text)
    unfolding metrics_text all_metrics
    text-some float_text (t, s) ((q, l, e), (fe, ve, ce, th, (fs, es, bs, sized, shown))) =
        serve_metrics-some float_text (all_metrics t s) (
          counter-Writable float_text 1 t.qps q,
          (
            counter-Writable float_text 1 t.error_rate e,
            (
              histogram-Writable float_text 1 t.latency l,
              (
                counter-Writable float_text 2 s.variant_exposure ve,
                (
                  counter-Writable float_text 2 s.conversion_events ce,
                  (
                    counter-Writable float_text 2 s.flag_evaluations fe,
                    (
                      counter-Writable float_text 1 s.throttled_requests th,
                      (gauge-Writable float_text 1 s.breaker_gauge sized, tt),
                    ),
                  ),
                ),
              ),
            ),
          ),
        )

    -- In every state that requests and reloads lead to from the start, in whatever order, /metrics is
    -- written without a panic: no handler leaves a metric with a label that has no value.
    pub metrics_text-Reached :
        (float_text : ℕ → Str) (store : Option ConfigStore) (world : World R)
        (now : Traffic × Server R)
        → Reached env c d mux token (fresh_traffic, fresh_server store world) now
        → (text : Str) × (metrics_text float_text now ≡ some text)
    metrics_text-Reached float_text store world now reached =
        text-some float_text now (Reached-Sound reached (fresh-Sound store world))

    -- In every state that requests and reloads lead to from the start, in whatever order, the gauge of
    -- every route that has a breaker holds the number of that breaker's state.
    pub gauge_value-Reached :
        (store : Option ConfigStore) (world : World R) (now : Traffic × Server R) (route : Str)
        (cb : CircuitBreaker)
        → Reached env c d mux token (fresh_traffic, fresh_server store world) now
        → lookup route now.1.breakers ≡ some cb
        → gauge_value now.1.breaker_gauge (route ∷ []) ≡ state_to_float cb.state
    gauge_value-Reached store world now route cb reached found =
        let (traffic, (fe, ve, ce, th, (fs, es, bs, sized, shown))) =
          Reached-Sound reached (fresh-Sound store world) in
        shown route cb found

    -- In every state that requests and reloads lead to from the start, in whatever order, each flag and
    -- each experiment is known under its own name, and each circuit breaker under its own route.
    pub Reached-Keyed :
        (store : Option ConfigStore) (world : World R) (now : Traffic × Server R)
        → Reached env c d mux token (fresh_traffic, fresh_server store world) now
        → Keyed (λ f. f.name) now.1.flags
          × Keyed (λ e. e.name) now.1.experiments
          × Keyed (λ cb. cb.route) now.1.breakers
    Reached-Keyed store world now reached =
        let (traffic, (fe, ve, ce, th, (fs, es, bs, sized, shown))) =
          Reached-Sound reached (fresh-Sound store world) in
        (fs, es, bs)
