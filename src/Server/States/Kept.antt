-- ===== src/Server/States/Kept.antt =====
-- The handlers of circuit breakers, and the reload, leave the server well formed.
use feature_flags_control_pl.Shared.{
  ℕ, Bool, true, false, if◌then◌else◌, Bool-cases, inl, inr, Option, none, some, ◌≡◌, Str, [], ◌∷◌,
  Dict, arith, is_empty, lookup, insert, Option-cases, ◌∙◌, sym, subst, refl,
}
use mathlib.Core.Option.{some-injective}
use feature_flags_control_pl.Breaker.{set_state, CircuitBreaker, state_to_float}
use feature_flags_control_pl.Metrics.{GaugeVec, gauge_set}
use feature_flags_control_pl.Metrics.Text.Sized.{GaugeSized, gauge_set-GaugeSized}
use feature_flags_control_pl.Store.Values.{Result, ok, err}
use feature_flags_control_pl.Store.{Env, World, ConfigStore}
use feature_flags_control_pl.Server.{Codec, Server, Decoded, parsed, empty_body, malformed}
use feature_flags_control_pl.Server.Breakers.{
  SetRequest, Report, lenient, or_text, ensured, set_thresholds, keep_breaker,
  set_circuit_breaker_handler, check_breaker, check_circuit_breaker_handler, report_breaker,
  report_circuit_breaker_handler,
}
use feature_flags_control_pl.Server.Sync.{
  set_gauges, load_breakers, Listings, list_store, install, installed, load_in, load_from_store,
}
use feature_flags_control_pl.Breaker.Probes.{check-state}
use feature_flags_control_pl.Server.States.Shown.{
  insert-Shows, set_gauges-Shows, load_breakers-Distinct,
}
use feature_flags_control_pl.Server.States.Unstored.{Tables, WellFormed}
use feature_flags_control_pl.Breaker.Routes.{
  new_circuit_breaker-route, check-route, observe-route, set_state-route,
}
use feature_flags_control_pl.Server.States.Stored.{persist_json-WellFormed}
use feature_flags_control_pl.Server.States.Keyed.{
  Keyed, insert-Keyed, empty-Keyed, load_flags-Keyed, load_experiments-Keyed, load_breakers-Keyed,
}

set_gauges-GaugeSized :
    (m : Dict CircuitBreaker) (g : GaugeVec) → GaugeSized 1 g → GaugeSized 1 (set_gauges m g)
unfolding set_gauges
set_gauges-GaugeSized [] g h = h
set_gauges-GaugeSized ((route, cb) ∷ m) g h =
    set_gauges-GaugeSized m (gauge_set g (route ∷ []) (state_to_float cb.state))
      (gauge_set-GaugeSized 1 g (route ∷ []) _ (omega arith) h)

set_thresholds-route :
    (cb : CircuitBreaker) (req : SetRequest) → (set_thresholds cb req).route ≡ cb.route
unfolding set_thresholds
set_thresholds-route cb req = ground arith

forced-route :
    (kept : Bool) (cb : CircuitBreaker) (state : Str) (now : ℕ)
    → (if kept then cb else set_state cb state now).route ≡ cb.route
forced-route true cb state now = refl
forced-route false cb state now = set_state-route cb state now

module _ {R : Type 0} where
  routes : (s : Server R) → WellFormed s → Keyed (λ cb. cb.route) s.breakers
  routes s (fe, ve, ce, th, (fs, es, bs, sized, shown)) = bs

module _ {R : Type 0} (env : Env R) where
  ensured-route :
      (s : Server R) (now : ℕ) (route : Str)
      → Keyed (λ cb. cb.route) s.breakers
      → (ensured s now route).route ≡ route
  unfolding ensured
  ensured-route s now route bs = elim (Option-cases (lookup route s.breakers)) [
    | inl missing ↦ rw (ensured, missing) (new_circuit_breaker-route route now)
    | inr (cb, found) ↦ rw (ensured, found) (bs route cb found)
  ]

  module _ (c : Codec) where
    keep_breaker-WellFormed :
        (s : Server R) (route : Str) (cb : CircuitBreaker) (state : Str)
        → state ≡ cb.state
        → cb.route ≡ route
        → WellFormed s
        → WellFormed (keep_breaker env c s route cb state)
    unfolding keep_breaker
    keep_breaker-WellFormed s route cb state e own (fe, ve, ce, th, (fs, es, bs, sized, shown)) =
        let keyed = insert-Keyed (λ cb. cb.route) route cb s.breakers own bs in
        let still = gauge_set-GaugeSized 1 s.breaker_gauge (route ∷ []) _ (omega arith) sized in
        let follows = insert-Shows s.breakers s.breaker_gauge route cb shown in
        rw e (
          persist_json-WellFormed env (gauged (state_to_float cb.state)) _ _ _
            (fe, ve, ce, th, (fs, es, keyed, still, follows)))
      where
        gauged : ℕ → Server R
        gauged v = record s {
          breakers = insert route cb s.breakers;
          breaker_gauge = gauge_set s.breaker_gauge (route ∷ []) v;
        }

    pub set_circuit_breaker_handler-WellFormed :
        (s : Server R) (now : ℕ) (route state : Str) (body : Decoded SetRequest)
        → WellFormed s
        → WellFormed (set_circuit_breaker_handler env c s now route state body).0
    unfolding set_circuit_breaker_handler
    set_circuit_breaker_handler-WellFormed s now route state body h =
        elim (Bool-cases (is_empty (or_text route (lenient body).route))) [
          | inl missing ↦ rw missing h
          | inr given ↦ rw given (
              keep_breaker-WellFormed s _ _ _ refl
                (set_thresholds-route _ (lenient body)
                  ∙ forced-route (is_empty (or_text state (lenient body).state))
                      (ensured s now (or_text route (lenient body).route)) _ now
                  ∙ ensured-route s now _ (routes s h))
                h)
        ]

    check_breaker-WellFormed :
        (s : Server R) (now : ℕ) (route : Str)
        → WellFormed s
        → WellFormed (check_breaker env c s now route).0
    unfolding check_breaker
    check_breaker-WellFormed s now route h = elim (Bool-cases (is_empty route)) [
      | inl missing ↦ rw missing h
      | inr given ↦ rw given (
          keep_breaker-WellFormed s route _ _ (check-state (ensured s now route) now)
            (check-route (ensured s now route) now ∙ ensured-route s now route (routes s h)) h)
    ]

    pub check_circuit_breaker_handler-WellFormed :
        (s : Server R) (now : ℕ) (query : Str) (body : Decoded Str)
        → WellFormed s
        → WellFormed (check_circuit_breaker_handler env c s now query body).0
    unfolding check_circuit_breaker_handler
    check_circuit_breaker_handler-WellFormed s now query (parsed route) h =
        check_breaker-WellFormed s now _ h
    check_circuit_breaker_handler-WellFormed s now query empty_body h =
        check_breaker-WellFormed s now _ h
    check_circuit_breaker_handler-WellFormed s now query (malformed _) h = h

    pub report_circuit_breaker_handler-WellFormed :
        (s : Server R) (now : ℕ) (body : Decoded Report)
        → WellFormed s
        → WellFormed (report_circuit_breaker_handler env c s now body).0
    unfolding report_circuit_breaker_handler report_breaker
    report_circuit_breaker_handler-WellFormed s now (parsed req) h =
        elim (Bool-cases (is_empty req.route)) [
          | inl missing ↦ rw missing h
          | inr given ↦ rw given (
              keep_breaker-WellFormed s req.route _ _ refl
                (observe-route (ensured s now req.route) now _ _
                  ∙ ensured-route s now req.route (routes s h))
                h)
        ]
    report_circuit_breaker_handler-WellFormed s now empty_body h = h
    report_circuit_breaker_handler-WellFormed s now (malformed _) h = h

    installed-WellFormed :
        (s : Server R) (now : ℕ) (r : World R × Result Listings)
        → WellFormed s
        → WellFormed (installed env c s now r)
    unfolding installed install
    installed-WellFormed s now (w, err e) h = h
    installed-WellFormed s now (w, ok l) (fe, ve, ce, th, (fs, es, bs, sized, shown)) =
        let loaded = load_breakers c now l.breakers [] in
        let apart = load_breakers-Distinct c now l.breakers [] tt in
        let tables : Tables _ _ loaded (set_gauges loaded s.breaker_gauge) = (
          load_flags-Keyed c l.flags [] (empty-Keyed _),
          load_experiments-Keyed c l.experiments [] (empty-Keyed _),
          load_breakers-Keyed c now l.breakers [] (empty-Keyed _),
          set_gauges-GaugeSized loaded s.breaker_gauge sized,
          set_gauges-Shows loaded s.breaker_gauge apart,
        ) in
        (fe, ve, ce, th, tables)

    load_in-WellFormed :
        (fuel : ℕ) (s s' : Server R) (now : ℕ) (o : Option ConfigStore)
        → load_in env c fuel s now o ≡ some s'
        → WellFormed s
        → WellFormed s'
    unfolding load_in
    load_in-WellFormed fuel s s' now none e h = subst WellFormed (some-injective _ _ e) h
    load_in-WellFormed fuel s s' now (some cs) e h =
        elim (Option-cases (list_store env c fuel cs s.world)) [
          | inl stopped ↦ absurd (none-ne (sym (rw (load_in, stopped) refl) ∙ e))
          | inr (r, listed) ↦
              subst WellFormed {x = installed env c s now r}
                (some-injective _ _ (sym (rw (load_in, listed) refl) ∙ e))
                (installed-WellFormed s now r h)
        ]
      where
        none-ne : ¬ (none ≡ some s')
        none-ne x = cc

    pub load_from_store-WellFormed :
        (fuel : ℕ) (s s' : Server R) (now : ℕ)
        → load_from_store env c fuel s now ≡ some s'
        → WellFormed s
        → WellFormed s'
    unfolding load_from_store
    load_from_store-WellFormed fuel s s' now e h = load_in-WellFormed fuel s s' now s.store e h
