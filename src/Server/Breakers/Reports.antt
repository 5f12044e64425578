-- ===== src/Server/Breakers/Reports.antt =====
-- What the breaker handlers leave for later requests.
use feature_flags_control_pl.Shared.{
  ℕ, List, ◌∷◌, subst, Bool-cases, inl, inr, str_eq_sound, ◌≡◌, refl, sym, ap, ◌∙◌, ◌≢◌, true,
  false, Option, none, some, [], Str, arith, str_eq, is_empty, is_empty_iff, lookup, insert,
  lookup-insert_self, lookup-insert, if◌then◌else◌,
}
use feature_flags_control_pl.Breaker.{
  CircuitBreaker, open_state, half_open_state, check, observe, set_state,
}
use feature_flags_control_pl.Breaker.Probes.{check-unknown_state, set_state-state}
use feature_flags_control_pl.Store.{Env, ConfigStore}
use feature_flags_control_pl.Server.{
  Codec, Server, Decoded, parsed, json_ok, breaker_allowed, stored, persist_in, persist_json,
}
use feature_flags_control_pl.Server.Breakers.{
  Report, SetRequest, lenient, set_thresholds, ensured, keep_breaker, set_circuit_breaker_handler,
  check_breaker, report_breaker, report_circuit_breaker_handler,
}

module _ {R : Type 0} (env : Env R) (c : Codec) where
  persist_in-breakers :
      (s : Server R) (o : Option ConfigStore) (key value : Str)
      → (persist_in env s o key value).breakers ≡ s.breakers
  unfolding persist_in stored
  persist_in-breakers s none key value = refl
  persist_in-breakers s (some cs) key value = refl

  pub keep_breaker-breakers :
      (s : Server R) (route : Str) (cb : CircuitBreaker) (state : Str)
      → (keep_breaker env c s route cb state).breakers ≡ insert route cb s.breakers
  unfolding keep_breaker persist_json
  keep_breaker-breakers s route cb state = persist_in-breakers _ s.store _ _

  -- A report for a route leaves in the map, for that route, the breaker that was there, or a new one,
  -- with the outcome observed; the breakers of all other routes stay as they were.
  pub report-exact :
      (s : Server R) (now : ℕ) (req : Report) (other : Str)
      → req.route ≢ []
      → lookup other (report_circuit_breaker_handler env c s now (parsed req)).0.breakers ≡ (
          if str_eq req.route other
          then some (observe (ensured s now req.route) now req.success req.latency_ms)
          else lookup other s.breakers)
  unfolding report_circuit_breaker_handler report_breaker
  report-exact s now req other ne =
      let cb = observe (ensured s now req.route) now req.success req.latency_ms in
      ground (
        arith,
        is_empty_iff req.route,
        keep_breaker-breakers s req.route cb cb.state,
        lookup-insert req.route other cb s.breakers,
      )

  set_thresholds-state :
      (cb : CircuitBreaker) (req : SetRequest) → (set_thresholds cb req).state ≡ cb.state
  unfolding set_thresholds
  set_thresholds-state cb req = ground arith

  abbrev forced_breaker : Server R → ℕ → Str → Str → Decoded SetRequest → CircuitBreaker
  forced_breaker s now route state body =
      set_thresholds (set_state (ensured s now route) state now) (lenient body)

  set_circuit_breaker-breakers :
      (s : Server R) (now : ℕ) (route state : Str) (body : Decoded SetRequest)
      → is_empty route ≡ false
      → is_empty state ≡ false
      → (set_circuit_breaker_handler env c s now route state body).0.breakers
        ≡ insert route (forced_breaker s now route state body) s.breakers
  unfolding set_circuit_breaker_handler
  set_circuit_breaker-breakers s now route state body er es =
      rw (er, es)
        (rw (er, es)
          (keep_breaker-breakers s route (forced_breaker s now route state body)
            (forced_breaker s now route state body).state))

  -- Checks of any routes at any times, one after the other.
  unfoldable pub checked_all : Server R → List (ℕ × Str) → Server R
  checked_all s [] = s
  checked_all s ((at, route) ∷ later) = checked_all (check_breaker env c s at route).0 later

  -- The route has a breaker, and that breaker is as described.
  abbrev pub Holds : (CircuitBreaker → Type 0) → Str → Server R → Type 0
  Holds P route s = (cb : CircuitBreaker) × (lookup route s.breakers ≡ some cb) × P cb

  ensured-found :
      (s : Server R) (now : ℕ) (route : Str) (cb : CircuitBreaker)
      → lookup route s.breakers ≡ some cb
      → ensured s now route ≡ cb
  unfolding ensured
  ensured-found s now route cb found = rw (ensured, found) refl

  pub check_breaker-known :
      (s : Server R) (now : ℕ) (route : Str) (cb : CircuitBreaker)
      → is_empty route ≡ false
      → lookup route s.breakers ≡ some cb
      → let (s', r) = check_breaker env c s now route in
        (s'.breakers ≡ insert route (check cb now).breaker s.breakers)
        × (r ≡ json_ok (breaker_allowed route (check cb now).allowed (check cb now).state))
  unfolding check_breaker
  check_breaker-known s now route cb filled found =
      rw (filled, ensured-found s now route cb found)
        (keep_breaker-breakers s route (check cb now).breaker (check cb now).state, refl)

  check_breaker-other :
      (s : Server R) (now : ℕ) (route other : Str)
      → str_eq other route ≡ false
      → lookup route (check_breaker env c s now other).0.breakers ≡ lookup route s.breakers
  unfolding check_breaker
  check_breaker-other s now route other apart = elim (Bool-cases (is_empty other)) [
    | inl missing ↦ rw missing refl
    | inr given ↦
        let cb = check (ensured s now other) now in
        rw (given, keep_breaker-breakers s other cb.breaker cb.state)
          (rw (lookup-insert, apart) refl)
  ]

  -- What every check keeps of a breaker, checks of any routes keep.
  module _ (P : CircuitBreaker → Type 0)
      (kept : (cb : CircuitBreaker) (at : ℕ) → P cb → P (check cb at).breaker) (route : Str)
      (filled : is_empty route ≡ false) where
    pub check_breaker-Holds :
        (s : Server R) (now : ℕ) (other : Str)
        → Holds P route s
        → Holds P route (check_breaker env c s now other).0
    check_breaker-Holds s now other (cb, found, p) = elim (Bool-cases (str_eq other route)) [
      | inl own ↦
          let e : other ≡ route = str_eq_sound other route own in
          let (breakers, _) = check_breaker-known s now route cb filled found in
          subst (λ r. Holds P route (check_breaker env c s now r).0) (sym e)
            (
              (check cb now).breaker,
              ap (lookup route) breakers
                  ∙ lookup-insert_self route (check cb now).breaker s.breakers,
              kept cb now p,
            )
      | inr apart ↦ (cb, check_breaker-other s now route other apart ∙ found, p)
    ]

    pub checked_all-Holds :
        (s : Server R) (later : List (ℕ × Str))
        → Holds P route s
        → Holds P route (checked_all s later)
    unfolding checked_all
    checked_all-Holds s [] h = h
    checked_all-Holds s ((at, other) ∷ later) h =
        checked_all-Holds (check_breaker env c s at other).0 later
          (check_breaker-Holds s at other h)

  -- A state that is neither "open" nor "half-open", whatever the text, makes the breaker, once the set
  -- handler has set it, let every later check through and keep that state, whatever checks of this and
  -- other routes are made in between and at whatever times, as long as no outcome is reported.
  pub check-set_unknown_state :
      (s : Server R) (now : ℕ) (route state : Str) (body : Decoded SetRequest)
      (between : List (ℕ × Str)) (at : ℕ)
      → route ≢ []
      → state ≢ []
      → state ≢ open_state
      → state ≢ half_open_state
      → let s' = (set_circuit_breaker_handler env c s now route state body).0 in
        (check_breaker env c (checked_all s' between) at route).1
        ≡ json_ok (breaker_allowed route true state)
  check-set_unknown_state s now route state body between at r_ne s_ne not_open not_half =
      let er : is_empty route ≡ false = ground (arith, is_empty_iff route) in
      let es : is_empty state ≡ false = ground (arith, is_empty_iff state) in
      let cb = forced_breaker s now route state body in
      let same : cb.state ≡ state =
        set_thresholds-state (set_state (ensured s now route) state now) (lenient body)
        ∙ set_state-state (ensured s now route) state now in
      let stays : (cb : CircuitBreaker) (at : ℕ)
          → cb.state ≡ state
          → check cb at ≡ record { breaker = cb; allowed = true; state = cb.state } =
        λ cb at e.
          check-unknown_state cb at (λ o. not_open (sym e ∙ o)) (λ h. not_half (sym e ∙ h)) in
      let s' = (set_circuit_breaker_handler env c s now route state body).0 in
      let set : Holds (λ cb. cb.state ≡ state) route s' = (
        cb,
        rw (set_circuit_breaker-breakers s now route state body er es)
            (lookup-insert_self route cb s.breakers),
        same,
      ) in
      let (last, found, e) =
        checked_all-Holds (λ cb. cb.state ≡ state)
          (λ cb at e. ap (λ r. r.breaker.state) (stays cb at e) ∙ e) route er s' between set in
      (check_breaker-known (checked_all s' between) at route last er found).1
      ∙ ap (λ r. json_ok (breaker_allowed route r.allowed r.state)) (stays last at e)
      ∙ ap (λ t. json_ok (breaker_allowed route true t)) e
