-- ===== src/Sdk/Answers.antt =====
-- The Go client against the handlers of the control plane: what it makes of their answers.
use feature_flags_control_pl.Shared.{
  ℕ, ◌≡◌, ◌≢◌, false, Option-cases, inl, inr, none, some, [], Str, lit, arith, str_eq, is_empty,
  is_empty_iff, lookup,
}
use feature_flags_control_pl.Flag.{EvalContext, is_flag_enabled}
use feature_flags_control_pl.Breaker.{CircuitBreaker, check}
use feature_flags_control_pl.Store.{Env}
use feature_flags_control_pl.Server.{Codec, Server, parsed}
use feature_flags_control_pl.Server.Breakers.{ensured, get_circuit_breaker_handler, check_breaker}
use feature_flags_control_pl.Server.Flags.{evaluate_flag_handler, evaluate_found}
use feature_flags_control_pl.Server.Experiments.{get_variant_handler, variant_found}
use feature_flags_control_pl.Json.{
  answer, object, answer_of, decoding, truth_at, text_field, all_texts, entry_at,
}
use feature_flags_control_pl.Sdk.{
  is_enabled, variant_of, get_variant, state_of, get_circuit_breaker_state, or_closed,
  check_circuit_breaker,
}

module _ {R : Type 0} where
  -- `GetCircuitBreakerState` of a route that has a breaker says "closed" with a decoding error, whatever
  -- the breaker's state: the answer has numbers, and is decoded into a map of texts.
  pub get_circuit_breaker_state-known :
      (s : Server R) (route : Str) (cb : CircuitBreaker)
      → lookup route s.breakers ≡ some cb
      → get_circuit_breaker_state (answer (get_circuit_breaker_handler s route).1)
        ≡ (lit "closed", some decoding)
  unfolding get_circuit_breaker_handler get_circuit_breaker_state state_of object answer_of
      all_texts
  get_circuit_breaker_state-known s route cb found = rw (get_circuit_breaker_state, found)

  -- `CheckCircuitBreaker` tells its caller what the breaker of the route decides.
  pub check_circuit_breaker-served :
      (env : Env R) (c : Codec) (s : Server R) (now : ℕ) (route : Str)
      → route ≢ []
      → let r = check (ensured s now route) now in
        check_circuit_breaker (answer (check_breaker env c s now route).1)
        ≡ (r.allowed, or_closed r.state, none)
  unfolding check_breaker check_circuit_breaker object answer_of truth_at text_field lookup str_eq
  check_circuit_breaker-served env c s now route ne =
      let filled : is_empty route ≡ false = ground (arith, is_empty_iff route) in rw filled

  -- `IsEnabled` tells its caller what the flag decides for the context that the handler decodes; for a
  -- flag that is not there it says false, without an error.
  pub is_enabled-served :
      (env : Env R) (c : Codec) (s : Server R) (name : Str) (ctx : EvalContext)
      → is_enabled (answer (evaluate_flag_handler env c s name (parsed ctx)).1)
        ≡ (elim (lookup name s.flags) [ none ↦ false | some f ↦ is_flag_enabled f ctx ], none)
  unfolding evaluate_flag_handler evaluate_found is_enabled object answer_of truth_at lookup str_eq
  is_enabled-served env c s name ctx = elim (Option-cases (lookup name s.flags)) [
    | inl missing ↦ rw missing
    | inr (f, found) ↦ rw found
  ]

  -- `GetVariant` for an experiment that is not there says the empty variant, without an error.
  pub get_variant-unknown :
      (s : Server R) (name user_id : Str)
      → user_id ≢ []
      → lookup name s.experiments ≡ none
      → get_variant (answer (get_variant_handler s name user_id).1) ≡ ([], none)
  unfolding get_variant_handler variant_found get_variant variant_of object answer_of all_texts
      entry_at lookup str_eq
  get_variant-unknown s name user_id ne missing =
      let filled : is_empty user_id ≡ false = ground (arith, is_empty_iff user_id) in
      rw (filled, missing)
