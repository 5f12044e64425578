-- ===== src/Server/Mux/Same.antt =====
-- What requests without the token leave alone: the handlers that take no token.
use feature_flags_control_pl.Shared.{
  ℕ, ◌≡◌, refl, ◌∙◌, Bool-cases, inl, inr, Option, none, some, Str, is_empty, lookup,
}
use feature_flags_control_pl.Flag.{FeatureFlag, EvalContext}
use feature_flags_control_pl.Experiment.{Experiment}
use feature_flags_control_pl.Breaker.{CircuitBreaker}
use feature_flags_control_pl.Store.{Env, ConfigStore}
use feature_flags_control_pl.Server.{
  Codec, Server, Decoded, parsed, empty_body, malformed, stored, persist_in, persist_json,
}
use feature_flags_control_pl.Server.Flags.{evaluate_found, evaluate_flag_handler}
use feature_flags_control_pl.Server.Experiments.{variant_found, get_variant_handler}
use feature_flags_control_pl.Server.Limits.{
  CheckRequest, check_rate_limit, check_rate_limit_handler,
}
use feature_flags_control_pl.Server.Breakers.{
  keep_breaker, check_breaker, check_circuit_breaker_handler,
}
use feature_flags_control_pl.Server.Config.{get_config, get_config_handler}
use feature_flags_control_pl.Server.Stream.{
  Writer, net_http, status_recorder, is_flusher, stream_handler,
}

module _ {R : Type 0} where
  -- What only requests with the token may change: the flags, the experiments, the limits and the counts
  -- of conversions.
  abbrev pub Same : Server R → Server R → Type 0
  Same s s' =
      (s'.flags ≡ s.flags)
      × (s'.experiments ≡ s.experiments)
      × (s'.rate_limits ≡ s.rate_limits)
      × (s'.conversion_events ≡ s.conversion_events)

  pub Same-refl : (s : Server R) → Same s s
  Same-refl s = (refl, refl, refl, refl)

  pub Same-trans : (s t u : Server R) → Same s t → Same t u → Same s u
  Same-trans s t u p q = (q.0 ∙ p.0, q.1 ∙ p.1, q.2 ∙ p.2, q.3 ∙ p.3)

  evaluate_found-Same :
      (env : Env R) (c : Codec) (s : Server R) (v : Str) (ctx : EvalContext)
      (o : Option FeatureFlag)
      → Same s (evaluate_found env c s v ctx o).0
  unfolding evaluate_found
  evaluate_found-Same env c s v ctx none = Same-refl s
  evaluate_found-Same env c s v ctx (some f) = (refl, refl, refl, refl)

  pub evaluate-Same :
      (env : Env R) (c : Codec) (s : Server R) (v : Str) (body : Decoded EvalContext)
      → Same s (evaluate_flag_handler env c s v body).0
  unfolding evaluate_flag_handler
  evaluate-Same env c s v (parsed ctx) = evaluate_found-Same env c s v ctx (lookup v s.flags)
  evaluate-Same env c s v empty_body = Same-refl s
  evaluate-Same env c s v (malformed _) = Same-refl s

  variant_found-Same :
      (s : Server R) (v user_id : Str) (o : Option Experiment)
      → Same s (variant_found s v user_id o).0
  unfolding variant_found
  variant_found-Same s v user_id none = Same-refl s
  variant_found-Same s v user_id (some e) = (refl, refl, refl, refl)

  pub variant-Same : (s : Server R) (v user_id : Str) → Same s (get_variant_handler s v user_id).0
  unfolding get_variant_handler
  variant-Same s v user_id = elim (Bool-cases (is_empty user_id)) [
    | inl missing ↦ rw missing (Same-refl s)
    | inr given ↦ rw given (variant_found-Same s v user_id (lookup v s.experiments))
  ]

  pub check_rate_limit-Same :
      (s : Server R) (created now : ℕ) (body : Decoded CheckRequest)
      → Same s (check_rate_limit_handler s created now body).0
  unfolding check_rate_limit_handler check_rate_limit
  check_rate_limit-Same s created now (parsed req) = (refl, refl, refl, refl)
  check_rate_limit-Same s created now empty_body = Same-refl s
  check_rate_limit-Same s created now (malformed _) = Same-refl s

  persist_in-Same :
      (env : Env R) (s : Server R) (o : Option ConfigStore) (key value : Str)
      → Same s (persist_in env s o key value)
  unfolding persist_in stored
  persist_in-Same env s none key value = Same-refl s
  persist_in-Same env s (some cs) key value = (refl, refl, refl, refl)

  keep_breaker-Same :
      (env : Env R) (c : Codec) (s : Server R) (route : Str) (cb : CircuitBreaker) (state : Str)
      → Same s (keep_breaker env c s route cb state)
  unfolding keep_breaker persist_json
  keep_breaker-Same env c s route cb state = persist_in-Same env _ s.store _ _

  check_breaker-Same :
      (env : Env R) (c : Codec) (s : Server R) (now : ℕ) (route : Str)
      → Same s (check_breaker env c s now route).0
  unfolding check_breaker
  check_breaker-Same env c s now route = elim (Bool-cases (is_empty route)) [
    | inl missing ↦ rw missing (Same-refl s)
    | inr given ↦ rw given (keep_breaker-Same env c s route _ _)
  ]

  pub check_circuit_breaker-Same :
      (env : Env R) (c : Codec) (s : Server R) (now : ℕ) (query : Str) (body : Decoded Str)
      → Same s (check_circuit_breaker_handler env c s now query body).0
  unfolding check_circuit_breaker_handler
  check_circuit_breaker-Same env c s now query (parsed route) = check_breaker-Same env c s now _
  check_circuit_breaker-Same env c s now query empty_body = check_breaker-Same env c s now _
  check_circuit_breaker-Same env c s now query (malformed _) = Same-refl s

  get_config-Same :
      (env : Env R) (s : Server R) (key : Str) (o : Option ConfigStore)
      → Same s (get_config env s key o).0
  unfolding get_config
  get_config-Same env s key none = Same-refl s
  get_config-Same env s key (some cs) = (refl, refl, refl, refl)

  pub get_config_handler-Same :
      (env : Env R) (s : Server R) (key : Str) → Same s (get_config_handler env s key).0
  unfolding get_config_handler
  get_config_handler-Same env s key = get_config-Same env s key s.store

  pub stream-Same :
      (c : Codec) (id : ℕ) (query : Str) (w : Writer) (s : Server R)
      → Same s (stream_handler c id query w s).0
  unfolding stream_handler is_flusher
  stream-Same c id query net_http s = (refl, refl, refl, refl)
  stream-Same c id query (status_recorder w) s = Same-refl s
