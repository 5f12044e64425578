-- ===== src/Server/Limits/Checked.antt =====
-- What the rate limit handlers leave for later requests.
use feature_flags_control_pl.Shared.{
  ℕ, ◌≡◌, refl, true, false, Option, none, some, [], ◌∷◌, Str, insert,
}
use feature_flags_control_pl.Shared.Int.{pos, ◌≤ℤ◌}
use feature_flags_control_pl.RateLimit.{rate_limit_scope_key}
use feature_flags_control_pl.RateLimit.Scopes.{resolve-set_own}
use feature_flags_control_pl.RateLimit.Buckets.{allow-nonpositive}
use feature_flags_control_pl.Metrics.{counter_inc}
use feature_flags_control_pl.Store.{Env, ConfigStore}
use feature_flags_control_pl.Server.{
  Codec, Server, parsed, json_ok, rate_allowed, resolved, stored, persist_in, persist_json,
}
use feature_flags_control_pl.Server.Limits.{
  RateLimitConfig, CheckRequest, effective_limit, set_rate_limit_handler, get_rate_limit_handler,
  check_rate_limit, check_rate_limit_handler,
}

module _ {R : Type 0} (env : Env R) (c : Codec) where
  persist_in-rate_limits :
      (s : Server R) (o : Option ConfigStore) (key value : Str)
      → (persist_in env s o key value).rate_limits ≡ s.rate_limits
  unfolding persist_in stored
  persist_in-rate_limits s none key value = refl
  persist_in-rate_limits s (some cs) key value = refl

  set_rate_limit-rate_limits :
      (s : Server R) (cfg : RateLimitConfig)
      → (set_rate_limit_handler env c s (parsed cfg)).0.rate_limits
        ≡ insert (rate_limit_scope_key cfg.route cfg.user_id cfg.tenant_id) cfg.limit s.rate_limits
  unfolding set_rate_limit_handler persist_json
  set_rate_limit-rate_limits s cfg = persist_in-rate_limits _ s.store _ _

  -- After a limit is set, asking for the same route, user and tenant answers with that limit, as
  -- configured, and with its scope key.
  pub get-set_rate_limit :
      (s : Server R) (cfg : RateLimitConfig)
      → (get_rate_limit_handler
          (set_rate_limit_handler env c s (parsed cfg)).0
          cfg.route
          cfg.user_id
          cfg.tenant_id).1
        ≡ json_ok (
            resolved cfg.route cfg.user_id cfg.tenant_id cfg.limit true
              (rate_limit_scope_key cfg.route cfg.user_id cfg.tenant_id))
  unfolding get_rate_limit_handler
  get-set_rate_limit s cfg = rw (
    set_rate_limit-rate_limits s cfg,
    resolve-set_own cfg.route cfg.user_id cfg.tenant_id cfg.limit s.rate_limits,
  )

  -- After a limit of 0 or less is set, every check for the same route, user and tenant is refused,
  -- whatever the buckets hold, and is counted once as a throttled request of the route.
  pub check-set_nonpositive :
      (s : Server R) (cfg : RateLimitConfig) (created now : ℕ)
      → cfg.limit ≤ℤ pos 0
      → let s' = (set_rate_limit_handler env c s (parsed cfg)).0 in
        let req : CheckRequest = record {
          route = cfg.route;
          user_id = cfg.user_id;
          tenant_id = cfg.tenant_id;
        } in
        let checked = check_rate_limit_handler s' created now (parsed req) in
        (checked.1 ≡ json_ok (rate_allowed false cfg.route))
        × (checked.0.throttled_requests ≡ counter_inc s'.throttled_requests (cfg.route ∷ []))
  unfolding check_rate_limit_handler check_rate_limit effective_limit
  check-set_nonpositive s cfg created now low =
      rw
        (
          set_rate_limit-rate_limits s cfg,
          resolve-set_own cfg.route cfg.user_id cfg.tenant_id cfg.limit s.rate_limits,
        )
        (rw (allow-nonpositive _ created now cfg.route cfg.user_id cfg.tenant_id cfg.limit low)
          (refl, refl))
