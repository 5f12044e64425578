-- ===== src/Server/Limits.antt =====
-- control-plane/main.go: the rate limit handlers.
pub mod Checked
use feature_flags_control_pl.Shared.{
  ℕ, Bool, true, false, not, Option, none, some, List, [], ◌∷◌, ◌++◌, Str, lit, Dict, lookup,
  insert, if◌then◌else◌,
}
use feature_flags_control_pl.Shared.Int.{ℤ, pos}
use feature_flags_control_pl.RateLimit.{
  TokenBucket, Resolved, rate_limit_scope_key, resolve_rate_limit, allow,
}
use feature_flags_control_pl.Metrics.{counter_inc}
use feature_flags_control_pl.Store.{Env}
use feature_flags_control_pl.Server.{
  Codec, Server, Decoded, parsed, empty_body, malformed, Response, json_ok, json_error, rate_limit,
  resolved, rate_allowed, persist_json,
}

-- `RateLimitConfig`
pub record RateLimitConfig : Type 0 where
  pub route : Str
  pub user_id : Str
  pub tenant_id : Str
  pub limit : ℤ

-- The body of a check request.
pub record CheckRequest : Type 0 where
  pub route : Str
  pub user_id : Str
  pub tenant_id : Str

-- The limit of a check where none is configured.
unfoldable pub effective_limit : Resolved → ℤ
effective_limit r = if r.configured then r.limit else pos 100

module _ {R : Type 0} (env : Env R) (c : Codec) where
  unfoldable pub set_rate_limit_handler : Server R → Decoded RateLimitConfig → Server R × Response
  set_rate_limit_handler s (parsed cfg) =
      let key = rate_limit_scope_key cfg.route cfg.user_id cfg.tenant_id in
      (
        persist_json env (record s { rate_limits = insert key cfg.limit s.rate_limits })
            (lit "ratelimit:") key (c.format_limit cfg.limit),
        json_ok (rate_limit cfg.route cfg.user_id cfg.tenant_id cfg.limit),
      )
  set_rate_limit_handler s _ = (s, json_error (lit "invalid JSON body") 400)

module _ {R : Type 0} where
  unfoldable pub get_rate_limit_handler : Server R → Str → Str → Str → Server R × Response
  get_rate_limit_handler s route user_id tenant_id =
      let r = resolve_rate_limit route user_id tenant_id s.rate_limits in
      (s, json_ok (resolved route user_id tenant_id r.limit r.configured r.matched_key))

  -- `created` and `now` are the readings of the clock in `Allow`.
  unfoldable pub check_rate_limit : Server R → ℕ → ℕ → CheckRequest → Server R × Response
  check_rate_limit s created now req =
      let limit =
        effective_limit (resolve_rate_limit req.route req.user_id req.tenant_id s.rate_limits) in
      let (buckets, allowed) =
        allow s.buckets created now req.route req.user_id req.tenant_id limit in
      (
        record s {
          buckets = buckets;
          throttled_requests =
              if allowed
              then s.throttled_requests
              else counter_inc s.throttled_requests (req.route ∷ []);
        },
        json_ok (rate_allowed allowed req.route),
      )

  unfoldable pub check_rate_limit_handler :
      Server R → ℕ → ℕ → Decoded CheckRequest → Server R × Response
  check_rate_limit_handler s created now (parsed req) = check_rate_limit s created now req
  check_rate_limit_handler s created now _ = (s, json_error (lit "invalid JSON body") 400)
