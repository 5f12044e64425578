-- ===== src/Server/Auth/Guarded.antt =====
-- The routes that are meant to take the token, against the guard.
use feature_flags_control_pl.Shared.{
  ◌≡◌, refl, true, false, ◌++◌, Str, lit, arith, str_eq, str_eq_sound, is_empty, has_prefix,
  has_suffix, has_prefix-append, trim_space, trim_prefix,
}
use mathlib.Core.List.{reverse, reverse-append}
use feature_flags_control_pl.Server.Auth.{Request, request_requires_auth, pass, auth_middleware}

-- The routes that `main` registers for handlers that change flags, experiments, limits, breakers by
-- request or report, or config values; a name is any text.
pub data Mutating : Str → Str → Type 0 where
  create_flag : Mutating (lit "POST") (lit "/flags")
  update_flag : (name : Str) → Mutating (lit "PUT") (lit "/flags/" ++ name)
  delete_flag : (name : Str) → Mutating (lit "DELETE") (lit "/flags/" ++ name)
  create_experiment : Mutating (lit "POST") (lit "/experiment")
  record_conversion :
      (name : Str) → Mutating (lit "POST") (lit "/experiment/" ++ (name ++ lit "/convert"))
  set_rate_limit : Mutating (lit "POST") (lit "/ratelimit")
  set_circuit_breaker : Mutating (lit "POST") (lit "/circuitbreaker")
  report_circuit_breaker : Mutating (lit "POST") (lit "/circuitbreaker/report")
  set_config : Mutating (lit "POST") (lit "/config")

has_suffix-append : (s p : Str) → has_suffix (s ++ p) p ≡ true
unfolding has_suffix
has_suffix-append s p = rw (reverse-append s p) (has_prefix-append (reverse p) (reverse s))

requires-mutating :
    (method path authorization : Str)
    → Mutating method path
    → request_requires_auth (record { method = method; path = path; authorization = authorization })
      ≡ true
unfolding request_requires_auth str_eq has_prefix
requires-mutating method path authorization create_flag = refl
requires-mutating method path authorization (record_conversion name) =
    rw (has_suffix-append (lit "/experiment/" ++ name) (lit "/convert"))
requires-mutating method path authorization _ = refl

-- With a token configured, a request that creates, updates or deletes a flag, creates an experiment,
-- records a conversion, sets a rate limit, sets a circuit breaker or reports to one, or sets a config
-- value is let through only with an `Authorization` header that, trimmed, begins with "Bearer " and
-- holds the token behind it, trimmed too.
pub auth_middleware-mutating :
    (token method path authorization : Str)
    → Mutating method path
    → is_empty (trim_space token) ≡ false
    → auth_middleware token (record { method = method; path = path; authorization = authorization })
      ≡ pass
    → (has_prefix (trim_space authorization) (lit "Bearer ") ≡ true)
      × (trim_space (trim_prefix (trim_space authorization) (lit "Bearer ")) ≡ trim_space token)
unfolding auth_middleware
auth_middleware-mutating token method path authorization m set passed =
    let r : Request = record { method = method; path = path; authorization = authorization } in
    let wants = requires-mutating method path authorization m in
    (ground arith, str_eq_sound _ _ (ground arith))
