-- ===== src/Server/Auth.antt =====
-- control-plane/main.go: which requests want the token, and who is let through.
pub mod Guarded
use feature_flags_control_pl.Shared.{
  ℕ, Bool, true, false, not, ◌&&◌, ◌||◌, Str, lit, str_eq, is_empty, has_prefix, has_suffix,
  trim_prefix, trim_space, if◌then◌else◌,
}

pub record Request : Type 0 where
  pub method : Str
  pub path : Str
  pub authorization : Str

unfoldable pub request_requires_auth : Request → Bool
request_requires_auth r =
    let post = str_eq r.method (lit "POST") in
    post && str_eq r.path (lit "/flags")
    || (str_eq r.method (lit "PUT") && has_prefix r.path (lit "/flags/")
        || (str_eq r.method (lit "DELETE") && has_prefix r.path (lit "/flags/")
            || (post && str_eq r.path (lit "/experiment")
                || (post
                      && (has_prefix r.path (lit "/experiment/")
                          && has_suffix r.path (lit "/convert"))
                    || (post && str_eq r.path (lit "/ratelimit")
                        || (post && str_eq r.path (lit "/circuitbreaker")
                            || (post && str_eq r.path (lit "/circuitbreaker/report")
                                || post && str_eq r.path (lit "/config"))))))))

pub data Verdict : Type 0 where
  pass unauthorized : Verdict

-- `token` is the environment variable, as it is set.
unfoldable pub auth_middleware : Str → Request → Verdict
auth_middleware token_variable r =
    let token = trim_space token_variable in
    let header = trim_space r.authorization in
    if is_empty token || not (request_requires_auth r)
    then pass
    else if not (has_prefix header (lit "Bearer "))
        || not (str_eq (trim_space (trim_prefix header (lit "Bearer "))) token)
    then unauthorized
    else pass
