-- ===== src/Demo/Client.antt =====
-- microservice-demo/main.go: the demo service's requests to the control plane, and what it makes of the
-- answers. `query_escape` stands for `url.QueryEscape`.
use feature_flags_control_pl.Shared.{
  Bool, true, false, Option, none, some, [], ◌∷◌, ◌++◌, Str, lit, is_empty, Dict, insert,
  if◌then◌else◌,
}
use feature_flags_control_pl.Shared.Int.{ℤ}
use feature_flags_control_pl.Json.{
  Json, truth, number, text, texts, Answer, unreachable, garbled, answered, ClientError, network,
  decoding, truth_at, text_field, all_texts, entry_at,
}
use feature_flags_control_pl.Sdk.{Outgoing, with_content_type, post, get}

-- `controlPlaneURL` and `controlPlaneAuthToken`
pub record ControlPlane : Type 0 where
  pub url : Str
  pub auth_token : Str

unfoldable pub set_control_plane_auth : ControlPlane → Outgoing → Outgoing
set_control_plane_auth cp r = if is_empty cp.auth_token then r else record r {
  headers = insert (lit "Authorization") (lit "Bearer " ++ cp.auth_token) r.headers;
}

-- `http.NewRequest(http.MethodPost, url, body)`
unfoldable pub new_post : Str → Option (Dict Json) → Outgoing
new_post url body = record { method = lit "POST"; url = url; headers = []; body = body }

-- The request of `postJSON`.
pub post_json_request : ControlPlane → Str → Option (Dict Json) → Outgoing
post_json_request cp url payload = set_control_plane_auth cp (elim payload [
  | none ↦ new_post url none
  | some fields ↦ with_content_type (new_post url (some fields))
])

pub evaluate_flag_request : ControlPlane → Str → Str → Outgoing
evaluate_flag_request cp flag_name user_id =
    post (cp.url ++ (lit "/flags/" ++ (flag_name ++ lit "/evaluate")))
      ((lit "UserID", text user_id) ∷ (lit "Headers", texts []) ∷ [])

pub evaluate_flag : Answer → Bool × Option ClientError
evaluate_flag unreachable = (false, some network)
evaluate_flag garbled = (false, some decoding)
evaluate_flag (answered result) = (truth_at (lit "enabled") result, none)

pub get_variant_request : ControlPlane → Str → Str → Outgoing
get_variant_request cp name user_id =
    get (cp.url ++ (lit "/experiment/" ++ (name ++ (lit "/variant?userId=" ++ user_id))))

pub variant_of : Option (Dict Str) → Str × Option ClientError
variant_of none = ([], some decoding)
variant_of (some result) = (entry_at (lit "variant") result, none)

pub get_variant : Answer → Str × Option ClientError
get_variant unreachable = ([], some network)
get_variant garbled = ([], some decoding)
get_variant (answered result) = variant_of (all_texts result)

unfoldable pub check_rate_limit_request : ControlPlane → Str → Str → Str → Outgoing
check_rate_limit_request cp route user_id tenant_id = post (cp.url ++ lit "/ratelimit/check") (
    (lit "route", text route)
    ∷ (lit "userId", text user_id)
    ∷ (lit "tenantId", text tenant_id)
    ∷ [])

unfoldable pub check_rate_limit : Answer → Bool × Option ClientError
check_rate_limit unreachable = (true, some network)
check_rate_limit garbled = (true, some decoding)
check_rate_limit (answered result) = (truth_at (lit "allowed") result, none)

pub get_circuit_breaker_state_request : (Str → Str) → ControlPlane → Str → Outgoing
get_circuit_breaker_state_request query_escape cp route =
    get (cp.url ++ (lit "/circuitbreaker?route=" ++ query_escape route))

pub state_of : Option (Dict Str) → Str × Option ClientError
state_of none = (lit "closed", some decoding)
state_of (some result) = (entry_at (lit "state") result, none)

pub get_circuit_breaker_state : Answer → Str × Option ClientError
get_circuit_breaker_state unreachable = (lit "closed", some network)
get_circuit_breaker_state garbled = (lit "closed", some decoding)
get_circuit_breaker_state (answered result) = state_of (all_texts result)

unfoldable pub check_circuit_breaker_request : ControlPlane → Str → Outgoing
check_circuit_breaker_request cp route =
    with_content_type
      (new_post (cp.url ++ lit "/circuitbreaker/check") (some ((lit "route", text route) ∷ [])))

unfoldable pub or_closed : Str → Str
or_closed state = if is_empty state then lit "closed" else state

unfoldable pub check_circuit_breaker : Answer → Bool × Str × Option ClientError
check_circuit_breaker unreachable = (true, lit "closed", some network)
check_circuit_breaker garbled = (true, lit "closed", some decoding)
check_circuit_breaker (answered result) =
    (truth_at (lit "allowed") result, or_closed (text_field (lit "state") result), none)

pub report_circuit_breaker_request : ControlPlane → Str → Bool → ℤ → Outgoing
report_circuit_breaker_request cp route success latency_ms = set_control_plane_auth cp (
    with_content_type (
      new_post (cp.url ++ lit "/circuitbreaker/report") (
        some (
          (lit "route", text route)
          ∷ (lit "success", truth success)
          ∷ (lit "latencyMs", number latency_ms)
          ∷ []))))
