-- ===== src/Sdk.antt =====
-- sdk/sdk.go: the requests of the Go client and what it makes of the answers. A request is sent by the
-- net/http package; here a function builds it and another reads the answer.
pub mod Polling
pub mod Events
pub mod Answers
pub mod Cached
pub mod Streaming
mod Tests
use feature_flags_control_pl.Shared.{
  Bool, true, false, Option, none, some, List, [], ◌∷◌, ◌++◌, Str, lit, ◌==◌, is_empty, trim_space,
  trim_slashes, Dict, lookup, insert, if◌then◌else◌,
}
use feature_flags_control_pl.Shared.Int.{ℤ}
use feature_flags_control_pl.Json.{
  Json, truth, number, text, texts, Answer, unreachable, garbled, answered, ClientError, network,
  decoding, truth_at, text_field, all_texts, entry_at,
}

-- The exported fields of a client that a request depends on.
pub record Connection : Type 0 where
  pub config_url : Str
  pub auth_token : Str

pub record Outgoing : Type 0 where
  pub method : Str
  pub url : Str
  pub headers : Dict Str
  pub body : Option (Dict Json)

pub new_connection : Str → Connection
new_connection config_url = record { config_url = trim_slashes config_url; auth_token = [] }

pub set_auth_token : Connection → Str → Connection
set_auth_token c token = record c { auth_token = trim_space token }

-- `newRequest`
pub new_request : Connection → Str → Str → Option (Dict Json) → Outgoing
new_request c method url body = record {
  method = method;
  url = url;
  headers =
      if is_empty c.auth_token
      then []
      else (lit "Authorization", lit "Bearer " ++ c.auth_token) ∷ [];
  body = body;
}

unfoldable pub with_content_type : Outgoing → Outgoing
with_content_type r = record r {
  headers = insert (lit "Content-Type") (lit "application/json") r.headers;
}

-- `http.Post(url, "application/json", body)`, without the token
unfoldable pub post : Str → Dict Json → Outgoing
post url body = record {
  method = lit "POST";
  url = url;
  headers = (lit "Content-Type", lit "application/json") ∷ [];
  body = some body;
}

-- `http.Get(url)`
unfoldable pub get : Str → Outgoing
get url = record { method = lit "GET"; url = url; headers = []; body = none }

pub is_enabled_request : Connection → Str → Dict Str → Outgoing
is_enabled_request c flag_name ctx =
    post (c.config_url ++ (lit "/flags/" ++ (flag_name ++ lit "/evaluate"))) (
      (lit "UserID", text (entry_at (lit "userId") ctx))
      ∷ (lit "TenantID", text (entry_at (lit "tenantId") ctx))
      ∷ (lit "Headers", texts ctx)
      ∷ [])

pub is_enabled : Answer → Bool × Option ClientError
is_enabled unreachable = (false, some network)
is_enabled garbled = (false, some decoding)
is_enabled (answered result) = (truth_at (lit "enabled") result, none)

pub get_variant_request : Connection → Str → Str → Outgoing
get_variant_request c name user_id =
    get (c.config_url ++ (lit "/experiment/" ++ (name ++ (lit "/variant?userId=" ++ user_id))))

pub variant_of : Option (Dict Str) → Str × Option ClientError
variant_of none = ([], some decoding)
variant_of (some result) = (entry_at (lit "variant") result, none)

pub get_variant : Answer → Str × Option ClientError
get_variant unreachable = ([], some network)
get_variant garbled = ([], some decoding)
get_variant (answered result) = variant_of (all_texts result)

pub record_conversion_request : Connection → Str → Str → Outgoing
record_conversion_request c name variant =
    new_request c (lit "POST")
      (c.config_url ++ (lit "/experiment/" ++ (name ++ (lit "/convert?variant=" ++ variant)))) none

-- `RecordConversion` and `ReportCircuitBreakerResult` look at nothing but the exchange.
pub sent_error : Answer → Option ClientError
sent_error unreachable = some network
sent_error _ = none

pub check_rate_limit_request : Connection → Str → Str → Str → Outgoing
check_rate_limit_request c route user_id tenant_id = post (c.config_url ++ lit "/ratelimit/check") (
    (lit "route", text route)
    ∷ (lit "userId", text user_id)
    ∷ (lit "tenantId", text tenant_id)
    ∷ [])

pub check_rate_limit : Answer → Bool × Option ClientError
check_rate_limit unreachable = (true, some network)
check_rate_limit garbled = (true, some decoding)
check_rate_limit (answered result) = (truth_at (lit "allowed") result, none)

pub get_circuit_breaker_state_request : Connection → Str → Outgoing
get_circuit_breaker_state_request c route =
    get (c.config_url ++ (lit "/circuitbreaker?route=" ++ route))

pub state_of : Option (Dict Str) → Str × Option ClientError
state_of none = (lit "closed", some decoding)
state_of (some result) = elim (lookup (lit "state") result) [
  | none ↦ (lit "closed", none)
  | some state ↦ (state, none)
]

pub get_circuit_breaker_state : Answer → Str × Option ClientError
get_circuit_breaker_state unreachable = (lit "closed", some network)
get_circuit_breaker_state garbled = (lit "closed", some decoding)
get_circuit_breaker_state (answered result) = state_of (all_texts result)

pub check_circuit_breaker_request : Connection → Str → Outgoing
check_circuit_breaker_request c route = with_content_type (
    new_request c (lit "POST") (c.config_url ++ lit "/circuitbreaker/check")
      (some ((lit "route", text route) ∷ [])))

pub or_closed : Str → Str
or_closed state = if is_empty state then lit "closed" else state

pub check_circuit_breaker : Answer → Bool × Str × Option ClientError
check_circuit_breaker unreachable = (true, lit "closed", some network)
check_circuit_breaker garbled = (true, lit "closed", some decoding)
check_circuit_breaker (answered result) =
    (truth_at (lit "allowed") result, or_closed (text_field (lit "state") result), none)

pub report_circuit_breaker_request : Connection → Str → Bool → ℤ → Outgoing
report_circuit_breaker_request c route success latency_ms = with_content_type (
    new_request c (lit "POST") (c.config_url ++ lit "/circuitbreaker/report") (
      some (
        (lit "route", text route)
        ∷ (lit "success", truth success)
        ∷ (lit "latencyMs", number latency_ms)
        ∷ [])))
