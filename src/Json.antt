-- ===== src/Json.antt =====
-- The JSON objects that the handlers of control-plane/main.go answer with, and what the clients take
-- from an object. The text of an object, which encoding/json writes and reads, is left out.
use feature_flags_control_pl.Shared.{
  Bool, false, Option, none, some, List, [], ◌∷◌, Str, lit, is_empty, Dict, lookup, if◌then◌else◌,
}
use feature_flags_control_pl.Shared.Int.{ℤ}
use feature_flags_control_pl.Flag.{TargetRule}
use feature_flags_control_pl.Breaker.{Fraction}
use feature_flags_control_pl.Server.{
  Body, error, one_flag, flag_list, deleted, evaluated, one_experiment, assigned, recorded,
  rate_limit, resolved, rate_allowed, breaker_default, breaker_view, breaker_set, breaker_allowed,
  breaker_report, config_value, panicked, Response,
}

-- A value in an object.
pub data Json : Type 0 where
  null : Json
  truth : Bool → Json
  number : ℤ → Json
  fraction : Fraction → Json
  text : Str → Json
  texts : Dict Str → Json
  names : List Str → Json
  rules : List TargetRule → Json

-- `omitempty`
pub unless_empty : Str → Str → Dict Json → Dict Json
unless_empty key s rest = if is_empty s then rest else (key, text s) ∷ rest

-- The object of a response: none for a list, or where the handler panics.
unfoldable pub object : Body → Option (Dict Json)
object (error msg) = some ((lit "error", text msg) ∷ [])
object (one_flag f) = some (
    (lit "Name", text f.name)
    ∷ (lit "Enabled", truth f.enabled)
    ∷ (lit "Environment", text f.environment)
    ∷ (lit "TargetRules", rules f.target_rules)
    ∷ [])
object (flag_list fs) = none
object (deleted name) = some ((lit "deleted", text name) ∷ [])
object (evaluated name enabled) =
    some ((lit "flag", text name) ∷ (lit "enabled", truth enabled) ∷ [])
object (one_experiment e) =
    some ((lit "Name", text e.name) ∷ (lit "Variants", names e.variants) ∷ [])
object (assigned name variant user_id) = some (
    (lit "experiment", text name)
    ∷ (lit "variant", text variant)
    ∷ (lit "userId", text user_id)
    ∷ [])
object (recorded name variant) = some (
    (lit "recorded", text (lit "ok"))
    ∷ (lit "experiment", text name)
    ∷ (lit "variant", text variant)
    ∷ [])
object (rate_limit route user_id tenant_id limit) = some (
    (lit "route", text route)
    ∷ unless_empty (lit "userId") user_id
        (unless_empty (lit "tenantId") tenant_id ((lit "limit", number limit) ∷ [])))
object (resolved route user_id tenant_id limit configured matched_key) = some (
    (lit "route", text route)
    ∷ (lit "userId", text user_id)
    ∷ (lit "tenantId", text tenant_id)
    ∷ (lit "limit", number limit)
    ∷ (lit "configured", truth configured)
    ∷ (lit "matchedScope", text matched_key)
    ∷ [])
object (rate_allowed allowed route) =
    some ((lit "allowed", truth allowed) ∷ (lit "route", text route) ∷ [])
object (breaker_default route) =
    some ((lit "route", text route) ∷ (lit "state", text (lit "closed")) ∷ [])
object (breaker_view cb) = some (
    (lit "route", text cb.route)
    ∷ (lit "state", text cb.state)
    ∷ (lit "errorThreshold", fraction cb.error_threshold)
    ∷ (lit "latencyMs", number cb.latency_ms)
    ∷ (lit "latencyThresholdMs", number cb.latency_threshold_ms)
    ∷ [])
object (breaker_set cb) = some (
    (lit "route", text cb.route)
    ∷ (lit "state", text cb.state)
    ∷ (lit "errorThreshold", fraction cb.error_threshold)
    ∷ (lit "latencyThresholdMs", number cb.latency_threshold_ms)
    ∷ [])
object (breaker_allowed route allowed state) =
    some
      ((lit "route", text route) ∷ (lit "allowed", truth allowed) ∷ (lit "state", text state) ∷ [])
object (breaker_report cb latency_ms) = some (
    (lit "route", text cb.route)
    ∷ (lit "state", text cb.state)
    ∷ (lit "latencyMs", number latency_ms)
    ∷ (lit "latencyThresholdMs", number cb.latency_threshold_ms)
    ∷ [])
object (config_value key value) = some ((lit "key", text key) ∷ (lit "value", text value) ∷ [])
object panicked = none

-- What a client gets for a request: no answer, an answer whose body is no object, or an object.
pub data Answer : Type 0 where
  unreachable garbled : Answer
  answered : Dict Json → Answer

unfoldable pub answer_of : Option (Dict Json) → Answer
answer_of none = garbled
answer_of (some fields) = answered fields

-- The answer that a response is to a client.
abbrev pub answer : Response → Answer
answer r = answer_of (object r.body)

pub data ClientError : Type 0 where
  network decoding : ClientError

-- `v, _ := result[key].(bool)`
unfoldable pub truth_at : Str → Dict Json → Bool
truth_at key fields = elim (lookup key fields) [ some (truth b) ↦ b | _ ↦ false ]

-- `v, _ := result[key].(string)`
unfoldable pub text_field : Str → Dict Json → Str
text_field key fields = elim (lookup key fields) [ some (text s) ↦ s | _ ↦ [] ]

-- `json.NewDecoder(...).Decode(&result)` into a `map[string]string`: a value that is neither a text nor
-- null is an error.
unfoldable pub all_texts : Dict Json → Option (Dict Str)
all_texts [] = some []
all_texts ((k, text s) ∷ fields) = elim (all_texts fields) [
  | none ↦ none
  | some m ↦ some ((k, s) ∷ m)
]
all_texts ((k, null) ∷ fields) = elim (all_texts fields) [
  | none ↦ none
  | some m ↦ some ((k, []) ∷ m)
]
all_texts (_ ∷ fields) = none

-- `result[key]` of a `map[string]string`
unfoldable pub entry_at : Str → Dict Str → Str
entry_at key m = elim (lookup key m) [ none ↦ [] | some s ↦ s ]
