-- ===== src/Store/Prefix.antt =====
-- control-plane/configstore.go, `GetAllByPrefix` and `redisScanKeys`. The loop over the cursors ends
-- when the server says so; here it takes fuel, and `none` means that the fuel ran out.
pub mod Pages
pub mod Distinct
use feature_flags_control_pl.Shared.{
  ℕ, zero, suc, Bool, true, false, not, Option, none, some, List, [], ◌∷◌, ◌++◌, Str, lit, is_empty,
  str_eq, has_prefix, Dict, lookup, insert, if◌then◌else◌,
}
use feature_flags_control_pl.Store.Values.{
  Value, text, Result, ok, err, exchange_failed, redis_scan_response,
}
use feature_flags_control_pl.Store.{Env, World, ConfigStore, redis_command}

-- `for k, v := range cs.data { if strings.HasPrefix(k, prefix) { out[k] = v } }`
pub filter_prefix : Str → Dict Str → Dict Str → Dict Str
filter_prefix prefix [] out = out
filter_prefix prefix ((k, v) ∷ m) out =
    filter_prefix prefix m (if has_prefix k prefix then insert k v out else out)

-- What one SCAN answer adds to the keys, and the cursor to go on with, none at the last page.
pub record Page : Type 0 where
  pub keys : List Str
  pub next : Option Str

unfoldable pub page_of : Result (Str × List Str) → Result Page
page_of (err e) = err e
page_of (ok (cursor, keys)) =
    ok (record { keys = keys; next = if str_eq cursor (lit "0") then none else some cursor })

unfoldable pub scan_answer : Option Value → Result Page
scan_answer none = err exchange_failed
scan_answer (some v) = page_of (redis_scan_response v)

-- A value that cannot be read, or is no text, is left out.
pub keep_value : Str → Option Value → Dict Str → Dict Str
keep_value key (some (text v)) out = insert key v out
keep_value key _ out = out

module _ {R : Type 0} (env : Env R) where
  unfoldable pub scan_command : ConfigStore → World R → Str → Str → World R × Option Value
  scan_command cs w pattern cursor =
      redis_command env cs w
        (lit "SCAN" ∷ cursor ∷ lit "MATCH" ∷ pattern ∷ lit "COUNT" ∷ lit "100" ∷ [])

  pub redis_scan_keys :
      ℕ → ConfigStore → World R → Str → Str → List Str → Option (World R × Result (List Str))
  redis_scan_keys zero cs w pattern cursor all_keys = none
  redis_scan_keys (suc fuel) cs w pattern cursor all_keys =
      let (w', answer) = scan_command cs w pattern cursor in
      elim (scan_answer answer) [
        | err e ↦ some (w', err e)
        | ok page ↦ elim page.next [
          | none ↦ some (w', ok (all_keys ++ page.keys))
          | some next ↦ redis_scan_keys fuel cs w' pattern next (all_keys ++ page.keys)
        ]
      ]

  pub fetch_values : ConfigStore → World R → List Str → Dict Str → World R × Dict Str
  fetch_values cs w [] out = (w, out)
  fetch_values cs w (key ∷ keys) out =
      let (w', answer) = redis_command env cs w (lit "GET" ∷ key ∷ []) in
      fetch_values cs w' keys (keep_value key answer out)

  pub fetch_scanned : ConfigStore → World R × Result (List Str) → World R × Result (Dict Str)
  fetch_scanned cs (w, err e) = (w, err e)
  fetch_scanned cs (w, ok keys) = let (w', out) = fetch_values cs w keys [] in (w', ok out)

  unfoldable pub get_all_by_prefix :
      ℕ → ConfigStore → World R → Str → Option (World R × Result (Dict Str))
  get_all_by_prefix fuel cs w prefix =
      let scanned = redis_scan_keys fuel cs w (prefix ++ lit "*") (lit "0") [] in
      let fetched : Option (World R × Result (Dict Str)) = elim scanned [
        | none ↦ none
        | some r ↦ some (fetch_scanned cs r)
      ] in
      if not (is_empty cs.redis_addr)
      then fetched
      else some (w, ok (filter_prefix prefix cs.items []))
