-- ===== src/Server/Flags.antt =====
-- control-plane/main.go: the feature flag handlers.
pub mod Handled
pub mod History
mod Tests
use feature_flags_control_pl.Shared.{
  ℕ, Bool, true, false, Option, none, some, List, [], ◌∷◌, ◌++◌, Str, lit, str_eq, is_empty, Dict,
  lookup, insert, delete, ◌||◌, if◌then◌else◌,
}
use feature_flags_control_pl.Flag.{FeatureFlag, EvalContext, is_flag_enabled}
use feature_flags_control_pl.Metrics.{counter_inc}
use feature_flags_control_pl.Store.{Env, ConfigStore, store_delete}
use feature_flags_control_pl.Server.{
  Codec, Server, Decoded, parsed, empty_body, malformed, Response, json_ok, json_error, deleted,
  one_flag, flag_list, evaluated, stored, persist_json,
}
use feature_flags_control_pl.Server.Payloads.{broadcast_current_flag_payloads}

-- `var f FeatureFlag`
abbrev pub zero_flag : FeatureFlag
zero_flag = record { name = []; enabled = false; environment = []; target_rules = [] }

unfoldable pub named : FeatureFlag → FeatureFlag
named f = if is_empty f.name then record f { name = lit "unnamed" } else f

-- The flags that a listing for `env` shows.
pub listed : Str → Dict FeatureFlag → List FeatureFlag
listed env [] = []
listed env ((_, f) ∷ m) =
    let rest = listed env m in if is_empty env || str_eq f.environment env then f ∷ rest else rest

module _ {R : Type 0} (env : Env R) (c : Codec) where
  -- `broadcastCurrentFlagPayloads()`
  unfoldable pub broadcast : Server R → Server R
  broadcast s = record s { clients = broadcast_current_flag_payloads c s.flags s.clients }

  -- `flags[name] = &f`, then `persistJSON`, then the broadcast.
  unfoldable pub put_flag : Server R → Str → FeatureFlag → Server R
  put_flag s name f = broadcast (
      persist_json env (record s { flags = insert name f s.flags }) (lit "flag:") name
        (c.marshal_flag f))

  unfoldable pub create_flag : Server R → FeatureFlag → Server R × Response
  create_flag s f =
      let s' = put_flag s f.name f in
      (
        record s' {
          flag_evaluations = counter_inc s'.flag_evaluations (f.name ∷ lit "created" ∷ []);
        },
        json_ok (one_flag f),
      )

  unfoldable pub create_flag_handler : Server R → Decoded FeatureFlag → Server R × Response
  create_flag_handler s (malformed _) = (s, json_error (lit "invalid JSON body") 400)
  create_flag_handler s empty_body = create_flag s (named zero_flag)
  create_flag_handler s (parsed f) = create_flag s (named f)

  unfoldable pub get_all_flags_handler : Server R → Str → Server R × Response
  get_all_flags_handler s env_query = (s, json_ok (flag_list (listed env_query s.flags)))

  unfoldable pub get_flag_handler : Server R → Str → Server R × Response
  get_flag_handler s name = (
    s,
    elim (lookup name s.flags) [
      | none ↦ json_error (lit "flag not found") 404
      | some f ↦ json_ok (one_flag f)
    ],
  )

  -- Any decoding error, an empty body's too, is an answer 400.
  unfoldable pub update_flag_handler : Server R → Str → Decoded FeatureFlag → Server R × Response
  update_flag_handler s name (parsed updated) =
      let f = record updated { name = name } in (put_flag s name f, json_ok (one_flag f))
  update_flag_handler s name _ = (s, json_error (lit "invalid JSON body") 400)

  unfoldable pub delete_in : Server R → Option ConfigStore → Str → Server R
  delete_in s none key = s
  delete_in s (some cs) key = stored s (store_delete env cs s.world key)

  unfoldable pub delete_flag_handler : Server R → Str → Server R × Response
  delete_flag_handler s name =
      let s' = record s { flags = delete name s.flags } in
      (broadcast (delete_in s' s'.store (lit "flag:" ++ name)), json_ok (deleted name))

  pub on_off : Bool → Str
  on_off enabled = if enabled then lit "on" else lit "off"

  unfoldable pub evaluate_found :
      Server R → Str → EvalContext → Option FeatureFlag → Server R × Response
  evaluate_found s name ctx none = (s, json_error (lit "flag not found") 404)
  evaluate_found s name ctx (some f) =
      let enabled = is_flag_enabled f ctx in
      (
        record s { flag_evaluations = counter_inc s.flag_evaluations (name ∷ on_off enabled ∷ []) },
        json_ok (evaluated name enabled),
      )

  unfoldable pub evaluate_flag_handler : Server R → Str → Decoded EvalContext → Server R × Response
  evaluate_flag_handler s name (parsed ctx) = evaluate_found s name ctx (lookup name s.flags)
  evaluate_flag_handler s name _ = (s, json_error (lit "invalid JSON body") 400)
