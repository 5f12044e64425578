-- ===== src/Server/Config.antt =====
-- control-plane/main.go: the generic config handlers. The text of a store error is left out.
use feature_flags_control_pl.Shared.{Option, none, some, Str, lit}
use feature_flags_control_pl.Store.Values.{Result, ok, err}
use feature_flags_control_pl.Store.{Env, ConfigStore, store_set, store_get}
use feature_flags_control_pl.Server.{
  Server, Decoded, parsed, Response, json_ok, json_error, config_value, stored,
}

pub record ConfigRequest : Type 0 where
  pub key : Str
  pub value : Str

module _ {R : Type 0} (env : Env R) where
  pub set_response : Str → Str → Result (Unit {0}) → Response
  set_response key value (ok _) = json_ok (config_value key value)
  set_response key value (err e) = json_error (lit "store error") 500

  unfoldable pub set_config : Server R → Str → Str → Option ConfigStore → Server R × Response
  set_config s key value none = (s, json_error (lit "config store not available") 503)
  set_config s key value (some cs) =
      let done = store_set env cs s.world key value in
      (stored s done, set_response key value done.1)

  unfoldable pub set_config_handler : Server R → Decoded ConfigRequest → Server R × Response
  set_config_handler s (parsed req) = set_config s req.key req.value s.store
  set_config_handler s _ = (s, json_error (lit "invalid JSON body") 400)

  pub get_response : Str → Result Str → Response
  get_response key (ok value) = json_ok (config_value key value)
  get_response key (err e) = json_error (lit "key not found") 404

  unfoldable pub get_config : Server R → Str → Option ConfigStore → Server R × Response
  get_config s key none = (s, json_error (lit "config store not available") 503)
  get_config s key (some cs) =
      let (w, r) = store_get env cs s.world key in (record s { world = w }, get_response key r)

  unfoldable pub get_config_handler : Server R → Str → Server R × Response
  get_config_handler s key = get_config s key s.store
