-- ===== src/Server/Experiments.antt =====
-- control-plane/main.go: the experiment handlers.
use feature_flags_control_pl.Shared.{
  Option, none, some, Str, lit, is_empty, lookup, insert, if◌then◌else◌,
}
use feature_flags_control_pl.Experiment.{Experiment, assign_variant, record_conversion}
use feature_flags_control_pl.Store.{Env}
use feature_flags_control_pl.Server.{
  Codec, Server, Decoded, parsed, Response, json_ok, json_error, one_experiment, assigned, recorded,
  panicked, persist_json,
}

module _ {R : Type 0} (env : Env R) (c : Codec) where
  unfoldable pub create_experiment_handler : Server R → Decoded Experiment → Server R × Response
  create_experiment_handler s (parsed e) = (
    persist_json env (record s { experiments = insert e.name e s.experiments }) (lit "experiment:")
        e.name (c.marshal_experiment e),
    json_ok (one_experiment e),
  )
  create_experiment_handler s _ = (s, json_error (lit "invalid JSON body") 400)

pub variant_response : Str → Str → Option Str → Response
variant_response name user_id none = record { status = 500; body = panicked }
variant_response name user_id (some v) = json_ok (assigned name v user_id)

module _ {R : Type 0} where
  unfoldable pub variant_found : Server R → Str → Str → Option Experiment → Server R × Response
  variant_found s name user_id none = (s, json_error (lit "experiment not found") 404)
  variant_found s name user_id (some e) =
      let (exposure, v) = assign_variant s.variant_exposure e user_id in
      (record s { variant_exposure = exposure }, variant_response name user_id v)

  unfoldable pub get_variant_handler : Server R → Str → Str → Server R × Response
  get_variant_handler s name user_id =
      if is_empty user_id
      then (s, json_error (lit "userId query param required") 400)
      else variant_found s name user_id (lookup name s.experiments)

  unfoldable pub conversion_found : Server R → Str → Str → Option Experiment → Server R × Response
  conversion_found s name v none = (s, json_error (lit "experiment not found") 404)
  conversion_found s name v (some e) = (
    record s { conversion_events = record_conversion s.conversion_events e v },
    json_ok (recorded name v),
  )

  unfoldable pub record_conversion_handler : Server R → Str → Str → Server R × Response
  record_conversion_handler s name v =
      if is_empty v
      then (s, json_error (lit "variant query param required") 400)
      else conversion_found s name v (lookup name s.experiments)
