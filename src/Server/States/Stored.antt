-- ===== src/Server/States/Stored.antt =====
-- The handlers of flags, experiments, limits and configs leave the server well formed.
use feature_flags_control_pl.Shared.{
  Option, none, some, ◌≡◌, Str, lit, [], ◌∷◌, arith, insert, delete, ◌++◌, refl,
}
use feature_flags_control_pl.Flag.{FeatureFlag}
use feature_flags_control_pl.Experiment.{Experiment}
use feature_flags_control_pl.Metrics.Text.Sized.{counter_inc-CounterSized}
use feature_flags_control_pl.Store.{Env, ConfigStore}
use feature_flags_control_pl.Server.{
  Codec, Server, Decoded, parsed, empty_body, malformed, stored, persist_in, persist_json,
}
use feature_flags_control_pl.Server.Flags.{
  zero_flag, named, broadcast, put_flag, create_flag, create_flag_handler, update_flag_handler,
  delete_in, delete_flag_handler,
}
use feature_flags_control_pl.Server.Experiments.{create_experiment_handler}
use feature_flags_control_pl.Server.Limits.{RateLimitConfig, set_rate_limit_handler}
use feature_flags_control_pl.Server.Config.{
  ConfigRequest, set_config, set_config_handler, get_config, get_config_handler,
}
use feature_flags_control_pl.Server.States.Unstored.{WellFormed}
use feature_flags_control_pl.Server.States.Keyed.{insert-Keyed, delete-Keyed}

module _ {R : Type 0} (env : Env R) where
  pub persist_json-WellFormed :
      (s : Server R) (prefix name value : Str)
      → WellFormed s
      → WellFormed (persist_json env s prefix name value)
  unfolding persist_json persist_in stored
  persist_json-WellFormed s prefix name value h = persisted s.store
    where
      persisted : (o : Option ConfigStore) → WellFormed (persist_in env s o (prefix ++ name) value)
      persisted none = h
      persisted (some cs) = h

  set_config-WellFormed :
      (s : Server R) (key value : Str) (o : Option ConfigStore)
      → WellFormed s
      → WellFormed (set_config env s key value o).0
  unfolding set_config stored
  set_config-WellFormed s key value none h = h
  set_config-WellFormed s key value (some cs) h = h

  pub set_config_handler-WellFormed :
      (s : Server R) (body : Decoded ConfigRequest)
      → WellFormed s
      → WellFormed (set_config_handler env s body).0
  unfolding set_config_handler
  set_config_handler-WellFormed s (parsed req) h =
      set_config-WellFormed s req.key req.value s.store h
  set_config_handler-WellFormed s empty_body h = h
  set_config_handler-WellFormed s (malformed _) h = h

  get_config-WellFormed :
      (s : Server R) (key : Str) (o : Option ConfigStore)
      → WellFormed s
      → WellFormed (get_config env s key o).0
  unfolding get_config
  get_config-WellFormed s key none h = h
  get_config-WellFormed s key (some cs) h = h

  pub get_config_handler-WellFormed :
      (s : Server R) (key : Str) → WellFormed s → WellFormed (get_config_handler env s key).0
  unfolding get_config_handler
  get_config_handler-WellFormed s key h = get_config-WellFormed s key s.store h

  module _ (c : Codec) where
    put_flag-WellFormed :
        (s : Server R) (name : Str) (f : FeatureFlag)
        → f.name ≡ name
        → WellFormed s
        → WellFormed (put_flag env c s name f)
    unfolding put_flag broadcast
    put_flag-WellFormed s name f own (fe, ve, ce, th, (fs, es, bs, sized, shown)) =
        let keyed = insert-Keyed (λ f. f.name) name f s.flags own fs in
        persist_json-WellFormed (record s { flags = insert name f s.flags }) (lit "flag:") name
          (c.marshal_flag f) (fe, ve, ce, th, (keyed, es, bs, sized, shown))

    create_flag-WellFormed :
        (s : Server R) (f : FeatureFlag) → WellFormed s → WellFormed (create_flag env c s f).0
    unfolding create_flag
    create_flag-WellFormed s f h =
        let (fe, ve, ce, th, g) = put_flag-WellFormed s f.name f refl h in
        (
          counter_inc-CounterSized 2 (put_flag env c s f.name f).flag_evaluations
              (f.name ∷ lit "created" ∷ []) (omega arith) fe,
          ve,
          ce,
          th,
          g,
        )

    pub create_flag_handler-WellFormed :
        (s : Server R) (body : Decoded FeatureFlag)
        → WellFormed s
        → WellFormed (create_flag_handler env c s body).0
    unfolding create_flag_handler
    create_flag_handler-WellFormed s (parsed f) h = create_flag-WellFormed s (named f) h
    create_flag_handler-WellFormed s empty_body h = create_flag-WellFormed s (named zero_flag) h
    create_flag_handler-WellFormed s (malformed _) h = h

    pub update_flag_handler-WellFormed :
        (s : Server R) (name : Str) (body : Decoded FeatureFlag)
        → WellFormed s
        → WellFormed (update_flag_handler env c s name body).0
    unfolding update_flag_handler
    update_flag_handler-WellFormed s name (parsed f) h =
        put_flag-WellFormed s name (record f { name = name }) refl h
    update_flag_handler-WellFormed s name empty_body h = h
    update_flag_handler-WellFormed s name (malformed _) h = h

    delete_in-WellFormed :
        (s : Server R) (o : Option ConfigStore) (key : Str)
        → WellFormed s
        → WellFormed (delete_in env c s o key)
    unfolding delete_in stored
    delete_in-WellFormed s none key h = h
    delete_in-WellFormed s (some cs) key h = h

    pub delete_flag_handler-WellFormed :
        (s : Server R) (name : Str) → WellFormed s → WellFormed (delete_flag_handler env c s name).0
    unfolding delete_flag_handler broadcast
    delete_flag_handler-WellFormed s name (fe, ve, ce, th, (fs, es, bs, sized, shown)) =
        let keyed = delete-Keyed (λ f. f.name) name s.flags fs in
        delete_in-WellFormed (record s { flags = delete name s.flags }) s.store
          (lit "flag:" ++ name) (fe, ve, ce, th, (keyed, es, bs, sized, shown))

    pub create_experiment_handler-WellFormed :
        (s : Server R) (body : Decoded Experiment)
        → WellFormed s
        → WellFormed (create_experiment_handler env c s body).0
    unfolding create_experiment_handler
    create_experiment_handler-WellFormed s (parsed e) (fe, ve, ce, th, (fs, es, bs, sized, shown)) =
        let keyed = insert-Keyed (λ e. e.name) e.name e s.experiments refl es in
        persist_json-WellFormed (record s { experiments = insert e.name e s.experiments })
          (lit "experiment:") e.name (c.marshal_experiment e)
          (fe, ve, ce, th, (fs, keyed, bs, sized, shown))
    create_experiment_handler-WellFormed s empty_body h = h
    create_experiment_handler-WellFormed s (malformed _) h = h

    pub set_rate_limit_handler-WellFormed :
        (s : Server R) (body : Decoded RateLimitConfig)
        → WellFormed s
        → WellFormed (set_rate_limit_handler env c s body).0
    unfolding set_rate_limit_handler
    set_rate_limit_handler-WellFormed s (parsed cfg) h = persist_json-WellFormed _ _ _ _ h
    set_rate_limit_handler-WellFormed s empty_body h = h
    set_rate_limit_handler-WellFormed s (malformed _) h = h
