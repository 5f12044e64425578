-- ===== src/Server/Flags/Handled.antt =====
-- What the flag handlers leave for later requests, and whom they tell.
use feature_flags_control_pl.Shared.{
  ◌≡◌, refl, ◌≢◌, Option, none, some, [], ◌++◌, Str, lit, arith, str_eq, is_empty_iff, lookup,
  insert, delete, lookup-insert, lookup-delete, if◌then◌else◌,
}
use feature_flags_control_pl.Flag.{FeatureFlag}
use feature_flags_control_pl.Store.{Env, ConfigStore}
use feature_flags_control_pl.Server.{
  Codec, Server, parsed, json_ok, json_error, one_flag, stored, persist_in, persist_json,
}
use feature_flags_control_pl.Server.Payloads.Silent.{NoneIn, broadcast_current-silent}
use feature_flags_control_pl.Server.Flags.{
  named, broadcast, put_flag, create_flag, create_flag_handler, get_flag_handler, delete_in,
  delete_flag_handler,
}

named-lem : (f : FeatureFlag) → f.name ≢ [] → named f ≡ f
unfolding named
named-lem f ne = ground (arith, is_empty_iff f.name)

module _ {R : Type 0} (env : Env R) (c : Codec) where
  persist_in-flags :
      (s : Server R) (o : Option ConfigStore) (key value : Str)
      → (persist_in env s o key value).flags ≡ s.flags
  unfolding persist_in stored
  persist_in-flags s none key value = refl
  persist_in-flags s (some cs) key value = refl

  pub put_flag-flags :
      (s : Server R) (name : Str) (f : FeatureFlag)
      → (put_flag env c s name f).flags ≡ insert name f s.flags
  unfolding put_flag broadcast persist_json
  put_flag-flags s name f = persist_in-flags _ s.store _ _

  delete_in-flags :
      (s : Server R) (o : Option ConfigStore) (key : Str)
      → (delete_in env c s o key).flags ≡ s.flags
  unfolding delete_in stored
  delete_in-flags s none key = refl
  delete_in-flags s (some cs) key = refl

  delete_in-clients :
      (s : Server R) (o : Option ConfigStore) (key : Str)
      → (delete_in env c s o key).clients ≡ s.clients
  unfolding delete_in stored
  delete_in-clients s none key = refl
  delete_in-clients s (some cs) key = refl

  pub delete_flag-flags :
      (s : Server R) (name : Str) → (delete_flag_handler env c s name).0.flags ≡ delete name s.flags
  unfolding delete_flag_handler broadcast
  delete_flag-flags s name =
      delete_in-flags (record s { flags = delete name s.flags }) s.store (lit "flag:" ++ name)

  -- After a flag with a name is posted, asking for that name answers with the posted flag and asking
  -- for any other name answers as before, whether or not the flag could be stored.
  pub get-create_flag :
      (s : Server R) (f : FeatureFlag) (name : Str)
      → f.name ≢ []
      → (get_flag_handler env c (create_flag_handler env c s (parsed f)).0 name).1
        ≡ (if str_eq f.name name then json_ok (one_flag f) else (get_flag_handler env c s name).1)
  unfolding get_flag_handler create_flag_handler create_flag named
  get-create_flag s f name ne =
      rw (named-lem f ne)
        (ground (arith, put_flag-flags s f.name f, lookup-insert f.name name f s.flags))

  -- After a delete, asking for the flag's name answers 404 and asking for any other name answers as
  -- before, whether or not the store could delete it.
  pub get-delete_flag :
      (s : Server R) (name other : Str)
      → (get_flag_handler env c (delete_flag_handler env c s name).0 other).1 ≡ (
          if str_eq name other
          then json_error (lit "flag not found") 404
          else (get_flag_handler env c s other).1)
  unfolding get_flag_handler
  get-delete_flag s name other =
      ground (arith, delete_flag-flags s name, lookup-delete name other s.flags)

  -- A delete tells the subscribers of an environment nothing when it leaves no flag of that
  -- environment: they are not sent the empty list, and keep the flag that was deleted.
  pub delete_flag-silent :
      (s : Server R) (name e : Str)
      → e ≢ lit "all"
      → NoneIn e (delete name s.flags)
      → lookup e (delete_flag_handler env c s name).0.clients ≡ lookup e s.clients
  unfolding delete_flag_handler broadcast
  delete_flag-silent s name e ne gone =
      let s' : Server R = record s { flags = delete name s.flags } in
      rw
        (
          delete_in-flags s' s'.store (lit "flag:" ++ name),
          delete_in-clients s' s'.store (lit "flag:" ++ name),
        )
        (broadcast_current-silent c e (delete name s.flags) s.clients ne gone)
