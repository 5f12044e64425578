-- ===== src/Server/Sync/Synced.antt =====
-- Flags in memory and in the store: requests keep them in step, so that a reload changes none.
use feature_flags_control_pl.Shared.{
  Distinct, insert-Distinct, delete-Distinct, ◌≡◌, refl, sym, ap, ◌∙◌, true, Bool-cases, inl, inr,
  Option, none, some, List, [], ◌∷◌, ◌++◌, Str, lit, arith, is_empty, str_eq, str_eq_iff,
  has_prefix, Dict, lookup, insert, delete, lookup-insert, lookup-delete, All,
}
use feature_flags_control_pl.Flag.{FeatureFlag}
use feature_flags_control_pl.Store.{Env, World, ConfigStore, store_set, store_delete}
use feature_flags_control_pl.Server.{
  Codec, Server, parsed, empty_body, malformed, stored, persist_in, persist_json,
}
use feature_flags_control_pl.Server.Flags.{
  zero_flag, named, broadcast, put_flag, create_flag, create_flag_handler, update_flag_handler,
  delete_in, delete_flag_handler,
}
use feature_flags_control_pl.Server.Flags.Handled.{put_flag-flags, delete_flag-flags}
use feature_flags_control_pl.Server.Flags.History.{
  Change, post, update, remove, changed, changed_all,
}

-- The flag that the store holds under a name.
abbrev pub flag_in : Codec → Dict Str → Str → Option FeatureFlag
flag_in c items name = elim (lookup (lit "flag:" ++ name) items) [
  | none ↦ none
  | some v ↦ c.unmarshal_flag v
]

-- A flag that encoding/json gives back.
abbrev pub Coded : Codec → FeatureFlag → Type 0
Coded c f = c.unmarshal_flag (c.marshal_flag f) ≡ some f

-- An entry that decodes to a flag of its own name.
abbrev pub Named : Codec → Str → Str → Type 0
Named c key v = (f : FeatureFlag) × (c.unmarshal_flag v ≡ some f) × (key ≡ lit "flag:" ++ f.name)

-- The store of the server is a map and a file, its flag entries decode to flags of their own names, and
-- the flags in memory are just those.
pub record Synced {R : Type 0} (c : Codec) (s : Server R) : Type 0 where
  pub cs : ConfigStore
  pub held : s.store ≡ some cs
  pub local : cs.redis_addr ≡ []
  pub distinct : Distinct cs.items
  pub consistent :
      (key v : Str)
      → lookup key cs.items ≡ some v
      → has_prefix key (lit "flag:") ≡ true
      → Named c key v
  pub agrees : (name : Str) → lookup name s.flags ≡ flag_in c cs.items name

key_eq : (a b : Str) → str_eq (lit "flag:" ++ a) (lit "flag:" ++ b) ≡ str_eq a b
unfolding str_eq
key_eq a b = refl

module _ {R : Type 0} (env : Env R) (c : Codec) where
  put-Synced :
      (s s' : Server R) (name : Str) (f : FeatureFlag) (y : Synced c s)
      → s'.store
        ≡ some (record y.cs { items = insert (lit "flag:" ++ name) (c.marshal_flag f) y.cs.items })
      → s'.flags ≡ insert name f s.flags
      → f.name ≡ name
      → Coded c f
      → Synced c s'
  put-Synced s s' name f y store flags named_so coded =
      let key = lit "flag:" ++ name in
      let text = c.marshal_flag f in
      record {
        cs = record y.cs { items = insert key text y.cs.items };
        held = store;
        local = y.local;
        distinct = insert-Distinct key text y.cs.items y.distinct;
        consistent = λ k v found wanted. elim (Bool-cases (str_eq key k)) [
          | inl same ↦ (
            f,
            ground (arith, lookup-insert key k text y.cs.items),
            ground (arith, str_eq_iff key k),
          )
          | inr other ↦
              y.consistent k v
                (sym (rw other refl) ∙ sym (lookup-insert key k text y.cs.items) ∙ found) wanted
        ];
        agrees = λ n.
            ap (lookup n) flags
            ∙ ground (
              arith,
              lookup-insert name n f s.flags,
              lookup-insert key (lit "flag:" ++ n) text y.cs.items,
              key_eq name n,
              y.agrees n,
            );
      }

  remove-Synced :
      (s s' : Server R) (name : Str) (y : Synced c s)
      → s'.store ≡ some (record y.cs { items = delete (lit "flag:" ++ name) y.cs.items })
      → s'.flags ≡ delete name s.flags
      → Synced c s'
  remove-Synced s s' name y store flags =
      let key = lit "flag:" ++ name in
      record {
        cs = record y.cs { items = delete key y.cs.items };
        held = store;
        local = y.local;
        distinct = delete-Distinct key y.cs.items y.distinct;
        consistent = λ k v found wanted. elim (Bool-cases (str_eq key k)) [
          | inl same ↦ absurd (ground (arith, lookup-delete key k y.cs.items))
          | inr other ↦
              y.consistent k v (sym (rw other refl) ∙ sym (lookup-delete key k y.cs.items) ∙ found)
                wanted
        ];
        agrees = λ n.
            ap (lookup n) flags
            ∙ ground (
              arith,
              lookup-delete name n s.flags,
              lookup-delete key (lit "flag:" ++ n) y.cs.items,
              key_eq name n,
              y.agrees n,
            );
      }

  same-Synced :
      (s s' : Server R) → Synced c s → s'.store ≡ s.store → s'.flags ≡ s.flags → Synced c s'
  same-Synced s s' y store flags = record {
    cs = y.cs;
    held = store ∙ y.held;
    local = y.local;
    distinct = y.distinct;
    consistent = y.consistent;
    agrees = λ n. ap (lookup n) flags ∙ y.agrees n;
  }

  store_set-local :
      (cs : ConfigStore) (w : World R) (key value : Str)
      → cs.redis_addr ≡ []
      → (store_set env cs w key value).0.0 ≡ record cs { items = insert key value cs.items }
  unfolding store_set is_empty
  store_set-local cs w key value local = rw local refl

  store_delete-local :
      (cs : ConfigStore) (w : World R) (key : Str)
      → cs.redis_addr ≡ []
      → (store_delete env cs w key).0.0 ≡ record cs { items = delete key cs.items }
  unfolding store_delete is_empty
  store_delete-local cs w key local = rw local refl

  put_flag-store :
      (s : Server R) (name : Str) (f : FeatureFlag) (y : Synced c s)
      → (put_flag env c s name f).store
        ≡ some (record y.cs { items = insert (lit "flag:" ++ name) (c.marshal_flag f) y.cs.items })
  unfolding put_flag broadcast persist_json persist_in stored
  put_flag-store s name f y =
      ap
        (λ o.
          (persist_in env (record s { flags = insert name f s.flags }) o (lit "flag:" ++ name)
            (c.marshal_flag f)).store)
        y.held
      ∙ ap some (store_set-local y.cs s.world (lit "flag:" ++ name) (c.marshal_flag f) y.local)

  delete_flag-store :
      (s : Server R) (name : Str) (y : Synced c s)
      → (delete_flag_handler env c s name).0.store
        ≡ some (record y.cs { items = delete (lit "flag:" ++ name) y.cs.items })
  unfolding delete_flag_handler broadcast delete_in stored
  delete_flag-store s name y =
      ap
        (λ o.
          (delete_in env c (record s { flags = delete name s.flags }) o
            (lit "flag:" ++ name)).store)
        y.held
      ∙ ap some (store_delete-local y.cs s.world (lit "flag:" ++ name) y.local)

  -- A posted flag and an updated one are such that the codec gives them back.
  abbrev pub CodedChange : Change → Type 0
  CodedChange (post (parsed f)) = Coded c (named f)
  CodedChange (post empty_body) = Coded c (named zero_flag)
  CodedChange (post (malformed f)) = Unit
  CodedChange (update name (parsed f)) = Coded c (record f { name = name })
  CodedChange (update name empty_body) = Unit
  CodedChange (update name (malformed f)) = Unit
  CodedChange (remove name) = Unit

  put_flag-Synced :
      (s s' : Server R) (f : FeatureFlag)
      → Synced c s
      → Coded c f
      → s'.store ≡ (put_flag env c s f.name f).store
      → s'.flags ≡ (put_flag env c s f.name f).flags
      → Synced c s'
  put_flag-Synced s s' f y coded store flags =
      put-Synced s s' f.name f y (store ∙ put_flag-store s f.name f y)
        (flags ∙ put_flag-flags env c s f.name f) refl coded

  changed-Synced :
      (ch : Change) (s : Server R) → Synced c s → CodedChange ch → Synced c (changed env c ch s)
  unfolding changed create_flag_handler create_flag update_flag_handler
  changed-Synced (post (parsed f)) s y coded = put_flag-Synced s _ (named f) y coded refl refl
  changed-Synced (post empty_body) s y coded =
      put_flag-Synced s _ (named zero_flag) y coded refl refl
  changed-Synced (post (malformed f)) s y coded = y
  changed-Synced (update name (parsed f)) s y coded =
      put_flag-Synced s _ (record f { name = name }) y coded refl refl
  changed-Synced (update name empty_body) s y coded = y
  changed-Synced (update name (malformed f)) s y coded = y
  changed-Synced (remove name) s y coded =
      remove-Synced s _ name y (delete_flag-store s name y) (delete_flag-flags env c s name)

  pub changed_all-Synced :
      (chs : List Change) (s : Server R)
      → Synced c s
      → All CodedChange chs
      → Synced c (changed_all env c chs s)
  unfolding changed_all
  changed_all-Synced [] s y coded = y
  changed_all-Synced (ch ∷ chs) s y (first, coded) =
      changed_all-Synced chs (changed env c ch s) (changed-Synced ch s y first) coded
