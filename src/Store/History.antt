-- ===== src/Store/History.antt =====
-- Any sequence of writes and deletes of the store over a map and a file, against a plain map.
use feature_flags_control_pl.Shared.{
  ◌≡◌, refl, sym, ap, ◌∙◌, ◌≢◌, true, false, Option, none, some, List, [], ◌∷◌, Str, arith, str_eq,
  is_empty, is_empty_iff, Dict, lookup, insert, delete, lookup-insert, lookup-insert_self,
  lookup-delete, if◌then◌else◌,
}
use feature_flags_control_pl.Store.Values.{Result, ok, err, key_not_found}
use feature_flags_control_pl.Store.{
  Env, World, ConfigStore, found_value, decoded, load_contents, load_from_file, new_config_store,
  save_to_file, store_set, store_get, store_delete,
}

pub data Operation : Type 0 where
  put : Str → Str → Operation
  remove : Str → Operation

-- The plain map: what stands under each key.
abbrev pub TextMap : Type 0
TextMap = Str → Option Str

abbrev pub assigned : Str → Option Str → TextMap → TextMap
assigned key o m other = if str_eq key other then o else m other

abbrev pub specified : Operation → TextMap → TextMap
specified (put key value) m = assigned key (some value) m
specified (remove key) m = assigned key none m

pub specified_all : List Operation → TextMap → TextMap
specified_all [] m = m
specified_all (op ∷ ops) m = specified_all ops (specified op m)

-- What a read answers.
abbrev pub read : Str → Option Str → Result Str
read key none = err (key_not_found key)
read key (some v) = ok v

-- The entries of the running store after an operation.
abbrev edited : Operation → Dict Str → Dict Str
edited (put key value) items = insert key value items
edited (remove key) items = delete key items

edited-lookup :
    (op : Operation) (items : Dict Str) (m : TextMap)
    → ((k : Str) → lookup k items ≡ m k)
    → (k : Str) → lookup k (edited op items) ≡ specified op m k
edited-lookup (put key value) items m h k = lookup-insert key k value items ∙ rw (h k) refl
edited-lookup (remove key) items m h k = lookup-delete key k items ∙ rw (h k) refl

module _ {R : Type 0} (env : Env R) where
  unfoldable pub applied : Operation → ConfigStore × World R → ConfigStore × World R
  applied (put key value) (cs, w) = (store_set env cs w key value).0
  applied (remove key) (cs, w) = (store_delete env cs w key).0

  unfoldable pub applied_all : List Operation → ConfigStore × World R → ConfigStore × World R
  applied_all [] state = state
  applied_all (op ∷ ops) state = applied_all ops (applied op state)

  -- A store without a Redis server, whose file can be written.
  record OnFile (path : Str) (state : ConfigStore × World R) : Type 0 where
    local : state.0.redis_addr ≡ []
    at_path : state.0.file_path ≡ path
    writable : state.1.disk.writable ≡ true

  -- The file holds the store's map.
  abbrev Saved : Str → ConfigStore × World R → Type 0
  Saved path state = lookup path state.1.disk.files ≡ some (env.marshal_map state.0.items)

  -- Without a Redis server an operation edits the map and saves it.
  applied-local :
      (op : Operation) (cs : ConfigStore) (w : World R)
      → cs.redis_addr ≡ []
      → let cs' = record cs { items = edited op cs.items } in
        applied op (cs, w) ≡ (cs', (save_to_file env cs' w).0)
  unfolding applied store_set store_delete is_empty
  applied-local (put key value) cs w local = rw local refl
  applied-local (remove key) cs w local = rw local refl

  save_to_file-writable :
      (cs : ConfigStore) (w : World R)
      → cs.file_path ≢ []
      → w.disk.writable ≡ true
      → (save_to_file env cs w).0 ≡ record w {
        disk = record w.disk {
          files = insert cs.file_path (env.marshal_map cs.items) w.disk.files;
        };
      }
  unfolding save_to_file
  save_to_file-writable cs w ne writable = ground (arith, is_empty_iff cs.file_path)

  applied-OnFile :
      (path : Str) (op : Operation) (state : ConfigStore × World R)
      → path ≢ []
      → OnFile path state
      → OnFile path (applied op state) × Saved path (applied op state)
  applied-OnFile path op (cs, w) ne h =
      let cs' = record cs { items = edited op cs.items } in
      let text = env.marshal_map cs'.items in
      let whole =
        applied-local op cs w h.local
        ∙ ap (λ w'. (cs', w'))
            (save_to_file-writable cs' w (λ e. ne (sym h.at_path ∙ e)) h.writable) in
      (
        record {
          local = ap (λ x. x.0.redis_addr) whole ∙ h.local;
          at_path = ap (λ x. x.0.file_path) whole ∙ h.at_path;
          writable = ap (λ x. x.1.disk.writable) whole ∙ h.writable;
        },
        ap (λ x. lookup path x.1.disk.files) whole
            ∙ ap (λ p. lookup path (insert p text w.disk.files)) h.at_path
            ∙ lookup-insert_self path text w.disk.files
            ∙ ap (λ x. some (env.marshal_map x.0.items)) (sym whole),
      )

  applied_all-OnFile :
      (path : Str) (ops : List Operation) (state : ConfigStore × World R)
      → path ≢ []
      → OnFile path state
      → Saved path state
      → OnFile path (applied_all ops state) × Saved path (applied_all ops state)
  unfolding applied_all
  applied_all-OnFile path [] state ne h saved = (h, saved)
  applied_all-OnFile path (op ∷ ops) state ne h saved =
      let (h', saved') = applied-OnFile path op state ne h in
      applied_all-OnFile path ops (applied op state) ne h' saved'

  applied_all-lookup :
      (ops : List Operation) (state : ConfigStore × World R) (m : TextMap)
      → state.0.redis_addr ≡ []
      → ((k : Str) → lookup k state.0.items ≡ m k)
      → ((applied_all ops state).0.redis_addr ≡ [])
        × ((k : Str) → lookup k (applied_all ops state).0.items ≡ specified_all ops m k)
  unfolding applied_all specified_all
  applied_all-lookup [] state m local h = (local, h)
  applied_all-lookup (op ∷ ops) (cs, w) m local h =
      let e = ap (λ x. x.0) (applied-local op cs w local) in
      applied_all-lookup ops (applied op (cs, w)) (specified op m)
        (ap (λ x. x.redis_addr) e ∙ local)
        (λ k. ap (λ x. lookup k x.items) e ∙ edited-lookup op cs.items m h k)

  store_get-read :
      (cs : ConfigStore) (v : World R) (key : Str)
      → cs.redis_addr ≡ []
      → (store_get env cs v key).1 ≡ read key (lookup key cs.items)
  unfolding store_get is_empty found_value
  store_get-read cs v key local = rw local (found (lookup key cs.items))
    where
      found : (o : Option Str) → found_value env key o ≡ read key o
      found none = refl
      found (some t) = refl

  -- Without a Redis server, after any writes and deletes every key is read as from the plain map to
  -- which the same changes were made, whether or not the file could be written.
  pub store_get-applied_all :
      (ops : List Operation) (cs : ConfigStore) (w v : World R) (key : Str)
      → cs.redis_addr ≡ []
      → (store_get env (applied_all ops (cs, w)).0 v key).1
        ≡ read key (specified_all ops (λ k. lookup k cs.items) key)
  store_get-applied_all ops cs w v key local =
      let (still, held) =
        applied_all-lookup ops (cs, w) (λ k. lookup k cs.items) local (λ k. refl) in
      store_get-read (applied_all ops (cs, w)).0 v key still ∙ ap (read key) (held key)

  -- What is written survives a restart: after any writes and deletes, at least one, to a file that can
  -- be written, a store that is opened on the file again without a Redis server reads every key as from
  -- the plain map to which the same changes were made, if the JSON codec gives back the entries of the
  -- last map that was saved.
  pub reopened-applied_all :
      (op : Operation) (ops : List Operation) (cs : ConfigStore) (w v : World R) (key : Str)
      (m' : Dict Str)
      → cs.redis_addr ≡ []
      → cs.file_path ≢ []
      → w.disk.writable ≡ true
      → env.decode_map (env.marshal_map (applied_all (op ∷ ops) (cs, w)).0.items) ≡ some m'
      → ((k : Str) → lookup k m' ≡ lookup k (applied_all (op ∷ ops) (cs, w)).0.items)
      → (store_get env
          (new_config_store env cs.file_path [] (applied_all (op ∷ ops) (cs, w)).1).1
          v
          key).1
        ≡ read key (specified_all (op ∷ ops) (λ k. lookup k cs.items) key)
  unfolding applied_all new_config_store load_from_file load_contents decoded is_empty
  reopened-applied_all op ops cs w v key m' local path writable codec same =
      let start : OnFile cs.file_path (cs, w) = record {
        local = local;
        at_path = refl;
        writable = writable;
      } in
      let (first, saved) = applied-OnFile cs.file_path op (cs, w) path start in
      let (last, kept) =
        applied_all-OnFile cs.file_path ops (applied op (cs, w)) path first saved in
      let (still, held) =
        applied_all-lookup (op ∷ ops) (cs, w) (λ k. lookup k cs.items) local (λ k. refl) in
      let filled : is_empty cs.file_path ≡ false = ground (arith, is_empty_iff cs.file_path) in
      rw (filled, kept, codec)
        (store_get-read (record { items = m'; file_path = cs.file_path; redis_addr = [] }) v key
            refl
          ∙ ap (read key) (same key ∙ held key))
