-- ===== src/Store/Files.antt =====
-- The store over a map and a file: what a reader gets back, now and after a restart.
use feature_flags_control_pl.Shared.{
  ◌≡◌, ◌≢◌, true, false, some, [], Str, arith, is_empty, is_empty_iff, str_eq, insert,
  lookup-insert, lookup-insert_self, lookup-delete, if◌then◌else◌,
}
use feature_flags_control_pl.Store.Values.{ok, err, key_not_found, write_failed}
use feature_flags_control_pl.Store.{
  Env, World, ConfigStore, found_value, decoded, load_contents, load_from_file, new_config_store,
  save_to_file, store_set, store_get, store_delete,
}

module _ {R : Type 0} (env : Env R) (cs : ConfigStore) (w : World R) where
  abbrev written : Str → Str → ConfigStore
  written key value = record cs { items = insert key value cs.items }

  abbrev on_disk : Str → Str → World R
  on_disk key value = record w {
    disk = record w.disk {
      files = insert cs.file_path (env.marshal_map (insert key value cs.items)) w.disk.files;
    };
  }

  -- Without a Redis server, after a write of one key every key reads as before but for the written one,
  -- which reads as the new value. That holds whether or not the file could be written.
  pub store_get-set :
      (key value other : Str) (v : World R)
      → cs.redis_addr ≡ []
      → store_get env (store_set env cs w key value).0.0 v other
        ≡ (v, (if str_eq key other then ok value else (store_get env cs v other).1))
  unfolding store_get store_set is_empty found_value
  store_get-set key value other v local = ground (arith, lookup-insert key other value cs.items)

  -- Without a Redis server, after a delete every key reads as before but for the deleted one, which is
  -- not found.
  pub store_get-delete :
      (key other : Str) (v : World R)
      → cs.redis_addr ≡ []
      → store_get env (store_delete env cs w key).0.0 v other ≡ (
        v,
        (if str_eq key other then err (key_not_found other) else (store_get env cs v other).1),
      )
  unfolding store_get store_delete is_empty found_value
  store_get-delete key other v local = ground (arith, lookup-delete key other cs.items)

  -- A write with a file behind the map.
  store_set-file :
      (key value : Str)
      → cs.redis_addr ≡ []
      → cs.file_path ≢ []
      → store_set env cs w key value ≡ (
          if w.disk.writable
          then ((written key value, on_disk key value), ok tt)
          else ((written key value, w), err write_failed))
  unfolding store_set save_to_file
  store_set-file key value local path =
      ground (arith, is_empty_iff cs.redis_addr, is_empty_iff cs.file_path)

  -- Without a Redis server and with a file path, a write succeeds exactly when the file can be written,
  -- and a failed one is reported and leaves the file as it was.
  pub store_set-result :
      (key value : Str)
      → cs.redis_addr ≡ []
      → cs.file_path ≢ []
      → ((store_set env cs w key value).1 ≡ (if w.disk.writable then ok tt else err write_failed))
        × (w.disk.writable ≡ false → (store_set env cs w key value).0.1 ≡ w)
  store_set-result key value local path =
      rw (store_set-file key value local path) (ground arith, λ h. ground arith)

  -- What is written is there after a restart: if the write succeeded and the JSON codec gives the
  -- written map back, a store that is opened on the file again without a Redis server reads the written
  -- value at the key and at every other key what the store before it read.
  pub reopened-set :
      (key value other : Str) (v : World R)
      → cs.redis_addr ≡ []
      → cs.file_path ≢ []
      → w.disk.writable ≡ true
      → env.decode_map (env.marshal_map (insert key value cs.items))
        ≡ some (insert key value cs.items)
      → let after = (store_set env cs w key value).0.1 in
        (store_get env (new_config_store env cs.file_path [] after).1 v other).1
        ≡ (if str_eq key other then ok value else (store_get env cs v other).1)
  unfolding store_get new_config_store load_from_file load_contents decoded found_value
  reopened-set key value other v local path writable codec =
      rw (store_set-file key value local path, writable)
        (ground (
          arith,
          is_empty_iff cs.redis_addr,
          is_empty_iff cs.file_path,
          lookup-insert_self cs.file_path (env.marshal_map (insert key value cs.items))
              w.disk.files,
          lookup-insert key other value cs.items,
        ))
