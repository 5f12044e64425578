-- ===== src/Store.antt =====
-- control-plane/configstore.go: the key-value store over a map and a JSON file, or over a Redis
-- server. The server, the JSON codec of the map and the file system are parameters: `Env` has the
-- server's answer to a command, `none` for a failed exchange, and `Disk` says whether writes succeed.
pub mod Values
pub mod Files
pub mod History
pub mod Prefix
pub mod Resp
mod Tests
use feature_flags_control_pl.Shared.{
  ℕ, zero, suc, Bool, true, false, not, Option, none, some, List, [], ◌∷◌, ◌++◌, Str, lit, is_empty,
  str_eq, has_prefix, Dict, lookup, insert, delete, if◌then◌else◌,
}
use feature_flags_control_pl.Store.Values.{
  Value, text, nothing, Result, ok, err, Error, exchange_failed, key_not_found, unexpected_type,
  write_failed,
}

-- What stands outside the program: a Redis server with states `R`, and encoding/json on the map.
pub record Env (R : Type 0) : Type 0 where
  pub command : R → List Str → R × Option Value
  pub marshal_map : Dict Str → Str
  pub decode_map : Str → Option (Dict Str)

pub record Disk : Type 0 where
  pub files : Dict Str
  pub writable : Bool

pub record World (R : Type 0) : Type 0 where
  pub disk : Disk
  pub redis : R

pub record ConfigStore : Type 0 where
  pub items : Dict Str
  pub file_path : Str
  pub redis_addr : Str

module _ {R : Type 0} (env : Env R) where
  -- `redisCommand`: the exchange with the server, refused where none is configured.
  pub redis_command : ConfigStore → World R → List Str → World R × Option Value
  redis_command cs w parts =
      let (r, answer) = env.command w.redis parts in
      if is_empty cs.redis_addr then (w, none) else (record w { redis = r }, answer)

  pub save_to_file : ConfigStore → World R → World R × Result (Unit {0})
  save_to_file cs w =
      let files = insert cs.file_path (env.marshal_map cs.items) w.disk.files in
      if is_empty cs.file_path
      then (w, ok tt)
      else if w.disk.writable
      then (record w { disk = record w.disk { files = files } }, ok tt)
      else (w, err write_failed)

  -- The decoded map, or a fresh one for a corrupt file.
  pub decoded : ConfigStore → Option (Dict Str) → ConfigStore
  decoded cs none = record cs { items = [] }
  decoded cs (some m) = record cs { items = m }

  pub load_contents : ConfigStore → Option Str → ConfigStore
  load_contents cs none = cs
  load_contents cs (some contents) = decoded cs (env.decode_map contents)

  pub load_from_file : ConfigStore → World R → ConfigStore
  load_from_file cs w =
      if is_empty cs.file_path then cs else load_contents cs (lookup cs.file_path w.disk.files)

  -- The answer to PING decides whether the configured server is used.
  pub after_ping : ConfigStore → World R × Option Value → World R × ConfigStore
  after_ping cs (w, none) = (w, load_from_file (record cs { redis_addr = [] }) w)
  after_ping cs (w, some v) = (w, cs)

  -- `redis_addr` is the trimmed environment variable.
  pub new_config_store : Str → Str → World R → World R × ConfigStore
  new_config_store file_path redis_addr w =
      let cs : ConfigStore = record {
        items = [];
        file_path = file_path;
        redis_addr = redis_addr;
      } in
      if is_empty redis_addr
      then (w, load_from_file cs w)
      else after_ping cs (redis_command cs w (lit "PING" ∷ []))

  -- An exchange whose answer is not read.
  pub acknowledged : World R × Option Value → World R × Result (Unit {0})
  acknowledged (w, none) = (w, err exchange_failed)
  acknowledged (w, some v) = (w, ok tt)

  unfoldable pub store_set :
      ConfigStore → World R → Str → Str → (ConfigStore × World R) × Result (Unit {0})
  store_set cs w key value =
      let cs' = record cs { items = insert key value cs.items } in
      let (w_redis, redis_result) =
        acknowledged (redis_command cs w (lit "SET" ∷ key ∷ value ∷ [])) in
      let (w_file, file_result) = save_to_file cs' w in
      if not (is_empty cs.redis_addr)
      then ((cs, w_redis), redis_result)
      else ((cs', w_file), file_result)

  pub redis_value : Str → Option Value → Result Str
  redis_value key none = err exchange_failed
  redis_value key (some nothing) = err (key_not_found key)
  redis_value key (some (text v)) = ok v
  redis_value key (some _) = err (unexpected_type key)

  pub found_value : Str → Option Str → Result Str
  found_value key none = err (key_not_found key)
  found_value key (some v) = ok v

  pub store_get : ConfigStore → World R → Str → World R × Result Str
  store_get cs w key =
      let (w', answer) = redis_command cs w (lit "GET" ∷ key ∷ []) in
      if not (is_empty cs.redis_addr)
      then (w', redis_value key answer)
      else (w, found_value key (lookup key cs.items))

  unfoldable pub store_delete :
      ConfigStore → World R → Str → (ConfigStore × World R) × Result (Unit {0})
  store_delete cs w key =
      let cs' = record cs { items = delete key cs.items } in
      let (w_redis, redis_result) = acknowledged (redis_command cs w (lit "DEL" ∷ key ∷ [])) in
      let (w_file, file_result) = save_to_file cs' w in
      if not (is_empty cs.redis_addr)
      then ((cs, w_redis), redis_result)
      else ((cs', w_file), file_result)
