-- ===== src/Server/Sync/Tests.antt =====
-- A reload at a concrete input.
use mathlib.Core.Option.{none-ne-some}
use feature_flags_control_pl.Shared.{ℕ, ◌≡◌, refl, some, [], ◌∷◌, List, Str, lit, lookup, is_empty}
use feature_flags_control_pl.Store.{ConfigStore}
use feature_flags_control_pl.Server.{Server, parsed}
use feature_flags_control_pl.Server.Samples.{env, codec, flag_named, start}
use feature_flags_control_pl.Server.Flags.{get_flag_handler, named}
use feature_flags_control_pl.Server.Flags.History.{
  Change, post, update, remove, specified_all, shown, changed_all,
}
use feature_flags_control_pl.Server.Sync.{load_from_store}
use feature_flags_control_pl.Server.Sync.Synced.{Synced}
use feature_flags_control_pl.Server.Sync.Kept.{reload-changed_all}

abbrev empty_store : ConfigStore
empty_store = record { items = []; file_path = lit "config.json"; redis_addr = [] }

abbrev fresh : Server ℕ
fresh = record start { flags = []; store = some empty_store }

fresh-Synced : Synced codec fresh
unfolding lookup
fresh-Synced = record {
  cs = empty_store;
  held = refl;
  local = refl;
  distinct = tt;
  consistent = λ key v found wanted. absurd (none-ne-some v found);
  agrees = λ name. refl;
}

abbrev changes : List Change
changes =
    post (parsed (flag_named (lit "a")))
    ∷ update (lit "b") (parsed (flag_named (lit "c")))
    ∷ remove (lit "a")
    ∷ []

reload-changed_all_example :
    (s' : Server ℕ) × (load_from_store env codec 0 (changed_all env codec changes fresh) 7
      ≡ some s')
    × ((name : Str)
        → (get_flag_handler env codec s' name).1
          ≡ shown (specified_all changes (λ k. lookup k fresh.flags) name))
unfolding named is_empty
reload-changed_all_example =
    reload-changed_all env codec changes fresh 0 7 fresh-Synced (refl, (refl, (tt, tt)))
