-- ===== src/Server/Flags/Tests.antt =====
-- The flag requests at concrete inputs.
use feature_flags_control_pl.Shared.{◌≡◌, List, [], ◌∷◌, lit, lookup}
use feature_flags_control_pl.Server.{parsed, empty_body}
use feature_flags_control_pl.Server.Samples.{env, codec, flag_named, start}
use feature_flags_control_pl.Server.Flags.{get_flag_handler}
use feature_flags_control_pl.Server.Flags.History.{
  Change, post, update, remove, specified_all, shown, changed_all, get_flag-changed_all,
}

abbrev changes : List Change
changes =
    post (parsed (flag_named (lit "new")))
    ∷ remove (lit "old")
    ∷ update (lit "old") empty_body
    ∷ update (lit "b") (parsed (flag_named (lit "c")))
    ∷ []

get_flag-changed_all_example :
    (get_flag_handler env codec (changed_all env codec changes start) (lit "b")).1
    ≡ shown (specified_all changes (λ k. lookup k start.flags) (lit "b"))
get_flag-changed_all_example = get_flag-changed_all env codec changes start (lit "b")
