-- ===== src/Server/Payloads/Silent.antt =====
-- Subscribers of an environment that no flag has: what a change of the flags tells them.
use feature_flags_control_pl.Shared.{
  ◌≡◌, refl, ◌≢◌, false, ◌||◌, List, [], ◌∷◌, Str, lit, arith, str_eq, str_eq_iff, is_empty, Dict,
  lookup, insert, if◌then◌else◌, All,
}
use feature_flags_control_pl.Flag.{FeatureFlag}
use feature_flags_control_pl.Server.{Codec, Channel}
use feature_flags_control_pl.Server.Payloads.{
  has_text, environments, of_environment, sort_flags, all_flags, add_payloads, flag_payloads_by_env,
  broadcast_sse, text_at, broadcast_new, has_key, broadcast_gone, broadcast_changed_flag_payloads,
  broadcast_current_flag_payloads,
}
use feature_flags_control_pl.Server.Payloads.Delivery.{lookup-broadcast_sse_other}

-- No flag of the map has the environment.
abbrev pub NoneIn : Str → Dict FeatureFlag → Type 0
NoneIn e flags = All (λ entry. str_eq entry.1.environment e ≡ false) flags

has_key-insert :
    (e k v : Str) (m : Dict Str) → has_key e (insert k v m) ≡ (str_eq k e || has_key e m)
unfolding has_key insert
has_key-insert e k v [] = refl
has_key-insert e k v ((j, w) ∷ m) = ground (arith, has_key-insert e k v m, str_eq_iff j k)

add_payloads-has_key :
    (c : Codec) (e : Str) (fs : List FeatureFlag) (envs : List Str) (payloads : Dict Str)
    → has_text e envs ≡ false
    → has_key e (add_payloads c fs envs payloads) ≡ has_key e payloads
unfolding add_payloads has_text
add_payloads-has_key c e fs [] payloads h = refl
add_payloads-has_key c e fs (env ∷ envs) payloads h =
    let text = c.marshal_flags (of_environment env fs) in
    ground (
      arith,
      add_payloads-has_key c e fs envs (insert env text payloads),
      has_key-insert e env text payloads,
    )

environments-NoneIn :
    (e : Str) (flags : Dict FeatureFlag) (envs : List Str)
    → NoneIn e flags
    → has_text e envs ≡ false
    → has_text e (environments flags envs) ≡ false
unfolding environments has_text
environments-NoneIn e [] envs h g = g
environments-NoneIn e ((k, f) ∷ flags) envs h g =
    environments-NoneIn e flags
      (if is_empty f.environment || has_text f.environment envs then envs else f.environment ∷ envs)
      h.1 (ground arith)

broadcast_new-silent :
    (e : Str) (before after : Dict Str) (clients : Dict (List Channel))
    → e ≢ lit "all"
    → has_key e after ≡ false
    → lookup e (broadcast_new before after clients) ≡ lookup e clients
unfolding broadcast_new has_key
broadcast_new-silent e before [] clients ne h = refl
broadcast_new-silent e before ((env, payload) ∷ after) clients ne h = ground (
  arith,
  broadcast_new-silent e before after
      (if str_eq (text_at env before) payload then clients else broadcast_sse env payload clients)
      ne,
  lookup-broadcast_sse_other env payload e clients ne,
  str_eq_iff env e,
)

flag_payloads-has_key :
    (c : Codec) (e : Str) (flags : Dict FeatureFlag)
    → e ≢ lit "all"
    → NoneIn e flags
    → has_key e (flag_payloads_by_env c flags) ≡ false
unfolding flag_payloads_by_env has_key has_text
flag_payloads-has_key c e flags ne h =
    let absent : has_text e (environments flags []) ≡ false =
      environments-NoneIn e flags [] h refl in
    ground (
      arith,
      add_payloads-has_key c e (sort_flags (all_flags flags)) (environments flags [])
          ((lit "all", c.marshal_flags (sort_flags (all_flags flags))) ∷ []),
      str_eq_iff (lit "all") e,
    )

-- A broadcast of the current flags sends nothing to the subscribers of an environment, other than
-- "all", that no flag has.
pub broadcast_current-silent :
    (c : Codec) (e : Str) (flags : Dict FeatureFlag) (clients : Dict (List Channel))
    → e ≢ lit "all"
    → NoneIn e flags
    → lookup e (broadcast_current_flag_payloads c flags clients) ≡ lookup e clients
unfolding broadcast_current_flag_payloads broadcast_changed_flag_payloads broadcast_gone
broadcast_current-silent c e flags clients ne h =
    broadcast_new-silent e [] (flag_payloads_by_env c flags) clients ne
      (flag_payloads-has_key c e flags ne h)
