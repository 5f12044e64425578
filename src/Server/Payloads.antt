-- ===== src/Server/Payloads.antt =====
-- control-plane/main.go: the flag lists that subscribers get, and their delivery. A payload is the
-- JSON text of a list of flags; `map[string]struct{}` is a list of texts.
pub mod Delivery
pub mod Silent
use Prim.Native.Nat.{compare, Ordering}
use feature_flags_control_pl.Shared.{
  ℕ, Bool, true, false, not, ◌||◌, Option, none, some, List, [], ◌∷◌, ◌++◌, Str, lit, str_eq,
  is_empty, Dict, lookup, insert, length, map, ltb, ◌==◌, if◌then◌else◌,
}
use feature_flags_control_pl.Flag.{FeatureFlag}
use feature_flags_control_pl.Server.{Codec, Channel}

-- `s < t` on strings: bytewise, a prefix before its extensions.
pub str_lt : Str → Str → Bool
str_lt s [] = false
str_lt [] (b ∷ t) = true
str_lt (a ∷ s) (b ∷ t) = let rest = str_lt s t in if a == b then rest else ltb a b

-- `sort.Slice` by name. The names are the keys of a map, so the result does not depend on the method.
pub insert_flag : FeatureFlag → List FeatureFlag → List FeatureFlag
insert_flag f [] = f ∷ []
insert_flag f (g ∷ gs) = if str_lt g.name f.name then g ∷ insert_flag f gs else f ∷ g ∷ gs

pub sort_flags : List FeatureFlag → List FeatureFlag
sort_flags [] = []
sort_flags (f ∷ fs) = insert_flag f (sort_flags fs)

pub all_flags : Dict FeatureFlag → List FeatureFlag
all_flags [] = []
all_flags ((_, f) ∷ m) = f ∷ all_flags m

-- `_, ok := set[e]`
pub has_text : Str → List Str → Bool
has_text e [] = false
has_text e (x ∷ xs) = str_eq x e || has_text e xs

-- The environments of the flags, each once and without the empty one.
pub environments : Dict FeatureFlag → List Str → List Str
environments [] envs = envs
environments ((_, f) ∷ m) envs =
    environments m
      (if is_empty f.environment || has_text f.environment envs then envs else f.environment ∷ envs)

pub of_environment : Str → List FeatureFlag → List FeatureFlag
of_environment env [] = []
of_environment env (f ∷ fs) =
    let rest = of_environment env fs in if str_eq f.environment env then f ∷ rest else rest

-- `payloads[env] = mustMarshalFlagList(envFlags)`, for each environment.
pub add_payloads : Codec → List FeatureFlag → List Str → Dict Str → Dict Str
add_payloads c fs [] payloads = payloads
add_payloads c fs (env ∷ envs) payloads =
    add_payloads c fs envs (insert env (c.marshal_flags (of_environment env fs)) payloads)

pub flag_payloads_by_env : Codec → Dict FeatureFlag → Dict Str
flag_payloads_by_env c flags =
    let fs = sort_flags (all_flags flags) in
    add_payloads c fs (environments flags []) ((lit "all", c.marshal_flags fs) ∷ [])

-- `make(chan string, 16)`
abbrev pub channel_capacity : ℕ
channel_capacity = 16

-- `select { case ch <- msg: default: }`
unfoldable pub send : Str → Channel → Channel
send msg ch =
    if ltb (length ch.waiting) channel_capacity
    then record ch { waiting = ch.waiting ++ msg ∷ [] }
    else ch

-- `for _, ch := range sseClients[e]`
pub send_all : Str → Str → Dict (List Channel) → Dict (List Channel)
send_all msg e clients = elim (lookup e clients) [
  | none ↦ clients
  | some chs ↦ insert e (map (send msg) chs) clients
]

pub broadcast_sse : Str → Str → Dict (List Channel) → Dict (List Channel)
broadcast_sse env msg clients = send_all msg (lit "all") (send_all msg env clients)

-- `before[env]`, which is the empty text for a missing key.
pub text_at : Str → Dict Str → Str
text_at env m = elim (lookup env m) [ none ↦ [] | some t ↦ t ]

pub broadcast_new : Dict Str → Dict Str → Dict (List Channel) → Dict (List Channel)
broadcast_new before [] clients = clients
broadcast_new before ((env, payload) ∷ after) clients =
    broadcast_new before after
      (if str_eq (text_at env before) payload then clients else broadcast_sse env payload clients)

pub has_key : Str → Dict Str → Bool
has_key e [] = false
has_key e ((k, _) ∷ m) = str_eq k e || has_key e m

pub broadcast_gone : Dict Str → Dict Str → Dict (List Channel) → Dict (List Channel)
broadcast_gone after [] clients = clients
broadcast_gone after ((env, _) ∷ before) clients =
    broadcast_gone after before
      (if has_key env after then clients else broadcast_sse env (lit "[]") clients)

pub broadcast_changed_flag_payloads :
    Dict Str → Dict Str → Dict (List Channel) → Dict (List Channel)
broadcast_changed_flag_payloads before after clients =
    broadcast_gone after before (broadcast_new before after clients)

pub broadcast_current_flag_payloads :
    Codec → Dict FeatureFlag → Dict (List Channel) → Dict (List Channel)
broadcast_current_flag_payloads c flags clients =
    broadcast_changed_flag_payloads [] (flag_payloads_by_env c flags) clients
