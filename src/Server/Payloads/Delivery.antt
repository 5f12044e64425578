-- ===== src/Server/Payloads/Delivery.antt =====
-- Who receives what: the delivery of flag lists to the subscribers of an environment and of "all".
use feature_flags_control_pl.Shared.{
  ◌+◌, ◌≤◌, ◌<◌, Option, none, ◌≡◌, refl, ◌≢◌, inl, inr, false, Option-cases, some, List, [], ◌∷◌,
  ◌++◌, Str, lit, arith, str_eq, str_eq_iff, Dict, lookup, lookup-insert, length, length-append,
  map, if◌then◌else◌, All,
}
use mathlib.Core.Path.{ap₂}
use mathlib.Core.List.{append_assoc}
use mathlib.Core.Option
use feature_flags_control_pl.Server.{Channel}
use feature_flags_control_pl.Server.Payloads.{channel_capacity, send, send_all, broadcast_sse}

abbrev all_key : Str
all_key = lit "all"

-- The subscribers of `k` after a message to those of `e`.
lookup-send_all :
    (msg e k : Str) (clients : Dict (List Channel))
    → lookup k (send_all msg e clients)
      ≡ (if str_eq e k then Option.map (map (send msg)) (lookup e clients) else lookup k clients)
unfolding send_all
lookup-send_all msg e k clients = elim (Option-cases (lookup e clients)) [
  | inl missing ↦ ground (arith, str_eq_iff e k)
  | inr (chs, found) ↦
      ground (arith, str_eq_iff e k, lookup-insert e k (map (send msg) chs) clients)
]

-- What a message does to a channel: it is put behind those that wait, if fewer than 16 do, and is lost
-- otherwise.
pub record Sent (msg : Str) (ch ch' : Channel) : Type 0 where
  pub same : ch'.id ≡ ch.id
  pub room : length ch.waiting < 16 → ch'.waiting ≡ ch.waiting ++ msg ∷ []
  pub full : 16 ≤ length ch.waiting → ch'.waiting ≡ ch.waiting

-- The subscribers of one key before and after a message that each of them was sent.
abbrev pub SentEach : Str → List Channel → List Channel → Type 0
SentEach msg [] [] = Unit
SentEach msg (ch ∷ chs) (ch' ∷ chs') = Sent msg ch ch' × SentEach msg chs chs'
SentEach msg _ _ = ⊥

abbrev pub SentTo : Str → Option (List Channel) → Option (List Channel) → Type 0
SentTo msg none none = Unit
SentTo msg (some chs) (some chs') = SentEach msg chs chs'
SentTo msg _ _ = ⊥

send-Sent : (msg : Str) (ch : Channel) → Sent msg ch (send msg ch)
unfolding send
send-Sent msg ch = record {
  same = ground arith;
  room = λ h. ground arith;
  full = λ h. ground arith;
}

map-SentEach : (msg : Str) (chs : List Channel) → SentEach msg chs (map (send msg) chs)
map-SentEach msg [] = tt
map-SentEach msg (ch ∷ chs) = (send-Sent msg ch, map-SentEach msg chs)

map-SentTo : (msg : Str) (o : Option (List Channel)) → SentTo msg o (Option.map (map (send msg)) o)
map-SentTo msg none = tt
map-SentTo msg (some chs) = map-SentEach msg chs

pub lookup-broadcast_sse_other :
    (env msg k : Str) (clients : Dict (List Channel))
    → k ≢ lit "all"
    → str_eq env k ≡ false
    → lookup k (broadcast_sse env msg clients) ≡ lookup k clients
unfolding broadcast_sse
lookup-broadcast_sse_other env msg k clients ne h = ground (
  arith,
  str_eq_iff all_key k,
  lookup-send_all msg all_key k (send_all msg env clients),
  lookup-send_all msg env k clients,
)

broadcast_sse-lookup :
    (env msg : Str) (clients : Dict (List Channel))
    → env ≢ lit "all"
    → (lookup env (broadcast_sse env msg clients)
        ≡ Option.map (map (send msg)) (lookup env clients))
      × (lookup (lit "all") (broadcast_sse env msg clients)
          ≡ Option.map (map (send msg)) (lookup (lit "all") clients))
unfolding broadcast_sse
broadcast_sse-lookup env msg clients ne =
    let step = lookup-send_all msg all_key in
    let first = lookup-send_all msg env in
    (
      ground (
        arith,
        str_eq_iff all_key env,
        str_eq_iff env env,
        step env (send_all msg env clients),
        first env clients,
      ),
      ground (
        arith,
        str_eq_iff all_key all_key,
        str_eq_iff env all_key,
        step all_key (send_all msg env clients),
        first all_key clients,
      ),
    )

-- A message for one environment goes once to each of its subscribers and once to each subscriber of
-- "all": it is put behind the messages that wait in the channel, if these are fewer than 16, and a
-- subscriber with 16 or more waiting keeps what it has. All other subscribers keep what they have.
pub broadcast_sse-environment :
    (env msg : Str) (clients : Dict (List Channel))
    → env ≢ lit "all"
    → SentTo msg (lookup env clients) (lookup env (broadcast_sse env msg clients))
      × SentTo msg (lookup (lit "all") clients) (lookup (lit "all") (broadcast_sse env msg clients))
      × ((k : Str)
          → k ≢ env
          → k ≢ lit "all"
          → lookup k (broadcast_sse env msg clients) ≡ lookup k clients)
broadcast_sse-environment env msg clients ne =
    let (own, all) = broadcast_sse-lookup env msg clients ne in
    (
      rw own (map-SentTo msg (lookup env clients)),
      rw all (map-SentTo msg (lookup all_key clients)),
      λ k ne1 ne2.
          lookup-broadcast_sse_other env msg k clients ne2 (ground (arith, str_eq_iff env k)),
    )

-- The channel after a message that is sent twice.
abbrev pub doubled : Str → Channel → Channel
doubled msg ch = record ch { waiting = ch.waiting ++ msg ∷ msg ∷ [] }

send_twice :
    (msg : Str) (ch : Channel)
    → length ch.waiting + 2 ≤ channel_capacity
    → send msg (send msg ch) ≡ doubled msg ch
unfolding send
send_twice msg ch room =
    ground (
      arith,
      length-append {0} ch.waiting (msg ∷ []),
      append_assoc ch.waiting (msg ∷ []) (msg ∷ []),
    )

map-send_twice :
    (msg : Str) (chs : List Channel)
    → All (λ ch. length ch.waiting + 2 ≤ channel_capacity) chs
    → map (send msg) (map (send msg) chs) ≡ map (doubled msg) chs
map-send_twice msg [] room = refl
map-send_twice msg (ch ∷ chs) room =
    ap₂ (λ x xs. x ∷ xs) (send_twice msg ch room.0) (map-send_twice msg chs room.1)

-- A message for "all" goes twice to each subscriber of "all" whose channel has room for two.
pub broadcast_sse-twice_to_all :
    (msg : Str) (clients : Dict (List Channel)) (chs : List Channel)
    → lookup (lit "all") clients ≡ some chs
    → All (λ ch. length ch.waiting + 2 ≤ channel_capacity) chs
    → lookup (lit "all") (broadcast_sse (lit "all") msg clients) ≡ some (map (doubled msg) chs)
unfolding broadcast_sse
broadcast_sse-twice_to_all msg clients chs found room = ground (
  arith,
  str_eq_iff all_key all_key,
  lookup-send_all msg all_key all_key (send_all msg all_key clients),
  lookup-send_all msg all_key all_key clients,
  map-send_twice msg chs room,
)
