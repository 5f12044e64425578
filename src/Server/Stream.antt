-- ===== src/Server/Stream.antt =====
-- control-plane/main.go, `flagsSSEHandler`: the event stream. A session is the life of one request:
-- it subscribes, sends the flag list of the moment, and then goes on with what the select picks.
pub mod Fifo
use feature_flags_control_pl.Shared.{
  ℕ, Bool, true, false, not, Option, none, some, List, [], ◌∷◌, ◌++◌, Str, lit, is_empty, Dict,
  lookup, insert, ◌==◌, if◌then◌else◌,
}
use feature_flags_control_pl.Server.{Codec, Channel, Server}
use feature_flags_control_pl.Server.Payloads.{flag_payloads_by_env, send, text_at}

-- What a handler writes to: the writer of net/http, which can flush, or the recorder of
-- `metricsMiddleware` around another writer. The recorder has the three methods of
-- `http.ResponseWriter` and no `Flush`.
pub data Writer : Type 0 where
  net_http : Writer
  status_recorder : Writer → Writer

-- `w.(http.Flusher)`
unfoldable pub is_flusher : Writer → Bool
is_flusher net_http = true
is_flusher (status_recorder w) = false

pub stream_env : Str → Str
stream_env env_query = if is_empty env_query then lit "all" else env_query

pub channels_of : Str → Dict (List Channel) → List Channel
channels_of env clients = elim (lookup env clients) [ none ↦ [] | some chs ↦ chs ]

-- `sseClients[env] = append(sseClients[env], ch)`
pub subscribe : Str → Channel → Dict (List Channel) → Dict (List Channel)
subscribe env ch clients = insert env (channels_of env clients ++ ch ∷ []) clients

-- The loop of the deferred function: the first channel with the identity is cut out.
pub remove_channel : ℕ → List Channel → List Channel
remove_channel id [] = []
remove_channel id (ch ∷ chs) = if ch.id == id then chs else ch ∷ remove_channel id chs

pub unsubscribe : Str → ℕ → Dict (List Channel) → Dict (List Channel)
unsubscribe env id clients = elim (lookup env clients) [
  | none ↦ clients
  | some chs ↦ insert env (remove_channel id chs) clients
]

-- `fmt.Fprintf(w, "event: update\ndata: %s\n\n", payload)`
unfoldable pub update_frame : Str → Str
update_frame payload = lit "event: update" ++ (10 ∷ (lit "data: " ++ (payload ++ 10 ∷ 10 ∷ [])))

unfoldable pub ping_frame : Str
ping_frame = lit "event: ping" ++ (10 ∷ (lit "data: keepalive" ++ 10 ∷ 10 ∷ []))

pub first_payload : {R : Type 0} → Codec → Server R → Str → Str
first_payload c s env =
    let payload = text_at env (flag_payloads_by_env c s.flags) in
    if is_empty payload then lit "[]" else payload

abbrev pub fresh_channel : ℕ → Channel
fresh_channel id = record { id = id; waiting = [] }

-- The handler up to its loop, with the status that it writes. A fresh channel has a new identity.
unfoldable pub stream_handler : {R : Type 0} → Codec → ℕ → Str → Writer → Server R → Server R × ℕ
stream_handler c id env_query w s =
    if is_flusher w
    then (record s { clients = subscribe (stream_env env_query) (fresh_channel id) s.clients }, 200)
    else (s, 500)

-- A session between two rounds of its loop: its channel and the bytes that it has written.
pub record Session : Type 0 where
  pub channel : Channel
  pub written : Str

-- What the handler has done before its loop, with the flag list of the moment.
unfoldable pub opened : ℕ → Str → Session
opened id payload = record { channel = fresh_channel id; written = update_frame payload }

-- What can happen in a session: a broadcast puts a message into its channel, or the select takes a
-- message or a tick of the keep-alive timer.
pub data Move : Type 0 where
  told : Str → Move
  received ticked : Move

unfoldable pub receive : Session → List Str → Session
receive s [] = s
receive s (msg ∷ waiting) = record {
  channel = record s.channel { waiting = waiting };
  written = s.written ++ update_frame msg;
}

unfoldable pub step : Session → Move → Session
step s (told msg) = record s { channel = send msg s.channel }
step s received = receive s s.channel.waiting
step s ticked = record s { written = s.written ++ ping_frame }

unfoldable pub run : Session → List Move → Session
run s [] = s
run s (m ∷ ms) = run (step s m) ms
