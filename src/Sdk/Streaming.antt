-- ===== src/Sdk/Streaming.antt =====
-- sdk/sdk.go: the connections to the event stream, and the loop that opens one after the other. What a
-- request for the stream is answered is an argument; the bytes of a stream are those up to its end.
pub mod Refused
use feature_flags_control_pl.Shared.{
  ℕ, Option, none, List, [], ◌∷◌, ◌++◌, Str, lit, ◌==◌, if◌then◌else◌,
}
use feature_flags_control_pl.Sdk.{Connection, Outgoing}
use feature_flags_control_pl.Sdk.Polling.{Client, no_event, connect_sse}

pub stream_request : Connection → Str → Outgoing
stream_request c env = record {
  method = lit "GET";
  url = c.config_url ++ (lit "/flags/stream?env=" ++ env);
  headers = (lit "Accept", lit "text/event-stream") ∷ [];
  body = none;
}

-- An answer with its status and the bytes of its body.
pub data StreamAnswer : Type 0 where
  unanswered : StreamAnswer
  opened_with : ℕ → Str → StreamAnswer

-- Why a connection is over.
pub data StreamError : Type 0 where
  not_connected : StreamError
  bad_status : ℕ → StreamError
  stream_ended : StreamError

module _ {F W : Type 0} (decode_flags : Str → Option F) (fetch : W → W × Option Str) where
  unfoldable pub connect_stream : W → Client F → StreamAnswer → (W × Client F) × StreamError
  connect_stream w c unanswered = ((w, c), not_connected)
  connect_stream w c (opened_with status bytes) =
      let read = connect_sse decode_flags fetch w c no_event [] bytes in
      if status == 200 then (read, stream_ended) else ((w, c), bad_status status)

  -- The rounds of `StartSSE`; every error is followed by the next round.
  unfoldable pub start_sse : W → Client F → List StreamAnswer → W × Client F
  start_sse w c [] = (w, c)
  start_sse w c (answer ∷ answers) =
      let ((w', c'), err) = connect_stream w c answer in start_sse w' c' answers
