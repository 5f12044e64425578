-- ===== src/Sdk/Polling.antt =====
-- sdk/sdk.go: the client's copy of the flags, refreshed by polling and by the event stream. Decoding
-- of a flag list is a parameter.
use feature_flags_control_pl.Shared.{
  Bool, true, Option, none, some, List, [], ◌∷◌, ◌++◌, Str, lit, str_eq, is_empty, drop, has_prefix,
  trim_space, ◌==◌, ◌||◌, if◌then◌else◌,
}

-- `updates` are the calls of the registered callback, oldest first.
pub record Client (F : Type 0) : Type 0 where
  pub last_config : Str
  pub flags : F
  pub has_callback : Bool
  pub updates : List F

-- `OnUpdate`
pub on_update : {F : Type 0} → Client F → Client F
on_update c = record c { has_callback = true }

-- `strings.TrimRight(line, "\r\n")`
unfoldable pub trim_line_end : Str → Str
trim_line_end [] = []
trim_line_end (c ∷ s) =
    let rest = trim_line_end s in
    if is_empty rest then (if c == 10 || c == 13 then [] else c ∷ []) else c ∷ rest

pub record Event : Type 0 where
  pub type : Str
  pub value : Str

abbrev pub no_event : Event
no_event = record { type = []; value = [] }

module _ {F : Type 0} (decode_flags : Str → Option F) where
  unfoldable pub decoded : Client F → Option F → Client F
  decoded c none = c
  decoded c (some flags) = record c { flags = flags }

  -- The lines under the lock, and the callback behind them.
  unfoldable pub take_body : Client F → Str → Client F
  take_body c body =
      let changed = decoded (record c { last_config = body }) (decode_flags body) in
      let told =
        if c.has_callback
        then record changed { updates = changed.updates ++ changed.flags ∷ [] }
        else changed in
      if str_eq body c.last_config then c else told

  -- No body stands for a request or a read that failed.
  unfoldable pub fetch_flags : Client F → Option Str → Client F
  fetch_flags c none = c
  fetch_flags c (some body) = take_body c body

  module _ {W : Type 0} (fetch : W → W × Option Str) where
    -- The blank line that ends an event.
    unfoldable pub end_event : W → Client F → Event → W × Client F
    end_event w c e =
        let (w', body) = fetch w in
        if str_eq e.type (lit "update")
        then (w', fetch_flags (record c { last_config = e.value }) body)
        else (w, c)

    unfoldable pub next_event : Event → Str → Event
    next_event e line =
        if has_prefix line (lit "event:")
        then record e { type = trim_space (drop 6 line) }
        else if has_prefix line (lit "data:")
        then record e { value = trim_space (drop 5 line) }
        else if is_empty line
        then no_event
        else e

    -- One round of the loop, for a line without its newline.
    unfoldable pub take_line : W → Client F → Event → Str → W × Client F × Event
    take_line w c e raw =
        let line = trim_line_end raw in
        let (w', c') = end_event w c e in
        if is_empty line then (w', c', next_event e line) else (w, c, next_event e line)

    -- `connectSSE` on the bytes of the stream, of which `line` are read: it ends with the stream.
    unfoldable pub connect_sse : W → Client F → Event → Str → Str → W × Client F
    connect_sse w c e line [] = (w, c)
    connect_sse w c e line (b ∷ s) =
        let (w', c', e') = take_line w c e line in
        let ended = connect_sse w' c' e' [] s in
        let on = connect_sse w c e (line ++ b ∷ []) s in if b == 10 then ended else on
