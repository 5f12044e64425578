-- ===== src/Sdk/Events.antt =====
-- The Go client on the bytes that the event stream of the control plane writes.
use feature_flags_control_pl.Shared.{
  ◌≡◌, refl, ap, ◌∙◌, Bool, true, false, not, ◌&&◌, ◌||◌, ◌==◌, Option, List, [], ◌∷◌, ◌++◌, Str,
  lit, arith, str_eq, is_empty, has_prefix, trim_space, trim_space-blank, All,
}
use mathlib.Core.List.{append_assoc, append-nil}
use feature_flags_control_pl.Server.Stream.{update_frame, ping_frame}
use feature_flags_control_pl.Server.Stream.Fifo.{Frame, update, ping, bytes, messages}
use feature_flags_control_pl.Sdk.Polling.{
  Client, trim_line_end, Event, no_event, fetch_flags, end_event, next_event, take_line,
  connect_sse,
}

-- No line feed and no carriage return.
unfoldable pub is_one_line : Str → Bool
is_one_line [] = true
is_one_line (b ∷ s) = not (b == 10 || b == 13) && is_one_line s

trim_line_end-one_line : (s : Str) → is_one_line s ≡ true → trim_line_end s ≡ s
unfolding trim_line_end is_one_line is_empty
trim_line_end-one_line [] h = refl
trim_line_end-one_line (b ∷ []) h = ground arith
trim_line_end-one_line (b ∷ b2 ∷ s) h =
    let rest = trim_line_end-one_line (b2 ∷ s) (ground arith) in ground (arith, rest)

update_frame-lines :
    (msg s : Str)
    → update_frame msg ++ s
      ≡ (lit "event: " ++ lit "update") ++ (10 ∷ ((lit "data: " ++ msg) ++ 10 ∷ 10 ∷ s))
unfolding update_frame
update_frame-lines msg s =
    ap (λ t. lit "event: update" ++ (10 ∷ (lit "data: " ++ t))) (append_assoc msg (10 ∷ 10 ∷ []) s)

ping_frame-lines :
    (s : Str)
    → ping_frame ++ s
      ≡ (lit "event: " ++ lit "ping") ++ (10 ∷ ((lit "data: " ++ lit "keepalive") ++ 10 ∷ 10 ∷ s))
unfolding ping_frame
ping_frame-lines s = refl

module _ {F W : Type 0} (decode_flags : Str → Option F) (fetch : W → W × Option Str) where
  abbrev resume : W × Client F × Event → Str → W × Client F
  resume (w, c, e) s = connect_sse decode_flags fetch w c e [] s

  -- A whole line is read before anything is done.
  read_line :
      (w : W) (c : Client F) (e : Event) (start line s : Str)
      → is_one_line line ≡ true
      → connect_sse decode_flags fetch w c e start (line ++ 10 ∷ s)
        ≡ resume (take_line decode_flags fetch w c e (start ++ line)) s
  unfolding connect_sse is_one_line
  read_line w c e start [] s h = rw (append-nil start) refl
  read_line w c e start (b ∷ line) s h =
      let other : (b == 10) ≡ false = ground arith in
      rw other (
        read_line w c e (start ++ b ∷ []) line s (ground arith)
        ∙ ap (λ l. resume (take_line decode_flags fetch w c e l) s)
            (append_assoc start (b ∷ []) line))

  read_type :
      (w : W) (c : Client F) (e : Event) (type s : Str)
      → is_one_line (lit "event: " ++ type) ≡ true
      → connect_sse decode_flags fetch w c e [] ((lit "event: " ++ type) ++ 10 ∷ s)
        ≡ connect_sse decode_flags fetch w c (record e { type = trim_space type }) [] s
  unfolding take_line next_event has_prefix is_empty
  read_type w c e type s h =
      read_line w c e [] (lit "event: " ++ type) s h
      ∙ rw (trim_line_end-one_line (lit "event: " ++ type) h, trim_space-blank type) refl

  read_data :
      (w : W) (c : Client F) (e : Event) (value s : Str)
      → is_one_line (lit "data: " ++ value) ≡ true
      → connect_sse decode_flags fetch w c e [] ((lit "data: " ++ value) ++ 10 ∷ s)
        ≡ connect_sse decode_flags fetch w c (record e { value = trim_space value }) [] s
  unfolding take_line next_event has_prefix is_empty
  read_data w c e value s h =
      read_line w c e [] (lit "data: " ++ value) s h
      ∙ rw (trim_line_end-one_line (lit "data: " ++ value) h, trim_space-blank value) refl

  read_blank :
      (w : W) (c : Client F) (e : Event) (s : Str)
      → connect_sse decode_flags fetch w c e [] (10 ∷ s) ≡ (
          let (w', c') = end_event decode_flags fetch w c e in
          connect_sse decode_flags fetch w' c' no_event [] s)
  unfolding connect_sse take_line next_event has_prefix is_empty trim_line_end
  read_blank w c e s = refl

  is_one_line-blank :
      (prefix s : Str)
      → is_one_line prefix ≡ true
      → is_one_line s ≡ true
      → is_one_line (prefix ++ s) ≡ true
  unfolding is_one_line
  is_one_line-blank [] s hp h = h
  is_one_line-blank (b ∷ p) s hp h = ground (arith, is_one_line-blank p s (ground arith) h)

  -- One event is read as its two lines and the blank one.
  read_event :
      (w : W) (c : Client F) (type value s : Str)
      → is_one_line (lit "event: " ++ type) ≡ true
      → is_one_line value ≡ true
      → connect_sse decode_flags fetch w c no_event []
          ((lit "event: " ++ type) ++ (10 ∷ ((lit "data: " ++ value) ++ 10 ∷ 10 ∷ s)))
        ≡ (let (w', c') =
              end_event decode_flags fetch w c
                (record { type = trim_space type; value = trim_space value }) in
            connect_sse decode_flags fetch w' c' no_event [] s)
  unfolding is_one_line
  read_event w c type value s ht hv =
      read_type w c no_event type ((lit "data: " ++ value) ++ 10 ∷ 10 ∷ s) ht
      ∙ read_data w c (record { type = trim_space type; value = [] }) value (10 ∷ s)
          (is_one_line-blank (lit "data: ") value refl hv)
      ∙ read_blank w c (record { type = trim_space type; value = trim_space value }) s

  -- What an update has the client do.
  taken : W → Client F → Str → W × Client F
  taken w c msg =
      let (w', body) = fetch w in
      (w', fetch_flags decode_flags (record c { last_config = trim_space msg }) body)

  read_update :
      (w : W) (c : Client F) (msg s : Str)
      → is_one_line msg ≡ true
      → connect_sse decode_flags fetch w c no_event [] (update_frame msg ++ s)
        ≡ (let (w', c') = taken w c msg in connect_sse decode_flags fetch w' c' no_event [] s)
  unfolding is_one_line end_event taken str_eq trim_space
  read_update w c msg s h =
      ap (connect_sse decode_flags fetch w c no_event []) (update_frame-lines msg s)
      ∙ read_event w c (lit "update") msg s refl h

  read_ping :
      (w : W) (c : Client F) (s : Str)
      → connect_sse decode_flags fetch w c no_event [] (ping_frame ++ s)
        ≡ connect_sse decode_flags fetch w c no_event [] s
  unfolding is_one_line end_event str_eq trim_space
  read_ping w c s =
      ap (connect_sse decode_flags fetch w c no_event []) (ping_frame-lines s)
      ∙ read_event w c (lit "ping") (lit "keepalive") s refl refl

  -- What the client makes of the frames: each update has it fetch the flags, with the event's text as
  -- the last body that it saw; a ping has no effect.
  pub follow : W → Client F → List Frame → W × Client F
  follow w c [] = (w, c)
  follow w c (ping ∷ fs) = follow w c fs
  follow w c (update msg ∷ fs) = let (w', c') = taken w c msg in follow w' c' fs

  -- A client that reads what an event stream has written, with no line break inside a message, fetches
  -- the flags once for each update, in the order of the updates, and never for a ping; each fetch
  -- is compared with the text of the update before it.
  pub connect_sse-follow :
      (w : W) (c : Client F) (fs : List Frame)
      → All (λ msg. is_one_line msg ≡ true) (messages fs)
      → connect_sse decode_flags fetch w c no_event [] (bytes fs) ≡ follow w c fs
  unfolding bytes messages follow connect_sse
  connect_sse-follow w c [] h = refl
  connect_sse-follow w c (ping ∷ fs) h = read_ping w c (bytes fs) ∙ connect_sse-follow w c fs h
  connect_sse-follow w c (update msg ∷ fs) h =
      let (w', c') = taken w c msg in
      read_update w c msg (bytes fs) h.0 ∙ connect_sse-follow w' c' fs h.1
