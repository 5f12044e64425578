-- ===== src/Server/Stream/Fifo.antt =====
-- What a session writes: the messages in their order, and none lost within the capacity.
use feature_flags_control_pl.Shared.{
  ℕ, suc, ◌≡◌, refl, sym, ap, subst, ◌∙◌, List, [], ◌∷◌, ◌++◌, Str, arith, length, length-append,
  ltb, Bool-cases, inl, inr, ◌+◌, ◌-◌, true, false, if◌then◌else◌,
}
use mathlib.Core.List.{append_assoc, append-nil}
use feature_flags_control_pl.Server.Payloads.{send}
use feature_flags_control_pl.Server.Stream.{
  Session, opened, update_frame, ping_frame, Move, told, received, ticked, receive, step, run,
}

-- What a session writes, piece by piece.
pub data Frame : Type 0 where
  update : Str → Frame
  ping : Frame

unfoldable pub bytes : List Frame → Str
bytes [] = []
bytes (update payload ∷ fs) = update_frame payload ++ bytes fs
bytes (ping ∷ fs) = ping_frame ++ bytes fs

-- The messages among the frames.
unfoldable pub messages : List Frame → List Str
messages [] = []
messages (update payload ∷ fs) = payload ∷ messages fs
messages (ping ∷ fs) = messages fs

-- How many ticks the timer made, and how many pings are among the frames.
unfoldable pub ticks : List Move → ℕ
ticks [] = 0
ticks (ticked ∷ ms) = suc (ticks ms)
ticks (_ ∷ ms) = ticks ms

unfoldable pub pings : List Frame → ℕ
pings [] = 0
pings (ping ∷ fs) = suc (pings fs)
pings (update payload ∷ fs) = pings fs

-- How many messages wait behind the moves, when `n` waited before them.
unfoldable pub backlog : ℕ → List Move → ℕ
backlog n [] = n
backlog n (told msg ∷ ms) = backlog (if ltb n 16 then n + 1 else n) ms
backlog n (received ∷ ms) = backlog (n - 1) ms
backlog n (ticked ∷ ms) = backlog n ms

-- The messages that find fewer than 16 others waiting, in their order.
unfoldable pub accepted : ℕ → List Move → List Str
accepted n [] = []
accepted n (told msg ∷ ms) = if ltb n 16 then msg ∷ accepted (n + 1) ms else accepted n ms
accepted n (received ∷ ms) = accepted (n - 1) ms
accepted n (ticked ∷ ms) = accepted n ms

-- What a session has done behind the moves, from one with the channel `waiting` and the bytes `before`.
pub record Carried (before : Str) (waiting : List Str) (ms : List Move) (s : Session) : Type 0 where
  pub frames : List Frame
  pub written : s.written ≡ before ++ bytes frames
  pub order : messages frames ++ s.channel.waiting ≡ waiting ++ accepted (length waiting) ms
  pub left : length s.channel.waiting ≡ backlog (length waiting) ms
  pub pinged : pings frames ≡ ticks ms

-- The same for a session that begins with a flag list.
abbrev pub Delivered : Str → List Move → Session → Type 0
Delivered payload = Carried (update_frame payload) []

-- A move that puts the message into the channel.
told-Carried :
    (before : Str) (waiting : List Str) (msg : Str) (ms : List Move) (s : Session)
    → ltb (length waiting) 16 ≡ true
    → Carried before (waiting ++ msg ∷ []) ms s
    → Carried before waiting (told msg ∷ ms) s
unfolding accepted backlog ticks
told-Carried before waiting msg ms s room d =
    let longer : length (waiting ++ msg ∷ []) ≡ length waiting + 1 =
      length-append waiting (msg ∷ []) in
    record {
      frames = d.frames;
      written = d.written;
      order = rw room (
          d.order
          ∙ append_assoc waiting (msg ∷ []) (accepted (length (waiting ++ msg ∷ [])) ms)
          ∙ ap (λ n. waiting ++ msg ∷ accepted n ms) longer);
      left = rw room (d.left ∙ ap (λ n. backlog n ms) longer);
      pinged = d.pinged;
    }

-- A message that is lost.
lost-Carried :
    (before : Str) (waiting : List Str) (msg : Str) (ms : List Move) (s : Session)
    → ltb (length waiting) 16 ≡ false
    → Carried before waiting ms s
    → Carried before waiting (told msg ∷ ms) s
unfolding accepted backlog ticks
lost-Carried before waiting msg ms s full d = record {
  frames = d.frames;
  written = d.written;
  order = rw full d.order;
  left = rw full d.left;
  pinged = d.pinged;
}

-- A move that takes the first message, if there is one.
received-Carried :
    (s : Session) (ws : List Str) (ms : List Move) (t : Session)
    → s.channel.waiting ≡ ws
    → Carried (receive s ws).written (receive s ws).channel.waiting ms t
    → Carried s.written ws (received ∷ ms) t
unfolding receive accepted backlog ticks pings bytes messages
received-Carried s [] ms t e d =
    let d' : Carried s.written [] ms t = subst (λ ws. Carried s.written ws ms t) e d in
    record {
      frames = d'.frames;
      written = d'.written;
      order = d'.order;
      left = d'.left;
      pinged = d'.pinged;
    }
received-Carried s (msg ∷ ws) ms t e d =
    let less : length ws ≡ length (msg ∷ ws) - 1 = omega arith in
    record {
      frames = update msg ∷ d.frames;
      written = d.written ∙ append_assoc s.written (update_frame msg) (bytes d.frames);
      order = ap (λ l. msg ∷ l) d.order ∙ ap (λ n. msg ∷ (ws ++ accepted n ms)) less;
      left = d.left ∙ ap (λ n. backlog n ms) less;
      pinged = d.pinged;
    }

run-Carried : (s : Session) (ms : List Move) → Carried s.written s.channel.waiting ms (run s ms)
unfolding run step send accepted backlog ticks pings bytes messages
run-Carried s [] = record {
  frames = [];
  written = sym (append-nil s.written);
  order = sym (append-nil s.channel.waiting);
  left = refl;
  pinged = refl;
}
run-Carried s (told msg ∷ ms) = elim (Bool-cases (ltb (length s.channel.waiting) 16)) [
  | inl room ↦ told-Carried s.written s.channel.waiting msg ms _ room (rw room (run-Carried _ ms))
  | inr full ↦ rw full (lost-Carried s.written s.channel.waiting msg ms _ full (run-Carried s ms))
]
run-Carried s (received ∷ ms) =
    received-Carried s s.channel.waiting ms _ refl (run-Carried (receive s s.channel.waiting) ms)
run-Carried s (ticked ∷ ms) =
    let d = run-Carried (record s { written = s.written ++ ping_frame }) ms in
    record {
      frames = ping ∷ d.frames;
      written = d.written ∙ append_assoc s.written ping_frame (bytes d.frames);
      order = d.order;
      left = d.left;
      pinged = ap suc d.pinged;
    }

-- Behind any moves, a session has written nothing but frames: first the flag list that it was opened
-- with, then updates, and a ping for each tick of the timer. The messages of these updates, followed by
-- those that wait in its channel, are the broadcast messages that found fewer than 16 others waiting,
-- each once and in their order; and as many wait as those moves leave.
pub run-Delivered :
    (id : ℕ) (payload : Str) (ms : List Move) → Delivered payload ms (run (opened id payload) ms)
unfolding opened
run-Delivered id payload ms = run-Carried (opened id payload) ms
