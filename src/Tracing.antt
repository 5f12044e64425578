-- ===== src/Tracing.antt =====
-- control-plane/tracing.go: spans and the line that is logged for each. A trace id, a time and the
-- texts of package fmt are arguments: `quoted` is the verb %q.
pub mod Traces
use feature_flags_control_pl.Shared.{
  ℕ, ◌-◌, Option, none, some, List, [], ◌∷◌, ◌++◌, Str, lit, Dict, insert, ltb, if◌then◌else◌, ◌+◌,
  ◌/◌, ◌%◌,
}

pub record Span : Type 0 where
  pub trace_id : Str
  pub name : Str
  pub start : ℕ
  pub attrs : Dict Str

-- A context holds at most the span that was started last in it.
abbrev pub Context : Type 0
Context = Option Span

-- `hex.EncodeToString(b)`
pub hex_digit : ℕ → ℕ
hex_digit n = if ltb n 10 then 48 + n else 87 + n

unfoldable pub hex : List ℕ → Str
hex [] = []
hex (b ∷ bytes) = hex_digit (b / 16) ∷ hex_digit (b % 16) ∷ hex bytes

-- `newTraceID`, with the random bytes
pub new_trace_id : List ℕ → Str
new_trace_id random = hex random

-- `Tracer.Start`: the span, which is also the new context's.
unfoldable pub start_span : Context → List ℕ → Str → ℕ → Span
start_span ctx random name now = record {
  trace_id = elim ctx [ none ↦ new_trace_id random | some parent ↦ parent.trace_id ];
  name = name;
  start = now;
  attrs = [];
}

unfoldable pub set_all : List (Str × Str) → Dict Str → Dict Str
set_all [] attrs = attrs
set_all ((k, v) ∷ more) attrs = set_all more (insert k v attrs)

unfoldable pub set_attributes : Span → List (Str × Str) → Span
set_attributes s attrs = record s { attrs = set_all attrs s.attrs }

module _ (quoted : Str → Str) (duration_text : ℕ → Str) where
  pub attr_text : Dict Str → Str
  attr_text [] = []
  attr_text ((k, v) ∷ attrs) = 32 ∷ (k ++ (61 ∷ (quoted v ++ attr_text attrs)))

  -- The line that `End` logs.
  pub end_line : Span → ℕ → Str
  end_line s now =
      lit "[trace] id="
      ++ (s.trace_id
          ++ (lit " span="
              ++ (quoted s.name
                  ++ (lit " duration=" ++ (duration_text (now - s.start) ++ attr_text s.attrs)))))
