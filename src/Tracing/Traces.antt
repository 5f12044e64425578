-- ===== src/Tracing/Traces.antt =====
-- Spans of one trace, and the last value of an attribute.
use feature_flags_control_pl.Shared.{
  ℕ, ◌≡◌, refl, ap, ◌∙◌, Option, some, List, [], ◌∷◌, Str, Dict, lookup, insert, lookup-insert,
  str_eq, All, if◌then◌else◌,
}
use feature_flags_control_pl.Tracing.{Span, Context, start_span, set_all, set_attributes}

-- Spans started one in the context of the other, outermost first.
pub nested : Context → List (List ℕ × Str × ℕ) → List Span
nested ctx [] = []
nested ctx ((random, name, now) ∷ more) =
    let s = start_span ctx random name now in s ∷ nested (some s) more

-- All spans below a span belong to its trace, however deep they are nested.
pub nested-trace :
    (parent : Span) (starts : List (List ℕ × Str × ℕ))
    → All (λ s. s.trace_id ≡ parent.trace_id) (nested (some parent) starts)
unfolding nested start_span
nested-trace parent [] = tt
nested-trace parent ((random, name, now) ∷ more) =
    (refl, nested-trace (start_span (some parent) random name now) more)

-- The value that the last of the pairs for a key gives it.
pub last_value : Str → List (Str × Str) → Option Str → Option Str
last_value k [] held = held
last_value k ((j, v) ∷ more) held = last_value k more (if str_eq j k then some v else held)

set_all-last :
    (k : Str) (attrs : List (Str × Str)) (held : Dict Str)
    → lookup k (set_all attrs held) ≡ last_value k attrs (lookup k held)
unfolding set_all last_value
set_all-last k [] held = refl
set_all-last k ((j, v) ∷ more) held =
    set_all-last k more (insert j v held) ∙ ap (last_value k more) (lookup-insert j k v held)

-- An attribute has the value that was set last, and one that was not set keeps what it had.
pub set_attributes-last :
    (s : Span) (k : Str) (attrs : List (Str × Str))
    → lookup k (set_attributes s attrs).attrs ≡ last_value k attrs (lookup k s.attrs)
unfolding set_attributes
set_attributes-last s k attrs = set_all-last k attrs s.attrs
