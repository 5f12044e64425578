-- ===== src/Server/Routing/Segments.antt =====
-- The last segment of a path.
use feature_flags_control_pl.Shared.{
  ℕ, zero, suc, ◌≡◌, refl, sym, ap, ◌∙◌, ◌≢◌, false, [], ◌∷◌, ◌++◌, Str, arith, All, is_empty,
  trim_slashes, ◌==◌, if◌then◌else◌,
}
use mathlib.Core.List.{append_assoc, append-nil}
use feature_flags_control_pl.Server.Routing.{last_part, path_var}

abbrev pub NoSlash : Str → Type 0
NoSlash s = All (λ c. c ≢ 47) s

pub slashes : ℕ → Str
slashes zero = []
slashes (suc n) = 47 ∷ slashes n

trim_slashes-slashes : (n : ℕ) → trim_slashes (slashes n) ≡ []
unfolding trim_slashes slashes is_empty
trim_slashes-slashes zero = refl
trim_slashes-slashes (suc n) = rw (trim_slashes-slashes n) refl

trim_slashes-segment :
    (c : ℕ) (segment : Str) (n : ℕ)
    → c ≢ 47
    → NoSlash segment
    → trim_slashes ((c ∷ segment) ++ slashes n) ≡ c ∷ segment
unfolding trim_slashes is_empty
trim_slashes-segment c [] n h hs = let rest = trim_slashes-slashes n in ground (arith, rest)
trim_slashes-segment c (b ∷ segment) n h (hb, hs) = rw (trim_slashes-segment b segment n hb hs) refl

trim_slashes-behind :
    (s t : Str) → is_empty (trim_slashes t) ≡ false → trim_slashes (s ++ t) ≡ s ++ trim_slashes t
unfolding trim_slashes is_empty
trim_slashes-behind [] t h = refl
trim_slashes-behind (b ∷ []) t h = rw h refl
trim_slashes-behind (b ∷ b2 ∷ s) t h = rw (trim_slashes-behind (b2 ∷ s) t h) refl

last_part-segment :
    (part segment : Str) → NoSlash segment → last_part part segment ≡ part ++ segment
unfolding last_part
last_part-segment part [] h = sym (append-nil part)
last_part-segment part (c ∷ segment) (hc, h) =
    let other : (c == 47) ≡ false = ground arith in
    rw other (last_part-segment (part ++ c ∷ []) segment h ∙ append_assoc part (c ∷ []) segment)

last_part-behind :
    (part dir segment : Str) → NoSlash segment → last_part part (dir ++ 47 ∷ segment) ≡ segment
unfolding last_part
last_part-behind part [] segment h = last_part-segment [] segment h
last_part-behind part (c ∷ dir) segment h =
    last_part-behind (if c == 47 then [] else part ++ c ∷ []) dir segment h

-- Where the mux gives no value, the name is the last segment of the path, whatever the directory in
-- front of it and however many slashes end it.
pub path_var-segment :
    (dir : Str) (c : ℕ) (segment : Str) (n : ℕ)
    → c ≢ 47
    → NoSlash segment
    → path_var [] (dir ++ 47 ∷ ((c ∷ segment) ++ slashes n)) ≡ c ∷ segment
unfolding path_var is_empty
path_var-segment dir c segment n hc h =
    let ended = trim_slashes-segment c segment n hc h in
    let t = (c ∷ segment) ++ slashes n in
    let trimmed =
      ap trim_slashes (sym (append_assoc dir (47 ∷ []) t))
      ∙ trim_slashes-behind (dir ++ 47 ∷ []) t (ap is_empty ended)
      ∙ append_assoc dir (47 ∷ []) (trim_slashes t)
      ∙ ap (λ u. dir ++ 47 ∷ u) ended in
    ap (last_part []) trimmed ∙ last_part-behind [] dir (c ∷ segment) (hc, h)
