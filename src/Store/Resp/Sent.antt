-- ===== src/Store/Resp/Sent.antt =====
-- Values as a Redis server sends them, read back.
use feature_flags_control_pl.Shared.{
  ℕ, zero, suc, ◌+◌, ◌-◌, ◌^◌, ◌≤◌, ◌<◌, ◌≡◌, refl, sym, ap, ◌∙◌, List, [], ◌∷◌, ◌++◌, Str, arith,
  All, length,
}
use feature_flags_control_pl.Shared.Int.{pos, negsuc}
use feature_flags_control_pl.Store.Values.{
  texts, Value, nothing, text, number, items, Items, nil, cons,
}
use feature_flags_control_pl.Store.Resp.{
  done, after_item, read_items, as_array, read_array, read_number, read_kind, read_resp, decimal,
  command_bytes, arguments,
}
use feature_flags_control_pl.Store.Resp.Lines.{
  ended, read_resp-line, decimal-Inline, atoi-decimal, atoi-negative, read_bulk-sent,
  read_bulk-nothing,
}

-- A value in the encoding of the protocol, with what follows it on the connection.
unfoldable mutual
  pub sent : Value → Str → Str
  sent nothing rest = 36 ∷ 45 ∷ 49 ∷ 13 ∷ 10 ∷ rest
  sent (text s) rest = 36 ∷ ended (decimal (length s)) (s ++ 13 ∷ 10 ∷ rest)
  sent (number (pos n)) rest = 58 ∷ ended (decimal n) rest
  sent (number (negsuc n)) rest = 58 ∷ ended (45 ∷ decimal (suc n)) rest
  sent (items vs) rest = 42 ∷ ended (decimal (count vs)) (all_sent vs rest)

  pub all_sent : Items → Str → Str
  all_sent nil rest = rest
  all_sent (cons v vs) rest = sent v (all_sent vs rest)

  pub count : Items → ℕ
  count nil = 0
  count (cons v vs) = suc (count vs)

-- The sizes and the numbers fit an int64.
unfoldable mutual
  pub Fits : Value → Type 0
  Fits nothing = Unit
  Fits (text s) = length s + 2 ≤ 2 ^ 63 - 1
  Fits (number (pos n)) = n ≤ 2 ^ 63 - 1
  Fits (number (negsuc n)) = n ≤ 2 ^ 63 - 1
  Fits (items vs) = (count vs ≤ 2 ^ 63 - 1) × AllFit vs

  pub AllFit : Items → Type 0
  AllFit nil = Unit
  AllFit (cons v vs) = Fits v × AllFit vs

-- How many arrays stand in a value, itself included.
unfoldable mutual
  pub arrays : Value → ℕ
  arrays nothing = 0
  arrays (text s) = 0
  arrays (number z) = 0
  arrays (items vs) = suc (arrays_in vs)

  pub arrays_in : Items → ℕ
  arrays_in nil = 0
  arrays_in (cons v vs) = arrays v + arrays_in vs

mutual
  unfolding sent Fits arrays read_kind read_number read_array as_array read_items after_item

  value_back :
      (v : Value) (rest : Str) (fuel : ℕ)
      → Fits v
      → arrays v < fuel
      → read_resp fuel (sent v rest) ≡ done v rest
  value_back v rest zero fits h = absurd (omega arith)
  value_back nothing rest (suc fuel) fits h =
      read_resp-line fuel 36 (45 ∷ 49 ∷ []) rest (omega arith, (omega arith, tt))
      ∙ read_bulk-nothing rest
  value_back (text s) rest (suc fuel) fits h =
      read_resp-line fuel 36 (decimal (length s)) (s ++ 13 ∷ 10 ∷ rest) (decimal-Inline (length s))
      ∙ rw (atoi-decimal (length s) (omega arith)) (read_bulk-sent s rest fits)
  value_back (number (pos n)) rest (suc fuel) fits h =
      read_resp-line fuel 58 (decimal n) rest (decimal-Inline n) ∙ rw (atoi-decimal n fits) refl
  value_back (number (negsuc n)) rest (suc fuel) fits h =
      read_resp-line fuel 58 (45 ∷ decimal (suc n)) rest (omega arith, decimal-Inline (suc n))
      ∙ rw (atoi-negative n fits) refl
  value_back (items vs) rest (suc fuel) (few, fits) h =
      read_resp-line fuel 42 (decimal (count vs)) (all_sent vs rest) (decimal-Inline (count vs))
      ∙ rw (atoi-decimal (count vs) few) (rw (items_back vs rest fuel fits (omega arith)) refl)

  items_back :
      (vs : Items) (rest : Str) (fuel : ℕ)
      → AllFit vs
      → arrays_in vs < fuel
      → read_items (read_resp fuel) (count vs) (all_sent vs rest) ≡ done vs rest
  items_back nil rest fuel fits h = refl
  items_back (cons v vs) rest fuel (fit, fits) h =
      rw (read_items, value_back v (all_sent vs rest) fuel fit (omega arith))
        (rw (items_back vs rest fuel fits (omega arith)) refl)

-- A value that a server sends in the encoding of the protocol is read back, and the bytes behind it are
-- left, where the sizes and the numbers in it fit an int64 and the fuel exceeds the number of its arrays.
pub read_resp-sent :
    (v : Value) (rest : Str) (fuel : ℕ)
    → Fits v
    → arrays v < fuel
    → read_resp fuel (sent v rest) ≡ done v rest
read_resp-sent v rest fuel fits h = value_back v rest fuel fits h

count-texts : (parts : List Str) → count (texts parts) ≡ length parts
unfolding texts count
count-texts [] = refl
count-texts (p ∷ parts) = ap suc (count-texts parts)

arrays-texts : (parts : List Str) → arrays_in (texts parts) ≡ 0
unfolding texts arrays
arrays-texts [] = refl
arrays-texts (p ∷ parts) = ground (arith, arrays-texts parts)

texts-AllFit :
    (parts : List Str) → All (λ p. length p + 2 ≤ 2 ^ 63 - 1) parts → AllFit (texts parts)
unfolding texts Fits
texts-AllFit [] h = tt
texts-AllFit (p ∷ parts) (d, h) = (d, texts-AllFit parts h)

arguments-sent :
    (parts : List Str) (rest : Str) → arguments parts rest ≡ all_sent (texts parts) rest
unfolding texts sent arguments
arguments-sent [] rest = refl
arguments-sent (p ∷ parts) rest =
    ap (λ t. 36 ∷ ended (decimal (length p)) (p ++ 13 ∷ 10 ∷ t)) (arguments-sent parts rest)

-- A command as the client writes it, read by the rules of the protocol, is the array of its parts, and
-- the bytes behind it are left, where the sizes fit an int64.
pub read_resp-command :
    (parts : List Str) (rest : Str) (fuel : ℕ)
    → length parts ≤ 2 ^ 63 - 1
    → All (λ p. length p + 2 ≤ 2 ^ 63 - 1) parts
    → 2 ≤ fuel
    → read_resp fuel (command_bytes parts rest) ≡ done (items (texts parts)) rest
unfolding command_bytes sent Fits arrays
read_resp-command parts rest fuel few sizes h =
    let few' : count (texts parts) ≤ 2 ^ 63 - 1 = ground (arith, count-texts parts) in
    let deep : suc (arrays_in (texts parts)) < fuel = ground (arith, arrays-texts parts) in
    let same = value_back (items (texts parts)) rest fuel (few', texts-AllFit parts sizes) deep in
    ap (λ t. read_resp fuel (42 ∷ t))
      (ap (λ n. ended (decimal n) (arguments parts rest)) (sym (count-texts parts))
        ∙ ap (ended (decimal (count (texts parts)))) (arguments-sent parts rest))
    ∙ same
