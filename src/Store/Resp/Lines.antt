-- ===== src/Store/Resp/Lines.antt =====
-- Lines, numbers and payloads of the Redis protocol, written and read back.
use feature_flags_control_pl.Shared.{
  ℕ, zero, suc, ◌+◌, ◌*◌, ◌-◌, ◌/◌, ◌%◌, ◌^◌, ◌≤◌, ◌<◌, ◌≡◌, refl, sym, ap, subst, ◌∙◌, true, false,
  some, [], ◌∷◌, ◌++◌, Str, arith, All, Bool-cases, inl, inr, is_empty, trim_suffix,
  trim_prefix-append, take, length, ltb, if◌then◌else◌,
}
use mathlib.Core.List.{reverse, reverse-append, reverse-reverse}
use feature_flags_control_pl.Shared.Int.{pos, negsuc}
use feature_flags_control_pl.Store.Values.{nothing, text}
use feature_flags_control_pl.Store.Resp.{
  done, digits, positive, negative, unsigned, atoi, split_line, read_resp_line, read_full,
  read_bulk, read_kind, read_resp, decimal_from, decimal,
}

abbrev Digit : ℕ → Type 0
Digit c = (48 ≤ c) × (c ≤ 57)

-- Behind the newline in the order of bytes.
abbrev pub Inline : ℕ → Type 0
Inline c = 11 ≤ c

Digits-Inline : (s : Str) → All Digit s → All Inline s
Digits-Inline [] h = tt
Digits-Inline (c ∷ s) (d, h) = (omega arith, Digits-Inline s h)

digits-cons : (m d : ℕ) (acc : Str) → d < 10 → digits m ((48 + d) ∷ acc) ≡ digits (m * 10 + d) acc
unfolding digits
digits-cons m d acc h =
    let same : (48 + d) - 48 ≡ d = omega arith in
    let value = ap (λ x. digits (m * 10 + x) acc) same in ground (arith, value)

decimal_from-digits : (f n : ℕ) (acc : Str) → n ≤ f → digits 0 (decimal_from f n acc) ≡ digits n acc
unfolding decimal_from
decimal_from-digits zero n acc h =
    digits-cons 0 (n % 10) acc (omega arith) ∙ ap (λ m. digits m acc) (omega arith)
decimal_from-digits (suc f) n acc h =
    let rest = decimal_from-digits f (n / 10) ((48 + n % 10) ∷ acc) (omega arith) in
    let last = digits-cons (n / 10) (n % 10) acc (omega arith) in
    let one = digits-cons 0 (n % 10) acc (omega arith) in
    let whole : (n / 10) * 10 + n % 10 ≡ n = omega arith in
    let found = rest ∙ last ∙ ap (λ m. digits m acc) whole in
    elim (Bool-cases (ltb n 10)) [
      | inl small ↦ rw small (one ∙ ap (λ m. digits m acc) (ground arith))
      | inr large ↦ rw large found
    ]

decimal_from-All : (f n : ℕ) (acc : Str) → All Digit acc → All Digit (decimal_from f n acc)
unfolding decimal_from
decimal_from-All zero n acc h = ((omega arith, omega arith), h)
decimal_from-All (suc f) n acc h =
    let more = decimal_from-All f (n / 10) ((48 + n % 10) ∷ acc) ((omega arith, omega arith), h) in
    elim (ltb n 10)
      as (λ b.
        All Digit
          (if b then (48 + n % 10) ∷ acc else decimal_from f (n / 10) ((48 + n % 10) ∷ acc))) [
            | true ↦ ((omega arith, omega arith), h)
            | false ↦ more
          ]

decimal_from-cons : (f n : ℕ) (acc : Str) → (c : ℕ) × (s : Str) × (decimal_from f n acc ≡ c ∷ s)
unfolding decimal_from
decimal_from-cons zero n acc = (48 + n % 10, acc, refl)
decimal_from-cons (suc f) n acc =
    let more = decimal_from-cons f (n / 10) ((48 + n % 10) ∷ acc) in
    elim (ltb n 10)
      as (λ b.
        (c : ℕ) × (s : Str) × ((if b
            then (48 + n % 10) ∷ acc
            else decimal_from f (n / 10) ((48 + n % 10) ∷ acc))
          ≡ c ∷ s)) [ true ↦ (48 + n % 10, acc, refl) | false ↦ more ]

atoi-digits : (c : ℕ) (s : Str) → Digit c → atoi (c ∷ s) ≡ positive (digits 0 (c ∷ s))
unfolding atoi unsigned is_empty
atoi-digits c s h = ground arith

split_line-ended :
    (line rest : Str)
    → All Inline line
    → split_line (line ++ 13 ∷ 10 ∷ rest) ≡ some (line ++ 13 ∷ [], rest)
unfolding split_line
split_line-ended [] rest h = refl
split_line-ended (c ∷ line) rest (d, h) = ground (arith, split_line-ended line rest h)

trim_cr : (line : Str) → trim_suffix (line ++ 13 ∷ []) (13 ∷ []) ≡ line
unfolding trim_suffix
trim_cr line =
    rw (reverse-append line (13 ∷ []))
      (rw (trim_prefix-append (13 ∷ []) (reverse line)) (reverse-reverse line))

-- `line`, its end and what follows.
abbrev pub ended : Str → Str → Str
ended line rest = line ++ 13 ∷ 10 ∷ rest

read_resp_line-ended :
    (line rest : Str) → All Inline line → read_resp_line (ended line rest) ≡ some (line, rest)
unfolding read_resp_line
read_resp_line-ended line rest h =
    rw (read_resp_line, split_line-ended line rest h) (ap (λ l. some (l, rest)) (trim_cr line))

decimal-All : (n : ℕ) → All Digit (decimal n)
unfolding decimal
decimal-All n = decimal_from-All n n [] tt

pub atoi-decimal : (n : ℕ) → n ≤ 2 ^ 63 - 1 → atoi (decimal n) ≡ some (pos n)
unfolding decimal digits positive
atoi-decimal n h =
    let (c, s, e) = decimal_from-cons n n [] in
    let value : digits 0 (decimal_from n n []) ≡ some n =
      decimal_from-digits n n [] (omega arith) in
    let d : Digit c = (subst (All Digit) e (decimal-All n)).0 in
    let read = atoi-digits c s d in
    ap atoi e ∙ read ∙ ap positive (ap (digits 0) (sym e) ∙ value) ∙ ground arith

read_full-append :
    (s rest : Str) → read_full (length s + 2) (s ++ 13 ∷ 10 ∷ rest) ≡ some (s ++ 13 ∷ 10 ∷ [], rest)
unfolding read_full
read_full-append [] rest = refl
read_full-append (c ∷ s) rest =
    let one : read_full (suc (length s + 2)) (c ∷ s ++ 13 ∷ 10 ∷ rest)
        ≡ some (c ∷ s ++ 13 ∷ 10 ∷ [], rest) =
      rw (read_full, read_full-append s rest) refl in
    let same : length (c ∷ s) + 2 ≡ suc (length s + 2) = omega arith in
    ap (λ k. read_full k (c ∷ s ++ 13 ∷ 10 ∷ rest)) same ∙ one

take-append : (s t : Str) → take (length s) (s ++ t) ≡ s
take-append [] t = refl
take-append (c ∷ s) t = ap (λ x. c ∷ x) (take-append s t)

pub read_bulk-sent :
    (s rest : Str)
    → length s + 2 ≤ 2 ^ 63 - 1
    → read_bulk (some (pos (length s))) (s ++ 13 ∷ 10 ∷ rest) ≡ done (text s) rest
unfolding read_bulk
read_bulk-sent s rest h =
    let cut = ap (λ t. done (text t) rest) (take-append s (13 ∷ 10 ∷ [])) in
    rw (read_full-append s rest) (ground (arith, cut))

-- The read of a value whose line has no newline.
pub read_resp-line :
    (fuel prefix : ℕ) (line rest : Str)
    → All Inline line
    → read_resp (suc fuel) (prefix ∷ ended line rest) ≡ read_kind (read_resp fuel) prefix line rest
unfolding read_resp
read_resp-line fuel prefix line rest h = rw (read_resp, read_resp_line-ended line rest h) refl

pub decimal-Inline : (n : ℕ) → All Inline (decimal n)
decimal-Inline n = Digits-Inline (decimal n) (decimal-All n)

pub atoi-negative : (n : ℕ) → n ≤ 2 ^ 63 - 1 → atoi (45 ∷ decimal (suc n)) ≡ some (negsuc n)
unfolding atoi unsigned is_empty negative decimal digits
atoi-negative n h =
    let (c, s, e) = decimal_from-cons (suc n) (suc n) [] in
    let value : digits 0 (decimal_from (suc n) (suc n) []) ≡ some (suc n) =
      decimal_from-digits (suc n) (suc n) [] (omega arith) in
    ap (λ x. negative (unsigned x)) e ∙ ap negative (ap (digits 0) (sym e) ∙ value) ∙ ground arith

pub read_bulk-nothing : (rest : Str) → read_bulk (atoi (45 ∷ 49 ∷ [])) rest ≡ done nothing rest
unfolding read_bulk atoi unsigned is_empty negative digits
read_bulk-nothing rest = refl
