-- ===== src/Store/Resp.antt =====
-- control-plane/configstore.go, `readRESP` and `readRESPLine`: a value of the Redis protocol, read from
-- the bytes of the connection; and the bytes that `redisCommand` writes. The reads of nested arrays take fuel, and memory is taken as unlimited.
pub mod Lines
pub mod Sent
pub mod Ends
use feature_flags_control_pl.Shared.{
  ℕ, zero, suc, ◌+◌, ◌*◌, ◌-◌, ◌/◌, ◌%◌, ◌^◌, Bool, true, false, ◌&&◌, Option, none, some, List, [],
  ◌∷◌, Str, lit, is_empty, trim_suffix, take, length, ◌++◌, ltb, leb, ◌==◌, if◌then◌else◌,
}
use feature_flags_control_pl.Shared.Int.{ℤ, pos, negsuc}
use feature_flags_control_pl.Store.Values.{Value, nothing, text, number, items, Items, nil, cons}

-- What a read comes to: a result and the bytes that are left, an error, a panic, or no fuel.
pub data Read (A : Type 0) : Type 0 where
  done : A → Str → Read A
  failed panicked exhausted : Read A

-- strconv.Atoi on int64
pub digits : ℕ → Str → Option ℕ
digits n [] = some n
digits n (c ∷ s) =
    let rest = digits (n * 10 + (c - 48)) s in if leb 48 c && leb c 57 then rest else none

pub positive : Option ℕ → Option ℤ
positive none = none
positive (some n) = if leb n (2 ^ 63 - 1) then some (pos n) else none

pub negative : Option ℕ → Option ℤ
negative none = none
negative (some zero) = some (pos 0)
negative (some (suc n)) = if leb n (2 ^ 63 - 1) then some (negsuc n) else none

pub unsigned : Str → Option ℕ
unsigned s = if is_empty s then none else digits 0 s

pub atoi : Str → Option ℤ
atoi [] = none
atoi (c ∷ s) =
    if c == 45
    then negative (unsigned s)
    else if c == 43
    then positive (unsigned s)
    else positive (unsigned (c ∷ s))

-- `r.ReadString('\n')`, without the newline
pub split_line : Str → Option (Str × Str)
split_line [] = none
split_line (b ∷ s) =
    let later : Option (Str × Str) = elim (split_line s) [
      | none ↦ none
      | some (line, rest) ↦ some (b ∷ line, rest)
    ] in
    if b == 10 then some ([], s) else later

pub read_resp_line : Str → Option (Str × Str)
read_resp_line s = elim (split_line s) [
  | none ↦ none
  | some (line, rest) ↦ some (trim_suffix line (13 ∷ []), rest)
]

-- `io.ReadFull(r, payload)`
pub read_full : ℕ → Str → Option (Str × Str)
read_full zero s = some ([], s)
read_full (suc n) [] = none
read_full (suc n) (b ∷ s) = elim (read_full n s) [
  | none ↦ none
  | some (payload, rest) ↦ some (b ∷ payload, rest)
]

-- Behind a `$` line. A length below -1 panics, in `make` or in the slice of the payload, and so does
-- one that `length+2` carries over the largest int.
pub read_bulk : Option ℤ → Str → Read Value
read_bulk none s = failed
read_bulk (some (negsuc zero)) s = done nothing s
read_bulk (some (negsuc (suc _))) s = panicked
read_bulk (some (pos n)) s =
    let whole : Read Value = elim (read_full (n + 2) s) [
      | none ↦ failed
      | some (payload, rest) ↦ done (text (take n payload)) rest
    ] in
    if leb (n + 2) (2 ^ 63 - 1) then whole else panicked

pub after_item : Value → Read Items → Read Items
after_item v (done vs rest) = done (cons v vs) rest
after_item v r = r

pub read_items : (Str → Read Value) → ℕ → Str → Read Items
read_items read zero s = done nil s
read_items read (suc n) s = elim (read s) [
  | done v rest ↦ after_item v (read_items read n rest)
  | failed ↦ failed
  | panicked ↦ panicked
  | exhausted ↦ exhausted
]

pub as_array : Read Items → Read Value
as_array (done vs rest) = done (items vs) rest
as_array failed = failed
as_array panicked = panicked
as_array exhausted = exhausted

-- Behind a `*` line. A count below -1 panics in `make`.
pub read_array : (Str → Read Value) → Option ℤ → Str → Read Value
read_array read none s = failed
read_array read (some (negsuc zero)) s = done nothing s
read_array read (some (negsuc (suc _))) s = panicked
read_array read (some (pos n)) s = as_array (read_items read n s)

pub read_number : Option ℤ → Str → Read Value
read_number none s = failed
read_number (some z) s = done (number z) s

-- The `switch` on the prefix byte.
pub read_kind : (Str → Read Value) → ℕ → Str → Str → Read Value
read_kind read prefix line s =
    if prefix == 43
    then done (text line) s
    else if prefix == 45
    then failed
    else if prefix == 58
    then read_number (atoi line) s
    else if prefix == 36
    then read_bulk (atoi line) s
    else if prefix == 42
    then read_array read (atoi line) s
    else failed

pub read_resp : ℕ → Str → Read Value
read_resp zero s = exhausted
read_resp (suc fuel) [] = failed
read_resp (suc fuel) (prefix ∷ s) = elim (read_resp_line s) [
  | none ↦ failed
  | some (line, rest) ↦ read_kind (read_resp fuel) prefix line rest
]

-- `%d` of a length: the decimal digits of `n`, in front of `acc`.
pub decimal_from : ℕ → ℕ → Str → Str
decimal_from zero n acc = (48 + n % 10) ∷ acc
decimal_from (suc f) n acc =
    let more = decimal_from f (n / 10) ((48 + n % 10) ∷ acc) in
    if ltb n 10 then (48 + n % 10) ∷ acc else more

pub decimal : ℕ → Str
decimal n = decimal_from n n []

-- The parts of a command, as `redisCommand` writes them, in front of `rest`.
pub arguments : List Str → Str → Str
arguments [] rest = rest
arguments (part ∷ parts) rest =
    36 ∷ (decimal (length part) ++ 13 ∷ 10 ∷ (part ++ 13 ∷ 10 ∷ arguments parts rest))

pub command_bytes : List Str → Str → Str
command_bytes parts rest = 42 ∷ (decimal (length parts) ++ 13 ∷ 10 ∷ arguments parts rest)
