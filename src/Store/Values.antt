-- ===== src/Store/Values.antt =====
-- control-plane/configstore.go: the values of the Redis protocol, `any` in the source, the store's
-- errors, and the two functions that take a SCAN answer apart.
use feature_flags_control_pl.Shared.{List, [], ◌∷◌, Str}
use feature_flags_control_pl.Shared.Int.{ℤ}

mutual
  pub data Value : Type 0 where
    nothing : Value
    text : Str → Value
    number : ℤ → Value
    items : Items → Value

  pub data Items : Type 0 where
    nil : Items
    cons : Value → Items → Items

-- The array of the texts `parts`.
unfoldable pub texts : List Str → Items
texts [] = nil
texts (p ∷ parts) = cons (text p) (texts parts)

pub data Error : Type 0 where
  exchange_failed write_failed : Error
  key_not_found : Str → Error
  unexpected_type : Str → Error
  unexpected_array unexpected_member unexpected_scan unexpected_cursor : Error

pub data Result {ℓ} (A : Type ℓ) : Type ℓ where
  ok : A → Result A
  err : Error → Result A

infixl 5 ◌>>=◌
abbrev pub ◌>>=◌ {ℓ κ} : {A : Type ℓ} {B : Type κ} → Result A → (A → Result B) → Result B
ok a >>= f = f a
err e >>= f = err e

-- The loop of `redisStringSlice`: a missing member is skipped, any other must be a text.
unfoldable pub string_members : Items → Result (List Str)
string_members nil = ok []
string_members (cons nothing vs) = string_members vs
string_members (cons (text s) vs) = do rest ← string_members vs; ok (s ∷ rest)
string_members (cons _ vs) = err unexpected_member

unfoldable pub redis_string_slice : Value → Result (List Str)
redis_string_slice nothing = ok []
redis_string_slice (items vs) = string_members vs
redis_string_slice _ = err unexpected_array

unfoldable pub scan_parts : Value → Value → Result (Str × List Str)
scan_parts (text cursor) keys = do ks ← redis_string_slice keys; ok (cursor, ks)
scan_parts _ keys = err unexpected_cursor

unfoldable pub redis_scan_response : Value → Result (Str × List Str)
redis_scan_response (items (cons cursor (cons keys nil))) = scan_parts cursor keys
redis_scan_response _ = err unexpected_scan
