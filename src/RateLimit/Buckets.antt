-- ===== src/RateLimit/Buckets.antt =====
-- Token buckets: how many requests a bucket lets through.
use Prim.Native.Nat.{min}
use feature_flags_control_pl.Shared.{
  ℕ, suc, ◌+◌, ◌-◌, ◌*◌, ◌≤◌, ◌≡◌, ◌≢◌, leb, leb→le, ap, inl, inr, true, false, List, [], ◌∷◌, Str,
  arith, Dict, lookup, lookup-insert_ne, if◌then◌else◌, Bool-cases,
}
use feature_flags_control_pl.Shared.Int.{ℤ, pos, ◌+ℤ◌, ◌-ℤ◌, ◌*ℤ◌, ◌≤ℤ◌, ◌<ℤ◌, int_laws}
use feature_flags_control_pl.RateLimit.{
  TokenBucket, token, new_bucket, refill, take_token, bucket_key, find_bucket, allow,
}

-- Whatever the bucket holds, it never holds more than the limit after a refill.
refill-le : (b : TokenBucket) (now : ℕ) (limit : ℤ) → refill b now limit ≤ℤ limit *ℤ token
unfolding refill
refill-le b now limit = ground (arith)

-- A limit of 0 or less lets no request through, whatever the bucket held before.
pub take_token-nonpositive :
    (b : TokenBucket) (now : ℕ) (limit : ℤ) → limit ≤ℤ pos 0 → (take_token b now limit).1 ≡ false
unfolding take_token
take_token-nonpositive b now limit h =
    let cap : refill b now limit <ℤ token = omega (int_laws, refill-le b now limit) in ground arith

-- A bucket that serves the limit `n`, with `k` billionths of a token, last refilled at `l`.
abbrev pub steady : ℕ → ℕ → ℕ → TokenBucket
steady n k l = record { tokens = pos k; last_refill = l; rate = pos n; capacity = pos n }

-- What it holds at `now`.
abbrev pub level : ℕ → ℕ → ℕ → ℕ → ℕ
level n k l now = min (n * 1000000000) (k + (now - l) * n)

*ℤ-pos : (a b : ℕ) → pos a *ℤ pos b ≡ pos (a * b)
unfolding ◌*ℤ◌
*ℤ-pos a b = ground arith

sub-pos : (a b : ℕ) → b ≤ a → pos a -ℤ pos b ≡ pos (a - b)
unfolding ◌-ℤ◌
sub-pos a b h = ground arith

+ℤ-pos : (a b : ℕ) → pos a +ℤ pos b ≡ pos (a + b)
unfolding ◌+ℤ◌
+ℤ-pos a b = ground arith

refill-steady :
    (n k l now : ℕ) → l ≤ now → refill (steady n k l) now (pos n) ≡ pos (level n k l now)
unfolding refill
refill-steady n k l now h =
    rw (sub-pos now l h, *ℤ-pos (now - l) n, +ℤ-pos k ((now - l) * n), *ℤ-pos n 1000000000)
      (ground arith)

take_token-steady :
    (n k l now : ℕ)
    → l ≤ now
    → take_token (steady n k l) now (pos n) ≡ (
        if leb 1000000000 (level n k l now)
        then (steady n (level n k l now - 1000000000) now, true)
        else (steady n (level n k l now) now, false))
unfolding take_token
take_token-steady n k l now h =
    rw (refill-steady n k l now h) (ground (arith, sub-pos (level n k l now) 1000000000))

-- One request leaves a steady bucket, which has paid for the request out of what the bucket holds after
-- the refill.
pub take_token_spends :
    (n k l now : ℕ)
    → l ≤ now
    → (m : ℕ) × ((take_token (steady n k l) now (pos n)).0 ≡ steady n m now)
      × (m + (if (take_token (steady n k l) now (pos n)).1 then 1000000000 else 0)
          ≤ level n k l now)
take_token_spends n k l now h =
    rw (take_token-steady n k l now h) (elim (Bool-cases (leb 1000000000 (level n k l now))) [
      | inl e ↦ (
        level n k l now - 1000000000,
        rw e,
        rw e (omega (arith, leb→le 1000000000 (level n k l now) e)),
      )
      | inr e ↦ (level n k l now, rw e, rw e (omega arith))
    ])

-- A fresh bucket is full.
pub new_bucket-steady : (n l : ℕ) → new_bucket (pos n) l ≡ steady n (n * 1000000000) l
unfolding new_bucket
new_bucket-steady n l = rw (*ℤ-pos n 1000000000)

-- The requests at the given times, in order: how many are let through.
unfoldable pub allowed_count : TokenBucket → ℤ → List ℕ → ℕ
allowed_count b limit [] = 0
allowed_count b limit (t ∷ ts) =
    let (b', ok) = take_token b t limit in
    let rest = allowed_count b' limit ts in if ok then suc rest else rest

-- The times do not run backwards, beginning at `l`, and `last_time` is the last of them.
abbrev pub Ascending : ℕ → List ℕ → Type 0
Ascending l [] = Unit
Ascending l (t ∷ ts) = (l ≤ t) × Ascending t ts

abbrev pub last_time : ℕ → List ℕ → ℕ
last_time l [] = l
last_time l (t ∷ ts) = last_time t ts

last_time-ge : (l : ℕ) (ts : List ℕ) → Ascending l ts → l ≤ last_time l ts
last_time-ge l [] h = omega arith
last_time-ge l (t ∷ ts) h = omega (arith, last_time-ge t ts h.1)

pub split_span : (a b c n : ℕ) → a ≤ b → b ≤ c → (c - a) * n ≡ (c - b) * n + (b - a) * n
split_span a b c n h k =
    let e : c - a ≡ (c - b) + (b - a) = omega arith in omega (arith, ap (λ x. x * n) e)

allowed_count-steady :
    (n k l : ℕ) (ts : List ℕ)
    → Ascending l ts
    → allowed_count (steady n k l) (pos n) ts * 1000000000 ≤ k + (last_time l ts - l) * n
unfolding allowed_count
allowed_count-steady n k l [] h = omega arith
allowed_count-steady n k l (t ∷ ts) h =
    let (m, next, paid) = take_token_spends n k l t h.0 in
    rw next (
      ground (
        arith,
        split_span l t (last_time t ts) n h.0 (last_time-ge t ts h.1),
        allowed_count-steady n m t ts h.1,
      ))

-- A fresh bucket with the limit `n` lets through, of requests at any times that do not run backwards,
-- at most `n` at once and `n` for each second up to the last request.
pub allowed_count-le :
    (n l : ℕ) (ts : List ℕ)
    → Ascending l ts
    → allowed_count (new_bucket (pos n) l) (pos n) ts * 1000000000
      ≤ n * (1000000000 + (last_time l ts - l))
allowed_count-le n l ts h =
    rw (new_bucket-steady n l) (omega (arith, allowed_count-steady n (n * 1000000000) l ts h))

-- A bucket that serves a limit of at least one and is not overdrawn lets a request through, once the
-- time since its last refill earns a whole token at that limit.
pub take_token-after_wait :
    (n k l now : ℕ)
    → 1 ≤ n
    → l ≤ now
    → 1000000000 ≤ (now - l) * n
    → (take_token (steady n k l) now (pos n)).1 ≡ true
take_token-after_wait n k l now some_limit later earned =
    rw (take_token-steady n k l now later) (ground arith)

-- `Allow` leaves the buckets of all keys but its own as they were.
pub allow-other_key :
    (buckets : Dict TokenBucket) (created now : ℕ) (route user tenant : Str) (limit : ℤ) (key : Str)
    → bucket_key route user tenant ≢ key
    → lookup key (allow buckets created now route user tenant limit).0 ≡ lookup key buckets
unfolding allow
allow-other_key buckets created now route user tenant limit key ne = rw (
    lookup-insert_ne (bucket_key route user tenant) key
      (take_token (find_bucket buckets (bucket_key route user tenant) created limit) now limit).0
      buckets ne)

pub allow-nonpositive :
    (buckets : Dict TokenBucket) (created now : ℕ) (route user tenant : Str) (limit : ℤ)
    → limit ≤ℤ pos 0
    → (allow buckets created now route user tenant limit).1 ≡ false
unfolding allow
allow-nonpositive buckets created now route user tenant limit h =
    take_token-nonpositive (find_bucket buckets (bucket_key route user tenant) created limit) now
      limit h
