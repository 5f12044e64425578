-- ===== src/RateLimit.antt =====
-- control-plane/ratelimit.go, the rate limiter: the scopes in which a limit is configured, and one
-- token bucket for each route, user and tenant. A bucket's tokens are counted in billionths of a
-- token and times in nanoseconds, so that `elapsed * rate` is exact; the source computes them in
-- float64, whose rounding is left out.
pub mod Scopes
pub mod Buckets
pub mod Traffic
mod Tests
use feature_flags_control_pl.Shared.{
  ℕ, ◌+◌, Bool, true, false, ◌&&◌, Option, none, some, List, [], ◌∷◌, ◌++◌, Str, lit, str_eq,
  is_empty, Dict, lookup, insert, if◌then◌else◌,
}
use feature_flags_control_pl.Shared.Int.{ℤ, pos, ◌+ℤ◌, ◌-ℤ◌, ◌*ℤ◌, ltb_ℤ, leb_ℤ}

-- Scopes

unfoldable pub rate_limit_scope_key : Str → Str → Str → Str
rate_limit_scope_key route user_id tenant_id =
    if is_empty user_id && is_empty tenant_id
    then route
    else route ++ (lit "|" ++ (user_id ++ (lit "|" ++ tenant_id)))

-- `_, ok := seen[key]`
unfoldable pub is_seen : Str → List Str → Bool
is_seen key [] = false
is_seen key (s ∷ seen) = let rest = is_seen key seen in if str_eq s key then true else rest

pub record Resolved : Type 0 where
  pub limit : ℤ
  pub configured : Bool
  pub matched_key : Str

-- The loop over the keys, from the most specific one.
unfoldable pub resolve_keys : List Str → List Str → Dict ℤ → Resolved
resolve_keys [] seen limits = record { limit = pos 0; configured = false; matched_key = [] }
resolve_keys (key ∷ keys) seen limits =
    let skip = resolve_keys keys seen limits in
    let rest = resolve_keys keys (key ∷ seen) limits in
    let hit : Resolved = elim (lookup key limits) [
      | none ↦ rest
      | some limit ↦ record { limit = limit; configured = true; matched_key = key }
    ] in
    if is_seen key seen then skip else hit

abbrev pub scope_keys : Str → Str → Str → List Str
scope_keys route user_id tenant_id =
    rate_limit_scope_key route user_id tenant_id
    ∷ rate_limit_scope_key route user_id []
    ∷ rate_limit_scope_key route [] tenant_id
    ∷ rate_limit_scope_key route [] []
    ∷ []

unfoldable pub resolve_rate_limit : Str → Str → Str → Dict ℤ → Resolved
resolve_rate_limit route user_id tenant_id limits =
    resolve_keys (scope_keys route user_id tenant_id) [] limits

-- Buckets

-- `rate` and `capacity` are whole tokens, a second and at most.
pub record TokenBucket : Type 0 where
  pub tokens : ℤ
  pub last_refill : ℕ
  pub rate : ℤ
  pub capacity : ℤ

-- Billionths in one token.
abbrev pub token : ℤ
token = pos 1000000000

unfoldable pub new_bucket : ℤ → ℕ → TokenBucket
new_bucket limit now = record {
  tokens = limit *ℤ token;
  last_refill = now;
  rate = limit;
  capacity = limit;
}

-- `b.tokens` after the refill, the credit for a raised limit and the cap.
unfoldable pub refill : TokenBucket → ℕ → ℤ → ℤ
refill b now limit =
    let earned = b.tokens +ℤ (pos now -ℤ pos b.last_refill) *ℤ b.rate in
    let raised =
      if ltb_ℤ b.capacity limit then earned +ℤ (limit -ℤ b.capacity) *ℤ token else earned in
    if ltb_ℤ (limit *ℤ token) raised then limit *ℤ token else raised

-- The part of `Allow` under the bucket's lock.
unfoldable pub take_token : TokenBucket → ℕ → ℤ → TokenBucket × Bool
take_token b now limit =
    let tokens = refill b now limit in
    let b' = record b { tokens = tokens; rate = limit; capacity = limit; last_refill = now } in
    if leb_ℤ token tokens then (record b' { tokens = tokens -ℤ token }, true) else (b', false)

unfoldable pub bucket_key : Str → Str → Str → Str
bucket_key route user_id tenant_id = route ++ (lit ":" ++ (user_id ++ (lit ":" ++ tenant_id)))

unfoldable pub find_bucket : Dict TokenBucket → Str → ℕ → ℤ → TokenBucket
find_bucket buckets key created limit = elim (lookup key buckets) [
  | none ↦ new_bucket limit created
  | some b ↦ b
]

-- `Allow`. The clock is read once for a new bucket, at `created`, and once under the bucket's lock.
unfoldable pub allow : Dict TokenBucket → ℕ → ℕ → Str → Str → Str → ℤ → Dict TokenBucket × Bool
allow buckets created now route user_id tenant_id limit =
    let key = bucket_key route user_id tenant_id in
    let (b, ok) = take_token (find_bucket buckets key created limit) now limit in
    (insert key b buckets, ok)
