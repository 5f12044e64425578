-- ===== src/RateLimit/Tests.antt =====
-- The rate limiter at concrete inputs.
use feature_flags_control_pl.Shared.{
  ℕ, ◌+◌, ◌-◌, ◌*◌, ◌≤◌, ◌≡◌, refl, true, List, [], ◌∷◌, Str, lit, arith, Dict, lookup, insert,
  str_eq, is_empty,
}
use feature_flags_control_pl.Shared.Int.{ℤ, pos, ◌+ℤ◌, ◌-ℤ◌, ◌*ℤ◌}
use feature_flags_control_pl.RateLimit.{
  new_bucket, refill, take_token, find_bucket, bucket_key, allow, rate_limit_scope_key, is_seen,
  resolve_keys, resolve_rate_limit,
}
use feature_flags_control_pl.RateLimit.Scopes.{first_configured, resolve_rate_limit-first}
use feature_flags_control_pl.RateLimit.Buckets.{steady, allowed_count, take_token-after_wait}
use feature_flags_control_pl.RateLimit.Traffic.{Call, served, buckets_after, served-le, end_time}

abbrev half_second : ℕ
half_second = 500000000

abbrev burst : List ℕ
burst = 0 ∷ 1 ∷ 2 ∷ half_second ∷ []

-- Two at once, and one more after half a second at two a second.
three_of_burst : allowed_count (new_bucket (pos 2) 0) (pos 2) burst ≡ 3
unfolding allowed_count take_token new_bucket refill ◌+ℤ◌ ◌-ℤ◌ ◌*ℤ◌
three_of_burst = refl

take_token-after_wait_example : (take_token (steady 2 0 0) half_second (pos 2)).1 ≡ true
take_token-after_wait_example =
    take_token-after_wait 2 0 0 half_second (omega arith) (omega arith) (omega arith)

abbrev call_at : ℕ → Str → Call
call_at t user = record { created = t; now = t; route = lit "/a"; user_id = user; tenant_id = [] }

abbrev alice_key : Str
alice_key = lit "/a:alice:"

abbrev calls : List Call
calls = call_at 0 (lit "alice") ∷ call_at 1 (lit "bob") ∷ call_at 2 (lit "alice") ∷ []

-- Ten seconds later, two calls at once.
abbrev later_calls : List Call
later_calls = call_at 10000000000 (lit "alice") ∷ call_at 10000000000 (lit "alice") ∷ []

served-le_example :
    served alice_key (buckets_after [] (pos 1) calls) (pos 1) later_calls * 1000000000
    ≤ 1 * (1000000000 + (end_time 10000000000 later_calls - 10000000000))
served-le_example =
    served-le 1 0 10000000000 alice_key calls later_calls (omega arith) (omega arith) (omega arith)

one_of_alice : served alice_key [] (pos 1) calls ≡ 1
unfolding served allow find_bucket bucket_key take_token new_bucket refill lookup insert str_eq ◌+ℤ◌
    ◌-ℤ◌ ◌*ℤ◌
one_of_alice = refl

abbrev limits : Dict ℤ
limits = (lit "/a", pos 10) ∷ (lit "/a|alice|", pos 3) ∷ []

resolve_rate_limit-first_example :
    resolve_rate_limit (lit "/a") (lit "alice") (lit "acme") limits
    ≡ first_configured
        (rate_limit_scope_key (lit "/a") (lit "alice") (lit "acme")
          ∷ rate_limit_scope_key (lit "/a") (lit "alice") []
          ∷ rate_limit_scope_key (lit "/a") [] (lit "acme")
          ∷ lit "/a"
          ∷ [])
        limits
resolve_rate_limit-first_example =
    resolve_rate_limit-first (lit "/a") (lit "alice") (lit "acme") limits

alice_limit : (resolve_rate_limit (lit "/a") (lit "alice") (lit "acme") limits).limit ≡ pos 3
unfolding resolve_rate_limit resolve_keys rate_limit_scope_key is_seen is_empty lookup str_eq
alice_limit = refl
