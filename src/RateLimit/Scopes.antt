-- ===== src/RateLimit/Scopes.antt =====
-- Which configured limit a request meets.
use feature_flags_control_pl.Shared.{
  ◌≡◌, refl, sym, ap, ◌∙◌, ◌≢◌, inl, inr, true, false, none, some, List, [], ◌∷◌, ◌++◌, arith, Str,
  str_eq_iff, is_empty, Dict, lookup, insert, lookup-insert_self, lookup-insert_ne, ◌==◌,
  if◌then◌else◌, Bool-cases, Option-cases, All,
}
use feature_flags_control_pl.Shared.Int.{ℤ, pos}
use feature_flags_control_pl.RateLimit.{
  Resolved, rate_limit_scope_key, is_seen, resolve_keys, scope_keys, resolve_rate_limit,
}

-- The first key that has a limit, with no record of the keys already tried.
pub first_configured : List Str → Dict ℤ → Resolved
first_configured [] limits = record { limit = pos 0; configured = false; matched_key = [] }
first_configured (key ∷ keys) limits =
    let rest = first_configured keys limits in
    elim (lookup key limits) [
      | none ↦ rest
      | some limit ↦ record { limit = limit; configured = true; matched_key = key }
    ]

abbrev Unset : Dict ℤ → List Str → Type 0
Unset limits keys = All (λ k. lookup k limits ≡ none) keys

is_seen-Unset :
    (key : Str) (seen : List Str) (limits : Dict ℤ)
    → Unset limits seen
    → is_seen key seen ≡ true
    → lookup key limits ≡ none
unfolding is_seen
is_seen-Unset key [] limits u h = cc
is_seen-Unset key (s ∷ seen) limits u h =
    ground (arith, str_eq_iff s key, is_seen-Unset key seen limits u.1)

resolve_keys-first :
    (keys seen : List Str) (limits : Dict ℤ)
    → Unset limits seen
    → resolve_keys keys seen limits ≡ first_configured keys limits
unfolding resolve_keys first_configured
resolve_keys-first [] seen limits u = refl
resolve_keys-first (key ∷ keys) seen limits u = elim (Bool-cases (is_seen key seen)) [
  | inl old ↦
      ground (arith, is_seen-Unset key seen limits u old, resolve_keys-first keys seen limits u)
  | inr new ↦ elim (Option-cases (lookup key limits)) [
    | inl miss ↦ ground (arith, resolve_keys-first keys (key ∷ seen) limits (miss, u))
    | inr (limit, hit) ↦ ground arith
  ]
]

-- The limit that a request meets is the first configured one among the scopes of its route, user and
-- tenant; its route and user; its route and tenant; and its route, in this order. Without any it is
-- reported as not configured, with the limit 0 and no key.
pub resolve_rate_limit-first :
    (route user tenant : Str) (limits : Dict ℤ)
    → resolve_rate_limit route user tenant limits
      ≡ first_configured
          (rate_limit_scope_key route user tenant
            ∷ rate_limit_scope_key route user []
            ∷ rate_limit_scope_key route [] tenant
            ∷ route
            ∷ [])
          limits
unfolding resolve_rate_limit
resolve_rate_limit-first route user tenant limits =
    rw (resolve_keys-first (scope_keys route user tenant) [] limits tt)
      (unfold rate_limit_scope_key is_empty in refl)

first_configured-hit :
    (key : Str) (keys : List Str) (limits : Dict ℤ) {n : ℤ}
    → lookup key limits ≡ some n
    → first_configured (key ∷ keys) limits
      ≡ record { limit = n; configured = true; matched_key = key }
unfolding first_configured
first_configured-hit key keys limits h = ground arith

-- A limit that is set for a scope is the limit of every later request of just that route, user and
-- tenant, whatever limits were there.
pub resolve-set_own :
    (route user tenant : Str) (n : ℤ) (limits : Dict ℤ)
    → let key = rate_limit_scope_key route user tenant in
      resolve_rate_limit route user tenant (insert key n limits)
      ≡ record { limit = n; configured = true; matched_key = key }
resolve-set_own route user tenant n limits = rw resolve_rate_limit-first (
    first_configured-hit _ _ _
      (lookup-insert_self (rate_limit_scope_key route user tenant) n limits))

-- No bar in the text.
abbrev pub NoBar : Str → Type 0
NoBar s = All (λ b. (b == 124) ≡ false) s

-- The text up to the first bar.
before_bar : Str → Str
before_bar [] = []
before_bar (a ∷ s) = let rest = before_bar s in if a == 124 then [] else a ∷ rest

before_bar-plain : (s : Str) → NoBar s → before_bar s ≡ s
unfolding before_bar
before_bar-plain [] h = refl
before_bar-plain (a ∷ s) h = ground (arith, before_bar-plain s h.1)

before_bar-cut : (s t : Str) → NoBar s → before_bar (s ++ 124 ∷ t) ≡ s
unfolding before_bar
before_bar-cut [] t h = refl
before_bar-cut (a ∷ s) t h = ground (arith, before_bar-cut s t h.1)

before_bar-scope : (r u t : Str) → NoBar r → before_bar (rate_limit_scope_key r u t) ≡ r
unfolding rate_limit_scope_key
before_bar-scope r u t h = ground (arith, before_bar-plain r h, before_bar-cut r (u ++ (124 ∷ t)) h)

scope_ne :
    (r r' u u' t t' : Str)
    → NoBar r
    → NoBar r'
    → r ≢ r'
    → rate_limit_scope_key r u t ≢ rate_limit_scope_key r' u' t'
scope_ne r r' u u' t t' h h' ne e =
    ne (sym (before_bar-scope r u t h) ∙ (ap before_bar e ∙ before_bar-scope r' u' t' h'))

first_configured-other :
    (key : Str) (n : ℤ) (limits : Dict ℤ) (keys : List Str)
    → All (λ k. key ≢ k) keys
    → first_configured keys (insert key n limits) ≡ first_configured keys limits
unfolding first_configured
first_configured-other key n limits [] h = refl
first_configured-other key n limits (k ∷ keys) h =
    ground
      (arith, lookup-insert_ne key k n limits h.0, first_configured-other key n limits keys h.1)

-- A limit that is set for a scope of one route changes nothing for the requests of another route,
-- where neither route has a bar in it.
pub resolve-set_other_route :
    (route user tenant : Str) (n : ℤ) (limits : Dict ℤ) (route' user' tenant' : Str)
    → NoBar route
    → NoBar route'
    → route ≢ route'
    → resolve_rate_limit route' user' tenant'
        (insert (rate_limit_scope_key route user tenant) n limits)
      ≡ resolve_rate_limit route' user' tenant' limits
unfolding resolve_rate_limit
resolve-set_other_route route user tenant n limits route' user' tenant' h h' ne =
    let key = rate_limit_scope_key route user tenant in
    let keys = scope_keys route' user' tenant' in
    let apart = λ (u t : Str). scope_ne route route' user u tenant t h h' ne in
    rw (resolve_keys-first keys [] (insert key n limits) tt, resolve_keys-first keys [] limits tt)
      (first_configured-other key n limits keys
        (apart user' tenant', (apart user' [], (apart [] tenant', (apart [] [], tt)))))
