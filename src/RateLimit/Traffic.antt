-- ===== src/RateLimit/Traffic.antt =====
-- Many routes, users and tenants through `Allow`, in any order: what one bucket key gets.
use feature_flags_control_pl.Shared.{
  ℕ, suc, ◌+◌, ◌-◌, ◌*◌, ◌≤◌, ◌≡◌, refl, sym, inl, inr, false, none, some, List, [], ◌∷◌, Str,
  arith, Dict, lookup, lookup-insert_self, ◌∙◌, subst, str_eq_sound, str_eq, str_eq_iff,
  if◌then◌else◌, Bool-cases,
}
use native.Mathlib.Nat.{le_trans}
use feature_flags_control_pl.Shared.Int.{ℤ, pos}
use feature_flags_control_pl.RateLimit.{TokenBucket, bucket_key, find_bucket, allow}
use feature_flags_control_pl.RateLimit.Buckets.{
  allow-other_key, split_span, level, steady, new_bucket-steady, take_token_spends,
}

-- A call of `Allow`, with the two readings of the clock.
pub record Call : Type 0 where
  pub created : ℕ
  pub now : ℕ
  pub route : Str
  pub user_id : Str
  pub tenant_id : Str

abbrev pub key_of : Call → Str
key_of c = bucket_key c.route c.user_id c.tenant_id

-- How many of the calls with the given key are allowed, all calls at one limit.
unfoldable pub served : Str → Dict TokenBucket → ℤ → List Call → ℕ
served key buckets limit [] = 0
served key buckets limit (c ∷ cs) =
    let (buckets', ok) = allow buckets c.created c.now c.route c.user_id c.tenant_id limit in
    let rest = served key buckets' limit cs in
    if str_eq (key_of c) key then (if ok then suc rest else rest) else rest

-- The clock does not run backwards, beginning at `l`.
abbrev pub Ordered : ℕ → List Call → Type 0
Ordered l [] = Unit
Ordered l (c ∷ cs) = (l ≤ c.created) × (c.created ≤ c.now) × Ordered c.now cs

abbrev pub end_time : ℕ → List Call → ℕ
end_time l [] = l
end_time l (c ∷ cs) = end_time c.now cs

end_time-ge : (l : ℕ) (cs : List Call) → Ordered l cs → l ≤ end_time l cs
end_time-ge l [] h = omega arith
end_time-ge l (c ∷ cs) h = omega (arith, end_time-ge c.now cs h.2)

-- A refill at `l` gives the key's bucket at most `k` billionths, or the bucket is still to be made, full.
data Budget (n l k : ℕ) (buckets : Dict TokenBucket) (key : Str) : Type 0 where
  held :
      (k' l' : ℕ)
      → lookup key buckets ≡ some (steady n k' l')
      → l' ≤ l
      → level n k' l' l ≤ k
      → Budget n l k buckets key
  absent : lookup key buckets ≡ none → n * 1000000000 ≤ k → Budget n l k buckets key

-- Time passes and the key is not used.
Budget-wait :
    (n l k : ℕ) (before after : Dict TokenBucket) (key : Str) (now : ℕ)
    → l ≤ now
    → lookup key after ≡ lookup key before
    → Budget n l k before key
    → Budget n now (k + (now - l) * n) after key
Budget-wait n l k before after key now later same (held k' l' found old fits) =
    held k' l' (same ∙ found) (omega arith) (omega (arith, split_span l' l now n old later))
Budget-wait n l k before after key now later same (absent missing fits) =
    absent (same ∙ missing) (omega arith)

-- The bucket that `Allow` finds or makes for the key.
Budget-find :
    (n l k : ℕ) (buckets : Dict TokenBucket) (key : Str) (created now : ℕ)
    → l ≤ created
    → created ≤ now
    → Budget n l k buckets key
    → (k' : ℕ) × (l' : ℕ) × (find_bucket buckets key created (pos n) ≡ steady n k' l')
      × (l' ≤ now)
      × (level n k' l' now ≤ k + (now - l) * n)
unfolding find_bucket
Budget-find n l k buckets key created now h1 h2 (held k' l' found old fits) =
    (k', l', ground arith, omega arith, omega (arith, split_span l' l now n old (le_trans h1 h2)))
Budget-find n l k buckets key created now h1 h2 (absent missing fits) = (
  n * 1000000000,
  created,
  ground (arith, new_bucket-steady n created),
  h2,
  omega (arith, split_span l created now n h1 h2),
)

-- `Allow` on the key itself.
Budget-allow :
    (n l k : ℕ) (buckets : Dict TokenBucket) (c : Call)
    → l ≤ c.created
    → c.created ≤ c.now
    → Budget n l k buckets (key_of c)
    → (m : ℕ) × Budget n c.now m
        (allow buckets c.created c.now c.route c.user_id c.tenant_id (pos n)).0
        (key_of c)
      × (m
            + (if (allow buckets c.created c.now c.route c.user_id c.tenant_id (pos n)).1
                then 1000000000
                else 0)
          ≤ k + (c.now - l) * n)
unfolding allow
Budget-allow n l k buckets c h1 h2 budget =
    let (k', l', found, old, fits) =
      Budget-find n l k buckets (key_of c) c.created c.now h1 h2 budget in
    let (m, next, paid) = take_token_spends n k' l' c.now old in
    (
      m,
      held m c.now (rw found (rw next (lookup-insert_self _ _ _))) (omega arith)
          (omega (arith, split_span c.now c.now c.now n (omega arith) (omega arith))),
      rw found (omega arith),
    )

Bool-apart : (s t : Str) → s ≡ t → str_eq s t ≡ false → ⊥
Bool-apart s t e h = ground (arith, str_eq_iff s t)

served-Budget :
    (n l k : ℕ) (key : Str) (buckets : Dict TokenBucket) (cs : List Call)
    → Budget n l k buckets key
    → Ordered l cs
    → served key buckets (pos n) cs * 1000000000 ≤ k + (end_time l cs - l) * n
unfolding served
served-Budget n l k key buckets [] budget h = omega arith
served-Budget n l k key buckets (c ∷ cs) budget h = elim (Bool-cases (str_eq (key_of c) key)) [
  | inl own ↦
      let e = str_eq_sound (key_of c) key own in
      let (m, next, paid) =
        Budget-allow n l k buckets c h.0 h.1 (subst (Budget n l k buckets) (sym e) budget) in
      let ih = served-Budget n c.now m key _ cs (subst (Budget n c.now m _) e next) h.2 in
      ground (
        arith,
        split_span l c.now (end_time c.now cs) n (le_trans h.0 h.1) (end_time-ge c.now cs h.2),
        ih,
      )
  | inr other ↦
      let same =
        allow-other_key buckets c.created c.now c.route c.user_id c.tenant_id (pos n) key
          (λ e. Bool-apart (key_of c) key e other) in
      let waited = Budget-wait n l k buckets _ key c.now (le_trans h.0 h.1) same budget in
      rw other (
        omega (
          arith,
          split_span l c.now (end_time c.now cs) n (le_trans h.0 h.1) (end_time-ge c.now cs h.2),
          served-Budget n c.now (k + (c.now - l) * n) key _ cs waited h.2,
        ))
]

-- The buckets behind the calls.
unfoldable pub buckets_after : Dict TokenBucket → ℤ → List Call → Dict TokenBucket
buckets_after buckets limit [] = buckets
buckets_after buckets limit (c ∷ cs) =
    buckets_after (allow buckets c.created c.now c.route c.user_id c.tenant_id limit).0 limit cs

-- Whatever was called before: the key has some budget.
buckets_after-Budget :
    (n l k : ℕ) (key : Str) (buckets : Dict TokenBucket) (cs : List Call)
    → Budget n l k buckets key
    → Ordered l cs
    → (m : ℕ) × Budget n (end_time l cs) m (buckets_after buckets (pos n) cs) key
unfolding buckets_after
buckets_after-Budget n l k key buckets [] budget h = (k, budget)
buckets_after-Budget n l k key buckets (c ∷ cs) budget h =
    elim (Bool-cases (str_eq (key_of c) key)) [
      | inl own ↦
          let e = str_eq_sound (key_of c) key own in
          let (m, next, paid) =
            Budget-allow n l k buckets c h.0 h.1 (subst (Budget n l k buckets) (sym e) budget) in
          buckets_after-Budget n c.now m key _ cs (subst (Budget n c.now m _) e next) h.2
      | inr other ↦
          let same =
            allow-other_key buckets c.created c.now c.route c.user_id c.tenant_id (pos n) key
              (λ e. Bool-apart (key_of c) key e other) in
          let waited = Budget-wait n l k buckets _ key c.now (le_trans h.0 h.1) same budget in
          buckets_after-Budget n c.now (k + (c.now - l) * n) key _ cs waited h.2
    ]

-- However long it was idle, a bucket holds at most the limit.
Budget-full :
    (n l k : ℕ) (buckets : Dict TokenBucket) (key : Str) (t : ℕ)
    → l ≤ t
    → Budget n l k buckets key
    → Budget n t (n * 1000000000) buckets key
Budget-full n l k buckets key t later (held k' l' found old fits) =
    held k' l' found (omega arith) (omega arith)
Budget-full n l k buckets key t later (absent missing fits) = absent missing (omega arith)

-- In any stretch of calls of `Allow`, from a time `t` on and whatever calls were made before it, for any
-- routes, users and tenants in any order and all at the limit `n`, the calls that share one bucket key
-- are let through at most `n` times at once and `n` times more for each second that the stretch lasts.
pub served-le :
    (n l t : ℕ) (key : Str) (before cs : List Call)
    → Ordered l before
    → end_time l before ≤ t
    → Ordered t cs
    → served key (buckets_after [] (pos n) before) (pos n) cs * 1000000000
      ≤ n * (1000000000 + (end_time t cs - t))
served-le n l t key before cs earlier later h =
    let start : Budget n l (n * 1000000000) [] key = absent (unfold lookup in refl) (omega arith) in
    let (m, budget) = buckets_after-Budget n l (n * 1000000000) key [] before start earlier in
    let full =
      Budget-full n (end_time l before) m (buckets_after [] (pos n) before) key t later budget in
    omega
      (arith, served-Budget n t (n * 1000000000) key (buckets_after [] (pos n) before) cs full h)
