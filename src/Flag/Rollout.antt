-- ===== src/Flag/Rollout.antt =====
-- Percentage rollouts: what a change of the percentage does to a user.
use feature_flags_control_pl.Shared.{
  ◌≡◌, refl, sym, subst, ◌≢◌, ◌⊎◌, inl, inr, true, List, [], ◌∷◌, ◌++◌, arith, lit, In,
}
use feature_flags_control_pl.Shared.Int.{ℤ, pos, ◌≤ℤ◌}
use feature_flags_control_pl.Flag.{TargetRule, FeatureFlag, EvalContext, is_flag_enabled}
use feature_flags_control_pl.Flag.Rules.{Matches, by_user, by_tenant, by_header, by_percentage}
use feature_flags_control_pl.Flag.Eval.{Enabled, is_flag_enabled_iff, with_rules}

abbrev pub with_rollout : TargetRule → ℤ → TargetRule
with_rollout r n = record r { rollout = n }

Matches-mono :
    (ctx : EvalContext) (r : TargetRule) (a b : ℤ)
    → a ≤ℤ b
    → Matches ctx (with_rollout r a)
    → Matches ctx (with_rollout r b)
Matches-mono ctx r a b le (by_user t n e) = by_user t n e
Matches-mono ctx r a b le (by_tenant t n e) = by_tenant t n e
Matches-mono ctx r a b le (by_header v t l n) = by_header v t l n
Matches-mono ctx r a b le (by_percentage t n l) = by_percentage t n (omega arith)

In-replace :
    (before after : List TargetRule) {x r : TargetRule} (y : TargetRule)
    → In r (before ++ x ∷ after)
    → (x ≡ r) ⊎ In r (before ++ y ∷ after)
In-replace [] after y (inl e) = inl e
In-replace [] after y (inr m) = inr (inr m)
In-replace (b ∷ before) after y (inl e) = inr (inl e)
In-replace (b ∷ before) after y (inr m) = elim (In-replace before after y m) [
  | inl e ↦ inl e
  | inr m' ↦ inr (inr m')
]

In-middle : (before after : List TargetRule) (x : TargetRule) → In x (before ++ x ∷ after)
In-middle [] after x = inl refl
In-middle (b ∷ before) after x = inr (In-middle before after x)

append-cons-ne-nil : (before after : List TargetRule) (x : TargetRule) → before ++ x ∷ after ≢ []
append-cons-ne-nil [] after x h = cc
append-cons-ne-nil (b ∷ before) after x h = cc

module _ (f : FeatureFlag) (ctx : EvalContext) (before after : List TargetRule)
    (r : TargetRule) where
  Enabled-mono :
      (a b : ℤ)
      → a ≤ℤ b
      → Enabled (with_rules f (before ++ with_rollout r a ∷ after)) ctx
      → Enabled (with_rules f (before ++ with_rollout r b ∷ after)) ctx
  Enabled-mono a b le (on, inl e) = absurd (append-cons-ne-nil before after (with_rollout r a) e)
  Enabled-mono a b le (on, inr (x, there, m)) =
      elim (In-replace before after (with_rollout r b) there) [
        | inl e ↦ (
          on,
          inr (
            with_rollout r b,
            In-middle before after (with_rollout r b),
            Matches-mono ctx r a b le (subst (Matches ctx) (sym e) m),
          ),
        )
        | inr kept ↦ (on, inr (x, kept, m))
      ]

  -- Raising the rollout of one rule, whatever the other rules are, never turns the flag off for a
  -- context that it was on for.
  pub rollout_mono :
      (a b : ℤ)
      → a ≤ℤ b
      → is_flag_enabled (with_rules f (before ++ with_rollout r a ∷ after)) ctx ≡ true
      → is_flag_enabled (with_rules f (before ++ with_rollout r b ∷ after)) ctx ≡ true
  rollout_mono a b le h =
      (is_flag_enabled_iff _ ctx).1 (Enabled-mono a b le ((is_flag_enabled_iff _ ctx).0 h))

  -- A percentage rule of 100 or more turns a flag that is switched on, on for every context with a
  -- user id, whatever the other rules are.
  pub rollout_full :
      f.enabled ≡ true
      → r.type ≡ lit "percentage"
      → ctx.user_id ≢ []
      → pos 100 ≤ℤ r.rollout
      → is_flag_enabled (with_rules f (before ++ r ∷ after)) ctx ≡ true
  rollout_full on t user full =
      (is_flag_enabled_iff _ ctx).1
        (on, inr (r, In-middle before after r, by_percentage t user (omega arith)))
