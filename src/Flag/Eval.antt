-- ===== src/Flag/Eval.antt =====
-- When `IsFlagEnabled` returns true.
use feature_flags_control_pl.Shared.{
  ◌≡◌, refl, sym, ◌↔◌, ◌⊎◌, inl, inr, Bool, true, false, List, [], ◌∷◌, arith, Bool-cases, In,
}
use feature_flags_control_pl.Flag.{TargetRule, FeatureFlag, EvalContext, is_nil, is_flag_enabled}
use feature_flags_control_pl.Flag.Rules.{Matches, any_rule_sound, any_rule_complete}

-- The flag is on and either has no rules or has one that the context satisfies.
abbrev pub Enabled : FeatureFlag → EvalContext → Type 0
Enabled f ctx =
    (f.enabled ≡ true)
    × ((f.target_rules ≡ []) ⊎ ((r : TargetRule) × In r f.target_rules × Matches ctx r))

is_nil_iff : (rules : List TargetRule) → (is_nil rules ≡ true) ↔ (rules ≡ [])
unfolding is_nil
is_nil_iff [] = (λ _. refl, λ _. refl)
is_nil_iff (r ∷ rules) = (λ h. cc, λ h. cc)

is_flag_enabled_sound :
    (f : FeatureFlag) (ctx : EvalContext) → is_flag_enabled f ctx ≡ true → Enabled f ctx
unfolding is_flag_enabled
is_flag_enabled_sound f ctx h = elim (Bool-cases (is_nil f.target_rules)) [
  | inl e ↦ (ground arith, inl ((is_nil_iff _).0 e))
  | inr e ↦ (ground arith, inr (any_rule_sound ctx f.target_rules (ground arith)))
]

is_flag_enabled_complete :
    (f : FeatureFlag) (ctx : EvalContext) → Enabled f ctx → is_flag_enabled f ctx ≡ true
unfolding is_flag_enabled
is_flag_enabled_complete f ctx (on, inl e) = ground (arith, is_nil_iff f.target_rules)
is_flag_enabled_complete f ctx (on, inr (r, there, m)) =
    ground (arith, any_rule_complete ctx f.target_rules r there m)

pub is_flag_enabled_iff :
    (f : FeatureFlag) (ctx : EvalContext) → (is_flag_enabled f ctx ≡ true) ↔ Enabled f ctx
is_flag_enabled_iff f ctx = (is_flag_enabled_sound f ctx, is_flag_enabled_complete f ctx)

abbrev pub with_rules : FeatureFlag → List TargetRule → FeatureFlag
with_rules f rules = record f { target_rules = rules }

same_nil : (rs ss : List TargetRule) → ((r : TargetRule) → In r rs → In r ss) → ss ≡ [] → rs ≡ []
same_nil [] ss sub e = refl
same_nil (r ∷ rs) [] sub e = absurd (sub r (inl refl))
same_nil (r ∷ rs) (s ∷ ss) sub e = cc

Enabled-same :
    (f : FeatureFlag) (ctx : EvalContext) (rs ss : List TargetRule)
    → ((r : TargetRule) → In r rs → In r ss)
    → ((r : TargetRule) → In r ss → In r rs)
    → Enabled (with_rules f rs) ctx
    → Enabled (with_rules f ss) ctx
Enabled-same f ctx rs ss there back (on, inl e) = (on, inl (same_nil ss rs back e))
Enabled-same f ctx rs ss there back (on, inr (r, m, hit)) = (on, inr (r, there r m, hit))

Bool_ext : (a b : Bool) → (a ≡ true → b ≡ true) → (b ≡ true → a ≡ true) → a ≡ b
Bool_ext true b f g = sym (f refl)
Bool_ext false true f g = g refl
Bool_ext false false f g = refl

-- Two rule lists with the same members, in whatever order and however often, give the same answer for
-- every flag and every context.
pub is_flag_enabled-same_rules :
    (f : FeatureFlag) (ctx : EvalContext) (rs ss : List TargetRule)
    → ((r : TargetRule) → In r rs → In r ss)
    → ((r : TargetRule) → In r ss → In r rs)
    → is_flag_enabled (with_rules f rs) ctx ≡ is_flag_enabled (with_rules f ss) ctx
is_flag_enabled-same_rules f ctx rs ss there back =
    Bool_ext _ _
      (λ h.
        is_flag_enabled_complete (with_rules f ss) ctx
          (Enabled-same f ctx rs ss there back (is_flag_enabled_sound (with_rules f rs) ctx h)))
      (λ h.
        is_flag_enabled_complete (with_rules f rs) ctx
          (Enabled-same f ctx ss rs back there (is_flag_enabled_sound (with_rules f ss) ctx h)))
