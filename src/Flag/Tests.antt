-- ===== src/Flag/Tests.antt =====
-- Flags of the unit tests, evaluated, and the flag theorems at concrete inputs.
use feature_flags_control_pl.Shared.{
  ℕ, ◌≡◌, refl, inl, inr, true, [], ◌∷◌, arith, lit, In, str_eq, is_empty,
}
use feature_flags_control_pl.Shared.Int.{pos}
use feature_flags_control_pl.Flag.{
  TargetRule, FeatureFlag, EvalContext, hash_from, hash_string, rule_hits, any_rule, is_nil,
  is_flag_enabled,
}
use feature_flags_control_pl.Flag.Eval.{with_rules}
use feature_flags_control_pl.Flag.Rollout.{with_rollout, rollout_mono}

abbrev alice : EvalContext
alice = record {
  user_id = lit "alice";
  tenant_id = lit "acme";
  headers = (lit "X-Beta", lit "1") ∷ [];
}

abbrev user_rule : TargetRule
user_rule = record { type = lit "user"; value = lit "alice"; rollout = pos 0 }

abbrev percentage_rule : TargetRule
percentage_rule = record { type = lit "percentage"; value = []; rollout = pos 100 }

abbrev beta : FeatureFlag
beta = record {
  name = lit "beta";
  enabled = true;
  environment = lit "dev";
  target_rules = user_rule ∷ [];
}

alice_bucket : ℕ
unfolding hash_string hash_from
alice_bucket = hash_string (lit "alice")

swapped : (a b r : TargetRule) → In r (a ∷ b ∷ []) → In r (b ∷ a ∷ [])
swapped a b r (inl e) = inr (inl e)
swapped a b r (inr (inl e)) = inl e
swapped a b r (inr (inr none)) = absurd none

rollout_mono_example :
    is_flag_enabled (with_rules beta (user_rule ∷ with_rollout percentage_rule (pos 50) ∷ [])) alice
    ≡ true
unfolding is_flag_enabled is_nil any_rule rule_hits str_eq is_empty
rollout_mono_example =
    rollout_mono beta alice (user_rule ∷ []) [] percentage_rule (pos 10) (pos 50) (omega arith) refl
