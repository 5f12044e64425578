-- ===== src/Flag.antt =====
-- control-plane/featureflag.go: the flag record, its targeting rules, the bucketing hash and the
-- evaluation of a flag for a request context.
mod Rules
pub mod Eval
pub mod Rollout
mod Tests
use feature_flags_control_pl.Shared.{
  ℕ, ◌+◌, ◌*◌, ◌%◌, bit_xor, Bool, true, false, ◌&&◌, ◌||◌, not, Option, none, some, List, [], ◌∷◌,
  Str, lit, str_eq, is_empty, Dict, lookup, if◌then◌else◌,
}
use feature_flags_control_pl.Shared.Int.{ℤ, pos, ltb_ℤ}

-- `Rollout int`; a JSON body may hold any integer.
pub record TargetRule : Type 0 where
  pub type : Str
  pub value : Str
  pub rollout : ℤ

pub record FeatureFlag : Type 0 where
  pub name : Str
  pub enabled : Bool
  pub environment : Str
  pub target_rules : List TargetRule

pub record EvalContext : Type 0 where
  pub user_id : Str
  pub tenant_id : Str
  pub headers : Dict Str

-- The loop of `hashString`, on uint32: multiply, wrap, then exclusive or with the byte.
pub hash_from : ℕ → Str → ℕ
hash_from h [] = h
hash_from h (b ∷ s) = hash_from (bit_xor ((h * 16777619) % 4294967296) b) s

pub hash_string : Str → ℕ
hash_string s = hash_from 2166136261 s

-- `v, ok := ctx.Headers[name]; ok && v != ""`
pub header_present : Option Str → Bool
header_present none = false
header_present (some v) = not (is_empty v)

-- One round of the loop: does the `switch` on the rule's type return true?
pub rule_hits : EvalContext → TargetRule → Bool
rule_hits ctx rule =
    if str_eq rule.type (lit "user")
    then not (is_empty ctx.user_id) && str_eq ctx.user_id rule.value
    else if str_eq rule.type (lit "tenant")
    then not (is_empty ctx.tenant_id) && str_eq ctx.tenant_id rule.value
    else if str_eq rule.type (lit "header")
    then header_present (lookup rule.value ctx.headers)
    else if str_eq rule.type (lit "percentage")
    then (not (is_empty ctx.user_id) && ltb_ℤ (pos 0) rule.rollout)
      && ltb_ℤ (pos (hash_string ctx.user_id % 100)) rule.rollout
    else false

-- The loop over the rules: the first rule that hits returns true.
pub any_rule : EvalContext → List TargetRule → Bool
any_rule ctx [] = false
any_rule ctx (rule ∷ rules) =
    let rest = any_rule ctx rules in if rule_hits ctx rule then true else rest

pub is_nil : List TargetRule → Bool
is_nil [] = true
is_nil (_ ∷ _) = false

pub is_flag_enabled : FeatureFlag → EvalContext → Bool
is_flag_enabled f ctx =
    if not f.enabled
    then false
    else if is_nil f.target_rules
    then true
    else any_rule ctx f.target_rules
