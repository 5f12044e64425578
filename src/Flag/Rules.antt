-- ===== src/Flag/Rules.antt =====
-- What one rule and a list of rules decide, described without the code's tests.
use feature_flags_control_pl.Shared.{
  ◌%◌, ◌≡◌, refl, sym, ◌≢◌, subst, inl, inr, true, false, Option, none, some, List, [], ◌∷◌, arith,
  Str, lit, str_eq, str_eq_iff, is_empty_iff, lookup, Bool-cases, In,
}
use feature_flags_control_pl.Shared.Int.{pos, ◌<ℤ◌}
use feature_flags_control_pl.Flag.{
  TargetRule, EvalContext, hash_string, header_present, rule_hits, any_rule,
}

-- The four ways in which a context can satisfy a rule.
pub data Matches (ctx : EvalContext) (rule : TargetRule) : Type 0 where
  by_user : rule.type ≡ lit "user" → ctx.user_id ≢ [] → ctx.user_id ≡ rule.value → Matches ctx rule
  by_tenant :
      rule.type ≡ lit "tenant" → ctx.tenant_id ≢ [] → ctx.tenant_id ≡ rule.value → Matches ctx rule
  by_header :
      (v : Str)
      → rule.type ≡ lit "header"
      → lookup rule.value ctx.headers ≡ some v
      → v ≢ []
      → Matches ctx rule
  by_percentage :
      rule.type ≡ lit "percentage"
      → ctx.user_id ≢ []
      → pos (hash_string ctx.user_id % 100) <ℤ rule.rollout
      → Matches ctx rule

-- The four type names are different texts, so each selects its own case of the `switch`.
user_case : (t : Str) → t ≡ lit "user" → str_eq t (lit "user") ≡ true
unfolding str_eq
user_case t e = rw e

tenant_case :
    (t : Str)
    → t ≡ lit "tenant"
    → (str_eq t (lit "user") ≡ false) × (str_eq t (lit "tenant") ≡ true)
unfolding str_eq
tenant_case t e = (rw e, rw e)

header_case :
    (t : Str)
    → t ≡ lit "header"
    → (str_eq t (lit "user") ≡ false)
      × (str_eq t (lit "tenant") ≡ false)
      × (str_eq t (lit "header") ≡ true)
unfolding str_eq
header_case t e = (rw e, rw e, rw e)

percentage_case :
    (t : Str)
    → t ≡ lit "percentage"
    → (str_eq t (lit "user") ≡ false)
      × (str_eq t (lit "tenant") ≡ false)
      × (str_eq t (lit "header") ≡ false)
      × (str_eq t (lit "percentage") ≡ true)
unfolding str_eq
percentage_case t e = (rw e, rw e, rw e, rw e)

-- A header that is present has a value that is not empty.
header_value : (o : Option Str) → header_present o ≡ true → (v : Str) × (o ≡ some v) × (v ≢ [])
unfolding header_present
header_value none h = cc
header_value (some v) h = (v, refl, ground (arith, is_empty_iff v))

pub rule_hits_sound :
    (ctx : EvalContext) (rule : TargetRule) → rule_hits ctx rule ≡ true → Matches ctx rule
unfolding rule_hits
rule_hits_sound ctx rule h = elim (Bool-cases (str_eq rule.type (lit "user"))) [
  | inl u ↦
      by_user ((str_eq_iff _ _).0 u) (ground (arith, is_empty_iff ctx.user_id))
        (ground (arith, str_eq_iff ctx.user_id rule.value))
  | inr u ↦ elim (Bool-cases (str_eq rule.type (lit "tenant"))) [
    | inl t ↦
        by_tenant ((str_eq_iff _ _).0 t) (ground (arith, is_empty_iff ctx.tenant_id))
          (ground (arith, str_eq_iff ctx.tenant_id rule.value))
    | inr t ↦ elim (Bool-cases (str_eq rule.type (lit "header"))) [
      | inl d ↦
          let (v, found, full) = header_value (lookup rule.value ctx.headers) (ground arith) in
          by_header v ((str_eq_iff _ _).0 d) found full
      | inr d ↦
          by_percentage (ground (arith, str_eq_iff rule.type (lit "percentage")))
            (ground (arith, is_empty_iff ctx.user_id)) (ground arith)
    ]
  ]
]

pub rule_hits_complete :
    (ctx : EvalContext) (rule : TargetRule) → Matches ctx rule → rule_hits ctx rule ≡ true
unfolding rule_hits header_present
rule_hits_complete ctx rule (by_user t n e) =
    ground
      (arith, user_case rule.type t, is_empty_iff ctx.user_id, str_eq_iff ctx.user_id rule.value)
rule_hits_complete ctx rule (by_tenant t n e) = ground (
  arith,
  tenant_case rule.type t,
  is_empty_iff ctx.tenant_id,
  str_eq_iff ctx.tenant_id rule.value,
)
rule_hits_complete ctx rule (by_header v t l n) =
    ground (arith, header_case rule.type t, is_empty_iff v)
rule_hits_complete ctx rule (by_percentage t n l) =
    ground (arith, percentage_case rule.type t, is_empty_iff ctx.user_id)

-- A list of rules lets a context through when it holds a rule that the context satisfies.
pub any_rule_sound :
    (ctx : EvalContext) (rules : List TargetRule)
    → any_rule ctx rules ≡ true
    → (r : TargetRule) × In r rules × Matches ctx r
unfolding any_rule
any_rule_sound ctx [] h = cc
any_rule_sound ctx (x ∷ xs) h = elim (Bool-cases (rule_hits ctx x)) [
  | inl hit ↦ (x, inl refl, rule_hits_sound ctx x hit)
  | inr miss ↦ let (r, there, m) = any_rule_sound ctx xs (ground arith) in (r, inr there, m)
]

pub any_rule_complete :
    (ctx : EvalContext) (rules : List TargetRule) (r : TargetRule)
    → In r rules
    → Matches ctx r
    → any_rule ctx rules ≡ true
unfolding any_rule
any_rule_complete ctx [] r there m = absurd there
any_rule_complete ctx (x ∷ xs) r (inl e) m =
    let hit : rule_hits ctx x ≡ true = rule_hits_complete ctx x (subst (Matches ctx) (sym e) m) in
    ground arith
any_rule_complete ctx (x ∷ xs) r (inr there) m = ground (arith, any_rule_complete ctx xs r there m)
