-- ===== src/Policy/Validation.antt =====
-- `Policy.Validate` accepts exactly the well-formed policies.
use kessa.Base.{
  ℕ, suc, ◌==◌, Str, is_empty, trim_space, not-is_empty_iff, ◌≡◌, refl, ◌≢◌, ◌↔◌, not, true, some,
  List, [], ◌∷◌, All, length, arith, ok, guard, then_iff, guard_iff, wrap_iff, iff_trans, iff_pair,
  is_some_iff,
}
use kessa.Errors.{Error}
use kessa.Platform.{Platform}
use kessa.Scalar
use kessa.Policy.{
  Op, eq, ne, le, lt, ge, gt, member, unknown, Condition, Rule, Policy, validate, validate_rules,
  validate_rule, validate_conditions, validate_condition, validate_operand, scalar_bound,
}

abbrev pub IsNotBlank : Str → Type 0
IsNotBlank s = trim_space s ≢ []

abbrev pub IsScalar : Platform → Str → Type 0
IsScalar p v = (x : Scalar.Value) × (Scalar.parse p v ≡ some x)

-- What an operator asks of the value that it compares with.
abbrev pub IsOperand : Platform → Op → Str → Type 0
IsOperand p eq v = v ≢ []
IsOperand p ne v = v ≢ []
IsOperand p member v = v ≢ []
IsOperand p le v = IsScalar p v
IsOperand p lt v = IsScalar p v
IsOperand p ge v = IsScalar p v
IsOperand p gt v = IsScalar p v
IsOperand p (unknown o) v = ⊥

abbrev pub IsCondition : Platform → Condition → Type 0
IsCondition p c = IsNotBlank c.field × IsOperand p c.op c.value

abbrev pub IsRule : Platform → Rule → Type 0
IsRule p r =
    IsNotBlank r.name × (r.conditions ≢ []) × All (IsCondition p) r.conditions × IsNotBlank r.reason

pub record IsWellFormed (p : Platform) (pol : Policy) : Type 0 where
  pub named : IsNotBlank pol.version
  pub stated_default : pol.default_present ≡ true
  pub explained_default : IsNotBlank pol.default.reason
  pub rules : All (IsRule p) pol.rules

not_blank : {E : Type 0} (s : Str) (e : E) → (guard (not (is_empty s)) e ≡ ok tt) ↔ (s ≢ [])
not_blank s e = iff_trans (guard_iff _ e) (not-is_empty_iff s)

module _ (p : Platform) where
  scalar_bound_iff : (v : Str) → (scalar_bound p v ≡ ok tt) ↔ IsScalar p v
  unfolding scalar_bound
  scalar_bound_iff v = iff_trans (guard_iff _ _) (is_some_iff (Scalar.parse p v))

  IsOperand-iff : (o : Op) (v : Str) → (validate_operand p o v ≡ ok tt) ↔ IsOperand p o v
  unfolding validate_operand
  IsOperand-iff eq v = not_blank v _
  IsOperand-iff ne v = not_blank v _
  IsOperand-iff member v = not_blank v _
  IsOperand-iff le v = scalar_bound_iff v
  IsOperand-iff lt v = scalar_bound_iff v
  IsOperand-iff ge v = scalar_bound_iff v
  IsOperand-iff gt v = scalar_bound_iff v
  IsOperand-iff (unknown o) v = (λ h. cc, λ h. absurd h)

  condition_iff : (c : Condition) → (validate_condition p c ≡ ok tt) ↔ IsCondition p c
  unfolding validate_condition
  condition_iff c =
      iff_trans (then_iff _ _)
        (iff_pair (not_blank (trim_space c.field) _) (IsOperand-iff c.op c.value))

  conditions_iff :
      (name : Str) (cs : List Condition)
      → (validate_conditions p name cs ≡ ok tt) ↔ All (IsCondition p) cs
  unfolding validate_conditions
  conditions_iff name [] = (λ h. tt, λ h. refl)
  conditions_iff name (c ∷ cs) =
      iff_trans (then_iff _ _)
        (iff_pair (iff_trans (wrap_iff _ _) (condition_iff c)) (conditions_iff name cs))

  some_conditions_iff :
      (cs : List Condition) (e : Error) → (guard (not (length cs == 0)) e ≡ ok tt) ↔ (cs ≢ [])
  some_conditions_iff [] e = (λ h. cc, λ h. absurd (h refl))
  some_conditions_iff (c ∷ cs) e = (λ h k. cc, λ h. ground arith)

  rule_iff : (i : ℕ) (r : Rule) → (validate_rule p i r ≡ ok tt) ↔ IsRule p r
  unfolding validate_rule
  rule_iff i r =
      let all_four = iff_trans (then_iff _ _) (
        iff_pair (not_blank (trim_space r.name) _) (
          iff_trans (then_iff _ _) (
            iff_pair (some_conditions_iff r.conditions _) (
              iff_trans (then_iff _ _) (
                iff_pair (conditions_iff r.name r.conditions)
                  (not_blank (trim_space r.reason) _)))))) in
      (
        λ h. let (a, (b, (c, d))) = all_four.0 h in (a, b, c, d),
        λ (a, b, c, d). all_four.1 (a, (b, (c, d))),
      )

  rules_iff : (i : ℕ) (rs : List Rule) → (validate_rules p i rs ≡ ok tt) ↔ All (IsRule p) rs
  unfolding validate_rules
  rules_iff i [] = (λ h. tt, λ h. refl)
  rules_iff i (r ∷ rs) = iff_trans (then_iff _ _) (iff_pair (rule_iff i r) (rules_iff (suc i) rs))

  -- Validation accepts a policy exactly when its version is not blank, a default block is present
  -- and gives a reason, and every rule has a name, at least one condition, a reason, and only
  -- conditions on a field with a known operator and an operand that suits it.
  pub validate_iff : (pol : Policy) → (validate p pol ≡ ok tt) ↔ IsWellFormed p pol
  unfolding validate
  validate_iff pol =
      let all_four = iff_trans (then_iff _ _) (
        iff_pair (not_blank (trim_space pol.version) _) (
          iff_trans (then_iff _ _) (
            iff_pair (guard_iff pol.default_present _) (
              iff_trans (then_iff _ _) (
                iff_pair (not_blank (trim_space pol.default.reason) _)
                  (rules_iff 0 pol.rules)))))) in
      (
        λ h.
            let (a, (b, (c, d))) = all_four.0 h in
            record { named = a; stated_default = b; explained_default = c; rules = d },
        λ w. all_four.1 (w.named, (w.stated_default, (w.explained_default, w.rules))),
      )
