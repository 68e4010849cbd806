-- ===== src/Policy.antt =====
-- internal/policy/policy.go: a versioned, ordered list of rules that classifies actions.
pub mod Validation
pub mod Rules
use kessa.Base.{
  ℕ, suc, ◌==◌, Str, codes, str_eq, is_empty, trim_space, split, join, Bool, true, false, not, ◌&&◌,
  ◌||◌, Option, none, some, List, [], ◌∷◌, Result, ok, err, ◌>>=◌, ◌>>◌, guard, wrap, length,
  is_some, if◌then◌else◌,
}
use kessa.Base.Int.{pos}
use kessa.Base.Dict.{Dict, lookup}
use kessa.Errors.{
  Error, missing_version, missing_default, empty_default_reason, empty_field, unnamed_rule,
  rule_without_conditions, rule_without_reason, in_rule, empty_value, not_a_scalar,
  unknown_operator,
}
use kessa.Platform.{Platform}
use kessa.Scalar
use kessa.Types.{Action, context, Decision, Reason, stated, not_comparable}

-- An operator is a string of the policy file; `unknown` stands for every other string.
pub data Op : Type 0 where
  eq ne le lt ge gt member : Op
  unknown : Str → Op

pub record Condition : Type 0 where
  pub field : Str
  pub op : Op
  pub value : Str

pub record Rule : Type 0 where
  pub name : Str
  pub conditions : List Condition
  pub deny : Bool
  pub consequential : Bool
  pub reason : Str

pub record Default : Type 0 where
  pub allowed : Bool
  pub consequential : Bool
  pub reason : Str

pub record Policy : Type 0 where
  pub version : Str
  pub rules : List Rule
  pub default : Default
  pub default_present : Bool

-- `Policy.UnmarshalJSON`, after the decoding: an absent default block is recorded as such.
pub record RawPolicy : Type 0 where
  pub version : Str
  pub rules : List Rule
  pub default : Option Default

zero_default : Default
zero_default = record { allowed = false; consequential = false; reason = [] }

pub unmarshal : RawPolicy → Policy
unfolding zero_default
unmarshal raw = record {
  version = raw.version;
  rules = raw.rules;
  default = elim raw.default [ none ↦ zero_default | some d ↦ d ];
  default_present = elim raw.default [ none ↦ false | some _ ↦ true ];
}

abbrev is_blank : Str → Bool
is_blank s = is_empty (trim_space s)

scalar_bound : Platform → Str → Result Error (Unit {0})
scalar_bound p v = guard (is_some (Scalar.parse p v)) (not_a_scalar v)

validate_operand : Platform → Op → Str → Result Error (Unit {0})
unfolding scalar_bound
validate_operand p eq v = guard (not (is_empty v)) (empty_value v)
validate_operand p ne v = guard (not (is_empty v)) (empty_value v)
validate_operand p member v = guard (not (is_empty v)) (empty_value v)
validate_operand p le v = scalar_bound p v
validate_operand p lt v = scalar_bound p v
validate_operand p ge v = scalar_bound p v
validate_operand p gt v = scalar_bound p v
validate_operand p (unknown o) v = err (unknown_operator o)

validate_condition : Platform → Condition → Result Error (Unit {0})
unfolding validate_operand
validate_condition p c = do
  guard (not (is_blank c.field)) empty_field
  validate_operand p c.op c.value

validate_conditions : Platform → Str → List Condition → Result Error (Unit {0})
unfolding validate_condition
validate_conditions p name [] = ok tt
validate_conditions p name (c ∷ cs) = do
  wrap (in_rule name) (validate_condition p c)
  validate_conditions p name cs

validate_rule : Platform → ℕ → Rule → Result Error (Unit {0})
unfolding validate_conditions
validate_rule p i r = do
  guard (not (is_blank r.name)) (unnamed_rule i)
  guard (not (length r.conditions == 0)) (rule_without_conditions r.name)
  validate_conditions p r.name r.conditions
  guard (not (is_blank r.reason)) (rule_without_reason r.name)

validate_rules : Platform → ℕ → List Rule → Result Error (Unit {0})
unfolding validate_rule
validate_rules p i [] = ok tt
validate_rules p i (r ∷ rs) = do validate_rule p i r; validate_rules p (suc i) rs

unfoldable pub validate : Platform → Policy → Result Error (Unit {0})
unfolding validate_rules
validate p pol = do
  guard (not (is_blank pol.version)) missing_version
  guard pol.default_present missing_default
  guard (not (is_blank pol.default.reason)) empty_default_reason
  validate_rules p 0 pol.rules

-- `Parse`, from the decoded JSON.
unfoldable pub parse : Platform → RawPolicy → Result Error Policy
unfolding unmarshal validate
parse p raw = do validate p (unmarshal raw); ok (unmarshal raw)

-- The two results of `Condition.eval`: whether it holds, and whether it could not be evaluated.
abbrev pub Verdict : Type 0
Verdict = Bool × Bool

abbrev pub scalar_op : Op → Option Scalar.Op
scalar_op le = some Scalar.le
scalar_op lt = some Scalar.lt
scalar_op ge = some Scalar.ge
scalar_op gt = some Scalar.gt
scalar_op _ = none

abbrev pub compare_scalars : Option Scalar.Value → Scalar.Op → Option Scalar.Value → Verdict
compare_scalars (some g) o (some v) = (Scalar.satisfies g o v, false)
compare_scalars _ o _ = (false, true)

-- Some member of the set, trimmed and not empty, is the value.
unfoldable pub has_member : Str → List Str → Bool
has_member got [] = false
has_member got (m ∷ ms) =
    let rest = has_member got ms in
    if not (is_empty (trim_space m)) && str_eq got (trim_space m) then true else rest

unfoldable pub eval_present : Platform → Op → Str → Str → Verdict
unfolding has_member
eval_present p eq got v = (str_eq got v, false)
eval_present p ne got v = (not (str_eq got v), false)
eval_present p le got v = compare_scalars (Scalar.parse p got) Scalar.le (Scalar.parse p v)
eval_present p lt got v = compare_scalars (Scalar.parse p got) Scalar.lt (Scalar.parse p v)
eval_present p ge got v = compare_scalars (Scalar.parse p got) Scalar.ge (Scalar.parse p v)
eval_present p gt got v = compare_scalars (Scalar.parse p got) Scalar.gt (Scalar.parse p v)
eval_present p member got v = (has_member got (split b',' v), false)
eval_present p (unknown o) got v = (false, false)

-- An absent field never matches.
unfoldable pub eval_found : Platform → Op → Str → Option Str → Verdict
unfolding eval_present
eval_found p o v none = (false, false)
eval_found p o v (some got) = eval_present p o got v

-- `Condition.eval`
unfoldable pub eval_condition : Platform → Dict Str → Condition → Verdict
unfolding eval_found
eval_condition p ctx c = eval_found p c.op c.value (lookup c.field ctx)

-- The loop of `Rule.eval`, over its two variables.
eval_conditions : Platform → Dict Str → List Condition → Bool → Bool → Verdict
eval_conditions p ctx [] matched indeterminate = (matched, indeterminate)
eval_conditions p ctx (c ∷ cs) matched indeterminate =
    let (holds, unevaluable) = eval_condition p ctx c in
    eval_conditions p ctx cs (matched && holds) (indeterminate || unevaluable)

-- `Rule.eval`
pub eval_rule : Platform → Dict Str → Rule → Verdict
unfolding eval_conditions
eval_rule p ctx r =
    let (matched, indeterminate) = eval_conditions p ctx r.conditions true false in
    (matched && not indeterminate, indeterminate)

indeterminate_names : Platform → Dict Str → List Condition → List Str
indeterminate_names p ctx [] = []
indeterminate_names p ctx (c ∷ cs) =
    let rest = indeterminate_names p ctx cs in
    if (eval_condition p ctx c).1 then c.field ∷ rest else rest

pub indeterminate_fields : Platform → Dict Str → Rule → Str
unfolding indeterminate_names
indeterminate_fields p ctx r = join (codes ", ") (indeterminate_names p ctx r.conditions)

abbrev unevaluated : Platform → Policy → Dict Str → Rule → Decision
unevaluated p pol ctx r = record {
  allowed = false;
  consequential = true;
  rule_fired = r.name;
  policy_version = pol.version;
  status_checked_hops = pos 0;
  reason = not_comparable r.name (indeterminate_fields p ctx r);
}

abbrev fired : Policy → Rule → Decision
fired pol r = record {
  allowed = not r.deny;
  consequential = r.consequential;
  rule_fired = r.name;
  policy_version = pol.version;
  status_checked_hops = pos 0;
  reason = stated r.reason;
}

abbrev pub default_rule : Str
default_rule = codes "default"

abbrev by_default : Policy → Decision
by_default pol = record {
  allowed = pol.default.allowed;
  consequential = pol.default.consequential;
  rule_fired = default_rule;
  policy_version = pol.version;
  status_checked_hops = pos 0;
  reason = stated pol.default.reason;
}

-- The loop of `Evaluate`: the first rule that matches or cannot be evaluated decides.
evaluate_rules : Platform → Policy → Dict Str → List Rule → Decision
evaluate_rules p pol ctx [] = by_default pol
evaluate_rules p pol ctx (r ∷ rs) =
    let later = evaluate_rules p pol ctx rs in
    let (matched, indeterminate) = eval_rule p ctx r in
    if indeterminate then unevaluated p pol ctx r else if matched then fired pol r else later

unfoldable pub evaluate : Platform → Policy → Action → Result Error Decision
unfolding evaluate_rules
evaluate p pol a = ok (evaluate_rules p pol (context p a) pol.rules)
