-- ===== src/Policy/Rules.antt =====
-- Which rule decides, in whatever order the conditions of a rule are written.
use mathlib.Core.Bool.{false≢true}
use mathlib.Core.List.{Perm, Permᴰ}
use mathlib.Core.Logic.{∥∥₁_elim}
use kessa.Base.{
  Str, ◌≡◌, refl, sym, ap, ◌∙◌, subst, ◌≢◌, ◌↔◌, Bool, true, false, not, ◌&&◌, ◌||◌, List, [], ◌∷◌,
  All, arith, &&-eq-true, ||-eq-false, trim_space, ok, ok_inj, if◌then◌else◌,
}
use kessa.Base.Dict.{Dict}
use kessa.Platform.{Platform}
use kessa.Types.{Action, context, Decision, Reason, stated}
use kessa.Policy.{
  Condition, Rule, Policy, Verdict, eval_condition, eval_conditions, eval_rule, evaluate_rules,
  evaluate, unevaluated, fired, by_default, validate,
}
use kessa.Policy.Validation.{IsWellFormed, IsRule, IsNotBlank, validate_iff}

module _ (p : Platform) (ctx : Dict Str) where
  all_hold : List Condition → Bool
  all_hold [] = true
  all_hold (c ∷ cs) = (eval_condition p ctx c).0 && all_hold cs

  any_unknown : List Condition → Bool
  any_unknown [] = false
  any_unknown (c ∷ cs) = (eval_condition p ctx c).1 || any_unknown cs

  -- The loop over its two variables is the conjunction and the disjunction.
  eval_conditions_lem :
      (cs : List Condition) (m i : Bool)
      → eval_conditions p ctx cs m i ≡ (m && all_hold cs, i || any_unknown cs)
  unfolding eval_conditions all_hold any_unknown
  eval_conditions_lem [] m i = ground arith
  eval_conditions_lem (c ∷ cs) m i =
      let (holds, unevaluable) = eval_condition p ctx c in
      ground (arith, eval_conditions_lem cs (m && holds) (i || unevaluable))

  all_hold-perm : {cs ds : List Condition} → Permᴰ cs ds → all_hold cs ≡ all_hold ds
  unfolding all_hold
  all_hold-perm Permᴰ.nil = refl
  all_hold-perm (Permᴰ.cons e d) = cc (e, all_hold-perm d)
  all_hold-perm (Permᴰ.swap e f) = rw (e, f) (ground arith)
  all_hold-perm (Permᴰ.trans d e) = all_hold-perm d ∙ all_hold-perm e

  any_unknown-perm : {cs ds : List Condition} → Permᴰ cs ds → any_unknown cs ≡ any_unknown ds
  unfolding any_unknown
  any_unknown-perm Permᴰ.nil = refl
  any_unknown-perm (Permᴰ.cons e d) = cc (e, any_unknown-perm d)
  any_unknown-perm (Permᴰ.swap e f) = rw (e, f) (ground arith)
  any_unknown-perm (Permᴰ.trans d e) = any_unknown-perm d ∙ any_unknown-perm e

Verdict-set : IsSet Verdict
Verdict-set = hlevel

-- Reordering the conditions of a rule changes neither whether it matches nor whether it can be
-- evaluated.
pub eval_rule-perm :
    (p : Platform) (ctx : Dict Str) (r : Rule) (cs : List Condition)
    → Perm r.conditions cs
    → eval_rule p ctx (record r { conditions = cs }) ≡ eval_rule p ctx r
unfolding eval_rule
eval_rule-perm p ctx r cs perm = ∥∥₁_elim perm (Verdict-set _ _) λ d. ground (
  arith,
  eval_conditions_lem p ctx cs true false,
  eval_conditions_lem p ctx r.conditions true false,
  all_hold-perm p ctx d,
  any_unknown-perm p ctx d,
)

module _ (p : Platform) (pol : Policy) (ctx : Dict Str) where
  abbrev CanEvaluate : Rule → Type 0
  CanEvaluate r = All (λ c. (eval_condition p ctx c).1 ≡ false) r.conditions

  abbrev Holds : Rule → Type 0
  Holds r = All (λ c. (eval_condition p ctx c).0 ≡ true) r.conditions

  -- The decision of a list of rules, with no loop in it: the first rule that cannot be evaluated
  -- or all of whose conditions hold, and the default block where there is none.
  pub data Decides : List Rule → Decision → Type 0 where
    no_rule : Decides [] (by_default pol)
    unevaluable :
        {r : Rule} {rs : List Rule} → ¬ CanEvaluate r → Decides (r ∷ rs) (unevaluated p pol ctx r)
    matching :
        {r : Rule} {rs : List Rule} → CanEvaluate r → Holds r → Decides (r ∷ rs) (fired pol r)
    passing :
        {r : Rule} {rs : List Rule} {d : Decision}
        → CanEvaluate r
        → ¬ Holds r
        → Decides rs d
        → Decides (r ∷ rs) d

  all_hold_iff :
      (cs : List Condition)
      → (all_hold p ctx cs ≡ true) ↔ All (λ c. (eval_condition p ctx c).0 ≡ true) cs
  unfolding all_hold
  all_hold_iff [] = (λ h. tt, λ h. refl)
  all_hold_iff (c ∷ cs) =
      let (f, g) = all_hold_iff cs in
      (λ h. let (a, b) = &&-eq-true _ _ h in (a, f b), λ h. ground (arith, h.0, g h.1))

  any_unknown_iff :
      (cs : List Condition)
      → (any_unknown p ctx cs ≡ false) ↔ All (λ c. (eval_condition p ctx c).1 ≡ false) cs
  unfolding any_unknown
  any_unknown_iff [] = (λ h. tt, λ h. refl)
  any_unknown_iff (c ∷ cs) =
      let (f, g) = any_unknown_iff cs in
      (λ h. let (a, b) = ||-eq-false _ _ h in (a, f b), λ h. ground (arith, h.0, g h.1))

  eval_rule_lem :
      (r : Rule)
      → eval_rule p ctx r ≡ (
        all_hold p ctx r.conditions && not (any_unknown p ctx r.conditions),
        any_unknown p ctx r.conditions,
      )
  unfolding eval_rule
  eval_rule_lem r = ground (arith, eval_conditions_lem p ctx r.conditions true false)

  step-Decides :
      (r : Rule) (rs : List Rule) (later : Decision) (u h : Bool)
      → any_unknown p ctx r.conditions ≡ u
      → all_hold p ctx r.conditions ≡ h
      → Decides rs later
      → Decides
          (r ∷ rs)
          (if u then unevaluated p pol ctx r else if h && not u then fired pol r else later)
  step-Decides r rs later true h eu eh d =
      unevaluable (λ k. false≢true (sym ((any_unknown_iff r.conditions).1 k) ∙ eu))
  step-Decides r rs later false true eu eh d =
      matching ((any_unknown_iff r.conditions).0 eu) ((all_hold_iff r.conditions).0 eh)
  step-Decides r rs later false false eu eh d =
      passing ((any_unknown_iff r.conditions).0 eu)
        (λ k. false≢true (sym eh ∙ (all_hold_iff r.conditions).1 k)) d

  evaluate_rules-Decides : (rs : List Rule) → Decides rs (evaluate_rules p pol ctx rs)
  unfolding evaluate_rules
  evaluate_rules-Decides [] = no_rule
  evaluate_rules-Decides (r ∷ rs) =
      subst
        (λ v. Decides (r ∷ rs) (
          if v.1
          then unevaluated p pol ctx r
          else if v.0
          then fired pol r
          else evaluate_rules p pol ctx rs))
        (sym (eval_rule_lem r))
        (step-Decides r rs (evaluate_rules p pol ctx rs) _ _ refl refl (evaluate_rules-Decides rs))

  Decides-unique : {rs : List Rule} {d e : Decision} → Decides rs d → Decides rs e → d ≡ e
  Decides-unique no_rule no_rule = refl
  Decides-unique (unevaluable n) (unevaluable m) = refl
  Decides-unique (unevaluable n) (matching k h) = absurd (n k)
  Decides-unique (unevaluable n) (passing k h d) = absurd (n k)
  Decides-unique (matching k h) (unevaluable n) = absurd (n k)
  Decides-unique (matching k h) (matching l m) = refl
  Decides-unique (matching k h) (passing l m d) = absurd (m h)
  Decides-unique (passing k h d) (unevaluable n) = absurd (n k)
  Decides-unique (passing k h d) (matching l m) = absurd (h m)
  Decides-unique (passing k h d) (passing l m e) = Decides-unique d e

-- `Evaluate` returns a decision exactly when it is the decision of the first rule that cannot be
-- evaluated or whose conditions all hold, a denial in the first case, or that of the default block.
pub evaluate_iff :
    (p : Platform) (pol : Policy) (a : Action) (d : Decision)
    → (evaluate p pol a ≡ ok d) ↔ Decides p pol (context p a) pol.rules d
unfolding evaluate
evaluate_iff p pol a d =
    let computed = evaluate_rules-Decides p pol (context p a) pol.rules in
    (
      λ h. subst (Decides p pol (context p a) pol.rules) (ok_inj h) computed,
      λ k. ap ok (Decides-unique p pol (context p a) computed k),
    )

abbrev pub IsExplained : Reason → Type 0
IsExplained (stated s) = s ≢ []
IsExplained r = Unit {0}

not_blank-not_empty : (s : Str) → IsNotBlank s → s ≢ []
unfolding trim_space
not_blank-not_empty [] h e = h refl
not_blank-not_empty (c ∷ s) h e = cc

module _ (p : Platform) (pol : Policy) (ctx : Dict Str) where
  Decides-IsExplained :
      {rs : List Rule} {d : Decision}
      → IsWellFormed p pol
      → All (IsRule p) rs
      → Decides p pol ctx rs d
      → IsExplained d.reason
  Decides-IsExplained w h no_rule = not_blank-not_empty pol.default.reason w.explained_default
  Decides-IsExplained w h (unevaluable n) = tt
  Decides-IsExplained w h (matching k m) = not_blank-not_empty _ h.0.3
  Decides-IsExplained w h (passing k m e) = Decides-IsExplained w h.1 e

-- A validated policy never gives a decision whose stated reason is the empty text.
pub evaluate-IsExplained :
    (p : Platform) (pol : Policy) (a : Action) (d : Decision)
    → validate p pol ≡ ok tt
    → evaluate p pol a ≡ ok d
    → IsExplained d.reason
evaluate-IsExplained p pol a d valid h =
    let w = (validate_iff p pol).0 valid in
    Decides-IsExplained p pol (context p a) w w.rules ((evaluate_iff p pol a d).0 h)
