-- ===== src/Macaroon/Accepts.antt =====
-- What a caveat permits, as a test of a value, and its agreement with policy conditions.
use kessa.Base.{
  Str, str_eq, split, ◌≡◌, refl, ◌↔◌, sym, ◌∙◌, Bool, true, false, not, Option, none, some, List,
  [], ◌∷◌, arith, ok, ◌>>=◌, require, guard_iff,
}
use kessa.Base.Dict.{Dict, lookup}
use kessa.Errors.{Error}
use kessa.Platform.{Platform}
use kessa.Scalar
use kessa.Policy
use kessa.Macaroon.{
  Op, eq, ne, le, lt, ge, gt, member, unknown, Caveat, satisfied, satisfied_by, bound_satisfied,
  split_set, contains, trim_members,
}

abbrev pub bound_holds : Option Scalar.Value → Scalar.Op → Option Scalar.Value → Bool
bound_holds (some g) o (some v) = Scalar.satisfies g o v
bound_holds _ o _ = false

unfoldable pub accepts : Platform → Op → Str → Str → Bool
accepts p eq got v = str_eq got v
accepts p ne got v = not (str_eq got v)
accepts p le got v = bound_holds (Scalar.parse p got) Scalar.le (Scalar.parse p v)
accepts p lt got v = bound_holds (Scalar.parse p got) Scalar.lt (Scalar.parse p v)
accepts p ge got v = bound_holds (Scalar.parse p got) Scalar.ge (Scalar.parse p v)
accepts p gt got v = bound_holds (Scalar.parse p got) Scalar.gt (Scalar.parse p v)
accepts p member got v = contains (split_set v) got
accepts p (unknown o) got v = false

bound_satisfied_iff :
    (got : Str) (g : Option Scalar.Value) (o : Scalar.Op) (v : Option Scalar.Value)
    → (bound_satisfied got g o v ≡ ok tt) ↔ (bound_holds g o v ≡ true)
unfolding bound_satisfied
bound_satisfied_iff got (some g) o (some v) = guard_iff _ _
bound_satisfied_iff got (some g) o none = (λ h. cc, λ h. cc)
bound_satisfied_iff got none o v = (λ h. cc, λ h. cc)

pub satisfied_by_iff :
    (p : Platform) (o : Op) (got v : Str)
    → (satisfied_by p o got v ≡ ok tt) ↔ (accepts p o got v ≡ true)
unfolding satisfied_by accepts
satisfied_by_iff p eq got v = guard_iff _ _
satisfied_by_iff p ne got v = guard_iff _ _
satisfied_by_iff p le got v = bound_satisfied_iff got _ _ _
satisfied_by_iff p lt got v = bound_satisfied_iff got _ _ _
satisfied_by_iff p ge got v = bound_satisfied_iff got _ _ _
satisfied_by_iff p gt got v = bound_satisfied_iff got _ _ _
satisfied_by_iff p member got v = guard_iff _ _
satisfied_by_iff p (unknown o) got v = (λ h. cc, λ h. cc)

-- The value that a context gives to a field.
abbrev pub Permits : Platform → Op → Str → Option Str → Type 0
Permits p o v none = ⊥
Permits p o v (some got) = accepts p o got v ≡ true

satisfied_value_iff :
    (p : Platform) (o : Op) (v : Str) (e : Error) (found : Option Str)
    → ((require found e >>= λ got. satisfied_by p o got v) ≡ ok tt) ↔ Permits p o v found
satisfied_value_iff p o v e none = (λ h. cc, λ h. absurd h)
satisfied_value_iff p o v e (some got) = satisfied_by_iff p o got v

pub satisfied_iff :
    (p : Platform) (ctx : Dict Str) (c : Caveat)
    → (satisfied p ctx c ≡ ok tt) ↔ Permits p c.op c.value (lookup c.field ctx)
unfolding satisfied
satisfied_iff p ctx c = satisfied_value_iff p c.op c.value _ (lookup c.field ctx)

-- A caveat read as a policy condition.
pub to_condition_op : Op → Policy.Op
to_condition_op eq = Policy.eq
to_condition_op ne = Policy.ne
to_condition_op le = Policy.le
to_condition_op lt = Policy.lt
to_condition_op ge = Policy.ge
to_condition_op gt = Policy.gt
to_condition_op member = Policy.member
to_condition_op (unknown o) = Policy.unknown o

compared_lem :
    (g : Option Scalar.Value) (o : Scalar.Op) (v : Option Scalar.Value)
    → (Policy.compare_scalars g o v).0 ≡ bound_holds g o v
compared_lem (some g) o (some v) = refl
compared_lem (some g) o none = refl
compared_lem none o v = refl

has_member_lem :
    (got : Str) (ms : List Str) → Policy.has_member got ms ≡ contains (trim_members ms) got
unfolding Policy.has_member contains trim_members
has_member_lem got [] = refl
has_member_lem got (m ∷ ms) = ground (arith, has_member_lem got ms)

eval_present_lem :
    (p : Platform) (o : Op) (got v : Str)
    → (Policy.eval_present p (to_condition_op o) got v).0 ≡ accepts p o got v
unfolding Policy.eval_present accepts to_condition_op split_set
eval_present_lem p eq got v = refl
eval_present_lem p ne got v = refl
eval_present_lem p le got v = compared_lem (Scalar.parse p got) Scalar.le (Scalar.parse p v)
eval_present_lem p lt got v = compared_lem (Scalar.parse p got) Scalar.lt (Scalar.parse p v)
eval_present_lem p ge got v = compared_lem (Scalar.parse p got) Scalar.ge (Scalar.parse p v)
eval_present_lem p gt got v = compared_lem (Scalar.parse p got) Scalar.gt (Scalar.parse p v)
eval_present_lem p member got v = has_member_lem got (split b',' v)
eval_present_lem p (unknown o) got v = refl

condition-Permits :
    (p : Platform) (o : Op) (v : Str) (found : Option Str)
    → ((Policy.eval_found p (to_condition_op o) v found).0 ≡ true) ↔ Permits p o v found
unfolding Policy.eval_found
condition-Permits p o v none = (λ h. cc, λ h. absurd h)
condition-Permits p o v (some got) =
    (λ h. sym (eval_present_lem p o got v) ∙ h, λ h. eval_present_lem p o got v ∙ h)

-- One field vocabulary, one meaning: a policy condition holds in a context exactly when the caveat
-- with its field, operator and value is satisfied there.
pub eval_condition-satisfied :
    (p : Platform) (ctx : Dict Str) (c : Caveat)
    → ((Policy.eval_condition p ctx
          (record { field = c.field; op = to_condition_op c.op; value = c.value })).0
        ≡ true)
      ↔ (satisfied p ctx c ≡ ok tt)
unfolding Policy.eval_condition
eval_condition-satisfied p ctx c =
    let condition = condition-Permits p c.op c.value (lookup c.field ctx) in
    let caveat = satisfied_iff p ctx c in
    (λ h. caveat.1 (condition.0 h), λ h. condition.1 (caveat.0 h))
