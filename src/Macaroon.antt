-- ===== src/Macaroon.antt =====
-- internal/macaroon/macaroon.go: bearer credentials whose authority can only be narrowed. The
-- caveats are structured, so that narrowing is checked by their operators and values.
pub mod Delegation
pub mod Narrowing
pub mod Accepts
use kessa.Base.{
  ℕ, zero, suc, ◌==◌, leb, Bytes, Str, codes, str_eq, is_empty, trim_space, split, Bool, true,
  false, not, ◌&&◌, ◌||◌, Option, none, some, is_some, List, [], ◌∷◌, ◌++◌, length, drop, Result,
  ok, err, ◌>>=◌, ◌>>◌, guard, require, wrap, if◌then◌else◌,
}
use kessa.Base.Dict.{Dict, lookup}
use kessa.Errors.{
  Error, empty_field, empty_value, not_a_scalar, unknown_operator, cannot_attenuate,
  does_not_narrow, identifier_mismatch, fewer_caveats, diverges_at, incomparable, broadens,
  signature_mismatch, missing_context, unsatisfied,
}
use kessa.Platform.{Platform}
use kessa.Scalar
use kessa.Scalar.{below, same, above}

-- An operator is a string of the caveat; `unknown` stands for every string that is no operator.
pub data Op : Type 0 where
  eq ne le lt ge gt member : Op
  unknown : Str → Op

pub record Caveat : Type 0 where
  pub field : Str
  pub op : Op
  pub value : Str

pub record Macaroon : Type 0 where
  pub location : Str
  pub identifier : Str
  pub caveats : List Caveat
  pub signature : Bytes

abbrev pub op_text : Op → Str
op_text eq = codes "=="
op_text ne = codes "!="
op_text le = codes "<="
op_text lt = codes "<"
op_text ge = codes ">="
op_text gt = codes ">"
op_text member = codes "in"
op_text (unknown s) = s

-- The unit separator 0x1f stands between the parts.
unfoldable pub canonical : Caveat → Bytes
canonical c = c.field ++ (0x1f ∷ (op_text c.op ++ (0x1f ∷ c.value)))

unfoldable pub mint : Platform → Bytes → Str → Str → Macaroon
mint p root_key identifier location = record {
  location = location;
  identifier = identifier;
  caveats = [];
  signature = p.hmac root_key identifier;
}

-- `splitSet`: the members of a set, trimmed, without the empty ones.
trim_members : List Str → List Str
trim_members [] = []
trim_members (m ∷ ms) =
    let rest = trim_members ms in if is_empty (trim_space m) then rest else trim_space m ∷ rest

unfoldable pub split_set : Str → List Str
unfolding trim_members
split_set s = trim_members (split b',' s)

unfoldable pub contains : List Str → Str → Bool
contains [] s = false
contains (m ∷ ms) s = let rest = contains ms s in if str_eq s m then true else rest

scalar_bound : Platform → Str → Result Error (Unit {0})
scalar_bound p v = guard (is_some (Scalar.parse p v)) (not_a_scalar v)

validate_operand : Platform → Op → Str → Result Error (Unit {0})
unfolding scalar_bound
validate_operand p eq v = guard (not (is_empty v)) (empty_value v)
validate_operand p ne v = guard (not (is_empty v)) (empty_value v)
validate_operand p member v = guard (not (is_empty v)) (empty_value v)
validate_operand p le v = scalar_bound p v
validate_operand p lt v = scalar_bound p v
validate_operand p ge v = scalar_bound p v
validate_operand p gt v = scalar_bound p v
validate_operand p (unknown o) v = err (unknown_operator o)

unfoldable pub validate : Platform → Caveat → Result Error (Unit {0})
unfolding validate_operand
validate p c = do
  guard (not (is_empty (trim_space c.field))) empty_field
  validate_operand p c.op c.value

bound_satisfied :
    Str → Option Scalar.Value → Scalar.Op → Option Scalar.Value → Result Error (Unit {0})
bound_satisfied got (some g) o (some v) = guard (Scalar.satisfies g o v) (unsatisfied got)
bound_satisfied got _ o _ = err (not_a_scalar got)

unfoldable pub satisfied_by : Platform → Op → Str → Str → Result Error (Unit {0})
unfolding bound_satisfied contains split_set
satisfied_by p eq got v = guard (str_eq got v) (unsatisfied got)
satisfied_by p ne got v = guard (not (str_eq got v)) (unsatisfied got)
satisfied_by p le got v = bound_satisfied got (Scalar.parse p got) Scalar.le (Scalar.parse p v)
satisfied_by p lt got v = bound_satisfied got (Scalar.parse p got) Scalar.lt (Scalar.parse p v)
satisfied_by p ge got v = bound_satisfied got (Scalar.parse p got) Scalar.ge (Scalar.parse p v)
satisfied_by p gt got v = bound_satisfied got (Scalar.parse p got) Scalar.gt (Scalar.parse p v)
satisfied_by p member got v = guard (contains (split_set v) got) (unsatisfied got)
satisfied_by p (unknown o) got v = err (unsatisfied got)

-- A missing field fails closed.
unfoldable pub satisfied : Platform → Dict Str → Caveat → Result Error (Unit {0})
satisfied p ctx c = do
  got ← require (lookup c.field ctx) (missing_context c.field)
  satisfied_by p c.op got c.value

unfoldable pub all_satisfied : Platform → Dict Str → List Caveat → Result Error (Unit {0})
all_satisfied p ctx [] = ok tt
all_satisfied p ctx (c ∷ cs) = do satisfied p ctx c; all_satisfied p ctx cs

-- `Satisfies`: every caveat, without the signature.
unfoldable pub satisfies : Platform → Macaroon → Dict Str → Result Error (Unit {0})
satisfies p m ctx = all_satisfied p ctx m.caveats

chain_hmac : Platform → Bytes → List Caveat → Bytes
chain_hmac p sig [] = sig
chain_hmac p sig (c ∷ cs) = chain_hmac p (p.hmac sig (canonical c)) cs

-- `Verify`: the signature, recomputed from the root key, and then the caveats.
unfoldable pub verify : Platform → Macaroon → Bytes → Dict Str → Result Error (Unit {0})
unfolding chain_hmac
verify p m root_key ctx = do
  guard (str_eq (chain_hmac p (p.hmac root_key m.identifier) m.caveats) m.signature)
      signature_mismatch
  satisfies p m ctx

abbrev pub is_upper : Scalar.Op → Bool
is_upper Scalar.Op.le = true
is_upper Scalar.Op.lt = true
is_upper _ = false

abbrev pub is_inclusive : Scalar.Op → Bool
is_inclusive Scalar.Op.le = true
is_inclusive Scalar.Op.ge = true
is_inclusive _ = false

-- Whether the child's bound lies within the parent's, by how the two values compare.
subset_by : Scalar.Op → Scalar.Op → Bool → Scalar.Cmp → Bool
subset_by child parent upper same = not (is_inclusive child) || is_inclusive parent
subset_by child parent upper below = upper
subset_by child parent upper above = not upper

-- Nothing is proved of a bound that does not order.
subset_if_ordered : Scalar.Op → Scalar.Op → Bool → Option Scalar.Cmp → Bool
unfolding subset_by
subset_if_ordered child parent upper none = false
subset_if_ordered child parent upper (some c) = subset_by child parent upper c

bound_subset : Scalar.Op → Scalar.Value → Scalar.Op → Scalar.Value → Bool → Bool
bound_subset child cv parent pv upper = subset_if_ordered child parent upper (Scalar.compare cv pv)

-- A child that is a bound too.
pub narrows_two_bounds : Platform → Scalar.Op → Scalar.Value → Scalar.Op → Str → Result Error Bool
unfolding bound_subset subset_if_ordered
narrows_two_bounds p parent pv child value = do
  cv ← require (Scalar.parse p value) (not_a_scalar value)
  if is_upper parent
      then ok (is_upper child && bound_subset child cv parent pv true)
      else ok (not (is_upper child) && bound_subset child cv parent pv false)

pub in_bound : Option Scalar.Value → Scalar.Op → Scalar.Value → Bool
in_bound none o pv = false
in_bound (some cv) o pv = Scalar.satisfies cv o pv

pub all_in_bound : Platform → Scalar.Op → Scalar.Value → List Str → Bool
unfolding in_bound
all_in_bound p o pv [] = true
all_in_bound p o pv (m ∷ ms) =
    let rest = all_in_bound p o pv ms in if in_bound (Scalar.parse p m) o pv then rest else false

pub narrows_within : Platform → Scalar.Op → Scalar.Value → Op → Str → Result Error Bool
narrows_within p o pv le v = narrows_two_bounds p o pv Scalar.le v
narrows_within p o pv lt v = narrows_two_bounds p o pv Scalar.lt v
narrows_within p o pv ge v = narrows_two_bounds p o pv Scalar.ge v
narrows_within p o pv gt v = narrows_two_bounds p o pv Scalar.gt v
narrows_within p o pv eq v = ok (in_bound (Scalar.parse p v) o pv)
narrows_within p o pv member v = ok (all_in_bound p o pv (split_set v))
narrows_within p o pv _ v = ok false

-- A parent that is a bound.
pub narrows_bound : Platform → Scalar.Op → Caveat → Caveat → Result Error Bool
narrows_bound p o parent child = do
  pv ← require (Scalar.parse p parent.value) (not_a_scalar parent.value)
  narrows_within p o pv child.op child.value

pub all_contained : List Str → List Str → Bool
all_contained set [] = true
all_contained set (m ∷ ms) =
    let rest = all_contained set ms in if contains set m then rest else false

-- A parent that is a set.
unfoldable pub narrows_set : List Str → Op → Str → Bool
narrows_set set eq v = contains set v
narrows_set set member v = all_contained set (split_set v)
narrows_set set _ v = false

abbrev is_eq : Op → Bool
is_eq eq = true
is_eq _ = false

abbrev is_ne : Op → Bool
is_ne ne = true
is_ne _ = false

narrows_by : Platform → Op → Caveat → Caveat → Result Error Bool
narrows_by p le parent child = narrows_bound p Scalar.le parent child
narrows_by p lt parent child = narrows_bound p Scalar.lt parent child
narrows_by p ge parent child = narrows_bound p Scalar.ge parent child
narrows_by p gt parent child = narrows_bound p Scalar.gt parent child
narrows_by p eq parent child = ok (is_eq child.op && str_eq child.value parent.value)
narrows_by p ne parent child = ok (is_ne child.op && str_eq child.value parent.value)
narrows_by p member parent child = ok (narrows_set (split_set parent.value) child.op child.value)
narrows_by p (unknown o) parent child = err (unknown_operator o)

unfoldable pub narrows : Platform → Caveat → Caveat → Result Error Bool
unfolding narrows_by
narrows p parent child = narrows_by p parent.op parent child
