-- ===== src/Macaroon/Narrowing.antt =====
-- `narrows` is sound: a child that narrows its parent permits no value that the parent refuses.
use kessa.Base.{
  Str, str_eq, str_eq_iff, ◌≡◌, refl, sym, subst, Bool, true, ◌&&◌, Option, none, some, List, [],
  ◌∷◌, arith, ok, ok_inj, require, >>=-eq-ok, require-eq-ok,
}
use kessa.Base.Dict.{Dict, lookup}
use kessa.Platform.{Platform}
use kessa.Scalar
use kessa.Scalar.{Value, Cmp, below, same, above, holds}
use kessa.Scalar.Order.{compare_trans, satisfies-compare, compare-satisfies, Follows}
use kessa.Scalar.Bounds.{parse-InRange}
use kessa.Macaroon.{
  Op, eq, ne, le, lt, ge, gt, member, unknown, Caveat, narrows, narrows_by, narrows_bound,
  narrows_within, narrows_two_bounds, narrows_set, bound_subset, subset_by, subset_if_ordered,
  in_bound, all_in_bound, all_contained, contains, split_set, satisfied, is_upper, is_eq, is_ne,
}
use kessa.Macaroon.Accepts.{accepts, bound_holds, satisfied_iff, Permits}

-- Two bounds of one direction: where the outcome of comparing them says subset, a value within the
-- child's bound is within the parent's.
subset_by_sound :
    (child parent : Scalar.Op) (c d e : Cmp)
    → is_upper child ≡ is_upper parent
    → subset_by child parent (is_upper parent) d ≡ true
    → holds child c ≡ true
    → Follows c d e
    → holds parent e ≡ true
unfolding subset_by
subset_by_sound child parent c d e u s h f = ground arith

module _ (p : Platform) where
  ordered_subset :
      (child parent : Scalar.Op) (upper : Bool) (o : Option Cmp)
      → subset_if_ordered child parent upper o ≡ true
      → (d : Cmp) × (o ≡ some d) × (subset_by child parent upper d ≡ true)
  unfolding subset_if_ordered
  ordered_subset child parent upper none h = cc
  ordered_subset child parent upper (some d) h = (d, refl, h)

  bound_subset_sound :
      (child parent : Scalar.Op) (got cv pv : Str) (g c v : Value)
      → Scalar.parse p got ≡ some g
      → Scalar.parse p cv ≡ some c
      → Scalar.parse p pv ≡ some v
      → is_upper child ≡ is_upper parent
      → bound_subset child c parent v (is_upper parent) ≡ true
      → Scalar.satisfies g child c ≡ true
      → Scalar.satisfies g parent v ≡ true
  unfolding bound_subset
  bound_subset_sound child parent got cv pv g c v eg ec ev u s h =
      let (x, ex, hx) = satisfies-compare g c child h in
      let (d, ed, hd) = ordered_subset child parent (is_upper parent) (Scalar.compare c v) s in
      let (r, er, follows) =
        compare_trans g c v (parse-InRange p got g eg) (parse-InRange p cv c ec)
          (parse-InRange p pv v ev) ex ed in
      compare-satisfies g v parent er (subset_by_sound child parent x d r u hd hx follows)

  bound_holds_inv :
      (got v : Str) (o : Scalar.Op)
      → bound_holds (Scalar.parse p got) o (Scalar.parse p v) ≡ true
      → (x : Value) × (y : Value) × (Scalar.parse p got ≡ some x)
        × (Scalar.parse p v ≡ some y)
        × (Scalar.satisfies x o y ≡ true)
  bound_holds_inv got v o h = bounds (Scalar.parse p got) (Scalar.parse p v) h
    where
      bounds :
          (g w : Option Value)
          → bound_holds g o w ≡ true
          → (x : Value) × (y : Value) × (g ≡ some x)
            × (w ≡ some y)
            × (Scalar.satisfies x o y ≡ true)
      bounds (some x) (some y) k = (x, y, refl, refl, k)
      bounds (some x) none k = cc
      bounds none w k = cc

  bound_holds_intro :
      (got v : Str) (o : Scalar.Op) (x y : Value)
      → Scalar.parse p got ≡ some x
      → Scalar.parse p v ≡ some y
      → Scalar.satisfies x o y ≡ true
      → bound_holds (Scalar.parse p got) o (Scalar.parse p v) ≡ true
  bound_holds_intro got v o x y ex ey h = rw (ex, ey) h

  -- A child that is a bound of either direction.
  two_bounds_sound :
      (o child : Scalar.Op) (pv : Value) (got cv value : Str)
      → Scalar.parse p value ≡ some pv
      → narrows_two_bounds p o pv child cv ≡ ok true
      → bound_holds (Scalar.parse p got) child (Scalar.parse p cv) ≡ true
      → bound_holds (Scalar.parse p got) o (Scalar.parse p value) ≡ true
  unfolding narrows_two_bounds
  two_bounds_sound o child pv got cv value ev n h =
      let (g, c, eg, ec, k) = bound_holds_inv got cv child h in
      bound_holds_intro got value o g pv eg ev
        (bound_subset_sound child o got cv value g c pv eg ec ev (ground arith) (ground arith) k)

  in_bound_sound :
      (o : Scalar.Op) (pv : Value) (got value : Str)
      → Scalar.parse p value ≡ some pv
      → in_bound (Scalar.parse p got) o pv ≡ true
      → bound_holds (Scalar.parse p got) o (Scalar.parse p value) ≡ true
  unfolding in_bound
  in_bound_sound o pv got value ev h = rw ev (same_test (Scalar.parse p got) h)
    where
      same_test : (x : Option Value) → in_bound x o pv ≡ true → bound_holds x o (some pv) ≡ true
      same_test none k = cc
      same_test (some x) k = k

  all_in_bound_sound :
      (o : Scalar.Op) (pv : Value) (got : Str) (ms : List Str)
      → all_in_bound p o pv ms ≡ true
      → contains ms got ≡ true
      → in_bound (Scalar.parse p got) o pv ≡ true
  unfolding all_in_bound contains
  all_in_bound_sound o pv got [] h k = cc
  all_in_bound_sound o pv got (m ∷ ms) h k =
      ground (arith, str_eq_iff got m, all_in_bound_sound o pv got ms)

  all_contained_sound :
      (set ms : List Str) (got : Str)
      → all_contained set ms ≡ true
      → contains ms got ≡ true
      → contains set got ≡ true
  unfolding all_contained contains
  all_contained_sound set [] got h k = cc
  all_contained_sound set (m ∷ ms) got h k =
      ground (arith, str_eq_iff got m, all_contained_sound set ms got)

  within_sound :
      (o : Scalar.Op) (pv : Value) (op : Op) (got cv value : Str)
      → Scalar.parse p value ≡ some pv
      → narrows_within p o pv op cv ≡ ok true
      → accepts p op got cv ≡ true
      → bound_holds (Scalar.parse p got) o (Scalar.parse p value) ≡ true
  unfolding narrows_within accepts
  within_sound o pv le got cv value ev n h = two_bounds_sound o Scalar.le pv got cv value ev n h
  within_sound o pv lt got cv value ev n h = two_bounds_sound o Scalar.lt pv got cv value ev n h
  within_sound o pv ge got cv value ev n h = two_bounds_sound o Scalar.ge pv got cv value ev n h
  within_sound o pv gt got cv value ev n h = two_bounds_sound o Scalar.gt pv got cv value ev n h
  within_sound o pv eq got cv value ev n h = in_bound_sound o pv got value ev (
      subst (λ s. in_bound (Scalar.parse p s) o pv ≡ true) (sym ((str_eq_iff got cv).0 h))
        (ok_inj n))
  within_sound o pv member got cv value ev n h =
      in_bound_sound o pv got value ev (all_in_bound_sound o pv got (split_set cv) (ok_inj n) h)
  within_sound o pv ne got cv value ev n h = cc
  within_sound o pv (unknown s) got cv value ev n h = cc

  bound_sound :
      (o : Scalar.Op) (parent child : Caveat) (got : Str)
      → narrows_bound p o parent child ≡ ok true
      → accepts p child.op got child.value ≡ true
      → bound_holds (Scalar.parse p got) o (Scalar.parse p parent.value) ≡ true
  unfolding narrows_bound
  bound_sound o parent child got n h =
      let (pv, ev, m) = >>=-eq-ok (require (Scalar.parse p parent.value) _) _ n in
      within_sound o pv child.op got child.value parent.value (require-eq-ok _ _ ev) m h

  set_sound :
      (set : List Str) (op : Op) (cv got : Str)
      → narrows_set set op cv ≡ true
      → accepts p op got cv ≡ true
      → contains set got ≡ true
  unfolding narrows_set accepts
  set_sound set eq cv got n h = subst (λ s. contains set s ≡ true) (sym ((str_eq_iff got cv).0 h)) n
  set_sound set member cv got n h = all_contained_sound set (split_set cv) got n h
  set_sound set ne cv got n h = cc
  set_sound set le cv got n h = cc
  set_sound set lt cv got n h = cc
  set_sound set ge cv got n h = cc
  set_sound set gt cv got n h = cc
  set_sound set (unknown s) cv got n h = cc

  same_value :
      (op : Op) (cv v got : Str)
      → str_eq cv v ≡ true
      → accepts p op got cv ≡ true
      → accepts p op got v ≡ true
  same_value op cv v got e h = subst (λ s. accepts p op got s ≡ true) ((str_eq_iff cv v).0 e) h

  eq_sound :
      (op : Op) (cv v got : Str)
      → (is_eq op && str_eq cv v) ≡ true
      → accepts p op got cv ≡ true
      → accepts p eq got v ≡ true
  eq_sound eq cv v got n h = same_value eq cv v got n h
  eq_sound op cv v got n h = cc

  ne_sound :
      (op : Op) (cv v got : Str)
      → (is_ne op && str_eq cv v) ≡ true
      → accepts p op got cv ≡ true
      → accepts p ne got v ≡ true
  ne_sound ne cv v got n h = same_value ne cv v got n h
  ne_sound op cv v got n h = cc

  value_sound :
      (pop : Op) (parent child : Caveat) (got : Str)
      → narrows_by p pop parent child ≡ ok true
      → accepts p child.op got child.value ≡ true
      → accepts p pop got parent.value ≡ true
  unfolding narrows_by accepts
  value_sound le parent child got n h = bound_sound Scalar.le parent child got n h
  value_sound lt parent child got n h = bound_sound Scalar.lt parent child got n h
  value_sound ge parent child got n h = bound_sound Scalar.ge parent child got n h
  value_sound gt parent child got n h = bound_sound Scalar.gt parent child got n h
  value_sound eq parent child got n h = eq_sound child.op child.value parent.value got (ok_inj n) h
  value_sound ne parent child got n h = ne_sound child.op child.value parent.value got (ok_inj n) h
  value_sound member parent child got n h =
      set_sound (split_set parent.value) child.op child.value got (ok_inj n) h
  value_sound (unknown o) parent child got n h = cc

-- Where a caveat narrows another of its field, every context that satisfies it satisfies the other.
pub narrows_sound :
    (p : Platform) (parent child : Caveat) (ctx : Dict Str)
    → parent.field ≡ child.field
    → narrows p parent child ≡ ok true
    → satisfied p ctx child ≡ ok tt
    → satisfied p ctx parent ≡ ok tt
unfolding narrows
narrows_sound p parent child ctx same_field n h = (satisfied_iff p ctx parent).1 (
    subst (λ f. Permits p parent.op parent.value (lookup f ctx)) (sym same_field)
      (permits (lookup child.field ctx) ((satisfied_iff p ctx child).0 h)))
  where
    permits :
        (found : Option Str)
        → Permits p child.op child.value found
        → Permits p parent.op parent.value found
    permits none k = k
    permits (some got) k = value_sound p parent.op parent child got n k
