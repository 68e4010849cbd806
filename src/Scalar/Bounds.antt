-- ===== src/Scalar/Bounds.antt =====
-- What scalar.Parse accepts.
use kessa.Base.{◌≡◌, false, Option, none, some, arith, Str}
use kessa.Base.Int.{ℤ}
use kessa.Platform.{Platform}
use kessa.Platform.Float.{Float64}
use kessa.Scalar.{Value, instant, number, parse, is_inf, parse_instant, parse_number, parse_with}
use kessa.Scalar.Order.{InRange}

parse_instant_bounds :
    (t : ℤ) (v : Value) → parse_instant t ≡ some v → (v ≡ instant t) × InRange (instant t)
unfolding parse_instant
parse_instant_bounds t v h = ground arith

abbrev pub IsComparable : Value → Type 0
IsComparable (instant t) = InRange (instant t)
IsComparable (number f) = is_inf f ≡ false

parse_instant-IsComparable : (t : ℤ) (v : Value) → parse_instant t ≡ some v → IsComparable v
unfolding parse_instant
parse_instant-IsComparable t (instant s) h = ground arith
parse_instant-IsComparable t (number f) h = ground arith

parse_number-IsComparable :
    (o : Option Float64) (v : Value) → parse_number o ≡ some v → IsComparable v
unfolding parse_number
parse_number-IsComparable none v h = cc
parse_number-IsComparable (some f) (instant s) h = ground arith
parse_number-IsComparable (some f) (number g) h = ground arith

parsed-IsComparable :
    (t : Option ℤ) (f : Option Float64) (v : Value) → parse_with t f ≡ some v → IsComparable v
unfolding parse_with
parsed-IsComparable none f v h = parse_number-IsComparable f v h
parsed-IsComparable (some t) f v h = parse_instant-IsComparable t v h

IsComparable-InRange : (v : Value) → IsComparable v → InRange v
IsComparable-InRange (instant t) h = h
IsComparable-InRange (number f) h = tt

module _ (p : Platform) (s : Str) (v : Value) (parsed : parse p s ≡ some v) where
  -- A text that scalar.Parse accepts is an instant whose nanoseconds fit an int64, or a number that
  -- is no infinity.
  pub parse-IsComparable : IsComparable v
  unfolding parse
  parse-IsComparable = parsed-IsComparable (p.parse_time s) (p.parse_float s) v parsed

  pub parse-InRange : InRange v
  parse-InRange = IsComparable-InRange v parse-IsComparable
