-- ===== src/Scalar.antt =====
-- internal/scalar/scalar.go: the ordering that caveats and policy conditions share. A value is an
-- instant, in exact nanoseconds, or a number.
pub mod Order
pub mod Bounds
use kessa.Base.{
  ℕ, suc, ◌^◌, ◌-◌, Str, Bool, true, false, not, ◌&&◌, ◌||◌, Option, none, some, if◌then◌else◌,
}
use kessa.Base.Int.{ℤ, pos, negsuc, neg, ltb_ℤ}
use kessa.Platform.{Platform}
use kessa.Platform.Float.{Float64, nan, plus_inf, minus_inf, finite, scale, scaled, trunc, fraction}

pub data Op : Type 0 where
  le lt ge gt : Op

pub data Value : Type 0 where
  instant : ℤ → Value
  number : Float64 → Value

-- The results -1, 0 and +1 of a comparison.
pub data Cmp : Type 0 where
  below same above : Cmp

pub flip : Cmp → Cmp
flip below = above
flip same = same
flip above = below

-- The instants that `time.Time.UnixNano` can represent.
unfoldable pub min_unix_nano : ℤ
min_unix_nano = negsuc (2 ^ 63 - 1)

unfoldable pub max_unix_nano : ℤ
max_unix_nano = pos (2 ^ 63 - 1)

abbrev pub is_inf : Float64 → Bool
is_inf plus_inf = true
is_inf minus_inf = true
is_inf _ = false

parse_instant : ℤ → Option Value
parse_instant t = if ltb_ℤ t min_unix_nano || ltb_ℤ max_unix_nano t then none else some (instant t)

parse_number : Option Float64 → Option Value
parse_number none = none
parse_number (some f) = if is_inf f then none else some (number f)

-- RFC 3339 is tried first.
pub parse_with : Option ℤ → Option Float64 → Option Value
unfolding parse_instant parse_number
parse_with (some t) f = parse_instant t
parse_with none f = parse_number f

pub parse : Platform → Str → Option Value
parse p s = parse_with (p.parse_time s) (p.parse_float s)

unfoldable pub cmp_int64 : ℤ → ℤ → Cmp
cmp_int64 a b = if ltb_ℤ a b then below else if ltb_ℤ b a then above else same

pub cmp_float64 : Float64 → Float64 → Option Cmp
unfolding cmp_int64
cmp_float64 nan g = none
cmp_float64 f nan = none
cmp_float64 (finite a) (finite b) = some (cmp_int64 a b)
cmp_float64 minus_inf minus_inf = some same
cmp_float64 minus_inf g = some below
cmp_float64 plus_inf plus_inf = some same
cmp_float64 plus_inf g = some above
cmp_float64 (finite a) plus_inf = some below
cmp_float64 (finite a) minus_inf = some above

-- The comparison after the integer parts: what the truncation dropped decides a tie.
cmp_fraction : ℤ → Cmp
cmp_fraction frac = if ltb_ℤ (pos 0) frac then below else if ltb_ℤ frac (pos 0) then above else same

pub cmp_whole : ℤ → ℤ → Cmp
unfolding cmp_int64 cmp_fraction
cmp_whole n m = elim (cmp_int64 n (trunc m)) [ same ↦ cmp_fraction (fraction m) | other ↦ other ]

-- `1 << 63`, in the units of a float.
pub two_pow_63 : ℤ
two_pow_63 = scaled (pos (2 ^ 63))

pub minus_two_pow_63 : ℤ
minus_two_pow_63 = scaled (negsuc (2 ^ 63 - 1))

unfoldable pub cmp_int64_float : ℤ → Float64 → Option Cmp
cmp_int64_float n nan = none
cmp_int64_float n plus_inf = some below
cmp_int64_float n minus_inf = some above
cmp_int64_float n (finite m) =
    if not (ltb_ℤ m two_pow_63)
    then some below
    else if ltb_ℤ m minus_two_pow_63
    then some above
    else some (cmp_whole n m)

abbrev pub flip? : Option Cmp → Option Cmp
flip? none = none
flip? (some c) = some (flip c)

unfoldable pub compare : Value → Value → Option Cmp
compare (instant a) (instant b) = some (cmp_int64 a b)
compare (instant a) (number g) = cmp_int64_float a g
compare (number f) (instant b) = flip? (cmp_int64_float b f)
compare (number f) (number g) = cmp_float64 f g

-- `cmp <= 0` and so on.
abbrev pub holds : Op → Cmp → Bool
holds le c = elim c [ above ↦ false | _ ↦ true ]
holds lt c = elim c [ below ↦ true | _ ↦ false ]
holds ge c = elim c [ below ↦ false | _ ↦ true ]
holds gt c = elim c [ above ↦ true | _ ↦ false ]

unfoldable pub satisfies : Value → Op → Value → Bool
satisfies v op w = elim (compare v w) [ none ↦ false | some c ↦ holds op c ]
