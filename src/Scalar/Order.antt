-- ===== src/Scalar/Order.antt =====
-- The order of scalar.go is the order of exact numbers: no comparison rounds, between two instants,
-- two floats, or one of each.
use kessa.Base.{
  ℕ, suc, ◌+◌, ◌-◌, ◌*◌, ◌/◌, ◌%◌, ◌^◌, ◌≤◌, ◌<◌, ◌≡◌, refl, sym, ap, ◌∙◌, inl, inr, true, Option,
  none, some, arith, Option-cases,
}
use kessa.Base.Int.{ℤ, pos, negsuc, ltb_ℤ, ◌≤ℤ◌, eq_of_parts}
use kessa.Platform.Float.{
  Float64, nan, plus_inf, minus_inf, finite, scale, scale_pos, scaled, trunc, fraction,
}
use kessa.Scalar.{
  Value, instant, number, Cmp, below, same, above, flip, compare, cmp_int64, cmp_whole,
  cmp_int64_float, cmp_float64, two_pow_63, minus_two_pow_63, min_unix_nano, max_unix_nano, flip?,
  satisfies, Op, le, holds,
}

-- A number of units, or beyond every one of them.
pub data Rank : Type 0 where
  low high : Rank
  at : ℤ → Rank

pub rank : Value → Option Rank
rank (instant t) = some (at (scaled t))
rank (number nan) = none
rank (number plus_inf) = some high
rank (number minus_inf) = some low
rank (number (finite m)) = some (at m)

pub cmp_rank : Rank → Rank → Cmp
cmp_rank low low = same
cmp_rank low r = below
cmp_rank high high = same
cmp_rank high r = above
cmp_rank (at a) low = above
cmp_rank (at a) high = below
cmp_rank (at a) (at b) = cmp_int64 a b

abbrev pub cmp_ranks : Option Rank → Option Rank → Option Cmp
cmp_ranks none s = none
cmp_ranks (some r) none = none
cmp_ranks (some r) (some s) = some (cmp_rank r s)

-- The nanoseconds fit an int64, as `parse` makes sure.
abbrev pub InRange : Value → Type 0
InRange (instant t) = (min_unix_nano ≤ℤ t) × (t ≤ℤ max_unix_nano)
InRange (number f) = Unit {0}

module _ (u : ℕ) (u_pos : 0 < u) where
  mul_below : (n q m : ℕ) → n < q → q * u ≤ m → n * u + u ≤ m
  mul_below n q m h k = grind arith

  quotient_le : (m : ℕ) → m / u * u ≤ m
  quotient_le m = grind arith

  remainder : (m : ℕ) → (m ≡ m / u * u + m % u) × (m % u < u)
  remainder m = grind arith

  -- Comparing whole parts and then the remainder compares the exact values.
  whole_lt : (n m : ℕ) → n < m / u → n * u < m
  whole_lt n m h = ground (arith, mul_below n (m / u) m h (quotient_le m))

  whole_gt : (n m : ℕ) → m / u < n → m < n * u
  whole_gt n m h = ground (arith, mul_below (m / u) n (n * u) h, remainder m)

  whole_eq : (n m : ℕ) → n ≡ m / u → m ≡ n * u + m % u
  whole_eq n m h = ground (arith, remainder m)

cmp_whole-pos_pos : (n m : ℕ) → cmp_whole (pos n) (pos m) ≡ cmp_int64 (scaled (pos n)) (pos m)
unfolding cmp_whole scaled trunc fraction
cmp_whole-pos_pos n m = ground (
  arith,
  whole_lt scale scale_pos n m,
  whole_gt scale scale_pos n m,
  whole_eq scale scale_pos n m,
  remainder scale scale_pos m,
)

cmp_whole-neg_neg :
    (n m : ℕ) → cmp_whole (negsuc n) (negsuc m) ≡ cmp_int64 (scaled (negsuc n)) (negsuc m)
unfolding cmp_whole scaled trunc fraction
cmp_whole-neg_neg n m = ground (
  arith,
  whole_lt scale scale_pos (suc n) (suc m),
  whole_gt scale scale_pos (suc n) (suc m),
  whole_eq scale scale_pos (suc n) (suc m),
  remainder scale scale_pos (suc m),
)

cmp_whole-pos_neg : (n m : ℕ) → cmp_whole (pos n) (negsuc m) ≡ cmp_int64 (scaled (pos n)) (negsuc m)
unfolding cmp_whole scaled trunc fraction
cmp_whole-pos_neg n m = ground (
  arith,
  whole_gt scale scale_pos n (suc m),
  whole_eq scale scale_pos n (suc m),
  remainder scale scale_pos (suc m),
)

cmp_whole-neg_pos : (n m : ℕ) → cmp_whole (negsuc n) (pos m) ≡ cmp_int64 (scaled (negsuc n)) (pos m)
unfolding cmp_whole scaled trunc fraction
cmp_whole-neg_pos n m = ground (
  arith,
  whole_gt scale scale_pos (suc n) m,
  whole_eq scale scale_pos (suc n) m,
  remainder scale scale_pos m,
)

cmp_whole_exact : (n m : ℤ) → cmp_whole n m ≡ cmp_int64 (scaled n) m
cmp_whole_exact (pos n) (pos m) = cmp_whole-pos_pos n m
cmp_whole_exact (pos n) (negsuc m) = cmp_whole-pos_neg n m
cmp_whole_exact (negsuc n) (pos m) = cmp_whole-neg_pos n m
cmp_whole_exact (negsuc n) (negsuc m) = cmp_whole-neg_neg n m

mul_lt : (u a b : ℕ) → 0 < u → a < b → a * u < b * u
mul_lt u a b h k = grind arith

-- Scaling keeps the order.
scaled_lt : (a b : ℤ) → ltb_ℤ a b ≡ true → ltb_ℤ (scaled a) (scaled b) ≡ true
unfolding scaled
scaled_lt (pos a) (pos b) h = ground (arith, mul_lt scale a b scale_pos)
scaled_lt (pos a) (negsuc b) h = ground arith
scaled_lt (negsuc a) (pos b) h = ground (arith, mul_lt scale 0 (suc a) scale_pos)
scaled_lt (negsuc a) (negsuc b) h = ground (arith, mul_lt scale (suc b) (suc a) scale_pos)

cmp_int64-scaled : (a b : ℤ) → cmp_int64 (scaled a) (scaled b) ≡ cmp_int64 a b
unfolding cmp_int64
cmp_int64-scaled a b = ground (arith, scaled_lt a b, scaled_lt b a, eq_of_parts a b)

-- A float at least as large as 2^63 exceeds every int64, and one below -2^63 is less than any.
cmp_int64_float_exact :
    (n : ℤ) (f : Float64)
    → InRange (instant n)
    → cmp_int64_float n f ≡ cmp_ranks (rank (instant n)) (rank (number f))
unfolding cmp_int64_float cmp_int64 rank cmp_rank two_pow_63 minus_two_pow_63 min_unix_nano
    max_unix_nano
cmp_int64_float_exact n nan h = refl
cmp_int64_float_exact n plus_inf h = refl
cmp_int64_float_exact n minus_inf h = refl
cmp_int64_float_exact n (finite m) h = ground (
  arith,
  cmp_whole_exact n m,
  scaled_lt n (pos (2 ^ 63)),
  scaled_lt (negsuc (2 ^ 63 - 1)) n,
  eq_of_parts n (negsuc (2 ^ 63 - 1)),
)

-- The two orders of the arguments give mirrored results.
flip-cmp_int64 : (a b : ℤ) → flip (cmp_int64 a b) ≡ cmp_int64 b a
unfolding cmp_int64 flip
flip-cmp_int64 a b = ground arith

cmp_ranks_flip :
    (r : Option Rank) (b : ℤ) → flip? (cmp_ranks (some (at b)) r) ≡ cmp_ranks r (some (at b))
unfolding cmp_rank flip
cmp_ranks_flip none b = refl
cmp_ranks_flip (some low) b = refl
cmp_ranks_flip (some high) b = refl
cmp_ranks_flip (some (at a)) b = ap some (flip-cmp_int64 b a)

mirrored :
    (f : Float64) (b : ℤ)
    → flip? (cmp_ranks (rank (instant b)) (rank (number f)))
      ≡ cmp_ranks (rank (number f)) (rank (instant b))
unfolding rank
mirrored f b = cmp_ranks_flip (rank (number f)) (scaled b)

-- Comparing two values, whose instants are within an int64 of nanoseconds, compares the exact
-- numbers that they stand for.
pub compare_exact :
    (v w : Value) → InRange v → InRange w → compare v w ≡ cmp_ranks (rank v) (rank w)
unfolding compare rank cmp_rank cmp_float64
compare_exact (instant a) (instant b) hv hw = ap some (sym (cmp_int64-scaled a b))
compare_exact (instant a) (number g) hv hw = cmp_int64_float_exact a g hv
compare_exact (number f) (instant b) hv hw = ap flip? (cmp_int64_float_exact b f hw) ∙ mirrored f b
compare_exact (number nan) (number g) hv hw = refl
compare_exact (number plus_inf) (number g) hv hw = ground arith
compare_exact (number minus_inf) (number g) hv hw = ground arith
compare_exact (number (finite a)) (number g) hv hw = ground arith

-- What two comparisons through a middle value say of the outer two.
abbrev pub Follows : Cmp → Cmp → Cmp → Type 0
Follows below below c = c ≡ below
Follows below same c = c ≡ below
Follows below above c = Unit {0}
Follows same d c = c ≡ d
Follows above below c = Unit {0}
Follows above same c = c ≡ above
Follows above above c = c ≡ above

cmp_int64_trans : (a b c : ℤ) → Follows (cmp_int64 a b) (cmp_int64 b c) (cmp_int64 a c)
unfolding cmp_int64
cmp_int64_trans a b c = ground arith

cmp_rank_trans : (r s t : Rank) → Follows (cmp_rank r s) (cmp_rank s t) (cmp_rank r t)
unfolding cmp_rank
cmp_rank_trans (at a) (at b) (at c) = cmp_int64_trans a b c
cmp_rank_trans low low t = refl
cmp_rank_trans r s t = ground arith

cmp_ranks_trans :
    (r s t : Option Rank) (c d : Cmp)
    → cmp_ranks r s ≡ some c
    → cmp_ranks s t ≡ some d
    → (e : Cmp) × (cmp_ranks r t ≡ some e) × Follows c d e
cmp_ranks_trans none s t c d p q = cc
cmp_ranks_trans (some r) none t c d p q = cc
cmp_ranks_trans (some r) (some s) none c d p q = cc
cmp_ranks_trans (some r) (some s) (some t) c d p q =
    let p' : cmp_rank r s ≡ c = cc in
    let q' : cmp_rank s t ≡ d = cc in (cmp_rank r t, refl, rw (← p', ← q') (cmp_rank_trans r s t))

-- Where two comparisons through a middle value have results, the outer values compare, and the
-- result follows.
pub compare_trans :
    (v w u : Value) {c d : Cmp}
    → InRange v
    → InRange w
    → InRange u
    → compare v w ≡ some c
    → compare w u ≡ some d
    → (e : Cmp) × (compare v u ≡ some e) × Follows c d e
compare_trans v w u {c} {d} hv hw hu p q = rw (compare_exact v u hv hu) (
    cmp_ranks_trans (rank v) (rank w) (rank u) c d (sym (compare_exact v w hv hw) ∙ p)
      (sym (compare_exact w u hw hu) ∙ q))

-- A comparison that holds has a result.
pub satisfies-compare :
    (v w : Value) (op : Op)
    → satisfies v op w ≡ true
    → (c : Cmp) × (compare v w ≡ some c) × (holds op c ≡ true)
unfolding satisfies
satisfies-compare v w op h = elim (Option-cases (compare v w)) [
  | inl e ↦ absurd (ground arith)
  | inr (c, e) ↦ (c, e, ground arith)
]

pub compare-satisfies :
    (v w : Value) (op : Op) {c : Cmp}
    → compare v w ≡ some c
    → holds op c ≡ true
    → satisfies v op w ≡ true
unfolding satisfies
compare-satisfies v w op e h = rw (e, satisfies) h

le-Follows :
    (c d e : Cmp) → holds le c ≡ true → holds le d ≡ true → Follows c d e → holds le e ≡ true
le-Follows c d e p q f = ground arith

-- The order is transitive: where v <= w and w <= u hold, v <= u holds, whichever of the three are
-- instants and whichever are numbers, for instants within an int64 of nanoseconds.
pub satisfies_trans :
    (v w u : Value)
    → InRange v
    → InRange w
    → InRange u
    → satisfies v le w ≡ true
    → satisfies w le u ≡ true
    → satisfies v le u ≡ true
satisfies_trans v w u hv hw hu p q =
    let (c, ec, hc) = satisfies-compare v w le p in
    let (d, ed, hd) = satisfies-compare w u le q in
    let (e, ee, follows) = compare_trans v w u hv hw hu ec ed in
    compare-satisfies v u le ee (le-Follows c d e hc hd follows)
