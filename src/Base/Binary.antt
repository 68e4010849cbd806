-- ===== src/Base/Binary.antt =====
-- The framing of signed messages: parts with a zero byte between them, and big-endian counters.
use Prim.Native.Nat.{ℕ, ◌/◌, ◌%◌, ◌^◌, ◌<◌}
use mathlib.Core.Path.{◌≡◌, refl, ap, ap₂, subst}
use mathlib.Core.Logic.{◌≢◌}
use mathlib.Core.List.{[], ◌∷◌, ◌++◌}
use native.Mathlib.Omega.{arith}
use mathlib.Core.Bool.{Bool, true, not, ◌&&◌}
use kessa.Base.Tests.{◌==◌}
use kessa.Base.Lists.{length, length-append, All, get_or}
use kessa.Base.Strings.{Bytes}

-- `binary.BigEndian.PutUint64`
unfoldable pub big_endian : ℕ → Bytes
big_endian n =
    n / 2 ^ 56 % 256
    ∷ n / 2 ^ 48 % 256
    ∷ n / 2 ^ 40 % 256
    ∷ n / 2 ^ 32 % 256
    ∷ n / 2 ^ 24 % 256
    ∷ n / 2 ^ 16 % 256
    ∷ n / 2 ^ 8 % 256
    ∷ n % 256
    ∷ []

abbrev pub NoZero : Bytes → Type 0
NoZero = All (λ c. c ≢ 0)

abbrev no_zero : Bytes → Bool
no_zero [] = true
no_zero (c ∷ cs) = not (c == 0) && no_zero cs

pub no_zero-NoZero : (bs : Bytes) → no_zero bs ≡ true → NoZero bs
no_zero-NoZero [] h = tt
no_zero-NoZero (c ∷ cs) h = (ground arith, no_zero-NoZero cs (ground arith))

-- The next part after a zero byte.
infixr 66 ◌⁀◌
abbrev pub ◌⁀◌ : Bytes → Bytes → Bytes
a ⁀ b = a ++ (0 ∷ b)

abbrev digit : ℕ → ℕ → ℕ
digit n k = get_or (big_endian n) k 0

-- A counter of 64 bits is read back from its bytes.
pub big_endian_inj : (m n : ℕ) → m < 2 ^ 64 → n < 2 ^ 64 → big_endian m ≡ big_endian n → m ≡ n
unfolding big_endian
big_endian_inj m n hm hn e =
    let d : (k : ℕ) → digit m k ≡ digit n k = λ k. ap (λ bs. get_or bs k 0) e in
    omega (arith, d 0, d 1, d 2, d 3, d 4, d 5, d 6, d 7)

pub length-big_endian : (n : ℕ) → length (big_endian n) ≡ 8
unfolding big_endian
length-big_endian n = refl

-- A part without a zero byte ends at the first zero.
pub part_inj : (a b : Bytes) {x y : Bytes} → NoZero a → NoZero b → a ⁀ x ≡ b ⁀ y → (a ≡ b) × (x ≡ y)
part_inj [] [] ha hb e = (refl, cc)
part_inj [] (c ∷ b) ha hb e = absurd (hb.0 (cc))
part_inj (c ∷ a) [] ha hb e = absurd (ha.0 (cc))
part_inj (c ∷ a) (d ∷ b) {x} {y} ha hb e =
    let head : c ≡ d = cc in
    let tail : a ⁀ x ≡ b ⁀ y = cc in let (p, q) = part_inj a b ha.1 hb.1 tail in (ap₂ ◌∷◌ head p, q)

-- Where the lengths of the last parts agree, the first parts end at the same place.
pub append_inj :
    (a b : Bytes) {x y : Bytes} → length a ≡ length b → a ++ x ≡ b ++ y → (a ≡ b) × (x ≡ y)
append_inj [] [] h e = (refl, e)
append_inj [] (d ∷ b) h e = absurd (omega arith)
append_inj (c ∷ a) [] h e = absurd (omega arith)
append_inj (c ∷ a) (d ∷ b) {x} {y} h e =
    let head : c ≡ d = cc in
    let tail : a ++ x ≡ b ++ y = cc in
    let (p, q) = append_inj a b (omega arith) tail in (ap₂ ◌∷◌ head p, q)

pub suffix_inj :
    (a b : Bytes) {x y : Bytes} → length x ≡ length y → a ++ x ≡ b ++ y → (a ≡ b) × (x ≡ y)
suffix_inj a b {x} {y} h e =
    append_inj a b (omega (arith, ap length e, length-append a x, length-append b y)) e

zero_within : (b y : Bytes) → NoZero (b ⁀ y) → ⊥
zero_within [] y h = h.0 refl
zero_within (c ∷ b) y h = zero_within b y h.1

-- The last zero before a part without a zero byte is the one that stands before it.
pub last_part_inj :
    (a b : Bytes) (x y : Bytes) → NoZero x → NoZero y → a ⁀ x ≡ b ⁀ y → (a ≡ b) × (x ≡ y)
last_part_inj [] [] x y hx hy e = (refl, cc)
last_part_inj [] (d ∷ b) x y hx hy e = absurd (zero_within b y (subst NoZero (cc) hx))
last_part_inj (c ∷ a) [] x y hx hy e = absurd (zero_within a x (subst NoZero (cc) hy))
last_part_inj (c ∷ a) (d ∷ b) x y hx hy e =
    let (p, q) = last_part_inj a b x y hx hy (cc) in let head : c ≡ d = cc in (ap₂ ◌∷◌ head p, q)
