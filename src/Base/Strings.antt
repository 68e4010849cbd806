-- ===== src/Base/Strings.antt =====
-- Go's strings and byte slices as lists of bytes, with the functions of package strings that the
-- program calls.
use Prim.Native.Nat.{ℕ}
use Prim.Native.Char.{code}
use Prim.Native.String.{String}
use mathlib.Core.Path.{◌≡◌, refl, ap₂}
use mathlib.Core.Logic.{◌↔◌, ◌≢◌}
use mathlib.Core.Bool.{Bool, true, false, not, ◌&&◌, ◌||◌}
use mathlib.Core.List.{List, [], ◌∷◌, ◌++◌, reverse}
use native.Mathlib.Omega.{arith}
use kessa.Base.Tests.{◌==◌, ==_iff, leb, if◌then◌else◌, &&-eq-true}

abbrev pub Bytes : Type 0
Bytes = List ℕ

abbrev pub Str : Type 0
Str = List ℕ

-- A literal of the program; its text is ASCII.
abbrev pub codes : String → Str
codes String.[] = []
codes (String.◌∷◌ c s) = code c ∷ codes s

-- `==` on strings, and `bytes.Equal`.
unfoldable pub str_eq : Str → Str → Bool
str_eq [] [] = true
str_eq [] (y ∷ ys) = false
str_eq (x ∷ xs) [] = false
str_eq (x ∷ xs) (y ∷ ys) = x == y && str_eq xs ys

pub str_eq_sound : (s t : Str) → str_eq s t ≡ true → s ≡ t
unfolding str_eq
str_eq_sound [] [] h = refl
str_eq_sound [] (y ∷ ys) h = cc
str_eq_sound (x ∷ xs) [] h = cc
str_eq_sound (x ∷ xs) (y ∷ ys) h =
    let (p, q) = &&-eq-true (x == y) (str_eq xs ys) h in
    ap₂ ◌∷◌ ((==_iff x y).0 p) (str_eq_sound xs ys q)

pub str_eq_refl : (s : Str) → str_eq s s ≡ true
unfolding str_eq
str_eq_refl [] = refl
str_eq_refl (x ∷ xs) = ground (arith, str_eq_refl xs)

pub str_eq_iff : (s t : Str) → (str_eq s t ≡ true) ↔ (s ≡ t)
str_eq_iff s t = (str_eq_sound s t, λ e. cc (str_eq_refl s, e))

abbrev pub is_empty : Str → Bool
is_empty [] = true
is_empty (x ∷ xs) = false

-- Unicode white space in UTF-8, as `strings.TrimSpace` removes it: one, two or three bytes.
pub is_space : ℕ → Bool
is_space c = c == 32 || (leb 9 c && leb c 13)

is_space_pair : ℕ → ℕ → Bool
is_space_pair a b = a == 0xc2 && (b == 0x85 || b == 0xa0)

is_space_triple : ℕ → ℕ → ℕ → Bool
is_space_triple a b c =
    (a == 0xe1 && b == 0x9a && c == 0x80)
    || (a == 0xe2
        && b == 0x80
        && ((leb 0x80 c && leb c 0x8a) || c == 0xa8 || c == 0xa9 || c == 0xaf))
    || (a == 0xe2 && b == 0x81 && c == 0x9f)
    || (a == 0xe3 && b == 0x80 && c == 0x80)

trim_with : (ℕ → ℕ → Bool) → (ℕ → ℕ → ℕ → Bool) → Str → Str
trim_with pair triple [] = []
trim_with pair triple (a ∷ []) = if is_space a then [] else a ∷ []
trim_with pair triple (a ∷ b ∷ []) =
    let rest = trim_with pair triple (b ∷ []) in
    if is_space a then rest else if pair a b then [] else a ∷ b ∷ []
trim_with pair triple (a ∷ b ∷ c ∷ s) =
    let after_one = trim_with pair triple (b ∷ c ∷ s) in
    let after_two = trim_with pair triple (c ∷ s) in
    let after_three = trim_with pair triple s in
    if is_space a
    then after_one
    else if pair a b
    then after_two
    else if triple a b c
    then after_three
    else a ∷ b ∷ c ∷ s

-- From the right the bytes of a rune are met in reverse.
unfoldable pub trim_space : Str → Str
unfolding trim_with is_space is_space_pair is_space_triple
trim_space s =
    let left = trim_with is_space_pair is_space_triple s in
    reverse (trim_with (λ b a. is_space_pair a b) (λ c b a. is_space_triple a b c) (reverse left))

-- `strings.Split(s, sep)` for a separator of one byte: the pieces between the separators.
unfoldable pub split_from : ℕ → Str → Str → List Str
split_from sep piece [] = reverse piece ∷ []
split_from sep piece (c ∷ s) =
    let next = reverse piece ∷ split_from sep [] s in
    let more = split_from sep (c ∷ piece) s in if c == sep then next else more

unfoldable pub split : ℕ → Str → List Str
unfolding split_from
split sep s = split_from sep [] s

-- `strings.Join(parts, sep)`.
unfoldable pub join : Str → List Str → Str
join sep [] = []
join sep (s ∷ []) = s
join sep (s ∷ t ∷ rest) = s ++ (sep ++ join sep (t ∷ rest))

split_test : split b',' (codes "us, eu,") ≡ codes "us" ∷ codes " eu" ∷ [] ∷ []
unfolding split
split_test = refl

trim_test : trim_space (codes " eu\t ") ≡ codes "eu"
unfolding trim_space
trim_test = refl

pub not-is_empty_iff : (s : Str) → (not (is_empty s) ≡ true) ↔ (s ≢ [])
not-is_empty_iff [] = (λ h. cc, λ h. absurd (h refl))
not-is_empty_iff (c ∷ s) = (λ h e. cc, λ h. refl)
