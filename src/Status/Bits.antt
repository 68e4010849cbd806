-- ===== src/Status/Bits.antt =====
-- Setting and reading bits of a status list.
use Prim.Native.Nat.{bit_and-bitwise}
use kessa.Base.{
  ℕ, zero, suc, ◌==◌, ltb, ◌+◌, ◌-◌, ◌*◌, ◌/◌, ◌%◌, ◌^◌, ◌≤◌, ◌<◌, ◌≡◌, refl, sym, ap, ◌∙◌, Bytes,
  length, get_or, set, length-set, replicate, length-replicate, Bool, true, false, not, [], ◌∷◌,
  All, arith, ok, err, >>=-eq-ok, ok_inj, if◌then◌else◌,
}
use kessa.Base.Int.{ℤ, pos, negsuc, eq_ℤ}
use kessa.Errors.{index_out_of_range}
use kessa.Status.{
  StatusList, new_list, min_bits, bit_len, mask, write_bit, check_index, set_bit, read_bit,
  test_bit, lookup,
}

abbrev pub IsByte : ℕ → Type 0
IsByte b = b < 256

-- A test that passes for every number below a bound.
passes_to : (ℕ → Bool) → ℕ → Bool
passes_to test zero = true
passes_to test (suc bound) =
    let before = passes_to test bound in if before then test bound else false

passes_to-at :
    (test : ℕ → Bool) (bound i : ℕ) → i < bound → passes_to test bound ≡ true → test i ≡ true
unfolding passes_to
passes_to-at test zero i below checked = absurd (omega arith)
passes_to-at test (suc bound) i below checked = ground (arith, passes_to-at test bound i)

same_bool : Bool → Bool → Bool
same_bool true c = c
same_bool false c = not c

same_bool_sound : (a b : Bool) → same_bool a b ≡ true → a ≡ b
unfolding same_bool
same_bool_sound a b h = ground arith

-- What the bit j of a byte is after the bit i was written, for every byte.
written : Bool → ℕ → ℕ → ℕ → Bool
unfolding test_bit same_bool write_bit
written r b i j =
    same_bool (test_bit (write_bit b (2 ^ (7 - i)) r) (2 ^ (7 - j)))
      (if j == i then r else test_bit b (2 ^ (7 - j)))

byte_table :
    (passes_to (λ b. passes_to (λ i. passes_to (written true b i) 8) 8) 256 ≡ true)
    × (passes_to (λ b. passes_to (λ i. passes_to (written false b i) 8) 8) 256 ≡ true)
unfolding passes_to written
byte_table = (refl, refl)

module _ (b i j : ℕ) (hb : b < 256) (hi : i < 8) (hj : j < 8) where
  written_checked : (r : Bool) → written r b i j ≡ true
  written_checked true =
      passes_to-at _ 8 j hj (passes_to-at _ 8 i hi (passes_to-at _ 256 b hb byte_table.0))
  written_checked false =
      passes_to-at _ 8 j hj (passes_to-at _ 8 i hi (passes_to-at _ 256 b hb byte_table.1))

  test_bit-write_bit :
      (r : Bool)
      → test_bit (write_bit b (2 ^ (7 - i)) r) (2 ^ (7 - j))
        ≡ (if j == i then r else test_bit b (2 ^ (7 - j)))
  unfolding written
  test_bit-write_bit r = same_bool_sound _ _ (written_checked r)

get_or-set :
    (bs : Bytes) (k n v : ℕ)
    → k < length bs
    → get_or (set bs k v) n 0 ≡ (if n == k then v else get_or bs n 0)
get_or-set [] k n v h = absurd (omega arith)
get_or-set (b ∷ bs) zero zero v h = refl
get_or-set (b ∷ bs) zero (suc n) v h = ground arith
get_or-set (b ∷ bs) (suc k) zero v h = ground arith
get_or-set (b ∷ bs) (suc k) (suc n) v h = ground (arith, get_or-set bs k n v)

IsByte-get_or : (bs : Bytes) (n : ℕ) → All IsByte bs → get_or bs n 0 < 256
IsByte-get_or [] n h = omega arith
IsByte-get_or (b ∷ bs) zero h = h.0
IsByte-get_or (b ∷ bs) (suc n) h = IsByte-get_or bs n h.1

module _ (bs : Bytes) (i j : ℕ) (r : Bool) (bytes : All IsByte bs) where
  abbrev new_byte : ℕ
  new_byte = write_bit (get_or bs (i / 8) 0) (mask i) r

  picked :
      (b : Bool)
      → (j / 8 == i / 8) ≡ b
      → test_bit (if b then new_byte else get_or bs (j / 8) 0) (mask j)
        ≡ (if j == i then r else test_bit (get_or bs (j / 8) 0) (mask j))
  unfolding mask
  picked true e = ground (
    arith,
    test_bit-write_bit (get_or bs (i / 8) 0) (i % 8) (j % 8) (IsByte-get_or bs (i / 8) bytes)
        (omega arith) (omega arith) r,
  )
  picked false e = ground arith

  read_bit-set :
      i < length bs * 8
      → read_bit (set bs (i / 8) new_byte) j ≡ (if j == i then r else read_bit bs j)
  unfolding read_bit
  read_bit-set lt =
      ap (λ x. test_bit x (mask j)) (get_or-set bs (i / 8) (j / 8) new_byte (omega arith))
      ∙ picked (j / 8 == i / 8) refl

-- In a list of bytes, setting a bit is what later reads of it see, and no other index reads
-- differently.
pub lookup-set_bit :
    (l l' : StatusList) (i j : ℤ) (r : Bool)
    → All IsByte l.bits
    → set_bit l i r ≡ ok l'
    → lookup l' j ≡ (if eq_ℤ j i then ok r else lookup l j)
unfolding set_bit lookup bit_len eq_ℤ
lookup-set_bit l l' (negsuc i) j r bytes h = cc
lookup-set_bit l l' (pos i) (negsuc j) r bytes h = ground arith
lookup-set_bit l l' (pos i) (pos j) r bytes h = ground (
  arith,
  read_bit-set l.bits i j r bytes,
  length-set l.bits (i / 8) (new_byte l.bits i j r bytes),
)

get_or-replicate : (n k : ℕ) → get_or {A = ℕ} (replicate n 0) k 0 ≡ 0
get_or-replicate zero k = refl
get_or-replicate (suc n) zero = refl
get_or-replicate (suc n) (suc k) = get_or-replicate n k

read_bit-zeros : (n i : ℕ) → read_bit (replicate n 0) i ≡ false
unfolding read_bit test_bit
read_bit-zeros n i = rw get_or-replicate (ground (arith, bit_and-bitwise 0 (mask i)))

-- A new list has at least the floor of bits, every index within it reads as not revoked, and every
-- other index is refused.
pub lookup-new_list :
    (bits i : ℕ)
    → (min_bits ≤ bit_len (new_list bits))
      × (lookup (new_list bits) (pos i) ≡ (
          if ltb i (bit_len (new_list bits)) then ok false else err (index_out_of_range (pos i))))
unfolding new_list lookup bit_len
lookup-new_list bits i =
    let n : ℕ = ((if ltb bits min_bits then min_bits else bits) + 7) / 8 in
    (
      ground (arith, length-replicate {A = ℕ} n 0),
      ground (arith, length-replicate {A = ℕ} n 0, read_bit-zeros n i),
    )

pub set_bit-size :
    (l l' : StatusList) (i : ℤ) (r : Bool) → set_bit l i r ≡ ok l' → bit_len l' ≡ bit_len l
unfolding set_bit bit_len
set_bit-size l l' i r h =
    let (k, _, made) = >>=-eq-ok (check_index l i) _ h in
    ap (λ x. length x.bits * 8) (sym (ok_inj made)) ∙ ap (λ n. n * 8) (length-set l.bits (k / 8) _)
