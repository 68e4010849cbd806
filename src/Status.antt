-- ===== src/Status.antt =====
-- internal/status/status.go: a signed bitstring with one bit for each credential.
pub mod Bits
pub mod Signing
pub mod Publication
use Prim.Native.Nat.{bit_and, bit_or}
use kessa.Base.{
  ℕ, ◌==◌, ltb, leb, ◌+◌, ◌-◌, ◌*◌, ◌/◌, ◌%◌, ◌^◌, Bytes, Str, codes, str_eq, is_empty, length,
  get_or, set, replicate, Bool, true, false, not, ◌&&◌, List, [], ◌∷◌, ◌++◌, Result, ok, err, ◌>>=◌,
  ◌>>◌, guard, if◌then◌else◌,
}
use kessa.Base.Int.{ℤ, pos, negsuc}
use kessa.Errors.{
  Error, index_out_of_range, no_authority, wrong_list_issuer, too_few_bits, unsigned_list,
  list_signature_invalid,
}
use kessa.Keys.{Key, Signer, verify_signature}
use kessa.Platform.{Platform}
use kessa.Types.{Did}

-- 16 KiB
abbrev pub min_bits : ℕ
min_bits = 131072

pub record Reference : Type 0 where
  pub list_url : Str
  pub index : ℤ
  pub issuer : Did

pub record StatusList : Type 0 where
  pub issuer : Did
  pub purpose : Str
  pub bits : Bytes
  pub signature : Bytes

pub new_list : ℕ → StatusList
new_list bits = record {
  issuer = [];
  purpose = codes "revocation";
  bits = replicate (((if ltb bits min_bits then min_bits else bits) + 7) / 8) 0;
  signature = [];
}

unfoldable pub bit_len : StatusList → ℕ
bit_len l = length l.bits * 8

-- `index < 0 || index >= l.Len()`
check_index : StatusList → ℤ → Result Error ℕ
unfolding bit_len
check_index l (pos i) = if ltb i (bit_len l) then ok i else err (index_out_of_range (pos i))
check_index l (negsuc i) = err (index_out_of_range (negsuc i))

-- The most significant bit comes first.
unfoldable pub mask : ℕ → ℕ
mask i = 2 ^ (7 - i % 8)

-- `b | mask`, and `b &^ mask`.
unfoldable pub write_bit : ℕ → ℕ → Bool → ℕ
write_bit b m true = bit_or b m
write_bit b m false = bit_and b (255 - m)

unfoldable pub set_bit : StatusList → ℤ → Bool → Result Error StatusList
unfolding check_index
set_bit l index revoked = do
  i ← check_index l index
  ok (record l { bits = set l.bits (i / 8) (write_bit (get_or l.bits (i / 8) 0) (mask i) revoked) })

-- `b & mask != 0`
pub test_bit : ℕ → ℕ → Bool
test_bit b m = not (bit_and b m == 0)

pub read_bit : Bytes → ℕ → Bool
read_bit bits i = test_bit (get_or bits (i / 8) 0) (mask i)

unfoldable pub lookup : StatusList → ℤ → Result Error Bool
unfolding check_index
lookup l index = do i ← check_index l index; ok (read_bit l.bits i)

-- The domain, the issuer, the purpose and the bits, with a zero byte between them.
pub signing_input : StatusList → Bytes
signing_input l =
    codes "kessa/status-list/v1" ++ (0 ∷ (l.issuer ++ (0 ∷ (l.purpose ++ (0 ∷ l.bits)))))

-- A signature that fails leaves the issuer stamped.
stamp_signature : StatusList → Result Error Bytes → StatusList × Result Error (Unit {0})
stamp_signature l (ok sig) = (record l { signature = sig }, ok tt)
stamp_signature l (err e) = (l, err e)

unfoldable pub sign : Signer → StatusList → StatusList × Result Error (Unit {0})
unfolding signing_input stamp_signature
sign s l =
    let stamped : StatusList = record l { issuer = s.did } in
    stamp_signature stamped (s.sign (signing_input stamped))

unfoldable pub verify : Platform → StatusList → Did → Key → Result Error (Unit {0})
unfolding signing_input bit_len
verify p l authority pub_key = do
  guard (not (is_empty authority)) no_authority
  guard (str_eq l.issuer authority) wrong_list_issuer
  guard (leb min_bits (bit_len l)) too_few_bits
  guard (not (length l.signature == 0)) unsigned_list
  guard (verify_signature p pub_key (signing_input l) l.signature) list_signature_invalid
