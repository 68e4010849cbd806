-- ===== src/Status/Signing.antt =====
-- Status lists that are signed and checked.
use kessa.Base.{
  ◌∙◌, ◌==◌, ◌≡◌, ◌≢◌, refl, ◌≤◌, ◌*◌, leb, Bytes, Str, codes, str_eq, not-is_empty_iff, length,
  Bool, true, false, not, Result, ok, err, ◌>>◌, guard, arith, [],
}
use kessa.Base.Binary.{NoZero, no_zero-NoZero, part_inj}
use kessa.Base.Int.{ℤ, pos, negsuc}
use kessa.Errors.{
  Error, unsigned_list, list_signature_invalid, no_authority, wrong_list_issuer, too_few_bits,
}
use kessa.Keys.{Signer, IsGenuine}
use kessa.Platform.{Platform}
use kessa.Status.{
  StatusList, bit_len, min_bits, lookup, sign, verify, signing_input, stamp_signature,
}

abbrev tag_NoZero : NoZero (codes "kessa/status-list/v1")
tag_NoZero = no_zero-NoZero (codes "kessa/status-list/v1") refl

-- What each list tells, under its issuer and for its purpose, is what its signature covers: lists
-- whose issuer and purpose have no zero byte sign the same message only where they agree.
pub signing_input_inj :
    (l m : StatusList)
    → NoZero l.issuer
    → NoZero m.issuer
    → NoZero l.purpose
    → NoZero m.purpose
    → signing_input l ≡ signing_input m
    → (l.issuer ≡ m.issuer) × (l.purpose ≡ m.purpose) × (l.bits ≡ m.bits)
unfolding signing_input
signing_input_inj l m li mi lp mp e =
    let (_, issuers) =
      part_inj (codes "kessa/status-list/v1") (codes "kessa/status-list/v1") (tag_NoZero)
        (tag_NoZero) e in
    let (i, purposes) = part_inj l.issuer m.issuer li mi issuers in
    let (p, b) = part_inj l.purpose m.purpose lp mp purposes in (i, p, b)

module _ (p : Platform) (s : Signer) (genuine : IsGenuine p s) where
  checks_left :
      {a : Bool} (b : Bool) {c d e : Bool} (f g h i j : Error)
      → a ≡ true
      → c ≡ true
      → d ≡ true
      → e ≡ true
      → (guard a f >> (guard b g >> (guard c h >> (guard d i >> guard e j)))) ≡ guard b g
  checks_left true f g h i j ha hc hd he = cc
  checks_left false f g h i j ha hc hd he = cc

  verify-stamped :
      (l : StatusList) (d : Str) (r : Result Error Bytes)
      → s.sign (signing_input l) ≡ r
      → d ≢ []
      → min_bits ≤ bit_len l
      → (stamp_signature l r).1 ≡ ok tt
      → length (stamp_signature l r).0.signature ≢ 0
      → verify p (stamp_signature l r).0 d s.public ≡ guard (str_eq l.issuer d) wrong_list_issuer
  unfolding stamp_signature verify signing_input bit_len
  verify-stamped l d (err x) made asked enough signed nonempty = cc
  verify-stamped l d (ok sig) made asked enough signed nonempty = checked
    where
      checked :
          verify p (record l { signature = sig }) d s.public
          ≡ guard (str_eq l.issuer d) wrong_list_issuer
      checked =
          let large : leb min_bits (length l.bits * 8) ≡ true = ground arith in
          let filled : not (length sig == 0) ≡ true = ground arith in
          checks_left (str_eq l.issuer d) no_authority wrong_list_issuer too_few_bits unsigned_list
            list_signature_invalid ((not-is_empty_iff d).1 asked) large filled
            (genuine (signing_input l) sig made)

  -- A list of at least the floor of bits that a genuine signer signs, with a signature that is not
  -- empty, verifies under the signer's key for the signer as the authority, and for no other.
  pub verify-sign :
      (l : StatusList) (d : Str)
      → d ≢ []
      → min_bits ≤ bit_len l
      → (sign s l).1 ≡ ok tt
      → length (sign s l).0.signature ≢ 0
      → verify p (sign s l).0 d s.public ≡ guard (str_eq s.did d) wrong_list_issuer
  unfolding sign bit_len
  verify-sign l d asked enough signed nonempty =
      verify-stamped (record l { issuer = s.did }) d _ refl asked enough signed nonempty

-- Signing leaves the bits alone.
lookup-stamped :
    (l : StatusList) (r : Result Error Bytes) (j : ℤ)
    → lookup (stamp_signature l r).0 j ≡ lookup l j
unfolding stamp_signature lookup bit_len
lookup-stamped l (ok sig) (pos j) = refl
lookup-stamped l (ok sig) (negsuc j) = refl
lookup-stamped l (err e) j = refl

lookup-renamed :
    (l : StatusList) (d : Str) (j : ℤ) → lookup (record l { issuer = d }) j ≡ lookup l j
unfolding lookup bit_len
lookup-renamed l d (pos j) = refl
lookup-renamed l d (negsuc j) = refl

pub lookup-sign : (s : Signer) (l : StatusList) (j : ℤ) → lookup (sign s l).0 j ≡ lookup l j
unfolding sign
lookup-sign s l j = lookup-stamped (record l { issuer = s.did }) _ j ∙ lookup-renamed l s.did j
