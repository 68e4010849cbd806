-- ===== src/Keys.antt =====
-- internal/signer/signer.go and internal/did/did.go: public keys, the one verification primitive,
-- and the keys that DID documents publish.
pub mod Encoding
use kessa.Base.{
  ℕ, ◌==◌, ◌≡◌, Bytes, Str, codes, str_eq, length, Bool, true, false, ◌&&◌, Option, none, some,
  List, [], ◌∷◌, Result, ok, err, ◌>>=◌, ◌>>◌, guard, require, if◌then◌else◌,
}
use kessa.Errors.{
  Error, no_methods, no_jwk, bad_encoding, not_on_curve, unsupported_jwk, wrong_key_size,
}
use kessa.Platform.{Platform}
use kessa.Types.{Did}

-- `crypto.PublicKey`: an Ed25519 key, a P-256 point by its two coordinates of 32 bytes, or a value
-- of any other type or curve.
pub data Key : Type 0 where
  ed25519 : Bytes → Key
  p256 : Bytes → Bytes → Key
  other : Key

-- `signer.Verify`
unfoldable pub verify_signature : Platform → Key → Bytes → Bytes → Bool
verify_signature p (ed25519 k) message sig =
    if length k == 32 then p.ed25519_verify k message sig else false
verify_signature p (p256 x y) message sig = p.ecdsa_verify x y (p.sha256 message) sig
verify_signature p other message sig = false

unfoldable pub keys_equal : Key → Key → Bool
keys_equal (ed25519 k) (ed25519 l) = str_eq k l
keys_equal (p256 x y) (p256 z w) = str_eq x z && str_eq y w
keys_equal _ _ = false

-- `signer.Signer`: a key of one principal, which may refuse to sign.
pub record Signer : Type 0 where
  pub did : Did
  pub public : Key
  pub sign : Bytes → Result Error Bytes

-- What a signer signs verifies under its public key.
abbrev pub IsGenuine : Platform → Signer → Type 0
IsGenuine p s =
    (message sig : Bytes) → s.sign message ≡ ok sig → verify_signature p s.public message sig ≡ true

pub record Jwk : Type 0 where
  pub kty : Str
  pub crv : Str
  pub x : Str
  pub y : Str

-- `decodeBase64URL`: unpadded, and then padded.
unfoldable pub decode_base64url : Platform → Str → Result Error Bytes
decode_base64url p s = elim (p.decode_base64_raw s) [
  | some b ↦ ok b
  | none ↦ require (p.decode_base64_padded s) bad_encoding
]

pub ed25519_key : Platform → Jwk → Result Error Key
unfolding decode_base64url
ed25519_key p j = do
  b ← decode_base64url p j.x
  guard (length b == 32) (wrong_key_size (length b))
  ok (ed25519 b)

pub p256_key : Platform → Jwk → Result Error Key
unfolding decode_base64url
p256_key p j = do
  x ← decode_base64url p j.x
  y ← decode_base64url p j.y
  guard (length x == 32 && length y == 32) (wrong_key_size (length x))
  guard (p.is_p256_point x y) not_on_curve
  ok (p256 x y)

-- `JWK.PublicKey`
unfoldable pub public_key : Platform → Jwk → Result Error Key
unfolding ed25519_key p256_key
public_key p j =
    if str_eq j.kty (codes "OKP") && str_eq j.crv (codes "Ed25519")
    then ed25519_key p j
    else if str_eq j.kty (codes "EC") && str_eq j.crv (codes "P-256")
    then p256_key p j
    else err unsupported_jwk

-- `PublicKeyToJWK`; `none` stands for its panic.
unfoldable pub to_jwk : Platform → Key → Option Jwk
to_jwk p (ed25519 k) =
    some (record { kty = codes "OKP"; crv = codes "Ed25519"; x = p.encode_base64 k; y = [] })
to_jwk p (p256 x y) =
    some (record {
      kty = codes "EC";
      crv = codes "P-256";
      x = p.encode_base64 x;
      y = p.encode_base64 y;
    })
to_jwk p other = none

pub record VerificationMethod : Type 0 where
  pub id : Str
  pub jwk : Option Jwk

pub record Document : Type 0 where
  pub id : Did
  pub methods : List VerificationMethod

unfoldable pub method_key : Platform → Option Jwk → Result Error Key
method_key p none = err no_jwk
method_key p (some j) = public_key p j

unfoldable pub first_key : Platform → Document → Result Error Key
unfolding method_key
first_key p d = elim d.methods [ [] ↦ err no_methods | m ∷ ms ↦ method_key p m.jwk ]

-- `did.Resolver`; a resolver reads files or the network, which are not modelled.
abbrev pub Resolver : Type 0
Resolver = Did → Result Error Document

unfoldable pub resolve_key : Platform → Resolver → Did → Result Error Key
resolve_key p r d = do doc ← r d; first_key p doc
