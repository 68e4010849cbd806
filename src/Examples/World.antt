-- ===== src/Examples/World.antt =====
-- A small world: a platform that computes, keys that sign, and the documents that publish them.
use kessa.Base.{
  ℕ, ◌==◌, ◌≡◌, refl, subst, Bytes, Str, codes, str_eq, str_eq_refl, Bool, true, false, Option,
  none, some, [], ◌∷◌, ◌++◌, length, replicate, ok, err, ok_inj, some_inj, if◌then◌else◌,
}
use kessa.Base.Binary.{NoZero, no_zero-NoZero}
use kessa.Base.Int.{pos}
use kessa.Audit.Tampering.{EncodesPrevHash}
use kessa.Credential.Possession.{EscapesControls}
use kessa.Enforce.Handle.Justified.{RefusesEmpty}
use kessa.Env.{Env}
use kessa.Errors.{no_document}
use kessa.Keys.{ed25519, p256, other, Document, Resolver, Signer, IsGenuine, verify_signature}
use kessa.Keys.Encoding.{DecodesBase64}
use kessa.Platform.{Platform}
use kessa.Platform.Float.{Float64, finite}
use kessa.Types.{Did}

-- A number that is written with one digit.
abbrev one_digit : Str → Option Float64
one_digit (c ∷ []) = some (finite (pos c))
one_digit _ = none

abbrev pub toy : Platform
toy = record {
  sha256 = λ m. m;
  hmac = λ k m. k ++ m;
  ed25519_verify = λ k m s. str_eq s (k ++ m);
  ecdsa_verify = λ x y d s. false;
  is_p256_point = λ x y. true;
  encode_base64 = λ b. b;
  decode_base64_raw = λ s. some s;
  decode_base64_padded = λ s. some s;
  parse_time = λ s. none;
  format_time = λ t. codes "now";
  parse_float = one_digit;
}

abbrev pub world : Env
world = record {
  platform = toy;
  marshal_jwk = λ j. j.x;
  marshal_action = λ a. some (codes "action");
  marshal_credential = λ c. some (c.subject ++ c.issuer);
  marshal_policy = λ p. some (codes "policy");
  marshal_entry = λ e. some (e.prev_hash);
}

abbrev pub key : ℕ → Bytes
key n = replicate 32 n

abbrev pub signer : Str → ℕ → Signer
signer d n = record { did = d; public = ed25519 (key n); sign = λ m. ok (key n ++ m) }

pub signer-IsGenuine : (d : Str) (n : ℕ) → IsGenuine toy (signer d n)
unfolding verify_signature
signer-IsGenuine d n message sig h =
    subst (λ s. str_eq s (key n ++ message) ≡ true) (ok_inj h) (str_eq_refl (key n ++ message))

abbrev pub alice : Signer
alice = signer (codes "did:alice") 1

abbrev pub worker : Signer
worker = signer (codes "did:worker") 2

abbrev pub point : Signer
point = signer (codes "did:point") 3

abbrev document : Did → ℕ → Document
document d n = record {
  id = d;
  methods =
      record {
        id = codes "key";
        jwk = some (record { kty = codes "OKP"; crv = codes "Ed25519"; x = key n; y = [] });
      }
      ∷ [];
}

-- The documents of the three principals.
abbrev pub documents : Resolver
documents d =
    if str_eq d (codes "did:alice")
    then ok (document d 1)
    else if str_eq d (codes "did:worker")
    then ok (document d 2)
    else if str_eq d (codes "did:point")
    then ok (document d 3)
    else err no_document

pub toy-DecodesBase64 : DecodesBase64 toy
toy-DecodesBase64 b = refl

pub world-EncodesPrevHash : EncodesPrevHash world
world-EncodesPrevHash e f body h k = cc

pub toy-RefusesEmpty : RefusesEmpty toy
unfolding verify_signature str_eq
toy-RefusesEmpty (ed25519 []) message = refl
toy-RefusesEmpty (ed25519 (c ∷ k)) message = either (length (c ∷ k) == 32)
  where
    either : (b : Bool) → (if b then false else false) ≡ false
    either true = refl
    either false = refl
toy-RefusesEmpty (p256 x y) message = refl
toy-RefusesEmpty other message = refl

pub world-EscapesControls : EscapesControls world
world-EscapesControls a body h = subst NoZero (some_inj h) (no_zero-NoZero (codes "action") refl)
