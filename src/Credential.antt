-- ===== src/Credential.antt =====
-- internal/credential/credential.go: authority, revocation and key of a holder composed into one
-- credential, and the proof that a presenter controls the key.
pub mod Data
pub mod Binding
pub mod Possession
use kessa.Base.{
  ℕ, ◌==◌, Bytes, Str, codes, is_empty, length, Bool, true, false, not, ◌&&◌, ◌||◌, Option, none,
  some, List, [], ◌∷◌, ◌++◌, Result, ok, err, ◌>>=◌, ◌>>◌, guard, require, wrap, if◌then◌else◌,
}
use kessa.Base.Binary.{big_endian, ◌⁀◌}
use kessa.Base.Dict.{Dict}
use kessa.Credential.Data.{Credential, Options, Pop}
use kessa.Env.{Env}
use kessa.Errors.{
  Error, empty_subject, empty_issuer, unsupported_key, unsigned_macaroon, no_holder_key,
  empty_nonce, cannot_encode, possession_failed, bound_key, invalid_holder_key, wrong_key_size,
}
use kessa.Keys.{Key, ed25519, p256, other, Jwk, Signer, public_key, to_jwk, verify_signature}
use kessa.Macaroon.{Caveat, Macaroon, eq}
use kessa.Macaroon.Delegation.{attenuate}
use kessa.Platform.{Platform}
use kessa.Types.{Did, Action}

-- The type and the curve, before the key is encoded.
check_key : Option Key → Result Error Key
check_key none = err no_holder_key
check_key (some (ed25519 k)) =
    if length k == 32 then ok (ed25519 k) else err (wrong_key_size (length k))
check_key (some (p256 x y)) = ok (p256 x y)
check_key (some other) = err unsupported_key

-- The encoded key has to parse back.
checked_jwk : Platform → Option Jwk → Result Error Jwk
checked_jwk p none = err unsupported_key
checked_jwk p (some j) = do _ ← wrap invalid_holder_key (public_key p j); ok j

-- `holderJWK`
unfoldable pub holder_jwk : Platform → Option Key → Result Error Jwk
unfolding check_key checked_jwk
holder_jwk p key = do k ← check_key key; checked_jwk p (to_jwk p k)

-- `New`
unfoldable pub create : Platform → Options → Result Error Credential
create p o = do
  guard (not (is_empty o.subject)) empty_subject
  guard (not (is_empty o.issuer)) empty_issuer
  jwk ← holder_jwk p o.holder_key
  guard (not (is_empty o.macaroon.identifier || length o.macaroon.signature == 0)) unsigned_macaroon
  ok (record {
    subject = o.subject;
    issuer = o.issuer;
    macaroon = o.macaroon;
    status_ref = o.status_ref;
    holder_key = some jwk;
    vc_wrapper = o.vc_wrapper;
  })

abbrev pub holder_field : Str
holder_field = codes "holder"

jwk_value : Env → Jwk → Str
jwk_value env j = env.platform.encode_base64 (env.marshal_jwk j)

unfoldable pub holder_value : Env → Option Key → Result Error Str
unfolding jwk_value
holder_value env key = do jwk ← holder_jwk env.platform key; ok (jwk_value env jwk)

unfoldable pub holder_caveat : Env → Option Key → Result Error Caveat
holder_caveat env key = do
  v ← holder_value env key
  ok (record { field = holder_field; op = eq; value = v })

pub bind_holder : Env → Macaroon → Option Key → Result Error Macaroon
bind_holder env m key = do c ← holder_caveat env key; attenuate env.platform m c

holder_entry : Env → Option Jwk → Dict Str
unfolding jwk_value
holder_entry env none = []
holder_entry env (some j) = (holder_field, jwk_value env j) ∷ []

unfoldable pub holder_context : Env → Credential → Dict Str
unfolding holder_entry
holder_context env c = holder_entry env c.holder_key

-- `StatusAuthority`: the issuer that the reference names, or the credential's own.
pub status_authority : Credential → Did
status_authority c = if not (is_empty c.status_ref.issuer) then c.status_ref.issuer else c.issuer

abbrev pop_domain : Bytes
pop_domain = codes "kessa/pop/v2"

-- `popInput`
unfoldable pub pop_input : Env → Credential → Bytes → Action → ℕ → Bytes → Result Error Bytes
pop_input env c nonce action seq prev_hash = do
  body ← require (env.marshal_action action) cannot_encode
  ok (pop_domain ⁀ c.subject ⁀ c.macaroon.identifier ⁀ nonce ⁀ body ⁀ big_endian seq ⁀ prev_hash)

unfoldable pub prove_possession :
    Env → Credential → Signer → Bytes → Action → ℕ → Bytes → Result Error Pop
prove_possession env c holder nonce action seq prev_hash = do
  input ← pop_input env c nonce action seq prev_hash
  sig ← holder.sign input
  ok (record { nonce = nonce; signature = sig })

holder_public : Platform → Option Jwk → Result Error Key
holder_public p none = err no_holder_key
holder_public p (some j) = wrap bound_key (public_key p j)

unfoldable pub verify_possession :
    Env → Credential → Pop → Action → ℕ → Bytes → Result Error (Unit {0})
unfolding holder_public
verify_possession env c pop action seq prev_hash = do
  pub_key ← holder_public env.platform c.holder_key
  guard (not (length pop.nonce == 0)) empty_nonce
  input ← pop_input env c pop.nonce action seq prev_hash
  guard (verify_signature env.platform pub_key input pop.signature) possession_failed
