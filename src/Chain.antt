-- ===== src/Chain.antt =====
-- internal/chain/chain.go: the chain of credentials from a trust anchor down to an actor.
pub mod Hops
pub mod Authority
pub mod Issuance
use kessa.Base.{
  ℕ, zero, suc, leb, Bytes, codes, str_eq, Bool, true, false, not, Option, none, some, List, [],
  ◌∷◌, ◌++◌, length, Result, ok, err, ◌>>=◌, ◌>>◌, guard, require, wrap,
}
use kessa.Base.Binary.{◌⁀◌}
use kessa.Credential.Data.{Credential}
use kessa.Env.{Env}
use kessa.Errors.{
  Error, cannot_encode, issuer_mismatch, empty_chain, too_deep, at_hop, unresolved_issuer,
  unresolved_subject, bad_holder_key, issuance_invalid, no_holder_key, holder_key_mismatch,
  continuity_broken, not_an_attenuation,
}
use kessa.Keys.{Key, Jwk, Signer, Resolver, resolve_key, public_key, keys_equal, verify_signature}
use kessa.Macaroon.Delegation.{extends}
use kessa.Platform.{Platform}
use kessa.Types.{Did}

abbrev pub max_depth : ℕ
max_depth = 8

pub record Link : Type 0 where
  pub credential : Credential
  pub issuer_proof : Bytes

-- From the root to the actor.
abbrev pub Links : Type 0
Links = List Link

-- `IssuanceInput`: the domain and the whole credential.
unfoldable pub issuance_input : Env → Credential → Result Error Bytes
issuance_input env c = do
  body ← require (env.marshal_credential c) cannot_encode
  ok (codes "kessa/issuance/v2" ⁀ body)

unfoldable pub sign_issuance : Env → Signer → Credential → Result Error Bytes
sign_issuance env issuer c = do
  guard (str_eq issuer.did c.issuer) issuer_mismatch
  input ← issuance_input env c
  issuer.sign input

unfoldable pub check_issuance : Env → Resolver → Link → Result Error (Unit {0})
check_issuance env r l = do
  issuer_key ← wrap unresolved_issuer (resolve_key env.platform r l.credential.issuer)
  input ← issuance_input env l.credential
  guard (verify_signature env.platform issuer_key input l.issuer_proof) issuance_invalid

holder_public : Platform → Option Jwk → Result Error Key
holder_public p none = err no_holder_key
holder_public p (some j) = wrap bad_holder_key (public_key p j)

unfoldable pub check_holder : Env → Resolver → Credential → Result Error (Unit {0})
unfolding holder_public
check_holder env r c = do
  subject_key ← wrap unresolved_subject (resolve_key env.platform r c.subject)
  holder_key ← holder_public env.platform c.holder_key
  guard (keys_equal subject_key holder_key) holder_key_mismatch

-- `none` is the parent of the first hop.
unfoldable pub check_parent : Env → Option Credential → Credential → Result Error (Unit {0})
check_parent env none c = ok tt
check_parent env (some parent) c = do
  guard (str_eq c.issuer parent.subject) continuity_broken
  wrap not_an_attenuation (extends env.platform c.macaroon parent.macaroon)

-- One turn of the loop of `Verify`.
unfoldable pub check_hop : Env → Resolver → Option Credential → Link → Result Error (Unit {0})
check_hop env r parent l = do
  check_issuance env r l
  check_holder env r l.credential
  check_parent env parent l.credential

check_hops : Env → Resolver → ℕ → Option Credential → Links → Result Error (Unit {0})
check_hops env r i parent [] = ok tt
check_hops env r i parent (l ∷ ls) = do
  wrap (at_hop i) (check_hop env r parent l)
  check_hops env r (suc i) (some l.credential) ls

abbrev pub is_nil : Links → Bool
is_nil [] = true
is_nil (l ∷ ls) = false

unfoldable pub verify : Env → Resolver → Links → Result Error (Unit {0})
unfolding check_hops
verify env r links = do
  guard (not (is_nil links)) empty_chain
  guard (leb (length links) max_depth) (too_deep (length links))
  check_hops env r 0 none links

unfoldable pub subjects : Links → List Did
subjects [] = []
subjects (l ∷ ls) = l.credential.subject ∷ subjects ls

unfoldable pub principals : Links → List Did
unfolding subjects
principals [] = []
principals (l ∷ ls) = l.credential.issuer ∷ l.credential.subject ∷ subjects ls

pub root : Links → Did
root [] = []
root (l ∷ ls) = l.credential.issuer

-- The subject of the last hop.
pub actor : Links → Did
actor [] = []
actor (l ∷ []) = l.credential.subject
actor (l ∷ k ∷ ls) = actor (k ∷ ls)
