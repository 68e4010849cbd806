-- ===== src/Chain/Issuance.antt =====
-- Chains that grow by issuance, and what an issuance signature covers.
use kessa.Base.{
  ◌<◌, ◌≡◌, ◌≢◌, refl, sym, ap, ◌∙◌, subst, codes, str_eq, str_eq_iff, Bytes, Option, none, some,
  [], ◌∷◌, ◌++◌, length, length-append, ok, guard, require, >>=-eq-ok, guard-eq-ok, require-eq-ok,
  ok_inj, arith,
}
use kessa.Base.Binary.{◌⁀◌, NoZero, no_zero-NoZero, part_inj}
use kessa.Chain.{Link, Links, issuance_input, sign_issuance, verify}
use kessa.Chain.Hops.{IsIssued, IsBound, Descends, IsChain, done, hop, verify-IsChain}
use kessa.Credential.Data.{Credential}
use kessa.Env.{Env}
use kessa.Errors.{cannot_encode, issuer_mismatch}
use kessa.Keys.{Signer, IsGenuine, Resolver, resolve_key}
use kessa.Macaroon.Delegation.{extends}

issuance_input_inv :
    (env : Env) (c : Credential) (input : Bytes)
    → issuance_input env c ≡ ok input
    → (body : Bytes) × (env.marshal_credential c ≡ some body)
      × (input ≡ codes "kessa/issuance/v2" ⁀ body)
unfolding issuance_input
issuance_input_inv env c input h =
    let (body, encoded, made) = >>=-eq-ok (require (env.marshal_credential c) cannot_encode) _ h in
    (body, require-eq-ok _ cannot_encode encoded, sym (ok_inj made))

tag_NoZero : NoZero (codes "kessa/issuance/v2")
tag_NoZero = no_zero-NoZero (codes "kessa/issuance/v2") refl

-- One issuance signature covers one whole credential: two credentials have the same message only
-- with the same encoding.
pub issuance_input_inj :
    (env : Env) (c d : Credential) (input : Bytes)
    → issuance_input env c ≡ ok input
    → issuance_input env d ≡ ok input
    → env.marshal_credential c ≡ env.marshal_credential d
issuance_input_inj env c d input f g =
    let (x, xs, made_x) = issuance_input_inv env c input f in
    let (y, ys, made_y) = issuance_input_inv env d input g in
    let (_, bodies) =
      part_inj (codes "kessa/issuance/v2") (codes "kessa/issuance/v2") tag_NoZero tag_NoZero
        (sym made_x ∙ made_y) in
    xs ∙ ap some bodies ∙ sym ys

module _ (env : Env) (r : Resolver) where
  pub sign_issuance-IsIssued :
      (issuer : Signer) (c : Credential) (proof : Bytes)
      → IsGenuine env.platform issuer
      → resolve_key env.platform r issuer.did ≡ ok issuer.public
      → sign_issuance env issuer c ≡ ok proof
      → IsIssued env r (record { credential = c; issuer_proof = proof })
  unfolding sign_issuance
  sign_issuance-IsIssued issuer c proof genuine published h =
      let (_, named, h1) = >>=-eq-ok (guard (str_eq issuer.did c.issuer) issuer_mismatch) _ h in
      let (input, framed, signed) = >>=-eq-ok (issuance_input env c) _ h1 in
      let (body, encoded, made) = issuance_input_inv env c input framed in
      let same = (str_eq_iff issuer.did c.issuer).0 (guard-eq-ok _ issuer_mismatch named) in
      record {
        key = issuer.public;
        body = body;
        resolved = subst (λ d. resolve_key env.platform r d ≡ ok issuer.public) same published;
        encoded = encoded;
        signed = genuine _ proof (subst (λ m. issuer.sign m ≡ ok proof) made signed);
      }

  IsChain-snoc :
      (parent : Option Credential) (ls : Links) (k l : Link)
      → IsChain env r parent (ls ++ k ∷ [])
      → IsIssued env r l
      → IsBound env r l.credential
      → Descends env r (some k.credential) l.credential
      → IsChain env r parent (ls ++ k ∷ l ∷ [])
  IsChain-snoc parent [] k l (hop a b d _) i h e = hop a b d (hop i h e done)
  IsChain-snoc parent (m ∷ ls) k l (hop a b d rest) i h e =
      hop a b d (IsChain-snoc (some m.credential) ls k l rest i h e)

  -- Delegation keeps a chain verified: where the subject of the last hop, a genuine signer whose
  -- key is published, signs a credential for a principal bound to its published key, with a
  -- macaroon that extends the last hop's, the chain with this hop is verified, as long as it has at
  -- most eight hops.
  pub verify-sign_issuance :
      (ls : Links) (parent : Link) (issuer : Signer) (c : Credential) (proof : Bytes)
      → verify env r (ls ++ parent ∷ []) ≡ ok tt
      → length ls < 7
      → IsGenuine env.platform issuer
      → resolve_key env.platform r issuer.did ≡ ok issuer.public
      → c.issuer ≡ parent.credential.subject
      → IsBound env r c
      → extends env.platform c.macaroon parent.credential.macaroon ≡ ok tt
      → sign_issuance env issuer c ≡ ok proof
      → verify env r (ls ++ parent ∷ record { credential = c; issuer_proof = proof } ∷ []) ≡ ok tt
  verify-sign_issuance ls parent issuer c proof h room genuine published named bound narrower
        signed =
      let link : Link = record { credential = c; issuer_proof = proof } in
      let (_, (_, chain)) = (verify-IsChain env r (ls ++ parent ∷ [])).0 h in
      let issued = sign_issuance-IsIssued issuer c proof genuine published signed in
      (verify-IsChain env r (ls ++ parent ∷ link ∷ [])).1 (
        not_nil parent (link ∷ []) ls,
        (
          omega (arith, length-append ls (parent ∷ link ∷ [])),
          IsChain-snoc none ls parent link chain issued bound (named, narrower),
        ),
      )
    where
      not_nil : (x : Link) (xs ks : Links) → (ks ++ x ∷ xs) ≢ []
      not_nil x xs [] e = cc
      not_nil x xs (k ∷ ks) e = cc
