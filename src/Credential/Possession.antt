-- ===== src/Credential/Possession.antt =====
-- Proofs of possession: what they prove, and what they cannot be moved to.
use kessa.Base.{
  ℕ, ◌==◌, ◌≡◌, ◌≢◌, refl, sym, ap, ◌∙◌, subst, ◌<◌, ◌^◌, Bytes, length, length-append, drop, true,
  not, Option, none, some, ◌∷◌, ok, guard, wrap, require, >>=-eq-ok, require-eq-ok, guard-eq-ok,
  ok_inj, some_inj, arith,
}
use kessa.Base.Binary.{
  big_endian, big_endian_inj, length-big_endian, ◌⁀◌, NoZero, no_zero-NoZero, part_inj,
  last_part_inj, suffix_inj, append_inj,
}
use kessa.Credential.{
  pop_domain, pop_input, prove_possession, verify_possession, holder_public, create,
}
use kessa.Credential.Binding.{create-holder_key}
use kessa.Credential.Data.{Credential, Options, Pop}
use kessa.Env.{Env}
use kessa.Errors.{empty_nonce, bound_key, cannot_encode}
use kessa.Keys.{Key, Jwk, Signer, IsGenuine, public_key, verify_signature}
use kessa.Keys.Encoding.{DecodesBase64}
use kessa.Platform.{Platform}
use kessa.Types.{Action}
use mathlib.Core.List.{append_assoc}

-- JSON escapes the control characters in its strings.
abbrev pub EscapesControls : Env → Type 0
EscapesControls env = (a : Action) (body : Bytes) → env.marshal_action a ≡ some body → NoZero body

holder_public_ok :
    (p : Platform) (held : Option Jwk) (j : Jwk) (k : Key)
    → held ≡ some j
    → public_key p j ≡ ok k
    → holder_public p held ≡ ok k
unfolding holder_public
holder_public_ok p none j k h parsed = cc
holder_public_ok p (some i) j k h parsed =
    subst (λ r. wrap bound_key (public_key p r) ≡ ok k) (sym (some_inj h)) (rw parsed refl)

-- A proof that a genuine signer makes, with a nonce that is not empty, for a credential composed
-- with its key is accepted for the action and the position that it was made for. Decoding base64url
-- has to undo encoding.
pub verify_possession-prove :
    (env : Env) (o : Options) (c : Credential) (holder : Signer) (nonce : Bytes) (action : Action)
    (seq : ℕ) (prev_hash : Bytes) (pop : Pop)
    → DecodesBase64 env.platform
    → IsGenuine env.platform holder
    → o.holder_key ≡ some holder.public
    → create env.platform o ≡ ok c
    → length nonce ≢ 0
    → prove_possession env c holder nonce action seq prev_hash ≡ ok pop
    → verify_possession env c pop action seq prev_hash ≡ ok tt
unfolding prove_possession verify_possession
verify_possession-prove env o c holder nonce action seq prev_hash pop decodes genuine own made fresh
      h =
    let (j, k, held, given, parsed) = create-holder_key env.platform o c decodes made in
    let (input, framed, h1) = >>=-eq-ok (pop_input env c nonce action seq prev_hash) _ h in
    let (sig, signed, proof) = >>=-eq-ok (holder.sign input) _ h1 in
    let key : k ≡ holder.public = some_inj (sym given ∙ own) in
    let present : not (length nonce == 0) ≡ true = ground arith in
    let public : holder_public env.platform c.holder_key ≡ ok holder.public =
      holder_public_ok env.platform c.holder_key j holder.public held (parsed ∙ ap ok key) in
    subst (λ q. verify_possession env c q action seq prev_hash ≡ ok tt) (ok_inj proof)
      (rw public (rw present (rw framed (rw (genuine input sig signed) refl))))

tag_NoZero : NoZero pop_domain
tag_NoZero = no_zero-NoZero pop_domain refl

-- The nonce is raw bytes, so it is delimited from the other end.
tail_inj :
    (n m x y : Bytes) (s t : ℕ) (p q : Bytes)
    → NoZero x
    → NoZero y
    → s < 2 ^ 64
    → t < 2 ^ 64
    → length p ≡ length q
    → n ⁀ x ⁀ big_endian s ⁀ p ≡ m ⁀ y ⁀ big_endian t ⁀ q
    → (n ≡ m) × (x ≡ y) × (s ≡ t) × (p ≡ q)
tail_inj n m x y s t p q hx hy hs ht lengths e =
    let sizes : length (0 ∷ big_endian s ⁀ p) ≡ length (0 ∷ big_endian t ⁀ q) = omega (
      arith,
      length-append (big_endian s) (0 ∷ p),
      length-append (big_endian t) (0 ∷ q),
      length-big_endian s,
      length-big_endian t,
    ) in
    let whole = append_assoc n (0 ∷ x) _ ∙ e ∙ sym (append_assoc m (0 ∷ y) _) in
    let (fronts, backs) = suffix_inj (n ⁀ x) (m ⁀ y) sizes whole in
    let (nonces, bodies) = last_part_inj n m x y hx hy fronts in
    let positions : big_endian s ⁀ p ≡ big_endian t ⁀ q = ap (drop 1) backs in
    let (seqs, hashes) =
      append_inj (big_endian s) (big_endian t) (length-big_endian s ∙ sym (length-big_endian t))
        positions in
    (nonces, bodies, big_endian_inj s t hs ht seqs, ap (drop 1) hashes)

-- A proof cannot be moved. Where the subjects and the identifiers have no zero byte, the previous
-- hashes have one length, the sequence numbers fit their 64 bits and JSON escapes control bytes,
-- two proofs are over the same message only for the same subject, identifier, nonce, encoded action
-- and position.
pub pop_input_inj :
    (env : Env) (c d : Credential) (n m : Bytes) (a b : Action) (s t : ℕ) (p q : Bytes)
    (input : Bytes)
    → EscapesControls env
    → NoZero c.subject × NoZero c.macaroon.identifier
    → NoZero d.subject × NoZero d.macaroon.identifier
    → s < 2 ^ 64
    → t < 2 ^ 64
    → length p ≡ length q
    → pop_input env c n a s p ≡ ok input
    → pop_input env d m b t q ≡ ok input
    → (c.subject ≡ d.subject)
      × (c.macaroon.identifier ≡ d.macaroon.identifier)
      × (n ≡ m)
      × (env.marshal_action a ≡ env.marshal_action b)
      × (s ≡ t)
      × (p ≡ q)
unfolding pop_input
pop_input_inj env c d n m a b s t p q input escapes hc hd hs ht lengths f g =
    let (x, encoded_x, made_x) = >>=-eq-ok (require (env.marshal_action a) cannot_encode) _ f in
    let (y, encoded_y, made_y) = >>=-eq-ok (require (env.marshal_action b) cannot_encode) _ g in
    let xs = require-eq-ok (env.marshal_action a) cannot_encode encoded_x in
    let ys = require-eq-ok (env.marshal_action b) cannot_encode encoded_y in
    let whole = ok_inj made_x ∙ sym (ok_inj made_y) in
    let (_, e1) = part_inj pop_domain pop_domain tag_NoZero tag_NoZero whole in
    let (subjects, e2) = part_inj c.subject d.subject hc.0 hd.0 e1 in
    let (ids, e3) = part_inj c.macaroon.identifier d.macaroon.identifier hc.1 hd.1 e2 in
    let (nonces, bodies, seqs, hashes) =
      tail_inj n m x y s t p q (escapes a x xs) (escapes b y ys) hs ht lengths e3 in
    (subjects, ids, nonces, xs ∙ ap some bodies ∙ sym ys, seqs, hashes)

-- A proof that is accepted has a nonce, and a signature under a key that the credential holds.
pub verify_possession_inv :
    (env : Env) (c : Credential) (pop : Pop) (action : Action) (seq : ℕ) (prev : Bytes)
    → verify_possession env c pop action seq prev ≡ ok tt
    → (length pop.nonce ≢ 0)
      × ((k : Key) × (input : Bytes) × (verify_signature env.platform k input pop.signature ≡ true))
unfolding verify_possession
verify_possession_inv env c pop action seq prev h =
    let (k, held, h1) = >>=-eq-ok (holder_public env.platform c.holder_key) _ h in
    let (_, fresh, h2) = >>=-eq-ok (guard (not (length pop.nonce == 0)) empty_nonce) _ h1 in
    let (input, framed, h3) = >>=-eq-ok (pop_input env c pop.nonce action seq prev) _ h2 in
    let present : not (length pop.nonce == 0) ≡ true = guard-eq-ok _ _ fresh in
    ((λ e. ground arith), (k, input, guard-eq-ok _ _ h3))
