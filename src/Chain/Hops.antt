-- ===== src/Chain/Hops.antt =====
-- What a verified chain is, independently of the order in which its hops are checked.
use kessa.Base.{
  ℕ, suc, ◌≡◌, ◌≢◌, ◌≤◌, leb, refl, sym, ap, ◌∙◌, subst, ◌↔◌, Bytes, codes, str_eq_iff, true, not,
  Option, none, some, [], ◌∷◌, length, ok, require, wrap, then_iff, guard_iff, wrap_iff, iff_trans,
  iff_pair, >>=-eq-ok, wrap-eq-ok, guard-eq-ok, require-eq-ok, ok_inj, some_inj, arith,
}
use kessa.Base.Binary.{◌⁀◌}
use kessa.Chain.{
  Link, Links, max_depth, issuance_input, check_issuance, holder_public, check_holder, check_parent,
  check_hop, check_hops, is_nil, verify,
}
use kessa.Credential.Data.{Credential}
use kessa.Env.{Env}
use kessa.Errors.{
  cannot_encode, at_hop, unresolved_issuer, unresolved_subject, bad_holder_key, issuance_invalid,
  holder_key_mismatch,
}
use kessa.Keys.{Key, Jwk, Resolver, resolve_key, public_key, verify_signature}
use kessa.Keys.Encoding.{public_key-IsAccepted, keys_equal_iff}
use kessa.Macaroon.Delegation.{extends}

module _ (env : Env) (r : Resolver) where
  -- The issuer's published key signed the whole credential.
  pub record IsIssued (l : Link) : Type 0 where
    pub key : Key
    pub body : Bytes
    pub resolved : resolve_key env.platform r l.credential.issuer ≡ ok key
    pub encoded : env.marshal_credential l.credential ≡ some body
    pub signed :
        verify_signature env.platform key (codes "kessa/issuance/v2" ⁀ body) l.issuer_proof ≡ true

  -- The key that the credential binds is the one that its subject publishes.
  pub record IsBound (c : Credential) : Type 0 where
    pub key : Key
    pub jwk : Jwk
    pub held : c.holder_key ≡ some jwk
    pub parsed : public_key env.platform jwk ≡ ok key
    pub published : resolve_key env.platform r c.subject ≡ ok key

  -- The issuer of a hop is the subject of its parent, whose macaroon it extends.
  abbrev pub Descends : Option Credential → Credential → Type 0
  Descends none c = Unit {0}
  Descends (some parent) c =
      (c.issuer ≡ parent.subject) × (extends env.platform c.macaroon parent.macaroon ≡ ok tt)

  pub data IsChain : Option Credential → Links → Type 0 where
    done : {parent : Option Credential} → IsChain parent []
    hop :
        {parent : Option Credential} {l : Link} {ls : Links}
        → IsIssued l
        → IsBound l.credential
        → Descends parent l.credential
        → IsChain (some l.credential) ls
        → IsChain parent (l ∷ ls)

  check_issuance_iff : (l : Link) → (check_issuance env r l ≡ ok tt) ↔ IsIssued l
  unfolding check_issuance issuance_input
  check_issuance_iff l = (
    λ h.
        let (key, resolved, h1) =
          >>=-eq-ok (wrap unresolved_issuer (resolve_key env.platform r l.credential.issuer)) _ h in
        let (input, framed, h2) = >>=-eq-ok (issuance_input env l.credential) _ h1 in
        let (body, encoded, made) =
          >>=-eq-ok (require (env.marshal_credential l.credential) cannot_encode) _ framed in
        record {
          key = key;
          body = body;
          resolved = wrap-eq-ok unresolved_issuer _ resolved;
          encoded = require-eq-ok _ cannot_encode encoded;
          signed =
              subst (λ m. verify_signature env.platform key m l.issuer_proof ≡ true)
                (sym (ok_inj made)) (guard-eq-ok _ issuance_invalid h2);
        },
    λ s. rw (s.resolved) (rw (s.encoded) (rw (s.signed) refl)),
  )

  holder_public_inv :
      (held : Option Jwk) (k : Key)
      → holder_public env.platform held ≡ ok k
      → (j : Jwk) × (held ≡ some j) × (public_key env.platform j ≡ ok k)
  unfolding holder_public
  holder_public_inv none k h = cc
  holder_public_inv (some j) k h = (j, refl, wrap-eq-ok bad_holder_key _ h)

  holder_public_ok :
      (held : Option Jwk) (j : Jwk) (k : Key)
      → held ≡ some j
      → public_key env.platform j ≡ ok k
      → holder_public env.platform held ≡ ok k
  unfolding holder_public
  holder_public_ok none j k h parsed = cc
  holder_public_ok (some i) j k h parsed =
      subst (λ q. wrap bad_holder_key (public_key env.platform q) ≡ ok k) (sym (some_inj h))
        (rw parsed refl)

  check_holder_iff : (c : Credential) → (check_holder env r c ≡ ok tt) ↔ IsBound c
  unfolding check_holder
  check_holder_iff c = (
    λ h.
        let (key, published, h1) =
          >>=-eq-ok (wrap unresolved_subject (resolve_key env.platform r c.subject)) _ h in
        let (held_key, parsed_key, h2) = >>=-eq-ok (holder_public env.platform c.holder_key) _ h1 in
        let (jwk, held, parsed) = holder_public_inv c.holder_key held_key parsed_key in
        let accepted = public_key-IsAccepted env.platform jwk held_key parsed in
        let same =
          (keys_equal_iff key held_key accepted).0 (guard-eq-ok _ holder_key_mismatch h2) in
        record {
          key = held_key;
          jwk = jwk;
          held = held;
          parsed = parsed;
          published = wrap-eq-ok unresolved_subject _ published ∙ ap ok same;
        },
    λ b.
        let accepted = public_key-IsAccepted env.platform b.jwk b.key b.parsed in
        rw (b.published) (
          rw (holder_public_ok c.holder_key b.jwk b.key b.held b.parsed)
            (rw ((keys_equal_iff b.key b.key accepted).1 refl) refl)),
  )

  check_parent_iff :
      (parent : Option Credential) (c : Credential)
      → (check_parent env parent c ≡ ok tt) ↔ Descends parent c
  unfolding check_parent
  check_parent_iff none c = (λ h. tt, λ h. refl)
  check_parent_iff (some parent) c =
      iff_trans (then_iff _ _)
        (iff_pair (iff_trans (guard_iff _ _) (str_eq_iff c.issuer parent.subject)) (wrap_iff _ _))

  check_hops_iff :
      (i : ℕ) (parent : Option Credential) (ls : Links)
      → (check_hops env r i parent ls ≡ ok tt) ↔ IsChain parent ls
  unfolding check_hops check_hop
  check_hops_iff i parent [] = (λ h. done, λ h. refl)
  check_hops_iff i parent (l ∷ ls) =
      let each = iff_trans (then_iff _ _) (
        iff_pair
          (iff_trans (wrap_iff (at_hop i) (check_hop env r parent l)) (
            iff_trans (then_iff _ _) (
              iff_pair (check_issuance_iff l) (
                iff_trans (then_iff _ _) (
                  iff_pair (check_holder_iff l.credential)
                    (check_parent_iff parent l.credential))))))
          (check_hops_iff (suc i) (some l.credential) ls)) in
      (λ h. let ((a, (b, d)), rest) = each.0 h in hop a b d rest, λ k. each.1 (parts k))
    where
      parts :
          IsChain parent (l ∷ ls)
          → (IsIssued l × (IsBound l.credential × Descends parent l.credential))
            × IsChain (some l.credential) ls
      parts (hop a b d rest) = ((a, (b, d)), rest)

  not_nil_iff : (ls : Links) → (not (is_nil ls) ≡ true) ↔ (ls ≢ [])
  not_nil_iff [] = (λ h. cc, λ h. absurd (h refl))
  not_nil_iff (l ∷ ls) = (λ h e. cc, λ h. refl)

  depth_iff : (ls : Links) → (leb (length ls) max_depth ≡ true) ↔ (length ls ≤ 8)
  depth_iff ls = ground arith

  -- `Verify` accepts exactly the chains of one to eight hops, each of which was issued by its
  -- issuer's key, is bound to its subject's key, and descends from the hop before it.
  pub verify-IsChain :
      (ls : Links) → (verify env r ls ≡ ok tt) ↔ ((ls ≢ []) × ((length ls ≤ 8) × IsChain none ls))
  unfolding verify
  verify-IsChain ls = iff_trans (then_iff _ _) (
      iff_pair (iff_trans (guard_iff _ _) (not_nil_iff ls)) (
        iff_trans (then_iff _ _)
          (iff_pair (iff_trans (guard_iff _ _) (depth_iff ls)) (check_hops_iff 0 none ls))))
