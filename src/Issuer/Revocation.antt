-- ===== src/Issuer/Revocation.antt =====
-- Revoking a credential in the published status list.
use kessa.Base.{
  ◌==◌, leb, codes, ◌≡◌, ◌≢◌, ◌≤◌, refl, sym, ap, ◌∙◌, subst, Str, str_eq_iff, is_empty,
  not-is_empty_iff, length, Bool, true, not, ◌||◌, [], All, Result, ok, err, ◌>>◌, guard,
  guard-eq-ok, wrap, >>=-eq-ok, >>-eq-ok, wrap-eq-ok, ok_inj, if◌then◌else◌, arith,
}
use kessa.Base.Int.{ℤ, eq_ℤ}
use kessa.Issuer.{
  Tools, Spec, missing, too_many_hops, signing_failed, list_failed, list_not_loaded, index_refused,
  no_key, validate, key_of, sign_list, revoked_list, revoke,
}
use kessa.Keys.{Signer}
use kessa.Keys.Encoding.{DecodesBase64}
use kessa.Status.{StatusList, min_bits, bit_len, lookup, set_bit, sign, verify}
use kessa.Status.Publication
use kessa.Status.Publication.{publish_path, load}
use kessa.Status.Bits.{IsByte, set_bit-size, lookup-set_bit}
use kessa.Chain.{max_depth}
use kessa.Errors.{Error}
use kessa.Keystore.{AreGenuine, signer_of-IsGenuine}
use kessa.Platform.{Platform}
use kessa.Status.Publication.Readback.{ReadsBack, published-path, load-publish}
use kessa.Status.Signing.{verify-sign, lookup-sign}
use kessa.Web.DidWeb.{Files}
use kessa.Web.Paths.{FilePath}

wrapped :
    (l signed : StatusList) (r : Result Error (Unit {0}))
    → (wrap signing_failed r >> ok signed) ≡ ok l
    → (r ≡ ok tt) × (signed ≡ l)
wrapped l signed (ok a) h = (refl, ok_inj h)
wrapped l signed (err e) h = cc

sign_list-signs :
    (s : Signer) (l signed : StatusList)
    → sign_list s l ≡ ok signed
    → ((sign s l).1 ≡ ok tt) × ((sign s l).0 ≡ signed)
unfolding sign_list
sign_list-signs s l signed h = wrapped signed (sign s l).0 (sign s l).1 h

validate-authority : (s : Spec) → validate s ≡ ok tt → s.status.issuer ≢ []
unfolding validate
validate-authority s h =
    let (_, h1) =
      >>-eq-ok (guard (not (is_empty s.root_key_hex)) (missing (codes "rootKeyHex"))) _ h in
    let (_, h2) =
      >>-eq-ok (guard (not (is_empty s.identifier)) (missing (codes "identifier"))) _ h1 in
    let (_, h3) = >>-eq-ok (guard (not (length s.hops == 0)) (missing (codes "hops"))) _ h2 in
    let (_, h4) =
      >>-eq-ok (guard (leb (length s.hops) max_depth) (too_many_hops (length s.hops))) _ h3 in
    let given = not (is_empty s.status.url || is_empty s.status.issuer) in
    let (named, _) = >>-eq-ok (guard given (missing (codes "status"))) _ h4 in
    (not-is_empty_iff s.status.issuer).0
      (or_right (is_empty s.status.url) _ (guard-eq-ok given (missing (codes "status")) named))
  where
    or_right : (a b : Bool) → not (a || b) ≡ true → not b ≡ true
    or_right a b h = ground arith

-- After `revoke`, whoever loads the list from where it was published reads the bit that was asked
-- for at the index and the old ones elsewhere, and the list verifies for the issuer that the
-- specification names, under its key. The list that was published before has to have at least the
-- floor of bits and to be made of bytes, the new list to be read back from what is written for it,
-- base64url to decode what it encodes, and the library's signatures to verify.
pub revoke-loads :
    (t : Tools) (s : Spec) (root : Str) (index : ℤ) (clear : Bool) (files files' : Files)
    (path : FilePath) (old new : StatusList)
    → DecodesBase64 t.env.platform
    → AreGenuine t.seeds t.env.platform
    → load t.env.platform t.lists files path ≡ ok old
    → All IsByte old.bits
    → min_bits ≤ bit_len old
    → revoked_list t s index clear old ≡ ok new
    → ReadsBack t.env.platform t.lists new
    → revoke t s root index clear files ≡ ok (files', path)
    → (signer : Signer) × (load t.env.platform t.lists files' path ≡ ok new)
      × ((j : ℤ) → lookup new j ≡ (if eq_ℤ j index then ok (not clear) else lookup old j))
      × (key_of t s.status.issuer ≡ ok signer)
      × (verify t.env.platform new s.status.issuer signer.public ≡ ok tt)
unfolding revoke revoked_list key_of
revoke-loads t s root index clear files files' path old new decodes genuine loaded bytes enough
      revoked reads h =
    let p : Platform = t.env.platform in
    let (valid, h1) = >>-eq-ok (validate s) _ h in
    let (at, located, h2) =
      >>=-eq-ok (wrap list_failed (publish_path t.net root s.status.url)) _ h1 in
    let (l, read, h3) = >>=-eq-ok (wrap list_not_loaded (load p t.lists files at)) _ h2 in
    let (signed, signs, wrote) = >>=-eq-ok (revoked_list t s index clear l) _ h3 in
    let (l', changed, h4) =
      >>=-eq-ok (wrap index_refused (set_bit old index (not clear))) _ revoked in
    let (signer, held, resigned) = >>=-eq-ok (key_of t s.status.issuer) _ h4 in
    let same_path : at ≡ path = ok_inj (
      sym (wrap-eq-ok list_failed _ located)
      ∙ published-path p t.net t.lists signed root s.status.url files files' path
          (wrap-eq-ok list_failed _ wrote)) in
    let same : l ≡ old = ok_inj (
      sym (subst (λ q. load p t.lists files q ≡ ok l) same_path (wrap-eq-ok list_not_loaded _ read))
      ∙ loaded) in
    let is_new : signed ≡ new =
      ok_inj (sym (subst (λ x. revoked_list t s index clear x ≡ ok signed) same signs) ∙ revoked) in
    let (_, stored, filled) =
      load-publish p t.lists decodes t.net new root s.status.url files files' path reads (
        subst
          (λ x. Publication.publish p t.net t.lists x root s.status.url files ≡ ok (files', path))
          is_new (wrap-eq-ok list_failed _ wrote)) in
    let set : set_bit old index (not clear) ≡ ok l' = wrap-eq-ok index_refused _ changed in
    let (done, stamped) = sign_list-signs signer l' new resigned in
    let (named, honest, _) =
      signer_of-IsGenuine t.seeds p genuine t.keys s.status.issuer signer
        (wrap-eq-ok no_key _ held) in
    let checked =
      verify-sign p signer honest l' s.status.issuer (validate-authority s valid)
        (subst (λ n. min_bits ≤ n) (sym (set_bit-size old l' index (not clear) set)) enough) done
        (subst (λ x. length x.signature ≢ 0) (sym stamped) filled) in
    (
      signer,
      stored,
      λ j.
          sym (ap (λ x. lookup x j) stamped)
          ∙ lookup-sign signer l' j
          ∙ lookup-set_bit old l' index j (not clear) bytes set,
      held,
      subst (λ x. verify p x s.status.issuer signer.public ≡ ok tt) stamped
          (checked ∙ rw ((str_eq_iff signer.did s.status.issuer).1 named) refl),
    )
