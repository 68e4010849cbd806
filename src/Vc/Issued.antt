-- ===== src/Vc/Issued.antt =====
-- What is issued verifies, and within its window only is it valid.
use kessa.Base.{
  ◌≡◌, refl, subst, ◌↔◌, Bytes, str_eq, true, not, Option, none, some, ok, ◌>>◌, guard, require,
  wrap, >>=-eq-ok, guard_iff, then_iff, iff_trans, iff_pair, wrap-eq-ok, ok_inj, arith,
}
use kessa.Base.Int.{ℤ, ltb_ℤ, ◌≤ℤ◌}
use kessa.Keys.{Signer, IsGenuine}
use kessa.Keys.Encoding.{DecodesBase64}
use kessa.Platform.{Platform}
use kessa.Vc.{
  not_yet_valid, bad_subject, not_signed, VerifiableCredential, MarshalVc, IssueOptions,
  without_value, signing_input, or_now, unsigned, with_value, issue, verify, check_expiry, valid,
}

-- An instant in the window.
abbrev pub IsWithin : ℤ → Option ℤ → ℤ → Type 0
IsWithin from none t = from ≤ℤ t
IsWithin from (some until) t = (from ≤ℤ t) × (t ≤ℤ until)

not_before : (a b : ℤ) → (not (ltb_ℤ b a) ≡ true) ↔ (a ≤ℤ b)
not_before a b = ground arith

valid_iff :
    (c : VerifiableCredential) (t : ℤ)
    → (valid c t ≡ ok tt) ↔ IsWithin c.issuance_date c.expiration_date t
unfolding valid check_expiry
valid_iff c t = by_expiry c.expiration_date
  where
    from :
        (guard (not (ltb_ℤ t c.issuance_date)) (not_yet_valid c.issuance_date) ≡ ok tt)
        ↔ (c.issuance_date ≤ℤ t)
    from = iff_trans (guard_iff _ _) (not_before c.issuance_date t)

    by_expiry :
        (o : Option ℤ)
        → ((guard (not (ltb_ℤ t c.issuance_date)) (not_yet_valid c.issuance_date)
              >> check_expiry t o)
            ≡ ok tt)
          ↔ IsWithin c.issuance_date o t
    by_expiry none = (λ h. from.0 ((then_iff _ _).0 h).0, λ h. (then_iff _ _).1 (from.1 h, refl))
    by_expiry (some e) =
        iff_trans (then_iff _ _) (iff_pair from (iff_trans (guard_iff _ _) (not_before t e)))

-- A credential that a genuine signer issues verifies under its key and names it as the issuer, and
-- it is valid exactly at the instants from its issuance to its expiry, if it has one. Decoding
-- base64url has to undo encoding.
pub issue-verify :
    (p : Platform) (marshal : MarshalVc) (s : Signer) (subject : Option Bytes) (o : IssueOptions)
    (now : ℤ) (c : VerifiableCredential)
    → IsGenuine p s
    → DecodesBase64 p
    → issue p marshal s subject o now ≡ ok c
    → (verify p marshal c s.public ≡ ok tt)
      × (c.issuer ≡ s.did)
      × ((t : ℤ) → (valid c t ≡ ok tt) ↔ IsWithin (or_now now o.issued_at) o.expires t)
unfolding issue verify signing_input without_value with_value unsigned str_eq
issue-verify p marshal s subject o now c genuine decodes h =
    let (cs, _, h1) = >>=-eq-ok (require subject bad_subject) _ h in
    let (input, framed, h2) = >>=-eq-ok (signing_input marshal (unsigned s cs o now)) _ h1 in
    let (sig, signed, made) = >>=-eq-ok (wrap not_signed (s.sign input)) _ h2 in
    let accepted = genuine input sig (wrap-eq-ok _ _ signed) in
    let whole : VerifiableCredential = record (unsigned s cs o now) {
      proof = with_value (p.encode_base64 sig) (unsigned s cs o now).proof;
    } in
    let verifies : verify p marshal whole s.public ≡ ok tt =
      rw (decodes sig) (rw framed (rw accepted refl)) in
    subst
      (λ x.
        (verify p marshal x s.public ≡ ok tt)
        × (x.issuer ≡ s.did)
        × ((t : ℤ) → (valid x t ≡ ok tt) ↔ IsWithin (or_now now o.issued_at) o.expires t))
      (ok_inj made) (verifies, refl, valid_iff whole)
