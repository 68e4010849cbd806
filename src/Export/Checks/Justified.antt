-- ===== src/Export/Checks/Justified.antt =====
-- What it means that an allowed entry is justified by the evidence of its export.
use kessa.Base.{
  ℕ, ◌==◌, ◌≡◌, ◌≢◌, refl, sym, ◌∙◌, ◌↔◌, ◌⊎◌, inl, inr, Bytes, is_empty, not-is_empty_iff, Bool,
  true, false, not, ◌&&◌, ◌||◌, some, [], ◌∷◌, length, Result, ok, ◌>>=◌, ◌>>◌, guard, require,
  wrap, if◌then◌else◌, Succeeds, bind-Succeeds, then_iff, guard_iff, wrap_iff, >>=-eq-ok,
  wrap-eq-ok, require-eq-ok, arith,
}
use kessa.Audit.{verify_approval}
use kessa.Audit.Data.{Entry}
use kessa.Chain.{Links, principals}
use kessa.Credential.{verify_possession}
use kessa.Credential.Data.{Credential}
use kessa.Env.{Env}
use kessa.Errors
use kessa.Errors.{Error}
use kessa.Export.{Export}
use kessa.Export.Checks.{
  Inputs, pass, pass_deny, terminal, rederive, authority_context, check_status, check_possession,
  has_approver, has_approval, check_present, check_approval, check_allowed, evidence,
  after_evidence,
}
use kessa.Export.Checks.Derived.{IsDerived, rederive_iff, IsStatusChecked, check_status_iff}
use kessa.Export.Checks.Evidence.{IsEvidence, evidence-IsEvidence}
use kessa.Keys.{Key, resolve_key}
use kessa.Macaroon.{satisfies}
use kessa.Types.{Decision}

module _ (env : Env) where
  -- Step 7.
  abbrev pub IsPossessed : Credential → Entry → Type 0
  IsPossessed c e =
      (e.pop_nonce ≢ [])
      × ((e.pop_signature ≢ [])
          × (verify_possession env c (record { nonce = e.pop_nonce; signature = e.pop_signature })
                e.action e.seq e.prev_hash
              ≡ ok tt))

  present_iff : (bs : Bytes) → (not (length bs == 0) ≡ true) ↔ (bs ≢ [])
  present_iff [] = (λ h. absurd (ground arith), λ h. absurd (h refl))
  present_iff (b ∷ bs) = (λ h e. cc, λ h. ground arith)

  check_possession_iff :
      (c : Credential) (e : Entry) → (check_possession env c e ≡ ok tt) ↔ IsPossessed c e
  unfolding check_possession
  check_possession_iff c e =
      let nonce = present_iff e.pop_nonce in
      let signature = present_iff e.pop_signature in
      (
        λ h.
            let (here, proved) = (then_iff _ _).0 h in
            let both : not (length e.pop_nonce == 0 || length e.pop_signature == 0) ≡ true =
              (guard_iff _ _).0 here in
            let n : not (length e.pop_nonce == 0) ≡ true = ground arith in
            let s : not (length e.pop_signature == 0) ≡ true = ground arith in
            (nonce.0 n, (signature.0 s, (wrap_iff _ _).0 proved)),
        λ (n, (s, proved)).
            let a = nonce.1 n in
            let b = signature.1 s in
            (then_iff _ _).1 ((guard_iff _ _).1 (ground arith), (wrap_iff _ _).1 proved),
      )

  -- An approval that verifies under the published key of its approver.
  abbrev pub IsApprovalBy : Inputs → Credential → Entry → Type 0
  IsApprovalBy inp c e =
      (key : Key) × ((resolve_key env.platform inp.dids e.approved_by ≡ ok key)
        × (verify_approval env key c.subject e.action e.seq e.prev_hash e.approval ≡ ok tt))

  -- Step 8: needed for a consequential action, and checked wherever there is any of it.
  abbrev pub IsApproved : Inputs → Bool → Credential → Entry → Type 0
  IsApproved inp consequential c e =
      ((consequential ≡ true) ⊎ ((e.approved_by ≢ []) ⊎ (e.approval ≢ [])))
      → (e.approved_by ≢ []) × ((e.approval ≢ []) × IsApprovalBy inp c e)

  check_approval_iff :
      (inp : Inputs) (b : Bool) (c : Credential) (e : Entry)
      → (check_approval env inp b c e ≡ ok tt) ↔ IsApproved inp b c e
  unfolding check_approval check_present has_approver has_approval
  check_approval_iff inp b c e =
      by_parts Errors.no_approval Errors.partial_approval b (not (is_empty e.approved_by))
        (not (length e.approval == 0)) (not-is_empty_iff e.approved_by) (present_iff e.approval)
        (
          λ h.
              let (key, resolved, h1) =
                >>=-eq-ok
                  (wrap Errors.unresolved_approver
                    (resolve_key env.platform inp.dids e.approved_by))
                  _ h in
              (key, (wrap-eq-ok _ _ resolved, (wrap_iff _ _).0 h1)),
          λ (key, (resolved, approved)). rw resolved (rw approved refl),
        )
    where
      by_parts :
          (x y : Error) (b a s : Bool) {A S P : Type 0} {r : Result Error (Unit {0})}
          → (a ≡ true) ↔ A
          → (s ≡ true) ↔ S
          → (r ≡ ok tt) ↔ P
          → ((guard (not (b && not (a && s))) x
                >> (if a || s then guard (a && s) y >> r else ok tt))
              ≡ ok tt)
            ↔ (((b ≡ true) ⊎ (A ⊎ S)) → A × (S × P))
      by_parts x y true true true f g p =
          (λ h _. (f.0 refl, (g.0 refl, p.0 h)), λ k. p.1 ((k (inl refl)).1.1))
      by_parts x y true true false f g p = (λ h. cc, λ k. cc (g.1 ((k (inl refl)).1.0)))
      by_parts x y true false s f g p = (λ h. cc, λ k. cc (f.1 ((k (inl refl)).0)))
      by_parts x y false true true f g p =
          (λ h _. (f.0 refl, (g.0 refl, p.0 h)), λ k. p.1 ((k (inr (inl (f.0 refl)))).1.1))
      by_parts x y false true false f g p =
          (λ h. cc, λ k. cc (g.1 ((k (inr (inl (f.0 refl)))).1.0)))
      by_parts x y false false true f g p = (λ h. cc, λ k. cc (f.1 ((k (inr (inr (g.0 refl)))).0)))
      by_parts x y false false false f g p = (
        λ h k. elim k [ inl n ↦ cc n | inr (inl a) ↦ cc (f.1 a) | inr (inr s) ↦ cc (g.1 s) ],
        λ k. refl,
      )

  -- The actor's credential permits the action, the actor proved possession, the policy derives the
  -- recorded decision, and a consequential action was checked for revocation and approved.
  pub record IsJustified (exp : Export) (e : Entry) (inp : Inputs) : Type 0 where
    pub links : Links
    pub evidence : IsEvidence env exp e inp links
    pub actor : Credential
    pub is_actor : terminal links ≡ some actor
    pub derived : Decision
    pub is_derived : IsDerived env exp.policy e derived
    pub permitted :
        satisfies env.platform actor.macaroon (authority_context env actor e.action) ≡ ok tt
    pub status : IsStatusChecked env inp derived.consequential e links
    pub possession : IsPossessed actor e
    pub approval : IsApproved inp derived.consequential actor e

  -- Steps 4.5 to 8 succeed exactly where the entry is justified by these links.
  pub check_allowed-IsJustified :
      (exp : Export) (e : Entry) (inp : Inputs) (ls : Links)
      → IsEvidence env exp e inp ls
      → Succeeds (check_allowed env exp e inp ls)
      → IsJustified exp e inp
  unfolding check_allowed
  check_allowed-IsJustified exp e inp ls ev (o, h) =
      let (c, last, h1) = >>=-eq-ok (require (terminal ls) Errors.empty_chain) _ h in
      let (d, derived, h2) = >>=-eq-ok (rederive env exp.policy e) _ h1 in
      let (_, permitted, h3) =
        >>=-eq-ok
          (wrap Errors.exceeds_authority
            (satisfies env.platform c.macaroon (authority_context env c e.action)))
          _ h2 in
      let (n, swept, h4) = >>=-eq-ok (check_status env inp d.consequential e ls) _ h3 in
      let (_, possessed, h5) = >>=-eq-ok (check_possession env c e) _ h4 in
      let (_, approved, _) = >>=-eq-ok (check_approval env inp d.consequential c e) _ h5 in
      record {
        links = ls;
        evidence = ev;
        actor = c;
        is_actor = require-eq-ok _ _ last;
        derived = d;
        is_derived = (rederive_iff env exp.policy e d).0 derived;
        permitted = (wrap_iff _ _).0 permitted;
        status = (check_status_iff env inp d.consequential e ls).0 (n, swept);
        possession = (check_possession_iff c e).0 possessed;
        approval = (check_approval_iff inp d.consequential c e).0 approved;
      }

  pub check_allowed_ok :
      (exp : Export) (e : Entry) (inp : Inputs) (w : IsJustified exp e inp)
      → (n : ℕ) × (check_allowed env exp e inp w.links ≡ ok (pass (principals w.links) n))
  unfolding check_allowed
  check_allowed_ok exp e inp w =
      let (n, swept) = (check_status_iff env inp w.derived.consequential e w.links).1 w.status in
      (
        n,
        rw (w.is_actor) (
            rw ((rederive_iff env exp.policy e w.derived).1 w.is_derived) (
              rw (w.permitted) (
                rw swept (
                  rw ((check_possession_iff w.actor e).1 w.possession) (
                    rw ((check_approval_iff inp w.derived.consequential w.actor e).1 w.approval)
                      refl))))),
      )

  -- An allowed entry has the checks to pass, and a denied one is done.
  pub after_evidence-allowed :
      (exp : Export) (e : Entry) (inp : Inputs) (ls : Links)
      → e.decision.allowed ≡ true
      → after_evidence env exp e inp ls ≡ check_allowed env exp e inp ls
  unfolding after_evidence
  after_evidence-allowed exp e inp ls allowed = rw allowed refl

  pub after_evidence-denied :
      (exp : Export) (e : Entry) (inp : Inputs) (ls : Links)
      → e.decision.allowed ≡ false
      → after_evidence env exp e inp ls ≡ ok (pass_deny e.decision.reason (principals ls))
  unfolding after_evidence
  after_evidence-denied exp e inp ls denied = rw denied refl

  -- For an allowed entry the evidence and then the checks end in a pass exactly where the entry is
  -- justified: the evidence is complete and its chain verifies, the decision is derived again from
  -- the carried policy, the authority, the status lists, the proof of possession and the approval
  -- hold.
  pub pass_iff :
      (exp : Export) (e : Entry) (inp : Inputs)
      → e.decision.allowed ≡ true
      → Succeeds (evidence env exp e inp >>= after_evidence env exp e inp) ↔ IsJustified exp e inp
  pass_iff exp e inp allowed = (
    λ h.
        let (ls, (found, (o, passed))) = (bind-Succeeds _ _).0 h in
        let ev = (evidence-IsEvidence env exp e inp ls).0 found in
        check_allowed-IsJustified exp e inp ls ev
          (o, sym (after_evidence-allowed exp e inp ls allowed) ∙ passed),
    λ w.
        let (n, passed) = check_allowed_ok exp e inp w in
        (bind-Succeeds _ _).1 (
          w.links,
          (
            (evidence-IsEvidence env exp e inp w.links).1 w.evidence,
            (
              pass (principals w.links) n,
              after_evidence-allowed exp e inp w.links allowed ∙ passed,
            ),
          ),
        ),
  )
