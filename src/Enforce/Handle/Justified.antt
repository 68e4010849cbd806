-- ===== src/Enforce/Handle/Justified.antt =====
-- The chokepoint and the verifier agree: what the one allows and logs, the other finds justified.
use kessa.Base.{
  ℕ, suc, ◌≤◌, ◌==◌, ◌≡◌, ◌≢◌, refl, sym, ap, ◌∙◌, subst, ◌⊎◌, inl, inr, Bytes, Str, is_empty,
  not-is_empty_iff, Bool, true, false, not, ◌||◌, Bool-cases, none, some, List, [], ◌∷◌, length,
  Result, ok, err, guard, wrap, >>=-eq-ok, wrap-eq-ok, guard-eq-ok, ◌&&◌, is_some, ok_inj,
  if◌then◌else◌, arith,
}
use kessa.Base.Dict.{Dict, lookup, insert}
use kessa.Base.Int.{ℤ}
use kessa.Audit
use kessa.Audit.{Log, tip, seal, at_position}
use kessa.Audit.Entries.{hashed}
use kessa.Audit.Data.{Entry}
use kessa.Audit.Growth.{seal_inv}
use kessa.Chain
use kessa.Chain.{Links, principals, subjects}
use kessa.Credential.{status_authority}
use kessa.Credential.Data.{Credential}
use kessa.Credential.Possession.{verify_possession_inv}
use kessa.Enforce.{Evaluator, classifier, Proxy, Request}
use kessa.Enforce.Decide.{evaluate, classified, read_hop, verify_approval}
use kessa.Enforce.Decide.Allowed.{AreClear, IsWarranted, decide-IsWarranted}
use kessa.Enforce.Handle.{evidence_for, draft}
use kessa.Enforce.Handle.Logged.{IsDecided}
use kessa.Env.{Env}
use kessa.Errors
use kessa.Errors.{Error}
use kessa.Export.{Export, CredentialRecord, CredentialSet, credential_id, has, policy_id}
use kessa.Export.Checks.{Inputs, StatusResolver, hop_revoked, revoked_by}
use kessa.Export.Checks.Derived.{IsDerived, AreUnrevoked, IsStatusChecked}
use kessa.Export.Checks.Evidence.{IsEvidence, AreRecords}
use kessa.Export.Checks.Justified.{IsJustified, IsPossessed, IsApproved}
use kessa.Keys.{Key, Resolver, resolve_key, verify_signature}
use kessa.Platform.{Platform}
use kessa.Policy
use kessa.Policy.{Policy}
use kessa.Types.{Did, Action, Decision}
use kessa.Status

-- No key accepts the empty signature.
abbrev pub RefusesEmpty : Platform → Type 0
RefusesEmpty p = (k : Key) (message : Bytes) → verify_signature p k message [] ≡ false

module _ (env : Env) where
  read_hop-hop_revoked :
      (r : Resolver) (source : StatusResolver) (c : Credential)
      → read_hop env r source c ≡ ok false
      → hop_revoked env (record { dids = r; status = some source }) c ≡ ok false
  unfolding read_hop hop_revoked revoked_by
  read_hop-hop_revoked r source c h =
      let (list, fetched, h1) = >>=-eq-ok (source c.status_ref.list_url) _ h in
      let (key, resolved, h2) =
        >>=-eq-ok
          (wrap Errors.unresolved_authority (resolve_key env.platform r (status_authority c))) _
          h1 in
      let (_, verified, read) =
        >>=-eq-ok (Status.verify env.platform list (status_authority c) key) _ h2 in
      rw fetched (rw (wrap-eq-ok _ _ resolved) (rw verified read))

  AreClear-AreUnrevoked :
      (r : Resolver) (source : StatusResolver) (ls : Links)
      → AreClear env r source ls
      → AreUnrevoked env (record { dids = r; status = some source }) ls
  AreClear-AreUnrevoked r source [] h = tt
  AreClear-AreUnrevoked r source (l ∷ ls) h = (
    λ t. read_hop-hop_revoked r source l.credential (h.0 t),
    AreClear-AreUnrevoked r source ls h.1,
  )

  classified_inv : (r : Result Error Decision) (d : Decision) → classified r ≡ (d, none) → r ≡ ok d
  unfolding classified
  classified_inv (ok e) d h = ap ok (ap (λ x. x.0) h)
  classified_inv (err x) d h = let failed : some x ≡ none = ap (λ y. y.1) h in cc

  classifier-evaluate :
      (pol : Policy) (v : Evaluator) (d : Decision) (a : Action)
      → v ≡ classifier pol
      → evaluate env v a ≡ (d, none)
      → Policy.evaluate env.platform pol a ≡ ok d
  unfolding evaluate
  classifier-evaluate pol v d a at h =
      classified_inv (Policy.evaluate env.platform pol a) d
        (sym (ap (λ u. evaluate env u a) at) ∙ h)

  length-evidence_for :
      (set : CredentialSet) (hop : ℕ) (seen : Dict Bool) (ls : Links)
      (creds : List CredentialRecord) (ids : List Str)
      → evidence_for env set hop seen ls ≡ ok (creds, ids)
      → length ids ≡ length ls
  unfolding evidence_for
  length-evidence_for set hop seen [] creds ids h = ap length (sym (ap (λ x. x.1) (ok_inj h)))
  length-evidence_for set hop seen (l ∷ ls) creds ids h =
      let (id, named, h1) =
        >>=-eq-ok (wrap (Errors.bad_evidence hop) (credential_id env l.credential)) _ h in
      let is_new : Bool = not (has set id) && not (is_some (lookup id seen)) in
      let ((rest, more), found, made) =
        >>=-eq-ok (evidence_for env set (suc hop) (if is_new then insert id true seen else seen) ls)
          _ h1 in
      ap length (sym (ap (λ x. x.1) (ok_inj made)))
      ∙ ap suc (
          length-evidence_for set (suc hop) (if is_new then insert id true seen else seen) ls rest
            more found)

  length-subjects : (ls : Links) → length (subjects ls) ≡ length ls
  unfolding subjects
  length-subjects [] = refl
  length-subjects (l ∷ ls) = ap suc (length-subjects ls)

  length-principals :
      (ls : Links)
      → not (Chain.is_nil ls) ≡ true
      → (2 ≤ length (principals ls)) × (length (principals ls) ≡ suc (length ls))
  unfolding principals subjects
  length-principals [] h = cc
  length-principals (l ∷ ls) h = (omega arith, omega (arith, length-subjects ls))

  verify_approval_inv :
      (p : Proxy) (req : Request) (actor : Did) (seq : ℕ) (prev : Bytes)
      → verify_approval env p req actor seq prev ≡ ok tt
      → (req.approver ≢ [])
        × (req.approval ≢ [])
        × ((k : Key) × ((resolve_key env.platform p.dids req.approver ≡ ok k)
              × (Audit.verify_approval env k actor req.action seq prev req.approval ≡ ok tt)))
  unfolding verify_approval
  verify_approval_inv p req actor seq prev h =
      let (_, presented, h1) =
        >>=-eq-ok
          (guard (not (is_empty req.approver || length req.approval == 0))
            Errors.no_approval_presented)
          _ h in
      let (k, resolved, approved) =
        >>=-eq-ok (wrap Errors.unresolved_approver (resolve_key env.platform p.dids req.approver)) _
          h1 in
      let both : not (is_empty req.approver || length req.approval == 0) ≡ true =
        guard-eq-ok _ _ presented in
      let named : not (is_empty req.approver) ≡ true = ground arith in
      (
        (not-is_empty_iff req.approver).0 named,
        (λ none_there. ground (arith, ap length none_there)),
        (k, (wrap-eq-ok _ _ resolved, approved)),
      )

  recorded :
      (a : Bytes) (x : Did)
      → a ≢ []
      → ((if not (length a == 0) then x else []) ≡ x)
        × ((if not (length a == 0) then a else []) ≡ a)
  recorded [] x h = absurd (h refl)
  recorded (b ∷ bs) x h =
      let there : (length (b ∷ bs) == 0) ≡ false = ground arith in (rw there refl, rw there refl)

  unrecorded :
      (a : Bytes) (x : Did)
      → a ≡ []
      → ((if not (length a == 0) then x else []) ≡ [])
        × ((if not (length a == 0) then a else []) ≡ [])
  unrecorded [] x h = (refl, refl)
  unrecorded (b ∷ bs) x h = cc

  -- The chokepoint's own inputs, as a verifier that resolves the same documents and lists has them.
  abbrev pub inputs_of : Proxy → Inputs
  inputs_of p = record { dids = p.dids; status = p.status }

  module _ (p : Proxy) (req : Request) (ls : Links) (now : ℤ) (d : Decision) (e : Entry)
      (creds : List CredentialRecord) (pol : Policy) (exp : Export)
      (w : IsDecided env p req ls now d e creds) (ours : p.evaluator ≡ classifier pol)
      (pinned : policy_id env pol ≡ ok p.policy_id) (named : p.policy_id ≢ [])
      (carries : exp.policy ≡ some pol) (records : AreRecords env exp.credentials w.ids ls)
      (refuses : RefusesEmpty env.platform) (plain : d.consequential ≡ false → req.approval ≡ [])
      (allowed : d.allowed ≡ true) where
    abbrev sealed_as : Bytes → Bytes → Entry
    sealed_as body sig =
        record (at_position (tip p.log).0 (tip p.log).1 (draft p req ls w.ids d now)) {
          entry_hash = env.platform.sha256 (hashed body);
          signature = sig;
        }

    warrant : IsWarranted env p req ls w.actor (tip p.log).0 (tip p.log).1 d
    warrant = subst (IsWarranted env p req ls w.actor (tip p.log).0 (tip p.log).1) (sym w.decided) (
        decide-IsWarranted env p req ls w.actor (tip p.log).0 (tip p.log).1
          (ap (λ x. x.allowed) (sym w.decided) ∙ allowed))

    evidence_lem : (body sig : Bytes) → IsEvidence env exp (sealed_as body sig) (inputs_of p) ls
    unfolding draft
    evidence_lem body sig =
        let (long, counted) = length-principals ls w.some_links in
        let ids = length-evidence_for p.set 0 [] ls creds w.ids w.found in
        (long, (omega arith, (records, (w.verified, refl))))

    derived_lem : (body sig : Bytes) → IsDerived env exp.policy (sealed_as body sig) warrant.base
    unfolding draft
    derived_lem body sig = record {
      policy = pol;
      is_carried = carries;
      pinned = pinned;
      named = named;
      evaluated =
          classifier-evaluate pol p.evaluator warrant.base req.action ours warrant.evaluated;
      allowed = warrant.allowed;
      consequential = sym warrant.consequential;
      rule = sym warrant.rule;
      version = sym warrant.version;
    }

    status_lem :
        (body sig : Bytes)
        → IsStatusChecked env (inputs_of p) warrant.base.consequential (sealed_as body sig) ls
    unfolding draft
    status_lem body sig t =
        let (source, at, counted, clear, _) = warrant.live t in
        (
          counted,
          subst (λ o. AreUnrevoked env (record { dids = p.dids; status = o }) ls) (sym at)
              (AreClear-AreUnrevoked p.dids source ls clear),
        )

    possession_lem : (body sig : Bytes) → IsPossessed env w.actor (sealed_as body sig)
    unfolding draft
    possession_lem body sig =
        let (fresh, (k, input, signed)) =
          verify_possession_inv env w.actor req.pop req.action (tip p.log).0 (tip p.log).1
            w.possessed in
        (
          (λ none_there. fresh (ap length none_there)),
          (
            (λ none_there. cc (
              refuses k input,
              subst (λ s. verify_signature env.platform k input s ≡ true) none_there signed,
            )),
            w.possessed,
          ),
        )

    approval_lem :
        (body sig : Bytes)
        → IsApproved env (inputs_of p) warrant.base.consequential w.actor (sealed_as body sig)
    unfolding draft
    approval_lem body sig = by_class (Bool-cases warrant.base.consequential)
      where
        by_class :
            ((warrant.base.consequential ≡ true) ⊎ (warrant.base.consequential ≡ false))
            → IsApproved env (inputs_of p) warrant.base.consequential w.actor (sealed_as body sig)
        by_class (inl t) any =
            let (_, _, _, _, approved) = warrant.live t in
            let (approver, approval, (k, (resolved, valid))) =
              verify_approval_inv p req w.actor.subject (tip p.log).0 (tip p.log).1 approved in
            let (by, with) = recorded req.approval req.approver approval in
            (
              (λ none_there. approver (sym by ∙ none_there)),
              (
                (λ none_there. approval (sym with ∙ none_there)),
                (
                  k,
                  (
                    subst (λ x. resolve_key env.platform p.dids x ≡ ok k) (sym by) resolved,
                    subst
                        (λ x.
                          Audit.verify_approval env k w.actor.subject req.action (tip p.log).0
                            (tip p.log).1 x
                          ≡ ok tt)
                        (sym with) valid,
                  ),
                ),
              ),
            )
        by_class (inr f) any =
            let empty = plain (warrant.consequential ∙ f) in
            let (by, with) = unrecorded req.approval req.approver empty in
            elim any [
              | inl t ↦ cc (t, f)
              | inr (inl a) ↦ absurd (a by)
              | inr (inr a) ↦ absurd (a with)
            ]

    -- Whatever the chokepoint allows and logs, a verifier with the same documents and lists finds
    -- justified. The conditions: the proxy runs the classifier with a policy whose id is the one
    -- pinned, and is not empty; the export carries that policy and, under the logged ids, the
    -- records of the chain; no signature scheme accepts an empty signature; and where the action is
    -- not consequential, the caller sent no approval with it.
    pub logged-IsJustified : IsJustified env exp e (inputs_of p)
    unfolding draft
    logged-IsJustified =
        let (body, sig, _, _, made) = seal_inv env p.log (draft p req ls w.ids d now) e w.sealed in
        subst (λ x. IsJustified env exp x (inputs_of p)) (sym made)
          (record {
            links = ls;
            evidence = evidence_lem body sig;
            actor = w.actor;
            is_actor = w.is_actor;
            derived = warrant.base;
            is_derived = derived_lem body sig;
            permitted = warrant.permitted;
            status = status_lem body sig;
            possession = possession_lem body sig;
            approval = approval_lem body sig;
          })
