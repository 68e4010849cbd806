-- ===== src/Export/Verify/Passing.antt =====
-- What a pass of the verifier proves.
use kessa.Base.{
  ℕ, suc, ◌+◌, ◌≤◌, ◌<◌, length, ◌⊎◌, ◌↔◌, ◌==◌, ltb, ◌≡◌, refl, sym, ◌∙◌, subst, Bool, true, false,
  not, Bool-cases, inl, inr, List, [], ◌∷◌, All, Result, ok, err, ◌>>=◌, wrap, if◌then◌else◌,
  Succeeds, bind-Succeeds, >>=-eq-ok, wrap-eq-ok, ok_inj, arith,
}
use kessa.Audit.{verify_entries}
use kessa.Audit.Entries.{verify_entries-prefix}
use kessa.Audit.Data.{Entry}
use kessa.Env.{Env}
use kessa.Errors.{Error, unresolved_signer}
use kessa.Export.{Export, is_v1, verify_envelope}
use kessa.Export.Checks.{Inputs, Outcome, integrity_only, evidence, after_evidence}
use kessa.Export.Checks.Evidence.{IsEvidence, evidence-IsEvidence}
use kessa.Export.Checks.Justified.{
  IsJustified, pass_iff, check_allowed_ok, after_evidence-allowed, after_evidence-denied,
}
use kessa.Export.Verify.{
  outcome_of, verify_entry, Verdict, result_at, results_from, verdict_after, envelope_check, verify,
  is_bad, none_bad, passes,
}
use kessa.Chain.{Links}
use kessa.Keys.{Key, resolve_key}

-- An outcome that is neither a failure nor left unverified.
good_outcome : (r : Result Error Outcome) → is_bad (outcome_of r) ≡ false → Succeeds r
unfolding outcome_of is_bad
good_outcome (ok o) h = (o, refl)
good_outcome (err x) h = cc

module _ (env : Env) (exp : Export) (inp : Inputs) where
  -- The evidence of an entry makes its chain, and justifies it if it records an allowed action.
  pub record IsBacked (e : Entry) : Type 0 where
    pub links : Links
    pub evidenced : IsEvidence env exp e inp links
    pub justified : e.decision.allowed ≡ true → IsJustified env exp e inp

  verify_entry-IsBacked :
      (e : Entry) → is_v1 exp ≡ false → is_bad (verify_entry env exp e inp) ≡ false → IsBacked e
  unfolding verify_entry
  verify_entry-IsBacked e v2 h =
      let good =
        subst
          (λ b.
            is_bad (
              if b
              then integrity_only e.resolved_chain
              else outcome_of (evidence env exp e inp >>= after_evidence env exp e inp))
            ≡ false)
          v2 h in
      let ended = good_outcome _ good in
      let (ls, (found, _)) = (bind-Succeeds _ _).0 ended in
      record {
        links = ls;
        evidenced = (evidence-IsEvidence env exp e inp ls).0 found;
        justified = λ allowed. (pass_iff env exp e inp allowed).0 ended;
      }

  IsBacked-verify_entry :
      (e : Entry) → is_v1 exp ≡ false → IsBacked e → is_bad (verify_entry env exp e inp) ≡ false
  unfolding verify_entry outcome_of is_bad
  IsBacked-verify_entry e v2 b = by_decision (Bool-cases e.decision.allowed)
    where
      by_decision :
          ((e.decision.allowed ≡ true) ⊎ (e.decision.allowed ≡ false))
          → is_bad (verify_entry env exp e inp) ≡ false
      by_decision (inl allowed) =
          let w = b.justified allowed in
          let found = (evidence-IsEvidence env exp e inp w.links).1 w.evidence in
          let (_, passed) = check_allowed_ok env exp e inp w in
          rw v2 (rw found (rw (after_evidence-allowed env exp e inp w.links allowed ∙ passed) refl))
      by_decision (inr denied) =
          let found = (evidence-IsEvidence env exp e inp b.links).1 b.evidenced in
          rw v2 (rw found (rw (after_evidence-denied env exp e inp b.links denied) refl))

  results_from-IsBacked :
      (i : ℕ) (es : List Entry)
      → is_v1 exp ≡ false
      → (none_bad (results_from env exp inp (ok tt) i es) ≡ true) ↔ All IsBacked es
  unfolding none_bad results_from result_at
  results_from-IsBacked i [] v2 = (λ h. tt, λ h. refl)
  results_from-IsBacked i (e ∷ es) v2 =
      let rest = results_from-IsBacked (suc i) es v2 in
      (
        λ h.
            let here : is_bad (verify_entry env exp e inp) ≡ false = ground arith in
            (verify_entry-IsBacked e v2 here, rest.0 (ground arith)),
        λ (here, later). rw (IsBacked-verify_entry e v2 here) (rest.1 later),
      )

  broken-bad :
      (n i : ℕ) (x : Error) (es : List Entry)
      → i ≤ n
      → n < i + length es
      → none_bad (results_from env exp inp (err (n, x)) i es) ≡ false
  unfolding none_bad results_from result_at is_bad
  broken-bad n i x [] low high = absurd (omega arith)
  broken-bad n i x (e ∷ es) low high =
      by_index (Bool-cases (i == n)) (λ lt. broken-bad n (suc i) x es (omega arith) (omega arith))
    where
      by_index :
          (((i == n) ≡ true) ⊎ ((i == n) ≡ false))
          → (i < n → none_bad (results_from env exp inp (err (n, x)) (suc i) es) ≡ false)
          → none_bad (results_from env exp inp (err (n, x)) i (e ∷ es)) ≡ false
      by_index (inl same) later = rw same refl
      by_index (inr other) later =
          let lt : i < n = ground arith in
          let after : ltb n i ≡ false = ground arith in
          let rest = later lt in
          rw (other, after) (rw rest (either (is_bad (verify_entry env exp e inp))))
        where
          either : (b : Bool) → (if b then false else false) ≡ false
          either true = refl
          either false = refl

  checked-IsLog :
      (k : Key)
      → none_bad (results_from env exp inp (verify_entries env k exp.entries) 0 exp.entries) ≡ true
      → verify_entries env k exp.entries ≡ ok tt
  checked-IsLog k h = by_result (verify_entries env k exp.entries) refl h
    where
      by_result :
          (r : Result (ℕ × Error) (Unit {0}))
          → verify_entries env k exp.entries ≡ r
          → none_bad (results_from env exp inp r 0 exp.entries) ≡ true
          → r ≡ ok tt
      by_result (ok a) made good = refl
      by_result (err (n, x)) made good =
          let (inside, _) = verify_entries-prefix env k exp.entries n x made in
          let bad = broken-bad n 0 x exp.entries (omega arith) (omega arith) in cc

  passes_after :
      (k : Key) (checked : Result Error (Unit {0}))
      → passes (verdict_after env exp inp k checked) ≡ true
      → (checked ≡ ok tt)
        × ((is_v1 exp ≡ false)
            × (none_bad (results_from env exp inp (verify_entries env k exp.entries) 0 exp.entries)
                ≡ true))
  unfolding passes verdict_after
  passes_after k (err x) h = cc
  passes_after k (ok a) h = (refl, (ground arith, ground arith))

  -- What a pass stands for.
  pub record IsVerified : Type 0 where
    pub carries : is_v1 exp ≡ false
    pub key : Key
    pub resolved : resolve_key env.platform inp.dids exp.signer ≡ ok key
    pub enveloped : verify_envelope env exp key ≡ ok tt
    pub chained : verify_entries env key exp.entries ≡ ok tt
    pub backed : All IsBacked exp.entries

  passes-IsVerified : (v : Verdict) → verify env exp inp ≡ ok v → passes v ≡ true → IsVerified
  unfolding verify envelope_check
  passes-IsVerified v h passed =
      let (k, resolved, made) =
        >>=-eq-ok
          (wrap (unresolved_signer exp.signer) (resolve_key env.platform inp.dids exp.signer)) _
          h in
      let (enveloped, (v2, good)) =
        passes_after k (envelope_check env exp k)
          (subst (λ x. passes x ≡ true) (sym (ok_inj made)) passed) in
      let chained = checked-IsLog k good in
      record {
        carries = v2;
        key = k;
        resolved = wrap-eq-ok _ _ resolved;
        enveloped =
            subst (λ b. (if not b then verify_envelope env exp k else ok tt) ≡ ok tt) v2 enveloped;
        chained = chained;
        backed =
            (results_from-IsBacked 0 exp.entries v2).0 (
              subst (λ r. none_bad (results_from env exp inp r 0 exp.entries) ≡ true) chained good);
      }

  IsVerified-passes : (w : IsVerified) → passes (verdict_after env exp inp w.key (ok tt)) ≡ true
  unfolding passes verdict_after
  IsVerified-passes w =
      rw (w.carries) (rw (w.chained) ((results_from-IsBacked 0 exp.entries w.carries).1 w.backed))

  envelope_check-ok : (w : IsVerified) → envelope_check env exp w.key ≡ ok tt
  unfolding envelope_check
  envelope_check-ok w = rw (w.carries) (w.enveloped)

  IsVerified-verify :
      (w : IsVerified) → verify env exp inp ≡ ok (verdict_after env exp inp w.key (ok tt))
  unfolding verify
  IsVerified-verify w = rw (w.resolved) (rw (envelope_check-ok w) refl)

  -- An export gets a verdict that passes exactly when it is verified: it is of the version with
  -- evidence, the key which its signer publishes signed its envelope and every entry of an unbroken
  -- chain, the evidence of every entry makes the chain that it names, and every entry that records
  -- an allowed action is justified by the evidence of the export.
  pub verify-passes : ((v : Verdict) × (verify env exp inp ≡ ok v) × (passes v ≡ true)) ↔ IsVerified
  verify-passes = (
    λ (v, verified, passed). passes-IsVerified v verified passed,
    λ w. (verdict_after env exp inp w.key (ok tt), IsVerified-verify w, IsVerified-passes w),
  )
