-- ===== src/Export/Checks/Evidence.antt =====
-- The evidence of an entry: records of credentials that make a verified chain.
use kessa.Base.{
  ℕ, suc, ◌-◌, ◌≤◌, ◌==◌, ==_iff, leb, ◌≡◌, refl, sym, ap, ap₂, ◌∙◌, subst, ◌↔◌, Str, str_eq,
  str_eq_iff, str_eq_refl, true, some, List, [], ◌∷◌, length, ok, guard, require, wrap, >>=-eq-ok,
  guard-eq-ok, wrap-eq-ok, require-eq-ok, ok_inj, arith,
}
use kessa.Base.Dict.{Dict, lookup}
use kessa.Audit.Data.{Entry}
use kessa.Chain
use kessa.Chain.{Link, Links, principals}
use kessa.Env.{Env}
use kessa.Errors
use kessa.Errors.{Error}
use kessa.Export.{Export, CredentialRecord, credential_id}
use kessa.Export.Checks.{Inputs, check_record, find_links, same_dids, evidence}
use kessa.Types.{Did}

same_dids_iff : (ds es : List Did) → (same_dids ds es ≡ true) ↔ (ds ≡ es)
unfolding same_dids
same_dids_iff [] [] = (λ h. refl, λ h. refl)
same_dids_iff [] (e ∷ es) = (λ h. cc, λ h. cc)
same_dids_iff (d ∷ ds) [] = (λ h. cc, λ h. cc)
same_dids_iff (d ∷ ds) (e ∷ es) =
    let head = str_eq_iff d e in
    let tail = same_dids_iff ds es in
    (
      λ h. ap₂ ◌∷◌ (head.0 (ground arith)) (tail.0 (ground arith)),
      λ h.
          let p : d ≡ e = cc in
          let q : ds ≡ es = cc in let a = head.1 p in let b = tail.1 q in ground arith,
    )

module _ (env : Env) where
  -- The link of a hop is a record that is stored under the address of its content.
  abbrev pub IsRecord : Dict CredentialRecord → Str → Link → Type 0
  IsRecord set id l =
      (rec : CredentialRecord) × (lookup id set ≡ some rec)
      × (rec.credential_id ≡ id)
      × (credential_id env rec.credential ≡ ok id)
      × (l ≡ record { credential = rec.credential; issuer_proof = rec.issuer_proof })

  abbrev pub AreRecords : Dict CredentialRecord → List Str → Links → Type 0
  AreRecords set [] [] = Unit {0}
  AreRecords set (id ∷ ids) (l ∷ ls) = IsRecord set id l × AreRecords set ids ls
  AreRecords set _ _ = ⊥

  find_links_iff :
      (set : Dict CredentialRecord) (hop : ℕ) (ids : List Str) (ls : Links)
      → (find_links env set hop ids ≡ ok ls) ↔ AreRecords set ids ls
  unfolding find_links check_record
  find_links_iff set hop [] [] = (λ h. tt, λ h. refl)
  find_links_iff set hop [] (l ∷ ls) = (λ h. cc, λ h. absurd h)
  find_links_iff set hop (id ∷ ids) [] = (
    λ h.
        let (rec, _, h1) =
          >>=-eq-ok (require (lookup id set) (Errors.missing_credential hop id)) _ h in
        let (l, _, h2) = >>=-eq-ok (check_record env hop id rec) _ h1 in
        let (ms, _, h3) = >>=-eq-ok (find_links env set (suc hop) ids) _ h2 in
        absurd (cc (ok_inj h3)),
    λ h. absurd h,
  )
  find_links_iff set hop (id ∷ ids) (l ∷ ls) =
      let rest = find_links_iff set (suc hop) ids ls in
      (
        λ h.
            let (rec, found, h1) =
              >>=-eq-ok (require (lookup id set) (Errors.missing_credential hop id)) _ h in
            let (m, checked, h2) = >>=-eq-ok (check_record env hop id rec) _ h1 in
            let (ms, others, h3) = >>=-eq-ok (find_links env set (suc hop) ids) _ h2 in
            let (_, named, c1) =
              >>=-eq-ok (guard (str_eq rec.credential_id id) (Errors.wrong_record_id hop id)) _
                checked in
            let (got, addressed, c2) =
              >>=-eq-ok (wrap (Errors.bad_credential_id hop) (credential_id env rec.credential)) _
                c1 in
            let (_, same, c3) =
              >>=-eq-ok (guard (str_eq got id) (Errors.substituted hop id)) _ c2 in
            let address = (str_eq_iff got id).0 (guard-eq-ok _ _ same) in
            let whole = ok_inj h3 in
            let head : m ≡ l = cc in
            let tail : ms ≡ ls = cc in
            (
              (
                rec,
                require-eq-ok _ _ found,
                (str_eq_iff rec.credential_id id).0 (guard-eq-ok _ _ named),
                wrap-eq-ok _ _ addressed ∙ ap ok address,
                sym head ∙ sym (ok_inj c3),
              ),
              rest.0 (others ∙ ap ok tail),
            ),
        λ ((rec, found, named, addressed, made), more). rw found (
            rw ((str_eq_iff rec.credential_id id).1 named) (
              rw addressed
                (rw (str_eq_refl id) (rw (rest.1 more) (ap (λ x. ok (x ∷ ls)) (sym made)))))),
      )

  -- Steps 3 and 4: the records make a chain that verifies, with the principals of the entry.
  abbrev pub IsEvidence : Export → Entry → Inputs → Links → Type 0
  IsEvidence exp e inp ls =
      (2 ≤ length e.resolved_chain)
      × ((length e.chain_credential_ids ≡ length e.resolved_chain - 1)
          × (AreRecords exp.credentials e.chain_credential_ids ls
              × ((Chain.verify env inp.dids ls ≡ ok tt) × (principals ls ≡ e.resolved_chain))))

  pub evidence-IsEvidence :
      (exp : Export) (e : Entry) (inp : Inputs) (ls : Links)
      → (evidence env exp e inp ≡ ok ls) ↔ IsEvidence exp e inp ls
  unfolding evidence
  evidence-IsEvidence exp e inp ls = (
    λ h.
        let (_, long, h1) =
          >>=-eq-ok
            (guard (leb 2 (length e.resolved_chain)) (Errors.short_chain (length e.resolved_chain)))
            _ h in
        let (_, counted, h2) =
          >>=-eq-ok
            (guard (length e.chain_credential_ids == length e.resolved_chain - 1) (
              Errors.wrong_evidence_count (length e.chain_credential_ids)
                (length e.resolved_chain)))
            _ h1 in
        let (ms, found, h3) =
          >>=-eq-ok (find_links env exp.credentials 0 e.chain_credential_ids) _ h2 in
        let (_, verified, h4) =
          >>=-eq-ok (wrap Errors.chain_invalid (Chain.verify env inp.dids ms)) _ h3 in
        let (_, same, made) =
          >>=-eq-ok (guard (same_dids (principals ms) e.resolved_chain) Errors.wrong_principals) _
            h4 in
        subst (λ x. IsEvidence exp e inp x) (ok_inj made)
          (
            ground (arith, guard-eq-ok _ _ long),
            (
              (==_iff _ _).0 (guard-eq-ok _ _ counted),
              (
                (find_links_iff exp.credentials 0 e.chain_credential_ids ms).0 found,
                (
                  wrap-eq-ok _ _ verified,
                  (same_dids_iff (principals ms) e.resolved_chain).0 (guard-eq-ok _ _ same),
                ),
              ),
            ),
          ),
    λ (long, (counted, (found, (verified, same)))).
        let enough : leb 2 (length e.resolved_chain) ≡ true = ground arith in
        rw enough (
          rw ((==_iff (length e.chain_credential_ids) (length e.resolved_chain - 1)).1 counted) (
            rw ((find_links_iff exp.credentials 0 e.chain_credential_ids ls).1 found)
              (rw verified (rw ((same_dids_iff (principals ls) e.resolved_chain).1 same) refl)))),
  )
