-- ===== src/Enforce/Handle/Logged.antt =====
-- Every request ends in one of two ways: refused without a trace in the log, or logged.
use kessa.Base.{
  ℕ, suc, ◌≡◌, refl, sym, ap, ◌∙◌, subst, Bytes, Str, Bool, true, false, not, ◌&&◌, Option, none,
  some, is_some, List, [], ◌∷◌, ◌++◌, All, Result, ok, err, wrap, require, >>=-eq-ok, wrap-eq-ok,
  require-eq-ok, ok_inj, then_iff, guard_iff, wrap_iff, if◌then◌else◌, inl, inr, ◌⊎◌,
}
use kessa.Base.Dict.{Dict, lookup, insert}
use kessa.Base.Int.{ℤ}
use kessa.Audit.{Log, tip, seal}
use kessa.Audit.Data.{Entry}
use kessa.Audit.Growth.{commit-seal}
use kessa.Chain
use kessa.Chain.{Links}
use kessa.Credential.{verify_possession}
use kessa.Credential.Data.{Credential}
use kessa.Enforce.{Proxy, Request, add_all}
use kessa.Enforce.Decide.{decide}
use kessa.Enforce.Handle.{
  evidence_for, draft, prepare, record_next, record_all, commit_to, admit, written, make_durable,
  persist_prepared, decide_and_append, check_evidence_size, checked_chain, admission, handle_chain,
  handle,
}
use kessa.Enforce.WriteAhead
use kessa.Enforce.WriteAhead.{Wal, WalRecord, Disk, IsWhole, Lengthens, unchanged, append-cases}
use kessa.Env.{Env}
use kessa.Errors
use kessa.Errors.{Error}
use kessa.Export.{CredentialRecord, CredentialSet, credential_id, add, add_record, has}
use kessa.Export.Checks.{terminal}
use kessa.Export.Records.{add_ok}
use kessa.Types.{Decision}

module _ (env : Env) where
  abbrev HasAddress : CredentialRecord → Type 0
  HasAddress r = credential_id env r.credential ≡ ok r.credential_id

  evidence_for-HasAddress :
      (set : CredentialSet) (hop : ℕ) (seen : Dict Bool) (ls : Links)
      (creds : List CredentialRecord) (ids : List Str)
      → evidence_for env set hop seen ls ≡ ok (creds, ids)
      → All HasAddress creds
  unfolding evidence_for
  evidence_for-HasAddress set hop seen [] creds ids h =
      subst (All HasAddress) (ap (λ x. x.0) (ok_inj h)) tt
  evidence_for-HasAddress set hop seen (l ∷ ls) creds ids h =
      let (id, named, h1) =
        >>=-eq-ok (wrap (Errors.bad_evidence hop) (credential_id env l.credential)) _ h in
      let is_new : Bool = not (has set id) && not (is_some (lookup id seen)) in
      let ((rest, more), found, made) =
        >>=-eq-ok (evidence_for env set (suc hop) (if is_new then insert id true seen else seen) ls)
          _ h1 in
      subst (All HasAddress) (ap (λ x. x.0) (ok_inj made)) (
        either
          (record { credential_id = id; credential = l.credential; issuer_proof = l.issuer_proof })
          rest is_new
          (
            wrap-eq-ok _ _ named,
            evidence_for-HasAddress set (suc hop) (if is_new then insert id true seen else seen) ls
                rest more found,
          ))
    where
      either :
          (r : CredentialRecord) (rs : List CredentialRecord) (b : Bool)
          → HasAddress r × All HasAddress rs
          → All HasAddress (if b then r ∷ rs else rs)
      either r rs true h = h
      either r rs false h = h.1

  record_all-HasAddress :
      (p : Proxy) (out : Decision × Entry) (creds : List CredentialRecord)
      → All HasAddress creds
      → (set : CredentialSet) × (add_all env p.set creds ≡ ok set)
        × (record_all env p out creds ≡ (record p { set = set }, ok out))
  unfolding record_all record_next add_all
  record_all-HasAddress p out [] h = (p.set, refl, refl)
  record_all-HasAddress p out (r ∷ rs) h =
      let added : add env p.set r.credential r.issuer_proof
          ≡ ok (add_record p.set r.credential_id r.credential r.issuer_proof, r.credential_id) =
        add_ok env p.set r.credential r.issuer_proof r.credential_id h.0 in
      let q : Proxy = record p {
        set = add_record p.set r.credential_id r.credential r.issuer_proof;
      } in
      let (set, all, done) = record_all-HasAddress q out rs h.1 in
      (set, rw added all, rw added done)

  -- The line of the entry is at the end of the durable log's file, where there is a durable log.
  abbrev pub IsDurable : Entry → List CredentialRecord → Option Wal → Option Wal → Type 0
  IsDurable e creds none v = v ≡ none
  IsDurable e creds (some w) v =
      (line : Bytes) × (w.codec.encode (record { entry = e; credentials = creds }) ≡ some line)
      × (v ≡ some (record w { content = w.content ++ (line ++ 10 ∷ []) }))

  -- The file of the durable log has at most more bytes at its end.
  abbrev pub FileGrows : Option Wal → Option Wal → Type 0
  FileGrows none v = v ≡ none
  FileGrows (some w) v = (tail : Bytes) × (v ≡ some (record w { content = w.content ++ tail }))

  stays : (v : Option Wal) → FileGrows v v
  stays none = refl
  stays (some w) = ([], ap some (unchanged w))

  admission_inv :
      (p : Proxy) (req : Request) (ls : Links)
      → admission env p req ls ≡ ok tt
      → (not (Chain.is_nil ls) ≡ true)
        × ((check_evidence_size req ≡ ok tt) × (Chain.verify env p.dids ls ≡ ok tt))
  unfolding admission
  admission_inv p req ls h =
      let (some_links, h1) = (then_iff _ _).0 h in
      let (sized, verified) = (then_iff _ _).0 h1 in
      ((guard_iff _ _).0 some_links, (sized, (wrap_iff _ _).0 verified))

  -- What the entry of an attributed request is.
  pub record IsDecided (p : Proxy) (req : Request) (ls : Links) (now : ℤ) (d : Decision) (e : Entry)
      (creds : List CredentialRecord) : Type 0 where
    pub ids : List Str
    pub actor : Credential
    pub some_links : not (Chain.is_nil ls) ≡ true
    pub sized : check_evidence_size req ≡ ok tt
    pub verified : Chain.verify env p.dids ls ≡ ok tt
    pub found : evidence_for env p.set 0 [] ls ≡ ok (creds, ids)
    pub is_actor : terminal ls ≡ some actor
    pub possessed :
        verify_possession env actor req.pop req.action (tip p.log).0 (tip p.log).1 ≡ ok tt
    pub decided : d ≡ decide env p req ls actor (tip p.log).0 (tip p.log).1
    pub sealed : seal env p.log (draft p req ls ids d now) ≡ ok e

  -- The two ways in which a request ends.
  pub data Handled (p : Proxy) (req : Request) (now : ℤ) (disk : Disk)
      : Proxy → Result Error (Decision × Entry) → Type 0 where
    refused :
        {q : Proxy} {x : Error}
        → q ≡ record p { wal = q.wal }
        → FileGrows p.wal q.wal
        → (IsWhole disk → q.wal ≡ p.wal)
        → Handled p req now disk q (err x)
    logged :
        {q : Proxy} {ls : Links} {d : Decision} {e : Entry} {creds : List CredentialRecord}
        → req.chain ≡ some ls
        → IsDecided p req ls now d e creds
        → IsDurable e creds p.wal q.wal
        → add_all env p.set creds ≡ ok q.set
        → q ≡ record p {
          log = record p.log { entries = p.log.entries ++ e ∷ [] };
          set = q.set;
          wal = q.wal;
        }
        → Handled p req now disk q (ok (d, e))

  module _ (p : Proxy) (req : Request) (now : ℤ) (disk : Disk) where
    abbrev Ends : Proxy × Result Error (Decision × Entry) → Type 0
    Ends out = Handled p req now disk out.0 out.1

    admit-Handled :
        (ls : Links) (d : Decision) (e : Entry) (creds : List CredentialRecord) (v : Option Wal)
        → req.chain ≡ some ls
        → IsDecided p req ls now d e creds
        → IsDurable e creds p.wal v
        → Ends (admit env (record p { wal = v }) e d creds)
    unfolding admit commit_to
    admit-Handled ls d e creds v given w durable =
        let grown : Log = record p.log { entries = p.log.entries ++ e ∷ [] } in
        let (fits, _) = commit-seal env p.log _ e w.sealed in
        let addressed = evidence_for-HasAddress p.set 0 [] ls creds w.ids w.found in
        let (set, all, done) =
          record_all-HasAddress (record p { wal = v; log = grown }) (d, e) creds addressed in
        subst Ends (sym (ap (commit_to env (record p { wal = v }) (d, e) creds) fits ∙ done))
          (logged given w durable all refl)

    make_durable-Handled :
        (ls : Links) (d : Decision) (e : Entry) (creds : List CredentialRecord) (v : Option Wal)
        → p.wal ≡ v
        → req.chain ≡ some ls
        → IsDecided p req ls now d e creds
        → Ends (make_durable env p v disk e d creds)
    unfolding make_durable written
    make_durable-Handled ls d e creds none at given w =
        subst (λ q. Ends (admit env q e d creds)) (sym (ap (λ v. record p { wal = v }) at))
          (admit-Handled ls d e creds none given w
            (subst (λ v. IsDurable e creds v none) (sym at) refl))
    make_durable-Handled ls d e creds (some v) at given w =
        by_disk (append-cases v (record { entry = e; credentials = creds }) disk)
      where
        line : WalRecord
        line = record { entry = e; credentials = creds }

        by_disk :
            ((bytes : Bytes) × (v.codec.encode line ≡ some bytes)
                × (WriteAhead.append v line disk
                    ≡ (record v { content = v.content ++ (bytes ++ 10 ∷ []) }, ok tt)))
              ⊎ ((u : Wal) × (x : Error) × (WriteAhead.append v line disk ≡ (u, err x))
                  × Lengthens v u
                  × (IsWhole disk → u ≡ v))
            → Ends (
                written env p
                  (WriteAhead.append v line disk).0
                  e
                  d
                  creds
                  (WriteAhead.append v line disk).1)
        by_disk (inl (bytes, encoded, kept)) =
            subst (λ out. Ends (written env p out.0 e d creds out.1)) (sym kept)
              (admit-Handled ls d e creds
                (some (record v { content = v.content ++ (bytes ++ 10 ∷ []) })) given w
                (subst
                  (λ u.
                    IsDurable e creds u
                      (some (record v { content = v.content ++ (bytes ++ 10 ∷ []) })))
                  (sym at) (bytes, encoded, refl)))
        by_disk (inr (u, x, lost, (tail, longer), same)) =
            subst (λ out. Ends (written env p out.0 e d creds out.1)) (sym lost)
              (refused refl (subst (λ o. FileGrows o (some u)) (sym at) (tail, ap some longer))
                (λ n. ap some (same n) ∙ sym at))

    prepare_inv :
        (ls : Links) (e : Entry) (d : Decision) (creds : List CredentialRecord)
        → admission env p req ls ≡ ok tt
        → prepare env p req ls now ≡ ok (e, (d, creds))
        → IsDecided p req ls now d e creds
    unfolding prepare
    prepare_inv ls e d creds admitted h =
        let (some_links, (sized, verified)) = admission_inv p req ls admitted in
        let ((found, ids), gathered, h1) = >>=-eq-ok (evidence_for env p.set 0 [] ls) _ h in
        let (c, last, h2) = >>=-eq-ok (require (terminal ls) Errors.no_chain) _ h1 in
        let (_, possessed, h3) =
          >>=-eq-ok
            (wrap (Errors.unattributable_possession c.subject (tip p.log).0)
              (verify_possession env c req.pop req.action (tip p.log).0 (tip p.log).1))
            _ h2 in
        let (sealed_entry, sealed, made) =
          >>=-eq-ok
            (wrap Errors.seal_failed (
              seal env p.log
                (draft p req ls ids (decide env p req ls c (tip p.log).0 (tip p.log).1) now)))
            _ h3 in
        let entries = ap (λ x. x.0) (ok_inj made) in
        let decisions = ap (λ x. x.1.0) (ok_inj made) in
        let records = ap (λ x. x.1.1) (ok_inj made) in
        record {
          ids = ids;
          actor = c;
          some_links = some_links;
          sized = sized;
          verified = verified;
          found = gathered ∙ ap (λ r. ok (r, ids)) records;
          is_actor = require-eq-ok _ _ last;
          possessed = wrap-eq-ok _ _ possessed;
          decided = sym decisions;
          sealed =
              subst (λ x. seal env p.log (draft p req ls ids x now) ≡ ok e) decisions
                (wrap-eq-ok _ _ sealed ∙ ap ok entries);
        }

    decide_and_append-Handled :
        (ls : Links)
        → req.chain ≡ some ls
        → admission env p req ls ≡ ok tt
        → Ends (decide_and_append env p req ls now disk)
    unfolding decide_and_append persist_prepared
    decide_and_append-Handled ls given admitted = by_preparation (prepare env p req ls now) refl
      where
        by_preparation :
            (r : Result Error (Entry × (Decision × List CredentialRecord)))
            → prepare env p req ls now ≡ r
            → Ends (persist_prepared env p disk r)
        by_preparation (err x) made = refused refl (stays p.wal) (λ n. refl)
        by_preparation (ok (e, (d, creds))) made =
            make_durable-Handled ls d e creds p.wal refl given
              (prepare_inv ls e d creds admitted made)

    -- A request is refused, and then neither the log nor the evidence changes, and the file of the
    -- durable log has at most more bytes at its end, none unless a write or a sync failed part way;
    -- or it is logged, and then its chain verified, its presenter proved possession for the
    -- position of the entry, the decision is that of `decide`, and exactly one entry was sealed,
    -- its encoded line put at the end of the file before it was committed, and added with its
    -- evidence.
    pub handle-Handled :
        Handled p req now disk (handle env p req now disk).0 (handle env p req now disk).1
    unfolding handle handle_chain checked_chain
    handle-Handled = by_chain req.chain refl
      where
        by_admission :
            (ls : Links) (r : Result Error (Unit {0}))
            → req.chain ≡ some ls
            → admission env p req ls ≡ r
            → Ends (checked_chain env p req ls now disk r)
        by_admission ls (err x) given made = refused refl (stays p.wal) (λ n. refl)
        by_admission ls (ok a) given made = decide_and_append-Handled ls given made

        by_chain : (o : Option Links) → req.chain ≡ o → Ends (handle_chain env p req o now disk)
        by_chain none given = refused refl (stays p.wal) (λ n. refl)
        by_chain (some ls) given = by_admission ls (admission env p req ls) given refl
