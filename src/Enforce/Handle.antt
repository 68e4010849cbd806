-- ===== src/Enforce/Handle.antt =====
-- internal/enforce/enforce.go: a request from its arrival to the entry in the log.
pub mod Logged
pub mod Justified
pub mod History
use kessa.Base.{
  ℕ, suc, ◌==◌, leb, Bytes, Str, is_empty, Bool, true, false, not, ◌&&◌, Option, none, some,
  is_some, List, [], ◌∷◌, length, Result, ok, err, ◌>>=◌, ◌>>◌, guard, wrap, require, if◌then◌else◌,
}
use kessa.Base.Dict.{Dict, lookup, insert}
use kessa.Base.Int.{ℤ}
use kessa.Audit.{Log, tip, seal, commit}
use kessa.Audit.Data.{Entry, EntryDraft}
use kessa.Chain
use kessa.Chain.{Links, Link, principals, actor}
use kessa.Credential.{verify_possession}
use kessa.Credential.Data.{Credential, Pop}
use kessa.Enforce.{Proxy, Request}
use kessa.Enforce.Decide.{decide}
use kessa.Enforce.WriteAhead
use kessa.Enforce.WriteAhead.{Wal, WalRecord, Disk}
use kessa.Env.{Env}
use kessa.Errors
use kessa.Errors.{Error}
use kessa.Export.{CredentialRecord, CredentialSet, credential_id, add, has}
use kessa.Export.Checks.{terminal}
use kessa.Types.{Did, Action, Decision}

abbrev pub max_nonce : ℕ
max_nonce = 128

abbrev pub max_signature : ℕ
max_signature = 512

-- `checkEvidenceSize`
unfoldable pub check_evidence_size : Request → Result Error (Unit {0})
check_evidence_size req = do
  guard (leb (length req.pop.nonce) max_nonce) (Errors.nonce_too_long (length req.pop.nonce))
  guard (leb (length req.pop.signature) max_signature)
      (Errors.signature_too_long (length req.pop.signature))
  guard (leb (length req.approval) max_signature) (Errors.approval_too_long (length req.approval))

-- `evidenceFor`: the ids of the hops, and the records that neither the set nor an earlier hop has.
unfoldable pub evidence_for :
    Env → CredentialSet → ℕ → Dict Bool → Links → Result Error (List CredentialRecord × List Str)
evidence_for env set hop seen [] = ok ([], [])
evidence_for env set hop seen (l ∷ ls) = do
  id ← wrap (Errors.bad_evidence hop) (credential_id env l.credential)
  let is_new : Bool = not (has set id) && not (is_some (lookup id seen))
  rest ← evidence_for env set (suc hop) (if is_new then insert id true seen else seen) ls
  ok (
    if is_new
        then record { credential_id = id; credential = l.credential; issuer_proof = l.issuer_proof }
          ∷ rest.0
        else rest.0,
    id ∷ rest.1,
  )

-- The draft of the entry; an approval is recorded wherever one was presented.
unfoldable pub draft : Proxy → Request → Links → List Str → Decision → ℤ → EntryDraft
draft p req ls ids d now = record {
  action = req.action;
  resolved_chain = principals ls;
  chain_credential_ids = ids;
  decision = d;
  policy_id = p.policy_id;
  pop_nonce = req.pop.nonce;
  pop_signature = req.pop.signature;
  approved_by = if not (length req.approval == 0) then req.approver else [];
  approval = if not (length req.approval == 0) then req.approval else [];
  timestamp = now;
}

-- Everything before the entry is made durable: nothing is admitted yet.
prepare :
    Env → Proxy → Request → Links → ℤ → Result Error (Entry × (Decision × List CredentialRecord))
unfolding draft
prepare env p req ls now = do
  evidence ← evidence_for env p.set 0 [] ls
  c ← require (terminal ls) Errors.no_chain
  wrap (Errors.unattributable_possession c.subject (tip p.log).0)
      (verify_possession env c req.pop req.action (tip p.log).0 (tip p.log).1)
  let d : Decision = decide env p req ls c (tip p.log).0 (tip p.log).1
  e ← wrap Errors.seal_failed (seal env p.log (draft p req ls (evidence.1) d now))
  ok (e, (d, evidence.0))

record_next :
    {A : Type 0}
    → Proxy
    → (Proxy → Proxy × Result Error A)
    → Result Error (CredentialSet × Str)
    → Proxy × Result Error A
record_next p rest (err x) = (p, err (Errors.record_failed x))
record_next p rest (ok added) = rest (record p { set = added.0 })

pub record_all :
    Env → Proxy → Decision × Entry → List CredentialRecord → Proxy × Result Error (Decision × Entry)
unfolding record_next
record_all env p out [] = (p, ok out)
record_all env p out (r ∷ rs) =
    record_next p (λ q. record_all env q out rs) (add env p.set r.credential r.issuer_proof)

commit_to :
    Env
    → Proxy
    → Decision × Entry
    → List CredentialRecord
    → Result Error Log
    → Proxy × Result Error (Decision × Entry)
commit_to env p out creds (err x) = (p, err (Errors.commit_failed x))
commit_to env p out creds (ok log) = record_all env (record p { log = log }) out creds

-- Commit the entry, and then its evidence.
pub admit :
    Env → Proxy → Entry → Decision → List CredentialRecord → Proxy × Result Error (Decision × Entry)
unfolding commit_to
admit env p e d creds = commit_to env p (d, e) creds (commit p.log e)

written :
    Env
    → Proxy
    → Wal
    → Entry
    → Decision
    → List CredentialRecord
    → Result Error (Unit {0})
    → Proxy × Result Error (Decision × Entry)
written env p w e d creds (ok a) = admit env (record p { wal = some w }) e d creds
written env p w e d creds (err x) = (record p { wal = some w }, err (Errors.durable_write_failed x))

make_durable :
    Env
    → Proxy
    → Option Wal
    → Disk
    → Entry
    → Decision
    → List CredentialRecord
    → Proxy × Result Error (Decision × Entry)
unfolding written
make_durable env p none disk e d creds = admit env p e d creds
make_durable env p (some w) disk e d creds =
    let done = WriteAhead.append w (record { entry = e; credentials = creds }) disk in
    written env p done.0 e d creds done.1

persist_prepared :
    Env
    → Proxy
    → Disk
    → Result Error (Entry × (Decision × List CredentialRecord))
    → Proxy × Result Error (Decision × Entry)
unfolding make_durable
persist_prepared env p disk (err x) = (p, err x)
persist_prepared env p disk (ok (e, (d, creds))) = make_durable env p p.wal disk e d creds

-- `decideAndAppend`, under the lock: one step from one state of the proxy to the next.
pub decide_and_append :
    Env → Proxy → Request → Links → ℤ → Disk → Proxy × Result Error (Decision × Entry)
unfolding prepare persist_prepared
decide_and_append env p req ls now disk = persist_prepared env p disk (prepare env p req ls now)

checked_chain :
    Env
    → Proxy
    → Request
    → Links
    → ℤ
    → Disk
    → Result Error (Unit {0})
    → Proxy × Result Error (Decision × Entry)
checked_chain env p req ls now disk (err x) = (p, err x)
checked_chain env p req ls now disk (ok a) = decide_and_append env p req ls now disk

-- The checks that come before the lock.
unfoldable pub admission : Env → Proxy → Request → Links → Result Error (Unit {0})
admission env p req ls = do
  guard (not (Chain.is_nil ls)) Errors.no_chain
  check_evidence_size req
  wrap (Errors.unattributable_chain (actor ls)) (Chain.verify env p.dids ls)

handle_chain :
    Env → Proxy → Request → Option Links → ℤ → Disk → Proxy × Result Error (Decision × Entry)
unfolding checked_chain admission
handle_chain env p req none now disk = (p, err Errors.no_chain)
handle_chain env p req (some ls) now disk =
    checked_chain env p req ls now disk (admission env p req ls)

-- `Handle`, without the telemetry, at an instant and for what the disk does.
pub handle : Env → Proxy → Request → ℤ → Disk → Proxy × Result Error (Decision × Entry)
unfolding handle_chain
handle env p req now disk = handle_chain env p req req.chain now disk
