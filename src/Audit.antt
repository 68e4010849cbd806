-- ===== src/Audit.antt =====
-- internal/audit/audit.go: the hash-chained, signed, append-only log of one enforcement point.
pub mod Data
pub mod Entries
pub mod Growth
pub mod Tampering
pub mod Approvals
use kessa.Base.{
  ℕ, zero, suc, ◌==◌, Bytes, codes, str_eq, Bool, true, false, ◌&&◌, Option, none, some, List, [],
  ◌∷◌, ◌++◌, length, replicate, Result, ok, err, ◌>>=◌, ◌>>◌, guard, require, wrap,
}
use kessa.Base.Binary.{big_endian, ◌⁀◌}
use kessa.Audit.Data.{Entry, EntryDraft}
use kessa.Env.{Env}
use kessa.Errors.{
  Error, cannot_encode, cannot_canonicalize, sign_entry_failed, stale_seal, out_of_order,
  broken_link, hash_mismatch, entry_signature_invalid, approval_invalid, recovery_failed,
}
use kessa.Keys.{Key, Signer, verify_signature}
use kessa.Types.{Did, Action}

-- 32 zero bytes
abbrev pub genesis_hash : Bytes
genesis_hash = replicate 32 0

pub record Log : Type 0 where
  pub signer : Signer
  pub entries : List Entry

-- `NewLog`
unfoldable pub new_log : Signer → Log
new_log s = record { signer = s; entries = [] }

-- The hash and the signature are not part of what is hashed.
abbrev pub cleared : Entry → Entry
cleared e = record e { entry_hash = []; signature = [] }

unfoldable pub entry_hash : Env → Entry → Result Error Bytes
entry_hash env e = do
  body ← require (env.marshal_entry (cleared e)) (cannot_canonicalize e.seq)
  ok (env.platform.sha256 (codes "kessa/audit-entry/v2" ⁀ body))

unfoldable pub sig_input : Bytes → Bytes
sig_input h = codes "kessa/audit-sig/v1" ⁀ h

-- The hash of the last entry, or the given one.
unfoldable pub last_hash : Bytes → List Entry → Bytes
last_hash h [] = h
last_hash h (e ∷ es) = last_hash e.entry_hash es

-- `Tip`: the position of the next entry.
unfoldable pub tip : Log → ℕ × Bytes
unfolding last_hash
tip l = (length l.entries, last_hash genesis_hash l.entries)

-- An entry at a position, before it is hashed and signed.
abbrev pub at_position : ℕ → Bytes → EntryDraft → Entry
at_position seq prev r = record {
  seq = seq;
  prev_hash = prev;
  action = r.action;
  resolved_chain = r.resolved_chain;
  chain_credential_ids = r.chain_credential_ids;
  decision = r.decision;
  policy_id = r.policy_id;
  pop_nonce = r.pop_nonce;
  pop_signature = r.pop_signature;
  approved_by = r.approved_by;
  approval = r.approval;
  timestamp = r.timestamp;
  entry_hash = [];
  signature = [];
}

unfoldable pub seal : Env → Log → EntryDraft → Result Error Entry
unfolding tip
seal env l r = do
  let e : Entry = at_position (tip l).0 (tip l).1 r
  hash ← entry_hash env e
  sig ← wrap (sign_entry_failed e.seq) (l.signer.sign (sig_input hash))
  ok (record e { entry_hash = hash; signature = sig })

unfoldable pub commit : Log → Entry → Result Error Log
unfolding tip
commit l e = do
  guard (e.seq == (tip l).0 && str_eq e.prev_hash (tip l).1) stale_seal
  ok (record l { entries = l.entries ++ e ∷ [] })

unfoldable pub append : Env → Log → EntryDraft → Result Error (Log × Entry)
append env l r = do e ← seal env l r; l' ← commit l e; ok (l', e)

-- One turn of the loop of `VerifyEntries`.
unfoldable pub check_entry : Env → Key → ℕ → Bytes → Entry → Result Error (Unit {0})
check_entry env k i prev e = do
  guard (e.seq == i) out_of_order
  guard (str_eq e.prev_hash prev) broken_link
  want ← entry_hash env e
  guard (str_eq want e.entry_hash) hash_mismatch
  guard (verify_signature env.platform k (sig_input e.entry_hash) e.signature)
      entry_signature_invalid

pub check_entries : Env → Key → ℕ → Bytes → List Entry → Result (ℕ × Error) (Unit {0})
check_entries env k i prev [] = ok tt
check_entries env k i prev (e ∷ es) = do
  wrap (λ x. (i, x)) (check_entry env k i prev e)
  check_entries env k (suc i) e.entry_hash es

-- An error comes with the index of the first entry that fails.
unfoldable pub verify_entries : Env → Key → List Entry → Result (ℕ × Error) (Unit {0})
unfolding check_entries
verify_entries env k es = check_entries env k 0 genesis_hash es

unfoldable pub load_log : Env → Signer → List Entry → Result Error Log
load_log env s es = do
  wrap (λ f. recovery_failed f.0 f.1) (verify_entries env s.public es)
  ok (record { signer = s; entries = es })

unfoldable pub approval_input : Env → Did → Action → ℕ → Bytes → Result Error Bytes
approval_input env actor a seq prev_hash = do
  body ← require (env.marshal_action a) cannot_encode
  ok (codes "kessa/action-approval/v2" ⁀ actor ⁀ body ⁀ big_endian seq ⁀ prev_hash)

unfoldable pub sign_approval : Env → Signer → Did → Action → ℕ → Bytes → Result Error Bytes
sign_approval env human actor a seq prev_hash = do
  input ← approval_input env actor a seq prev_hash
  human.sign input

unfoldable pub verify_approval :
    Env → Key → Did → Action → ℕ → Bytes → Bytes → Result Error (Unit {0})
verify_approval env k actor a seq prev_hash sig = do
  input ← approval_input env actor a seq prev_hash
  guard (verify_signature env.platform k input sig) approval_invalid
