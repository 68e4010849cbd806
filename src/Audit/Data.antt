-- ===== src/Audit/Data.antt =====
-- internal/audit/audit.go: the entries of the log.
use kessa.Base.{ℕ, Bytes, Str, List}
use kessa.Base.Int.{ℤ}
use kessa.Types.{Did, Action, Decision}

-- Instants are exact, in nanoseconds.
pub record Entry : Type 0 where
  pub seq : ℕ
  pub prev_hash : Bytes
  pub action : Action
  pub resolved_chain : List Did
  pub chain_credential_ids : List Str
  pub decision : Decision
  pub policy_id : Str
  pub pop_nonce : Bytes
  pub pop_signature : Bytes
  pub approved_by : Did
  pub approval : Bytes
  pub timestamp : ℤ
  pub entry_hash : Bytes
  pub signature : Bytes

-- What the caller supplies; the log fills in the position, the hash and the signature.
pub record EntryDraft : Type 0 where
  pub action : Action
  pub resolved_chain : List Did
  pub chain_credential_ids : List Str
  pub decision : Decision
  pub policy_id : Str
  pub pop_nonce : Bytes
  pub pop_signature : Bytes
  pub approved_by : Did
  pub approval : Bytes
  pub timestamp : ℤ
