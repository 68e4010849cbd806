-- ===== src/Enforce.antt =====
-- internal/enforce/enforce.go: the chokepoint. It decides a request, seals the decision into the
-- audit log, makes it durable, and only then returns it.
pub mod WriteAhead
pub mod Decide
pub mod Handle
pub mod Startup
pub mod Recovery
use kessa.Base.{
  ℕ, suc, Bytes, Str, str_eq, is_empty, Bool, true, false, not, ◌&&◌, Option, none, some, List, [],
  ◌∷◌, Result, ok, err, ◌>>=◌, ◌>>◌, guard, wrap, require, if◌then◌else◌,
}
use kessa.Base.Int.{ℤ}
use kessa.Audit
use kessa.Audit.{Log, new_log, load_log, tip}
use kessa.Audit.Data.{Entry}
use kessa.Credential.Data.{Pop}
use kessa.Chain.{Links}
use kessa.Enforce.WriteAhead.{Wal, WalRecord}
use kessa.Env.{Env}
use kessa.Errors.{Error, other_policy, not_recovered, evidence_not_recovered}
use kessa.Export.{Export, CredentialRecord, CredentialSet, policy_id, add, build}
use kessa.Export.Checks.{StatusResolver}
use kessa.Keys.{Signer, Resolver}
use kessa.Policy
use kessa.Policy.{Policy}
use kessa.Types.{Did, Action, Decision}

-- `policy.Evaluator`: the shipped classifier, or another one behind the interface, which returns a
-- decision and may return an error with it.
pub data Evaluator : Type 0 where
  classifier : Policy → Evaluator
  plugged : (Action → Decision × Option Error) → Evaluator

pub record Proxy : Type 0 where
  pub enforcement_point : Signer
  pub evaluator : Evaluator
  pub carried_policy : Option Policy
  pub policy_id : Str
  pub dids : Resolver
  pub status : Option StatusResolver
  pub log : Log
  pub set : CredentialSet
  pub wal : Option Wal

pub record Config : Type 0 where
  pub enforcement_point : Signer
  pub evaluator : Evaluator
  pub dids : Resolver
  pub status : Option StatusResolver
  pub wal : Option Wal

-- The concrete policy and its id, of the shipped classifier only.
carried : Env → Evaluator → Result Error (Option Policy × Str)
carried env (classifier pol) = do id ← policy_id env pol; ok (some pol, id)
carried env (plugged f) = ok (none, [])

pub entries_of : List WalRecord → List Entry
entries_of [] = []
entries_of (r ∷ rs) = r.entry ∷ entries_of rs

-- The continuity guard: every entry that pins a policy pins the one that is loaded.
check_policies : Str → ℕ → List Entry → Result Error (Unit {0})
check_policies id i [] = ok tt
check_policies id i (e ∷ es) = do
  guard (not (not (is_empty e.policy_id) && not (str_eq e.policy_id id)))
      (other_policy i e.policy_id id)
  check_policies id (suc i) es

unfoldable pub add_all : Env → CredentialSet → List CredentialRecord → Result Error CredentialSet
add_all env set [] = ok set
add_all env set (r ∷ rs) = do
  added ← add env set r.credential r.issuer_proof
  add_all env (added.0) rs

add_recovered : Env → CredentialSet → List WalRecord → Result Error CredentialSet
add_recovered env set [] = ok set
add_recovered env set (r ∷ rs) = do
  set' ← wrap evidence_not_recovered (add_all env set r.credentials)
  add_recovered env set' rs

recover_records : Env → Proxy → List WalRecord → Result Error Proxy
unfolding entries_of check_policies add_recovered
recover_records env p [] = ok p
recover_records env p (r ∷ rs) = do
  log ← wrap not_recovered (load_log env p.enforcement_point (entries_of (r ∷ rs)))
  check_policies p.policy_id 0 (entries_of (r ∷ rs))
  set ← add_recovered env p.set (r ∷ rs)
  ok (record p { log = log; set = set })

recover_from : Env → Proxy → Option Wal → Result Error Proxy
unfolding recover_records
recover_from env p none = ok p
recover_from env p (some w) = recover_records env p w.recovered

-- `NewProxy`, with its required parts given.
unfoldable pub new_proxy : Env → Config → Result Error Proxy
unfolding carried recover_from
new_proxy env c = do
  policy ← carried env c.evaluator
  let p : Proxy = record {
    enforcement_point = c.enforcement_point;
    evaluator = c.evaluator;
    carried_policy = policy.0;
    policy_id = policy.1;
    dids = c.dids;
    status = c.status;
    log = new_log c.enforcement_point;
    set = [];
    wal = c.wal;
  }
  recover_from env p c.wal

-- `Proxy.Export`
pub export : Env → Proxy → Result Error Export
export env p = build env p.enforcement_point p.log.entries p.set p.carried_policy

-- One attempt to act, with the evidence that the caller presents; `none` is a nil chain.
pub record Request : Type 0 where
  pub chain : Option Links
  pub action : Action
  pub pop : Pop
  pub approver : Did
  pub approval : Bytes
