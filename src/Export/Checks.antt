-- ===== src/Export/Checks.antt =====
-- internal/export/verify.go: the checks that a verifier runs again on the evidence of one entry.
pub mod Evidence
pub mod Derived
pub mod Justified
use kessa.Base.{
  ℕ, suc, ◌-◌, ◌==◌, leb, Bytes, Str, str_eq, is_empty, Bool, true, false, not, ◌&&◌, ◌||◌, Option,
  none, some, List, [], ◌∷◌, length, Result, ok, err, ◌>>=◌, ◌>>◌, guard, require, wrap,
  if◌then◌else◌,
}
use kessa.Base.Dict.{Dict, lookup, insert_all}
use kessa.Base.Int.{ℤ, pos, eq_ℤ}
use kessa.Audit.{verify_approval}
use kessa.Audit.Data.{Entry}
use kessa.Chain
use kessa.Chain.{Link, Links, principals}
use kessa.Credential.{holder_context, status_authority, verify_possession}
use kessa.Credential.Data.{Credential, Pop}
use kessa.Env.{Env}
use kessa.Errors
use kessa.Errors.{Error}
use kessa.Export.{Export, CredentialRecord, credential_id, policy_id}
use kessa.Keys.{Resolver, resolve_key}
use kessa.Macaroon.{satisfies}
use kessa.Policy.{Policy, evaluate}
use kessa.Status
use kessa.Status.{StatusList}
use kessa.Types.{Did, Action, Decision, Reason, context}

abbrev pub StatusResolver : Type 0
StatusResolver = Str → Result Error StatusList

pub record Inputs : Type 0 where
  pub dids : Resolver
  pub status : Option StatusResolver

-- The verdict on an entry. A pass comes with the number of hops without a status list, where that
-- limits what it says.
pub data Outcome : Type 0 where
  pass : List Did → ℕ → Outcome
  pass_deny : Reason → List Did → Outcome
  integrity_only : List Did → Outcome
  failed : Error → Outcome
  unverified : ℕ → Outcome

-- Step 3: the record of a hop, whose id has to be the address of its content.
check_record : Env → ℕ → Str → CredentialRecord → Result Error Link
check_record env hop id rec = do
  guard (str_eq rec.credential_id id) (Errors.wrong_record_id hop id)
  got ← wrap (Errors.bad_credential_id hop) (credential_id env rec.credential)
  guard (str_eq got id) (Errors.substituted hop id)
  ok (record { credential = rec.credential; issuer_proof = rec.issuer_proof })

find_links : Env → Dict CredentialRecord → ℕ → List Str → Result Error Links
unfolding check_record
find_links env set hop [] = ok []
find_links env set hop (id ∷ ids) = do
  rec ← require (lookup id set) (Errors.missing_credential hop id)
  l ← check_record env hop id rec
  ls ← find_links env set (suc hop) ids
  ok (l ∷ ls)

pub same_dids : List Did → List Did → Bool
same_dids [] [] = true
same_dids (d ∷ ds) (e ∷ es) = str_eq d e && same_dids ds es
same_dids _ _ = false

-- Steps 3 and 4: the chain that the entry's evidence makes.
unfoldable pub evidence : Env → Export → Entry → Inputs → Result Error Links
unfolding find_links same_dids
evidence env exp e inp = do
  guard (leb 2 (length e.resolved_chain)) (Errors.short_chain (length e.resolved_chain))
  guard (length e.chain_credential_ids == length e.resolved_chain - 1)
      (Errors.wrong_evidence_count (length e.chain_credential_ids) (length e.resolved_chain))
  ls ← find_links env exp.credentials 0 e.chain_credential_ids
  wrap Errors.chain_invalid (Chain.verify env inp.dids ls)
  guard (same_dids (principals ls) e.resolved_chain) Errors.wrong_principals
  ok ls

-- The credential of the last hop; a chain that verified has one.
unfoldable pub terminal : Links → Option Credential
terminal [] = none
terminal (l ∷ []) = some l.credential
terminal (l ∷ k ∷ ls) = terminal (k ∷ ls)

abbrev same_bool : Bool → Bool → Bool
same_bool true b = b
same_bool false b = not b

-- Step 4.5: the decision is derived again from the policy that the entry pins.
unfoldable pub rederive : Env → Option Policy → Entry → Result Error Decision
rederive env carried e = do
  pol ← require carried Errors.no_policy
  want ← wrap Errors.bad_policy_id (policy_id env pol)
  guard (not (is_empty e.policy_id)) Errors.no_pinned_policy
  guard (str_eq e.policy_id want) Errors.policy_substituted
  derived ← wrap Errors.rederivation_failed (evaluate env.platform pol e.action)
  guard derived.allowed (Errors.policy_denies derived.rule_fired)
  guard (same_bool derived.consequential e.decision.consequential) Errors.misclassified
  guard (str_eq derived.rule_fired e.decision.rule_fired) Errors.wrong_rule
  guard (str_eq derived.policy_version e.decision.policy_version) Errors.wrong_policy_version
  ok derived

-- The context of the action, with the holder key of the terminal credential.
unfoldable pub authority_context : Env → Credential → Action → Dict Str
authority_context env c a = insert_all (holder_context env c) (context env.platform a)

unfoldable pub has_list : Credential → Bool
has_list c = not (is_empty c.status_ref.list_url)

unfoldable pub count_lists : Links → ℕ
count_lists [] = 0
count_lists (l ∷ ls) = let rest = count_lists ls in if has_list l.credential then suc rest else rest

unfoldable pub revoked_by : Env → Resolver → StatusResolver → Credential → Result Error Bool
revoked_by env r source c = do
  list ← source c.status_ref.list_url
  key ← wrap Errors.unresolved_authority (resolve_key env.platform r (status_authority c))
  wrap Errors.bad_status_list (Status.verify env.platform list (status_authority c) key)
  Status.lookup list c.status_ref.index

unfoldable pub hop_revoked : Env → Inputs → Credential → Result Error Bool
unfolding revoked_by
hop_revoked env inp c = do
  source ← require inp.status Errors.no_status_source
  revoked_by env inp.dids source c

unfoldable pub check_hop : Env → Inputs → ℕ → Credential → Result Error (Unit {0})
unfolding hop_revoked
check_hop env inp hop c = do
  revoked ← wrap (Errors.bad_hop hop) (hop_revoked env inp c)
  guard (not revoked) (Errors.hop_is_revoked hop c.status_ref.index)

-- A hop without a status list is passed over.
check_revocations : Env → Inputs → ℕ → Links → Result Error (Unit {0})
check_revocations env inp hop [] = ok tt
check_revocations env inp hop (l ∷ ls) = do
  if has_list l.credential then check_hop env inp hop l.credential else ok tt
  check_revocations env inp (suc hop) ls

-- Step 6, for an action that is derived to be consequential.
unfoldable pub check_status : Env → Inputs → Bool → Entry → Links → Result Error ℕ
unfolding check_revocations
check_status env inp false e ls = ok 0
check_status env inp true e ls = do
  guard (eq_ℤ e.decision.status_checked_hops (pos (count_lists ls)))
      (Errors.wrong_status_count e.decision.status_checked_hops (count_lists ls))
  check_revocations env inp 0 ls
  ok (length ls - count_lists ls)

-- Step 7.
check_possession : Env → Credential → Entry → Result Error (Unit {0})
check_possession env c e = do
  guard (not (length e.pop_nonce == 0 || length e.pop_signature == 0)) Errors.no_possession
  wrap Errors.possession_invalid (
      verify_possession env c (record { nonce = e.pop_nonce; signature = e.pop_signature }) e.action
        e.seq e.prev_hash)

unfoldable pub has_approver : Entry → Bool
has_approver e = not (is_empty e.approved_by)

unfoldable pub has_approval : Entry → Bool
has_approval e = not (length e.approval == 0)

unfoldable pub check_present : Env → Inputs → Credential → Entry → Result Error (Unit {0})
unfolding has_approver has_approval
check_present env inp c e = do
  guard (has_approver e && has_approval e) Errors.partial_approval
  key ← wrap Errors.unresolved_approver (resolve_key env.platform inp.dids e.approved_by)
  wrap Errors.bad_approval (verify_approval env key c.subject e.action e.seq e.prev_hash e.approval)

-- Step 8: a consequential action needs an approval, and any approval that is there is checked.
check_approval : Env → Inputs → Bool → Credential → Entry → Result Error (Unit {0})
check_approval env inp consequential c e = do
  guard (not (consequential && not (has_approver e && has_approval e))) Errors.no_approval
  if has_approver e || has_approval e then check_present env inp c e else ok tt

-- Steps 4.5 to 8, for an entry that records an allowed action.
unfoldable pub check_allowed : Env → Export → Entry → Inputs → Links → Result Error Outcome
unfolding rederive check_status check_possession check_approval
check_allowed env exp e inp ls = do
  c ← require (terminal ls) Errors.empty_chain
  derived ← rederive env exp.policy e
  wrap Errors.exceeds_authority
      (satisfies env.platform c.macaroon (authority_context env c e.action))
  skipped ← check_status env inp derived.consequential e ls
  check_possession env c e
  check_approval env inp derived.consequential c e
  ok (pass (principals ls) skipped)

unfoldable pub after_evidence : Env → Export → Entry → Inputs → Links → Result Error Outcome
after_evidence env exp e inp ls =
    if not e.decision.allowed
    then ok (pass_deny e.decision.reason (principals ls))
    else check_allowed env exp e inp ls
