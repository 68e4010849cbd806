-- ===== src/Enforce/Decide.antt =====
-- internal/enforce/enforce.go: the decision on one request.
pub mod Allowed
pub mod Class
use kessa.Base.{
  ℕ, zero, suc, ◌==◌, Bytes, Str, codes, is_empty, Bool, true, false, not, ◌||◌, Option, none, some,
  List, [], ◌∷◌, length, Result, ok, err, ◌>>=◌, ◌>>◌, guard, wrap, if◌then◌else◌,
}
use kessa.Base.Dict.{Dict}
use kessa.Base.Int.{ℤ, pos}
use kessa.Audit
use kessa.Chain.{Links}
use kessa.Credential.{status_authority}
use kessa.Credential.Data.{Credential}
use kessa.Enforce.{Evaluator, classifier, plugged, Proxy, Request}
use kessa.Env.{Env}
use kessa.Errors
use kessa.Errors.{Error}
use kessa.Export.Checks.{StatusResolver, authority_context, has_list}
use kessa.Keys.{Resolver, resolve_key}
use kessa.Macaroon.{satisfies}
use kessa.Policy
use kessa.Status
use kessa.Types.{Did, Action, Decision, Reason, stated, not_comparable, within_authority, denied}

-- Go's zero decision.
abbrev zero_decision : Decision
zero_decision = record {
  allowed = false;
  consequential = false;
  rule_fired = [];
  policy_version = [];
  status_checked_hops = pos 0;
  reason = stated [];
}

unfoldable pub classified : Result Error Decision → Decision × Option Error
classified (ok d) = (d, none)
classified (err x) = (zero_decision, some x)

-- `Proxy.evaluate`; a panic of a plugged evaluator is an error with the zero decision.
unfoldable pub evaluate : Env → Evaluator → Action → Decision × Option Error
unfolding classified
evaluate env (classifier pol) a = classified (Policy.evaluate env.platform pol a)
evaluate env (plugged f) a = f a

pub deny : Decision → Error → Decision
deny d x = record d { allowed = false; reason = denied x }

-- How the sweep of the status lists ends: the number of lists that were checked, and where it
-- stopped.
pub data Sweep : Type 0 where
  all_clear : ℕ → Sweep
  revoked_at : ℕ → ℕ → ℤ → Sweep
  sweep_failed : Error → Sweep

unfoldable pub read_hop : Env → Resolver → StatusResolver → Credential → Result Error Bool
read_hop env r source c = do
  list ← source c.status_ref.list_url
  key ← wrap Errors.unresolved_authority (resolve_key env.platform r (status_authority c))
  Status.verify env.platform list (status_authority c) key
  Status.lookup list c.status_ref.index

sweep_on : Result Error Bool → ℕ → ℕ → ℤ → (ℕ → Sweep) → Sweep
sweep_on (ok false) hop n index rest = rest (suc n)
sweep_on (ok true) hop n index rest = revoked_at hop (suc n) index
sweep_on (err x) hop n index rest = sweep_failed x

-- `anyHopRevoked`
unfoldable pub any_hop_revoked : Env → Resolver → StatusResolver → ℕ → ℕ → Links → Sweep
unfolding sweep_on
any_hop_revoked env r source hop n [] = all_clear n
any_hop_revoked env r source hop n (l ∷ ls) =
    let rest : ℕ → Sweep = λ m. any_hop_revoked env r source (suc hop) m ls in
    if not (has_list l.credential)
    then rest n
    else sweep_on (read_hop env r source l.credential) hop n l.credential.status_ref.index rest

unfoldable pub verify_approval : Env → Proxy → Request → Did → ℕ → Bytes → Result Error (Unit {0})
verify_approval env p req actor seq prev = do
  guard (not (is_empty req.approver || length req.approval == 0)) Errors.no_approval_presented
  key ← wrap Errors.unresolved_approver (resolve_key env.platform p.dids req.approver)
  Audit.verify_approval env key actor req.action seq prev req.approval

-- An empty reason is filled in.
fill_reason : Reason → Reason
fill_reason (stated []) = within_authority
fill_reason r = r

unfoldable pub allow : Decision → Decision
unfolding fill_reason
allow d = record d { allowed = true; reason = fill_reason d.reason }

decide_approval : Decision → Result Error (Unit {0}) → Decision
decide_approval d (ok a) = allow d
decide_approval d (err x) = deny d x

decide_sweep : Env → Proxy → Request → Did → ℕ → Bytes → Decision → Sweep → Decision
unfolding decide_approval
decide_sweep env p req actor seq prev d (sweep_failed x) = deny d (Errors.status_failed x)
decide_sweep env p req actor seq prev d (revoked_at hop n index) =
    deny (record d { status_checked_hops = pos n }) (Errors.credential_revoked hop index)
decide_sweep env p req actor seq prev d (all_clear n) =
    decide_approval (record d { status_checked_hops = pos n })
      (verify_approval env p req actor seq prev)

decide_status :
    Env → Proxy → Request → Links → Did → ℕ → Bytes → Decision → Option StatusResolver → Decision
unfolding decide_sweep
decide_status env p req ls actor seq prev d none = deny d Errors.no_status_configured
decide_status env p req ls actor seq prev d (some source) =
    decide_sweep env p req actor seq prev d (any_hop_revoked env p.dids source 0 0 ls)

decide_live : Env → Proxy → Request → Links → Did → ℕ → Bytes → Decision → Decision
unfolding decide_status
decide_live env p req ls actor seq prev d =
    if d.consequential then decide_status env p req ls actor seq prev d p.status else allow d

decide_authority :
    Env → Proxy → Request → Links → Did → ℕ → Bytes → Decision → Result Error (Unit {0}) → Decision
unfolding decide_live
decide_authority env p req ls actor seq prev d (err x) = deny d (Errors.exceeds_delegation x)
decide_authority env p req ls actor seq prev d (ok a) = decide_live env p req ls actor seq prev d

decide_policy :
    Env → Proxy → Request → Links → Credential → ℕ → Bytes → Decision → Option Error → Decision
unfolding decide_authority
decide_policy env p req ls c seq prev d (some x) = deny d (Errors.policy_failed x)
decide_policy env p req ls c seq prev d none =
    if not d.allowed
    then d
    else decide_authority env p req ls c.subject seq prev d
        (satisfies env.platform c.macaroon (authority_context env c req.action))

-- `decide`, with the terminal credential of the chain and the position of the entry.
unfoldable pub decide : Env → Proxy → Request → Links → Credential → ℕ → Bytes → Decision
unfolding decide_policy
decide env p req ls c seq prev =
    let (d, failed) = evaluate env p.evaluator req.action in
    decide_policy env p req ls c seq prev d failed
