-- ===== src/Enforce/Decide/Class.antt =====
-- The class of a decision is the evaluator's, whatever denies the action later.
use kessa.Base.{◌≡◌, refl, ℕ, Bytes, Bool, not, Option, none, some, Result, ok, err, if_cases}
use kessa.Base.Int.{pos}
use kessa.Chain.{Links}
use kessa.Credential.Data.{Credential}
use kessa.Enforce.{Proxy, Request}
use kessa.Enforce.Decide.{
  evaluate, Sweep, sweep_failed, revoked_at, all_clear, any_hop_revoked, verify_approval, allow,
  deny, decide_approval, decide_sweep, decide_status, decide_live, decide_authority, decide_policy,
  decide,
}
use kessa.Env.{Env}
use kessa.Errors.{Error}
use kessa.Export.Checks.{StatusResolver}
use kessa.Types.{Did, Decision}

module _ (env : Env) (p : Proxy) (req : Request) (ls : Links) (seq : ℕ) (prev : Bytes)
    (b : Bool) where
  abbrev HasClass : Decision → Type 0
  HasClass d = d.consequential ≡ b

  decide_approval-HasClass :
      (d : Decision) (r : Result Error (Unit {0})) → HasClass d → HasClass (decide_approval d r)
  unfolding decide_approval allow deny
  decide_approval-HasClass d (ok a) h = h
  decide_approval-HasClass d (err x) h = h

  decide_sweep-HasClass :
      (actor : Did) (d : Decision) (s : Sweep)
      → HasClass d
      → HasClass (decide_sweep env p req actor seq prev d s)
  unfolding decide_sweep deny
  decide_sweep-HasClass actor d (sweep_failed x) h = h
  decide_sweep-HasClass actor d (revoked_at hop n index) h = h
  decide_sweep-HasClass actor d (all_clear n) h =
      decide_approval-HasClass (record d { status_checked_hops = pos n })
        (verify_approval env p req actor seq prev) h

  decide_status-HasClass :
      (actor : Did) (d : Decision) (o : Option StatusResolver)
      → HasClass d
      → HasClass (decide_status env p req ls actor seq prev d o)
  unfolding decide_status deny
  decide_status-HasClass actor d none h = h
  decide_status-HasClass actor d (some source) h =
      decide_sweep-HasClass actor d (any_hop_revoked env p.dids source 0 0 ls) h

  decide_authority-HasClass :
      (actor : Did) (d : Decision) (r : Result Error (Unit {0}))
      → HasClass d
      → HasClass (decide_authority env p req ls actor seq prev d r)
  unfolding decide_authority decide_live allow deny
  decide_authority-HasClass actor d (err x) h = h
  decide_authority-HasClass actor d (ok a) h =
      if_cases HasClass d.consequential (λ _. decide_status-HasClass actor d p.status h) (λ _. h)

  decide_policy-HasClass :
      (c : Credential) (d : Decision) (o : Option Error)
      → HasClass d
      → HasClass (decide_policy env p req ls c seq prev d o)
  unfolding decide_policy deny
  decide_policy-HasClass c d (some x) h = h
  decide_policy-HasClass c d none h =
      if_cases HasClass (not d.allowed) (λ _. h) (λ _. decide_authority-HasClass c.subject d _ h)

pub decide-consequential :
    (env : Env) (p : Proxy) (req : Request) (ls : Links) (c : Credential) (seq : ℕ) (prev : Bytes)
    → (decide env p req ls c seq prev).consequential
      ≡ (evaluate env p.evaluator req.action).0.consequential
unfolding decide
decide-consequential env p req ls c seq prev =
    let (d, failed) = evaluate env p.evaluator req.action in
    decide_policy-HasClass env p req ls seq prev d.consequential c d failed refl
