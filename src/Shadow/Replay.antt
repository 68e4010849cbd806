-- ===== src/Shadow/Replay.antt =====
-- A proxy's own log, replayed under its own policy.
use kessa.Base.{◌≡◌, refl, sym, ap, ◌∙◌, subst, Str, Bool, true, false, not, some, List, ok}
use kessa.Base.Int.{ℤ}
use kessa.Audit.{tip}
use kessa.Audit.Data.{Entry}
use kessa.Audit.Growth.{seal_inv}
use kessa.Chain.{Links}
use kessa.Export.{CredentialRecord}
use kessa.Enforce
use kessa.Enforce.{Proxy, Request}
use kessa.Enforce.Decide
use kessa.Enforce.Decide.{classified}
use kessa.Enforce.Decide.Class.{decide-consequential}
use kessa.Enforce.Handle.{draft}
use kessa.Enforce.Handle.Logged.{IsDecided}
use kessa.Env.{Env}
use kessa.Policy.{Policy, evaluate}
use kessa.Shadow.{Prediction, same, compare_to, project, predict, input_of}
use kessa.Types.{Action, Decision}

same_refl : (a b : Bool) → a ≡ b → same a b ≡ true
unfolding same
same_refl true b e = sym e
same_refl false b e = ap not (sym e)

module _ (env : Env) (pol : Policy) (id path : Str) where
  predict-agrees :
      (e : Entry) (a : Action) (d : Decision)
      → e.action ≡ a
      → evaluate env.platform pol a ≡ ok d
      → e.decision.consequential ≡ d.consequential
      → (x : Prediction) × (predict env.platform pol id (input_of path e) ≡ ok x)
        × (x.actual ≡ some (e.decision, true))
  unfolding predict project input_of compare_to
  predict-agrees e a d acts h class =
      let at : evaluate env.platform pol e.action ≡ ok d =
        subst (λ b. evaluate env.platform pol b ≡ ok d) (sym acts) h in
      (
        project id (input_of path e) d,
        rw at refl,
        ap (λ b. some (e.decision, b)) (same_refl e.decision.consequential d.consequential class),
      )

  own : Action → Decision
  own a = (Decide.evaluate env (Enforce.classifier pol) a).0

  own-evaluate : (a : Action) → evaluate env.platform pol a ≡ ok (own a)
  unfolding own evaluate Decide.evaluate classified
  own-evaluate a = refl

  -- Replayed under the policy that a proxy runs, the entry of a decided request is predicted
  -- without disagreement: the prediction carries the decision and agrees with its class.
  pub IsDecided-predict :
      (p : Proxy) (req : Request) (ls : Links) (now : ℤ) (d : Decision) (e : Entry)
      (creds : List CredentialRecord)
      → p.evaluator ≡ Enforce.classifier pol
      → IsDecided env p req ls now d e creds
      → (x : Prediction) × (predict env.platform pol id (input_of path e) ≡ ok x)
        × (x.actual ≡ some (d, true))
  unfolding draft own
  IsDecided-predict p req ls now d e creds shipped w =
      let (_, _, _, _, made) = seal_inv env p.log _ e w.sealed in
      let acts : e.action ≡ req.action = ap (λ x. x.action) made in
      let records : e.decision ≡ d = ap (λ x. x.decision) made in
      let class =
        ap (λ x. x.consequential) (records ∙ w.decided)
        ∙ decide-consequential env p req ls w.actor (tip p.log).0 (tip p.log).1
        ∙ ap (λ v. (Decide.evaluate env v req.action).0.consequential) shipped in
      let (x, made_so, agrees) =
        predict-agrees e req.action (own req.action) acts (own-evaluate req.action) class in
      (x, made_so, agrees ∙ ap (λ y. some (y, true)) records)
