-- ===== src/Enforce/Decide/Allowed.antt =====
-- What an allowing decision rests on.
use kessa.Base.{
  ℕ, suc, ◌+◌, ◌≡◌, refl, sym, ap, ◌∙◌, Bytes, Bool, true, false, not, Option, none, some, [], ◌∷◌,
  Result, ok, err, if◌then◌else◌, arith,
}
use kessa.Base.Int.{pos}
use kessa.Chain.{Links}
use kessa.Credential.Data.{Credential}
use kessa.Enforce.{Proxy, Request}
use kessa.Enforce.Decide.{
  evaluate, deny, Sweep, all_clear, revoked_at, sweep_failed, read_hop, sweep_on, any_hop_revoked,
  verify_approval, allow, decide_approval, decide_sweep, decide_status, decide_live,
  decide_authority, decide_policy, decide,
}
use kessa.Env.{Env}
use kessa.Errors.{Error}
use kessa.Export.Checks.{StatusResolver, authority_context, has_list, count_lists}
use kessa.Keys.{Resolver}
use kessa.Macaroon.{satisfies}
use kessa.Types.{Did, Decision}

module _ (env : Env) where
  -- Every hop that publishes a list reads as not revoked on it.
  abbrev pub AreClear : Resolver → StatusResolver → Links → Type 0
  AreClear r source [] = Unit {0}
  AreClear r source (l ∷ ls) =
      (has_list l.credential ≡ true → read_hop env r source l.credential ≡ ok false)
      × AreClear r source ls

  any_hop_revoked-AreClear :
      (r : Resolver) (source : StatusResolver) (hop n m : ℕ) (ls : Links)
      → any_hop_revoked env r source hop n ls ≡ all_clear m
      → (m ≡ n + count_lists ls) × AreClear r source ls
  unfolding any_hop_revoked count_lists
  any_hop_revoked-AreClear r source hop n m [] h = (sym (clear_inj h) ∙ omega arith, tt)
    where
      clear_inj : {a b : ℕ} → all_clear a ≡ all_clear b → a ≡ b
      clear_inj e = cc
  any_hop_revoked-AreClear r source hop n m (l ∷ ls) h =
      by_list (has_list l.credential) refl h
        (λ k. any_hop_revoked-AreClear r source (suc hop) k m ls)
    where
      by_read :
          (x : Result Error Bool)
          → sweep_on x hop n l.credential.status_ref.index
              (λ k. any_hop_revoked env r source (suc hop) k ls)
            ≡ all_clear m
          → (x ≡ ok false) × (any_hop_revoked env r source (suc hop) (suc n) ls ≡ all_clear m)
      by_read (ok false) h = (refl, h)
      by_read (ok true) h = cc
      by_read (err x) h = cc

      by_list :
          (b : Bool)
          → has_list l.credential ≡ b
          → (if not b
              then any_hop_revoked env r source (suc hop) n ls
              else sweep_on
                  (read_hop env r source l.credential)
                  hop
                  n
                  l.credential.status_ref.index
                  (λ k. any_hop_revoked env r source (suc hop) k ls))
            ≡ all_clear m
          → ((k : ℕ)
              → any_hop_revoked env r source (suc hop) k ls ≡ all_clear m
              → (m ≡ k + count_lists ls) × AreClear r source ls)
          → (m ≡ n + (if b then suc (count_lists ls) else count_lists ls))
            × ((has_list l.credential ≡ true → read_hop env r source l.credential ≡ ok false)
                × AreClear r source ls)
      by_list true e h later =
          let (read, rest) = by_read (read_hop env r source l.credential) h in
          let (counted, clear) = later (suc n) rest in (omega arith, (λ _. read, clear))
      by_list false e h later = let (counted, clear) = later n h in (counted, (λ t. cc, clear))

  -- A consequential action was swept clean, with the number of lists recorded, and approved.
  abbrev pub IsLive : Proxy → Request → Links → Did → ℕ → Bytes → Decision → Type 0
  IsLive p req ls actor seq prev d =
      (source : StatusResolver) × (p.status ≡ some source)
      × (d.status_checked_hops ≡ pos (count_lists ls))
      × AreClear p.dids source ls
      × (verify_approval env p req actor seq prev ≡ ok tt)

  module _ (p : Proxy) (req : Request) (ls : Links) (c : Credential) (seq : ℕ) (prev : Bytes) where
    -- A decision that allows: the evaluator allowed the action and classified it so, the credential
    -- permits it, and it is live where it is consequential.
    pub record IsWarranted (d : Decision) : Type 0 where
      pub base : Decision
      pub evaluated : evaluate env p.evaluator req.action ≡ (base, none)
      pub allowed : base.allowed ≡ true
      pub permitted : satisfies env.platform c.macaroon (authority_context env c req.action) ≡ ok tt
      pub consequential : d.consequential ≡ base.consequential
      pub rule : d.rule_fired ≡ base.rule_fired
      pub version : d.policy_version ≡ base.policy_version
      pub live : base.consequential ≡ true → IsLive p req ls c.subject seq prev d

    abbrev Warrants : Decision → Decision → Type 0
    Warrants base d =
        (d.consequential ≡ base.consequential)
        × (d.rule_fired ≡ base.rule_fired)
        × (d.policy_version ≡ base.policy_version)
        × (base.consequential ≡ true → IsLive p req ls c.subject seq prev d)

    decide_live-Warrants :
        (base : Decision)
        → (decide_live env p req ls c.subject seq prev base).allowed ≡ true
        → Warrants base (decide_live env p req ls c.subject seq prev base)
    unfolding decide_live decide_status decide_sweep decide_approval deny allow
    decide_live-Warrants base h = by_class base.consequential refl h
      where
        by_approval :
            (n : ℕ) (source : StatusResolver)
            → p.status ≡ some source
            → any_hop_revoked env p.dids source 0 0 ls ≡ all_clear n
            → (r : Result Error (Unit {0})) → verify_approval env p req c.subject seq prev ≡ r
            → (decide_approval (record base { status_checked_hops = pos n }) r).allowed ≡ true
            → Warrants base (decide_approval (record base { status_checked_hops = pos n }) r)
        by_approval n source at clear (err x) made h = cc
        by_approval n source at clear (ok a) made h =
            let (counted, swept) = any_hop_revoked-AreClear p.dids source 0 0 n ls clear in
            let same : n ≡ count_lists ls = omega arith in
            (refl, refl, refl, λ _. (source, at, ap pos same, swept, made))

        by_sweep :
            (source : StatusResolver)
            → p.status ≡ some source
            → (s : Sweep) → any_hop_revoked env p.dids source 0 0 ls ≡ s
            → (decide_sweep env p req c.subject seq prev base s).allowed ≡ true
            → Warrants base (decide_sweep env p req c.subject seq prev base s)
        by_sweep source at (all_clear n) clear h = by_approval n source at clear _ refl h
        by_sweep source at (revoked_at hop n index) clear h = cc
        by_sweep source at (sweep_failed x) clear h = cc

        by_source :
            (o : Option StatusResolver)
            → p.status ≡ o
            → (decide_status env p req ls c.subject seq prev base o).allowed ≡ true
            → Warrants base (decide_status env p req ls c.subject seq prev base o)
        by_source none at h = cc
        by_source (some source) at h = by_sweep source at _ refl h

        by_class :
            (b : Bool)
            → base.consequential ≡ b
            → (if b
                then decide_status env p req ls c.subject seq prev base p.status
                else allow base).allowed
              ≡ true
            → Warrants base (
                if b
                then decide_status env p req ls c.subject seq prev base p.status
                else allow base)
        by_class true e h = by_source p.status refl h
        by_class false e h = (refl, refl, refl, λ t. cc)

    -- `decide` allows an action only where the evaluator allowed it, the last credential permits
    -- it, and, if the evaluator classified it as consequential, every status list of the chain
    -- reads as not revoked and an approval for this action and position verifies.
    pub decide-IsWarranted :
        (decide env p req ls c seq prev).allowed ≡ true
        → IsWarranted (decide env p req ls c seq prev)
    unfolding decide decide_policy decide_authority deny
    decide-IsWarranted h = by_policy _ _ refl h
      where
        by_permission :
            (base : Decision) (r : Result Error (Unit {0}))
            → evaluate env p.evaluator req.action ≡ (base, none)
            → base.allowed ≡ true
            → satisfies env.platform c.macaroon (authority_context env c req.action) ≡ r
            → (decide_authority env p req ls c.subject seq prev base r).allowed ≡ true
            → IsWarranted (decide_authority env p req ls c.subject seq prev base r)
        by_permission base (err x) made allowed at h = cc
        by_permission base (ok a) made allowed at h =
            let (q, r, v, l) = decide_live-Warrants base h in
            record {
              base = base;
              evaluated = made;
              allowed = allowed;
              permitted = at;
              consequential = q;
              rule = r;
              version = v;
              live = l;
            }

        by_allowed :
            (base : Decision) (b : Bool)
            → evaluate env p.evaluator req.action ≡ (base, none)
            → base.allowed ≡ b
            → (if not b
                then base
                else decide_authority env p req ls c.subject seq prev base (
                    satisfies env.platform c.macaroon (authority_context env c req.action))).allowed
              ≡ true
            → IsWarranted (
                if not b
                then base
                else decide_authority env p req ls c.subject seq prev base
                    (satisfies env.platform c.macaroon (authority_context env c req.action)))
        by_allowed base true made at h = by_permission base _ made at refl h
        by_allowed base false made at h = cc

        by_policy :
            (base : Decision) (failed : Option Error)
            → evaluate env p.evaluator req.action ≡ (base, failed)
            → (decide_policy env p req ls c seq prev base failed).allowed ≡ true
            → IsWarranted (decide_policy env p req ls c seq prev base failed)
        by_policy base (some x) made h = cc
        by_policy base none made h = by_allowed base base.allowed made refl h
