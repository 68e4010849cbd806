-- ===== src/Enforce/Startup.antt =====
-- What a proxy starts with: an empty log, or the one that its durable log holds.
use kessa.Base.{
  ◌≡◌, refl, sym, ap, ◌∙◌, subst, Option, none, some, List, [], ◌∷◌, ok, wrap, >>=-eq-ok,
  wrap-eq-ok, ok_inj,
}
use kessa.Base.Dict.{lookup}
use kessa.Audit.{new_log, load_log}
use kessa.Audit.Growth.{load_log_inv, new_log-verify_entries}
use kessa.Enforce.{
  Proxy, Config, carried, entries_of, check_policies, add_recovered, recover_records, recover_from,
  new_proxy, add_all,
}
use kessa.Enforce.Handle.History.{IsSound, add_all-IsAddressed}
use kessa.Enforce.WriteAhead.{Wal, WalRecord}
use kessa.Env.{Env}
use kessa.Errors.{evidence_not_recovered, not_recovered}
use kessa.Export.{CredentialSet}
use kessa.Export.Records.{IsAddressed}
use kessa.Keys.{Signer, IsGenuine}

module _ (env : Env) where
  add_recovered-IsAddressed :
      (set set' : CredentialSet) (rs : List WalRecord)
      → IsAddressed env set
      → add_recovered env set rs ≡ ok set'
      → IsAddressed env set'
  unfolding add_recovered
  add_recovered-IsAddressed set set' [] a h = subst (IsAddressed env) (ok_inj h) a
  add_recovered-IsAddressed set set' (r ∷ rs) a h =
      let (mid, added, rest) =
        >>=-eq-ok (wrap evidence_not_recovered (add_all env set r.credentials)) _ h in
      add_recovered-IsAddressed mid set' rs
        (add_all-IsAddressed env set mid r.credentials a (wrap-eq-ok _ _ added)) rest

  -- What a proxy starts from.
  abbrev IsStarted : Signer → List WalRecord → Proxy → Type 0
  IsStarted s rs p = IsSound env p × ((p.log.signer ≡ s) × (p.log.entries ≡ entries_of rs))

  recover_records-IsStarted :
      (p q : Proxy) (rs : List WalRecord)
      → IsStarted p.enforcement_point [] p
      → recover_records env p rs ≡ ok q
      → IsStarted p.enforcement_point rs q
  unfolding recover_records entries_of
  recover_records-IsStarted p q [] s h = subst (IsStarted p.enforcement_point []) (ok_inj h) s
  recover_records-IsStarted p q (r ∷ rs) (s, (signer, empty)) h =
      let (log, loaded, h1) =
        >>=-eq-ok (wrap not_recovered (load_log env p.enforcement_point (entries_of (r ∷ rs)))) _
          h in
      let (_, _, h2) = >>=-eq-ok (check_policies p.policy_id 0 (entries_of (r ∷ rs))) _ h1 in
      let (set, recovered, made) = >>=-eq-ok (add_recovered env p.set (r ∷ rs)) _ h2 in
      let (verified, same) =
        load_log_inv env p.enforcement_point (entries_of (r ∷ rs)) log (wrap-eq-ok _ _ loaded) in
      subst (IsStarted p.enforcement_point (r ∷ rs))
        (ap (λ l. record p { log = l; set = set }) (sym same) ∙ ok_inj made)
        (
          record {
            genuine = subst (IsGenuine env.platform) signer s.genuine;
            verified = verified;
            addressed = add_recovered-IsAddressed p.set set (r ∷ rs) s.addressed recovered;
          },
          (refl, refl),
        )

  -- The records that a configuration's durable log was opened with.
  abbrev pub recovered_of : Option Wal → List WalRecord
  recovered_of none = []
  recovered_of (some w) = w.recovered

  -- A proxy that starts with a genuine signer is sound: its log is the enforcement point's, with
  -- exactly the entries that the durable log holds, which verify, and the recovered evidence is
  -- under its addresses.
  pub new_proxy-IsSound :
      (c : Config) (p : Proxy)
      → IsGenuine env.platform c.enforcement_point
      → new_proxy env c ≡ ok p
      → IsSound env p
        × ((p.log.signer ≡ c.enforcement_point) × (p.log.entries ≡ entries_of (recovered_of c.wal)))
  unfolding new_proxy recover_from new_log entries_of lookup
  new_proxy-IsSound c p genuine h =
      let (policy, _, started) = >>=-eq-ok (carried env c.evaluator) _ h in
      let fresh : Proxy = record {
        enforcement_point = c.enforcement_point;
        evaluator = c.evaluator;
        carried_policy = policy.0;
        policy_id = policy.1;
        dids = c.dids;
        status = c.status;
        log = new_log c.enforcement_point;
        set = [];
        wal = c.wal;
      } in
      let sound : IsStarted c.enforcement_point [] fresh = (
        record {
          genuine = genuine;
          verified = new_log-verify_entries env c.enforcement_point;
          addressed = λ id rec found. cc;
        },
        (refl, refl),
      ) in
      by_wal fresh sound refl c.wal started
    where
      by_wal :
          (fresh : Proxy)
          → IsStarted c.enforcement_point [] fresh
          → fresh.enforcement_point ≡ c.enforcement_point
          → (w : Option Wal) → recover_from env fresh w ≡ ok p
          → IsStarted c.enforcement_point (recovered_of w) p
      by_wal fresh sound at none h = subst (IsStarted c.enforcement_point []) (ok_inj h) sound
      by_wal fresh sound at (some w) h =
          subst (λ s. IsStarted s w.recovered p) at
            (recover_records-IsStarted fresh p w.recovered
              (subst (λ s. IsStarted s [] fresh) (sym at) sound) h)
