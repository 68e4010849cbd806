-- ===== src/Enforce/Recovery.antt =====
-- A proxy that is started again from its durable log: `NewProxy` after any sequence of requests.
use kessa.Base.{
  ℕ, suc, ◌≡◌, Bytes, none, err, some_inj, refl, sym, ap, ◌∙◌, subst, Str, str_eq_iff, is_empty,
  Bool, true, false, not, ◌&&◌, Option, some, List, [], ◌∷◌, ◌++◌, All, Result, ok, wrap, then_iff,
  guard_iff, >>=-eq-ok, wrap-eq-ok, ok_inj,
}
use kessa.Base.Int.{ℤ}
use kessa.Audit.{new_log, load_log, verify_entries}
use kessa.Audit.Data.{Entry}
use kessa.Audit.Growth.{load_log_inv, new_log-verify_entries, sealed-verify_entries, seal_inv}
use kessa.Enforce.{
  Proxy, Config, Request, carried, entries_of, check_policies, add_recovered, recover_records,
  recover_from, new_proxy, add_all,
}
use kessa.Enforce.Handle.{handle, draft, evidence_for}
use kessa.Enforce.Handle.Logged.{Handled, refused, logged, handle-Handled}
use kessa.Enforce.WriteAhead.{Wal, WalCodec, WalRecord, at_end, Disk, IsWhole, stored, open_wal}
use kessa.Enforce.WriteAhead.File.{ReadsBack, IsFile, IsFile-snoc, open_wal-IsFile}
use kessa.Chain.{Links}
use kessa.Env.{Env}
use kessa.Errors.{Error, evidence_not_recovered, not_recovered}
use kessa.Export.{CredentialRecord, CredentialSet}
use kessa.Keys.{IsGenuine}
use kessa.Policy.{Policy}
use kessa.Types.{Decision}

entries_of-append :
    (rs : List WalRecord) (r : WalRecord)
    → entries_of (rs ++ r ∷ []) ≡ entries_of rs ++ r.entry ∷ []
unfolding entries_of
entries_of-append [] r = refl
entries_of-append (s ∷ rs) r = ap (λ es. s.entry ∷ es) (entries_of-append rs r)

own : (b : Bool) → not (not b && not true) ≡ true
own true = refl
own false = refl

check_policies-append :
    (id : Str) (i : ℕ) (es : List Entry) (e : Entry)
    → check_policies id i es ≡ ok tt
    → e.policy_id ≡ id
    → check_policies id i (es ++ e ∷ []) ≡ ok tt
unfolding check_policies
check_policies-append id i [] e h same =
    rw ((str_eq_iff e.policy_id id).1 same)
      ((then_iff _ _).1 ((guard_iff _ _).1 (own (is_empty e.policy_id)), refl))
check_policies-append id i (f ∷ es) e h same =
    let (here, rest) = (then_iff _ _).0 h in
    (then_iff _ _).1 (here, check_policies-append id (suc i) es e rest same)

unfoldable pub evidence_of : Env → CredentialSet → Option Links → List CredentialRecord
evidence_of env set none = []
evidence_of env set (some ls) = elim (evidence_for env set 0 [] ls) [ ok out ↦ out.0 | err x ↦ [] ]

-- The record that a request leaves in the durable log.
unfoldable pub new_lines : Env → Proxy → Request → Result Error (Decision × Entry) → List WalRecord
unfolding evidence_of
new_lines env p req (err x) = []
new_lines env p req (ok (d, e)) =
    record { entry = e; credentials = evidence_of env p.set req.chain } ∷ []

All-left : (P : WalRecord → Type 0) (xs ys : List WalRecord) → All P (xs ++ ys) → All P xs
All-left P [] ys h = tt
All-left P (x ∷ xs) ys h = (h.0, All-left P xs ys h.1)

All-right : (P : WalRecord → Type 0) (xs ys : List WalRecord) → All P (xs ++ ys) → All P ys
All-right P [] ys h = h
All-right P (x ∷ xs) ys h = All-right P xs ys h.1

-- A request that arrives, the clock when it does, and what the disk does.
abbrev pub Step : Type 0
Step = Request × (ℤ × Disk)

abbrev pub OnWholeDisk : Step → Type 0
OnWholeDisk s = IsWhole s.1.1

module _ (env : Env) where
  -- The proxy after a sequence of requests.
  unfoldable pub run : Proxy → List Step → Proxy
  run p [] = p
  run p ((req, (now, disk)) ∷ steps) = run (handle env p req now disk).0 steps

  -- The records that a sequence of requests leaves in the durable log.
  unfoldable pub lines_of : Proxy → List Step → List WalRecord
  unfolding new_lines
  lines_of p [] = []
  lines_of p ((req, (now, disk)) ∷ steps) =
      new_lines env p req (handle env p req now disk).1
      ++ lines_of (handle env p req now disk).0 steps

  add_recovered-append :
      (set mid out : CredentialSet) (rs : List WalRecord) (r : WalRecord)
      → add_recovered env set rs ≡ ok mid
      → add_all env mid r.credentials ≡ ok out
      → add_recovered env set (rs ++ r ∷ []) ≡ ok out
  unfolding add_recovered
  add_recovered-append set mid out [] r h last =
      subst (λ s. add_recovered env s (r ∷ []) ≡ ok out) (sym (ok_inj h)) (rw last refl)
  add_recovered-append set mid out (s ∷ rs) r h last =
      let (one, added, rest) =
        >>=-eq-ok (wrap evidence_not_recovered (add_all env set s.credentials)) _ h in
      rw (wrap-eq-ok _ _ added) (add_recovered-append one mid out rs r rest last)

  module _ (c : Config) (genuine : IsGenuine env.platform c.enforcement_point) (codec : WalCodec)
      (ends : codec.decode [] ≡ at_end) where
    abbrev running : Option Policy × Str → List Entry → CredentialSet → Option Wal → Proxy
    running policy es set wal = record {
      enforcement_point = c.enforcement_point;
      evaluator = c.evaluator;
      carried_policy = policy.0;
      policy_id = policy.1;
      dids = c.dids;
      status = c.status;
      log = record { signer = c.enforcement_point; entries = es };
      set = set;
      wal = wal;
    }

    -- The durable log as it is opened.
    abbrev fresh_wal : List WalRecord → Bytes → Wal
    fresh_wal lines bytes = record {
      is_open = true;
      content = bytes;
      recovered = lines;
      codec = codec;
    }

    -- The file of the durable log holds what the proxy has in memory.
    record IsKept (p : Proxy) : Type 0 where
      policy : Option Policy × Str
      wal : Wal
      lines : List WalRecord
      set : CredentialSet
      same_codec : wal.codec ≡ codec
      file : IsFile codec lines wal.content
      carries : carried env c.evaluator ≡ ok policy
      recorded : add_recovered env [] lines ≡ ok set
      pinned : check_policies policy.1 0 (entries_of lines) ≡ ok tt
      verified : verify_entries env c.enforcement_point.public (entries_of lines) ≡ ok tt
      shape : p ≡ running policy (entries_of lines) set (some wal)

    abbrev kept_as : {p : Proxy} → IsKept p → Proxy
    kept_as k = running k.policy (entries_of k.lines) k.set (some k.wal)

    Handled-IsKept :
        (p q : Proxy) (req : Request) (now : ℤ) (disk : Disk) (r : Result Error (Decision × Entry))
        (k : IsKept p)
        → IsWhole disk
        → All (ReadsBack codec) (new_lines env (kept_as k) req r)
        → Handled env (kept_as k) req now disk q r
        → IsKept q
    unfolding draft new_lines evidence_of
    Handled-IsKept p q req now disk r k whole reads (refused same grows unwritten) = record {
      policy = k.policy;
      wal = k.wal;
      lines = k.lines;
      set = k.set;
      same_codec = k.same_codec;
      file = k.file;
      carries = k.carries;
      recorded = k.recorded;
      pinned = k.pinned;
      verified = k.verified;
      shape = same ∙ ap (λ v. record (kept_as k) { wal = v }) (unwritten whole);
    }
    Handled-IsKept p q req now disk r k whole reads
          (logged {ls = ls} {e = e} {creds = creds} given w (bytes, encoded, durable) all same) =
        let line : WalRecord = record { entry = e; credentials = creds } in
        let wal : Wal = record (k.wal) { content = k.wal.content ++ (bytes ++ 10 ∷ []) } in
        let grown = sym (entries_of-append k.lines line) in
        let (_, _, _, _, made) = seal_inv env (kept_as k).log _ e w.sealed in
        let back : ReadsBack codec line =
          subst (λ cs. ReadsBack codec (record { entry = e; credentials = cs }))
            (ap (evidence_of env k.set) given ∙ rw (evidence_of, w.found) refl) reads.0 in
        let same_line : back.line ≡ bytes =
          some_inj
            (sym back.encoded ∙ subst (λ x. x.encode line ≡ some bytes) k.same_codec encoded) in
        record {
          policy = k.policy;
          wal = wal;
          lines = k.lines ++ line ∷ [];
          set = q.set;
          same_codec = k.same_codec;
          file =
              subst (λ b. IsFile codec (k.lines ++ line ∷ []) (k.wal.content ++ (b ++ 10 ∷ [])))
                same_line (IsFile-snoc codec k.lines k.wal.content line back k.file);
          carries = k.carries;
          recorded = add_recovered-append [] k.set q.set k.lines line k.recorded all;
          pinned =
              subst (λ es. check_policies k.policy.1 0 es ≡ ok tt) grown
                (check_policies-append k.policy.1 0 (entries_of k.lines) e k.pinned
                  (ap (λ x. x.policy_id) made));
          verified =
              subst (λ es. verify_entries env c.enforcement_point.public es ≡ ok tt) grown
                (sealed-verify_entries env (kept_as k).log _ e genuine k.verified w.sealed);
          shape =
              same
              ∙ ap (λ v. running k.policy (entries_of k.lines ++ e ∷ []) q.set v) durable
              ∙ ap (λ es. running k.policy es q.set (some wal)) grown;
        }

    run-IsKept :
        (p : Proxy) (steps : List Step)
        → IsKept p
        → All OnWholeDisk steps
        → All (ReadsBack codec) (lines_of p steps)
        → IsKept (run p steps)
    unfolding run lines_of
    run-IsKept p [] k whole reads = k
    run-IsKept p ((req, (now, disk)) ∷ steps) k whole reads =
        let out = handle env p req now disk in
        let here : All (ReadsBack codec) (new_lines env p req out.1) =
          All-left (ReadsBack codec) (new_lines env p req out.1) (lines_of out.0 steps) reads in
        run-IsKept out.0 steps
          (subst (λ x. IsKept (handle env x req now disk).0) (sym k.shape)
            (Handled-IsKept p _ req now disk _ k whole.0
              (subst
                (λ x. All (ReadsBack codec) (new_lines env x req (handle env x req now disk).1))
                k.shape here)
              (handle-Handled env (kept_as k) req now disk)))
          whole.1
          (All-right (ReadsBack codec) (new_lines env p req out.1) (lines_of out.0 steps) reads)

    recover_records-IsKept :
        (policy : Option Policy × Str) (lines : List WalRecord) (bytes : Bytes) (p : Proxy)
        → IsFile codec lines bytes
        → carried env c.evaluator ≡ ok policy
        → recover_records env (running policy [] [] (some (fresh_wal lines bytes))) lines ≡ ok p
        → IsKept p
    unfolding recover_records entries_of check_policies add_recovered new_log
    recover_records-IsKept policy [] bytes p file carries h = record {
      policy = policy;
      wal = fresh_wal [] bytes;
      lines = [];
      set = [];
      same_codec = refl;
      file = file;
      carries = carries;
      recorded = refl;
      pinned = refl;
      verified = new_log-verify_entries env c.enforcement_point;
      shape = sym (ok_inj h);
    }
    recover_records-IsKept policy (r ∷ rs) bytes p file carries h =
        let (log, loaded, h1) =
          >>=-eq-ok (wrap not_recovered (load_log env c.enforcement_point (entries_of (r ∷ rs)))) _
            h in
        let (_, pinned, h2) = >>=-eq-ok (check_policies policy.1 0 (entries_of (r ∷ rs))) _ h1 in
        let (set, recorded, made) = >>=-eq-ok (add_recovered env [] (r ∷ rs)) _ h2 in
        let (verified, same) =
          load_log_inv env c.enforcement_point (entries_of (r ∷ rs)) log (wrap-eq-ok _ _ loaded) in
        record {
          policy = policy;
          wal = fresh_wal (r ∷ rs) bytes;
          lines = r ∷ rs;
          set = set;
          same_codec = refl;
          file = file;
          carries = carries;
          recorded = recorded;
          pinned = pinned;
          verified = verified;
          shape =
              sym (ok_inj made)
              ∙ ap
                  (λ l. record (running policy [] set (some (fresh_wal (r ∷ rs) bytes))) {
                    log = l;
                  })
                  same;
        }

    recovered-recover_records :
        (policy : Option Policy × Str) (lines : List WalRecord) (bytes : Bytes)
        (set : CredentialSet)
        → add_recovered env [] lines ≡ ok set
        → check_policies policy.1 0 (entries_of lines) ≡ ok tt
        → verify_entries env c.enforcement_point.public (entries_of lines) ≡ ok tt
        → recover_records env (running policy [] [] (some (fresh_wal lines bytes))) lines
          ≡ ok (running policy (entries_of lines) set (some (fresh_wal lines bytes)))
    unfolding recover_records add_recovered load_log entries_of
    recovered-recover_records policy [] bytes set recorded pinned verified =
        ap (λ s. ok (running policy [] s (some (fresh_wal [] bytes)))) (ok_inj recorded)
    recovered-recover_records policy (r ∷ rs) bytes set recorded pinned verified =
        rw verified (rw pinned (rw recorded refl))

    new_proxy-IsKept :
        (lines : List WalRecord) (bytes : Bytes) (p : Proxy)
        → IsFile codec lines bytes
        → c.wal ≡ some (fresh_wal lines bytes)
        → new_proxy env c ≡ ok p
        → IsKept p
    unfolding new_proxy recover_from new_log
    new_proxy-IsKept lines bytes p file at h =
        let (policy, carries, started) = >>=-eq-ok (carried env c.evaluator) _ h in
        recover_records-IsKept policy lines bytes p file carries
          (subst (λ v. recover_from env (running policy [] [] v) v ≡ ok p) at started)

    IsKept-new_proxy :
        (p : Proxy) (k : IsKept p)
        → new_proxy env (record c { wal = some (fresh_wal k.lines k.wal.content) })
          ≡ ok (record p { wal = some (fresh_wal k.lines k.wal.content) })
    unfolding new_proxy recover_from new_log
    IsKept-new_proxy p k =
        restarted
        ∙ ap {A = Proxy} (λ x. ok (record x { wal = some (fresh_wal k.lines k.wal.content) }))
            (sym k.shape)
      where
        restarted :
            new_proxy env (record c { wal = some (fresh_wal k.lines k.wal.content) })
            ≡ ok (record (kept_as k) { wal = some (fresh_wal k.lines k.wal.content) })
        restarted = rw (k.carries) (
            recovered-recover_records k.policy k.lines k.wal.content k.set k.recorded k.pinned
              k.verified)

  -- A restart loses nothing. A proxy started, with a genuine signer, from the file of a durable log
  -- that consists of the lines of records; then after any sequence of requests in which no write or
  -- sync of the disk failed part way, the file opens, and a proxy that starts from it has the same
  -- log, evidence, policy and sources as the one that stopped. Each record that a request puts into
  -- the file has to be read back from its line, whatever follows it, and the end of the file to be
  -- found.
  pub new_proxy-run :
      (c : Config) (codec : WalCodec) (lines : List WalRecord) (bytes : Bytes) (w : Wal) (p : Proxy)
      (steps : List Step)
      → IsGenuine env.platform c.enforcement_point
      → codec.decode [] ≡ at_end
      → IsFile codec lines bytes
      → open_wal codec (stored bytes) ≡ ok w
      → c.wal ≡ some w
      → new_proxy env c ≡ ok p
      → All OnWholeDisk steps
      → All (ReadsBack codec) (lines_of p steps)
      → (v w' : Wal) × ((run p steps).wal ≡ some v)
        × (open_wal codec (stored v.content) ≡ ok w')
        × (new_proxy env (record c { wal = some w' }) ≡ ok (record (run p steps) { wal = some w' }))
  new_proxy-run c codec lines bytes w p steps genuine ends file opens at h whole reads =
      let is_fresh = ok_inj (sym opens ∙ open_wal-IsFile codec lines bytes ends file) in
      let kept =
        new_proxy-IsKept c genuine codec ends lines bytes p file (at ∙ ap some is_fresh) h in
      let k = run-IsKept c genuine codec ends p steps kept whole reads in
      (
        k.wal,
        record { is_open = true; content = k.wal.content; recovered = k.lines; codec = codec },
        ap (λ x. x.wal) k.shape,
        open_wal-IsFile codec k.lines k.wal.content ends k.file,
        IsKept-new_proxy c genuine codec ends (run p steps) k,
      )
