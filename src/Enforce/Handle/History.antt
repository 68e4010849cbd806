-- ===== src/Enforce/Handle/History.antt =====
-- The chokepoint over any sequence of requests.
use mathlib.Core.List.{append-nil, append_assoc}
use kessa.Base.{◌≡◌, refl, sym, ap, ◌∙◌, subst, List, [], ◌∷◌, ◌++◌, Result, ok, >>=-eq-ok, ok_inj}
use kessa.Base.Int.{ℤ}
use kessa.Audit.{verify_entries}
use kessa.Audit.Data.{Entry}
use kessa.Audit.Growth.{sealed-verify_entries}
use kessa.Enforce.{Proxy, Request, add_all}
use kessa.Enforce.Handle.{handle}
use kessa.Enforce.Handle.Logged.{Handled, refused, logged, handle-Handled}
use kessa.Enforce.WriteAhead.{Disk}
use kessa.Env.{Env}
use kessa.Errors.{Error}
use kessa.Export.{CredentialRecord, CredentialSet, add}
use kessa.Export.Records.{IsAddressed, add-IsAddressed}
use kessa.Keys.{IsGenuine}
use kessa.Types.{Decision}

-- The states that a proxy reaches by requests, at whatever instants and for whatever the disk does.
pub data Reaches (env : Env) (p : Proxy) : Proxy → Type 0 where
  start : Reaches env p p
  request :
      {q : Proxy}
      → Reaches env p q
      → (req : Request) (now : ℤ) (disk : Disk) → Reaches env p (handle env q req now disk).0

module _ (env : Env) where
  pub add_all-IsAddressed :
      (set set' : CredentialSet) (creds : List CredentialRecord)
      → IsAddressed env set
      → add_all env set creds ≡ ok set'
      → IsAddressed env set'
  unfolding add_all
  add_all-IsAddressed set set' [] a h = subst (IsAddressed env) (ok_inj h) a
  add_all-IsAddressed set set' (r ∷ rs) a h =
      let ((mid, id), added, rest) = >>=-eq-ok (add env set r.credential r.issuer_proof) _ h in
      let (kept, _, _, _) = add-IsAddressed env set r.credential r.issuer_proof mid id a added in
      add_all-IsAddressed mid set' rs kept rest

  -- The log verifies under the key of its signer, and the evidence is stored under its addresses.
  pub record IsSound (p : Proxy) : Type 0 where
    pub genuine : IsGenuine env.platform p.log.signer
    pub verified : verify_entries env p.log.signer.public p.log.entries ≡ ok tt
    pub addressed : IsAddressed env p.set

  abbrev Grows : Proxy → Proxy → Type 0
  Grows p q =
      IsSound q
      × (q.log.signer ≡ p.log.signer)
      × ((es : List Entry) × (q.log.entries ≡ p.log.entries ++ es))

  Handled-Grows :
      (p : Proxy) (req : Request) (now : ℤ) (disk : Disk) (q : Proxy)
      (r : Result Error (Decision × Entry))
      → Handled env p req now disk q r
      → IsSound p
      → Grows p q
  Handled-Grows p req now disk q r (refused same grows unwritten) s = subst (Grows p) (sym same) (
    record { genuine = s.genuine; verified = s.verified; addressed = s.addressed },
    refl,
    ([], sym (append-nil p.log.entries)),
  )
  Handled-Grows p req now disk q r (logged {e = e} {creds = creds} given w durable all same) s =
      subst (Grows p) (sym same) (
        record {
          genuine = s.genuine;
          verified = sealed-verify_entries env p.log _ e s.genuine s.verified w.sealed;
          addressed = add_all-IsAddressed p.set q.set creds s.addressed all;
        },
        refl,
        (e ∷ [], refl),
      )

  -- Over any sequence of requests to a sound proxy the log only grows, it stays verified under its
  -- signer's key, and the evidence stays under its addresses.
  pub Reaches-Grows :
      (p q : Proxy)
      → IsSound p
      → Reaches env p q
      → IsSound q
        × (q.log.signer ≡ p.log.signer)
        × ((es : List Entry) × (q.log.entries ≡ p.log.entries ++ es))
  Reaches-Grows p q s start = (s, refl, ([], sym (append-nil p.log.entries)))
  Reaches-Grows p q s (request {q = mid} before req now disk) =
      let (sound, signer, (es, grown)) = Reaches-Grows p mid s before in
      let (sound', signer', (fs, more)) =
        Handled-Grows mid req now disk _ _ (handle-Handled env mid req now disk) sound in
      (
        sound',
        signer' ∙ signer,
        (es ++ fs, more ∙ ap (λ x. x ++ fs) grown ∙ append_assoc p.log.entries es fs),
      )
