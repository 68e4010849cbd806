-- ===== src/Audit/Growth.antt =====
-- A log that grows by sealed entries stays verified, and is what is loaded after a restart.
use kessa.Base.{
  ℕ, suc, ◌+◌, ◌≡◌, refl, sym, ap, ◌∙◌, subst, ◌==◌, ==_iff, Bytes, str_eq, str_eq_iff, true, false,
  ◌&&◌, some, List, [], ◌∷◌, ◌++◌, length, length-append, ok, err, guard, require, wrap, >>=-eq-ok,
  require-eq-ok, wrap-eq-ok, ok_inj, arith,
}
use kessa.Audit.{
  Log, new_log, entry_hash, sig_input, cleared, last_hash, genesis_hash, tip, at_position, seal,
  commit, append, verify_entries, load_log,
}
use kessa.Audit.Data.{Entry, EntryDraft}
use kessa.Audit.Entries.{hashed, IsEntry, IsLog, done, next, verify_entries-IsLog}
use kessa.Env.{Env}
use kessa.Errors.{cannot_canonicalize, sign_entry_failed, stale_seal, recovery_failed}
use kessa.Keys.{Key, Signer, IsGenuine}

module _ (env : Env) where
  -- What `Seal` returns: the draft at the tip, its hash, and a signature over it.
  pub seal_inv :
      (l : Log) (r : EntryDraft) (e : Entry)
      → seal env l r ≡ ok e
      → (body : Bytes) × (sig : Bytes) × (env.marshal_entry (at_position (tip l).0 (tip l).1 r)
          ≡ some body)
        × (l.signer.sign (sig_input (env.platform.sha256 (hashed body))) ≡ ok sig)
        × (e ≡ record (at_position (tip l).0 (tip l).1 r) {
          entry_hash = env.platform.sha256 (hashed body);
          signature = sig;
        })
  unfolding seal entry_hash
  seal_inv l r e h =
      let draft : Entry = at_position (tip l).0 (tip l).1 r in
      let (hash, hashed_ok, h1) = >>=-eq-ok (entry_hash env draft) _ h in
      let (sig, signed, made) =
        >>=-eq-ok (wrap (sign_entry_failed draft.seq) (l.signer.sign (sig_input hash))) _ h1 in
      let (body, encoded, hash_made) =
        >>=-eq-ok (require (env.marshal_entry (cleared draft)) (cannot_canonicalize draft.seq)) _
          hashed_ok in
      let same = ok_inj hash_made in
      (
        body,
        sig,
        require-eq-ok _ _ encoded,
        subst (λ x. l.signer.sign (sig_input x) ≡ ok sig) (sym same)
            (wrap-eq-ok (sign_entry_failed draft.seq) _ signed),
        sym (ok_inj made) ∙ ap (λ x. record draft { entry_hash = x; signature = sig }) (sym same),
      )

  commit_inv :
      (l l' : Log) (e : Entry)
      → commit l e ≡ ok l'
      → l' ≡ record l { entries = l.entries ++ e ∷ [] }
  unfolding commit
  commit_inv l l' e h =
      let (_, _, made) =
        >>=-eq-ok (guard (e.seq == (tip l).0 && str_eq e.prev_hash (tip l).1) stale_seal) _ h in
      sym (ok_inj made)

  IsLog-snoc :
      (k : Key) (i n : ℕ) (prev : Bytes) (es : List Entry) (e : Entry)
      → n ≡ i + length es
      → IsLog env k i prev es
      → IsEntry env k n (last_hash prev es) e
      → IsLog env k i prev (es ++ e ∷ [])
  unfolding last_hash
  IsLog-snoc k i n prev [] e at done new =
      next (subst (λ j. IsEntry env k j prev e) (omega arith) new) done
  IsLog-snoc k i n prev (d ∷ es) e at (next first rest) new =
      next first (IsLog-snoc k (suc i) n d.entry_hash es e (omega arith) rest new)

  seal-IsEntry :
      (l : Log) (r : EntryDraft) (e : Entry)
      → IsGenuine env.platform l.signer
      → seal env l r ≡ ok e
      → IsEntry env l.signer.public (tip l).0 (tip l).1 e
  seal-IsEntry l r e genuine h =
      let (body, sig, encoded, signed, made) = seal_inv l r e h in
      subst (IsEntry env l.signer.public (tip l).0 (tip l).1) (sym made) (record {
        body = body;
        in_order = refl;
        linked = refl;
        encoded = encoded;
        hash = refl;
        signed = genuine _ sig signed;
      })

  pub sealed-verify_entries :
      (l : Log) (r : EntryDraft) (e : Entry)
      → IsGenuine env.platform l.signer
      → verify_entries env l.signer.public l.entries ≡ ok tt
      → seal env l r ≡ ok e
      → verify_entries env l.signer.public (l.entries ++ e ∷ []) ≡ ok tt
  unfolding tip
  sealed-verify_entries l r e genuine verified sealed =
      (verify_entries-IsLog env l.signer.public (l.entries ++ e ∷ [])).1 (
        IsLog-snoc l.signer.public 0 (length l.entries) genesis_hash l.entries e (omega arith)
          ((verify_entries-IsLog env l.signer.public l.entries).0 verified)
          (seal-IsEntry l r e genuine sealed))

  -- A log that verifies under the key of its genuine signer still does when an entry is appended;
  -- the new entry is its last one, and loading the entries gives back the log.
  pub append-verify_entries :
      (l l' : Log) (r : EntryDraft) (e : Entry)
      → IsGenuine env.platform l.signer
      → verify_entries env l.signer.public l.entries ≡ ok tt
      → append env l r ≡ ok (l', e)
      → (l'.entries ≡ l.entries ++ e ∷ []) × (load_log env l.signer l'.entries ≡ ok l')
  unfolding append load_log tip
  append-verify_entries l l' r e genuine verified h =
      let (d, sealed, h1) = >>=-eq-ok (seal env l r) _ h in
      let (k, committed, made) = >>=-eq-ok (commit l d) _ h1 in
      let logs : k ≡ l' = ap (λ x. x.0) (ok_inj made) in
      let news : d ≡ e = ap (λ x. x.1) (ok_inj made) in
      let grown = sym logs ∙ commit_inv l k d committed in
      let whole = sealed-verify_entries l r d genuine verified sealed in
      (
        ap (λ x. x.entries) grown ∙ ap (λ x. l.entries ++ x ∷ []) news,
        subst (λ x. load_log env l.signer x.entries ≡ ok x) (sym grown) (rw whole refl),
      )

  pub load_log_inv :
      (s : Signer) (es : List Entry) (l : Log)
      → load_log env s es ≡ ok l
      → (verify_entries env s.public es ≡ ok tt) × (l ≡ record { signer = s; entries = es })
  unfolding load_log
  load_log_inv s es l h =
      let (_, verified, made) =
        >>=-eq-ok (wrap (λ f. recovery_failed f.0 f.1) (verify_entries env s.public es)) _ h in
      (wrap-eq-ok _ _ verified, sym (ok_inj made))

  -- A new log verifies.
  pub new_log-verify_entries :
      (s : Signer) → verify_entries env s.public (new_log s).entries ≡ ok tt
  unfolding new_log
  new_log-verify_entries s = (verify_entries-IsLog env s.public []).1 done

  -- A sealed entry lands in the slot that it was sealed for and in no other: it is committed to the
  -- log that it was sealed on, and refused by the log that it makes.
  pub commit-seal :
      (l : Log) (r : EntryDraft) (e : Entry)
      → seal env l r ≡ ok e
      → (commit l e ≡ ok (record l { entries = l.entries ++ e ∷ [] }))
        × (commit (record l { entries = l.entries ++ e ∷ [] }) e ≡ err stale_seal)
  unfolding commit tip
  commit-seal l r e h =
      let (body, sig, encoded, signed, made) = seal_inv l r e h in
      let number : e.seq ≡ length l.entries = ap (λ x. x.seq) made in
      let link : e.prev_hash ≡ last_hash genesis_hash l.entries = ap (λ x. x.prev_hash) made in
      let here : (e.seq == length l.entries) ≡ true = (==_iff _ _).1 number in
      let linked : str_eq e.prev_hash (last_hash genesis_hash l.entries) ≡ true =
        (str_eq_iff _ _).1 link in
      let past : (e.seq == length (l.entries ++ e ∷ [])) ≡ false =
        ground (arith, length-append l.entries (e ∷ [])) in
      (rw here (rw linked refl), rw past refl)
