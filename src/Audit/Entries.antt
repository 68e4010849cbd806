-- ===== src/Audit/Entries.antt =====
-- What a verified list of entries is, and what a failing index says.
use kessa.Base.{
  ℕ, suc, ◌+◌, ◌<◌, ◌≡◌, refl, sym, ◌∙◌, subst, ◌↔◌, ==_iff, Bytes, codes, str_eq, str_eq_iff, true,
  some, List, [], ◌∷◌, length, take, Result, ok, err, ◌>>=◌, ◌>>◌, guard, require, wrap, then_iff,
  guard_iff, wrap_iff, iff_trans, iff_pair, >>=-eq-ok, require-eq-ok, ok_inj, arith,
}
use kessa.Base.Binary.{◌⁀◌}
use kessa.Audit.{
  entry_hash, sig_input, cleared, genesis_hash, check_entry, check_entries, verify_entries,
}
use kessa.Audit.Data.{Entry}
use kessa.Env.{Env}
use kessa.Errors.{Error, cannot_canonicalize, hash_mismatch}
use kessa.Keys.{Key, verify_signature}

-- What an entry's hash is taken of.
abbrev pub hashed : Bytes → Bytes
hashed body = codes "kessa/audit-entry/v2" ⁀ body

module _ (env : Env) (k : Key) where
  -- An entry that stands at a position, after an entry with the given hash.
  pub record IsEntry (i : ℕ) (prev : Bytes) (e : Entry) : Type 0 where
    pub body : Bytes
    pub in_order : e.seq ≡ i
    pub linked : e.prev_hash ≡ prev
    pub encoded : env.marshal_entry (cleared e) ≡ some body
    pub hash : e.entry_hash ≡ env.platform.sha256 (hashed body)
    pub signed : verify_signature env.platform k (sig_input e.entry_hash) e.signature ≡ true

  pub data IsLog : ℕ → Bytes → List Entry → Type 0 where
    done : {i : ℕ} {prev : Bytes} → IsLog i prev []
    next :
        {i : ℕ} {prev : Bytes} {e : Entry} {es : List Entry}
        → IsEntry i prev e
        → IsLog (suc i) e.entry_hash es
        → IsLog i prev (e ∷ es)

  hash_iff :
      (e : Entry) (rest : Result Error (Unit {0}))
      → ((entry_hash env e >>= λ want. (guard (str_eq want e.entry_hash) hash_mismatch >> rest))
          ≡ ok tt)
        ↔ (((body : Bytes) × ((env.marshal_entry (cleared e) ≡ some body)
                × (e.entry_hash ≡ env.platform.sha256 (hashed body))))
            × (rest ≡ ok tt))
  unfolding entry_hash
  hash_iff e rest = (
    λ h.
        let (want, hashed_ok, h1) = >>=-eq-ok (entry_hash env e) _ h in
        let (body, encoded, made) =
          >>=-eq-ok (require (env.marshal_entry (cleared e)) (cannot_canonicalize e.seq)) _
            hashed_ok in
        let (same, h2) = (then_iff _ _).0 h1 in
        let equal = (str_eq_iff want e.entry_hash).0 ((guard_iff _ _).0 same) in
        ((body, (require-eq-ok _ _ encoded, sym equal ∙ sym (ok_inj made))), h2),
    λ k.
        let ((body, (encoded, hash)), left) = k in
        rw encoded
          (rw ((str_eq_iff (env.platform.sha256 (hashed body)) e.entry_hash).1 (sym hash)) left),
  )

  check_entry_iff :
      (i : ℕ) (prev : Bytes) (e : Entry) → (check_entry env k i prev e ≡ ok tt) ↔ IsEntry i prev e
  unfolding check_entry
  check_entry_iff i prev e =
      let each = iff_trans (then_iff _ _) (
        iff_pair (iff_trans (guard_iff _ _) (==_iff e.seq i)) (
          iff_trans (then_iff _ _) (
            iff_pair (iff_trans (guard_iff _ _) (str_eq_iff e.prev_hash prev))
              (iff_trans (hash_iff e _) (iff_pair (λ h. h, λ h. h) (guard_iff _ _)))))) in
      (
        λ h.
            let (a, (b, ((body, (c, d)), s))) = each.0 h in
            record { body = body; in_order = a; linked = b; encoded = c; hash = d; signed = s },
        λ w. each.1 (w.in_order, (w.linked, ((w.body, (w.encoded, w.hash)), w.signed))),
      )

  pub check_entries_iff :
      (i : ℕ) (prev : Bytes) (es : List Entry)
      → (check_entries env k i prev es ≡ ok tt) ↔ IsLog i prev es
  unfolding check_entries
  check_entries_iff i prev [] = (λ h. done, λ h. refl)
  check_entries_iff i prev (e ∷ es) =
      let each = iff_trans (then_iff _ _) (
        iff_pair (iff_trans (wrap_iff _ _) (check_entry_iff i prev e))
          (check_entries_iff (suc i) e.entry_hash es)) in
      (λ h. let (a, b) = each.0 h in next a b, λ w. each.1 (parts w))
    where
      parts : IsLog i prev (e ∷ es) → IsEntry i prev e × IsLog (suc i) e.entry_hash es
      parts (next a b) = (a, b)

  -- `VerifyEntries` accepts exactly the lists in which every entry has its index as its number, the
  -- hash of the entry before it, its own hash and a signature over it.
  pub verify_entries-IsLog :
      (es : List Entry) → (verify_entries env k es ≡ ok tt) ↔ IsLog 0 genesis_hash es
  unfolding verify_entries
  verify_entries-IsLog es = check_entries_iff 0 genesis_hash es

  check_entries-prefix :
      (i n : ℕ) (prev : Bytes) (es : List Entry) (x : Error)
      → check_entries env k i prev es ≡ err (n, x)
      → (m : ℕ) × (n ≡ i + m) × (m < length es) × (check_entries env k i prev (take m es) ≡ ok tt)
  unfolding check_entries
  check_entries-prefix i n prev [] x h = cc
  check_entries-prefix i n prev (e ∷ es) x h =
      by_head (check_entry env k i prev e) refl h (check_entries-prefix (suc i) n e.entry_hash es x)
    where
      by_head :
          (r : Result Error (Unit {0}))
          → check_entry env k i prev e ≡ r
          → (wrap (λ y. (i, y)) r >> check_entries env k (suc i) e.entry_hash es) ≡ err (n, x)
          → (check_entries env k (suc i) e.entry_hash es ≡ err (n, x)
              → (m : ℕ) × (n ≡ suc i + m)
                × (m < length es)
                × (check_entries env k (suc i) e.entry_hash (take m es) ≡ ok tt))
          → (m : ℕ) × (n ≡ i + m)
            × (m < suc (length es))
            × (check_entries env k i prev (take m (e ∷ es)) ≡ ok tt)
      by_head (ok a) made h later =
          let (m, index, inside, rest) = later h in (suc m, omega arith, omega arith, rw made rest)
      by_head (err y) made h later = let same : n ≡ i = cc in (0, omega arith, omega arith, refl)

  -- The index that a failed verification names is that of an entry, and everything before it
  -- verifies.
  pub verify_entries-prefix :
      (es : List Entry) (n : ℕ) (x : Error)
      → verify_entries env k es ≡ err (n, x)
      → (n < length es) × (verify_entries env k (take n es) ≡ ok tt)
  unfolding verify_entries
  verify_entries-prefix es n x h =
      let (m, index, inside, rest) = check_entries-prefix 0 n genesis_hash es x h in
      let same : m ≡ n = omega arith in
      (omega arith, subst (λ j. check_entries env k 0 genesis_hash (take j es) ≡ ok tt) same rest)
