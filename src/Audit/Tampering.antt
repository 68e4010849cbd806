-- ===== src/Audit/Tampering.antt =====
-- Tamper evidence: the hash of the last entry commits to the content of the whole log.
use kessa.Base.{
  ℕ, suc, ◌≡◌, ◌≢◌, refl, sym, ap, ap₂, ◌∙◌, ◌⊎◌, inl, inr, Bytes, codes, str_eq, str_eq_sound,
  str_eq_refl, true, false, Bool-cases, Option, some, List, [], ◌∷◌, map, length, ok, arith,
}
use kessa.Base.Binary.{NoZero, no_zero-NoZero, part_inj}
use kessa.Audit.{cleared, last_hash, genesis_hash, verify_entries}
use kessa.Audit.Data.{Entry}
use kessa.Audit.Entries.{hashed, IsEntry, IsLog, next, verify_entries-IsLog}
use kessa.Env.{Env}
use kessa.Keys.{Key}

-- Two messages with one hash.
abbrev pub Collision : Env → Type 0
Collision env =
    (x : Bytes) × (y : Bytes) × (x ≢ y) × (env.platform.sha256 x ≡ env.platform.sha256 y)

tag_NoZero : NoZero (codes "kessa/audit-entry/v2")
tag_NoZero = no_zero-NoZero (codes "kessa/audit-entry/v2") refl

hashed_inj : (x y : Bytes) → hashed x ≡ hashed y → x ≡ y
hashed_inj x y e =
    (part_inj (codes "kessa/audit-entry/v2") (codes "kessa/audit-entry/v2") tag_NoZero tag_NoZero
      e).1

module _ (env : Env) where
  -- Everything of an entry but its hash and its signature, as it is encoded.
  abbrev pub content : Entry → Option Bytes
  content e = env.marshal_entry (cleared e)

  same_or_Collision :
      (x y : Bytes)
      → env.platform.sha256 (hashed x) ≡ env.platform.sha256 (hashed y)
      → (x ≡ y) ⊎ Collision env
  same_or_Collision x y e = decided (Bool-cases (str_eq x y))
    where
      decided : (str_eq x y ≡ true) ⊎ (str_eq x y ≡ false) → (x ≡ y) ⊎ Collision env
      decided (inl h) = inl (str_eq_sound x y h)
      decided (inr h) =
          inr
            (hashed x, hashed y, (λ s. cc (str_eq_refl x, ap (str_eq x) (hashed_inj x y s), h)), e)

  -- The encoding of an entry determines the previous hash in it.
  abbrev pub EncodesPrevHash : Type 0
  EncodesPrevHash =
      (e f : Entry) (body : Bytes)
      → env.marshal_entry e ≡ some body
      → env.marshal_entry f ≡ some body
      → e.prev_hash ≡ f.prev_hash

  module _ (keeps : EncodesPrevHash) (k j : Key) where
    abbrev Same : Bytes → Bytes → List Entry → List Entry → Type 0
    Same p q es fs = ((p ≡ q) × (map content es ≡ map content fs)) ⊎ Collision env

    heads-Same :
        (i : ℕ) (p q : Bytes) (e f : Entry) (es fs : List Entry)
        → IsEntry env k i p e
        → IsEntry env j i q f
        → Same e.entry_hash f.entry_hash es fs
        → Same p q (e ∷ es) (f ∷ fs)
    heads-Same i p q e f es fs a b (inr c) = inr c
    heads-Same i p q e f es fs a b (inl (hashes, rest)) =
        by_body (same_or_Collision a.body b.body (sym a.hash ∙ hashes ∙ b.hash))
      where
        by_body : (a.body ≡ b.body) ⊎ Collision env → Same p q (e ∷ es) (f ∷ fs)
        by_body (inr c) = inr c
        by_body (inl bodies) =
            let other : env.marshal_entry (cleared f) ≡ some a.body =
              b.encoded ∙ ap some (sym bodies) in
            let links = keeps (cleared e) (cleared f) a.body a.encoded other in
            inl (sym a.linked ∙ links ∙ b.linked, ap₂ ◌∷◌ (a.encoded ∙ sym other) rest)

    IsLog-Same :
        (i : ℕ) (p q : Bytes) (es fs : List Entry)
        → length es ≡ length fs
        → IsLog env k i p es
        → IsLog env j i q fs
        → last_hash p es ≡ last_hash q fs
        → Same p q es fs
    unfolding last_hash
    IsLog-Same i p q [] [] n a b h = inl (h, refl)
    IsLog-Same i p q [] (f ∷ fs) n a b h = absurd (omega arith)
    IsLog-Same i p q (e ∷ es) [] n a b h = absurd (omega arith)
    IsLog-Same i p q (e ∷ es) (f ∷ fs) n (next a xs) (next b ys) h =
        heads-Same i p q e f es fs a b
          (IsLog-Same (suc i) e.entry_hash f.entry_hash es fs (omega arith) xs ys h)

    -- Two logs of one length that verify, under whatever keys, and end with the same hash have the
    -- same content entry by entry, or else they exhibit a collision of SHA-256. The encoding has to
    -- determine the previous hash of an entry.
    pub verify_entries-content :
        (es fs : List Entry)
        → length es ≡ length fs
        → verify_entries env k es ≡ ok tt
        → verify_entries env j fs ≡ ok tt
        → last_hash genesis_hash es ≡ last_hash genesis_hash fs
        → (map content es ≡ map content fs) ⊎ Collision env
    verify_entries-content es fs n a b h = forget (
        IsLog-Same 0 genesis_hash genesis_hash es fs n ((verify_entries-IsLog env k es).0 a)
          ((verify_entries-IsLog env j fs).0 b) h)
      where
        forget :
            Same genesis_hash genesis_hash es fs → (map content es ≡ map content fs) ⊎ Collision env
        forget (inl (_, same)) = inl same
        forget (inr c) = inr c
