-- ===== src/Enroll/Uniqueness.antt =====
-- A DID is registered once.
use kessa.Base.{
  ℕ, ◌+◌, ◌≤◌, ◌≡◌, ◌≢◌, refl, ◌∙◌, subst, Str, str_eq, str_eq_refl, str_eq_iff, is_empty, Bool,
  true, false, Bool-cases, not, ||-eq-false, inl, inr, Option, none, some, List, [], ◌∷◌, ◌++◌, ok,
  guard, >>-eq-ok, ok_inj, if◌then◌else◌, arith,
}
use kessa.Base.Dict.{lookup, insert, lookup-insert}
use kessa.Enroll.{
  Device, Mapping, empty_identity, empty_did, holds, find_by_did, devices_of, not_registered,
  add_credential,
}
use kessa.Types.{Did}

one_if : Bool → ℕ
one_if true = 1
one_if false = 0

count_in : Did → List Device → ℕ
unfolding one_if
count_in did [] = 0
count_in did (d ∷ ds) = one_if (str_eq d.did did) + count_in did ds

-- How many devices of the map have a DID.
pub count : Did → Mapping → ℕ
unfolding count_in
count did [] = 0
count did ((identity, ds) ∷ m) = count_in did ds + count did m

abbrev pub IsUnique : Mapping → Type 0
IsUnique m = (did : Did) → count did m ≤ 1

pub empty-IsUnique : IsUnique []
unfolding count
empty-IsUnique did = omega arith

count_in-snoc :
    (did : Did) (ds : List Device) (d : Device)
    → count_in did (ds ++ d ∷ []) ≡ count_in did ds + one_if (str_eq d.did did)
unfolding count_in
count_in-snoc did [] d = omega arith
count_in-snoc did (e ∷ ds) d = omega (arith, count_in-snoc did ds d)

lookup_cons :
    (name i : Str) (ds : List Device) (m : Mapping)
    → lookup name ((i, ds) ∷ m) ≡ (if str_eq i name then some ds else lookup name m)
unfolding lookup
lookup_cons name i ds m = refl

insert_cons :
    (name i : Str) (new ds : List Device) (m : Mapping)
    → insert name new ((i, ds) ∷ m)
      ≡ (if str_eq i name then (name, new) ∷ m else (i, ds) ∷ insert name new m)
unfolding insert
insert_cons name i new ds m = refl

count-insert_nil :
    (did : Did) (identity : Str) (d : Device)
    → count did (insert identity (devices_of (lookup identity []) ++ d ∷ []) [])
      ≡ count did [] + one_if (str_eq d.did did)
unfolding count count_in insert lookup devices_of
count-insert_nil did identity d = omega arith

count-insert :
    (did : Did) (m : Mapping) (identity : Str) (d : Device)
    → count did (insert identity (devices_of (lookup identity m) ++ d ∷ []) m)
      ≡ count did m + one_if (str_eq d.did did)
unfolding count devices_of
count-insert did [] identity d = count-insert_nil did identity d
count-insert did ((i, ds) ∷ m) identity d = rw (lookup_cons identity i ds m) (
    rw
      (insert_cons identity i
        (devices_of (if str_eq i identity then some ds else lookup identity m) ++ d ∷ []) ds m)
      (by_name (str_eq i identity) (count-insert did m identity d)))
  where
    by_name :
        (b : Bool)
        → count did (insert identity (devices_of (lookup identity m) ++ d ∷ []) m)
          ≡ count did m + one_if (str_eq d.did did)
        → count did (
            if b
            then (identity, devices_of (if b then some ds else lookup identity m) ++ d ∷ []) ∷ m
            else (i, ds)
              ∷ insert identity (devices_of (if b then some ds else lookup identity m) ++ d ∷ []) m)
          ≡ count did ((i, ds) ∷ m) + one_if (str_eq d.did did)
    by_name true later = omega (arith, count_in-snoc did ds d)
    by_name false later = omega (arith, later)

holds-count_in : (did : Did) (ds : List Device) → holds did ds ≡ false → count_in did ds ≡ 0
unfolding holds count_in one_if
holds-count_in did [] h = refl
holds-count_in did (d ∷ ds) h =
    let (here, later) = ||-eq-false (str_eq d.did did) (holds did ds) h in
    rw here (omega (arith, holds-count_in did ds later))

find_by_did-count : (did : Did) (m : Mapping) → find_by_did did m ≡ none → count did m ≡ 0
unfolding find_by_did count
find_by_did-count did [] h = refl
find_by_did-count did ((i, ds) ∷ m) h = elim (Bool-cases (holds did ds)) [
  | inl e ↦ cc (rw e at h)
  | inr e ↦ omega (arith, holds-count_in did ds e, find_by_did-count did m (rw e at h))
]

not_registered-none : (o : Option Str) → not_registered o ≡ ok tt → o ≡ none
unfolding not_registered
not_registered-none none h = refl
not_registered-none (some owner) h = cc

-- Adding a credential keeps every DID registered at most once in the whole map, registers the new
-- one exactly once, at the end of the identity's devices, and leaves every other DID and identity
-- as it was.
pub add_credential-IsUnique :
    (m m' : Mapping) (identity : Str) (d : Device)
    → IsUnique m
    → add_credential m identity d ≡ ok m'
    → IsUnique m'
      × (count d.did m' ≡ 1)
      × ((other : Did) → d.did ≢ other → count other m' ≡ count other m)
      × ((name : Str)
          → lookup name m' ≡ (
              if str_eq identity name
              then some (devices_of (lookup identity m) ++ d ∷ [])
              else lookup name m))
unfolding add_credential one_if
add_credential-IsUnique m m' identity d unique h =
    let (_, h1) = >>-eq-ok (guard (not (is_empty identity)) empty_identity) _ h in
    let (_, h2) = >>-eq-ok (guard (not (is_empty d.did)) empty_did) _ h1 in
    let (fresh, made) = >>-eq-ok (not_registered (find_by_did d.did m)) _ h2 in
    let new : count d.did m ≡ 0 = find_by_did-count d.did m (not_registered-none _ fresh) in
    let grown : (did : Did) → count did m' ≡ count did m + one_if (str_eq d.did did) = λ did.
      subst (λ x. count did x ≡ count did m + one_if (str_eq d.did did)) (ok_inj made)
        (count-insert did m identity d) in
    let other : (did : Did) → d.did ≢ did → count did m' ≡ count did m =
      λ did n. grown did ∙ other_count did n in
    let own : count d.did m' ≡ 1 = grown d.did ∙ own_count new in
    (
      λ did. elim (Bool-cases (str_eq d.did did)) [
        | inl e ↦ subst (λ x. count x m' ≤ 1) ((str_eq_iff d.did did).0 e) (omega (arith, own))
        | inr e ↦
            omega (arith, other did (λ same. cc (e, (str_eq_iff d.did did).1 same)), unique did)
      ],
      own,
      other,
      λ name.
          subst
            (λ x. lookup name x ≡ (
              if str_eq identity name
              then some (devices_of (lookup identity m) ++ d ∷ [])
              else lookup name m))
            (ok_inj made) (lookup-insert identity name _ m),
    )
  where
    other_count : (did : Did) → d.did ≢ did → count did m + one_if (str_eq d.did did) ≡ count did m
    other_count did n = elim (Bool-cases (str_eq d.did did)) [
      | inl e ↦ absurd (n ((str_eq_iff d.did did).0 e))
      | inr e ↦ rw e (omega arith)
    ]

    own_count : count d.did m ≡ 0 → count d.did m + one_if (str_eq d.did d.did) ≡ 1
    own_count new = rw (str_eq_refl d.did) (omega (arith, new))
