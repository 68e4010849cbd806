-- ===== src/Export/Records.antt =====
-- The evidence set: every record is stored under the address of its content.
use kessa.Base.{
  ◌≡◌, refl, sym, ap, ◌∙◌, subst, Bytes, Str, str_eq, str_eq_iff, str_eq_refl, Bool, true, false,
  Bool-cases, inl, inr, ◌⊎◌, Option, none, some, is_some, ok, >>=-eq-ok, ok_inj, some_inj,
  if◌then◌else◌,
}
use kessa.Base.Dict.{lookup, insert, lookup-insert}
use kessa.Credential.Data.{Credential}
use kessa.Env.{Env}
use kessa.Export.{CredentialRecord, CredentialSet, credential_id, add_record, add, has}

-- Whatever is found under an id carries that id, and its credential has it as its address.
abbrev pub IsAddressed : Env → CredentialSet → Type 0
IsAddressed env set =
    (id : Str) (rec : CredentialRecord)
    → lookup id set ≡ some rec
    → (rec.credential_id ≡ id) × (credential_id env rec.credential ≡ ok id)

module _ (env : Env) (set : CredentialSet) (c : Credential) (proof : Bytes) where
  -- Adding a credential keeps every record that was there, and leaves a record under the
  -- credential's own address.
  lookup-add_record :
      (id j : Str)
      → lookup j (add_record set id c proof) ≡ (
          if is_some (lookup id set)
          then lookup j set
          else if str_eq id j
          then some (record { credential_id = id; credential = c; issuer_proof = proof })
          else lookup j set)
  unfolding add_record
  lookup-add_record id j = by_presence (is_some (lookup id set))
    where
      by_presence :
          (b : Bool)
          → lookup j (
              if b
              then set
              else insert id
                  (record { credential_id = id; credential = c; issuer_proof = proof })
                  set)
            ≡ (if b
                then lookup j set
                else if str_eq id j
                then some (record { credential_id = id; credential = c; issuer_proof = proof })
                else lookup j set)
      by_presence true = refl
      by_presence false = lookup-insert id j _ set

  abbrev Added : Str → CredentialRecord
  Added id = record { credential_id = id; credential = c; issuer_proof = proof }

  found_in :
      (b s : Bool) (o : Option CredentialRecord) (id : Str) (rec : CredentialRecord)
      → (if b then o else if s then some (Added id) else o) ≡ some rec
      → (o ≡ some rec) ⊎ ((s ≡ true) × (Added id ≡ rec))
  found_in true s o id rec h = inl h
  found_in false true o id rec h = inr (refl, some_inj h)
  found_in false false o id rec h = inl h

  kept_in :
      (id j : Str) (rec : CredentialRecord)
      → lookup j set ≡ some rec
      → (if is_some (lookup id set)
          then lookup j set
          else if str_eq id j
          then some (Added id)
          else lookup j set)
        ≡ some rec
  kept_in id j rec h = by_cases (Bool-cases (str_eq id j))
    where
      by_cases :
          ((str_eq id j ≡ true) ⊎ (str_eq id j ≡ false))
          → (if is_some (lookup id set)
              then lookup j set
              else if str_eq id j
              then some (Added id)
              else lookup j set)
            ≡ some rec
      by_cases (inl same) =
          let there : is_some (lookup id set) ≡ true =
            ap (λ k. is_some (lookup k set)) ((str_eq_iff id j).0 same) ∙ ap is_some h in
          rw there h
      by_cases (inr other) = rw other (both (is_some (lookup id set)))
        where
          both : (b : Bool) → (if b then lookup j set else lookup j set) ≡ some rec
          both true = h
          both false = h

  there_after :
      (o : Option CredentialRecord) (s : Bool) (id : Str)
      → s ≡ true
      → is_some (if is_some o then o else if s then some (Added id) else o) ≡ true
  there_after (some x) s id h = refl
  there_after none true id h = refl
  there_after none false id h = cc

  -- `Add` keeps an addressed set addressed, keeps every record that the set had, and leaves the set
  -- with a record under the id that it returns, which is the address of the credential.
  pub add-IsAddressed :
      (set' : CredentialSet) (id : Str)
      → IsAddressed env set
      → add env set c proof ≡ ok (set', id)
      → IsAddressed env set'
        × (has set' id ≡ true)
        × (credential_id env c ≡ ok id)
        × ((j : Str) (rec : CredentialRecord) → lookup j set ≡ some rec → lookup j set' ≡ some rec)
  unfolding add has
  add-IsAddressed set' id addressed h =
      let (i, named, made) = >>=-eq-ok (credential_id env c) _ h in
      let ids : i ≡ id = ap (λ x. x.1) (ok_inj made) in
      let sets : add_record set id c proof ≡ set' =
        ap (λ k. add_record set k c proof) (sym ids) ∙ ap (λ x. x.0) (ok_inj made) in
      let address : credential_id env c ≡ ok id = named ∙ ap ok ids in
      subst
        (λ x.
          IsAddressed env x
          × (is_some (lookup id x) ≡ true)
          × (credential_id env c ≡ ok id)
          × ((j : Str) (rec : CredentialRecord) → lookup j set ≡ some rec → lookup j x ≡ some rec))
        sets
        (
          (λ j rec found.
              by_origin j rec address
                (found_in _ _ (lookup j set) id rec (sym (lookup-add_record id j) ∙ found))),
          ap is_some (lookup-add_record id id)
              ∙ there_after (lookup id set) (str_eq id id) id (str_eq_refl id),
          address,
          λ j rec found. lookup-add_record id j ∙ kept_in id j rec found,
        )
    where
      by_origin :
          (j : Str) (rec : CredentialRecord)
          → credential_id env c ≡ ok id
          → ((lookup j set ≡ some rec) ⊎ ((str_eq id j ≡ true) × (Added id ≡ rec)))
          → (rec.credential_id ≡ j) × (credential_id env rec.credential ≡ ok j)
      by_origin j rec address (inl found) = addressed j rec found
      by_origin j rec address (inr (same, made)) =
          let ids = (str_eq_iff id j).0 same in
          subst (λ x. (x.credential_id ≡ j) × (credential_id env x.credential ≡ ok j)) made
            (ids, address ∙ ap ok ids)

  pub add_ok :
      (id : Str)
      → credential_id env c ≡ ok id
      → add env set c proof ≡ ok (add_record set id c proof, id)
  unfolding add
  add_ok id named = rw named refl
