-- ===== src/Enroll/Order.antt =====
-- What an enrolment has complete when it ends.
use kessa.Base.{
  ℕ, ◌≡◌, refl, Bytes, Str, str_eq, is_empty, take, Bool, true, false, not, ◌&&◌, if◌then◌else◌,
  Option, none, some, [], ◌∷◌, ◌++◌, Result, ok, err, if_cases,
}
use kessa.Base.Int.{ℤ}
use kessa.Chain.{Link, Links}
use kessa.Enroll.{
  Config, World, StandingKey, no_key, undescribed, described, Provision, not_made, not_described,
  provided, Outside, KeyInfo, Mapping, EnrollError, key_failed, not_confirmed, mint_failed,
  unsupported_key, no_document_path, document_not_written, credential_not_written,
  mapping_not_saved, preflight, mint_credential, device, add_credential, backend_secure_enclave,
  cleanup_device_key, fail, save_mapping, record_device, written_chain, write_chain, hand_out,
  after_mint, written_document, located_document, made_document, after_document, publish, after_key,
  after_preflight, enroll,
}
use kessa.Env.{Env}
use kessa.Errors.{Error}
use kessa.Export.{credential_id}
use kessa.Keys.{Key, Document}
use kessa.Web.{Net}
use kessa.Web.DidWeb.{DidError, Files, DocumentCodec, new_document, write_document, write_file}
use kessa.Web.Disk.{Write, complete, not_opened, cut_off}
use kessa.Web.Paths.{FilePath}

-- What the clean-up leaves: nothing, or a key of the secure element that could not be deleted.
pub data IsCleared (o : Outside) (k : KeyInfo) : StandingKey → Type 0 where
  torn_down : IsCleared o k no_key
  not_deleted :
      str_eq k.backend backend_secure_enclave ≡ true
      → o.deletes_key ≡ false
      → IsCleared o k (described k)

cleanup_device_key-IsCleared : (o : Outside) (k : KeyInfo) → IsCleared o k (cleanup_device_key o k)
unfolding cleanup_device_key
cleanup_device_key-IsCleared o k =
    by_test (str_eq k.backend backend_secure_enclave) refl (not (is_empty k.tag)) o.deletes_key refl
  where
    by_test :
        (a : Bool)
        → str_eq k.backend backend_secure_enclave ≡ a
        → (b c : Bool) → o.deletes_key ≡ c
        → IsCleared o k (if a && (b && not c) then described k else no_key)
    by_test false enclave b c deletes = torn_down
    by_test true enclave false c deletes = torn_down
    by_test true enclave true true deletes = torn_down
    by_test true enclave true false deletes = not_deleted enclave deletes

module _ (env : Env) (net : Net) (codec : DocumentCodec) (o : Outside) (c : Config) (now : ℤ)
    (w : World) where
  -- The device's document, where it goes, and the files with it.
  pub record IsLocated (key : Key) (doc : Document) (path : FilePath) (whole : Files) : Type 0 where
    pub described_by : new_document env.platform c.device_did key ≡ some doc
    pub located : write_document net codec w.files c.root doc ≡ ok (whole, path)

  -- The files are as they were, but for a document that was cut off.
  pub data IsTorn (key : Key) : Files → Type 0 where
    as_before : IsTorn key w.files
    cut_document :
        {doc : Document} {path : FilePath} {whole : Files} (n : ℕ)
        → IsLocated key doc path whole
        → IsTorn key (write_file w.files path (take n (codec.encode doc ++ 10 ∷ [])))

  -- Every check had passed, and a key was made.
  pub record IsMade (key : Key) (k : KeyInfo) : Type 0 where
    pub checked : preflight env net codec o c w ≡ ok tt
    pub made : o.provision c.device_did ≡ provided key k

  -- And the operator confirmed it, and its document was published.
  pub record IsConfirmed (key : Key) (k : KeyInfo) (files : Files) : Type 0 where
    pub begun : IsMade key k
    pub confirmed : o.confirm k ≡ true
    pub document : Document
    pub path : FilePath
    pub published : IsLocated key document path files

  -- And a credential was minted, whose chain is this file.
  pub record IsMinted (key : Key) (l : Link) (id : Str) (data_ : Bytes) : Type 0 where
    pub minted : mint_credential env c key ≡ ok l
    pub named : credential_id env l.credential ≡ ok id
    pub encoded : o.encode_chain (l ∷ []) ≡ some data_

  -- The file of the credential is as it was, or holds all or the first part of the minted one.
  pub data IsHanded (key : Key) : Option Bytes → Type 0 where
    as_before : IsHanded key w.credential
    in_part :
        {l : Link} {id : Str} {data_ : Bytes} (n : ℕ)
        → IsMinted key l id data_
        → IsHanded key (some (take n (data_ ++ 10 ∷ [])))
    in_full :
        {l : Link} {id : Str} {data_ : Bytes}
        → IsMinted key l id data_
        → IsHanded key (some (data_ ++ 10 ∷ []))

  -- The ways in which the ceremony ends.
  pub data IsCeremony : World × Result EnrollError Links → Type 0 where
    rejected : (x : EnrollError) → preflight env net codec o c w ≡ err x → IsCeremony (w, err x)
    without_key :
        preflight env net codec o c w ≡ ok tt
        → o.provision c.device_did ≡ not_made
        → IsCeremony (w, err key_failed)
    left_behind :
        preflight env net codec o c w ≡ ok tt
        → o.provision c.device_did ≡ not_described
        → IsCeremony (record w { device_key = undescribed }, err key_failed)
    unpublished :
        {key : Key} {k : KeyInfo} {files : Files} {standing : StandingKey} (x : EnrollError)
        → IsMade key k
        → (o.confirm k ≡ false → files ≡ w.files)
        → IsTorn key files
        → IsCleared o k standing
        → IsCeremony (record w { files = files; device_key = standing }, err x)
    abandoned :
        {key : Key} {k : KeyInfo} {files : Files} {credential : Option Bytes}
        {standing : StandingKey} (x : EnrollError)
        → IsConfirmed key k files
        → IsHanded key credential
        → IsCleared o k standing
        → IsCeremony (
          record {
            mapping = w.mapping;
            files = files;
            credential = credential;
            device_key = standing;
          },
          err x,
        )
    enrolled :
        {key : Key} {k : KeyInfo} {files : Files} (l : Link) (id : Str) (data_ : Bytes)
        (m : Mapping)
        → IsConfirmed key k files
        → IsMinted key l id data_
        → add_credential w.mapping c.identity (device c k id now) ≡ ok m
        → IsCeremony (
          record {
            mapping = m;
            files = files;
            credential = some (data_ ++ 10 ∷ []);
            device_key = described k;
          },
          ok (l ∷ []),
        )

  module _ {key : Key} {k : KeyInfo} {files : Files} (ready : IsConfirmed key k files) where
    abbrev confirmed_world : World
    confirmed_world = record {
      mapping = w.mapping;
      files = files;
      credential = w.credential;
      device_key = described k;
    }

    given_up :
        {credential : Option Bytes} (x : EnrollError)
        → IsHanded key credential
        → IsCeremony (fail o k (record confirmed_world { credential = credential }) x)
    unfolding fail
    given_up x handed = abandoned x ready handed (cleanup_device_key-IsCleared o k)

    save_mapping-IsCeremony :
        (l : Link) (id : Str) (data_ : Bytes) (m : Result EnrollError Mapping)
        → IsMinted key l id data_
        → add_credential w.mapping c.identity (device c k id now) ≡ m
        → IsCeremony (
            save_mapping o k
              (record confirmed_world { credential = some (data_ ++ 10 ∷ []) })
              (l ∷ [])
              m)
    unfolding save_mapping
    save_mapping-IsCeremony l id data_ (err x) minted added = given_up x (in_full minted)
    save_mapping-IsCeremony l id data_ (ok m) minted added =
        if_cases IsCeremony o.writes_mapping (λ _. enrolled l id data_ m ready minted added)
          (λ _. given_up mapping_not_saved (in_full minted))

    written_chain-IsCeremony :
        (l : Link) (id : Str) (data_ : Bytes) (disk : Write)
        → IsMinted key l id data_
        → IsCeremony (written_chain o c k now confirmed_world (l ∷ []) id (data_ ++ 10 ∷ []) disk)
    unfolding written_chain record_device
    written_chain-IsCeremony l id data_ complete minted =
        save_mapping-IsCeremony l id data_ _ minted refl
    written_chain-IsCeremony l id data_ not_opened minted =
        given_up credential_not_written as_before
    written_chain-IsCeremony l id data_ (cut_off n) minted =
        given_up credential_not_written (in_part n minted)

    write_chain-IsCeremony :
        (l : Link) (id : Str) (bytes : Option Bytes)
        → mint_credential env c key ≡ ok l
        → credential_id env l.credential ≡ ok id
        → o.encode_chain (l ∷ []) ≡ bytes
        → IsCeremony (write_chain o c k now confirmed_world (l ∷ []) id bytes)
    unfolding write_chain
    write_chain-IsCeremony l id none minted named encoded =
        given_up credential_not_written as_before
    write_chain-IsCeremony l id (some data_) minted named encoded =
        written_chain-IsCeremony l id data_ o.credential_write
          (record { minted = minted; named = named; encoded = encoded })

    hand_out-IsCeremony :
        (l : Link) (r : Result Error Str)
        → mint_credential env c key ≡ ok l
        → credential_id env l.credential ≡ r
        → IsCeremony (hand_out o c k now confirmed_world (l ∷ []) r)
    unfolding hand_out
    hand_out-IsCeremony l (err x) minted named = given_up (mint_failed x) as_before
    hand_out-IsCeremony l (ok id) minted named = write_chain-IsCeremony l id _ minted named refl

    after_mint-IsCeremony :
        (r : Result Error Link)
        → mint_credential env c key ≡ r
        → IsCeremony (after_mint env o c k now confirmed_world r)
    unfolding after_mint
    after_mint-IsCeremony (err x) minted = given_up (mint_failed x) as_before
    after_mint-IsCeremony (ok l) minted = hand_out-IsCeremony l _ minted refl

  module _ {key : Key} {k : KeyInfo} (begun : IsMade key k) where
    turned_down :
        {files : Files} (x : EnrollError)
        → (o.confirm k ≡ false → files ≡ w.files)
        → IsTorn key files
        → IsCeremony (fail o k (record w { files = files; device_key = described k }) x)
    unfolding fail
    turned_down x declined torn =
        unpublished x begun declined torn (cleanup_device_key-IsCleared o k)

    module _ (agreed : o.confirm k ≡ true) where
      not_declined : {A : Type 0} → o.confirm k ≡ false → A
      not_declined declined = absurd (cc)

      written_document-IsCeremony :
          (doc : Document) (whole : Files) (path : FilePath) (disk : Write)
          → IsLocated key doc path whole
          → IsCeremony (
              after_document env o c key k now
                (record w { device_key = described k })
                (written_document codec w.files doc (whole, path) disk))
      unfolding written_document after_document
      written_document-IsCeremony doc whole path complete located =
          after_mint-IsCeremony
            (record {
              begun = begun;
              confirmed = agreed;
              document = doc;
              path = path;
              published = located;
            })
            (mint_credential env c key) refl
      written_document-IsCeremony doc whole path not_opened located =
          turned_down document_not_written not_declined as_before
      written_document-IsCeremony doc whole path (cut_off n) located =
          turned_down document_not_written not_declined (cut_document n located)

      located_document-IsCeremony :
          (doc : Document) (r : Result DidError (Files × FilePath))
          → new_document env.platform c.device_did key ≡ some doc
          → write_document net codec w.files c.root doc ≡ r
          → IsCeremony (
              after_document env o c key k now
                (record w { device_key = described k })
                (located_document codec o w.files doc r))
      unfolding located_document after_document
      located_document-IsCeremony doc (err x) made located =
          turned_down (no_document_path x) not_declined as_before
      located_document-IsCeremony doc (ok (whole, path)) made located =
          written_document-IsCeremony doc whole path o.document_write
            (record { described_by = made; located = located })

      made_document-IsCeremony :
          (r : Option Document)
          → new_document env.platform c.device_did key ≡ r
          → IsCeremony (
              after_document env o c key k now
                (record w { device_key = described k })
                (made_document net codec o c w.files r))
      unfolding made_document after_document
      made_document-IsCeremony none made = turned_down unsupported_key not_declined as_before
      made_document-IsCeremony (some doc) made = located_document-IsCeremony doc _ made refl

  after_key-IsCeremony :
      (p : Provision)
      → preflight env net codec o c w ≡ ok tt
      → o.provision c.device_did ≡ p
      → IsCeremony (after_key env net codec o c now w p)
  unfolding after_key publish
  after_key-IsCeremony not_made checked e = without_key checked e
  after_key-IsCeremony not_described checked e = left_behind checked e
  after_key-IsCeremony (provided key k) checked e =
      let begun : IsMade key k = record { checked = checked; made = e } in
      if_cases IsCeremony (o.confirm k) (λ agreed. made_document-IsCeremony begun agreed _ refl)
        (λ _. turned_down begun not_confirmed (λ _. refl) as_before)

  after_preflight-IsCeremony :
      (r : Result EnrollError (Unit {0}))
      → preflight env net codec o c w ≡ r
      → IsCeremony (after_preflight env net codec o c now w r)
  unfolding after_preflight
  after_preflight-IsCeremony (err x) e = rejected x e
  after_preflight-IsCeremony (ok a) e = after_key-IsCeremony (o.provision c.device_did) e refl

  -- An enrolment ends in one of five ways: nothing has changed, since a check failed or no key was
  -- made; every check had passed, and only a key that was made but could not be described is left
  -- behind; every check had passed and a key was made, but it was declined, and then no file has
  -- changed, or its document was not published, and then at most a document that was cut off stands
  -- at its path; the document of the confirmed key is published but the map is as it was, and the
  -- file of the credential is as it was or holds all or the first part of the minted chain; or the
  -- credential was minted and written and the map has its device. In the third and the fourth way
  -- the key is torn down, unless it is in the secure element and its deletion fails.
  pub enroll-IsCeremony : IsCeremony (enroll env net codec o c now w)
  unfolding enroll
  enroll-IsCeremony = after_preflight-IsCeremony (preflight env net codec o c w) refl
