-- ===== src/Enroll.antt =====
-- internal/enroll: the ceremony that registers a device key, and the map from people to devices.
pub mod Devices
pub mod Uniqueness
pub mod Order
use kessa.Base.{
  ℕ, ◌==◌, Bytes, Str, codes, str_eq, is_empty, length, Bool, true, false, not, ◌&&◌, ◌||◌, Option,
  none, some, List, [], ◌∷◌, ◌++◌, take, Result, ok, err, ◌>>=◌, ◌>>◌, guard, wrap, if◌then◌else◌,
}
use kessa.Base.Dict.{Dict, lookup, insert}
use kessa.Base.Int.{ℤ, pos, ltb_ℤ}
use kessa.Chain.{Link, Links, sign_issuance}
use kessa.Credential.{create}
use kessa.Credential.Data.{Credential}
use kessa.Env.{Env}
use kessa.Errors.{Error}
use kessa.Export.{credential_id}
use kessa.Keys.{Key, Signer, Document, Resolver, resolve_key}
use kessa.Macaroon.{Macaroon, Caveat, mint}
use kessa.Macaroon.Delegation.{attenuate_all}
use kessa.Types.{Did}
use kessa.Web.{Net}
use kessa.Web.Disk.{Write, complete, not_opened, cut_off}
use kessa.Web.Paths.{FilePath}
use kessa.Web.DidWeb.{
  DidError, Files, DocumentCodec, new_document, write_document, write_file, resolve_file,
}
unfoldable pub use Devices.*

-- `KeyInfo`
pub record KeyInfo : Type 0 where
  pub algorithm : Str
  pub fingerprint : Str
  pub backend : Str
  pub tag : Str

-- `Config`; the paths of its outputs are in the world that the ceremony changes.
pub record Config : Type 0 where
  pub identity : Str
  pub device_did : Did
  pub org_did : Did
  pub org_signer : Signer
  pub root_key : Bytes
  pub identifier : Str
  pub location : Str
  pub caveats : List Caveat
  pub status_url : Str
  pub status_index : ℤ
  pub root : Str
  pub resolver : Option Resolver

-- A key that stands when the ceremony ends: none, one that was made but could not be described, or
-- one that was.
pub data StandingKey : Type 0 where
  no_key undescribed : StandingKey
  described : KeyInfo → StandingKey

-- What the ceremony changes: the map, the published files, the file of the credential, and the key.
pub record World : Type 0 where
  pub mapping : Mapping
  pub files : Files
  pub credential : Option Bytes
  pub device_key : StandingKey

-- What `ProvisionDeviceKey` comes to. A key of the secure element that could not be described is
-- not deleted.
pub data Provision : Type 0 where
  not_made not_described : Provision
  provided : Key → KeyInfo → Provision

-- What the outside does: the key generator, the operator, the deletion of a key, encoding/json at a
-- chain, and the disk. The map loads or not, and it is renamed into place, so that it is written or
-- not.
pub record Outside : Type 0 where
  pub provision : Did → Provision
  pub confirm : KeyInfo → Bool
  pub deletes_key : Bool
  pub encode_chain : Links → Option Bytes
  pub document_write : Write
  pub credential_write : Write
  pub loads_mapping : Bool
  pub writes_mapping : Bool

-- `validate`, of what is not fixed by the types
unfoldable pub validate : Config → Result EnrollError (Unit {0})
validate c = do
  guard (not (is_empty c.identity)) (missing_field (codes "identity"))
  guard (not (is_empty c.device_did)) (missing_field (codes "device DID"))
  guard (not (is_empty c.org_did)) (missing_field (codes "org DID"))
  guard (str_eq c.org_signer.did c.org_did) signer_mismatch
  guard (not (str_eq c.device_did c.org_did)) same_did
  guard (not (length c.root_key == 0)) (missing_field (codes "macaroon root key"))
  guard (not (is_empty c.identifier)) (missing_field (codes "macaroon identifier"))
  guard (not (is_empty c.status_url)) (missing_field (codes "status URL"))
  guard (not (ltb_ℤ c.status_index (pos 0))) (missing_field (codes "status index"))
  guard (not (is_empty c.root)) (missing_field (codes "publication root"))

file_document : Result DidError Document → Result Error Document
file_document (ok d) = ok d
file_document (err x) = err Error.no_document

-- The resolver of the preflight: the given one, or the files beneath the root.
resolver_of : Net → DocumentCodec → Files → Config → Option Resolver → Resolver
unfolding file_document
resolver_of net codec files c (some r) = r
resolver_of net codec files c none = λ did. file_document (resolve_file net codec files c.root did)

-- The checks in front of the first side effect.
unfoldable pub preflight :
    Env → Net → DocumentCodec → Outside → Config → World → Result EnrollError (Unit {0})
unfolding resolver_of not_registered
preflight env net codec o c w = do
  validate c
  _ ←
      wrap org_unresolved
        (resolve_key env.platform (resolver_of net codec w.files c c.resolver) c.org_did)
  guard o.loads_mapping mapping_not_loaded
  not_registered (find_by_did c.device_did w.mapping)

-- `mintCredential`
unfoldable pub mint_credential : Env → Config → Key → Result Error Link
mint_credential env c key = do
  m ← attenuate_all env.platform (mint env.platform c.root_key c.identifier c.location) c.caveats
  cred ← create env.platform (record {
    subject = c.device_did;
    issuer = c.org_did;
    macaroon = m;
    holder_key = some key;
    status_ref = record { list_url = c.status_url; index = c.status_index; issuer = [] };
    vc_wrapper = none;
  })
  proof ← sign_issuance env c.org_signer cred
  ok (record { credential = cred; issuer_proof = proof })

unfoldable pub device : Config → KeyInfo → Str → ℤ → Device
device c k id now = record {
  did = c.device_did;
  credential_id = id;
  status_url = c.status_url;
  status_index = c.status_index;
  fingerprint = k.fingerprint;
  backend = k.backend;
  tag = k.tag;
  algorithm = k.algorithm;
  enrolled_at = now;
  revoked = false;
}

abbrev pub backend_secure_enclave : Str
backend_secure_enclave = codes "secure-enclave"

-- `cleanupDeviceKey`: a key of the secure element stands where it is not deleted.
unfoldable pub cleanup_device_key : Outside → KeyInfo → StandingKey
cleanup_device_key o k =
    if str_eq k.backend backend_secure_enclave && (not (is_empty k.tag) && not o.deletes_key)
    then described k
    else no_key

-- A return with an error when the key is made, and the deferred clean-up.
fail : Outside → KeyInfo → World → EnrollError → World × Result EnrollError Links
fail o k w x = (record w { device_key = cleanup_device_key o k }, err x)

save_mapping :
    Outside
    → KeyInfo
    → World
    → Links
    → Result EnrollError Mapping
    → World × Result EnrollError Links
unfolding fail
save_mapping o k w ls (err x) = fail o k w x
save_mapping o k w ls (ok m) =
    if o.writes_mapping then (record w { mapping = m }, ok ls) else fail o k w mapping_not_saved

record_device :
    Outside → Config → KeyInfo → ℤ → World → Links → Str → World × Result EnrollError Links
unfolding save_mapping
record_device o c k now w ls id =
    save_mapping o k w ls (add_credential w.mapping c.identity (device c k id now))

written_chain :
    Outside
    → Config
    → KeyInfo
    → ℤ
    → World
    → Links
    → Str
    → Bytes
    → Write
    → World × Result EnrollError Links
unfolding record_device
written_chain o c k now w ls id data_ complete =
    record_device o c k now (record w { credential = some data_ }) ls id
written_chain o c k now w ls id data_ not_opened = fail o k w credential_not_written
written_chain o c k now w ls id data_ (cut_off n) =
    fail o k (record w { credential = some (take n data_) }) credential_not_written

-- `writeChain`, and what follows it
write_chain :
    Outside
    → Config
    → KeyInfo
    → ℤ
    → World
    → Links
    → Str
    → Option Bytes
    → World × Result EnrollError Links
unfolding written_chain
write_chain o c k now w ls id none = fail o k w credential_not_written
write_chain o c k now w ls id (some data_) =
    written_chain o c k now w ls id (data_ ++ 10 ∷ []) o.credential_write

hand_out :
    Outside
    → Config
    → KeyInfo
    → ℤ
    → World
    → Links
    → Result Error Str
    → World × Result EnrollError Links
unfolding write_chain
hand_out o c k now w ls (err x) = fail o k w (mint_failed x)
hand_out o c k now w ls (ok id) = write_chain o c k now w ls id (o.encode_chain ls)

after_mint :
    Env
    → Outside
    → Config
    → KeyInfo
    → ℤ
    → World
    → Result Error Link
    → World × Result EnrollError Links
unfolding hand_out
after_mint env o c k now w (err x) = fail o k w (mint_failed x)
after_mint env o c k now w (ok l) = hand_out o c k now w (l ∷ []) (credential_id env l.credential)

-- The files when the document is written to its path, and whether it was.
pub written_document :
    DocumentCodec
    → Files
    → Document
    → Files × FilePath
    → Write
    → Files × Result EnrollError (Unit {0})
written_document codec files doc whole complete = (whole.0, ok tt)
written_document codec files doc whole not_opened = (files, err document_not_written)
written_document codec files doc whole (cut_off n) =
    (write_file files whole.1 (take n (codec.encode doc ++ 10 ∷ [])), err document_not_written)

located_document :
    DocumentCodec
    → Outside
    → Files
    → Document
    → Result DidError (Files × FilePath)
    → Files × Result EnrollError (Unit {0})
unfolding written_document
located_document codec o files doc (err x) = (files, err (no_document_path x))
located_document codec o files doc (ok whole) =
    written_document codec files doc whole o.document_write

made_document :
    Net
    → DocumentCodec
    → Outside
    → Config
    → Files
    → Option Document
    → Files × Result EnrollError (Unit {0})
unfolding located_document
made_document net codec o c files none = (files, err unsupported_key)
made_document net codec o c files (some doc) =
    located_document codec o files doc (write_document net codec files c.root doc)

-- The publication of the document of the device's key.
pub publish :
    Env
    → Net
    → DocumentCodec
    → Outside
    → Config
    → Key
    → Files
    → Files × Result EnrollError (Unit {0})
unfolding made_document
publish env net codec o c key files =
    made_document net codec o c files (new_document env.platform c.device_did key)

after_document :
    Env
    → Outside
    → Config
    → Key
    → KeyInfo
    → ℤ
    → World
    → Files × Result EnrollError (Unit {0})
    → World × Result EnrollError Links
unfolding after_mint
after_document env o c key k now w (files, err x) = fail o k (record w { files = files }) x
after_document env o c key k now w (files, ok a) =
    after_mint env o c k now (record w { files = files }) (mint_credential env c key)

after_key :
    Env
    → Net
    → DocumentCodec
    → Outside
    → Config
    → ℤ
    → World
    → Provision
    → World × Result EnrollError Links
unfolding after_document publish
after_key env net codec o c now w not_made = (w, err key_failed)
after_key env net codec o c now w not_described =
    (record w { device_key = undescribed }, err key_failed)
after_key env net codec o c now w (provided key k) =
    let started : World = record w { device_key = described k } in
    if o.confirm k
    then after_document env o c key k now started (publish env net codec o c key w.files)
    else fail o k started not_confirmed

after_preflight :
    Env
    → Net
    → DocumentCodec
    → Outside
    → Config
    → ℤ
    → World
    → Result EnrollError (Unit {0})
    → World × Result EnrollError Links
unfolding after_key
after_preflight env net codec o c now w (err x) = (w, err x)
after_preflight env net codec o c now w (ok a) =
    after_key env net codec o c now w (o.provision c.device_did)

-- `Enroll`
unfoldable pub enroll :
    Env → Net → DocumentCodec → Outside → Config → ℤ → World → World × Result EnrollError Links
unfolding after_preflight
enroll env net codec o c now w =
    after_preflight env net codec o c now w (preflight env net codec o c w)
