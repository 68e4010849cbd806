-- ===== src/Issuer.antt =====
-- cmd/issuer/publish.go: a chain that is minted from a specification, and the static root that is
-- published for it.
pub mod Minting
pub mod Revocation
pub mod Daemon
use kessa.Base.{
  ℕ, suc, zero, ◌==◌, leb, Bytes, Str, codes, str_eq, is_empty, length, Bool, true, false, not,
  ◌||◌, ◌&&◌, Option, none, some, List, [], ◌∷◌, ◌++◌, take, Result, ok, err, ◌>>=◌, ◌>>◌, guard,
  require, wrap, if◌then◌else◌,
}
use kessa.Base.Int.{ℤ, pos}
use kessa.Chain.{Link, Links, max_depth, sign_issuance}
use kessa.Credential.{create}
use kessa.Credential.Data.{Credential}
use kessa.Env.{Env}
use kessa.Errors.{Error}
use kessa.Export.{credential_id}
use kessa.Keys.{Signer}
use kessa.Keystore.{Seeds, Keystore, KeystoreError, signer_of}
use kessa.Macaroon.{Macaroon, Caveat, mint}
use kessa.Macaroon.Delegation.{attenuate_all}
use kessa.Status.{Reference, StatusList, new_list, set_bit, sign}
use kessa.Status.Publication.{PublicationError, ListCodec, publish_path, load}
use kessa.Status.Publication
use kessa.Types.{Did}
use kessa.Web.{Net}
use kessa.Web.DidWeb.{DidError, DocumentCodec, Files, new_document, write_document}
use kessa.Web.Disk.{Write, complete, not_opened, cut_off}
use kessa.Web.Paths.{FilePath}

pub record HopSpec : Type 0 where
  pub issuer : Did
  pub subject : Did
  pub caveats : List Caveat
  pub status_index : Option ℤ

pub record StatusSpec : Type 0 where
  pub url : Str
  pub issuer : Did
  -- A number that is not positive is raised to the floor, as 0 is.
  pub bits : ℕ

pub record Spec : Type 0 where
  pub root_key_hex : Str
  pub identifier : Str
  pub location : Str
  pub status : StatusSpec
  pub hops : List HopSpec
  pub extra_principals : List Did

pub data IssuerError : Type 0 where
  missing : Str → IssuerError
  too_many_hops needs_both delegates_to_itself not_continuous : ℕ → IssuerError
  no_key : KeystoreError → IssuerError
  unsupported_key root_key_not_hex : IssuerError
  document_failed : DidError → IssuerError
  hop_failed : ℕ → Error → IssuerError
  no_credential_id signing_failed index_refused : Error → IssuerError
  list_failed list_not_loaded : PublicationError → IssuerError
  chain_not_encoded chain_not_written : IssuerError

follows : Option HopSpec → Did → Bool
follows none issuer = true
follows (some h) issuer = str_eq issuer h.subject

unfoldable pub check_spec : ℕ → Option HopSpec → List HopSpec → Result IssuerError (Unit {0})
unfolding follows
check_spec i previous [] = ok tt
check_spec i previous (h ∷ hs) = do
  guard (not (is_empty h.issuer || is_empty h.subject)) (needs_both i)
  guard (not (str_eq h.issuer h.subject)) (delegates_to_itself i)
  guard (follows previous h.issuer) (not_continuous i)
  check_spec (suc i) (some h) hs

-- `Spec.validate`
unfoldable pub validate : Spec → Result IssuerError (Unit {0})
unfolding check_spec
validate s = do
  guard (not (is_empty s.root_key_hex)) (missing (codes "rootKeyHex"))
  guard (not (is_empty s.identifier)) (missing (codes "identifier"))
  guard (not (length s.hops == 0)) (missing (codes "hops"))
  guard (leb (length s.hops) max_depth) (too_many_hops (length s.hops))
  guard (not (is_empty s.status.url || is_empty s.status.issuer)) (missing (codes "status"))
  check_spec 0 none s.hops

contains : Did → List Did → Bool
contains d [] = false
contains d (e ∷ es) = str_eq e d || contains d es

-- `add` of `principals`: what is listed already serves as the set of what was seen.
add_principal : List Did → Did → List Did
unfolding contains
add_principal out d = if not (is_empty d) && not (contains d out) then out ++ d ∷ [] else out

add_principals : List Did → List Did → List Did
unfolding add_principal
add_principals out [] = out
add_principals out (d ∷ ds) = add_principals (add_principal out d) ds

ends : List HopSpec → List Did
ends [] = []
ends (h ∷ hs) = h.issuer ∷ h.subject ∷ ends hs

-- `Spec.principals`
unfoldable pub principals : Spec → List Did
unfolding ends add_principals
principals s = add_principals [] (ends s.hops ++ s.status.issuer ∷ s.extra_principals)

-- What the issuer works with: the standard library and the environment, the keys, encoding/json at
-- a chain, and what the disk does to the file of the chain.
pub record Tools : Type 0 where
  pub env : Env
  pub net : Net
  pub seeds : Seeds
  pub documents : DocumentCodec
  pub lists : ListCodec
  pub keys : Keystore
  pub encode_chain : Links → Option Bytes
  pub chain_write : Write

unfoldable pub key_of : Tools → Did → Result IssuerError Signer
key_of t d = wrap no_key (signer_of t.seeds t.keys d)

-- The document of one principal, beneath the root.
publish_document : Tools → Str → Did → Files → Result IssuerError (Files × FilePath)
publish_document t root d files = do
  s ← key_of t d
  doc ← require (new_document t.env.platform d s.public) unsupported_key
  wrap document_failed (write_document t.net t.documents files root doc)

-- After an error, the files that were written before it remain.
next_document :
    Files
    → (Files → Files × Result IssuerError (List FilePath))
    → Result IssuerError (Files × FilePath)
    → Files × Result IssuerError (List FilePath)
next_document files next (err x) = (files, err x)
next_document files next (ok (files', path)) =
    let (files'', rest) = next files' in (files'', do paths ← rest; ok (path ∷ paths))

unfoldable pub publish_documents :
    Tools → Str → List Did → Files → Files × Result IssuerError (List FilePath)
unfolding publish_document next_document
publish_documents t root [] files = (files, ok [])
publish_documents t root (d ∷ ds) files =
    next_document files (publish_documents t root ds) (publish_document t root d files)

unfoldable pub reference : Spec → HopSpec → Option ℤ → Reference
reference s h none = record { list_url = []; index = pos 0; issuer = [] }
reference s h (some i) = record {
  list_url = s.status.url;
  index = i;
  issuer = if not (str_eq s.status.issuer h.issuer) then s.status.issuer else [];
}

-- One turn of the loop that mints the chain: the running macaroon, the link and its identifier.
unfoldable pub mint_hop :
    Tools → Spec → ℕ → Macaroon → HopSpec → Result IssuerError (Macaroon × Link × Str)
mint_hop t s i m h = do
  m' ← wrap (hop_failed i) (attenuate_all t.env.platform m h.caveats)
  holder ← key_of t h.subject
  cred ← wrap (hop_failed i) (
      create t.env.platform (record {
        subject = h.subject;
        issuer = h.issuer;
        macaroon = m';
        holder_key = some holder.public;
        status_ref = reference s h h.status_index;
        vc_wrapper = none;
      }))
  issuer_signer ← key_of t h.issuer
  proof ← wrap (hop_failed i) (sign_issuance t.env issuer_signer cred)
  id ← wrap no_credential_id (credential_id t.env cred)
  ok (m', record { credential = cred; issuer_proof = proof }, id)

unfoldable pub mint_hops :
    Tools → Spec → ℕ → Macaroon → List HopSpec → Result IssuerError (Links × List Str)
unfolding mint_hop
mint_hops t s i m [] = ok ([], [])
mint_hops t s i m (h ∷ hs) = do
  made ← mint_hop t s i m h
  rest ← mint_hops t s (suc i) (made.0) hs
  ok (made.1 ∷ rest.0, made.2 ∷ rest.1)

unfoldable pub mint_chain : Tools → Spec → Result IssuerError (Links × List Str)
unfolding mint_hops
mint_chain t s = do
  root_key ← require (t.seeds.decode_hex s.root_key_hex) root_key_not_hex
  mint_hops t s 0 (mint t.env.platform root_key s.identifier s.location) s.hops

-- `StatusList.Sign`; a list that was not signed is not used.
unfoldable pub sign_list : Signer → StatusList → Result IssuerError StatusList
sign_list s l = let (signed, done) = sign s l in do wrap signing_failed done; ok signed

unfoldable pub publish_list :
    Tools → Spec → Str → StatusList → Files → Result IssuerError (Files × FilePath)
publish_list t s root l files = do
  signer ← key_of t s.status.issuer
  signed ← sign_list signer l
  wrap list_failed (Publication.publish t.env.platform t.net t.lists signed root s.status.url files)

-- `Result`
pub record Outcome : Type 0 where
  pub did_docs : List FilePath
  pub status_path : FilePath
  pub links : Links
  pub credential_ids : List Str

-- What publication changes: the files beneath the root, and the file of the chain outside it.
pub record World : Type 0 where
  pub files : Files
  pub chain_out : Option Bytes

written_chain :
    World
    → Files
    → List FilePath
    → FilePath
    → Links × List Str
    → Bytes
    → Write
    → World × Result IssuerError Outcome
written_chain w files docs path minted data_ complete = (
  record { files = files; chain_out = some data_ },
  ok (record { did_docs = docs; status_path = path; links = minted.0; credential_ids = minted.1 }),
)
written_chain w files docs path minted data_ not_opened =
    (record w { files = files }, err chain_not_written)
written_chain w files docs path minted data_ (cut_off n) =
    (record { files = files; chain_out = some (take n data_) }, err chain_not_written)

-- The end of `publish`: the chain is written outside the public root.
write_chain :
    Tools
    → World
    → Files
    → List FilePath
    → FilePath
    → Links × List Str
    → Option Bytes
    → World × Result IssuerError Outcome
unfolding written_chain
write_chain t w files docs path minted none = (record w { files = files }, err chain_not_encoded)
write_chain t w files docs path minted (some data_) =
    written_chain w files docs path minted (data_ ++ 10 ∷ []) t.chain_write

after_list :
    Tools
    → World
    → List FilePath
    → Links × List Str
    → Result IssuerError (Files × FilePath)
    → World × Result IssuerError Outcome
unfolding write_chain
after_list t w docs minted (err x) = (w, err x)
after_list t w docs minted (ok (files, path)) =
    write_chain t w files docs path minted (t.encode_chain minted.0)

after_mint :
    Tools
    → Spec
    → Str
    → World
    → List FilePath
    → Result IssuerError (Links × List Str)
    → World × Result IssuerError Outcome
unfolding after_list
after_mint t s root w docs (err x) = (w, err x)
after_mint t s root w docs (ok minted) =
    after_list t w docs minted (publish_list t s root (new_list s.status.bits) w.files)

after_documents :
    Tools
    → Spec
    → Str
    → World
    → Result IssuerError (List FilePath)
    → World × Result IssuerError Outcome
unfolding after_mint
after_documents t s root w (err x) = (w, err x)
after_documents t s root w (ok docs) = after_mint t s root w docs (mint_chain t s)

after_validate :
    Tools → Spec → Str → World → Result IssuerError (Unit {0}) → World × Result IssuerError Outcome
unfolding after_documents
after_validate t s root w (err x) = (w, err x)
after_validate t s root w (ok a) =
    let (files, docs) = publish_documents t root (principals s) w.files in
    after_documents t s root (record w { files = files }) docs

-- `publish`, where the file system does as it is told beneath the root.
unfoldable pub publish : Tools → Spec → Str → World → World × Result IssuerError Outcome
unfolding after_validate
publish t s root w = after_validate t s root w (validate s)

-- The list that `revoke` writes: the bit is changed and the list signed again.
unfoldable pub revoked_list : Tools → Spec → ℤ → Bool → StatusList → Result IssuerError StatusList
revoked_list t s index clear l = do
  l' ← wrap index_refused (set_bit l index (not clear))
  signer ← key_of t s.status.issuer
  sign_list signer l'

-- `revoke`, with the files that it leaves.
unfoldable pub revoke :
    Tools → Spec → Str → ℤ → Bool → Files → Result IssuerError (Files × FilePath)
revoke t s root index clear files = do
  validate s
  path ← wrap list_failed (publish_path t.net root s.status.url)
  l ← wrap list_not_loaded (load t.env.platform t.lists files path)
  signed ← revoked_list t s index clear l
  wrap list_failed (Publication.publish t.env.platform t.net t.lists signed root s.status.url files)
