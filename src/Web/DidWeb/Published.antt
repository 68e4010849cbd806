-- ===== src/Web/DidWeb/Published.antt =====
-- Documents that are written beneath a root and resolved from it.
use kessa.Base.{
  ◌≡◌, refl, sym, ap, ap₂, ◌∙◌, subst, Bytes, Str, codes, str_eq, str_eq_refl, Bool, true, false,
  Option, none, some, List, [], ◌∷◌, ◌++◌, ok, ◌>>=◌, require, >>=-eq-ok, ok_inj, some_inj,
  if◌then◌else◌,
}
use kessa.Keys.{Key, Jwk, Document, VerificationMethod, to_jwk, method_key, first_key}
use kessa.Keys.Encoding.{IsSupported, DecodesBase64, public_key-to_jwk}
use kessa.Platform.{Platform}
use kessa.Types.{Did}
use kessa.Web.{Net, has_byte}
use kessa.Web.Paths.{FilePath}
use kessa.Web.DidWeb.{
  no_file, with_method, new_document, wanted, find_method, document_key, Files, same_bool,
  same_parts, path_eq, write_file, DocumentCodec, parse_document, document_path, resolve_file,
  write_document,
}

-- A document is read back from what is written for it.
abbrev pub ReadsBack : DocumentCodec → Document → Type 0
ReadsBack codec d = codec.decode (codec.encode d ++ 10 ∷ []) ≡ some d

same_bool_refl : (b : Bool) → same_bool b b ≡ true
unfolding same_bool
same_bool_refl true = refl
same_bool_refl false = refl

same_parts_refl : (cs : List Str) → same_parts cs cs ≡ true
unfolding same_parts
same_parts_refl [] = refl
same_parts_refl (c ∷ cs) = rw (str_eq_refl c) (same_parts_refl cs)

pub path_eq_refl : (path : FilePath) → path_eq path path ≡ true
unfolding path_eq
path_eq_refl path = rw (same_bool_refl path.rooted) (same_parts_refl path.parts)

-- Where a file is written, it is read; elsewhere everything is as it was.
write_file-at :
    (files : Files) (path q : FilePath) (bytes : Bytes)
    → write_file files path bytes q ≡ (if path_eq path q then some bytes else files q)
unfolding write_file
write_file-at files path q bytes = refl

module _ (net : Net) (codec : DocumentCodec) (files : Files) (root : Str) where
  resolve_file-at :
      (did : Did) (path : FilePath) (fs : Files)
      → document_path net root did ≡ ok path
      → resolve_file net codec fs root did
        ≡ (require (fs path) no_file >>= λ bytes. parse_document did (codec.decode bytes))
  unfolding resolve_file
  resolve_file-at did path fs h =
      ap
        (λ m.
          m >>= λ q. require (fs q) no_file >>= λ bytes. parse_document did (codec.decode bytes))
        h

  parse_document-written :
      (doc : Document)
      → ReadsBack codec doc
      → parse_document doc.id (codec.decode (codec.encode doc ++ 10 ∷ [])) ≡ ok doc
  unfolding parse_document
  parse_document-written doc reads = rw reads (rw (str_eq_refl doc.id) refl)

  resolve_file-written :
      (doc : Document) (path : FilePath)
      → ReadsBack codec doc
      → document_path net root doc.id ≡ ok path
      → resolve_file net codec (write_file files path (codec.encode doc ++ 10 ∷ [])) root doc.id
        ≡ ok doc
  unfolding write_file
  resolve_file-written doc path reads h =
      resolve_file-at doc.id path _ h ∙ rw (path_eq_refl path) (parse_document-written doc reads)

  resolve_file-elsewhere :
      (path q : FilePath) (bytes : Bytes) (other : Did)
      → document_path net root other ≡ ok q
      → path_eq path q ≡ false
      → resolve_file net codec (write_file files path bytes) root other
        ≡ resolve_file net codec files root other
  unfolding write_file
  resolve_file-elsewhere path q bytes other h differ =
      resolve_file-at other q _ h ∙ rw differ (sym (resolve_file-at other q files h))

find_method-here :
    (p : Platform) (m : VerificationMethod) (ms : List VerificationMethod) (id : Str)
    → str_eq m.id id ≡ true
    → find_method p id (m ∷ ms) ≡ method_key p m.jwk
unfolding find_method
find_method-here p m ms id h = rw h refl

module _ (p : Platform) (decodes : DecodesBase64 p) (did : Did) (key : Key) where
  -- Every way of naming the one key of a new document finds it.
  new_document-keys :
      (doc : Document)
      → IsSupported p key
      → new_document p did key ≡ some doc
      → (doc.id ≡ did)
        × (first_key p doc ≡ ok key)
        × (document_key p doc (codes "key-1") ≡ ok key)
        × (document_key p doc (codes "#key-1") ≡ ok key)
  unfolding new_document with_method first_key method_key document_key find_method wanted has_byte
  new_document-keys doc supported h = by_jwk (to_jwk p key) refl h
    where
      by_jwk :
          (o : Option Jwk)
          → to_jwk p key ≡ o
          → with_method did o ≡ some doc
          → (doc.id ≡ did)
            × (first_key p doc ≡ ok key)
            × (document_key p doc (codes "key-1") ≡ ok key)
            × (document_key p doc (codes "#key-1") ≡ ok key)
      by_jwk none e h = cc
      by_jwk (some j) e h =
          let found = public_key-to_jwk p decodes key j supported e in
          let m : VerificationMethod = record { id = did ++ codes "#key-1"; jwk = some j } in
          let named = find_method-here p m [] m.id (str_eq_refl m.id) ∙ found in
          subst
            (λ d.
              (d.id ≡ did)
              × (first_key p d ≡ ok key)
              × (document_key p d (codes "key-1") ≡ ok key)
              × (document_key p d (codes "#key-1") ≡ ok key))
            (some_inj h) (refl, found, named, named)

-- A new document that is written beneath a root is what the file resolver reads there, its key is
-- found as the first one and by its name with or without the sign, and what is resolved from every
-- other path is as before. The codec has to read the document back, base64url to decode what it
-- encodes, and the key to be supported.
pub write_document-resolves :
    (p : Platform) (net : Net) (codec : DocumentCodec) (files files' : Files) (root : Str)
    (did : Did) (key : Key) (doc : Document) (path : FilePath)
    → ReadsBack codec doc
    → DecodesBase64 p
    → IsSupported p key
    → new_document p did key ≡ some doc
    → write_document net codec files root doc ≡ ok (files', path)
    → (resolve_file net codec files' root did ≡ ok doc)
      × (first_key p doc ≡ ok key)
      × (document_key p doc (codes "key-1") ≡ ok key)
      × (document_key p doc (codes "#key-1") ≡ ok key)
      × ((other : Did) (q : FilePath)
          → document_path net root other ≡ ok q
          → path_eq path q ≡ false
          → resolve_file net codec files' root other ≡ resolve_file net codec files root other)
unfolding write_document
write_document-resolves p net codec files files' root did key doc path reads decodes supported new
      h =
    let (same, first, by_name, by_fragment) =
      new_document-keys p decodes did key doc supported new in
    let (at, located, made) = >>=-eq-ok (document_path net root doc.id) _ h in
    let bytes : Bytes = codec.encode doc ++ 10 ∷ [] in
    let here : at ≡ path = ap (λ x. x.1) (ok_inj made) in
    let wrote : write_file files at bytes ≡ files' = ap (λ x. x.0) (ok_inj made) in
    let resolved = resolve_file-written net codec files root doc at reads located in
    let found : resolve_file net codec files' root did ≡ ok doc =
      subst (λ (x : Files × Did). resolve_file net codec (x.0) root (x.1) ≡ ok doc)
        (ap₂ (λ a b. (a, b)) wrote same) resolved in
    let elsewhere : (other : Did) (q : FilePath)
        → document_path net root other ≡ ok q
        → path_eq path q ≡ false
        → resolve_file net codec files' root other ≡ resolve_file net codec files root other =
      λ other q located_at differ.
        subst (λ fs. resolve_file net codec fs root other ≡ resolve_file net codec files root other)
          wrote
          (resolve_file-elsewhere net codec files root at q bytes other located_at
            (subst (λ a. path_eq a q ≡ false) (sym here) differ)) in
    (found, first, by_name, by_fragment, elsewhere)
