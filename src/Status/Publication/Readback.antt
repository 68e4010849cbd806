-- ===== src/Status/Publication/Readback.antt =====
-- A published status list is loaded as it was.
use kessa.Base.{
  ◌≡◌, ◌≢◌, arith, guard-eq-ok, refl, ap, ◌∙◌, subst, Bytes, str_eq_refl, length, ◌==◌, not, some,
  ok, guard, >>=-eq-ok, ok_inj,
}
use kessa.Keys.Encoding.{DecodesBase64}
use kessa.Platform.{Platform}
use kessa.Status.{StatusList}
use kessa.Status.Publication.{
  published, ListCodec, unsigned, encoding_name, marshal, parse, publish_path, publish, load,
}
use kessa.Web.{Net}
use kessa.Web.DidWeb.{Files, write_file}
use kessa.Web.DidWeb.Published.{path_eq_refl}
use kessa.Web.Paths.{FilePath}

-- The parser reads back what is written for this list.
abbrev pub ReadsBack : Platform → ListCodec → StatusList → Type 0
ReadsBack p codec l = codec.decode (codec.encode (published p l)) ≡ some (published p l)

pub published-path :
    (p : Platform) (net : Net) (codec : ListCodec) (l : StatusList) (root list_url : Bytes)
    (files files' : Files) (path : FilePath)
    → publish p net codec l root list_url files ≡ ok (files', path)
    → publish_path net root list_url ≡ ok path
unfolding publish
published-path p net codec l root list_url files files' path h =
    let (at, located, h') = >>=-eq-ok (publish_path net root list_url) _ h in
    let (_, _, done) = >>=-eq-ok (marshal p codec l) _ h' in
    located ∙ ap (λ (x : Files × FilePath). ok (x.1)) (ok_inj done)

module _ (p : Platform) (codec : ListCodec) (decodes : DecodesBase64 p) where
  parse-marshal :
      (l : StatusList) (bytes : Bytes)
      → ReadsBack p codec l
      → marshal p codec l ≡ ok bytes
      → parse p codec bytes ≡ ok l
  unfolding marshal parse published
  parse-marshal l bytes reads h =
      let (_, _, made) = >>=-eq-ok (guard (not (length l.signature == 0)) unsigned) _ h in
      subst (λ b. parse p codec b ≡ ok l) (ok_inj made)
        (rw reads (rw (str_eq_refl encoding_name) (rw (decodes l.bits, decodes l.signature) refl)))

  marshal-signed :
      (l : StatusList) (bytes : Bytes) → marshal p codec l ≡ ok bytes → length l.signature ≢ 0
  unfolding marshal
  marshal-signed l bytes h =
      let (_, filled, _) = >>=-eq-ok (guard (not (length l.signature == 0)) unsigned) _ h in
      ground (arith, guard-eq-ok (not (length l.signature == 0)) unsigned filled)

  -- What is published is loaded from its path, and is signed.
  pub load-publish :
      (net : Net) (l : StatusList) (root list_url : Bytes) (files files' : Files) (path : FilePath)
      → ReadsBack p codec l
      → publish p net codec l root list_url files ≡ ok (files', path)
      → (publish_path net root list_url ≡ ok path)
        × (load p codec files' path ≡ ok l)
        × (length l.signature ≢ 0)
  unfolding publish load write_file
  load-publish net l root list_url files files' path reads h =
      let (at, located, h') = >>=-eq-ok (publish_path net root list_url) _ h in
      let (bytes, made, done) = >>=-eq-ok (marshal p codec l) _ h' in
      let here : at ≡ path = ap (λ x. x.1) (ok_inj done) in
      let wrote : write_file files at bytes ≡ files' = ap (λ x. x.0) (ok_inj done) in
      let found : load p codec (write_file files at bytes) at ≡ ok l =
        rw (path_eq_refl at) (parse-marshal l bytes reads made) in
      (
        located ∙ ap ok here,
        subst (λ (x : Files × FilePath). load p codec (x.0) (x.1) ≡ ok l) (ok_inj done) found,
        marshal-signed l bytes made,
      )
