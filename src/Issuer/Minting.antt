-- ===== src/Issuer/Minting.antt =====
-- The chain that publication mints.
use kessa.Base.{
  ℕ, suc, ◌==◌, leb, ◌≡◌, ◌≢◌, ◌≤◌, refl, sym, ap, ap₂, ◌∙◌, subst, Bytes, Str, codes, str_eq,
  str_eq_iff, is_empty, length, true, not, ◌||◌, Option, none, some, List, [], ◌∷◌, ◌++◌, Result,
  ok, err, guard, guard-eq-ok, require, wrap, >>=-eq-ok, >>-eq-ok, wrap-eq-ok, ok_inj, some_inj,
  arith,
}
use kessa.Chain
use kessa.Chain.{Link, Links, max_depth, sign_issuance}
use kessa.Chain.Hops.{IsIssued, IsBound, Descends, IsChain, done, hop, verify-IsChain}
use kessa.Chain.Issuance.{sign_issuance-IsIssued}
use kessa.Credential.{create}
use kessa.Credential.Binding.{create_inv, create-holder_key}
use kessa.Credential.Data.{Credential, Options}
use kessa.Env.{Env}
use kessa.Export.{credential_id}
use kessa.Issuer.{
  Tools, Spec, HopSpec, World, Outcome, IssuerError, missing, too_many_hops, needs_both,
  delegates_to_itself, not_continuous, no_key, hop_failed, no_credential_id, follows, check_spec,
  reference, key_of, mint_hop, mint_hops, mint_chain, publish, written_chain, write_chain,
  after_list, after_mint, after_documents, after_validate, validate, root_key_not_hex,
}
use kessa.Keys.{Signer, Resolver, resolve_key}
use kessa.Keys.Encoding.{DecodesBase64}
use kessa.Keystore.{signer_of, AreGenuine, signer_of-IsGenuine}
use kessa.Macaroon.{Macaroon, Caveat, mint}
use kessa.Web.DidWeb.{Files}
use kessa.Web.Disk.{Write, complete, not_opened, cut_off}
use kessa.Web.Paths.{FilePath}
use kessa.Macaroon.Delegation.{extends, attenuate_all}
use kessa.Macaroon.Delegation.Integrity.{attenuate_all-extends}
use kessa.Types.{Did}

-- A credential of the chain is what its hop of the specification asks for: the two ends, the
-- caveats of all hops so far, and the place in the status list.
pub record IsAsked (s : Spec) (before : List Caveat) (h : HopSpec) (c : Credential) : Type 0 where
  pub issuer : c.issuer ≡ h.issuer
  pub subject : c.subject ≡ h.subject
  pub caveats : c.macaroon.caveats ≡ before ++ h.caveats
  pub place : c.status_ref ≡ reference s h h.status_index

-- The same for each link, in the order of the hops.
pub data AreAsked (s : Spec) : List Caveat → List HopSpec → Links → Type 0 where
  none_left : {before : List Caveat} → AreAsked s before [] []
  next :
      {before : List Caveat} {h : HopSpec} {hs : List HopSpec} {l : Link} {ls : Links}
      → IsAsked s before h l.credential
      → AreAsked s (before ++ h.caveats) hs ls
      → AreAsked s before (h ∷ hs) (l ∷ ls)

-- The resolver finds the key that the issuer holds for a principal.
abbrev pub Publishes : Tools → Resolver → Type 0
Publishes t r =
    (d : Did) (s : Signer) → key_of t d ≡ ok s → resolve_key t.env.platform r d ≡ ok s.public

module _ (t : Tools) (s : Spec) (r : Resolver) (decodes : DecodesBase64 t.env.platform)
    (genuine : AreGenuine t.seeds t.env.platform) (publishes : Publishes t r) where
  -- What one turn of the loop makes.
  record IsMinted (m : Macaroon) (h : HopSpec) (m' : Macaroon) (l : Link) : Type 0 where
    pub carried : l.credential.macaroon ≡ m'
    pub narrower : extends t.env.platform m' m ≡ ok tt
    pub asked : IsAsked s m.caveats h l.credential
    pub issued : IsIssued t.env r l
    pub bound : IsBound t.env r l.credential

  mint_hop-IsMinted :
      (i : ℕ) (m m' : Macaroon) (h : HopSpec) (l : Link) (id : Str)
      → mint_hop t s i m h ≡ ok (m', l, id)
      → IsMinted m h m' l
  unfolding mint_hop key_of
  mint_hop-IsMinted i m m' h l id e =
      let env : Env = t.env in
      let (m1, added, e1) =
        >>=-eq-ok (wrap (hop_failed i) (attenuate_all env.platform m h.caveats)) _ e in
      let (holder, held, e2) = >>=-eq-ok (wrap no_key (signer_of t.seeds t.keys h.subject)) _ e1 in
      let options : Options = record {
        subject = h.subject;
        issuer = h.issuer;
        macaroon = m1;
        holder_key = some holder.public;
        status_ref = reference s h h.status_index;
        vc_wrapper = none;
      } in
      let (c, made, e3) = >>=-eq-ok (wrap (hop_failed i) (create env.platform options)) _ e2 in
      let (signer, signs, e4) = >>=-eq-ok (wrap no_key (signer_of t.seeds t.keys h.issuer)) _ e3 in
      let (proof, signed, e5) = >>=-eq-ok (wrap (hop_failed i) (sign_issuance env signer c)) _ e4 in
      let (_, _, e6) = >>=-eq-ok (wrap no_credential_id (credential_id env c)) _ e5 in
      let created = wrap-eq-ok (hop_failed i) (create env.platform options) made in
      let (_, _, composed) = create_inv env.platform options c created in
      let (jwk, k, kept, given, parsed) =
        create-holder_key env.platform options c decodes created in
      let (wide, caveats) =
        attenuate_all-extends env.platform m m1 h.caveats (wrap-eq-ok (hop_failed i) _ added) in
      let (named, honest, _) =
        signer_of-IsGenuine t.seeds env.platform genuine t.keys h.issuer signer
          (wrap-eq-ok no_key _ signs) in
      let link : Link = record { credential = c; issuer_proof = proof } in
      let about_subject : c.subject ≡ h.subject = ap (λ x. x.subject) composed in
      let found : resolve_key env.platform r c.subject ≡ ok k =
        subst (λ d. resolve_key env.platform r d ≡ ok k) (sym about_subject)
          (publishes h.subject holder held ∙ ap ok (some_inj given)) in
      let minted : IsMinted m h m1 link = record {
        carried = ap (λ x. x.macaroon) composed;
        narrower = wide;
        asked = record {
          issuer = ap (λ x. x.issuer) composed;
          subject = about_subject;
          caveats = ap (λ x. x.macaroon.caveats) composed ∙ caveats;
          place = ap (λ x. x.status_ref) composed;
        };
        issued =
            sign_issuance-IsIssued env r signer c proof honest
              (subst (λ d. resolve_key env.platform r d ≡ ok signer.public) (sym named)
                (publishes h.issuer signer signs))
              (wrap-eq-ok (hop_failed i) _ signed);
        bound = record { key = k; jwk = jwk; held = kept; parsed = parsed; published = found };
      } in
      subst (λ (x : Macaroon × Link × Str). IsMinted m h (x.0) (x.1)) (ok_inj e6) minted

  -- The hop before, and the parent that was minted for it, are either both there or both not.
  Tracks : Option HopSpec → Option Credential → Macaroon → Type 0
  Tracks none none m = Unit {0}
  Tracks (some h) (some c) m = (c.subject ≡ h.subject) × (c.macaroon ≡ m)
  Tracks _ _ m = ⊥

  minted-Descends :
      (previous : Option HopSpec) (parent : Option Credential) (m m' : Macaroon) (h : HopSpec)
      (l : Link)
      → Tracks previous parent m
      → follows previous h.issuer ≡ true
      → IsMinted m h m' l
      → Descends t.env r parent l.credential
  unfolding Tracks follows
  minted-Descends none none m m' h l tracks adjacent made = tt
  minted-Descends (some g) (some c) m m' h l (same, carried) adjacent made = (
    made.asked.issuer ∙ (str_eq_iff h.issuer g.subject).0 adjacent ∙ sym same,
    subst (λ x. extends t.env.platform x c.macaroon ≡ ok tt) (sym made.carried)
        (subst (λ x. extends t.env.platform m' x ≡ ok tt) (sym carried) made.narrower),
  )
  minted-Descends none (some c) m m' h l tracks adjacent made = absurd tracks
  minted-Descends (some g) none m m' h l tracks adjacent made = absurd tracks

  mint_hops-IsChain :
      (i : ℕ) (previous : Option HopSpec) (parent : Option Credential) (m : Macaroon)
      (before : List Caveat) (hs : List HopSpec) (ls : Links) (ids : List Str)
      → Tracks previous parent m
      → m.caveats ≡ before
      → check_spec i previous hs ≡ ok tt
      → mint_hops t s i m hs ≡ ok (ls, ids)
      → IsChain t.env r parent ls × AreAsked s before hs ls × (length ls ≡ length hs)
  unfolding mint_hops check_spec Tracks
  mint_hops-IsChain i previous parent m before [] ls ids tracks same checked e =
      subst (λ x. IsChain t.env r parent x × AreAsked s before [] x × (length x ≡ 0))
        (ap (λ (x : Links × List Str). x.0) (ok_inj e)) (done, none_left, refl)
  mint_hops-IsChain i previous parent m before (h ∷ hs) ls ids tracks same checked e =
      let (_, c1) =
        >>-eq-ok (guard (not (is_empty h.issuer || is_empty h.subject)) (needs_both i)) _ checked in
      let (_, c2) =
        >>-eq-ok (guard (not (str_eq h.issuer h.subject)) (delegates_to_itself i)) _ c1 in
      let (adjacent, c3) = >>-eq-ok (guard (follows previous h.issuer) (not_continuous i)) _ c2 in
      let ((m', l, id), made, e1) = >>=-eq-ok (mint_hop t s i m h) _ e in
      let ((rest, more), minted, e2) = >>=-eq-ok (mint_hops t s (suc i) m' hs) _ e1 in
      let here = mint_hop-IsMinted i m m' h l id made in
      let (chain, asked, size) =
        mint_hops-IsChain (suc i) (some h) (some l.credential) m' (m.caveats ++ h.caveats) hs rest
          more (here.asked.subject, here.carried)
          (sym (ap (λ x. x.caveats) here.carried) ∙ here.asked.caveats) c3 minted in
      let descends =
        minted-Descends previous parent m m' h l tracks
          (guard-eq-ok (follows previous h.issuer) (not_continuous i) adjacent) here in
      subst
        (λ x.
          IsChain t.env r parent x × AreAsked s before (h ∷ hs) x × (length x ≡ suc (length hs)))
        (ap (λ (x : Links × List Str). x.0) (ok_inj e2))
        (
          hop here.issued here.bound descends chain,
          subst (λ cs. AreAsked s cs (h ∷ hs) (l ∷ rest)) same (next here.asked asked),
          ap suc size,
        )

-- The file outside the root holds the encoded chain.
abbrev pub IsHanded : Tools → World → Links → Type 0
IsHanded t w ls =
    (data_ : Bytes) × (t.encode_chain ls ≡ some data_) × (w.chain_out ≡ some (data_ ++ 10 ∷ []))

-- What a publication that succeeds has done.
abbrev IsPublished : Tools → Spec → World × Result IssuerError Outcome → Outcome → Type 0
IsPublished t s after out =
    (mint_chain t s ≡ ok (out.links, out.credential_ids)) × IsHanded t after.0 out.links

module _ (t : Tools) (s : Spec) (root : Str) (out : Outcome) where
  written_chain-IsPublished :
      (w : World) (files : Files) (docs : List FilePath) (path : FilePath)
      (minted : Links × List Str) (data_ : Bytes) (disk : Write)
      → mint_chain t s ≡ ok minted
      → t.encode_chain minted.0 ≡ some data_
      → (written_chain w files docs path minted (data_ ++ 10 ∷ []) disk).1 ≡ ok out
      → IsPublished t s (written_chain w files docs path minted (data_ ++ 10 ∷ []) disk) out
  unfolding written_chain
  written_chain-IsPublished w files docs path minted data_ complete made encoded h =
      let links = ap (λ o. o.links) (ok_inj h) in
      let ids = ap (λ o. o.credential_ids) (ok_inj h) in
      (
        made ∙ ap₂ (λ a b. ok (a, b)) links ids,
        (data_, subst (λ ls. t.encode_chain ls ≡ some data_) links encoded, refl),
      )
  written_chain-IsPublished w files docs path minted data_ not_opened made encoded h = cc
  written_chain-IsPublished w files docs path minted data_ (cut_off n) made encoded h = cc

  write_chain-IsPublished :
      (w : World) (files : Files) (docs : List FilePath) (path : FilePath)
      (minted : Links × List Str) (bytes : Option Bytes)
      → mint_chain t s ≡ ok minted
      → t.encode_chain minted.0 ≡ bytes
      → (write_chain t w files docs path minted bytes).1 ≡ ok out
      → IsPublished t s (write_chain t w files docs path minted bytes) out
  unfolding write_chain
  write_chain-IsPublished w files docs path minted none made encoded h = cc
  write_chain-IsPublished w files docs path minted (some data_) made encoded h =
      written_chain-IsPublished w files docs path minted data_ t.chain_write made encoded h

  after_list-IsPublished :
      (w : World) (docs : List FilePath) (minted : Links × List Str)
      (r : Result IssuerError (Files × FilePath))
      → mint_chain t s ≡ ok minted
      → (after_list t w docs minted r).1 ≡ ok out
      → IsPublished t s (after_list t w docs minted r) out
  unfolding after_list
  after_list-IsPublished w docs minted (err x) made h = cc
  after_list-IsPublished w docs minted (ok (files, path)) made h =
      write_chain-IsPublished w files docs path minted _ made refl h

  after_mint-IsPublished :
      (w : World) (docs : List FilePath) (r : Result IssuerError (Links × List Str))
      → mint_chain t s ≡ r
      → (after_mint t s root w docs r).1 ≡ ok out
      → IsPublished t s (after_mint t s root w docs r) out
  unfolding after_mint
  after_mint-IsPublished w docs (err x) made h = cc
  after_mint-IsPublished w docs (ok minted) made h = after_list-IsPublished w docs minted _ made h

  after_documents-IsPublished :
      (w : World) (r : Result IssuerError (List FilePath))
      → (after_documents t s root w r).1 ≡ ok out
      → IsPublished t s (after_documents t s root w r) out
  unfolding after_documents
  after_documents-IsPublished w (err x) h = cc
  after_documents-IsPublished w (ok docs) h = after_mint-IsPublished w docs (mint_chain t s) refl h

  after_validate-IsPublished :
      (w : World) (r : Result IssuerError (Unit {0}))
      → (after_validate t s root w r).1 ≡ ok out
      → (r ≡ ok tt) × IsPublished t s (after_validate t s root w r) out
  unfolding after_validate
  after_validate-IsPublished w (err x) h = cc
  after_validate-IsPublished w (ok a) h = (refl, after_documents-IsPublished _ _ h)

validate-hops :
    (s : Spec)
    → validate s ≡ ok tt
    → (length s.hops ≢ 0) × (length s.hops ≤ 8) × (check_spec 0 none s.hops ≡ ok tt)
unfolding validate
validate-hops s h =
    let (_, h1) =
      >>-eq-ok (guard (not (is_empty s.root_key_hex)) (missing (codes "rootKeyHex"))) _ h in
    let (_, h2) =
      >>-eq-ok (guard (not (is_empty s.identifier)) (missing (codes "identifier"))) _ h1 in
    let (some_hops, h3) =
      >>-eq-ok (guard (not (length s.hops == 0)) (missing (codes "hops"))) _ h2 in
    let (depth, h4) =
      >>-eq-ok (guard (leb (length s.hops) max_depth) (too_many_hops (length s.hops))) _ h3 in
    let given = not (is_empty s.status.url || is_empty s.status.issuer) in
    let (_, checked) = >>-eq-ok (guard given (missing (codes "status"))) _ h4 in
    let filled = guard-eq-ok (not (length s.hops == 0)) (missing (codes "hops")) some_hops in
    let short = guard-eq-ok (leb (length s.hops) max_depth) (too_many_hops (length s.hops)) depth in
    (ground arith, ground arith, checked)

-- What `publish` mints verifies: where it succeeds, the chain that it returns is accepted by every
-- verifier whose resolver finds the keys of the keystore, each link is what its hop of the
-- specification asks for, and the file outside the root holds the encoded chain. Base64url has to
-- decode what it encodes and the library's signatures to verify.
pub publish-verifies :
    (t : Tools) (s : Spec) (root : Str) (w : World) (r : Resolver) (out : Outcome)
    → DecodesBase64 t.env.platform
    → AreGenuine t.seeds t.env.platform
    → Publishes t r
    → (publish t s root w).1 ≡ ok out
    → (Chain.verify t.env r out.links ≡ ok tt)
      × AreAsked s [] s.hops out.links
      × IsHanded t (publish t s root w).0 out.links
unfolding publish mint_chain Tracks mint
publish-verifies t s root w r out decodes genuine publishes h =
    let (valid, (minted, kept)) = after_validate-IsPublished t s root out w (validate s) h in
    let (some_hops, depth, checked) = validate-hops s valid in
    let (root_key, _, made) =
      >>=-eq-ok (require (t.seeds.decode_hex s.root_key_hex) root_key_not_hex) _ minted in
    let first : Macaroon = mint t.env.platform root_key s.identifier s.location in
    let (chain, asked, size) =
      mint_hops-IsChain t s r decodes genuine publishes 0 none none first [] s.hops out.links
        out.credential_ids tt refl checked made in
    let some_links : out.links ≢ [] = λ e. some_hops (sym size ∙ ap length e) in
    let short : length out.links ≤ 8 = subst (λ n. n ≤ 8) (sym size) depth in
    ((verify-IsChain t.env r out.links).1 (some_links, (short, chain)), asked, kept)
