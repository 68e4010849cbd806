-- ===== src/Web/DidWeb/Location.antt =====
-- Where the documents of did:web identifiers are published.
use mathlib.Core.List.{append_assoc}
use kessa.Base.{
  ℕ, ◌==◌, ◌≡◌, ◌≢◌, refl, sym, ap, ◌∙◌, subst, Str, codes, str_eq, str_eq_iff, is_empty, split,
  join, Bool, true, false, Bool-cases, not, ◌||◌, ||-eq-false, inl, inr, Option, none, some, List,
  [], ◌∷◌, ◌++◌, All, ok, guard, require, wrap, guard_iff, >>=-eq-ok, >>-eq-ok, wrap-eq-ok,
  require-eq-ok, ok_inj, if◌then◌else◌, arith,
}
use kessa.Types.{Did}
use kessa.Web.{Net, Url, has_byte, after_prefix, path_unescape, decoded, kept}
use kessa.Web.Host.{validate}
use kessa.Web.Host.Safety.{WritesAddresses, validate-IsSegment}
use kessa.Web.Paths.{FilePath, clean}
use kessa.Web.Paths.Beneath.{IsSegment, beneath, join_path-beneath}
use kessa.Web.DidWeb.{
  empty_segment, bad_segment_escape, unsafe_segment, bad_host_escape, unsafe_host, not_did_web,
  empty_id, is_unsafe, segments, parse_fields, parse_did_web, location, document_path, url_path,
  did_web_to_url,
}

kept-cons : (c : ℕ) (o : Option Str) (s : Str) → kept c o ≡ some s → s ≢ []
unfolding kept
kept-cons c (some t) s h e = cc
kept-cons c none s h e = cc

decoded-cons : (a b : Option ℕ) (o : Option Str) (s : Str) → decoded a b o ≡ some s → s ≢ []
unfolding decoded
decoded-cons (some a) (some b) (some t) s h e = cc
decoded-cons (some a) (some b) none s h e = cc
decoded-cons (some a) none o s h e = cc
decoded-cons none b o s h e = cc

-- Decoding a name that is not empty gives one that is not.
path_unescape-cons : (f s : Str) → path_unescape f ≡ some s → f ≢ [] → s ≢ []
unfolding path_unescape
path_unescape-cons [] s h n = absurd (n refl)
path_unescape-cons (c ∷ []) s h n = λ e. ground arith
path_unescape-cons (c ∷ d ∷ []) s h n = elim (Bool-cases (c == b'%')) [
  | inl e ↦ λ q. cc (rw e at h)
  | inr e ↦ kept-cons c _ s (rw e at h)
]
path_unescape-cons (c ∷ d ∷ g ∷ f) s h n = elim (Bool-cases (c == b'%')) [
  | inl e ↦ decoded-cons _ _ _ s (rw e at h)
  | inr e ↦ kept-cons c _ s (rw e at h)
]

safe-IsSegment : (seg : Str) → seg ≢ [] → not (is_unsafe seg) ≡ true → IsSegment seg
unfolding is_unsafe
safe-IsSegment seg n h =
    let unsafe : is_unsafe seg ≡ false = ground arith in
    let one : Bool = str_eq seg (codes ".") in
    let two : Bool = str_eq seg (codes "..") in
    let three : Bool = has_byte b'/' seg in
    let four : Bool = has_byte 0x5c seg in
    let (dots, slashes) = ||-eq-false (one || two) (three || four) unsafe in
    let (dot, dot_dot) = ||-eq-false one two dots in
    let (slash, _) = ||-eq-false three four slashes in
    (
      n,
      λ e. cc (dot, (str_eq_iff seg (codes ".")).1 e),
      λ e. cc (dot_dot, (str_eq_iff seg (codes "..")).1 e),
      slash,
    )

not_empty_str : (s : Str) → not (is_empty s) ≡ true → s ≢ []
not_empty_str [] h = cc
not_empty_str (c ∷ s) h = λ e. cc e

segments-IsSegment : (fs segs : List Str) → segments fs ≡ ok segs → All IsSegment segs
unfolding segments
segments-IsSegment [] segs h = subst (All IsSegment) (ok_inj h) tt
segments-IsSegment (f ∷ fs) segs h =
    let (here, h1) = >>-eq-ok (guard (not (is_empty f)) empty_segment) _ h in
    let some_byte : not (is_empty f) ≡ true = (guard_iff _ _).0 here in
    let (seg, decoded_as, h2) = >>=-eq-ok (require (path_unescape f) bad_segment_escape) _ h1 in
    let (safe, h3) = >>-eq-ok (guard (not (is_unsafe seg)) (unsafe_segment seg)) _ h2 in
    let is_safe : not (is_unsafe seg) ≡ true = (guard_iff _ _).0 safe in
    let (rest, later, made) = >>=-eq-ok (segments fs) _ h3 in
    let n = path_unescape-cons f seg (require-eq-ok _ _ decoded_as) (not_empty_str f some_byte) in
    subst (All IsSegment) (ok_inj made)
      (safe-IsSegment seg n is_safe, segments-IsSegment fs rest later)

module _ (net : Net) (writes : WritesAddresses net) where
  parse_fields-IsSegment :
      (fs : List Str) (host : Str) (segs : List Str)
      → parse_fields net fs ≡ ok (host, segs)
      → IsSegment host × All IsSegment segs
  unfolding parse_fields
  parse_fields-IsSegment [] host segs h = cc
  parse_fields-IsSegment (f ∷ fs) host segs h =
      let (name, _, h1) = >>=-eq-ok (require (path_unescape f) bad_host_escape) _ h in
      let (valid, h2) = >>-eq-ok (wrap unsafe_host (validate net name)) _ h1 in
      let (rest, later, made) = >>=-eq-ok (segments fs) _ h2 in
      let hosts = ap (λ x. x.0) (ok_inj made) in
      let paths = ap (λ x. x.1) (ok_inj made) in
      (
        subst IsSegment hosts (validate-IsSegment net writes name (wrap-eq-ok _ _ valid)),
        subst (All IsSegment) paths (segments-IsSegment fs rest later),
      )

  pub parse_did_web-IsSegment :
      (did : Did) (host : Str) (segs : List Str)
      → parse_did_web net did ≡ ok (host, segs)
      → IsSegment host × All IsSegment segs
  unfolding parse_did_web
  parse_did_web-IsSegment did host segs h =
      let (rest, _, h1) =
        >>=-eq-ok (require (after_prefix (codes "did:web:") did) not_did_web) _ h in
      let (_, h2) = >>-eq-ok (guard (not (is_empty rest)) empty_id) _ h1 in
      parse_fields-IsSegment (split b':' rest) host segs h2

  file_names : IsSegment (codes ".well-known") × IsSegment (codes "did.json")
  unfolding has_byte
  file_names = (((λ e. cc), (λ e. cc), (λ e. cc), refl), ((λ e. cc), (λ e. cc), (λ e. cc), refl))

  All-snoc :
      (ss : List Str) (s : Str) → All IsSegment ss → IsSegment s → All IsSegment (ss ++ s ∷ [])
  All-snoc [] s h hs = (hs, tt)
  All-snoc (x ∷ ss) s h hs = (h.0, All-snoc ss s h.1 hs)

  pub location-IsSegment : (segs : List Str) → All IsSegment segs → All IsSegment (location segs)
  unfolding location
  location-IsSegment [] h = (file_names.0, (file_names.1, tt))
  location-IsSegment (s ∷ ss) h = (h.0, All-snoc ss (codes "did.json") h.1 file_names.1)

join-snoc :
    (s : Str) (ss : List Str) (t : Str)
    → join (b'/' ∷ []) ((s ∷ ss) ++ t ∷ []) ≡ join (b'/' ∷ []) (s ∷ ss) ++ (b'/' ∷ t)
unfolding join
join-snoc s [] t = refl
join-snoc s (x ∷ ss) t =
    ap (λ r. s ++ (b'/' ∷ r)) (join-snoc x ss t)
    ∙ sym (append_assoc s (b'/' ∷ join (b'/' ∷ []) (x ∷ ss)) (b'/' ∷ t))

url_path-location : (segs : List Str) → url_path segs ≡ b'/' ∷ join (b'/' ∷ []) (location segs)
unfolding url_path location join
url_path-location [] = refl
url_path-location (s ∷ ss) = ap (λ r. b'/' ∷ r) (sym (join-snoc s ss (codes "did.json")))

-- A place beneath a root that is also a place on the web: the path of the URL, read as names, is
-- where the document stands beneath its host.
pub record IsMirrored (root : Str) (path : FilePath) (url : Url) : Type 0 where
  pub names : List Str
  pub host_IsSegment : IsSegment url.host
  pub names_IsSegment : All IsSegment names
  pub file : path ≡ beneath (clean root) (url.host ∷ names)
  pub address : url.path ≡ b'/' ∷ join (b'/' ∷ []) names
  pub plain :
      (url.has_user ≡ false)
      × (url.raw_query ≡ [])
      × (url.force_query ≡ false)
      × (url.fragment ≡ [])

-- Where a DID has a document path, it has a URL, the path stays beneath the root, in the directory
-- of the URL's host, by names none of which is empty, a dot name or has a slash, and these names
-- joined by slashes are the path of the URL, which has no userinfo, query or fragment. Addresses
-- that parse have to be written in letters, digits, colons and dots.
pub document_path-IsMirrored :
    (net : Net) (root : Str) (did : Did) (scheme : Str) (path : FilePath)
    → WritesAddresses net
    → document_path net root did ≡ ok path
    → (url : Url) × (did_web_to_url net did scheme ≡ ok url) × IsMirrored root path url
unfolding document_path did_web_to_url
document_path-IsMirrored net root did scheme path writes h =
    let ((host, segs), parsed, made) = >>=-eq-ok (parse_did_web net did) _ h in
    let (a, b) = parse_did_web-IsSegment net writes did host segs parsed in
    let names = location-IsSegment net writes segs b in
    let url : Url = record {
      scheme = if is_empty scheme then codes "https" else scheme;
      has_user = false;
      host = host;
      path = url_path segs;
      raw_query = [];
      force_query = false;
      fragment = [];
    } in
    (
      url,
      rw parsed refl,
      record {
        names = location segs;
        host_IsSegment = a;
        names_IsSegment = names;
        file = sym (ok_inj made) ∙ join_path-beneath root host (location segs) (a, names);
        address = url_path-location segs;
        plain = (refl, refl, refl, refl);
      },
    )
