-- ===== src/Web/DidWeb.antt =====
-- internal/did/did.go: did:web identifiers, where their documents are published, and how they are
-- resolved from files and over HTTP.
pub mod Location
pub mod Published
pub mod Contacts
use kessa.Base.{
  ℕ, suc, zero, ◌==◌, ltb, leb, Bytes, Str, codes, str_eq, is_empty, length, split, join,
  trim_space, Bool, true, false, not, ◌&&◌, ◌||◌, Option, none, some, List, [], ◌∷◌, ◌++◌, Result,
  ok, err, ◌>>=◌, ◌>>◌, guard, require, wrap, if◌then◌else◌,
}
use kessa.Keys.{Key, Document, VerificationMethod, Jwk, to_jwk, method_key}
use kessa.Errors.{Error}
use kessa.Platform.{Platform}
use kessa.Types.{Did}
use kessa.Web.{Net, Url, has_byte, after_prefix, path_unescape, split_host_port, to_lower}
use kessa.Web.Host.{HostError, validate}
use kessa.Web.Paths.{FilePath, join_path}

pub data DidError : Type 0 where
  not_did_web empty_id bad_host_escape bad_segment_escape empty_segment : DidError
  unsafe_host : HostError → DidError
  unsafe_segment : Str → DidError
  no_file not_a_document wrong_id : DidError
  no_hosts_permitted : DidError
  host_not_permitted : Str → DidError
  too_many_redirects left_the_host left_https : DidError
  unreachable_host : DidError
  bad_status : ℕ → DidError
  out_of_fuel : DidError

is_unsafe : Str → Bool
is_unsafe seg =
    (str_eq seg (codes ".") || str_eq seg (codes "..")) || (has_byte b'/' seg || has_byte 0x5c seg)

segments : List Str → Result DidError (List Str)
unfolding is_unsafe
segments [] = ok []
segments (f ∷ fs) = do
  guard (not (is_empty f)) empty_segment
  seg ← require (path_unescape f) bad_segment_escape
  guard (not (is_unsafe seg)) (unsafe_segment seg)
  rest ← segments fs
  ok (seg ∷ rest)

parse_fields : Net → List Str → Result DidError (Str × List Str)
unfolding segments
parse_fields net [] = err empty_id
parse_fields net (f ∷ fs) = do
  host ← require (path_unescape f) bad_host_escape
  wrap unsafe_host (validate net host)
  segs ← segments fs
  ok (host, segs)

-- `parseDIDWeb`: the host and the path segments.
unfoldable pub parse_did_web : Net → Did → Result DidError (Str × List Str)
unfolding parse_fields
parse_did_web net did = do
  rest ← require (after_prefix (codes "did:web:") did) not_did_web
  guard (not (is_empty rest)) empty_id
  parse_fields net (split b':' rest)

-- Where a document is, beneath its host.
unfoldable pub location : List Str → List Str
location [] = codes ".well-known" ∷ codes "did.json" ∷ []
location (s ∷ ss) = (s ∷ ss) ++ codes "did.json" ∷ []

-- `DocumentPath`
unfoldable pub document_path : Net → Str → Did → Result DidError FilePath
document_path net root did = do
  parsed ← parse_did_web net did
  ok (join_path (root ∷ parsed.0 ∷ location (parsed.1)))

url_path : List Str → Str
url_path [] = codes "/.well-known/did.json"
url_path (s ∷ ss) = codes "/" ++ (join (b'/' ∷ []) (s ∷ ss) ++ codes "/did.json")

-- `didWebToURL`, before `url.URL.String` escapes the path.
unfoldable pub did_web_to_url : Net → Did → Str → Result DidError Url
unfolding url_path
did_web_to_url net did scheme = do
  parsed ← parse_did_web net did
  ok (record {
    scheme = if is_empty scheme then codes "https" else scheme;
    has_user = false;
    host = parsed.0;
    path = url_path (parsed.1);
    raw_query = [];
    force_query = false;
    fragment = [];
  })

with_method : Did → Option Jwk → Option Document
with_method did none = none
with_method did (some jwk) =
    some (record { id = did; methods = record { id = did ++ codes "#key-1"; jwk = some jwk } ∷ [] })

-- `NewDocument`, with what resolution reads of it; it panics at a key without a JWK.
unfoldable pub new_document : Platform → Did → Key → Option Document
unfolding with_method
new_document p did key = with_method did (to_jwk p key)

-- The id that `Key` looks for: given in full, as a fragment, or without its sign.
wanted : Did → Str → Str
wanted did [] = did ++ codes "#"
wanted did (c ∷ id) =
    if not (has_byte b'#' (c ∷ id))
    then did ++ (b'#' ∷ c ∷ id)
    else if c == b'#'
    then did ++ (c ∷ id)
    else c ∷ id

find_method : Platform → Str → List VerificationMethod → Result Error Key
find_method p id [] = err Error.no_methods
find_method p id (m ∷ ms) =
    let later = find_method p id ms in if str_eq m.id id then method_key p m.jwk else later

-- `Document.Key`
unfoldable pub document_key : Platform → Document → Str → Result Error Key
unfolding wanted find_method
document_key p d id = find_method p (wanted d.id id) d.methods

-- The files of a directory tree, by their paths.
abbrev pub Files : Type 0
Files = FilePath → Option Bytes

same_bool : Bool → Bool → Bool
same_bool true b = b
same_bool false b = not b

same_parts : List Str → List Str → Bool
same_parts [] [] = true
same_parts [] (d ∷ ds) = false
same_parts (c ∷ cs) [] = false
same_parts (c ∷ cs) (d ∷ ds) = str_eq c d && same_parts cs ds

unfoldable pub path_eq : FilePath → FilePath → Bool
unfolding same_bool same_parts
path_eq a b = same_bool a.rooted b.rooted && same_parts a.parts b.parts

unfoldable pub write_file : Files → FilePath → Bytes → Files
write_file files path bytes = λ q. if path_eq path q then some bytes else files q

-- encoding/json at documents: json.MarshalIndent, json.Unmarshal, and a json.Decoder, which reads
-- the first value.
pub record DocumentCodec : Type 0 where
  pub encode : Document → Bytes
  pub decode : Bytes → Option Document
  pub decode_first : Bytes → Option Document

-- `parseDocument`, of what the parser returns.
unfoldable pub parse_document : Did → Option Document → Result DidError Document
parse_document did parsed = do
  doc ← require parsed not_a_document
  guard (str_eq doc.id did) wrong_id
  ok doc

-- `FileResolver.Resolve`
unfoldable pub resolve_file : Net → DocumentCodec → Files → Str → Did → Result DidError Document
resolve_file net codec files root did = do
  path ← document_path net root did
  bytes ← require (files path) no_file
  parse_document did (codec.decode bytes)

-- `WriteDocument`, where the file system does as it is told.
unfoldable pub write_document :
    Net → DocumentCodec → Files → Str → Document → Result DidError (Files × FilePath)
write_document net codec files root doc = do
  path ← document_path net root doc.id
  ok (write_file files path (codec.encode doc ++ 10 ∷ []), path)

is_permitted : List Str → Str → Bool
is_permitted [] want = false
is_permitted (h ∷ hs) want = str_eq (to_lower (trim_space h)) want || is_permitted hs want

-- `hostAllowed`
unfoldable pub host_allowed : List Str → Str → Result DidError (Unit {0})
unfolding is_permitted
host_allowed [] host = err no_hosts_permitted
host_allowed (h ∷ hs) host = guard (is_permitted (h ∷ hs) (to_lower host)) (host_not_permitted host)

is_default_port : Str → Str → Bool
is_default_port scheme port =
    is_empty port
    || ((str_eq scheme (codes "https") && str_eq port (codes "443"))
        || (str_eq scheme (codes "http") && str_eq port (codes "80")))

-- The host that `sameHost` compares.
norm_host : Url → Str
unfolding is_default_port
norm_host u =
    let (name, port) = split_host_port u.host in
    if is_default_port u.scheme port then to_lower name else to_lower name ++ (b':' ∷ port)

unfoldable pub same_host : Url → Url → Bool
unfolding norm_host
same_host a b = str_eq (norm_host a) (norm_host b)

abbrev pub max_redirects : ℕ
max_redirects = 3

-- `checkRedirect`, with the first request, all requests so far, and the next one.
unfoldable pub check_redirect : Url → List Url → Url → Result DidError (Unit {0})
check_redirect origin via target = do
  guard (ltb (length via) max_redirects) too_many_redirects
  guard (same_host origin target) left_the_host
  guard (not (str_eq origin.scheme (codes "https") && not (str_eq target.scheme (codes "https"))))
      left_https

-- What answers at a URL: a redirect, a status with a body, or nothing.
pub data Answer : Type 0 where
  redirect : Url → Answer
  response : ℕ → Bytes → Answer
  unreachable : Answer

abbrev pub Web : Type 0
Web = Url → Answer

on_check :
    List Url
    → List Url × Result DidError Bytes
    → Result DidError (Unit {0})
    → List Url × Result DidError Bytes
on_check via next (ok a) = next
on_check via next (err x) = (via, err x)

on_answer :
    Url
    → List Url
    → (Url → List Url × Result DidError Bytes)
    → Answer
    → List Url × Result DidError Bytes
unfolding on_check
on_answer origin via next (redirect target) =
    on_check via (next target) (check_redirect origin via target)
on_answer origin via next (response status body) =
    (via, if status == 200 then ok body else err (bad_status status))
on_answer origin via next unreachable = (via, err unreachable_host)

-- The client's loop over redirects, with the URLs that it contacted.
follow : ℕ → Web → Url → List Url → Url → List Url × Result DidError Bytes
unfolding on_answer
follow zero web origin via u = (via, err out_of_fuel)
follow (suc left) web origin via u =
    let via' : List Url = via ++ u ∷ [] in
    on_answer origin via' (λ target. follow left web origin via' target) (web u)

finish :
    DocumentCodec → Did → List Url × Result DidError Bytes → List Url × Result DidError Document
finish codec did (via, ok body) = (via, parse_document did (codec.decode_first body))
finish codec did (via, err x) = (via, err x)

from_url : DocumentCodec → Did → Web → Result DidError Url → List Url × Result DidError Document
unfolding finish follow
from_url codec did web (err x) = ([], err x)
from_url codec did web (ok u) = finish codec did (follow max_redirects web u [] u)

-- What is checked before anything is contacted.
unfoldable pub permitted_url : Net → List Str → Str → Did → Result DidError Url
permitted_url net hosts scheme did = do
  parsed ← parse_did_web net did
  host_allowed hosts (parsed.0)
  did_web_to_url net did scheme

-- `HTTPResolver.Resolve`, with the URLs that it contacted.
unfoldable pub resolve_http :
    Net → DocumentCodec → List Str → Str → Web → Did → List Url × Result DidError Document
unfolding from_url permitted_url
resolve_http net codec hosts scheme web did =
    from_url codec did web (permitted_url net hosts scheme did)
