-- ===== src/Status/Publication.antt =====
-- internal/status/status.go: the published form of a status list, and where it is published.
pub mod Readback
use mathlib.Core.List.{reverse}
use kessa.Base.{
  ℕ, ◌==◌, Bytes, Str, codes, str_eq, is_empty, length, split, Bool, true, false, not, ◌&&◌, ◌||◌,
  Option, List, [], ◌∷◌, Result, ok, err, ◌>>=◌, ◌>>◌, guard, require, wrap, if◌then◌else◌,
}
use kessa.Platform.{Platform}
use kessa.Status.{StatusList}
use kessa.Types.{Did}
use kessa.Web.{Net}
use kessa.Web.DidWeb.{Files, write_file}
use kessa.Web.Host.{HostError, validate}
use kessa.Web.Paths.{FilePath, join_path}

-- `published`, the shape on the disk.
pub record Published : Type 0 where
  pub issuer : Did
  pub purpose : Str
  pub encoding : Str
  pub bitstring : Str
  pub signature : Str

-- encoding/json at published lists: json.MarshalIndent and json.Unmarshal.
pub record ListCodec : Type 0 where
  pub encode : Published → Bytes
  pub decode : Bytes → Option Published

pub data PublicationError : Type 0 where
  unsigned not_a_list bad_bitstring bad_signature no_file : PublicationError
  unsupported_encoding : Str → PublicationError
  bad_url not_http no_host has_userinfo has_query has_fragment no_path : PublicationError
  unsafe_host : HostError → PublicationError
  unsafe_segment : Str → PublicationError

abbrev pub encoding_name : Str
encoding_name = codes "base64url"

unfoldable pub published : Platform → StatusList → Published
published p l = record {
  issuer = l.issuer;
  purpose = l.purpose;
  encoding = encoding_name;
  bitstring = p.encode_base64 l.bits;
  signature = p.encode_base64 l.signature;
}

-- `Marshal`
unfoldable pub marshal : Platform → ListCodec → StatusList → Result PublicationError Bytes
unfolding published
marshal p codec l = do
  guard (not (length l.signature == 0)) unsigned
  ok (codec.encode (published p l))

-- `Parse`
unfoldable pub parse : Platform → ListCodec → Bytes → Result PublicationError StatusList
parse p codec bytes = do
  q ← require (codec.decode bytes) not_a_list
  guard (str_eq q.encoding encoding_name) (unsupported_encoding q.encoding)
  bits ← require (p.decode_base64_raw q.bitstring) bad_bitstring
  signature ← require (p.decode_base64_raw q.signature) bad_signature
  ok (record { issuer = q.issuer; purpose = q.purpose; bits = bits; signature = signature })

drop_byte : ℕ → Str → Str
drop_byte c [] = []
drop_byte c (x ∷ s) = let rest = drop_byte c s in if x == c then rest else x ∷ s

-- `strings.Trim` for one byte.
unfoldable pub trim_byte : ℕ → Str → Str
unfolding drop_byte
trim_byte c s = reverse (drop_byte c (reverse (drop_byte c s)))

unfoldable pub check_segments : List Str → Result PublicationError (Unit {0})
check_segments [] = ok tt
check_segments (s ∷ ss) = do
  guard (not (is_empty s || (str_eq s (codes ".") || str_eq s (codes "..")))) (unsafe_segment s)
  check_segments ss

-- `PublishPath`
unfoldable pub publish_path : Net → Str → Str → Result PublicationError FilePath
unfolding check_segments
publish_path net root list_url = do
  u ← require (net.parse_url list_url) bad_url
  guard (str_eq u.scheme (codes "https") || str_eq u.scheme (codes "http")) not_http
  guard (not (is_empty u.host)) no_host
  guard (not u.has_user) has_userinfo
  guard (not (not (is_empty u.raw_query) || u.force_query)) has_query
  guard (is_empty u.fragment) has_fragment
  wrap unsafe_host (validate net u.host)
  guard (not (is_empty (trim_byte b'/' u.path))) no_path
  check_segments (split b'/' (trim_byte b'/' u.path))
  ok (join_path (root ∷ u.host ∷ split b'/' (trim_byte b'/' u.path)))

-- `Publish` with `Save`, where the file system does as it is told.
unfoldable pub publish :
    Platform
    → Net
    → ListCodec
    → StatusList
    → Str
    → Str
    → Files
    → Result PublicationError (Files × FilePath)
publish p net codec l root list_url files = do
  path ← publish_path net root list_url
  bytes ← marshal p codec l
  ok (write_file files path bytes, path)

-- `Load`
unfoldable pub load : Platform → ListCodec → Files → FilePath → Result PublicationError StatusList
load p codec files path = do bytes ← require (files path) no_file; parse p codec bytes
