-- ===== src/Examples/Pages.antt =====
-- Documents of did:web identifiers, as files and over HTTP.
use kessa.Base.{
  ◌≡◌, refl, sym, ap, subst, codes, str_eq, str_eq_iff, true, false, none, some, Bool-cases, inl,
  inr, [], ◌∷◌, ◌++◌, ok, if◌then◌else◌, ◌>>=◌, split, split_from, join,
}
use kessa.Examples.World.{toy, key, toy-DecodesBase64}
use kessa.Keys.{Document, ed25519, first_key, to_jwk}
use kessa.Types.{Did}
use kessa.Web.{
  Net, Url, Addr, after_prefix, path_unescape, starts_with, split_last, last_byte, drop_last,
  has_byte, is_digit, all_digits,
}
use kessa.Web.Host.{
  validate, split_port, validate_hostname, validate_ipv6_literal, validate_port, is_host_byte,
}
use kessa.Web.DidWeb.{
  DocumentCodec, Files, Web, redirect, response, document_path, did_web_to_url, new_document,
  document_key, resolve_file, write_document, write_file, resolve_http, path_eq, parse_did_web,
  location,
}
use kessa.Web.DidWeb.Contacts.{IsResolution, resolve_http-IsResolution}
use kessa.Web.DidWeb.Location.{IsMirrored, document_path-IsMirrored}
use kessa.Web.DidWeb.Published.{write_document-resolves}
use kessa.Web.Host.Safety.{WritesAddresses, IsAuthority}
use kessa.Web.Paths.{FilePath, join_path, clean, push, push_all, not_empty}

abbrev loopback : Addr
loopback = record { is_4 = false; zone = [] }

-- One address is known.
abbrev pub net : Net
net = record {
  parse_url = λ s. none;
  parse_addr = λ s. if str_eq s (codes "::1") then some loopback else none;
  parse_ip = λ s. none;
  parse_media_type = λ s. some s;
}

net-WritesAddresses : WritesAddresses net
unfolding is_host_byte
net-WritesAddresses s a h z = elim (Bool-cases (str_eq s (codes "::1"))) [
  | inl e ↦ subst IsAuthority (sym ((str_eq_iff s (codes "::1")).0 e)) (refl, (refl, (refl, tt)))
  | inr e ↦ cc (rw e at h)
]

abbrev did : Did
did = codes "did:web:acme.example:eu%2Dwest:bot"

abbrev did_path : FilePath
did_path = record {
  rooted = true;
  parts =
      codes "srv" ∷ codes "acme.example" ∷ codes "eu-west" ∷ codes "bot" ∷ codes "did.json" ∷ [];
}

located : document_path net (codes "/srv/") did ≡ ok did_path
unfolding document_path parse_did_web after_prefix split split_from path_unescape validate
    split_port starts_with split_last validate_hostname validate_ipv6_literal validate_port
    last_byte drop_last has_byte is_digit all_digits is_host_byte str_eq join_path clean join push
    push_all not_empty location
located = refl

document_path-IsMirrored_example :
    (url : Url) × (did_web_to_url net did (codes "https") ≡ ok url)
    × IsMirrored (codes "/srv/") did_path url
document_path-IsMirrored_example =
    document_path-IsMirrored net (codes "/srv/") did (codes "https") did_path net-WritesAddresses
      located

abbrev page : Document
page = record {
  id = did;
  methods =
      record {
        id = did ++ codes "#key-1";
        jwk = some (record { kty = codes "OKP"; crv = codes "Ed25519"; x = key 4; y = [] });
      }
      ∷ [];
}

made : new_document toy did (ed25519 (key 4)) ≡ some page
unfolding new_document to_jwk
made = refl

-- A file stands for the one document.
abbrev pub json : DocumentCodec
json = record { encode = λ d. d.id; decode = λ b. some page; decode_first = λ b. some page }

abbrev pub empty_disk : Files
empty_disk q = none

written :
    write_document net json empty_disk (codes "/srv/") page
    ≡ ok (write_file empty_disk did_path (did ++ 10 ∷ []), did_path)
unfolding write_document
written = ap (λ m. m >>= λ path. ok (write_file empty_disk path (did ++ 10 ∷ []), path)) located

write_document-resolves_example :
    (resolve_file net json (write_file empty_disk did_path (did ++ 10 ∷ [])) (codes "/srv/") did
      ≡ ok page)
    × (first_key toy page ≡ ok (ed25519 (key 4)))
    × (document_key toy page (codes "key-1") ≡ ok (ed25519 (key 4)))
    × (document_key toy page (codes "#key-1") ≡ ok (ed25519 (key 4)))
    × ((other : Did) (q : FilePath)
        → document_path net (codes "/srv/") other ≡ ok q
        → path_eq did_path q ≡ false
        → resolve_file net json
            (write_file empty_disk did_path (did ++ 10 ∷ []))
            (codes "/srv/")
            other
          ≡ resolve_file net json empty_disk (codes "/srv/") other)
write_document-resolves_example =
    write_document-resolves toy net json empty_disk
      (write_file empty_disk did_path (did ++ 10 ∷ [])) (codes "/srv/") did (ed25519 (key 4)) page
      did_path refl toy-DecodesBase64 refl made written

abbrev elsewhere : Url
elsewhere = record {
  scheme = codes "http";
  has_user = false;
  host = codes "acme.example";
  path = codes "/did.json";
  raw_query = [];
  force_query = false;
  fragment = [];
}

abbrev one_redirect : Web
one_redirect u = if str_eq u.scheme (codes "https") then redirect elsewhere else response 200 did

resolve_http-IsResolution_example :
    IsResolution net
      (codes "Acme.example" ∷ [])
      []
      did
      (resolve_http net json (codes "Acme.example" ∷ []) [] one_redirect did)
resolve_http-IsResolution_example =
    resolve_http-IsResolution net json (codes "Acme.example" ∷ []) [] one_redirect did
