-- ===== src/Examples/Issuing.antt =====
-- A chain that is minted and published, and a credential of it that is revoked.
use kessa.Base.{
  ℕ, zero, suc, ◌==◌, ==_iff, ◌≡◌, ◌⊎◌, ◌≤◌, ◌*◌, subst, refl, sym, ap, ◌∙◌, Bytes, Str, codes,
  str_eq, str_eq_refl, Bool, true, false, Option, none, some, List, [], ◌∷◌, ◌++◌, All, length,
  length-replicate, replicate, get_or, set, Result, ok, err, wrap-eq-ok, ◌>>=◌, require, arith,
  if◌then◌else◌,
}
use kessa.Base.Int.{ℤ, pos, eq_ℤ}
use kessa.Base.Dict
use kessa.Chain
use kessa.Errors.{Error, no_document}
use kessa.Examples.Pages
use kessa.Examples.Pages.{json, empty_disk}
use kessa.Examples.World.{toy, world, key}
use kessa.Issuer
use kessa.Issuer.{
  Tools, HopSpec, Spec, World, Outcome, IssuerError, no_key, key_of, publish, revoke, revoked_list,
}
use kessa.Web.Disk.{complete}
use kessa.Issuer.Minting.{AreAsked, IsHanded, Publishes, publish-verifies}
use kessa.Issuer.Revocation.{revoke-loads}
use kessa.Keys.{
  Key, ed25519, p256, other, Document, Resolver, Signer, first_key, method_key, to_jwk, resolve_key,
}
use kessa.Keys.Encoding.{IsSupported, DecodesBase64, public_key-to_jwk}
use kessa.Keystore.{Seeds, Keystore, AreGenuine, signer_of-IsGenuine}
use kessa.Platform.{Platform}
use kessa.Status.Publication.{ListCodec, Published, published, load, parse}
use kessa.Status.{StatusList, min_bits, bit_len, lookup, verify}
use kessa.Status.Bits.{IsByte}
use kessa.Types.{Did}
use kessa.Web.{Net}
use kessa.Web.DidWeb.{Files, new_document}
use kessa.Web.Paths.{FilePath}

-- A platform whose signatures are the keys.
abbrev stamps : Platform
stamps = record toy { ed25519_verify = λ k m s. str_eq s k }

abbrev pub seeds : Seeds
seeds = record {
  decode_hex = λ s. some s;
  public_of = λ seed. key (get_or seed 0 0);
  sign_with = λ seed m. key (get_or seed 0 0);
}

seeds-AreGenuine : AreGenuine seeds stamps
seeds-AreGenuine = record {
  size = λ seed. length-replicate 32 (get_or seed 0 0);
  genuine = λ seed m. str_eq_refl (key (get_or seed 0 0));
}

-- A field, with a zero byte at its end.
written : Bytes → Bytes → Bytes
written [] rest = 0 ∷ rest
written (b ∷ s) rest = suc b ∷ written s rest

extend : ℕ → Option (Bytes × Bytes) → Option (Bytes × Bytes)
extend b none = none
extend b (some (s, rest)) = some (b ∷ s, rest)

read : Bytes → Option (Bytes × Bytes)
unfolding extend
read [] = none
read (zero ∷ rest) = some ([], rest)
read (suc b ∷ s) = extend b (read s)

read-written : (s rest : Bytes) → read (written s rest) ≡ some (s, rest)
unfolding read written extend
read-written [] rest = refl
read-written (b ∷ s) rest = rw (read-written s rest) refl

with_field : Option (Bytes × Bytes) → (Bytes → Bytes → Option Published) → Option Published
with_field none next = none
with_field (some (s, rest)) next = next s rest

abbrev lists : ListCodec
lists = record {
  encode = λ q.
      written q.issuer
        (written q.purpose (written q.encoding (written q.bitstring (written q.signature []))));
  decode = λ s. with_field (read s) (λ issuer s1. with_field (read s1) (λ purpose s2.
      with_field (read s2) (λ encoding s3. with_field (read s3) (λ bitstring s4.
        with_field (read s4) (λ signature s5. some (record {
          issuer = issuer;
          purpose = purpose;
          encoding = encoding;
          bitstring = bitstring;
          signature = signature;
        }))))));
}

lists-ReadsBack : (q : Published) → lists.decode (lists.encode q) ≡ some q
unfolding with_field
lists-ReadsBack q = rw (read-written q.issuer) (
    rw (read-written q.purpose) (
      rw (read-written q.encoding)
        (rw (read-written q.bitstring) (rw (read-written q.signature) refl))))

abbrev net : Net
net = record Pages.net {
  parse_url = λ s. some (record {
    scheme = codes "https";
    has_user = false;
    host = codes "acme.example";
    path = s;
    raw_query = [];
    force_query = false;
    fragment = [];
  });
}

abbrev pub org : Did
org = codes "did:web:acme.example"

abbrev pub bot : Did
bot = codes "did:web:acme.example:bot"

abbrev tools : Tools
tools = record {
  env = record world { platform = stamps };
  net = net;
  seeds = seeds;
  documents = json;
  lists = lists;
  keys = (org, key 1) ∷ (bot, key 2) ∷ [];
  encode_chain = λ ls. some (codes "chain");
  chain_write = complete;
}

abbrev spec : Spec
spec = record {
  root_key_hex = key 9;
  identifier = codes "m1";
  location = codes "here";
  status = record { url = codes "/status/1.json"; issuer = org; bits = 0 };
  hops = record { issuer = org; subject = bot; caveats = []; status_index = some (pos 3) } ∷ [];
  extra_principals = [];
}

-- The documents of whoever has a key.
document_of : Did → Result IssuerError Signer → Result Error Document
document_of d (ok s) = require (new_document stamps d s.public) no_document
document_of d (err x) = err no_document

documents : Resolver
unfolding document_of
documents d = document_of d (key_of tools d)

decodes : DecodesBase64 stamps
decodes b = refl

first_key-new_document :
    (d : Did) (k : Key)
    → IsSupported stamps k
    → (require (new_document stamps d k) no_document >>= first_key stamps) ≡ ok k
unfolding new_document first_key method_key to_jwk
first_key-new_document d (ed25519 b) supported =
    public_key-to_jwk stamps decodes (ed25519 b) _ supported refl
first_key-new_document d (p256 x y) supported =
    public_key-to_jwk stamps decodes (p256 x y) _ supported refl
first_key-new_document d other supported = absurd supported

documents-Publishes : Publishes tools documents
unfolding documents resolve_key key_of
documents-Publishes d s h =
    let (_, _, supported) =
      signer_of-IsGenuine seeds stamps seeds-AreGenuine tools.keys d s (wrap-eq-ok no_key _ h) in
    rw h (first_key-new_document d s.public supported)

abbrev outcome_or_none : Result IssuerError Outcome → Outcome
outcome_or_none (ok out) = out
outcome_or_none (err x) = record {
  did_docs = [];
  status_path = record { rooted = false; parts = [] };
  links = [];
  credential_ids = [];
}

abbrev start : World
start = record { files = empty_disk; chain_out = none }

abbrev root : Str
root = codes "/srv"

abbrev minted : Outcome
minted = outcome_or_none (publish tools spec root start).1

was_published : (publish tools spec root start).1 ≡ ok minted
unfolding Issuer.publish Issuer.validate str_eq Issuer.publish_documents Issuer.principals key_of
    kessa.Keystore.signer_of kessa.Base.Dict.lookup kessa.Keystore.software_signer new_document
    to_jwk kessa.Web.DidWeb.write_document kessa.Web.DidWeb.document_path
    kessa.Web.DidWeb.parse_did_web kessa.Web.after_prefix kessa.Base.split kessa.Web.path_unescape
    kessa.Web.Host.validate kessa.Base.join kessa.Base.split_from kessa.Chain.issuance_input
    kessa.Chain.sign_issuance kessa.Credential.create kessa.Credential.holder_jwk
    kessa.Export.credential_id Issuer.check_spec Issuer.mint_chain Issuer.mint_hop Issuer.mint_hops
    Issuer.publish_list Issuer.reference Issuer.sign_list kessa.Keys.public_key
    kessa.Keys.decode_base64url kessa.Macaroon.Delegation.attenuate_all kessa.Macaroon.mint
    kessa.Status.Publication.check_segments kessa.Status.Publication.marshal
    kessa.Status.Publication.publish kessa.Status.Publication.publish_path
    kessa.Status.Publication.trim_byte kessa.Status.sign kessa.Web.DidWeb.location
    kessa.Web.DidWeb.write_file kessa.Web.Host.is_host_byte kessa.Web.Host.split_port
    kessa.Web.Host.validate_hostname kessa.Web.Host.validate_ipv6_literal
    kessa.Web.Host.validate_port kessa.Web.Paths.clean kessa.Web.Paths.join_path
    kessa.Web.Paths.not_empty kessa.Web.Paths.push kessa.Web.Paths.push_all kessa.Web.all_digits
    kessa.Web.drop_last kessa.Web.has_byte kessa.Web.is_digit kessa.Web.last_byte
    kessa.Web.split_last kessa.Web.starts_with
was_published = refl

publish-verifies_example :
    (Chain.verify tools.env documents minted.links ≡ ok tt)
    × AreAsked spec [] spec.hops minted.links
    × IsHanded tools (publish tools spec root start).0 minted.links
publish-verifies_example =
    publish-verifies tools spec root start documents minted decodes seeds-AreGenuine
      documents-Publishes was_published

abbrev all_clear : StatusList
all_clear = record {
  issuer = org;
  purpose = codes "revocation";
  bits = replicate 16384 0;
  signature = key 1;
}

abbrev disk : Files
disk q = some (
    lists.encode (record {
      issuer = all_clear.issuer;
      purpose = all_clear.purpose;
      encoding = codes "base64url";
      bitstring = all_clear.bits;
      signature = all_clear.signature;
    }))

abbrev list_path : FilePath
list_path = record {
  rooted = true;
  parts = codes "srv" ∷ codes "acme.example" ∷ codes "status" ∷ codes "1.json" ∷ [];
}

was_loaded : (path : FilePath) → load stamps lists disk path ≡ ok all_clear
unfolding load parse str_eq
was_loaded path =
    rw
      (lists-ReadsBack (record {
        issuer = all_clear.issuer;
        purpose = all_clear.purpose;
        encoding = codes "base64url";
        bitstring = all_clear.bits;
        signature = all_clear.signature;
      }))
      refl

clear_bytes : (n : ℕ) → All IsByte (replicate n 0)
clear_bytes zero = tt
clear_bytes (suc n) = (omega arith, clear_bytes n)

enough : min_bits ≤ bit_len all_clear
unfolding bit_len
enough = subst (λ n. min_bits ≤ n * 8) (sym (length-replicate {A = ℕ} 16384 0)) (omega arith)

abbrev files_or : Result IssuerError (Files × FilePath) → Files × FilePath
files_or (ok x) = x
files_or (err x) = (disk, list_path)

was_revoked :
    revoke tools spec root (pos 3) false disk
    ≡ ok (files_or (revoke tools spec root (pos 3) false disk))
unfolding revoke revoked_list published load parse str_eq Issuer.validate key_of
    kessa.Keystore.signer_of kessa.Base.Dict.lookup kessa.Keystore.software_signer
    kessa.Web.after_prefix kessa.Base.split kessa.Web.path_unescape kessa.Web.Host.validate
    kessa.Base.join kessa.Base.split_from Issuer.check_spec Issuer.publish_list Issuer.sign_list
    kessa.Status.Publication.check_segments kessa.Status.Publication.marshal
    kessa.Status.Publication.publish kessa.Status.Publication.publish_path
    kessa.Status.Publication.trim_byte kessa.Status.sign kessa.Web.DidWeb.write_file
    kessa.Web.Host.is_host_byte kessa.Web.Host.split_port kessa.Web.Host.validate_hostname
    kessa.Web.Host.validate_ipv6_literal kessa.Web.Host.validate_port kessa.Web.Paths.clean
    kessa.Web.Paths.join_path kessa.Web.Paths.not_empty kessa.Web.Paths.push
    kessa.Web.Paths.push_all kessa.Web.all_digits kessa.Web.drop_last kessa.Web.has_byte
    kessa.Web.is_digit kessa.Web.last_byte kessa.Web.split_last kessa.Web.starts_with
    kessa.Status.set_bit kessa.Status.bit_len with_field read written
was_revoked = refl

abbrev after : Files × FilePath
after = files_or (revoke tools spec root (pos 3) false disk)

abbrev revoked : StatusList
revoked = record all_clear { bits = set all_clear.bits 0 16 }

was_changed : revoked_list tools spec (pos 3) false all_clear ≡ ok revoked
unfolding revoked_list str_eq key_of kessa.Keystore.signer_of kessa.Base.Dict.lookup
    kessa.Keystore.software_signer Issuer.sign_list kessa.Status.sign kessa.Status.set_bit
    kessa.Status.bit_len kessa.Status.write_bit kessa.Status.mask
was_changed = refl

revoke-loads_example :
    (signer : Signer) × (load stamps lists after.0 after.1 ≡ ok revoked)
    × ((j : ℤ) → lookup revoked j ≡ (if eq_ℤ j (pos 3) then ok true else lookup all_clear j))
    × (key_of tools org ≡ ok signer)
    × (verify stamps revoked org signer.public ≡ ok tt)
revoke-loads_example =
    revoke-loads tools spec root (pos 3) false disk after.0 after.1 all_clear revoked decodes
      seeds-AreGenuine (was_loaded after.1) (clear_bytes 16384) enough was_changed
      (lists-ReadsBack (published stamps revoked)) was_revoked
