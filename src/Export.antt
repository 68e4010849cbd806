-- ===== src/Export.antt =====
-- internal/export/export.go: the self-contained envelope that a verifier reads.
pub mod Checks
pub mod Verify
pub mod Envelope
pub mod Records
use kessa.Base.{
  ℕ, ◌==◌, Bytes, Str, codes, str_eq, is_empty, Bool, true, false, not, Option, none, some, is_some,
  List, [], ◌∷◌, length, Result, ok, err, ◌>>=◌, ◌>>◌, guard, require, wrap, if◌then◌else◌,
}
use kessa.Base.Binary.{big_endian, ◌⁀◌}
use kessa.Base.Dict.{Dict, lookup, insert}
use kessa.Audit.{last_hash, genesis_hash}
use kessa.Audit.Data.{Entry}
use kessa.Credential.Data.{Credential}
use kessa.Env.{Env}
use kessa.Errors.{
  Error, cannot_encode, v1_with_credentials, v1_with_policy, v1_with_signature, unsupported_version,
  bad_carried_policy, bad_policy_id, unsigned_envelope, envelope_signature_invalid,
}
use kessa.Keys.{Key, Signer, verify_signature}
use kessa.Platform.{Platform}
use kessa.Policy
use kessa.Policy.{Policy}
use kessa.Types.{Did}

abbrev pub version_1 : Str
version_1 = codes "kessa-audit-export/v1"

abbrev pub version_2 : Str
version_2 = codes "kessa-audit-export/v2"

pub record CredentialRecord : Type 0 where
  pub credential_id : Str
  pub credential : Credential
  pub issuer_proof : Bytes

pub record Export : Type 0 where
  pub version : Str
  pub signer : Did
  pub entries : List Entry
  pub credentials : Dict CredentialRecord
  pub policy : Option Policy
  pub envelope_signature : Bytes

unfoldable pub credential_id : Env → Credential → Result Error Str
credential_id env c = do
  body ← require (env.marshal_credential c) cannot_encode
  ok (env.platform.encode_base64 (env.platform.sha256 (codes "kessa/credential-id/v1" ⁀ body)))

unfoldable pub policy_id : Env → Policy → Result Error Str
policy_id env pol = do
  body ← require (env.marshal_policy pol) cannot_encode
  ok (env.platform.encode_base64 (env.platform.sha256 (codes "kessa/policy-id/v1" ⁀ body)))

unfoldable pub envelope_signing_input : Str → Did → Str → ℕ → Bytes → Bytes
envelope_signing_input version signer pid count tip =
    codes "kessa/audit-export-envelope/v2" ⁀ version ⁀ signer ⁀ pid ⁀ big_endian count ⁀ tip

unfoldable pub log_tip : List Entry → Bytes
log_tip es = last_hash genesis_hash es

-- `CredentialSet`: the records by their ids.
abbrev pub CredentialSet : Type 0
CredentialSet = Dict CredentialRecord

-- The first record of an id is kept.
pub add_record : CredentialSet → Str → Credential → Bytes → CredentialSet
add_record set id c proof =
    if is_some (lookup id set)
    then set
    else insert id (record { credential_id = id; credential = c; issuer_proof = proof }) set

unfoldable pub add : Env → CredentialSet → Credential → Bytes → Result Error (CredentialSet × Str)
unfolding add_record
add env set c proof = do id ← credential_id env c; ok (add_record set id c proof, id)

unfoldable pub has : CredentialSet → Str → Bool
has set id = is_some (lookup id set)

-- The empty id where no policy is carried.
unfoldable pub carried_id : Env → Option Policy → Result Error Str
carried_id env none = ok []
carried_id env (some pol) = policy_id env pol

-- The message of the envelope signature, recomputed from what the export holds.
unfoldable pub envelope_input : Export → Str → Bytes
envelope_input e pid =
    envelope_signing_input e.version e.signer pid (length e.entries) (log_tip e.entries)

unfoldable pub build :
    Env → Signer → List Entry → CredentialSet → Option Policy → Result Error Export
build env ep entries set pol = do
  let e : Export = record {
    version = version_2;
    signer = ep.did;
    entries = entries;
    credentials = set;
    policy = pol;
    envelope_signature = [];
  }
  pid ← carried_id env pol
  sig ← ep.sign (envelope_input e pid)
  ok (record e { envelope_signature = sig })

unfoldable pub is_v1 : Export → Bool
is_v1 e = str_eq e.version version_1

validate_carried : Platform → Option Policy → Result Error (Unit {0})
validate_carried p none = ok tt
validate_carried p (some pol) = wrap bad_carried_policy (Policy.validate p pol)

parse_v2 : Platform → Export → Result Error Export
unfolding validate_carried
parse_v2 p e = do validate_carried p e.policy; ok e

parse_v1 : Export → Result Error Export
parse_v1 e = do
  guard (length e.credentials == 0) v1_with_credentials
  guard (not (is_some e.policy)) v1_with_policy
  guard (length e.envelope_signature == 0) v1_with_signature
  ok e

-- `Parse`, after the decoding: the versions that are accepted, and what each may carry.
unfoldable pub parse : Platform → Export → Result Error Export
unfolding parse_v2 parse_v1
parse p e =
    if str_eq e.version version_2
    then parse_v2 p e
    else if str_eq e.version version_1
    then parse_v1 e
    else err (unsupported_version e.version)

-- internal/export/verify.go
unfoldable pub verify_envelope : Env → Export → Key → Result Error (Unit {0})
verify_envelope env e k = do
  pid ← wrap bad_policy_id (carried_id env e.policy)
  guard (not (length e.envelope_signature == 0)) unsigned_envelope
  guard (verify_signature env.platform k (envelope_input e pid) e.envelope_signature)
      envelope_signature_invalid
