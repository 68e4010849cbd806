-- ===== src/Vc.antt =====
-- internal/vc/vc.go: the credential that one organisation signs for another.
pub mod Issued
use kessa.Base.{
  ℕ, Bytes, Str, codes, str_eq, is_empty, length, ◌==◌, Bool, true, false, not, Option, none, some,
  List, [], ◌∷◌, ◌++◌, Result, ok, err, ◌>>=◌, ◌>>◌, guard, require, wrap, if◌then◌else◌,
}
use kessa.Base.Binary.{◌⁀◌}
use kessa.Base.Int.{ℤ, ltb_ℤ}
use kessa.Errors.{Error}
use kessa.Keys.{Key, Signer, verify_signature}
use kessa.Platform.{Platform}
use kessa.Types.{Did}

pub data VcError : Type 0 where
  bad_subject not_canonical : VcError
  not_signed : Error → VcError
  no_proof bad_proof_value proof_failed : VcError
  unsupported_proof : Str → VcError
  not_yet_valid expired : ℤ → VcError

-- `Proof`
pub record VcProof : Type 0 where
  pub type : Str
  pub created : ℤ
  pub verification_method : Str
  pub proof_purpose : Str
  pub proof_value : Str

pub record VerifiableCredential : Type 0 where
  pub context : List Str
  pub types : List Str
  pub issuer : Did
  pub issuance_date : ℤ
  pub expiration_date : Option ℤ
  pub subject : Bytes
  pub proof : Option VcProof

-- json.Marshal of the credential
abbrev pub MarshalVc : Type 0
MarshalVc = VerifiableCredential → Option Bytes

-- `none` stands for the zero time.
pub record IssueOptions : Type 0 where
  pub issued_at : Option ℤ
  pub expires : Option ℤ
  pub extra_types : List Str
  pub verification_method : Str

abbrev pub proof_type : Str
proof_type = codes "Ed25519Signature2020"

without_value : Option VcProof → Option VcProof
without_value none = none
without_value (some p) = some (record p { proof_value = [] })

-- `signingInput`
unfoldable pub signing_input : MarshalVc → VerifiableCredential → Result VcError Bytes
unfolding without_value
signing_input marshal c = do
  body ← require (marshal (record c { proof = without_value c.proof })) not_canonical
  ok (codes "kessa/vc/v1" ⁀ body)

pub or_now : ℤ → Option ℤ → ℤ
or_now now none = now
or_now now (some t) = t

-- The credential that is signed.
unfoldable pub unsigned : Signer → Bytes → IssueOptions → ℤ → VerifiableCredential
unfolding or_now
unsigned s subject o now = record {
  context = codes "https://www.w3.org/2018/credentials/v1" ∷ [];
  types = codes "VerifiableCredential" ∷ o.extra_types;
  issuer = s.did;
  issuance_date = or_now now o.issued_at;
  expiration_date = o.expires;
  subject = subject;
  proof = some (record {
    type = proof_type;
    created = or_now now o.issued_at;
    verification_method =
        if is_empty o.verification_method then s.did ++ codes "#key-1" else o.verification_method;
    proof_purpose = codes "assertionMethod";
    proof_value = [];
  });
}

with_value : Str → Option VcProof → Option VcProof
with_value v none = none
with_value v (some p) = some (record p { proof_value = v })

-- `Issue`, of what json.Marshal makes of the subject.
unfoldable pub issue :
    Platform
    → MarshalVc
    → Signer
    → Option Bytes
    → IssueOptions
    → ℤ
    → Result VcError VerifiableCredential
unfolding with_value
issue p marshal s subject o now = do
  cs ← require subject bad_subject
  let c : VerifiableCredential = unsigned s cs o now
  input ← signing_input marshal c
  sig ← wrap not_signed (s.sign input)
  ok (record c { proof = with_value (p.encode_base64 sig) c.proof })

-- `Verify`
unfoldable pub verify :
    Platform → MarshalVc → VerifiableCredential → Key → Result VcError (Unit {0})
verify p marshal c key = do
  proof ← require c.proof no_proof
  guard (str_eq proof.type proof_type) (unsupported_proof proof.type)
  sig ← require (p.decode_base64_raw proof.proof_value) bad_proof_value
  input ← signing_input marshal c
  guard (verify_signature p key input sig) proof_failed

check_expiry : ℤ → Option ℤ → Result VcError (Unit {0})
check_expiry t none = ok tt
check_expiry t (some e) = guard (not (ltb_ℤ e t)) (expired e)

-- `Valid`
unfoldable pub valid : VerifiableCredential → ℤ → Result VcError (Unit {0})
unfolding check_expiry
valid c t = do
  guard (not (ltb_ℤ t c.issuance_date)) (not_yet_valid c.issuance_date)
  check_expiry t c.expiration_date
