-- ===== src/Enroll/Devices.antt =====
-- internal/enroll/mapping.go: the map from people to their devices, and the errors of an enrolment.
use kessa.Base.{
  Str, str_eq, is_empty, Bool, false, not, ◌||◌, Option, none, some, List, [], ◌∷◌, ◌++◌, Result,
  ok, err, ◌>>◌, guard, if◌then◌else◌,
}
use kessa.Base.Dict.{Dict, lookup, insert}
use kessa.Base.Int.{ℤ}
use kessa.Errors.{Error}
use kessa.Types.{Did}
use kessa.Web.DidWeb.{DidError}

-- `Credential` of internal/enroll/mapping.go
pub record Device : Type 0 where
  pub did : Did
  pub credential_id : Str
  pub status_url : Str
  pub status_index : ℤ
  pub fingerprint : Str
  pub backend : Str
  pub tag : Str
  pub algorithm : Str
  pub enrolled_at : ℤ
  pub revoked : Bool

-- An employee's devices, under the identity; the newest is last.
abbrev pub Mapping : Type 0
Mapping = Dict (List Device)

pub data EnrollError : Type 0 where
  empty_identity empty_did : EnrollError
  already_registered : Str → EnrollError
  missing_field : Str → EnrollError
  signer_mismatch same_did : EnrollError
  org_unresolved : Error → EnrollError
  key_failed not_confirmed unsupported_key : EnrollError
  no_document_path : DidError → EnrollError
  document_not_written credential_not_written mapping_not_loaded mapping_not_saved : EnrollError
  mint_failed : Error → EnrollError

unfoldable pub holds : Did → List Device → Bool
holds did [] = false
holds did (d ∷ ds) = str_eq d.did did || holds did ds

-- `findByDID`
unfoldable pub find_by_did : Did → Mapping → Option Str
find_by_did did [] = none
find_by_did did ((identity, ds) ∷ m) = if holds did ds then some identity else find_by_did did m

unfoldable pub devices_of : Option (List Device) → List Device
devices_of none = []
devices_of (some ds) = ds

unfoldable pub not_registered : Option Str → Result EnrollError (Unit {0})
not_registered none = ok tt
not_registered (some owner) = err (already_registered owner)

-- `AddCredential`
unfoldable pub add_credential : Mapping → Str → Device → Result EnrollError Mapping
unfolding not_registered devices_of
add_credential m identity d = do
  guard (not (is_empty identity)) empty_identity
  guard (not (is_empty d.did)) empty_did
  not_registered (find_by_did d.did m)
  ok (insert identity (devices_of (lookup identity m) ++ d ∷ []) m)
