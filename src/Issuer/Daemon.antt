-- ===== src/Issuer/Daemon.antt =====
-- cmd/issuer/daemon.go: the keys that the daemon brokers.
pub mod Roles
use kessa.Base.{
  ℕ, ◌==◌, is_some, length, ◌||◌, ◌&&◌, Bytes, Str, codes, str_eq, Bool, true, false, not, Option,
  none, some, List, [], ◌∷◌, ◌++◌, Result, ok, err, ◌>>=◌, ◌>>◌, guard, require, wrap,
  if◌then◌else◌,
}
use kessa.Base.Dict.{Dict, lookup}
use kessa.Enroll.{Device, Mapping}
use kessa.Keys.{Signer}
use kessa.Keystore.{Seeds, Keystore, KeystoreError, signer_of, principals}
use kessa.Signerd.{
  KeyPolicy, routine, approval, attestation, HeldKey, DaemonError, Server, new_keys,
}
use kessa.Types.{Did}

pub data KeysError : Type 0 where
  not_in_keystore enclave_failed software_enrolled : Did → KeysError
  unknown_backend : Did → Str → KeysError
  no_key : KeystoreError → KeysError
  no_file attested_without_keystore no_keys : KeysError
  refused : DaemonError → KeysError

unfoldable pub contains : Did → List Did → Bool
contains d [] = false
contains d (e ∷ es) = let rest = contains d es in if str_eq e d then true else rest

check_attested : Keystore → List Did → Result KeysError (Unit {0})
check_attested ks [] = ok tt
check_attested ks (d ∷ ds) = do _ ← require (lookup d ks) (not_in_keystore d); check_attested ks ds

-- `isHardwareBacked` does not find a software signer to be in hardware.
hold_principals : Seeds → Keystore → List Did → List Did → Result KeysError (List HeldKey)
hold_principals g ks attest [] = ok []
hold_principals g ks attest (d ∷ ds) = do
  s ← wrap no_key (signer_of g ks d)
  rest ← hold_principals g ks attest ds
  ok (
      record {
        signer = some s;
        hardware = false;
        policy = if contains d attest then attestation else routine;
      }
      ∷ rest)

-- `keystoreKeys`
unfoldable pub keystore_keys : Seeds → Keystore → List Did → Result KeysError (List HeldKey)
unfolding check_attested hold_principals
keystore_keys g ks attest = do check_attested ks attest; hold_principals g ks attest (principals ks)

-- `enclave.Load`, by the DID and the tag, with what `isHardwareBacked` finds of the signer.
abbrev pub Enclave : Type 0
Enclave = Did → Str → Option (Signer × Bool)

held_in : Option (Signer × Bool) → Did → Result KeysError HeldKey
held_in none d = err (enclave_failed d)
held_in (some (s, hardware)) d =
    ok (record { signer = some s; hardware = hardware; policy = approval })

-- One turn of the loop, for a device that is not revoked.
enrolled_key : Enclave → Device → Result KeysError HeldKey
unfolding held_in
enrolled_key enclave c =
    if str_eq c.backend (codes "secure-enclave")
    then held_in (enclave c.did c.tag) c.did
    else if str_eq c.backend (codes "software")
    then err (software_enrolled c.did)
    else err (unknown_backend c.did c.backend)

device_keys : Enclave → List Device → Result KeysError (List HeldKey)
unfolding enrolled_key
device_keys enclave [] = ok []
device_keys enclave (c ∷ cs) =
    let rest = device_keys enclave cs in
    if c.revoked then rest else do k ← enrolled_key enclave c; ks ← rest; ok (k ∷ ks)

-- `loadEnrolledKeys`, of a mapping whose identities are in the order of `Identities`.
unfoldable pub enrolled_keys : Enclave → Mapping → Result KeysError (List HeldKey)
unfolding device_keys
enrolled_keys enclave [] = ok []
enrolled_keys enclave ((identity, cs) ∷ m) = do
  ks ← device_keys enclave cs
  rest ← enrolled_keys enclave m
  ok (ks ++ rest)

from_keystore : Seeds → Option Keystore → List Did → Result KeysError (List HeldKey)
from_keystore g none attest = ok []
from_keystore g (some ks) attest = keystore_keys g ks attest

from_mapping : Enclave → Option Mapping → Result KeysError (List HeldKey)
from_mapping enclave none = ok []
from_mapping enclave (some m) = enrolled_keys enclave m

-- The keys of the files that are given, together, through the gate of the daemon.
unfoldable pub broker :
    Seeds → Option Keystore → List Did → Enclave → Option Mapping → ℕ → Result KeysError Server
unfolding from_keystore from_mapping
broker g ks attest enclave m uid = do
  guard (is_some ks || is_some m) no_file
  guard (not (not (length attest == 0) && not (is_some ks))) attested_without_keystore
  mine ← from_keystore g ks attest
  enrolled ← from_mapping enclave m
  guard (not (length (mine ++ enrolled) == 0)) no_keys
  wrap refused (new_keys (mine ++ enrolled) uid)
