-- ===== src/Examples/Brokering.antt =====
-- A daemon that brokers the keys of a keystore and of enrolled devices.
use kessa.Base.{ℕ, ◌≡◌, ◌⊎◌, refl, Str, codes, str_eq, Bool, true, false, some, [], ◌∷◌, ok}
use kessa.Base.Int.{pos}
use kessa.Base.Dict
use kessa.Enroll.{Device, Mapping}
use kessa.Issuer.Daemon.{Enclave, broker}
use kessa.Issuer.Daemon.Roles.{IsMine, IsEnrolled, broker-roles}
use kessa.Signerd.{HeldKey, Server}
use kessa.Examples.World.{key, signer}
use kessa.Keys.{ed25519, Signer}
use kessa.Keystore.{Keystore}
use kessa.Types.{Did}
use kessa.Examples.Issuing.{seeds, org, bot}

-- A keystore with a comment in it, and a phone and a lost laptop that are enrolled.
abbrev seeds_file : Keystore
seeds_file = (codes "_comment", codes "mock") ∷ (org, key 1) ∷ (bot, key 2) ∷ []

abbrev enrolled_device : Did → Str → Bool → Device
enrolled_device d tag revoked = record {
  did = d;
  credential_id = codes "c";
  status_url = codes "list";
  status_index = pos 3;
  fingerprint = codes "f";
  backend = codes "secure-enclave";
  tag = tag;
  algorithm = codes "P-256";
  enrolled_at = pos 9;
  revoked = revoked;
}

abbrev phone : Did
phone = codes "did:web:acme.example:phone"

abbrev people : Mapping
people =
    (
      codes "ann",
      enrolled_device (codes "did:web:acme.example:laptop") (codes "old") true
          ∷ enrolled_device phone (codes "new") false
          ∷ [],
    )
    ∷ []

abbrev enclave : Enclave
enclave d tag = some (signer d 5, true)

abbrev signer_for : Did → ℕ → Signer
signer_for d n = record { did = d; public = ed25519 (key n); sign = λ m. ok (key n) }

abbrev brokering : Server
brokering = record {
  signers = (org, signer_for org 1) ∷ (bot, signer_for bot 2) ∷ (phone, signer phone 5) ∷ [];
  owner = 7;
}

was_started : broker seeds (some seeds_file) (org ∷ []) enclave (some people) 7 ≡ ok brokering
unfolding broker kessa.Issuer.Daemon.keystore_keys Dict.lookup str_eq kessa.Keystore.principals
    kessa.Web.after_prefix kessa.Keystore.signer_of kessa.Keystore.software_signer
    kessa.Issuer.Daemon.enrolled_keys kessa.Signerd.new_keys kessa.Signerd.is_known
    kessa.Issuer.Daemon.contains kessa.Signerd.requires_hardware Dict.insert
was_started = refl

held_phone : Dict.lookup phone brokering.signers ≡ some (signer phone 5)
unfolding Dict.lookup str_eq
held_phone = refl

broker-roles_example :
    (phone ≡ phone)
    × ((k : HeldKey) × (k.signer ≡ some (signer phone 5))
        × (((file : Keystore) × (some seeds_file ≡ some file) × IsMine seeds file (org ∷ []) k)
            ⊎ ((file : Mapping) × (some people ≡ some file)
                × IsEnrolled enclave file k
                × (k.hardware ≡ true))))
broker-roles_example =
    broker-roles seeds (some seeds_file) (org ∷ []) enclave (some people) 7 brokering phone
      (signer phone 5) was_started held_phone
