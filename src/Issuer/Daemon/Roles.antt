-- ===== src/Issuer/Daemon/Roles.antt =====
-- What the daemon of the issuer brokers.
use kessa.Base.{
  ℕ, ◌≡◌, ◌⊎◌, inl, inr, refl, sym, ap, subst, Str, codes, guard, length, not, ◌&&◌, ◌||◌, ◌==◌,
  str_eq, str_eq_iff, Bool, true, false, Bool-cases, is_some, Option, none, some, List, [], ◌∷◌,
  ◌++◌, In, All, ◌>>=◌, ok, err, wrap, >>=-eq-ok, >>-eq-ok, wrap-eq-ok, ok_inj, if◌then◌else◌,
}
use kessa.Enroll.{Device, Mapping}
use kessa.Issuer.Daemon.{
  no_key, no_file, no_keys, attested_without_keystore, refused, from_keystore, from_mapping,
  software_enrolled, unknown_backend, Enclave, contains, check_attested, hold_principals,
  keystore_keys, held_in, enrolled_key, device_keys, enrolled_keys, broker,
}
use kessa.Keys.{Signer}
use kessa.Keystore.{Seeds, Keystore, IsDid, principals-IsDid, principals, signer_of}
use kessa.Signerd.{routine, approval, attestation, HeldKey, Server, requires_hardware}
use kessa.Signerd.Gates.{new_keys-IsGated}
use kessa.Base.Dict.{lookup}
use kessa.Types.{Did}

All-at : {A : Type 0} (P : A → Type 0) (x : A) (xs : List A) → In x xs → All P xs → P x
All-at P x [] i all = absurd i
All-at P x (y ∷ ys) (inl e) all = subst P (sym e) all.0
All-at P x (y ∷ ys) (inr i) all = All-at P x ys i all.1

All-append : {A : Type 0} (P : A → Type 0) (xs ys : List A) → All P xs → All P ys → All P (xs ++ ys)
All-append P [] ys hx hy = hy
All-append P (x ∷ xs) ys hx hy = (hx.0, All-append P xs ys hx.1 hy)

All-mono :
    {A : Type 0} (P Q : A → Type 0) → ((x : A) → P x → Q x) → (xs : List A) → All P xs → All Q xs
All-mono P Q f [] h = tt
All-mono P Q f (x ∷ xs) h = (f x h.0, All-mono P Q f xs h.1)

-- A key of the keystore, which is not for approvals.
pub record IsMine (g : Seeds) (ks : Keystore) (attest : List Did) (k : HeldKey) : Type 0 where
  pub did : Did
  pub signer : Signer
  pub is_did : IsDid did
  pub made : signer_of g ks did ≡ ok signer
  pub held : k.signer ≡ some signer
  pub role : k.policy ≡ (if contains did attest then attestation else routine)

-- The key of an enrolled device that is not revoked, from the enclave.
pub record IsEnrolled (enclave : Enclave) (m : Mapping) (k : HeldKey) : Type 0 where
  pub identity : Str
  pub devices : List Device
  pub device : Device
  pub signer : Signer
  pub registered : In (identity, devices) m
  pub own : In device devices
  pub current : device.revoked ≡ false
  pub backend : device.backend ≡ codes "secure-enclave"
  pub loaded : enclave device.did device.tag ≡ some (signer, k.hardware)
  pub held : k.signer ≡ some signer
  pub role : k.policy ≡ approval

module _ (g : Seeds) (ks : Keystore) (attest : List Did) where
  hold_principals-AreMine :
      (ds : List Did) (out : List HeldKey)
      → All IsDid ds
      → hold_principals g ks attest ds ≡ ok out
      → All (IsMine g ks attest) out
  unfolding hold_principals
  hold_principals-AreMine [] out dids h = subst (All (IsMine g ks attest)) (ok_inj h) tt
  hold_principals-AreMine (d ∷ ds) out dids h =
      let (s, made, h1) = >>=-eq-ok (wrap no_key (signer_of g ks d)) _ h in
      let (rest, more, h2) = >>=-eq-ok (hold_principals g ks attest ds) _ h1 in
      subst (All (IsMine g ks attest)) (ok_inj h2) (
        record {
          did = d;
          signer = s;
          is_did = dids.0;
          made = wrap-eq-ok no_key _ made;
          held = refl;
          role = refl;
        },
        hold_principals-AreMine ds rest dids.1 more,
      )

module _ (enclave : Enclave) (m : Mapping) where
  held_in-IsEnrolled :
      (identity : Str) (cs : List Device) (c : Device) (o : Option (Signer × Bool)) (k : HeldKey)
      → enclave c.did c.tag ≡ o
      → In (identity, cs) m
      → In c cs
      → c.revoked ≡ false
      → c.backend ≡ codes "secure-enclave"
      → held_in o c.did ≡ ok k
      → IsEnrolled enclave m k
  unfolding held_in
  held_in-IsEnrolled identity cs c none k e i own current backend h = cc
  held_in-IsEnrolled identity cs c (some (s, hardware)) k e i own current backend h =
      subst (IsEnrolled enclave m) (ok_inj h) (record {
        identity = identity;
        devices = cs;
        device = c;
        signer = s;
        registered = i;
        own = own;
        current = current;
        backend = backend;
        loaded = e;
        held = refl;
        role = refl;
      })

  enrolled_key-IsEnrolled :
      (identity : Str) (cs : List Device) (c : Device) (k : HeldKey)
      → In (identity, cs) m
      → In c cs
      → c.revoked ≡ false
      → enrolled_key enclave c ≡ ok k
      → IsEnrolled enclave m k
  unfolding enrolled_key
  enrolled_key-IsEnrolled identity cs c k i own current h =
      by_backend (str_eq c.backend (codes "secure-enclave")) refl h
    where
      by_backend :
          (b : Bool)
          → str_eq c.backend (codes "secure-enclave") ≡ b
          → (if b
              then held_in (enclave c.did c.tag) c.did
              else if str_eq c.backend (codes "software")
              then err (software_enrolled c.did)
              else err (unknown_backend c.did c.backend))
            ≡ ok k
          → IsEnrolled enclave m k
      by_backend true e h =
          held_in-IsEnrolled identity cs c _ k refl i own current ((str_eq_iff _ _).0 e) h
      by_backend false e h = elim (Bool-cases (str_eq c.backend (codes "software"))) [
        | inl soft ↦ cc (rw soft at h)
        | inr odd ↦ cc (rw odd at h)
      ]

  device_keys-AreEnrolled :
      (identity : Str) (whole cs : List Device) (out : List HeldKey)
      → In (identity, whole) m
      → ((c : Device) → In c cs → In c whole)
      → device_keys enclave cs ≡ ok out
      → All (IsEnrolled enclave m) out
  unfolding device_keys
  device_keys-AreEnrolled identity whole [] out i within h =
      subst (All (IsEnrolled enclave m)) (ok_inj h) tt
  device_keys-AreEnrolled identity whole (c ∷ cs) out i within h =
      by_state (λ ks. device_keys-AreEnrolled identity whole cs ks i (λ d j. within d (inr j)))
        c.revoked refl h
    where
      by_state :
          ((ks : List HeldKey) → device_keys enclave cs ≡ ok ks → All (IsEnrolled enclave m) ks)
          → (b : Bool) → c.revoked ≡ b
          → (if b
              then device_keys enclave cs
              else (enrolled_key enclave c >>= λ k. device_keys enclave cs >>= λ ks. ok (k ∷ ks)))
            ≡ ok out
          → All (IsEnrolled enclave m) out
      by_state later true e h = later out h
      by_state later false e h =
          let (k, made, h1) = >>=-eq-ok (enrolled_key enclave c) _ h in
          let (ks, more, h2) = >>=-eq-ok (device_keys enclave cs) _ h1 in
          subst (All (IsEnrolled enclave m)) (ok_inj h2) (
            enrolled_key-IsEnrolled identity whole c k i (within c (inl refl)) e made,
            later ks more,
          )

  enrolled_keys-AreEnrolled :
      (part : Mapping) (out : List HeldKey)
      → ((x : Str × List Device) → In x part → In x m)
      → enrolled_keys enclave part ≡ ok out
      → All (IsEnrolled enclave m) out
  unfolding enrolled_keys
  enrolled_keys-AreEnrolled [] out within h = subst (All (IsEnrolled enclave m)) (ok_inj h) tt
  enrolled_keys-AreEnrolled ((identity, cs) ∷ part) out within h =
      let (ks, made, h1) = >>=-eq-ok (device_keys enclave cs) _ h in
      let (rest, more, h2) = >>=-eq-ok (enrolled_keys enclave part) _ h1 in
      subst (All (IsEnrolled enclave m)) (ok_inj h2) (
        All-append (IsEnrolled enclave m) ks rest
          (device_keys-AreEnrolled identity cs cs ks (within _ (inl refl)) (λ d j. j) made)
          (enrolled_keys-AreEnrolled part rest (λ x j. within x (inr j)) more))

-- What a key of the daemon is: of the keystore, or of an enrolled device.
abbrev HasRole : Seeds → Option Keystore → List Did → Enclave → Option Mapping → HeldKey → Type 0
HasRole g ks attest enclave m k =
    ((file : Keystore) × (ks ≡ some file) × IsMine g file attest k)
    ⊎ ((file : Mapping) × (m ≡ some file) × IsEnrolled enclave file k)

module _ (g : Seeds) (ks : Option Keystore) (attest : List Did) (enclave : Enclave)
    (m : Option Mapping) where
  from_keystore-HaveRoles :
      (o : Option Keystore) (out : List HeldKey)
      → ks ≡ o
      → from_keystore g o attest ≡ ok out
      → All (HasRole g ks attest enclave m) out
  unfolding from_keystore keystore_keys
  from_keystore-HaveRoles none out e h = subst (All (HasRole g ks attest enclave m)) (ok_inj h) tt
  from_keystore-HaveRoles (some file) out e h =
      let (_, held) = >>-eq-ok (check_attested file attest) _ h in
      All-mono (IsMine g file attest) _ (λ k x. inl (file, e, x)) out
        (hold_principals-AreMine g file attest (principals file) out (principals-IsDid file) held)

  from_mapping-HaveRoles :
      (o : Option Mapping) (out : List HeldKey)
      → m ≡ o
      → from_mapping enclave o ≡ ok out
      → All (HasRole g ks attest enclave m) out
  unfolding from_mapping
  from_mapping-HaveRoles none out e h = subst (All (HasRole g ks attest enclave m)) (ok_inj h) tt
  from_mapping-HaveRoles (some file) out e h =
      All-mono (IsEnrolled enclave file) _ (λ k x. inr (file, e, x)) out
        (enrolled_keys-AreEnrolled enclave file file out (λ x i. i) h)

approval-hardware :
    (k : HeldKey)
    → (requires_hardware k.policy ≡ true → k.hardware ≡ true)
    → k.policy ≡ approval
    → k.hardware ≡ true
unfolding requires_hardware
approval-hardware k gate role = gate (ap requires_hardware role)

-- Every key that the daemon brokers is the keystore's key of a DID, as a routine key or, where it
-- is named for this, for attestation; or it is for approvals, the key of a registered device that
-- is not revoked and was enrolled in the enclave, which loaded it, and it is held in hardware.
pub broker-roles :
    (g : Seeds) (ks : Option Keystore) (attest : List Did) (enclave : Enclave) (m : Option Mapping)
    (uid : ℕ) (server : Server) (did : Did) (s : Signer)
    → broker g ks attest enclave m uid ≡ ok server
    → lookup did server.signers ≡ some s
    → (s.did ≡ did)
      × ((k : HeldKey) × (k.signer ≡ some s)
          × (((file : Keystore) × (ks ≡ some file) × IsMine g file attest k)
              ⊎ ((file : Mapping) × (m ≡ some file)
                  × IsEnrolled enclave file k
                  × (k.hardware ≡ true))))
unfolding broker
broker-roles g ks attest enclave m uid server did s h found =
    let (_, h1) = >>-eq-ok (guard (is_some ks || is_some m) no_file) _ h in
    let (_, h2) =
      >>-eq-ok
        (guard (not (not (length attest == 0) && not (is_some ks))) attested_without_keystore) _
        h1 in
    let (mine, a, h3) = >>=-eq-ok (from_keystore g ks attest) _ h2 in
    let (enrolled, b, h4) = >>=-eq-ok (from_mapping enclave m) _ h3 in
    let (_, h5) = >>-eq-ok (guard (not (length (mine ++ enrolled) == 0)) no_keys) _ h4 in
    let (_, gates) = new_keys-IsGated (mine ++ enrolled) uid server (wrap-eq-ok refused _ h5) in
    let gate = gates did s found in
    let roles =
      All-append (HasRole g ks attest enclave m) mine enrolled
        (from_keystore-HaveRoles g ks attest enclave m ks mine refl a)
        (from_mapping-HaveRoles g ks attest enclave m m enrolled refl b) in
    let role =
      All-at (HasRole g ks attest enclave m) gate.key (mine ++ enrolled) gate.given roles in
    (
      gate.own,
      (
        gate.key,
        gate.signer,
        elim role [
          | inl x ↦ inl x
          | inr (file, e, x) ↦ inr (file, e, x, approval-hardware gate.key gate.hardware x.role)
        ],
      ),
    )
