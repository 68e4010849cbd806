-- ===== src/Keystore.antt =====
-- internal/keystore/keystore.go and the software signer of internal/signer/signer.go: keys that are
-- made from seeds in a file.
use kessa.Base.{
  ℕ, codes, All, ◌==◌, ltb, is_some, Bool, true, false, List, [], ◌∷◌, ==_iff, Bytes, Str, length,
  Option, Result, ok, ◌>>=◌, ◌>>◌, guard, require, ◌≡◌, if◌then◌else◌, refl, subst, >>=-eq-ok,
  ok_inj,
}
use kessa.Base.Dict.{Dict, lookup}
use kessa.Keys.{Signer, IsGenuine, ed25519, verify_signature}
use kessa.Keys.Encoding.{IsSupported}
use kessa.Platform.{Platform}
use kessa.Types.{Did}
use kessa.Web.{after_prefix}

-- What is taken from encoding/hex and crypto/ed25519.
pub record Seeds : Type 0 where
  -- hex.DecodeString
  pub decode_hex : Str → Option Bytes
  -- the public half of ed25519.NewKeyFromSeed
  pub public_of : Bytes → Bytes
  -- ed25519.Sign with the key of a seed
  pub sign_with : Bytes → Bytes → Bytes

pub data KeystoreError : Type 0 where
  no_seed not_hex : Did → KeystoreError
  wrong_seed_size : ℕ → KeystoreError

-- A seed in hexadecimal digits for each principal.
abbrev pub Keystore : Type 0
Keystore = Dict Str

-- `NewSoftwareSignerFromSeed`, with its `Sign`.
unfoldable pub software_signer : Seeds → Did → Bytes → Result KeystoreError Signer
software_signer g did seed = do
  guard (length seed == 32) (wrong_seed_size (length seed))
  ok (record {
    did = did;
    public = ed25519 (g.public_of seed);
    sign = λ message. ok (g.sign_with seed message);
  })

-- `Keystore.Signer`
unfoldable pub signer_of : Seeds → Keystore → Did → Result KeystoreError Signer
signer_of g ks d = do
  digits ← require (lookup d ks) (no_seed d)
  seed ← require (g.decode_hex digits) (not_hex d)
  software_signer g d seed

-- `<` on strings, by their bytes.
is_before : Str → Str → Bool
is_before s [] = false
is_before [] (c ∷ t) = true
is_before (b ∷ s) (c ∷ t) = let rest = is_before s t in if b == c then rest else ltb b c

place : Did → List Did → List Did
unfolding is_before
place d [] = d ∷ []
place d (e ∷ es) = let rest = place d es in if is_before e d then e ∷ rest else d ∷ e ∷ es

-- `Keystore.Principals`: the keys that are DIDs, in order.
unfoldable pub principals : Keystore → List Did
unfolding place
principals [] = []
principals ((d, digits) ∷ ks) =
    let rest = principals ks in
    if is_some (after_prefix (codes "did:") d) then place d rest else rest

abbrev pub IsDid : Did → Type 0
IsDid d = is_some (after_prefix (codes "did:") d) ≡ true

place-All : (P : Did → Type 0) (d : Did) (ds : List Did) → P d → All P ds → All P (place d ds)
unfolding place
place-All P d [] h all = (h, tt)
place-All P d (e ∷ es) h all = by_order (place-All P d es h all.1) (is_before e d)
  where
    by_order : All P (place d es) → (b : Bool) → All P (if b then e ∷ place d es else d ∷ e ∷ es)
    by_order later true = (all.0, later)
    by_order later false = (h, all)

pub principals-IsDid : (ks : Keystore) → All IsDid (principals ks)
unfolding principals
principals-IsDid [] = tt
principals-IsDid ((d, digits) ∷ ks) =
    by_test (principals-IsDid ks) (is_some (after_prefix (codes "did:") d)) refl
  where
    by_test :
        All IsDid (principals ks)
        → (b : Bool) → is_some (after_prefix (codes "did:") d) ≡ b
        → All IsDid (if b then place d (principals ks) else principals ks)
    by_test later true h = place-All IsDid d (principals ks) h later
    by_test later false h = later

-- The keys of crypto/ed25519 have 32 bytes, and what they sign verifies.
pub record AreGenuine (g : Seeds) (p : Platform) : Type 0 where
  pub size : (seed : Bytes) → length (g.public_of seed) ≡ 32
  pub genuine :
      (seed message : Bytes)
      → p.ed25519_verify (g.public_of seed) message (g.sign_with seed message) ≡ true

module _ (g : Seeds) (p : Platform) (genuine : AreGenuine g p) where
  software_signer-IsGenuine :
      (d : Did) (seed : Bytes) (s : Signer)
      → software_signer g d seed ≡ ok s
      → (s.did ≡ d) × IsGenuine p s × IsSupported p s.public
  unfolding software_signer verify_signature
  software_signer-IsGenuine d seed s h =
      let (_, _, made) =
        >>=-eq-ok (guard (length seed == 32) (wrong_seed_size (length seed))) _ h in
      subst (λ k. (k.did ≡ d) × IsGenuine p k × IsSupported p k.public) (ok_inj made)
        (
          refl,
          λ message sig signed. rw ((==_iff (length (g.public_of seed)) 32).1 (genuine.size seed)) (
              subst (λ x. p.ed25519_verify (g.public_of seed) message x ≡ true) (ok_inj signed)
                (genuine.genuine seed message)),
          genuine.size seed,
        )

  -- What the keystore makes is a genuine signer of the principal, with a key that is accepted.
  pub signer_of-IsGenuine :
      (ks : Keystore) (d : Did) (s : Signer)
      → signer_of g ks d ≡ ok s
      → (s.did ≡ d) × IsGenuine p s × IsSupported p s.public
  unfolding signer_of
  signer_of-IsGenuine ks d s h =
      let (digits, _, h1) = >>=-eq-ok (require (lookup d ks) (no_seed d)) _ h in
      let (seed, _, made) = >>=-eq-ok (require (g.decode_hex digits) (not_hex d)) _ h1 in
      software_signer-IsGenuine d seed s made
