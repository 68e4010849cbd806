-- ===== src/Keys/Encoding.antt =====
-- Keys that go through their JWK.
use kessa.Base.{
  ◌==◌, ==_iff, ◌≡◌, refl, sym, ap, ap₂, ◌∙◌, >>=-eq-ok, ok_inj, Bytes, Str, codes, str_eq,
  str_eq_iff, &&-eq-true, ◌↔◌, length, Bool, true, false, ◌&&◌, some, ok, err, guard, if◌then◌else◌,
  some_inj, subst, [],
}
use kessa.Errors.{wrong_key_size, not_on_curve, unsupported_jwk}
use kessa.Platform.{Platform}
use kessa.Keys.{
  Key, ed25519, p256, other, Jwk, decode_base64url, ed25519_key, p256_key, public_key, to_jwk,
  keys_equal,
}

-- The keys that the program accepts: 32 bytes, or a point of the curve.
abbrev pub IsSupported : Platform → Key → Type 0
IsSupported p (ed25519 k) = length k ≡ 32
IsSupported p (p256 x y) = (length x ≡ 32) × (length y ≡ 32) × (p.is_p256_point x y ≡ true)
IsSupported p other = ⊥

-- Decoding reads back what was encoded.
abbrev pub DecodesBase64 : Platform → Type 0
DecodesBase64 p = (b : Bytes) → p.decode_base64_raw (p.encode_base64 b) ≡ some b

module _ (p : Platform) (decodes : DecodesBase64 p) where
  decode_base64url-encode : (b : Bytes) → decode_base64url p (p.encode_base64 b) ≡ ok b
  unfolding decode_base64url
  decode_base64url-encode b = rw (decodes b, decode_base64url) refl

  ed25519_key-encoded :
      (k : Bytes) (t c y : Str)
      → length k ≡ 32
      → ed25519_key p (record { kty = t; crv = c; x = p.encode_base64 k; y = y }) ≡ ok (ed25519 k)
  unfolding ed25519_key
  ed25519_key-encoded k t c y h =
      rw (decode_base64url-encode k) (rw ((==_iff (length k) 32).1 h) refl)

  p256_key-encoded :
      (x y : Bytes) (t c : Str)
      → IsSupported p (p256 x y)
      → p256_key p (record { kty = t; crv = c; x = p.encode_base64 x; y = p.encode_base64 y })
        ≡ ok (p256 x y)
  unfolding p256_key
  p256_key-encoded x y t c (hx, hy, point) =
      rw (decode_base64url-encode x, decode_base64url-encode y)
        (rw ((==_iff (length x) 32).1 hx, (==_iff (length y) 32).1 hy, point) refl)

  -- A supported key that is published as a JWK is read back as the same key.
  pub public_key-to_jwk :
      (k : Key) (j : Jwk) → IsSupported p k → to_jwk p k ≡ some j → public_key p j ≡ ok k
  unfolding public_key to_jwk str_eq
  public_key-to_jwk (ed25519 k) j s h =
      subst (λ q. public_key p q ≡ ok (ed25519 k)) (some_inj h)
        (ed25519_key-encoded k (codes "OKP") (codes "Ed25519") [] s)
  public_key-to_jwk (p256 x y) j s h =
      subst (λ q. public_key p q ≡ ok (p256 x y)) (some_inj h)
        (p256_key-encoded x y (codes "EC") (codes "P-256") s)
  public_key-to_jwk other j s h = cc

  ed25519_key-same :
      (k : Bytes) (l : Key) (t c y : Str)
      → ed25519_key p (record { kty = t; crv = c; x = p.encode_base64 k; y = y }) ≡ ok l
      → ed25519 k ≡ l
  unfolding ed25519_key
  ed25519_key-same k l t c y h =
      let (b, decoded, h') = >>=-eq-ok (decode_base64url p (p.encode_base64 k)) _ h in
      let (_, _, made) = >>=-eq-ok (guard (length b == 32) (wrong_key_size (length b))) _ h' in
      let same : b ≡ k = ok_inj (sym decoded ∙ decode_base64url-encode k) in
      ap ed25519 (sym same) ∙ ok_inj made

  p256_key-same :
      (x y : Bytes) (l : Key) (t c : Str)
      → p256_key p (record { kty = t; crv = c; x = p.encode_base64 x; y = p.encode_base64 y })
        ≡ ok l
      → p256 x y ≡ l
  unfolding p256_key
  p256_key-same x y l t c h =
      let (a, da, h1) = >>=-eq-ok (decode_base64url p (p.encode_base64 x)) _ h in
      let (b, db, h2) = >>=-eq-ok (decode_base64url p (p.encode_base64 y)) _ h1 in
      let (_, _, h3) =
        >>=-eq-ok (guard (length a == 32 && length b == 32) (wrong_key_size (length a))) _ h2 in
      let (_, _, made) = >>=-eq-ok (guard (p.is_p256_point a b) not_on_curve) _ h3 in
      let same_x : x ≡ a = ok_inj (sym (decode_base64url-encode x) ∙ da) in
      let same_y : y ≡ b = ok_inj (sym (decode_base64url-encode y) ∙ db) in
      ap₂ p256 same_x same_y ∙ ok_inj made

  -- No JWK that a key is published as is read back as another key.
  pub public_key-same : (k l : Key) (j : Jwk) → to_jwk p k ≡ some j → public_key p j ≡ ok l → k ≡ l
  unfolding public_key to_jwk str_eq
  public_key-same (ed25519 k) l j h r =
      ed25519_key-same k l (codes "OKP") (codes "Ed25519") []
        (subst (λ q. public_key p q ≡ ok l) (sym (some_inj h)) r)
  public_key-same (p256 x y) l j h r =
      p256_key-same x y l (codes "EC") (codes "P-256")
        (subst (λ q. public_key p q ≡ ok l) (sym (some_inj h)) r)
  public_key-same other l j h r = cc

abbrev pub IsAccepted : Key → Type 0
IsAccepted other = ⊥
IsAccepted k = Unit {0}

pub keys_equal_iff : (k l : Key) → IsAccepted l → (keys_equal k l ≡ true) ↔ (k ≡ l)
unfolding keys_equal
keys_equal_iff (ed25519 k) (ed25519 l) a =
    let same = str_eq_iff k l in (λ h. ap ed25519 (same.0 h), λ h. same.1 (cc))
keys_equal_iff (ed25519 k) (p256 z w) a = (λ h. cc, λ h. cc)
keys_equal_iff k other a = absurd a
keys_equal_iff (p256 x y) (ed25519 l) a = (λ h. cc, λ h. cc)
keys_equal_iff (p256 x y) (p256 z w) a =
    let same = str_eq_iff x z in
    let also = str_eq_iff y w in
    (
      λ h. let (p, q) = &&-eq-true (str_eq x z) (str_eq y w) h in ap₂ p256 (same.0 p) (also.0 q),
      λ h. let p : x ≡ z = cc in let q : y ≡ w = cc in rw (same.1 p, also.1 q) refl,
    )
keys_equal_iff other (ed25519 l) a = (λ h. cc, λ h. cc)
keys_equal_iff other (p256 z w) a = (λ h. cc, λ h. cc)

module _ (p : Platform) (j : Jwk) (k : Key) where
  ed25519_key-IsAccepted : ed25519_key p j ≡ ok k → IsAccepted k
  unfolding ed25519_key
  ed25519_key-IsAccepted h =
      let (b, _, h1) = >>=-eq-ok (decode_base64url p j.x) _ h in
      let (_, _, made) = >>=-eq-ok (guard (length b == 32) (wrong_key_size (length b))) _ h1 in
      subst IsAccepted (ok_inj made) tt

  p256_key-IsAccepted : p256_key p j ≡ ok k → IsAccepted k
  unfolding p256_key
  p256_key-IsAccepted h =
      let (a, _, h1) = >>=-eq-ok (decode_base64url p j.x) _ h in
      let (b, _, h2) = >>=-eq-ok (decode_base64url p j.y) _ h1 in
      let (_, _, h3) =
        >>=-eq-ok (guard (length a == 32 && length b == 32) (wrong_key_size (length a))) _ h2 in
      let (_, _, made) = >>=-eq-ok (guard (p.is_p256_point a b) not_on_curve) _ h3 in
      subst IsAccepted (ok_inj made) tt

  -- Whatever a JWK parses to can be compared.
  pub public_key-IsAccepted : public_key p j ≡ ok k → IsAccepted k
  unfolding public_key
  public_key-IsAccepted =
      by_kind (str_eq j.kty (codes "OKP") && str_eq j.crv (codes "Ed25519"))
        (str_eq j.kty (codes "EC") && str_eq j.crv (codes "P-256"))
    where
      by_kind :
          (a b : Bool)
          → (if a then ed25519_key p j else if b then p256_key p j else err unsupported_jwk) ≡ ok k
          → IsAccepted k
      by_kind true b h = ed25519_key-IsAccepted h
      by_kind false true h = p256_key-IsAccepted h
      by_kind false false h = cc
