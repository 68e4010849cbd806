-- ===== src/Credential/Binding.antt =====
-- The holder key of a credential, and the caveat that binds a macaroon to it.
use kessa.Base.{
  ◌==◌, ◌≡◌, sym, ap, ◌∙◌, subst, str_eq, str_eq_refl, is_empty, length, not, ◌||◌, Option, none,
  some, ok, guard, wrap, >>=-eq-ok, wrap-eq-ok, ok_inj, arith,
}
use kessa.Base.Dict.{lookup}
use kessa.Credential.{
  check_key, checked_jwk, holder_jwk, create, holder_field, jwk_value, holder_value, holder_caveat,
  holder_entry, holder_context,
}
use kessa.Credential.Data.{Credential, Options}
use kessa.Env.{Env}
use kessa.Errors.{empty_subject, empty_issuer, unsigned_macaroon, invalid_holder_key}
use kessa.Keys.{Key, ed25519, p256, other, Jwk, public_key, to_jwk}
use kessa.Keys.Encoding.{DecodesBase64, public_key-same}
use kessa.Macaroon.{Caveat, eq, satisfied}
use kessa.Macaroon.Accepts.{accepts, satisfied_iff}
use kessa.Platform.{Platform}

check_key_inv : (key : Option Key) (k : Key) → check_key key ≡ ok k → key ≡ some k
unfolding check_key
check_key_inv none k h = cc
check_key_inv (some (ed25519 l)) k h = ground arith
check_key_inv (some (p256 x y)) k h = ap some (ok_inj h)
check_key_inv (some other) k h = cc

checked_jwk_inv :
    (p : Platform) (o : Option Jwk) (j : Jwk)
    → checked_jwk p o ≡ ok j
    → (o ≡ some j) × ((l : Key) × (public_key p j ≡ ok l))
unfolding checked_jwk
checked_jwk_inv p none j h = cc
checked_jwk_inv p (some i) j h =
    let (l, parsed, made) = >>=-eq-ok (wrap invalid_holder_key (public_key p i)) _ h in
    (
      ap some (ok_inj made),
      (
        l,
        subst (λ q. public_key p q ≡ ok l) (ok_inj made)
            (wrap-eq-ok invalid_holder_key (public_key p i) parsed),
      ),
    )

holder_jwk_inv :
    (p : Platform) (key : Option Key) (j : Jwk)
    → DecodesBase64 p
    → holder_jwk p key ≡ ok j
    → (k : Key) × (key ≡ some k) × (public_key p j ≡ ok k)
unfolding holder_jwk
holder_jwk_inv p key j decodes h =
    let (k, given, h') = >>=-eq-ok (check_key key) _ h in
    let (made, (l, parsed)) = checked_jwk_inv p (to_jwk p k) j h' in
    (
      k,
      check_key_inv key k given,
      parsed ∙ ap ok (sym (public_key-same p decodes k l j made parsed)),
    )

pub create_inv :
    (p : Platform) (o : Options) (c : Credential)
    → create p o ≡ ok c
    → (j : Jwk) × (holder_jwk p o.holder_key ≡ ok j)
      × (c ≡ record {
        subject = o.subject;
        issuer = o.issuer;
        macaroon = o.macaroon;
        status_ref = o.status_ref;
        holder_key = some j;
        vc_wrapper = o.vc_wrapper;
      })
unfolding create
create_inv p o c h =
    let (_, _, h1) = >>=-eq-ok (guard (not (is_empty o.subject)) empty_subject) _ h in
    let (_, _, h2) = >>=-eq-ok (guard (not (is_empty o.issuer)) empty_issuer) _ h1 in
    let (j, encoded, h3) = >>=-eq-ok (holder_jwk p o.holder_key) _ h2 in
    let (_, _, made) =
      >>=-eq-ok
        (guard (not (is_empty o.macaroon.identifier || length o.macaroon.signature == 0))
          unsigned_macaroon)
        _ h3 in
    (j, encoded, sym (ok_inj made))

-- A credential that `New` composes carries a key, and it parses back to the key that was given,
-- where decoding base64url undoes encoding.
pub create-holder_key :
    (p : Platform) (o : Options) (c : Credential)
    → DecodesBase64 p
    → create p o ≡ ok c
    → (j : Jwk) × (k : Key) × (c.holder_key ≡ some j)
      × (o.holder_key ≡ some k)
      × (public_key p j ≡ ok k)
create-holder_key p o c decodes h =
    let (j, encoded, made) = create_inv p o c h in
    let (k, given, parsed) = holder_jwk_inv p o.holder_key j decodes encoded in
    (j, k, ap (λ d. d.holder_key) made, given, parsed)

holder_caveat_inv :
    (env : Env) (key : Option Key) (cav : Caveat)
    → holder_caveat env key ≡ ok cav
    → (j : Jwk) × (holder_jwk env.platform key ≡ ok j)
      × (cav ≡ record { field = holder_field; op = eq; value = jwk_value env j })
unfolding holder_caveat holder_value
holder_caveat_inv env key cav h =
    let (v, valued, made) = >>=-eq-ok (holder_value env key) _ h in
    let (j, encoded, value) = >>=-eq-ok (holder_jwk env.platform key) _ valued in
    (
      j,
      encoded,
      sym (ok_inj made)
          ∙ ap (λ w. record { field = holder_field; op = eq; value = w }) (sym (ok_inj value)),
    )

same_holder :
    (env : Env) (j : Jwk)
    → satisfied env.platform
        (holder_entry env (some j))
        (record { field = holder_field; op = eq; value = jwk_value env j })
      ≡ ok tt
unfolding holder_entry lookup accepts str_eq
same_holder env j =
    (satisfied_iff env.platform (holder_entry env (some j))
        (record { field = holder_field; op = eq; value = jwk_value env j })).1
      (str_eq_refl (jwk_value env j))

-- The caveat that binds a macaroon to a key is satisfied in the context of every credential that
-- was composed with this key.
pub holder_caveat-satisfied :
    (env : Env) (o : Options) (c : Credential) (cav : Caveat)
    → create env.platform o ≡ ok c
    → holder_caveat env o.holder_key ≡ ok cav
    → satisfied env.platform (holder_context env c) cav ≡ ok tt
unfolding holder_context
holder_caveat-satisfied env o c cav made bound =
    let (j, encoded, composed) = create_inv env.platform o c made in
    let (i, encoded', caveat) = holder_caveat_inv env o.holder_key cav bound in
    let same : j ≡ i = ok_inj (sym encoded ∙ encoded') in
    rw (composed, caveat, same) (same_holder env i)
