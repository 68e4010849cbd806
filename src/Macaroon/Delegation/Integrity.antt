-- ===== src/Macaroon/Delegation/Integrity.antt =====
-- The HMAC chain of a macaroon that was minted and attenuated.
use kessa.Base.{
  Bytes, Str, str_eq, str_eq_refl, ◌≡◌, refl, sym, ap, ◌∙◌, subst, List, [], ◌∷◌, ◌++◌, ok, ◌>>◌,
  guard, >>=-eq-ok, ok_inj,
}
use kessa.Base.Dict.{Dict}
use kessa.Errors.{signature_mismatch}
use kessa.Platform.{Platform}
use kessa.Macaroon.{Caveat, Macaroon, canonical, mint, chain_hmac, satisfies, verify}
use kessa.Macaroon.Delegation.{attenuate, attenuate_all, extends}
use kessa.Macaroon.Delegation.Extension.{
  attenuate_inv, attenuate-extends, extends_iff, extends_trans,
}
use mathlib.Core.List.{append-nil, append_assoc}

module _ (p : Platform) (root_key : Bytes) where
  -- The signature is the chain of the caveats from the root key.
  abbrev IsAuthentic : Macaroon → Type 0
  IsAuthentic m = chain_hmac p (p.hmac root_key m.identifier) m.caveats ≡ m.signature

  chain_hmac-append :
      (sig : Bytes) (cs : List Caveat) (c : Caveat)
      → chain_hmac p sig (cs ++ c ∷ []) ≡ p.hmac (chain_hmac p sig cs) (canonical c)
  unfolding chain_hmac
  chain_hmac-append sig [] c = refl
  chain_hmac-append sig (d ∷ cs) c = chain_hmac-append (p.hmac sig (canonical d)) cs c

  mint-IsAuthentic : (identifier location : Str) → IsAuthentic (mint p root_key identifier location)
  unfolding mint chain_hmac
  mint-IsAuthentic identifier location = refl

  attenuate-IsAuthentic :
      (m m' : Macaroon) (c : Caveat) → attenuate p m c ≡ ok m' → IsAuthentic m → IsAuthentic m'
  attenuate-IsAuthentic m m' c h a =
      let (_, _, made) = attenuate_inv p m m' c h in
      subst IsAuthentic (sym made) (
        chain_hmac-append (p.hmac root_key m.identifier) m.caveats c
        ∙ ap (λ s. p.hmac s (canonical c)) a)

  attenuate_all-IsAuthentic :
      (m m' : Macaroon) (cs : List Caveat)
      → attenuate_all p m cs ≡ ok m'
      → IsAuthentic m
      → IsAuthentic m'
  unfolding attenuate_all
  attenuate_all-IsAuthentic m m' [] h a = subst IsAuthentic (ok_inj h) a
  attenuate_all-IsAuthentic m m' (c ∷ cs) h a =
      let (n, made, rest) = >>=-eq-ok (attenuate p m c) _ h in
      attenuate_all-IsAuthentic n m' cs rest (attenuate-IsAuthentic m n c made a)

  -- A macaroon minted with a root key and attenuated any number of times verifies under that key
  -- exactly when its caveats are satisfied: the verdict is that of `Satisfies`, errors included.
  pub verify-attenuate_all :
      (identifier location : Str) (cs : List Caveat) (m : Macaroon) (ctx : Dict Str)
      → attenuate_all p (mint p root_key identifier location) cs ≡ ok m
      → verify p m root_key ctx ≡ satisfies p m ctx
  unfolding verify
  verify-attenuate_all identifier location cs m ctx h =
      let authentic =
        attenuate_all-IsAuthentic (mint p root_key identifier location) m cs h
          (mint-IsAuthentic identifier location) in
      subst
        (λ s.
          (guard (str_eq s m.signature) signature_mismatch >> satisfies p m ctx)
          ≡ satisfies p m ctx)
        (sym authentic) (rw (str_eq_refl m.signature))

module _ (p : Platform) where
  extends_refl : (m : Macaroon) → extends p m m ≡ ok tt
  extends_refl m =
      (extends_iff p m m).1
        (record { same_id = refl; added = []; split = sym (append-nil m.caveats); narrowing = tt })

  -- However many caveats are added, the result extends what it was made from, and its caveats are
  -- the old ones followed by the added ones.
  pub attenuate_all-extends :
      (m m' : Macaroon) (cs : List Caveat)
      → attenuate_all p m cs ≡ ok m'
      → (extends p m' m ≡ ok tt) × (m'.caveats ≡ m.caveats ++ cs)
  unfolding attenuate_all
  attenuate_all-extends m m' [] h =
      subst (λ k. (extends p k m ≡ ok tt) × (k.caveats ≡ m.caveats ++ [])) (ok_inj h)
        (extends_refl m, sym (append-nil m.caveats))
  attenuate_all-extends m m' (c ∷ cs) h =
      let (n, made, rest) = >>=-eq-ok (attenuate p m c) _ h in
      let (wide, carried) = attenuate_all-extends n m' cs rest in
      let (_, _, composed) = attenuate_inv p m n c made in
      (
        extends_trans p m' n m wide (attenuate-extends p m n c made),
        carried ∙ ap (λ k. k.caveats ++ cs) composed ∙ append_assoc m.caveats (c ∷ []) cs,
      )
