-- ===== src/Signerd/Gates.antt =====
-- Which keys a daemon holds, and for whom it signs.
use kessa.Base.{
  ℕ, ◌==◌, ==_iff, ◌≡◌, refl, sym, ap, ◌∙◌, subst, Bytes, codes, str_eq, str_eq_iff, take, Bool,
  true, false, Bool-cases, not, ◌&&◌, inl, inr, ◌⊎◌, Option, none, some, List, [], ◌∷◌, In, Result,
  ok, err, guard, require, >>=-eq-ok, >>-eq-ok, guard-eq-ok, require-eq-ok, ok_inj, some_inj,
  if◌then◌else◌, if_cases, arith,
}
use kessa.Base.Dict.{Dict, lookup, insert, lookup-insert}
use kessa.Errors.{Error}
use kessa.Keys.{Signer, Jwk, to_jwk}
use kessa.Platform.{Platform}
use kessa.Signerd.{
  is_known, requires_hardware, HeldKey, nil_signer, undefined_policy, software_refused, jwk_answer,
  public_answer, unauthorized, max_message, Server, Request, Response, signed, check_held, hold_all,
  new_keys, signature_answer, sign_answer, answer, answer_decoded, dispatch, check_peer, answer_all,
  after_peer, read_lines, handle,
}
use kessa.Types.{Did}

-- A key that the daemon was given, under a policy that it knows, and in hardware where the policy
-- wants it.
pub record IsGated (ks : List HeldKey) (did : Did) (s : Signer) : Type 0 where
  pub key : HeldKey
  pub given : In key ks
  pub signer : key.signer ≡ some s
  pub own : s.did ≡ did
  pub known : is_known key.policy ≡ true
  pub hardware : requires_hardware key.policy ≡ true → key.hardware ≡ true

IsGated-cons :
    (ks : List HeldKey) (k : HeldKey) (did : Did) (s : Signer)
    → IsGated ks did s
    → IsGated (k ∷ ks) did s
IsGated-cons ks k did s g = record {
  key = g.key;
  given = inr g.given;
  signer = g.signer;
  own = g.own;
  known = g.known;
  hardware = g.hardware;
}

check_held-IsGated :
    (ks : List HeldKey) (k : HeldKey) (s : Signer) → check_held k ≡ ok s → IsGated (k ∷ ks) s.did s
unfolding check_held
check_held-IsGated ks k s h =
    let (t, there, h1) = >>=-eq-ok (require k.signer nil_signer) _ h in
    let (known, h2) = >>-eq-ok (guard (is_known k.policy) (undefined_policy t.did)) _ h1 in
    let (backed, made) =
      >>-eq-ok (guard (not (requires_hardware k.policy && not k.hardware)) (software_refused t.did))
        _ h2 in
    let policy : not (requires_hardware k.policy && not k.hardware) ≡ true =
      guard-eq-ok _ _ backed in
    record {
      key = k;
      given = inl refl;
      signer = require-eq-ok _ _ there ∙ ap some (ok_inj made);
      own = refl;
      known = guard-eq-ok _ _ known;
      hardware = λ needed. ground arith;
    }

hold_all-IsGated :
    (ks : List HeldKey) (m out : Dict Signer)
    → hold_all m ks ≡ ok out
    → (did : Did) (s : Signer) → lookup did out ≡ some s
    → (lookup did m ≡ some s) ⊎ IsGated ks did s
unfolding hold_all
hold_all-IsGated [] m out h did s found =
    inl (subst (λ d. lookup did d ≡ some s) (sym (ok_inj h)) found)
hold_all-IsGated (k ∷ ks) m out h did s found =
    let (t, checked, rest) = >>=-eq-ok (check_held k) _ h in
    elim (hold_all-IsGated ks (insert t.did t m) out rest did s found) [
      | inr g ↦ inr (IsGated-cons ks k did s g)
      | inl e ↦ by_name t checked (sym (lookup-insert t.did did t m) ∙ e)
    ]
  where
    by_name :
        (t : Signer)
        → check_held k ≡ ok t
        → (if str_eq t.did did then some t else lookup did m) ≡ some s
        → (lookup did m ≡ some s) ⊎ IsGated (k ∷ ks) did s
    by_name t checked e = elim (Bool-cases (str_eq t.did did)) [
      | inl same ↦
          let is : t ≡ s = some_inj (rw same at e) in
          let named : t.did ≡ did = (str_eq_iff t.did did).0 same in
          inr (
            subst (λ x. IsGated (k ∷ ks) x s) (ap (λ x. x.did) (sym is) ∙ named)
              (subst (λ x. IsGated (k ∷ ks) x.did x) is (check_held-IsGated ks k t checked)))
      | inr other ↦ inl (rw other at e)
    ]

-- Every key that a new daemon holds is one that it was given, under the DID of its signer and a
-- policy that is known, and in hardware where the policy requires it.
pub new_keys-IsGated :
    (ks : List HeldKey) (uid : ℕ) (server : Server)
    → new_keys ks uid ≡ ok server
    → (server.owner ≡ uid)
      × ((did : Did) (s : Signer) → lookup did server.signers ≡ some s → IsGated ks did s)
unfolding new_keys lookup
new_keys-IsGated ks uid server h =
    let (m, held, made) = >>=-eq-ok (hold_all [] ks) _ h in
    let whole : record { signers = m; owner = uid } ≡ server = ok_inj made in
    (
      sym (ap (λ x. x.owner) whole),
      λ did s found.
          elim (hold_all-IsGated ks [] m held did s
            (subst (λ x. lookup did x.signers ≡ some s) (sym whole) found)) [
              | inl e ↦ cc e
              | inr g ↦ g
            ],
    )

module _ (p : Platform) (server : Server) where
  -- A held key made the signature.
  abbrev pub IsSigned : Bytes → Type 0
  IsSigned sig =
      (did : Did) × (message : Bytes) × (s : Signer) × (lookup did server.signers ≡ some s)
      × (s.sign message ≡ ok sig)

  abbrev Signs : Response → Type 0
  Signs reply = (sig : Bytes) → reply ≡ signed sig → IsSigned sig

  sign_answer-Signs :
      (did : Did) (message : Bytes) (o : Option Signer)
      → lookup did server.signers ≡ o
      → Signs (sign_answer did message o)
  unfolding sign_answer
  sign_answer-Signs did message none e = λ sig h. cc
  sign_answer-Signs did message (some s) e =
      λ sig h. (did, message, s, e, by_result sig (s.sign message) h)
    where
      by_result :
          (sig : Bytes) (r : Result Error Bytes) → signature_answer r ≡ signed sig → r ≡ ok sig
      by_result sig (ok t) h = cc
      by_result sig (err x) h = cc

  public_answer-Signs : (did : Did) (o : Option Signer) → Signs (public_answer p did o)
  unfolding public_answer jwk_answer
  public_answer-Signs did none = λ sig h. cc
  public_answer-Signs did (some s) = λ sig. by_jwk sig (to_jwk p s.public)
    where
      by_jwk : (sig : Bytes) (o : Option Jwk) → jwk_answer o ≡ signed sig → IsSigned sig
      by_jwk sig none h = cc
      by_jwk sig (some j) h = cc

  answer-Signs : (r : Request) → Signs (answer p server r)
  unfolding answer
  answer-Signs r =
      if_cases Signs (str_eq r.op (codes "list")) (λ _ sig h. cc)
        (λ _.
          if_cases Signs (str_eq r.op (codes "public"))
            (λ _. public_answer-Signs r.did (lookup r.did server.signers))
            (λ _.
              if_cases Signs (str_eq r.op (codes "sign"))
                (λ _. sign_answer-Signs r.did r.data_ (lookup r.did server.signers) refl)
                (λ _ sig h. cc)))

  module _ (decode : Bytes → Option Request) where
    dispatch-Signs : (line : Bytes) → Signs (dispatch p decode server line)
    unfolding dispatch answer_decoded
    dispatch-Signs line = by_request (decode line)
      where
        by_request : (o : Option Request) → Signs (answer_decoded p server o)
        by_request none = λ sig h. cc
        by_request (some r) = answer-Signs r

    answer_all-Signs :
        (lines : List Bytes) (sig : Bytes)
        → In (signed sig) (answer_all p decode server lines)
        → IsSigned sig
    unfolding answer_all
    answer_all-Signs [] sig h = absurd h
    answer_all-Signs (l ∷ ls) sig (inl e) = dispatch-Signs l sig (sym e)
    answer_all-Signs (l ∷ ls) sig (inr h) = answer_all-Signs ls sig h

    -- A signature leaves the daemon on a connection only where the peer is the owner, and it was
    -- made by a key that the daemon holds.
    pub handle-owner :
        (peer : Option ℕ) (sent sig : Bytes)
        → In (signed sig) (handle p decode server peer sent)
        → (peer ≡ some server.owner) × IsSigned sig
    unfolding handle check_peer after_peer
    handle-owner peer sent sig h = by_peer peer h
      where
        by_uid :
            (uid : ℕ) (b : Bool)
            → (uid == server.owner) ≡ b
            → In (signed sig) (
                after_peer
                  (answer_all p decode server (read_lines (take max_message sent)))
                  (guard b unauthorized))
            → (some uid ≡ some server.owner) × IsSigned sig
        by_uid uid true e h = (ap some ((==_iff uid server.owner).0 e), answer_all-Signs _ sig h)
        by_uid uid false e (inl x) = cc
        by_uid uid false e (inr x) = elim x [ ]

        by_peer :
            (o : Option ℕ)
            → In (signed sig) (
                after_peer
                  (answer_all p decode server (read_lines (take max_message sent)))
                  (check_peer server o))
            → (o ≡ some server.owner) × IsSigned sig
        by_peer none (inl x) = cc
        by_peer none (inr x) = elim x [ ]
        by_peer (some uid) h = by_uid uid (uid == server.owner) refl h
