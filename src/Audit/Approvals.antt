-- ===== src/Audit/Approvals.antt =====
-- Approvals by humans: what one approves, and what it cannot be moved to.
use kessa.Base.{
  ℕ, ◌<◌, ◌^◌, ◌≡◌, refl, sym, ap, ◌∙◌, Bytes, codes, some, ok, require, >>=-eq-ok, require-eq-ok,
  ok_inj,
}
use kessa.Base.Binary.{
  big_endian, big_endian_inj, length-big_endian, NoZero, no_zero-NoZero, part_inj, append_inj,
}
use kessa.Base.{drop}
use kessa.Audit.{approval_input, sign_approval, verify_approval}
use kessa.Credential.Possession.{EscapesControls}
use kessa.Env.{Env}
use kessa.Errors.{cannot_encode}
use kessa.Keys.{Signer, IsGenuine}
use kessa.Types.{Did, Action}

-- What a genuine signer approves is accepted for the actor, the action and the position that it was
-- signed for.
pub verify_approval-sign :
    (env : Env) (human : Signer) (actor : Did) (a : Action) (seq : ℕ) (prev sig : Bytes)
    → IsGenuine env.platform human
    → sign_approval env human actor a seq prev ≡ ok sig
    → verify_approval env human.public actor a seq prev sig ≡ ok tt
unfolding sign_approval verify_approval
verify_approval-sign env human actor a seq prev sig genuine h =
    let (input, framed, signed) = >>=-eq-ok (approval_input env actor a seq prev) _ h in
    rw framed (rw (genuine input sig signed) refl)

tag_NoZero : NoZero (codes "kessa/action-approval/v2")
tag_NoZero = no_zero-NoZero (codes "kessa/action-approval/v2") refl

-- An approval cannot be moved: where the actors have no zero byte, the sequence numbers fit their
-- 64 bits and JSON escapes control bytes, two approvals are over the same message only for the same
-- actor, encoded action and position in the log.
pub approval_input_inj :
    (env : Env) (c d : Did) (a b : Action) (s t : ℕ) (p q input : Bytes)
    → EscapesControls env
    → NoZero c
    → NoZero d
    → s < 2 ^ 64
    → t < 2 ^ 64
    → approval_input env c a s p ≡ ok input
    → approval_input env d b t q ≡ ok input
    → (c ≡ d) × (env.marshal_action a ≡ env.marshal_action b) × (s ≡ t) × (p ≡ q)
unfolding approval_input
approval_input_inj env c d a b s t p q input escapes hc hd hs ht f g =
    let (x, encoded_x, made_x) = >>=-eq-ok (require (env.marshal_action a) cannot_encode) _ f in
    let (y, encoded_y, made_y) = >>=-eq-ok (require (env.marshal_action b) cannot_encode) _ g in
    let xs = require-eq-ok (env.marshal_action a) cannot_encode encoded_x in
    let ys = require-eq-ok (env.marshal_action b) cannot_encode encoded_y in
    let whole = ok_inj made_x ∙ sym (ok_inj made_y) in
    let (_, e1) =
      part_inj (codes "kessa/action-approval/v2") (codes "kessa/action-approval/v2") tag_NoZero
        tag_NoZero whole in
    let (actors, e2) = part_inj c d hc hd e1 in
    let (bodies, e3) = part_inj x y (escapes a x xs) (escapes b y ys) e2 in
    let (seqs, hashes) =
      append_inj (big_endian s) (big_endian t) (length-big_endian s ∙ sym (length-big_endian t))
        e3 in
    (actors, xs ∙ ap some bodies ∙ sym ys, big_endian_inj s t hs ht seqs, ap (drop 1) hashes)
