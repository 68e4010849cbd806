-- ===== src/Signerd/Client/Broker.antt =====
-- A signer that is dialed at a daemon, through the socket and the daemon's gate.
use kessa.Base.{
  ℕ, zero, suc, ◌≤◌, ◌==◌, ◌<◌, ◌≡◌, refl, ap, ◌∙◌, Bytes, str_eq, length, length-append, take,
  Bool, true, false, not, Option, some, [], ◌∷◌, ◌++◌, Result, ok, err, ◌>>=◌, ◌>>◌, guard, require,
  arith, if◌then◌else◌,
}
use kessa.Base.Dict.{lookup}
use kessa.Errors.{Error, sign_failed}
use kessa.Keys.{Key, ed25519, p256, other, Jwk, Signer, to_jwk, public_key}
use kessa.Keys.Encoding.{IsSupported, DecodesBase64, public_key-to_jwk}
use kessa.Platform.{Platform}
use kessa.Signerd.{
  Server, Request, Response, DaemonError, unauthorized, failed, answer, public_answer, jwk_answer,
  sign_answer, signature_answer, dispatch, answer_decoded, answer_all, after_peer, check_peer,
  read_lines, add_byte, max_message, handle,
}
use kessa.Signerd.Client.{
  Codec, Reply, Socket, to_reply, reply_line, write_response, write_all, connect, first_line,
  reply_error, roundtrip, ask_public, ask_sign, sign_remote, key_of, as_sign, remote_signer, dial,
  ClientError, no_public_key, empty_signature,
}
use kessa.Types.{Did}
use kessa.Web.{has_byte}
use mathlib.Core.List.{append-nil}

-- A line without a newline in it, within the bound of a message.
pub record IsLine (line : Bytes) : Type 0 where
  pub one : has_byte 10 line ≡ false
  pub fits : length line < max_message

-- The daemon decodes the request that is sent for it.
pub record IsCarried (codec : Codec) (q : Request) : Type 0 where
  pub line : Bytes
  pub encoded : codec.encode_request q ≡ some line
  pub is_line : IsLine line
  pub decoded : codec.decode_request (line ++ 10 ∷ []) ≡ some q

-- The client decodes the reply that is written for it.
pub record IsReturned (codec : Codec) (x : Reply) : Type 0 where
  pub line : Bytes
  pub encoded : codec.encode_reply x ≡ some line
  pub is_line : IsLine line
  pub decoded : codec.decode_reply (line ++ 10 ∷ []) ≡ some x

take-within : (n : ℕ) (bs : Bytes) → length bs ≤ n → take n bs ≡ bs
take-within zero [] h = refl
take-within zero (b ∷ bs) h = absurd (omega arith)
take-within (suc n) [] h = refl
take-within (suc n) (b ∷ bs) h = ap (λ x. b ∷ x) (take-within n bs (omega arith))

read_lines-one :
    (line : Bytes)
    → has_byte 10 line ≡ false
    → read_lines (line ++ 10 ∷ []) ≡ (line ++ 10 ∷ []) ∷ []
unfolding read_lines has_byte add_byte
read_lines-one [] h = refl
read_lines-one (c ∷ line) h = ground (arith, read_lines-one line)

-- What arrives of a line with its end is the whole of it.
one_line :
    (line : Bytes)
    → IsLine line
    → read_lines (take max_message (line ++ 10 ∷ [])) ≡ (line ++ 10 ∷ []) ∷ []
one_line line l =
    ap read_lines (
      take-within max_message (line ++ 10 ∷ [])
        (omega (arith, length-append line (10 ∷ []), l.fits)))
    ∙ read_lines-one line l.one

gated : Result DaemonError (Unit {0}) → Response → Response
gated (ok a) r = r
gated (err x) r = failed x

-- What the daemon answers to one request of a process with these credentials.
unfoldable pub response_to : Platform → Server → Option ℕ → Request → Response
unfolding gated check_peer
response_to p server peer q = gated (check_peer server peer) (answer p server q)

module _ (p : Platform) (codec : Codec) (server : Server) (peer : Option ℕ) where
  handle-one :
      (q : Request) (c : IsCarried codec q)
      → handle p codec.decode_request server peer (c.line ++ 10 ∷ [])
        ≡ response_to p server peer q ∷ []
  unfolding handle answer_all dispatch answer_decoded response_to after_peer gated
  handle-one q c =
      rw (one_line c.line c.is_line) (rw (c.decoded) (by_peer (check_peer server peer)))
    where
      by_peer :
          (r : Result DaemonError (Unit {0}))
          → after_peer (answer p server q ∷ []) r ≡ gated r (answer p server q) ∷ []
      by_peer (ok a) = refl
      by_peer (err x) = refl

  connect-one :
      (q : Request) (c : IsCarried codec q)
      (r : IsReturned codec (to_reply codec (response_to p server peer q)))
      → connect p codec server peer (c.line ++ 10 ∷ []) ≡ some (r.line ++ 10 ∷ [])
  unfolding connect write_all write_response reply_line
  connect-one q c r =
      rw (handle-one q c) (rw (r.encoded) (ap some (append-nil (r.line ++ 10 ∷ []))))

  -- One exchange with the daemon brings back what the daemon answers.
  roundtrip-one :
      (q : Request)
      → IsCarried codec q
      → IsReturned codec (to_reply codec (response_to p server peer q))
      → roundtrip codec (connect p codec server peer) q ≡ (
          guard
            (to_reply codec (response_to p server peer q)).is_ok
            (reply_error (to_reply codec (response_to p server peer q)).error)
          >> ok (to_reply codec (response_to p server peer q)))
  unfolding roundtrip first_line
  roundtrip-one q c r =
      rw (c.encoded) (rw (connect-one q c r) (rw (one_line r.line r.is_line) (rw (r.decoded) refl)))

supported_jwk : (p : Platform) (k : Key) → IsSupported p k → (j : Jwk) × (to_jwk p k ≡ some j)
unfolding to_jwk
supported_jwk p (ed25519 k) h = (_, refl)
supported_jwk p (p256 x y) h = (_, refl)
supported_jwk p other h = elim h [ ]

-- What a client has of a signature: it takes an empty one for an error.
pub relayed : Result Error Bytes → Result Error Bytes
relayed (ok []) = err sign_failed
relayed (ok (c ∷ sig)) = ok (c ∷ sig)
relayed (err x) = err sign_failed

module _ (p : Platform) (codec : Codec) (server : Server) (did : Did) (s : Signer)
    (held : lookup did server.signers ≡ some s) where
  answer-sign : (m : Bytes) → answer p server (ask_sign did m) ≡ signature_answer (s.sign m)
  unfolding answer sign_answer str_eq
  answer-sign m = ap (sign_answer did m) held

  answer-public : answer p server (ask_public did) ≡ jwk_answer (to_jwk p s.public)
  unfolding answer public_answer str_eq
  answer-public = ap (public_answer p did) held

  -- What the client makes of a reply to either request.
  passed : Response → Result ClientError Reply
  passed r =
      guard (to_reply codec r).is_ok (reply_error (to_reply codec r).error) >> ok (to_reply codec r)

  as_key : Socket → Result ClientError Reply → Result ClientError Signer
  as_key socket m = m >>= λ reply. require reply.pub_jwk no_public_key >>= λ j.
      key_of (public_key p j) >>= λ k. ok (remote_signer codec socket did k)

  as_signature : Result ClientError Reply → Result Error Bytes
  as_signature m =
      as_sign (m >>= λ reply. guard (not (length reply.sig == 0)) empty_signature >> ok reply.sig)

  dialed :
      (socket : Socket)
      → DecodesBase64 p
      → IsSupported p s.public
      → (b : Bool)
      → as_key socket (passed (gated (guard b unauthorized) (answer p server (ask_public did)))) ≡ (
          if b
          then ok (remote_signer codec socket did s.public)
          else err (reply_error (codec.error_text unauthorized)))
  unfolding as_key passed gated to_reply jwk_answer key_of
  dialed socket decodes supported true =
      let (j, encoded) = supported_jwk p s.public supported in
      rw answer-public
        (rw encoded (rw (public_key-to_jwk p decodes s.public j supported encoded) refl))
  dialed socket decodes supported false = refl

  signed_by :
      (m : Bytes) (b : Bool)
      → as_signature (passed (gated (guard b unauthorized) (answer p server (ask_sign did m))))
        ≡ (if b then relayed (s.sign m) else err sign_failed)
  unfolding as_signature passed gated to_reply as_sign relayed signature_answer
  signed_by m true = ap (λ r. as_signature (passed r)) (answer-sign m) ∙ by_result (s.sign m)
    where
      by_result : (r : Result Error Bytes) → as_signature (passed (signature_answer r)) ≡ relayed r
      by_result (ok []) = refl
      by_result (ok (c ∷ sig)) = ground arith
      by_result (err x) = refl
  signed_by m false = refl

-- A process dials, over the socket, a signer that the daemon holds, whose key is supported. Dialing
-- succeeds exactly where the process is the owner's, with a signer of the same DID and public key;
-- elsewhere it is refused with the daemon's text. A message is signed by the held signer and the
-- signature relayed, but for an empty one, which is an error; a process of another user gets no
-- signature. The two requests and the answers to them have to be lines within the bound of a
-- message that the other end decodes, and base64url to undo encoding.
pub dial-relays :
    (p : Platform) (codec : Codec) (server : Server) (uid : ℕ) (did : Did) (s : Signer) (m : Bytes)
    → lookup did server.signers ≡ some s
    → DecodesBase64 p
    → IsSupported p s.public
    → IsCarried codec (ask_public did)
    → IsReturned codec (to_reply codec (response_to p server (some uid) (ask_public did)))
    → IsCarried codec (ask_sign did m)
    → IsReturned codec (to_reply codec (response_to p server (some uid) (ask_sign did m)))
    → (dial p codec (connect p codec server (some uid)) did ≡ (
        if uid == server.owner
        then ok (remote_signer codec (connect p codec server (some uid)) did s.public)
        else err (reply_error (codec.error_text unauthorized))))
      × ((remote_signer codec (connect p codec server (some uid)) did s.public).sign m
          ≡ (if uid == server.owner then relayed (s.sign m) else err sign_failed))
unfolding dial remote_signer sign_remote response_to check_peer as_key passed as_signature
dial-relays p codec server uid did s m held decodes supported asks answers asks_sign answers_sign =
    let socket : Socket = connect p codec server (some uid) in
    (
      ap (as_key p codec server did s held socket)
            (roundtrip-one p codec server (some uid) (ask_public did) asks answers)
          ∙ dialed p codec server did s held socket decodes supported (uid == server.owner),
      ap (as_signature p codec server did s held)
            (roundtrip-one p codec server (some uid) (ask_sign did m) asks_sign answers_sign)
          ∙ signed_by p codec server did s held m (uid == server.owner),
    )
