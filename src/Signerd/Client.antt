-- ===== src/Signerd/Client.antt =====
-- internal/signerd/client.go, and the messages that both ends write on the socket.
pub mod Broker
use kessa.Base.{
  ℕ, ◌==◌, Bytes, Str, codes, is_empty, length, take, Bool, true, false, not, Option, none, some,
  List, [], ◌∷◌, ◌++◌, Result, ok, err, ◌>>=◌, ◌>>◌, guard, require, if◌then◌else◌,
}
use kessa.Errors.{Error}
use kessa.Keys.{Key, Jwk, Signer, public_key}
use kessa.Platform.{Platform}
use kessa.Signerd.{
  DaemonError, Server, Request, Response, dids, public_jwk, signed, failed, handle, read_lines,
  max_message,
}
use kessa.Types.{Did}

-- `Response`, as it is on the socket.
pub record Reply : Type 0 where
  pub is_ok : Bool
  pub error : Str
  pub sig : Bytes
  pub pub_jwk : Option Jwk
  pub dids : List Did

-- encoding/json at the two messages (json.Marshal, json.Unmarshal), and the texts of the errors.
pub record Codec : Type 0 where
  pub encode_request : Request → Option Bytes
  pub decode_request : Bytes → Option Request
  pub encode_reply : Reply → Option Bytes
  pub decode_reply : Bytes → Option Reply
  pub error_text : DaemonError → Str

abbrev no_reply : Reply
no_reply = record { is_ok = true; error = []; sig = []; pub_jwk = none; dids = [] }

unfoldable pub to_reply : Codec → Response → Reply
to_reply codec (dids ds) = record no_reply { dids = ds }
to_reply codec (public_jwk j) = record no_reply { pub_jwk = some j }
to_reply codec (signed sig) = record no_reply { sig = sig }
to_reply codec (failed x) = record no_reply { is_ok = false; error = codec.error_text x }

marshal_failed : Bytes
marshal_failed = codes "{\"ok\":false,\"error\":\"internal: response marshal failed\"}"

reply_line : Option Bytes → Bytes
unfolding marshal_failed
reply_line none = marshal_failed
reply_line (some line) = line

-- `writeResponse`
write_response : Codec → Response → Bytes
unfolding to_reply reply_line
write_response codec r = reply_line (codec.encode_reply (to_reply codec r)) ++ 10 ∷ []

write_all : Codec → List Response → Bytes
unfolding write_response
write_all codec [] = []
write_all codec (r ∷ rs) = write_response codec r ++ write_all codec rs

-- One connection: what comes back for what is sent; `none` where it cannot be used.
abbrev pub Socket : Type 0
Socket = Bytes → Option Bytes

-- The socket of a daemon, for a process with these credentials.
unfoldable pub connect : Platform → Codec → Server → Option ℕ → Socket
unfolding write_all
connect p codec server peer sent =
    some (write_all codec (handle p codec.decode_request server peer sent))

pub data ClientError : Type 0 where
  cannot_marshal unreachable no_response malformed_response request_failed : ClientError
  no_public_key empty_signature : ClientError
  refused : Str → ClientError
  bad_public_key : Error → ClientError

first_line : List Bytes → Result ClientError Bytes
first_line [] = err no_response
first_line (l ∷ ls) = ok l

unfoldable pub reply_error : Str → ClientError
reply_error [] = request_failed
reply_error (c ∷ text) = refused (c ∷ text)

-- `roundtrip`
unfoldable pub roundtrip : Codec → Socket → Request → Result ClientError Reply
unfolding first_line read_lines
roundtrip codec socket r = do
  body ← require (codec.encode_request r) cannot_marshal
  received ← require (socket (body ++ 10 ∷ [])) unreachable
  line ← first_line (read_lines (take max_message received))
  reply ← require (codec.decode_reply line) malformed_response
  guard reply.is_ok (reply_error reply.error)
  ok reply

abbrev pub ask_public : Did → Request
ask_public did = record { op = codes "public"; did = did; data_ = [] }

abbrev pub ask_sign : Did → Bytes → Request
ask_sign did message = record { op = codes "sign"; did = did; data_ = message }

-- `Sign`
unfoldable pub sign_remote : Codec → Socket → Did → Bytes → Result ClientError Bytes
sign_remote codec socket did message = do
  reply ← roundtrip codec socket (ask_sign did message)
  guard (not (length reply.sig == 0)) empty_signature
  ok reply.sig

key_of : Result Error Key → Result ClientError Key
key_of (ok k) = ok k
key_of (err x) = err (bad_public_key x)

as_sign : Result ClientError Bytes → Result Error Bytes
as_sign (ok sig) = ok sig
as_sign (err x) = err Error.sign_failed

-- `Signer`: each signature is an exchange with the daemon.
unfoldable pub remote_signer : Codec → Socket → Did → Key → Signer
unfolding as_sign
remote_signer codec socket did key = record {
  did = did;
  public = key;
  sign = λ m. as_sign (sign_remote codec socket did m);
}

-- `Dial`: a signer whose key stays with the daemon.
unfoldable pub dial : Platform → Codec → Socket → Did → Result ClientError Signer
unfolding key_of
dial p codec socket did = do
  reply ← roundtrip codec socket (ask_public did)
  j ← require reply.pub_jwk no_public_key
  key ← key_of (public_key p j)
  ok (remote_signer codec socket did key)
