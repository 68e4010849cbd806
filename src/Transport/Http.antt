-- ===== src/Transport/Http.antt =====
-- internal/enforce/http.go: the HTTP listener, and the client's side of it.
pub mod Client
pub mod Answers
use kessa.Base.{
  ℕ, ltb, ◌==◌, Bytes, Str, codes, str_eq, length, take, Bool, true, false, ◌||◌, Option, none,
  some, List, [], ◌∷◌, Result, ok, err, ◌>>=◌, require, if◌then◌else◌,
}
use kessa.Base.Int.{ℤ}
use kessa.Audit.{tip}
use kessa.Audit.Data.{Entry}
use kessa.Enforce.{Proxy, Request, export}
use kessa.Enforce.Handle.{handle}
use kessa.Enforce.WriteAhead.{Disk}
use kessa.Env.{Env}
use kessa.Errors.{Error}
use kessa.Export.{Export}
use kessa.Transport.Ingress.{
  HttpRequest, Refusal, forbidden, unsupported_media_type, check_ingress, max_request_body,
}
use kessa.Types.{Decision}
use kessa.Web.{Net}

-- What a json.Decoder makes of the bytes that it can read: the first value, a fault, or the wish for
-- more bytes.
pub data Decoded (A : Type 0) : Type 0 where
  value : A → Decoded A
  malformed : Decoded A
  incomplete : Decoded A

-- encoding/json at the messages of the listener.
pub record HttpCodec : Type 0 where
  pub decode_request : Bytes → Decoded Request
  pub encode_export : Export → Option Bytes

pub data HttpReply : Type 0 where
  decided : Decision × Entry → HttpReply
  at_tip : ℕ × Bytes → HttpReply
  exported : Bytes → HttpReply
  rejected : Error → HttpReply
  not_exported : HttpReply
  failed : ℕ → HttpReply

status_of : Refusal → ℕ
status_of forbidden = 403
status_of unsupported_media_type = 415

-- Where the bytes that may be read end before the value does, the body is too large or cut short.
of_decoded : Bytes → Decoded Request → Result HttpReply Request
of_decoded body (value req) = ok req
of_decoded body malformed = err (failed 400)
of_decoded body incomplete =
    if ltb max_request_body (length body) then err (failed 413) else err (failed 400)

read_request : HttpCodec → Bytes → Result HttpReply Request
unfolding of_decoded
read_request codec body = of_decoded body (codec.decode_request (take max_request_body body))

unfoldable pub reply_to : Proxy × Result Error (Decision × Entry) → Proxy × HttpReply
reply_to (p, ok out) = (p, decided out)
reply_to (p, err x) = (p, rejected x)

enforce_decoded : Env → Proxy → ℤ → Disk → Result HttpReply Request → Proxy × HttpReply
unfolding reply_to
enforce_decoded env p now disk (err reply) = (p, reply)
enforce_decoded env p now disk (ok req) = reply_to (handle env p req now disk)

on_ingress : Proxy → Proxy × HttpReply → Result Refusal (Unit {0}) → Proxy × HttpReply
unfolding status_of
on_ingress p next (err x) = (p, failed (status_of x))
on_ingress p next (ok a) = next

-- POST /enforce
unfoldable pub enforce_endpoint :
    Env → Net → HttpCodec → Proxy → HttpRequest → ℤ → Disk → Proxy × HttpReply
unfolding on_ingress read_request enforce_decoded
enforce_endpoint env net codec p r now disk =
    on_ingress p (enforce_decoded env p now disk (read_request codec r.body))
      (check_ingress net r true)

-- GET /tip
unfoldable pub tip_endpoint : Net → Proxy → HttpRequest → Proxy × HttpReply
unfolding on_ingress
tip_endpoint net p r = on_ingress p (p, at_tip (tip p.log)) (check_ingress net r false)

export_body : Option Bytes → HttpReply
export_body none = not_exported
export_body (some bytes) = exported bytes

marshal_export : HttpCodec → Result Error Export → HttpReply
unfolding export_body
marshal_export codec (err x) = not_exported
marshal_export codec (ok x) = export_body (codec.encode_export x)

-- GET /export
unfoldable pub export_endpoint : Env → Net → HttpCodec → Proxy → HttpRequest → Proxy × HttpReply
unfolding on_ingress marshal_export
export_endpoint env net codec p r =
    on_ingress p (p, marshal_export codec (export env p)) (check_ingress net r false)

-- A pattern for GET matches HEAD too.
is_get : Str → Bool
is_get method = str_eq method (codes "GET") || str_eq method (codes "HEAD")

-- `Handler`: the routes of the multiplexer. A path that exists under another method is 405.
unfoldable pub serve : Env → Net → HttpCodec → Proxy → HttpRequest → ℤ → Disk → Proxy × HttpReply
unfolding is_get
serve env net codec p r now disk =
    if str_eq r.path (codes "/enforce")
    then (if str_eq r.method (codes "POST")
        then enforce_endpoint env net codec p r now disk
        else (p, failed 405))
    else if str_eq r.path (codes "/tip")
    then (if is_get r.method then tip_endpoint net p r else (p, failed 405))
    else if str_eq r.path (codes "/export")
    then (if is_get r.method then export_endpoint env net codec p r else (p, failed 405))
    else (p, failed 404)
