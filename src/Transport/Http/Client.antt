-- ===== src/Transport/Http/Client.antt =====
-- internal/enforce/http.go: the client's side, `Submit` and `FetchTip`, against the listener.
use mathlib.Core.List.{reverse, reverse-append}
use kessa.Base.{
  ℕ, ◌==◌, leb, length, ◌≡◌, refl, ap, Bytes, Str, codes, str_eq, take, true, ◌||◌, Option, some,
  [], ◌∷◌, ◌++◌, Result, ok, err, ◌>>=◌, require, if◌then◌else◌,
}
use kessa.Base.Int.{ℤ}
use kessa.Audit.{tip}
use kessa.Audit.Data.{Entry}
use kessa.Enforce.{Proxy, Request}
use kessa.Enforce.Handle.{handle}
use kessa.Enforce.WriteAhead.{Disk}
use kessa.Env.{Env}
use kessa.Errors.{Error}
use kessa.Transport.Http.{
  value, HttpCodec, HttpReply, decided, at_tip, exported, rejected, not_exported, failed,
  of_decoded, read_request, reply_to, enforce_decoded, on_ingress, enforce_endpoint, tip_endpoint,
  is_get, serve,
}
use kessa.Transport.Ingress.{
  HttpRequest, check_ingress, check_ingress-client, origin_allowed, header_values, max_request_body,
}
use kessa.Types.{Decision}
use kessa.Web.{Net}

-- encoding/json at the messages of both sides, and the text of an error.
pub record WireCodec : Type 0 where
  pub encode_request : Request → Option Bytes
  pub encode_result : Decision × Entry → Bytes
  pub decode_result : Bytes → Option (Decision × Entry)
  pub encode_tip : ℕ × Bytes → Bytes
  pub decode_tip : Bytes → Option (ℕ × Bytes)
  pub error_text : Error → Str

-- An answer on the wire; both the encoder and http.Error end it with a newline.
unfoldable pub on_wire : WireCodec → HttpReply → ℕ × Bytes
on_wire w (decided out) = (200, w.encode_result out ++ 10 ∷ [])
on_wire w (at_tip t) = (200, w.encode_tip t ++ 10 ∷ [])
on_wire w (exported bytes) = (200, bytes)
on_wire w (rejected x) = (422, w.error_text x ++ 10 ∷ [])
on_wire w not_exported = (500, [])
on_wire w (failed status) = (status, [])

skip_blank : Str → Str
skip_blank [] = []
skip_blank (c ∷ s) = let rest = skip_blank s in if c == 10 || c == 32 then rest else c ∷ s

-- `trimmed`
unfoldable pub trimmed : Bytes → Str
unfolding skip_blank
trimmed b = reverse (skip_blank (reverse b))

pub data ClientError : Type 0 where
  not_encoded no_answer : ClientError
  bad_answer : ClientError
  err_rejected : Str → ClientError
  returned : ℕ → Str → ClientError

-- `http.Client.Do`
abbrev pub Exchange : Type 0
Exchange = HttpRequest → Option (ℕ × Bytes)

read_answer : WireCodec → ℕ × Bytes → Result ClientError (Decision × Entry)
unfolding trimmed
read_answer w (status, body) =
    if status == 200
    then require (w.decode_result body) bad_answer
    else if status == 422
    then err (err_rejected (trimmed body))
    else err (returned status (trimmed body))

enforce_request : Bytes → HttpRequest
enforce_request body = record {
  method = codes "POST";
  path = codes "/enforce";
  headers = (codes "Content-Type", codes "application/json") ∷ [];
  body = body;
}

-- `Submit`
unfoldable pub submit : WireCodec → Exchange → Request → Result ClientError (Decision × Entry)
unfolding read_answer enforce_request
submit w exchange req = do
  body ← require (w.encode_request req) not_encoded
  answer ← require (exchange (enforce_request body)) no_answer
  read_answer w answer

read_tip : WireCodec → ℕ × Bytes → Result ClientError (ℕ × Bytes)
unfolding trimmed
read_tip w (status, body) =
    if status == 200
    then require (w.decode_tip body) bad_answer
    else err (returned status (trimmed body))

tip_request : HttpRequest
tip_request = record { method = codes "GET"; path = codes "/tip"; headers = []; body = [] }

-- `FetchTip`
unfoldable pub fetch_tip : WireCodec → Exchange → Result ClientError (ℕ × Bytes)
unfolding read_tip tip_request
fetch_tip w exchange = do answer ← require (exchange tip_request) no_answer; read_tip w answer

-- What the codecs and the media type parser do with a request and its result.
pub record ReadsMessages (net : Net) (codec : HttpCodec) (w : WireCodec) (req : Request)
    (result : Result Error (Decision × Entry)) : Type 0 where
  pub media : net.parse_media_type (codes "application/json") ≡ some (codes "application/json")
  pub body : Bytes
  pub encoded : w.encode_request req ≡ some body
  pub small : leb (length body) max_request_body ≡ true
  pub requests : codec.decode_request (take max_request_body body) ≡ value req
  pub results :
      (out : Decision × Entry)
      → result ≡ ok out
      → w.decode_result (w.encode_result out ++ 10 ∷ []) ≡ some out

trimmed-newline : (s : Str) → trimmed (s ++ 10 ∷ []) ≡ trimmed s
unfolding trimmed skip_blank
trimmed-newline s = ap (λ r. reverse (skip_blank r)) (reverse-append s (10 ∷ []))

abbrev pub of_handle :
    WireCodec → Result Error (Decision × Entry) → Result ClientError (Decision × Entry)
of_handle w (ok out) = ok out
of_handle w (err x) = err (err_rejected (trimmed (w.error_text x)))

read_answer-reply_to :
    (w : WireCodec) (out : Proxy × Result Error (Decision × Entry))
    → ((o : Decision × Entry)
        → out.1 ≡ ok o
        → w.decode_result (w.encode_result o ++ 10 ∷ []) ≡ some o)
    → read_answer w (on_wire w ((reply_to out).1)) ≡ of_handle w out.1
unfolding read_answer on_wire reply_to
read_answer-reply_to w (p, ok out) reads = rw (reads out refl) refl
read_answer-reply_to w (p, err x) reads =
    ap (λ t. err (err_rejected t)) (trimmed-newline (w.error_text x))

-- Submitting a request to the listener is handling it: the client returns the decision and the
-- entry, or the text of the rejection without its newline. The codecs have to encode the request
-- within the bound and read it, and to read its result.
pub submit-serve :
    (env : Env) (net : Net) (codec : HttpCodec) (w : WireCodec) (p : Proxy) (req : Request)
    (now : ℤ) (disk : Disk)
    → ReadsMessages net codec w req ((handle env p req now disk).1)
    → submit w (λ r. some (on_wire w ((serve env net codec p r now disk).1))) req
      ≡ of_handle w ((handle env p req now disk).1)
unfolding submit enforce_request serve str_eq enforce_endpoint on_ingress enforce_decoded
    read_request of_decoded
submit-serve env net codec w p req now disk reads =
    let passes =
      check_ingress-client net (codes "POST") (codes "/enforce") reads.body reads.media in
    rw (reads.encoded) (
      rw passes
        (rw reads.requests (read_answer-reply_to w (handle env p req now disk) reads.results)))

fetch_tip-serve :
    (env : Env) (net : Net) (codec : HttpCodec) (w : WireCodec) (p : Proxy) (now : ℤ) (disk : Disk)
    → w.decode_tip (w.encode_tip (tip p.log) ++ 10 ∷ []) ≡ some (tip p.log)
    → fetch_tip w (λ r. some (on_wire w ((serve env net codec p r now disk).1))) ≡ ok (tip p.log)
unfolding fetch_tip tip_request read_tip serve str_eq tip_endpoint on_ingress is_get on_wire
    check_ingress origin_allowed header_values
fetch_tip-serve env net codec w p now disk reads = rw reads refl
