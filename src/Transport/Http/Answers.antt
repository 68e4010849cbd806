-- ===== src/Transport/Http/Answers.antt =====
-- What the HTTP listener does to the proxy, by its answers.
use kessa.Base.{
  ℕ, ltb, length, take, ◌≡◌, refl, Bytes, codes, str_eq, str_eq_iff, true, false, Option, none,
  some, Result, ok, err, if_cases,
}
use kessa.Base.Int.{ℤ}
use kessa.Enforce.{Proxy, Request, export}
use kessa.Enforce.Handle.{handle}
use kessa.Enforce.WriteAhead.{Disk}
use kessa.Env.{Env}
use kessa.Errors.{Error}
use kessa.Export.{Export}
use kessa.Transport.Http.{
  Decoded, value, malformed, incomplete, HttpCodec, HttpReply, decided, exported, rejected,
  not_exported, failed, of_decoded, read_request, reply_to, enforce_decoded, on_ingress,
  enforce_endpoint, tip_endpoint, export_body, marshal_export, export_endpoint, is_get, serve,
}
use kessa.Transport.Ingress.{HttpRequest, Refusal, check_ingress, max_request_body}
use kessa.Web.{Net}

-- An answer from the chokepoint: a decision, or its refusal to log the request.
abbrev pub IsVerdict : HttpReply → Type 0
IsVerdict (decided out) = Unit
IsVerdict (rejected x) = Unit
IsVerdict _ = ⊥

pub data IsServed (env : Env) (net : Net) (codec : HttpCodec) (p : Proxy) (r : HttpRequest)
    (now : ℤ) (disk : Disk) : Proxy × HttpReply → Type 0 where
  unchanged :
      (reply : HttpReply) → (IsVerdict reply → ⊥) → IsServed env net codec p r now disk (p, reply)
  handled :
      (req : Request)
      → r.path ≡ codes "/enforce"
      → r.method ≡ codes "POST"
      → check_ingress net r true ≡ ok tt
      → codec.decode_request (take max_request_body r.body) ≡ value req
      → IsServed env net codec p r now disk (reply_to (handle env p req now disk))

module _ (env : Env) (net : Net) (codec : HttpCodec) (p : Proxy) (r : HttpRequest) (now : ℤ)
    (disk : Disk) where
  abbrev Serves : Proxy × HttpReply → Type 0
  Serves = IsServed env net codec p r now disk

  after_ingress :
      (next : Proxy × HttpReply) (m : Result Refusal (Unit {0}))
      → (m ≡ ok tt → Serves next)
      → Serves (on_ingress p next m)
  unfolding on_ingress
  after_ingress next (ok a) go = go refl
  after_ingress next (err x) go = unchanged _ (λ h. h)

  enforce_endpoint-IsServed :
      r.path ≡ codes "/enforce"
      → r.method ≡ codes "POST"
      → Serves (enforce_endpoint env net codec p r now disk)
  unfolding enforce_endpoint enforce_decoded read_request of_decoded
  enforce_endpoint-IsServed path method =
      after_ingress _ (check_ingress net r true)
        (λ passed. by_decoded (codec.decode_request (take max_request_body r.body)) refl passed)
    where
      by_decoded :
          (d : Decoded Request)
          → codec.decode_request (take max_request_body r.body) ≡ d
          → check_ingress net r true ≡ ok tt
          → Serves (enforce_decoded env p now disk (of_decoded r.body d))
      by_decoded (value req) e passed = handled req path method passed e
      by_decoded malformed e passed = unchanged _ (λ h. h)
      by_decoded incomplete e passed =
          if_cases (λ m. Serves (enforce_decoded env p now disk m))
            (ltb max_request_body (length r.body)) (λ _. unchanged _ (λ h. h))
            (λ _. unchanged _ (λ h. h))

  marshal_export-IsServed : (m : Result Error Export) → Serves (p, marshal_export codec m)
  unfolding marshal_export export_body
  marshal_export-IsServed (err x) = unchanged not_exported (λ h. h)
  marshal_export-IsServed (ok x) = by_body (codec.encode_export x)
    where
      by_body : (o : Option Bytes) → Serves (p, export_body o)
      by_body none = unchanged not_exported (λ h. h)
      by_body (some bytes) = unchanged (exported bytes) (λ h. h)

  fails : (status : ℕ) → Serves (p, failed status)
  fails status = unchanged _ (λ h. h)

  -- An answer of the HTTP listener leaves the proxy as it was and is neither a decision nor a
  -- rejection, or it is what the chokepoint makes of the request that a POST to /enforce carries
  -- within its bound, past both guards.
  pub serve-IsServed : IsServed env net codec p r now disk (serve env net codec p r now disk)
  unfolding serve tip_endpoint export_endpoint
  serve-IsServed =
      if_cases Serves (str_eq r.path (codes "/enforce"))
        (λ path.
          if_cases Serves (str_eq r.method (codes "POST"))
            (λ method.
              enforce_endpoint-IsServed ((str_eq_iff r.path (codes "/enforce")).0 path)
                ((str_eq_iff r.method (codes "POST")).0 method))
            (λ _. fails 405))
        (λ _.
          if_cases Serves (str_eq r.path (codes "/tip"))
            (λ _.
              if_cases Serves (is_get r.method)
                (λ _. after_ingress _ (check_ingress net r false) (λ _. unchanged _ (λ h. h)))
                (λ _. fails 405))
            (λ _.
              if_cases Serves (str_eq r.path (codes "/export"))
                (λ _.
                  if_cases Serves (is_get r.method)
                    (λ _.
                      after_ingress _ (check_ingress net r false)
                        (λ _. marshal_export-IsServed (export env p)))
                    (λ _. fails 405))
                (λ _. fails 404)))
