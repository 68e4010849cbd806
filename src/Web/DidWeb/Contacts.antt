-- ===== src/Web/DidWeb/Contacts.antt =====
-- Which servers the resolution of a DID over HTTP contacts.
use mathlib.Core.List.{append_assoc, append-nil}
use kessa.Base.{
  ℕ, zero, suc, ◌+◌, ◌≤◌, ◌==◌, ltb, ◌≡◌, ◌≢◌, refl, sym, ap, ◌∙◌, subst, Bytes, Str, codes, str_eq,
  str_eq_refl, str_eq_iff, length, length-append, Bool, true, false, Bool-cases, not, ◌&&◌, ◌⊎◌,
  inl, inr, Option, some, none, List, [], ◌∷◌, ◌++◌, All, Result, ok, err, ◌>>◌, guard, require,
  >>=-eq-ok, >>-eq-ok, guard-eq-ok, ok_inj, if◌then◌else◌, arith,
}
use kessa.Keys.{Document}
use kessa.Types.{Did}
use kessa.Web.{Net, Url}
use kessa.Web.DidWeb.{
  DidError, too_many_redirects, left_the_host, bad_status, out_of_fuel, not_a_document, wrong_id,
  DocumentCodec, parse_did_web, did_web_to_url, parse_document, host_allowed, same_host, norm_host,
  check_redirect, Answer, redirect, response, unreachable, Web, on_check, on_answer, follow, finish,
  from_url, permitted_url, resolve_http,
}

-- A URL that a request may follow to: on the same host, and over TLS where the first one is.
abbrev pub IsContact : Url → Url → Type 0
IsContact origin u =
    (same_host origin u ≡ true)
    × (str_eq origin.scheme (codes "https") ≡ true → str_eq u.scheme (codes "https") ≡ true)

check_redirect-IsContact :
    (origin target : Url) (via : List Url)
    → check_redirect origin via target ≡ ok tt
    → (suc (length via) ≤ 3) × IsContact origin target
unfolding check_redirect
check_redirect-IsContact origin target via h =
    let (few, h1) = >>-eq-ok (guard (ltb (length via) 3) too_many_redirects) _ h in
    let (same, tls) = >>-eq-ok (guard (same_host origin target) left_the_host) _ h1 in
    let fewer : ltb (length via) 3 ≡ true = guard-eq-ok _ _ few in
    let kept : not
          (str_eq origin.scheme (codes "https") && not (str_eq target.scheme (codes "https")))
        ≡ true =
      guard-eq-ok _ _ tls in
    (ground arith, (guard-eq-ok _ _ same, λ secure. ground arith))

err_inj : {A : Type 0} {x y : DidError} → ◌≡◌ {A = Result DidError A} (err x) (err y) → x ≡ y
err_inj h = cc

guard-eq-err : (b : Bool) {x y : DidError} → guard b x ≡ err y → x ≡ y
guard-eq-err true h = cc
guard-eq-err false h = cc

>>-eq-err :
    (m n : Result DidError (Unit {0})) {x : DidError} → (m >> n) ≡ err x → (m ≡ err x) ⊎ (n ≡ err x)
>>-eq-err (ok a) n h = inr h
>>-eq-err (err e) n h = inl h

check_redirect-fuel :
    (origin target : Url) (via : List Url) (x : DidError)
    → check_redirect origin via target ≡ err x
    → x ≢ out_of_fuel
unfolding check_redirect
check_redirect-fuel origin target via x h =
    elim (>>-eq-err (guard (ltb (length via) 3) too_many_redirects) _ h) [
      | inl a ↦ λ e. cc (guard-eq-err (ltb (length via) 3) a, e)
      | inr h1 ↦ elim (>>-eq-err (guard (same_host origin target) left_the_host) _ h1) [
        | inl a ↦ λ e. cc (guard-eq-err (same_host origin target) a, e)
        | inr a ↦ λ e. cc (
          guard-eq-err
              (not (
                str_eq origin.scheme (codes "https") && not (str_eq target.scheme (codes "https"))))
              a,
          e,
        )
      ]
    ]

module _ (web : Web) (origin : Url) where
  -- What a chain of requests that has contacted `via` leaves behind.
  abbrev IsChain : List Url → List Url × Result DidError Bytes → Type 0
  IsChain via (all, outcome) =
      ((rest : List Url) × (all ≡ via ++ rest))
      × (length all ≤ 3)
      × All (IsContact origin) all
      × (outcome ≢ err out_of_fuel)

  All-snoc :
      (via : List Url) (u : Url)
      → All (IsContact origin) via
      → IsContact origin u
      → All (IsContact origin) (via ++ u ∷ [])
  All-snoc [] u h hu = (hu, tt)
  All-snoc (v ∷ via) u h hu = (h.0, All-snoc via u h.1 hu)

  stopped :
      (via : List Url) (outcome : Result DidError Bytes)
      → length via ≤ 3
      → All (IsContact origin) via
      → outcome ≢ err out_of_fuel
      → IsChain via (via, outcome)
  stopped via outcome few contacts fuel = (([], sym (append-nil via)), few, contacts, fuel)

  longer :
      (via : List Url) (u : Url) (r : List Url × Result DidError Bytes)
      → IsChain (via ++ u ∷ []) r
      → IsChain via r
  longer via u r ((rest, e), few, all, fuel) =
      ((u ∷ rest, e ∙ append_assoc via (u ∷ []) rest), few, all, fuel)

  status-fuel :
      (status : ℕ) (body : Bytes)
      → (if status == 200 then ok body else err (bad_status status)) ≢ err out_of_fuel
  status-fuel status body = elim (Bool-cases (status == 200)) [
    | inl e ↦ λ h. cc (rw e at h)
    | inr e ↦ λ h. cc (rw e at h)
  ]

  module _ (via : List Url) (few : length via ≤ 3) (contacts : All (IsContact origin) via) where
    on_check-IsChain :
        (next : List Url × Result DidError Bytes) (target : Url) (c : Result DidError (Unit {0}))
        → check_redirect origin via target ≡ c
        → (suc (length via) ≤ 3 → IsContact origin target → IsChain (via ++ target ∷ []) next)
        → IsChain via (on_check via next c)
    unfolding on_check
    on_check-IsChain next target (ok a) e go =
        let (fewer, contact) = check_redirect-IsContact origin target via e in
        longer via target next (go fewer contact)
    on_check-IsChain next target (err x) e go =
        stopped via (err x) few contacts
          (λ h. check_redirect-fuel origin target via x e (err_inj h))

    on_answer-IsChain :
        (next : Url → List Url × Result DidError Bytes) (a : Answer)
        → ((target : Url)
            → suc (length via) ≤ 3
            → IsContact origin target
            → IsChain (via ++ target ∷ []) (next target))
        → IsChain via (on_answer origin via next a)
    unfolding on_answer
    on_answer-IsChain next (redirect target) go =
        on_check-IsChain (next target) target (check_redirect origin via target) refl (go target)
    on_answer-IsChain next (response status body) go =
        stopped via _ few contacts (status-fuel status body)
    on_answer-IsChain next unreachable go = stopped via _ few contacts (λ h. cc)

  follow-IsChain :
      (left : ℕ) (via : List Url) (u : Url)
      → length via + suc left ≡ 3
      → All (IsContact origin) via
      → IsContact origin u
      → IsChain (via ++ u ∷ []) (follow (suc left) web origin via u)
  unfolding follow
  follow-IsChain zero via u fuel contacts here =
      let more = length-append via (u ∷ []) in
      on_answer-IsChain (via ++ u ∷ []) (omega (arith, more, fuel)) (All-snoc via u contacts here)
        (λ target. follow zero web origin (via ++ u ∷ []) target) (web u)
        (λ target few contact. absurd (omega (arith, more, fuel, few)))
  follow-IsChain (suc left) via u fuel contacts here =
      let more = length-append via (u ∷ []) in
      let all = All-snoc via u contacts here in
      on_answer-IsChain (via ++ u ∷ []) (omega (arith, more, fuel)) all
        (λ target. follow (suc left) web origin (via ++ u ∷ []) target) (web u)
        (λ target few contact.
          follow-IsChain left (via ++ u ∷ []) target (omega (arith, more, fuel)) all contact)

-- What a resolution contacts, and what it returns.
pub data IsResolution (net : Net) (hosts : List Str) (scheme : Str) (did : Did)
    : List Url × Result DidError Document → Type 0 where
  refused :
      (x : DidError)
      → permitted_url net hosts scheme did ≡ err x
      → IsResolution net hosts scheme did ([], err x)
  contacted :
      (host : Str) (segs : List Str) (u : Url) (rest : List Url) (r : Result DidError Document)
      → parse_did_web net did ≡ ok (host, segs)
      → host_allowed hosts host ≡ ok tt
      → did_web_to_url net did scheme ≡ ok u
      → length (u ∷ rest) ≤ 3
      → All (IsContact u) (u ∷ rest)
      → ((doc : Document) → r ≡ ok doc → doc.id ≡ did)
      → r ≢ err out_of_fuel
      → IsResolution net hosts scheme did (u ∷ rest, r)

same_host_refl : (u : Url) → same_host u u ≡ true
unfolding same_host
same_host_refl u = str_eq_refl (norm_host u)

parse_document-id :
    (did : Did) (o : Option Document) (doc : Document)
    → parse_document did o ≡ ok doc
    → doc.id ≡ did
unfolding parse_document
parse_document-id did o doc h =
    let (d, _, h1) = >>=-eq-ok (require o not_a_document) _ h in
    let (here, made) = >>-eq-ok (guard (str_eq d.id did) wrong_id) _ h1 in
    ap (λ x. x.id) (sym (ok_inj made)) ∙ (str_eq_iff d.id did).0 (guard-eq-ok _ _ here)

parse_document-fuel : (did : Did) (o : Option Document) → parse_document did o ≢ err out_of_fuel
unfolding parse_document
parse_document-fuel did none = λ h. cc
parse_document-fuel did (some d) = elim (Bool-cases (str_eq d.id did)) [
  | inl e ↦ λ h. cc (rw e at h)
  | inr e ↦ λ h. cc (rw e at h)
]

module _ (net : Net) (codec : DocumentCodec) (hosts : List Str) (scheme : Str) (did : Did) where
  finish-IsResolution :
      (host : Str) (segs : List Str) (u : Url) (r : List Url × Result DidError Bytes)
      → parse_did_web net did ≡ ok (host, segs)
      → host_allowed hosts host ≡ ok tt
      → did_web_to_url net did scheme ≡ ok u
      → ((rest : List Url) × (r.0 ≡ u ∷ rest))
      → length r.0 ≤ 3
      → All (IsContact u) r.0
      → r.1 ≢ err out_of_fuel
      → IsResolution net hosts scheme did (finish codec did r)
  unfolding finish
  finish-IsResolution host segs u (all, ok body) parsed permitted url (rest, e) few contacts fuel =
      subst
        (λ a. IsResolution net hosts scheme did (a, parse_document did (codec.decode_first body)))
        (sym e)
        (contacted host segs u rest _ parsed permitted url (subst (λ a. length a ≤ 3) e few)
          (subst (All (IsContact u)) e contacts) (λ doc. parse_document-id did _ doc)
          (parse_document-fuel did _))
  finish-IsResolution host segs u (all, err x) parsed permitted url (rest, e) few contacts fuel =
      subst (λ a. IsResolution net hosts scheme did (a, err x)) (sym e)
        (contacted host segs u rest (err x) parsed permitted url (subst (λ a. length a ≤ 3) e few)
          (subst (All (IsContact u)) e contacts) (λ doc h. cc) (λ h. fuel (ap err (err_inj h))))

  from_url-IsResolution :
      (web : Web) (m : Result DidError Url)
      → permitted_url net hosts scheme did ≡ m
      → IsResolution net hosts scheme did (from_url codec did web m)
  unfolding from_url permitted_url
  from_url-IsResolution web (err x) e = refused x e
  from_url-IsResolution web (ok u) e =
      let ((host, segs), parsed, h1) = >>=-eq-ok (parse_did_web net did) _ e in
      let (permitted, url) = >>-eq-ok (host_allowed hosts host) _ h1 in
      let here : IsContact u u = (same_host_refl u, λ s. s) in
      let (begins, few, contacts, fuel) = follow-IsChain web u 2 [] u refl tt here in
      finish-IsResolution host segs u (follow 3 web u [] u) parsed permitted url begins few contacts
        fuel

-- Resolving a DID over HTTP ends, never for want of fuel. Either the DID or its host is refused and
-- nothing is contacted, or the first URL contacted is the one of the DID, on a permitted host, at
-- most three URLs are contacted, all on this host and all over TLS where the first is, and a
-- document that is returned has the DID as its id.
pub resolve_http-IsResolution :
    (net : Net) (codec : DocumentCodec) (hosts : List Str) (scheme : Str) (web : Web) (did : Did)
    → IsResolution net hosts scheme did (resolve_http net codec hosts scheme web did)
unfolding resolve_http
resolve_http-IsResolution net codec hosts scheme web did =
    from_url-IsResolution net codec hosts scheme did web (permitted_url net hosts scheme did) refl
