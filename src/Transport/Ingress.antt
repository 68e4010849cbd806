-- ===== src/Transport/Ingress.antt =====
-- internal/enforce/ingress.go: the guards in front of both listeners.
use kessa.Base.{
  ℕ, Bytes, Str, codes, str_eq, is_empty, Bool, true, false, not, ◌&&◌, ◌||◌, Option, none, some,
  List, [], ◌∷◌, Result, ◌>>◌, guard, ok, if◌then◌else◌, ◌≡◌, refl,
}
use kessa.Web.{Net, Url, split_host_port, to_lower}

pub record HttpRequest : Type 0 where
  pub method : Str
  pub path : Str
  pub headers : List (Str × Str)
  pub body : Bytes

-- `http.Header.Values`, whose names do not depend on the case.
unfoldable pub header_values : Str → List (Str × Str) → List Str
header_values name [] = []
header_values name ((n, v) ∷ hs) =
    let rest = header_values name hs in
    if str_eq (to_lower n) (to_lower name) then v ∷ rest else rest

-- `http.Header.Get`
first_or_empty : List Str → Str
first_or_empty [] = []
first_or_empty (v ∷ vs) = v

-- `isLoopbackHost`
is_loopback_ip : Option Bool → Bool
is_loopback_ip none = false
is_loopback_ip (some b) = b

unfoldable pub is_loopback_host : Net → Str → Bool
unfolding is_loopback_ip
is_loopback_host net host = str_eq host (codes "localhost") || is_loopback_ip (net.parse_ip host)

is_loopback_url : Net → Option Url → Bool
unfolding is_loopback_host
is_loopback_url net none = false
is_loopback_url net (some u) =
    not (is_empty u.host) && is_loopback_host net ((split_host_port u.host).0)

allowed_origins : Net → List Str → Bool
unfolding is_loopback_url
allowed_origins net [] = true
allowed_origins net (o ∷ []) = is_loopback_url net (net.parse_url o)
allowed_origins net (o ∷ o' ∷ os) = false

-- `originAllowed`
unfoldable pub origin_allowed : Net → HttpRequest → Bool
unfolding allowed_origins
origin_allowed net r = allowed_origins net (header_values (codes "Origin") r.headers)

is_json : Option Str → Bool
is_json none = false
is_json (some mt) = str_eq mt (codes "application/json")

-- `hasJSONContentType`
unfoldable pub has_json_content_type : Net → HttpRequest → Bool
unfolding is_json first_or_empty
has_json_content_type net r =
    let ct : Str = first_or_empty (header_values (codes "Content-Type") r.headers) in
    not (is_empty ct) && is_json (net.parse_media_type ct)

-- The refusals of the guards, by their statuses.
pub data Refusal : Type 0 where
  forbidden : Refusal
  unsupported_media_type : Refusal

-- `checkIngress`
unfoldable pub check_ingress : Net → HttpRequest → Bool → Result Refusal (Unit {0})
check_ingress net r body_expected = do
  guard (origin_allowed net r) forbidden
  guard (not (body_expected && not (has_json_content_type net r))) unsupported_media_type

-- `singleHeader`: the value where there is exactly one, and otherwise whether there are several.
pub data Header : Type 0 where
  absent : Header
  single : Str → Header
  duplicated : Header

classify_values : List Str → Header
classify_values [] = absent
classify_values (v ∷ []) = single v
classify_values (v ∷ w ∷ vs) = duplicated

unfoldable pub single_header : HttpRequest → Str → Header
unfolding classify_values
single_header r name = classify_values (header_values name r.headers)

abbrev pub max_request_body : ℕ
max_request_body = 1048576

-- What the program's own client sends passes the guards.
pub check_ingress-client :
    (net : Net) (method path : Str) (body : Bytes)
    → net.parse_media_type (codes "application/json") ≡ some (codes "application/json")
    → check_ingress net
        (record {
          method = method;
          path = path;
          headers = (codes "Content-Type", codes "application/json") ∷ [];
          body = body;
        })
        true
      ≡ ok tt
unfolding check_ingress origin_allowed header_values has_json_content_type str_eq to_lower
check_ingress-client net method path body media = rw media refl
