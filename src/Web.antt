-- ===== src/Web.antt =====
-- Hosts, URLs and file paths: what the program takes from net/url, net, net/netip, mime and
-- path/filepath. The parsers of URLs, addresses and media types are parameters; the operations on
-- what they return are definitions.
pub mod Host
pub mod Disk
pub mod Paths
pub mod DidWeb
use kessa.Base.{
  ℕ, ◌==◌, leb, ◌+◌, ◌-◌, ◌*◌, Str, codes, str_eq, is_empty, Bool, true, false, ◌&&◌, ◌||◌, Option,
  none, some, List, [], ◌∷◌, map, ◌≡◌, refl, if◌then◌else◌,
}

-- The parts of a `url.URL` that the program reads; `has_user` tells whether there is userinfo.
pub record Url : Type 0 where
  pub scheme : Str
  pub has_user : Bool
  pub host : Str
  pub path : Str
  pub raw_query : Str
  pub force_query : Bool
  pub fragment : Str

-- `netip.Addr`, by its `Is4` and its `Zone`.
pub record Addr : Type 0 where
  pub is_4 : Bool
  pub zone : Str

pub record Net : Type 0 where
  -- url.Parse
  pub parse_url : Str → Option Url
  -- netip.ParseAddr
  pub parse_addr : Str → Option Addr
  -- net.ParseIP, with IsLoopback of its result
  pub parse_ip : Str → Option Bool
  -- mime.ParseMediaType, without the parameters
  pub parse_media_type : Str → Option Str

-- `strings.Contains` for one byte.
unfoldable pub has_byte : ℕ → Str → Bool
has_byte c [] = false
has_byte c (x ∷ s) = x == c || has_byte c s

unfoldable pub starts_with : ℕ → Str → Bool
starts_with c [] = false
starts_with c (x ∷ s) = x == c

-- `strings.TrimPrefix` with its test: the rest after a prefix.
unfoldable pub after_prefix : Str → Str → Option Str
after_prefix [] s = some s
after_prefix (c ∷ p) [] = none
after_prefix (c ∷ p) (x ∷ s) = if x == c then after_prefix p s else none

extend_left : ℕ → Str → Bool → Option (Str × Str) → Option (Str × Str)
extend_left x s here (some (a, b)) = some (x ∷ a, b)
extend_left x s true none = some ([], s)
extend_left x s false none = none

-- What stands before and after the last occurrence of a byte, by `strings.LastIndex`.
unfoldable pub split_last : ℕ → Str → Option (Str × Str)
unfolding extend_left
split_last c [] = none
split_last c (x ∷ s) = extend_left x s (x == c) (split_last c s)

-- Everything but the last byte.
unfoldable pub drop_last : Str → Str
drop_last [] = []
drop_last (x ∷ []) = []
drop_last (x ∷ y ∷ s) = x ∷ drop_last (y ∷ s)

unfoldable pub last_byte : Str → ℕ
last_byte [] = 0
last_byte (x ∷ []) = x
last_byte (x ∷ y ∷ s) = last_byte (y ∷ s)

unfoldable pub is_digit : ℕ → Bool
is_digit c = leb b'0' c && leb c b'9'

unfoldable pub all_digits : Str → Bool
unfolding is_digit
all_digits [] = true
all_digits (c ∷ s) = is_digit c && all_digits s

-- `strings.ToLower` of ASCII.
lower_byte : ℕ → ℕ
lower_byte c = if leb b'A' c && leb c b'Z' then c + 32 else c

unfoldable pub to_lower : Str → Str
unfolding lower_byte
to_lower s = map lower_byte s

-- `url.Hostname` and `url.Port`: a port is split off where it is made of digits, and brackets are
-- removed.
unbracketed : Str → Str
unfolding starts_with last_byte drop_last
unbracketed [] = []
unbracketed (c ∷ s) = if c == b'[' && last_byte (c ∷ s) == b']' then drop_last s else c ∷ s

split_at_port : Str → Option (Str × Str) → Str × Str
unfolding unbracketed all_digits
split_at_port host none = (unbracketed host, [])
split_at_port host (some (name, port)) =
    if all_digits port then (unbracketed name, port) else (unbracketed host, [])

unfoldable pub split_host_port : Str → Str × Str
unfolding split_at_port split_last
split_host_port host = split_at_port host (split_last b':' host)

hex_value : ℕ → Option ℕ
unfolding is_digit
hex_value c =
    if is_digit c
    then some (c - b'0')
    else if leb b'a' c && leb c b'f'
    then some (c - b'a' + 10)
    else if leb b'A' c && leb c b'F'
    then some (c - b'A' + 10)
    else none

decoded : Option ℕ → Option ℕ → Option Str → Option Str
decoded (some hi) (some lo) (some s) = some ((hi * 16 + lo) ∷ s)
decoded _ _ _ = none

kept : ℕ → Option Str → Option Str
kept c (some s) = some (c ∷ s)
kept c none = none

-- `url.PathUnescape`: two hexadecimal digits after each `%`.
unfoldable pub path_unescape : Str → Option Str
unfolding decoded kept hex_value
path_unescape [] = some []
path_unescape (c ∷ []) = if c == b'%' then none else some (c ∷ [])
path_unescape (c ∷ d ∷ []) = if c == b'%' then none else kept c (path_unescape (d ∷ []))
path_unescape (c ∷ d ∷ e ∷ s) =
    let plain = kept c (path_unescape (d ∷ e ∷ s)) in
    let escaped = decoded (hex_value d) (hex_value e) (path_unescape s) in
    if c == b'%' then escaped else plain

unescape_test : path_unescape (codes "localhost%3A80") ≡ some (codes "localhost:80")
unfolding path_unescape
unescape_test = refl

port_test : split_host_port (codes "[::1]:80") ≡ (codes "::1", codes "80")
unfolding split_host_port
port_test = refl
