-- ===== src/Web/Host.antt =====
-- internal/webhost/webhost.go: the grammar of the hosts of did:web identifiers and list URLs.
pub mod Safety
use kessa.Base.{
  ℕ, ◌==◌, leb, ltb, ◌+◌, ◌-◌, ◌*◌, Str, codes, is_empty, length, drop, split, Bool, true, false,
  not, ◌&&◌, ◌||◌, Option, none, some, List, [], ◌∷◌, ◌++◌, Result, ok, err, ◌>>=◌, ◌>>◌, guard,
  require, if◌then◌else◌, ◌≡◌, refl,
}
use kessa.Web.{
  Net, Addr, has_byte, starts_with, split_last, drop_last, last_byte, is_digit, all_digits,
}

pub data HostError : Type 0 where
  empty_host missing_bracket multiple_colons empty_label label_too_long hyphen_at_end : HostError
  host_too_long : ℕ → HostError
  not_a_host_byte not_a_port port_out_of_range after_literal : Str → HostError
  empty_literal not_an_address is_ipv4 has_zone : HostError

abbrev pub max_host_len : ℕ
max_host_len = 253

split_bracketed : Str → Option (Str × Str) → Result HostError (Str × Option Str)
split_bracketed host none = err missing_bracket
split_bracketed host (some (name, [])) = ok (host, none)
split_bracketed host (some (name, c ∷ port)) =
    if c == b':' then ok (name ++ b']' ∷ [], some port) else err (after_literal (c ∷ port))

split_plain : Str → Option (Str × Str) → Result HostError (Str × Option Str)
unfolding has_byte
split_plain host none = ok (host, none)
split_plain host (some (name, port)) =
    if has_byte b':' name then err multiple_colons else ok (name, some port)

-- `splitPort`; `none` stands for no port.
unfoldable pub split_port : Str → Result HostError (Str × Option Str)
unfolding split_bracketed split_plain
split_port host =
    if starts_with b'[' host
    then split_bracketed host (split_last b']' host)
    else split_plain host (split_last b':' host)

-- `isHostByte`
unfoldable pub is_host_byte : ℕ → Bool
is_host_byte c =
    (leb b'a' c && leb c b'z')
    || (leb b'A' c && leb c b'Z')
    || (leb b'0' c && leb c b'9')
    || (c == b'-' || c == b'_')

check_bytes : Str → Result HostError (Unit {0})
check_bytes [] = ok tt
check_bytes (c ∷ s) = do guard (is_host_byte c) (not_a_host_byte (c ∷ [])); check_bytes s

check_label : Str → Result HostError (Unit {0})
unfolding check_bytes
check_label label = do
  guard (not (is_empty label)) empty_label
  guard (leb (length label) 63) label_too_long
  guard (not (starts_with b'-' label || last_byte label == b'-')) hyphen_at_end
  check_bytes label

check_labels : List Str → Result HostError (Unit {0})
unfolding check_label
check_labels [] = ok tt
check_labels (l ∷ ls) = do check_label l; check_labels ls

-- `validateHostname`
unfoldable pub validate_hostname : Str → Result HostError (Unit {0})
unfolding check_labels
validate_hostname name = do
  guard (not (is_empty name)) empty_host
  guard (leb (length name) max_host_len) (host_too_long (length name))
  check_labels (split b'.' name)

-- `validateIPv6Literal`, of a name that starts with a bracket.
unfoldable pub validate_ipv6_literal : Net → Str → Result HostError (Unit {0})
validate_ipv6_literal net name = do
  guard (last_byte name == b']') missing_bracket
  let inner : Str = drop_last (drop 1 name)
  guard (not (is_empty inner)) empty_literal
  addr ← require (net.parse_addr inner) not_an_address
  guard (not addr.is_4) is_ipv4
  guard (is_empty addr.zone) has_zone

decimal : ℕ → Str → ℕ
decimal acc [] = acc
decimal acc (c ∷ s) = decimal (acc * 10 + (c - b'0')) s

-- `validatePort`
unfoldable pub validate_port : Str → Result HostError (Unit {0})
unfolding decimal
validate_port port = do
  guard (not (is_empty port)) (not_a_port port)
  guard (all_digits port) (not_a_port port)
  guard (leb 1 (decimal 0 port) && leb (decimal 0 port) 65535) (port_out_of_range port)

check_name : Net → Str → Result HostError (Unit {0})
check_name net name =
    if starts_with b'[' name then validate_ipv6_literal net name else validate_hostname name

check_port : Option Str → Result HostError (Unit {0})
check_port none = ok tt
check_port (some port) = validate_port port

-- `Validate`
unfoldable pub validate : Net → Str → Result HostError (Unit {0})
unfolding check_name check_port
validate net host = do
  guard (not (is_empty host)) empty_host
  parts ← split_port host
  check_name net (parts.0)
  check_port (parts.1)
