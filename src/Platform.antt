-- ===== src/Platform.antt =====
-- What the program takes from Go's standard library and does not implement: cryptography, base64,
-- and the parsers of numbers and timestamps. Each is a parameter of the definitions that use it.
pub mod Float
use kessa.Base.{Bytes, Str, Bool, Option}
use kessa.Base.Int.{ℤ}
use kessa.Platform.Float.{Float64}

pub record Platform : Type 0 where
  -- crypto/sha256, crypto/hmac with SHA-256 (key, then message)
  pub sha256 : Bytes → Bytes
  pub hmac : Bytes → Bytes → Bytes
  -- ed25519.Verify (key, message, signature)
  pub ed25519_verify : Bytes → Bytes → Bytes → Bool
  -- ecdsa.VerifyASN1 on P-256 (x, y, digest, signature)
  pub ecdsa_verify : Bytes → Bytes → Bytes → Bytes → Bool
  -- ecdh.P256().NewPublicKey accepts the point
  pub is_p256_point : Bytes → Bytes → Bool
  -- base64.RawURLEncoding, and the padded base64.URLEncoding
  pub encode_base64 : Bytes → Str
  pub decode_base64_raw : Str → Option Bytes
  pub decode_base64_padded : Str → Option Bytes
  -- time.Parse(time.RFC3339, s), as exact nanoseconds since the Unix epoch
  pub parse_time : Str → Option ℤ
  -- t.UTC().Format(time.RFC3339Nano)
  pub format_time : ℤ → Str
  -- strconv.ParseFloat(s, 64), where it reports no error
  pub parse_float : Str → Option Float64
