-- ===== src/Credential/Data.antt =====
-- internal/credential/credential.go: the composed credential.
use kessa.Base.{Bytes, Option}
use kessa.Keys.{Key, Jwk}
use kessa.Macaroon.{Macaroon}
use kessa.Status.{Reference}
use kessa.Types.{Did}

-- The wrapper is opaque: nothing here looks into it.
pub record Credential : Type 0 where
  pub subject : Did
  pub issuer : Did
  pub macaroon : Macaroon
  pub status_ref : Reference
  pub holder_key : Option Jwk
  pub vc_wrapper : Option Bytes

-- `none` is a nil key.
pub record Options : Type 0 where
  pub subject : Did
  pub issuer : Did
  pub macaroon : Macaroon
  pub holder_key : Option Key
  pub status_ref : Reference
  pub vc_wrapper : Option Bytes

pub record Pop : Type 0 where
  pub nonce : Bytes
  pub signature : Bytes
