-- ===== src/Env.antt =====
-- The platform with `json.Marshal` on the program's types. The encoder reports an error for a
-- timestamp outside of the years that RFC 3339 can write.
use kessa.Base.{Bytes, Option}
use kessa.Audit.Data.{Entry}
use kessa.Credential.Data.{Credential}
use kessa.Keys.{Jwk}
use kessa.Platform.{Platform}
use kessa.Policy.{Policy}
use kessa.Types.{Action}

pub record Env : Type 0 where
  pub platform : Platform
  pub marshal_jwk : Jwk → Bytes
  pub marshal_action : Action → Option Bytes
  pub marshal_credential : Credential → Option Bytes
  pub marshal_policy : Policy → Option Bytes
  pub marshal_entry : Entry → Option Bytes
