-- ===== src/Types.antt =====
-- pkg/types/types.go: actions, their flattened context, and decisions.
pub mod Context
use kessa.Base.{ℕ, Str, codes, Bool, List, [], Option}
use kessa.Base.Dict.{Dict, insert, insert_all}
use kessa.Base.Int.{ℤ}
use kessa.Errors.{Error}
use kessa.Platform.{Platform}

abbrev pub Did : Type 0
Did = Str

-- The timestamp is an instant in nanoseconds.
pub record Action : Type 0 where
  pub type : Str
  pub target : Str
  pub attributes : Dict Str
  pub timestamp : ℤ

-- The text of a decision: a policy's own words, a message of the evaluator, or that of an error.
pub data Reason : Type 0 where
  stated : Str → Reason
  not_comparable : Str → Str → Reason
  within_authority : Reason
  denied : Error → Reason

pub record Decision : Type 0 where
  pub allowed : Bool
  pub consequential : Bool
  pub rule_fired : Str
  pub policy_version : Str
  pub status_checked_hops : ℤ
  pub reason : Reason

abbrev pub field_action_type : Str
field_action_type = codes "action.type"

abbrev pub field_target : Str
field_target = codes "target"

abbrev pub field_expiry : Str
field_expiry = codes "expiry"

-- The reserved names are written last, so no attribute shadows them.
unfoldable pub context : Platform → Action → Dict Str
context p a =
    insert field_expiry (p.format_time a.timestamp)
      (insert field_target a.target (insert field_action_type a.type (insert_all a.attributes [])))
