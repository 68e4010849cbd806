-- ===== src/Types/Context.antt =====
-- The flattened context of an action.
use kessa.Base.{◌≡◌, refl, str_eq, str_eq_refl, false, some}
use kessa.Base.Dict.{lookup, lookup-insert}
use kessa.Platform.{Platform}
use kessa.Types.{Action, context, field_action_type, field_target, field_expiry}

fields_differ :
    (str_eq field_expiry field_target ≡ false)
    × (str_eq field_expiry field_action_type ≡ false)
    × (str_eq field_target field_action_type ≡ false)
unfolding str_eq
fields_differ = (refl, refl, refl)

-- Whatever the attributes, the reserved names of the context stand for the action's own type, its
-- target and its formatted timestamp.
pub context-reserved :
    (p : Platform) (a : Action)
    → (lookup field_action_type (context p a) ≡ some a.type)
      × (lookup field_target (context p a) ≡ some a.target)
      × (lookup field_expiry (context p a) ≡ some (p.format_time a.timestamp))
unfolding context
context-reserved p a =
    let (d, e, f) = fields_differ in
    (
      simp (lookup-insert, e, f, str_eq_refl field_action_type),
      simp (lookup-insert, d, str_eq_refl field_target),
      simp (lookup-insert, str_eq_refl field_expiry),
    )
