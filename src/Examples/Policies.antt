-- ===== src/Examples/Policies.antt =====
-- Policies at a concrete rule set.
use kessa.Base.{◌≡◌, ◌↔◌, codes, true, false, [], ◌∷◌, ok}
use kessa.Base.Int.{pos}
use kessa.Policy.{Condition, Rule, Policy, eq, ne, validate, evaluate}
use kessa.Policy.Validation.{IsWellFormed, validate_iff}
use kessa.Policy.Rules.{evaluate_iff, Decides}
use kessa.Types.{Action, Decision, context, stated}
use kessa.Examples.World.{toy}

abbrev is_wire : Condition
is_wire = record { field = codes "action.type"; op = eq; value = codes "wire" }

abbrev not_home : Condition
not_home = record { field = codes "target"; op = ne; value = codes "home" }

abbrev no_wires : Rule
no_wires = record {
  name = codes "no-wires";
  conditions = is_wire ∷ not_home ∷ [];
  consequential = true;
  deny = true;
  reason = codes "wires are off";
}

abbrev careful : Policy
careful = record {
  version = codes "v1";
  rules = no_wires ∷ [];
  default = record { allowed = true; consequential = false; reason = codes "routine" };
  default_present = true;
}

abbrev wire : Action
wire = record { type = codes "wire"; target = codes "bank"; attributes = []; timestamp = pos 1 }

abbrev refusal : Decision
refusal = record {
  allowed = false;
  consequential = true;
  rule_fired = codes "no-wires";
  policy_version = codes "v1";
  status_checked_hops = pos 0;
  reason = stated (codes "wires are off");
}

validate_iff_example : (validate toy careful ≡ ok tt) ↔ IsWellFormed toy careful
validate_iff_example = validate_iff toy careful

evaluate_iff_example :
    (evaluate toy careful wire ≡ ok refusal)
    ↔ Decides toy careful (context toy wire) (no_wires ∷ []) refusal
evaluate_iff_example = evaluate_iff toy careful wire refusal
