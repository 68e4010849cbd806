-- ===== src/Examples/Macaroons.antt =====
-- Macaroons at concrete caveats.
use kessa.Base.{◌≡◌, refl, ◌↔◌, Str, codes, str_eq, split, trim_space, true, [], ◌∷◌, ◌++◌, ok}
use kessa.Base.Dict.{Dict, lookup}
use kessa.Macaroon
use kessa.Macaroon.{
  Caveat, Macaroon, eq, member, mint, narrows, satisfied, satisfied_by, satisfies, all_satisfied,
  split_set, contains, validate, canonical, verify,
}
use kessa.Macaroon.Accepts.{eval_condition-satisfied, to_condition_op}
use kessa.Macaroon.Narrowing.{narrows_sound}
use kessa.Macaroon.Delegation.{attenuate_all, attenuate, extends}
use kessa.Macaroon.Delegation.Extension.{IsExtension, extends_iff}
use kessa.Macaroon.Delegation.Integrity.{verify-attenuate_all}
use kessa.Policy
use kessa.Examples.World.{toy, key}

abbrev either_type : Caveat
either_type = record { field = codes "action.type"; op = member; value = codes "post, read" }

abbrev posts_only : Caveat
posts_only = record { field = codes "action.type"; op = eq; value = codes "post" }

abbrev posting : Dict Str
posting = (codes "action.type", codes "post") ∷ []

narrower : narrows toy either_type posts_only ≡ ok true
unfolding narrows split_set split trim_space contains str_eq Macaroon.narrows_set
narrower = refl

post_allowed : satisfied toy posting posts_only ≡ ok tt
unfolding satisfied satisfied_by lookup str_eq
post_allowed = refl

narrows_sound_example : satisfied toy posting either_type ≡ ok tt
narrows_sound_example = narrows_sound toy either_type posts_only posting refl narrower post_allowed

eval_condition-satisfied_example :
    ((Policy.eval_condition toy posting (record {
      field = codes "action.type";
      op = to_condition_op member;
      value = codes "post, read";
    })).0
      ≡ true)
    ↔ (satisfied toy posting either_type ≡ ok tt)
eval_condition-satisfied_example = eval_condition-satisfied toy posting either_type

abbrev root : Macaroon
root = mint toy (key 9) (codes "m1") (codes "here")

abbrev wide : Macaroon
wide = record {
  location = codes "here";
  identifier = codes "m1";
  caveats = either_type ∷ [];
  signature = key 9 ++ (codes "m1" ++ canonical either_type);
}

abbrev narrow : Macaroon
narrow = record {
  location = codes "here";
  identifier = codes "m1";
  caveats = either_type ∷ posts_only ∷ [];
  signature = (key 9 ++ (codes "m1" ++ canonical either_type)) ++ canonical posts_only;
}

extends_iff_example : (extends toy narrow wide ≡ ok tt) ↔ IsExtension toy narrow wide
extends_iff_example = extends_iff toy narrow wide

grown :
    attenuate_all toy (mint toy (key 9) (codes "m1") (codes "here")) (either_type ∷ posts_only ∷ [])
    ≡ ok narrow
unfolding attenuate_all attenuate mint validate narrows split_set split trim_space contains str_eq
    canonical Macaroon.narrows_set
grown = refl

verify-attenuate_all_example : verify toy narrow (key 9) posting ≡ satisfies toy narrow posting
verify-attenuate_all_example =
    verify-attenuate_all toy (key 9) (codes "m1") (codes "here") (either_type ∷ posts_only ∷ [])
      narrow posting grown
