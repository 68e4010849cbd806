-- ===== src/Base/Dict.antt =====
-- A Go map with string keys as an association list: a write replaces the value of its key.
use mathlib.Core.Path.{◌≡◌, refl}
use mathlib.Core.Option.{Option, none, some}
use mathlib.Core.List.{List, [], ◌∷◌}
use native.Mathlib.Omega.{arith}
use kessa.Base.Tests.{if◌then◌else◌}
use kessa.Base.Strings.{Str, str_eq, str_eq_iff}

abbrev pub Dict {ℓ} : Type ℓ → Type ℓ
Dict V = List (Str × V)

module _ {ℓ} {V : Type ℓ} where
  unfoldable pub lookup : Str → Dict V → Option V
  lookup k [] = none
  lookup k ((j, v) ∷ m) = if str_eq j k then some v else lookup k m

  unfoldable pub insert : Str → V → Dict V → Dict V
  insert key value [] = (key, value) ∷ []
  insert key value ((k, old) ∷ rest) =
      if str_eq k key then (key, value) ∷ rest else (k, old) ∷ insert key value rest

  -- `for k, v := range from { into[k] = v }`
  unfoldable pub insert_all : Dict V → Dict V → Dict V
  insert_all [] into = into
  insert_all ((k, v) ∷ from) into = insert_all from (insert k v into)

  pub lookup-insert :
      (key at : Str) (value : V) (d : Dict V)
      → lookup at (insert key value d) ≡ (if str_eq key at then some value else lookup at d)
  unfolding lookup insert
  lookup-insert key at value [] = refl
  lookup-insert key at value ((k, old) ∷ rest) =
      ground (
        arith,
        lookup-insert key at value rest,
        str_eq_iff key at,
        str_eq_iff k at,
        str_eq_iff k key,
      )
