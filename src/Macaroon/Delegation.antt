-- ===== src/Macaroon/Delegation.antt =====
-- `Attenuate` and `Extends` of internal/macaroon/macaroon.go.
pub mod Extension
pub mod Integrity
use kessa.Base.{
  ℕ, zero, suc, leb, Bytes, Str, str_eq, Bool, true, false, not, ◌&&◌, List, [], ◌∷◌, ◌++◌, length,
  drop, Result, ok, err, ◌>>=◌, ◌>>◌, guard, wrap, if◌then◌else◌,
}
use kessa.Errors.{
  Error, cannot_attenuate, does_not_narrow, identifier_mismatch, fewer_caveats, diverges_at,
  incomparable, broadens,
}
use kessa.Platform.{Platform}
use kessa.Macaroon.{
  Op, eq, ne, le, lt, ge, gt, member, unknown, Caveat, Macaroon, canonical, validate, narrows,
}

-- The loop over the caveats that stand, on those of the new caveat's field. The two callers word
-- its errors differently.
pub check_against :
    Platform → (Error → Error) → Error → List Caveat → Caveat → Result Error (Unit {0})
check_against p no_order refused [] c = ok tt
check_against p no_order refused (e ∷ es) c =
    let rest = check_against p no_order refused es c in
    let compared : Result Error (Unit {0}) = do
      (do narrower ← wrap no_order (narrows p e c); guard narrower refused)
      rest
    in if str_eq e.field c.field then compared else rest

unfoldable pub attenuate : Platform → Macaroon → Caveat → Result Error Macaroon
unfolding check_against
attenuate p m c = do
  validate p c
  check_against p cannot_attenuate does_not_narrow m.caveats c
  ok (record m { caveats = m.caveats ++ c ∷ []; signature = p.hmac m.signature (canonical c) })

-- Attenuated by one caveat after another, as the macaroon goes down a chain.
unfoldable pub attenuate_all : Platform → Macaroon → List Caveat → Result Error Macaroon
attenuate_all p m [] = ok m
attenuate_all p m (c ∷ cs) = do m' ← attenuate p m c; attenuate_all p m' cs

op_eq : Op → Op → Bool
op_eq eq eq = true
op_eq ne ne = true
op_eq le le = true
op_eq lt lt = true
op_eq ge ge = true
op_eq gt gt = true
op_eq member member = true
op_eq (unknown s) (unknown t) = str_eq s t
op_eq _ _ = false

-- `==` on the struct.
unfoldable pub caveat_eq : Caveat → Caveat → Bool
unfolding op_eq
caveat_eq c d = str_eq c.field d.field && op_eq c.op d.op && str_eq c.value d.value

-- The first list runs out only where the lengths were not compared before.
check_prefix : ℕ → List Caveat → List Caveat → Result Error (Unit {0})
check_prefix i cs [] = ok tt
check_prefix i [] (q ∷ qs) = err (diverges_at i)
check_prefix i (c ∷ cs) (q ∷ qs) = do
  guard (caveat_eq c q) (diverges_at i)
  check_prefix (suc i) cs qs

-- Each added caveat narrows what has been gathered so far.
check_added : Platform → List Caveat → List Caveat → Result Error (Unit {0})
unfolding check_against
check_added p acc [] = ok tt
check_added p acc (c ∷ cs) = do
  validate p c
  check_against p incomparable broadens acc c
  check_added p (acc ++ c ∷ []) cs

unfoldable pub extends : Platform → Macaroon → Macaroon → Result Error (Unit {0})
unfolding check_prefix check_added
extends p m parent = do
  guard (str_eq m.identifier parent.identifier) identifier_mismatch
  guard (leb (length parent.caveats) (length m.caveats)) fewer_caveats
  check_prefix 0 m.caveats parent.caveats
  check_added p parent.caveats (drop (length parent.caveats) m.caveats)
