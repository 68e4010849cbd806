-- ===== src/Shadow/Counts.antt =====
-- What the summary of a run adds up to.
use kessa.Base.{
  ℕ, suc, ◌+◌, ◌≤◌, ◌≡◌, refl, ◌∙◌, Bool, true, false, not, ◌&&◌, Option, none, some, List, [], ◌∷◌,
  length, arith,
}
use kessa.Shadow.{
  Prediction, Summary, tallied, one_if, count_agreement, count_one, count_all, start_summary,
  summarize,
}
use kessa.Types.{Decision}

one_if-not : (b : Bool) → one_if b + one_if (not b) ≡ 1
unfolding one_if
one_if-not true = refl
one_if-not false = refl

one_if-split : (a b : Bool) → one_if a + (one_if (not a && not b) + one_if (not a && b)) ≡ 1
unfolding one_if
one_if-split true b = refl
one_if-split false true = refl
one_if-split false false = refl

one_if-le : (b : Bool) → one_if b ≤ 1
unfolding one_if
one_if-le true = omega arith
one_if-le false = omega arith

-- The counts of a summary, for `n` predictions that are still to come.
abbrev AddsUp : ℕ → Summary → Type 0
AddsUp n s =
    (s.consequential + s.routine + n ≡ s.total)
    × (s.agreed + (s.under_predicted + s.over_predicted) ≡ s.compared)
    × (s.compared + n ≤ s.total)
    × (s.policy_denied + n ≤ s.total)

count_one-AddsUp :
    (x : Prediction) (s : Summary) (n : ℕ) → AddsUp (suc n) s → AddsUp n (count_one x s)
unfolding count_one tallied count_agreement
count_one-AddsUp x s n (a, b, c, d) = by_actual x.actual
  where
    by_actual :
        (o : Option (Decision × Bool)) → AddsUp n (count_agreement x.consequential o (tallied x s))
    by_actual none = (
      omega (arith, a, one_if-not x.consequential),
      b,
      omega (arith, c),
      omega (arith, d, one_if-le x.policy_denies),
    )
    by_actual (some (r, agrees)) = (
      omega (arith, a, one_if-not x.consequential),
      omega (arith, b, one_if-split agrees x.consequential),
      omega (arith, c),
      omega (arith, d, one_if-le x.policy_denies),
    )

count_all-AddsUp :
    (xs : List Prediction) (s : Summary) → AddsUp (length xs) s → AddsUp 0 (count_all xs s)
unfolding count_all
count_all-AddsUp [] s h = h
count_all-AddsUp (x ∷ xs) s h =
    count_all-AddsUp xs (count_one x s) (count_one-AddsUp x s (length xs) h)

count_all-total :
    (xs : List Prediction) (s : Summary)
    → ((count_all xs s).total ≡ s.total) × ((count_all xs s).skipped ≡ s.skipped)
unfolding count_all count_one tallied count_agreement
count_all-total [] s = (refl, refl)
count_all-total (x ∷ xs) s =
    let (a, b) = count_all-total xs (count_one x s) in let (c, d) = kept x.actual in (a ∙ c, b ∙ d)
  where
    kept :
        (o : Option (Decision × Bool))
        → ((count_agreement x.consequential o (tallied x s)).total ≡ s.total)
          × ((count_agreement x.consequential o (tallied x s)).skipped ≡ s.skipped)
    kept none = (refl, refl)
    kept (some (d, agrees)) = (refl, refl)

-- The counts of a summary add up: consequential and routine ones to the total, which is the number
-- of predictions, and the agreed, under- and over-predicted ones to those compared; these and the
-- denied ones are within the total.
pub summarize-AddsUp :
    (xs : List Prediction) (skipped : ℕ)
    → let s = summarize xs skipped in
      (s.total ≡ length xs)
      × (s.skipped ≡ skipped)
      × (s.consequential + s.routine ≡ s.total)
      × (s.agreed + (s.under_predicted + s.over_predicted) ≡ s.compared)
      × (s.compared ≤ s.total)
      × (s.policy_denied ≤ s.total)
unfolding summarize start_summary
summarize-AddsUp xs skipped =
    let (total, kept) = count_all-total xs (start_summary (length xs) skipped) in
    let (a, b, c, d) =
      count_all-AddsUp xs (start_summary (length xs) skipped)
        (omega arith, refl, omega arith, omega arith) in
    (total, kept, omega (arith, a), b, omega (arith, c), omega (arith, d))
