-- ===== src/Export/Verify.antt =====
-- internal/export/verify.go: the verdict on an entry and on an export.
pub mod Passing
use kessa.Base.{
  ℕ, suc, ◌==◌, ltb, Bool, true, false, not, ◌||◌, Option, none, some, List, [], ◌∷◌, Result, ok,
  err, ◌>>=◌, wrap, if◌then◌else◌,
}
use kessa.Audit.{verify_entries}
use kessa.Audit.Data.{Entry}
use kessa.Env.{Env}
use kessa.Errors.{Error, unresolved_signer}
use kessa.Export.{Export, is_v1, verify_envelope}
use kessa.Export.Checks.{
  Inputs, Outcome, pass, pass_deny, integrity_only, failed, unverified, evidence, after_evidence,
}
use kessa.Keys.{Key, resolve_key}

pub record EntryResult : Type 0 where
  pub seq : ℕ
  pub outcome : Outcome

outcome_of : Result Error Outcome → Outcome
outcome_of (ok o) = o
outcome_of (err x) = failed x

-- `verifyEntry`, for an entry whose place in the hash chain is checked already.
unfoldable pub verify_entry : Env → Export → Entry → Inputs → Outcome
unfolding outcome_of
verify_entry env exp e inp =
    if is_v1 exp
    then integrity_only e.resolved_chain
    else outcome_of (evidence env exp e inp >>= after_evidence env exp e inp)

-- The verdict on the whole export: a fatal error of the envelope, or a result for each entry.
pub record Verdict : Type 0 where
  pub evidence_carried : Bool
  pub fatal : Option Error
  pub results : List EntryResult

result_at : Env → Export → Inputs → Result (ℕ × Error) (Unit {0}) → ℕ → Entry → EntryResult
result_at env exp inp (ok a) i e = record { seq = e.seq; outcome = verify_entry env exp e inp }
result_at env exp inp (err (n, x)) i e =
    if i == n
    then record { seq = e.seq; outcome = failed x }
    else if ltb n i
    then record { seq = e.seq; outcome = unverified n }
    else record { seq = e.seq; outcome = verify_entry env exp e inp }

results_from :
    Env → Export → Inputs → Result (ℕ × Error) (Unit {0}) → ℕ → List Entry → List EntryResult
results_from env exp inp checked i [] = []
results_from env exp inp checked i (e ∷ es) =
    result_at env exp inp checked i e ∷ results_from env exp inp checked (suc i) es

verdict_after : Env → Export → Inputs → Key → Result Error (Unit {0}) → Verdict
unfolding result_at results_from
verdict_after env exp inp k (err x) = record {
  evidence_carried = not (is_v1 exp);
  fatal = some x;
  results = [];
}
verdict_after env exp inp k (ok a) = record {
  evidence_carried = not (is_v1 exp);
  fatal = none;
  results = results_from env exp inp (verify_entries env k exp.entries) 0 exp.entries;
}

envelope_check : Env → Export → Key → Result Error (Unit {0})
envelope_check env exp k = if not (is_v1 exp) then verify_envelope env exp k else ok tt

unfoldable pub verify : Env → Export → Inputs → Result Error Verdict
unfolding verdict_after envelope_check
verify env exp inp = do
  key ← wrap (unresolved_signer exp.signer) (resolve_key env.platform inp.dids exp.signer)
  ok (verdict_after env exp inp key (envelope_check env exp key))

is_bad : Outcome → Bool
is_bad (failed x) = true
is_bad (unverified n) = true
is_bad _ = false

none_bad : List EntryResult → Bool
unfolding is_bad
none_bad [] = true
none_bad (r ∷ rs) = let rest = none_bad rs in if is_bad r.outcome then false else rest

abbrev is_none : Option Error → Bool
is_none none = true
is_none (some x) = false

-- `Pass`
unfoldable pub passes : Verdict → Bool
unfolding none_bad
passes v = if not (is_none v.fatal) || not v.evidence_carried then false else none_bad v.results
