-- ===== src/Shadow.antt =====
-- internal/shadow/shadow.go: a policy tried on recorded or written actions.
pub mod Counts
pub mod Replay
use kessa.Base.{
  ℕ, suc, ◌+◌, ◌==◌, Bytes, Str, codes, str_eq, is_empty, trim_space, length, Bool, true, false,
  not, ◌&&◌, ◌||◌, Option, none, some, List, [], ◌∷◌, Result, ok, err, ◌>>=◌, require,
  if◌then◌else◌,
}
use kessa.Audit.Data.{Entry}
use kessa.Errors.{Error}
use kessa.Export
use kessa.Export.{Export}
use kessa.Platform.{Platform}
use kessa.Policy.{Policy, evaluate}
use kessa.Types.{Action, Decision, Reason}

pub data SourceKind : Type 0 where
  export_file actions_file : SourceKind

-- An entry's number, or a line counted from one.
pub record Source : Type 0 where
  pub kind : SourceKind
  pub path : Str
  pub index : ℕ

pub record Input : Type 0 where
  pub source : Source
  pub action : Action
  pub actual : Option Decision

-- `actual` carries the recorded decision with the agreement; its verified flag is constant.
pub record Prediction : Type 0 where
  pub source : Source
  pub action : Action
  pub consequential : Bool
  pub policy_denies : Bool
  pub matched_rule : Str
  pub reason : Reason
  pub policy_version : Str
  pub policy_id : Str
  pub actual : Option (Decision × Bool)

same : Bool → Bool → Bool
same true b = b
same false b = not b

compare_to : Bool → Option Decision → Option (Decision × Bool)
unfolding same
compare_to consequential none = none
compare_to consequential (some d) = some (d, same d.consequential consequential)

project : Str → Input → Decision → Prediction
unfolding compare_to
project id input d = record {
  source = input.source;
  action = input.action;
  consequential = d.consequential;
  policy_denies = not d.allowed;
  matched_rule = d.rule_fired;
  reason = d.reason;
  policy_version = d.policy_version;
  policy_id = id;
  actual = compare_to d.consequential input.actual;
}

-- `Predict`
unfoldable pub predict : Platform → Policy → Str → Input → Result Error Prediction
unfolding project
predict p pol id input = do d ← evaluate p pol input.action; ok (project id input d)

-- `PredictAll`
unfoldable pub predict_all : Platform → Policy → Str → List Input → Result Error (List Prediction)
predict_all p pol id [] = ok []
predict_all p pol id (x ∷ xs) = do
  one ← predict p pol id x
  rest ← predict_all p pol id xs
  ok (one ∷ rest)

-- One turn of the loop of `FromExport`.
unfoldable pub input_of : Str → Entry → Input
input_of path e = record {
  source = record { kind = export_file; path = path; index = e.seq };
  action = e.action;
  actual = some e.decision;
}

inputs_of : Str → List Entry → List Input
inputs_of path [] = []
inputs_of path (e ∷ es) = input_of path e ∷ inputs_of path es

-- `FromExport`, after the decoding.
unfoldable pub from_export : Platform → Export → Str → Result Error (List Input)
unfolding inputs_of
from_export p exported path = do e ← Export.parse p exported; ok (inputs_of path e.entries)

has_type : Option Action → Option Action
has_type none = none
has_type (some a) = if is_empty (trim_space a.type) then none else some a

take_line : Str → ℕ → Option Action → List Input × List ℕ → List Input × List ℕ
take_line path line none (inputs, skipped) = (inputs, line ∷ skipped)
take_line path line (some a) (inputs, skipped) = (
  record {
    source = record { kind = actions_file; path = path; index = line };
    action = a;
    actual = none;
  }
      ∷ inputs,
  skipped,
)

-- The loop of `FromActions` over the lines that the scanner returns: what is read, and the numbers
-- of the lines that are skipped. The decoder refuses unknown fields.
unfoldable pub from_actions : (Str → Option Action) → Str → ℕ → List Str → List Input × List ℕ
unfolding take_line has_type
from_actions decode path line [] = ([], [])
from_actions decode path line (raw ∷ lines) =
    let rest = from_actions decode path (suc line) lines in
    if is_empty (trim_space raw)
    then rest
    else take_line path line (has_type (decode (trim_space raw))) rest

pub record Summary : Type 0 where
  pub total : ℕ
  pub consequential : ℕ
  pub routine : ℕ
  pub policy_denied : ℕ
  pub compared : ℕ
  pub agreed : ℕ
  pub under_predicted : ℕ
  pub over_predicted : ℕ
  pub skipped : ℕ

one_if : Bool → ℕ
one_if true = 1
one_if false = 0

count_agreement : Bool → Option (Decision × Bool) → Summary → Summary
unfolding one_if
count_agreement consequential none s = s
count_agreement consequential (some (d, agrees)) s = record s {
  compared = s.compared + 1;
  agreed = s.agreed + one_if agrees;
  under_predicted = s.under_predicted + one_if (not agrees && not consequential);
  over_predicted = s.over_predicted + one_if (not agrees && consequential);
}

tallied : Prediction → Summary → Summary
unfolding one_if
tallied x s = record s {
  consequential = s.consequential + one_if x.consequential;
  routine = s.routine + one_if (not x.consequential);
  policy_denied = s.policy_denied + one_if x.policy_denies;
}

count_one : Prediction → Summary → Summary
unfolding count_agreement tallied
count_one x s = count_agreement x.consequential x.actual (tallied x s)

count_all : List Prediction → Summary → Summary
unfolding count_one
count_all [] s = s
count_all (x ∷ xs) s = count_all xs (count_one x s)

-- `Summarize`
start_summary : ℕ → ℕ → Summary
start_summary total skipped = record {
  total = total;
  consequential = 0;
  routine = 0;
  policy_denied = 0;
  compared = 0;
  agreed = 0;
  under_predicted = 0;
  over_predicted = 0;
  skipped = skipped;
}

unfoldable pub summarize : List Prediction → ℕ → Summary
unfolding count_all start_summary
summarize xs skipped = count_all xs (start_summary (length xs) skipped)
