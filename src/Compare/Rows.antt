-- ===== src/Compare/Rows.antt =====
-- src/bin/admission-compare.rs: `parse_rows`, the report and `main`. The file is what
-- `fs::read_to_string` answers for it.
use r2r_jev.Prelude.{
  ℕ, zero, suc, ◌%◌, ◌^◌, String, List, [], ◌∷◌, ◌++◌, Option, none, some, ◌||◌, Result, ok, err,
  panic, ◌>>=◌, ◌==◌, nat_eq, if◌then◌else◌,
}
use r2r_jev.Prelude.Decimal.{show}
use r2r_jev.Prelude.Format.{format}
use r2r_jev.Prelude.Text.{trim, trim_end, split, splitn, lines, parse_u64}
use r2r_jev.Compare.{baseline_threshold_ppm, Row, Metrics, ljust}
use r2r_jev.Compare.Admitting.{run_admission}
use r2r_jev.Compare.Baseline.{run_baseline}

abbrev pub number_or : ℕ → String → String → Option ℕ → Result ℕ
number_or idx what v none = err (format ("bad " ∷ what ∷ " in row " ∷ show idx ∷ ": " ∷ v ∷ []))
number_or idx what v (some n) = ok n

abbrev pub parse : ℕ → String → String → Result ℕ
parse idx v what = number_or idx what v (parse_u64 v)

-- The ten columns of a line; `as` cuts a number to the width of its field.
abbrev pub row_of : ℕ → String → List String → Result Row
row_of idx line (c0 ∷ c1 ∷ c2 ∷ c3 ∷ c4 ∷ c5 ∷ c6 ∷ c7 ∷ c8 ∷ c9 ∷ []) = do
  step ← parse idx c0 "step"
  confidence ← parse idx c3 "confidence_ppm"
  reliability ← parse idx c4 "reliability_ppm"
  corroborators ← parse idx c5 "corroborators"
  observed ← parse idx c6 "observed_vtick"
  expires ← parse idx c7 "expires_vtick"
  ok (record {
    step = step % 2 ^ 32;
    incident = c1;
    kind = c2;
    confidence_ppm = confidence % 2 ^ 32;
    reliability_ppm = reliability % 2 ^ 32;
    corroborators = corroborators % 2 ^ 8;
    observed_vtick = observed;
    expires_vtick = expires;
    truth = c8;
    note = c9;
  })
row_of idx line _ = err (format ("bad CSV row " ∷ show idx ∷ ": " ∷ line ∷ []))

-- The header and the blank lines are skipped.
abbrev pub rows_from : ℕ → List String → Result (List Row)
rows_from idx [] = ok []
rows_from idx (line ∷ rest) =
    let others = rows_from (suc idx) rest in
    if nat_eq idx 0 || trim line == ""
    then others
    else (do row ← row_of idx line (splitn 10 "," line); rows ← others; ok (row ∷ rows))

abbrev pub rows_of : String → Result String → Result (List Row)
rows_of path (ok raw) = rows_from 0 (lines raw)
rows_of path (err e) = err (format ("cannot read " ∷ path ∷ ": " ∷ e ∷ []))
rows_of path panic = panic

unfoldable pub parse_rows : (String → Result String) → String → Result (List Row)
parse_rows read_to_string path = rows_of path (read_to_string path)

abbrev pub last_of : List String → String
last_of [] = "-"
last_of (piece ∷ []) = piece
last_of (piece ∷ next ∷ rest) = last_of (next ∷ rest)

-- `rsplit_once(' ')`: the tail if there is a blank at all.
abbrev pub tail_of : List String → String
tail_of [] = "-"
tail_of (piece ∷ []) = "-"
tail_of (piece ∷ next ∷ rest) = last_of (next ∷ rest)

abbrev pub merged : List String → List String → List String
merged [] tails = []
merged (b ∷ baseline) [] = []
merged (b ∷ baseline) (a ∷ admission) =
    format (b ∷ " " ∷ tail_of (split " " (trim_end a)) ∷ "\n" ∷ []) ∷ merged baseline admission

abbrev pub summary : String × Metrics → String
summary (name, m) = format (
    "  "
    ∷ ljust 9 name
    ∷ ": calls="
    ∷ show m.tool_calls
    ∷ " allowed="
    ∷ show m.allowed
    ∷ " denied="
    ∷ show m.denied
    ∷ " | false_deny_calls="
    ∷ show m.false_deny_calls
    ∷ " enforcement_denied="
    ∷ show m.enforcement_denied
    ∷ " violation_allowed="
    ∷ show m.violation_allowed
    ∷ " | suspensions="
    ∷ show m.suspensions
    ∷ " (false "
    ∷ show m.false_suspensions
    ∷ ") effective_repairs="
    ∷ show m.effective_repairs
    ∷ " | links="
    ∷ show m.provenance_links
    ∷ "\n"
    ∷ [])

abbrev pub held_summary : Metrics → String
held_summary adm = format (
    "  held      : total="
    ∷ show adm.held_total
    ∷ " resolved_accept="
    ∷ show adm.held_resolved_accept
    ∷ " resolved_expired="
    ∷ show adm.held_resolved_expired
    ∷ " pending="
    ∷ show adm.held_pending
    ∷ "\n"
    ∷ [])

abbrev pub dashes : ℕ → String
dashes zero = ""
dashes (suc n) = String.◌∷◌ "-" (dashes n)

abbrev pub heading : String → List String
heading path =
    "scenario: "
    ∷ path
    ∷ "\n"
    ∷ "baseline threshold: >= "
    ∷ show baseline_threshold_ppm
    ∷ " ppm | admission: policy v0.1\n\n"
    ∷ ljust 4 "step"
    ∷ " "
    ∷ ljust 6 "inc"
    ∷ " "
    ∷ ljust 14 "conf"
    ∷ " "
    ∷ ljust 9 "baseline"
    ∷ " "
    ∷ ljust 9 "final"
    ∷ " admission\n"
    ∷ dashes 76
    ∷ "\n"
    ∷ []

unfoldable pub report : String → List Row → Result String
report path rows = do
  let (base, log_b) = run_baseline rows []
  (adm, log_a) ← run_admission rows []
  ok (
      format (
        heading path
        ++ merged log_b log_a
        ++ "\nsummary\n"
          ∷ summary ("baseline", base)
          ∷ summary ("admission", adm)
          ∷ held_summary adm
          ∷ []))

-- What `main` prints, on which stream, and its exit code.
pub data Output : Type 0 where
  stdout stderr : String → Output

abbrev pub reported : Result String → Output × ℕ
reported (ok text) = (stdout text, 0)
reported (err e) = (stderr e, 2)
reported panic = (stderr "", 101)

abbrev pub with_path : (String → Result String) → Option String → Output × ℕ
with_path read_to_string none =
    (stderr "usage: cargo run --bin admission-compare -- <trace.csv>", 2)
with_path read_to_string (some path) =
    reported (parse_rows read_to_string path >>= λ rows. report path rows)

abbrev pub first_argument : List String → Option String
first_argument [] = none
first_argument (program ∷ []) = none
first_argument (program ∷ path ∷ rest) = some path

unfoldable pub main : (String → Result String) → List String → Output × ℕ
main read_to_string args = with_path read_to_string (first_argument args)
