-- ===== src/Panel/Row.antt =====
-- What a row of the panel and its toolbar show: `MODE_LABEL`, `MODE_HINT`, `DiffView`, `TestCaseRow` and
-- the conditions in the JSX of `TestsPanel`, of web/app/src/playground/TestsPanel.tsx. Numbers that are
-- only formatted (wall time, memory) are left out.
pub mod Changes
pub mod Fields
mod Tests
use zero_code.Base.{
  ℕ, ◌+◌, suc, Bool, true, false, not, ◌&&◌, ◌||◌, List, [], ◌∷◌, ◌++◌, map, Option, none, some,
  if◌then◌else◌, leb, ltb, length, any, ◌==◌, is_empty, is_some, or_else,
}
use zero_code.Base.Text.{Text, codes, text_eq}
use zero_code.Api.Status.{StatusKind, tle, mle, ce, re, other}
use zero_code.Catalog.{verdict_label}
use zero_code.Panel.Compare.{ComparisonMode, exact, trim, ignore_ws, tokens}
use zero_code.Panel.Diff.{LineKind, same, add, del, DiffLine, line_diff}
use zero_code.Panel.Cases.{TestCase, Passed, pass, fail, Panel, Summary, summary, Number}

-- `MODE_LABEL`
abbrev pub mode_label : ComparisonMode → Text
mode_label exact = codes "exact match"
mode_label trim = codes "trim trailing space"
mode_label ignore_ws = codes "ignore all whitespace"
mode_label tokens = codes "token-by-token"

-- `MODE_HINT`
abbrev pub mode_hint : ComparisonMode → Text
mode_hint exact = codes "byte-for-byte equal"
mode_hint trim = codes "strip trailing spaces + final newline"
mode_hint ignore_ws = codes "remove every space/tab/newline before compare"
mode_hint tokens = codes "split on whitespace, compare each token"

abbrev pub gutter : LineKind → Text
gutter add = codes "+"
gutter del = codes "−"
gutter same = codes " "

-- `l.text || …`: an empty line is shown as a space of no width.
abbrev pub line_text : Text → Text
line_text [] = 0x200b ∷ []
line_text (c ∷ cs) = c ∷ cs

-- The rows of `DiffView`: the mark and the text.
unfoldable pub diff_view : Text → Text → List (Text × Text)
unfolding line_diff
diff_view expected actual =
    map (λ (l : DiffLine). (gutter l.kind, line_text l.text)) (line_diff expected actual)

abbrev pub status_color : Option StatusKind → Text
status_color (some tle) = codes "var(--st-tle)"
status_color (some mle) = codes "var(--st-mle)"
status_color (some ce) = codes "var(--st-ce)"
status_color (some re) = codes "var(--st-re)"
status_color _ = codes "var(--fg-3)"

-- `passColor`
unfoldable pub pass_color : TestCase → Text
pass_color t = elim t.passed [
  | some pass ↦ codes "var(--st-accepted)"
  | some fail ↦ codes "var(--st-re)"
  | _ ↦ status_color t.status
]

-- `tc.status ? VERDICT_LABEL[tc.status] ?? tc.status : '—'`
abbrev pub status_text : Option StatusKind → Text
status_text none = codes "—"
status_text (some (StatusKind.other [])) = codes "—"
status_text (some k) = verdict_label k

-- `verdictText`
unfoldable pub verdict_text : TestCase → Text
unfolding verdict_label
verdict_text t = elim t.passed [
  | some pass ↦ codes "✓ pass"
  | some fail ↦ codes "✗ wrong"
  | _ ↦ status_text t.status
]

abbrev pub is_fail : Option Passed → Bool
is_fail (some fail) = true
is_fail _ = false

-- `showDiff`
unfoldable pub show_diff : TestCase → Bool
show_diff t = is_fail t.passed && not (is_empty t.expected) && is_some t.stdout

-- A field of an open row.
pub data Field : Type 0 where
  stdin_field expected_field : Text → Field
  stdout_field stderr_field compile_field : Text → Field
  diff_field : Text → List (Text × Text) → Field

-- `tc.stdout.length === 0 ? '(empty)' : tc.stdout`
abbrev pub stdout_fields : Option Text → List Field
stdout_fields none = []
stdout_fields (some []) = stdout_field (codes "(empty)") ∷ []
stdout_fields (some (c ∷ cs)) = stdout_field (c ∷ cs) ∷ []

-- `text && text.length > 0 && …`
abbrev pub field_of : (Text → Field) → Option Text → List Field
field_of field none = []
field_of field (some []) = []
field_of field (some (c ∷ cs)) = field (c ∷ cs) ∷ []

-- The body of a row, which is shown unless the row is collapsed.
unfoldable pub row_body : ComparisonMode → Bool → TestCase → List Field
unfolding show_diff diff_view
row_body mode collapsed t =
    if collapsed
    then []
    else stdin_field t.stdin ∷ expected_field t.expected ∷ stdout_fields t.stdout
      ++ field_of stderr_field t.stderr
      ++ field_of compile_field t.compile_output
      ++ (if show_diff t
          then diff_field (codes "diff (− expected, + actual) · mode: " ++ mode_label mode)
              (diff_view t.expected (or_else t.stdout []))
            ∷ []
          else [])

-- The numbers in the row's head: wall time and memory, where there are any.
unfoldable pub head_numbers : TestCase → List Number
head_numbers t = number t.time ++ number t.memory
  where
    number : Option Number → List Number
    number none = []
    number (some n) = n ∷ []

-- `hasResults`
unfoldable pub has_results : List TestCase → Bool
has_results tests = any (λ t. is_some t.status) tests

-- The buttons and switches above and below the cases.
pub data Control : Type 0 where
  add_button import_button export_json_button export_csv_button : Control
  compare_select stop_on_fail_box run_button cancel_button : Control
  clear_results_button clear_all_button dismiss_button : Control

-- A control is there.
unfoldable pub shown : Panel → Control → Bool
unfolding has_results
shown p run_button = not p.running
shown p cancel_button = p.running
shown p clear_results_button = not (length p.tests == 0) && has_results p.tests
shown p clear_all_button = ltb 1 (length p.tests)
shown p dismiss_button = is_some p.batch_error
shown p _ = true

-- A control that is there is disabled.
unfoldable pub disabled : Bool → Panel → Control → Bool
disabled api_online p add_button = p.running || leb 100 (length p.tests)
disabled api_online p run_button = not api_online
disabled api_online p cancel_button = false
disabled api_online p dismiss_button = false
disabled api_online p _ = p.running

-- The pills of the summary, which are shown once there are results.
unfoldable pub pills : List TestCase → List (ℕ × Text)
unfolding has_results summary
pills tests =
    if has_results tests
    then pill (summary tests).pass (codes "pass")
      ++ pill (summary tests).fail (codes "fail")
      ++ pill (summary tests).unchecked (codes "run")
    else []
  where
    pill : ℕ → Text → List (ℕ × Text)
    pill n name = if ltb 0 n then (n, name) ∷ [] else []
