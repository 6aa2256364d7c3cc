-- ===== src/Panel/Row/Tests.antt =====
-- Rows at concrete cases.
use zero_code.Base.{◌≡◌, ◌↔◌, refl, true, false, [], ◌∷◌, none, some}
use zero_code.Base.Text.{Text, codes}
use zero_code.Api.Status.{accepted}
use zero_code.Panel.Compare.{exact, compare}
use zero_code.Panel.Diff.{split_lines, line_diff}
use zero_code.Panel.Cases.{TestCase, Panel, fail, set_stdin, apply_patch}
use zero_code.Panel.Row.{
  stdin_field, expected_field, compile_field, field_of, row_body, verdict_text, head_numbers,
}
use zero_code.Panel.Row.Changes.{has_change, has_change-line_diff}
use zero_code.Panel.Row.Fields.{row_body-set_stdin}

-- Two lines, with a carriage return and without: not equal, and no change in the diff.
abbrev with_return : Text
with_return = codes "1\r\n2"

abbrev without_return : Text
without_return = codes "1\n2"

not_exact : compare with_return without_return exact ≡ false
unfolding compare
not_exact = refl

has_change-line_diff_example :
    (has_change (line_diff without_return with_return) ≡ false)
    ↔ (split_lines without_return ≡ split_lines with_return)
has_change-line_diff_example = has_change-line_diff without_return with_return

no_change : has_change (line_diff without_return with_return) ≡ false
unfolding split_lines
no_change = (has_change-line_diff without_return with_return).1 refl

-- A case that was run and failed.
abbrev failed_case : TestCase
failed_case = record {
  id = codes "a";
  stdin = codes "1";
  expected = codes "2";
  status = some accepted;
  status_detail = none;
  stdout = some (codes "3");
  stderr = none;
  compile_output = some (codes "warning");
  time = some (codes "0.01");
  memory = none;
  exit_code = some (codes "0");
  token = none;
  passed = some fail;
}

row_body-set_stdin_example :
    (row_body exact false (apply_patch (set_stdin (codes "9")) failed_case)
      ≡ stdin_field (codes "9")
        ∷ expected_field (codes "2")
        ∷ field_of compile_field (some (codes "warning")))
    × (verdict_text (apply_patch (set_stdin (codes "9")) failed_case) ≡ codes "—")
    × (head_numbers (apply_patch (set_stdin (codes "9")) failed_case) ≡ head_numbers failed_case)
row_body-set_stdin_example = row_body-set_stdin exact (codes "9") failed_case

abbrev busy_panel : Panel
busy_panel = record {
  tests = failed_case ∷ [];
  mode = exact;
  stop_on_fail = false;
  running = true;
  batch_error = none;
  collapsed = [];
}
