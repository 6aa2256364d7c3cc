-- ===== src/Panel/Row/Fields.antt =====
-- What a row shows of its case, and what the panel offers while it runs.
use zero_code.Base.{◌≡◌, refl, ap, ◌⊎◌, inl, inr, Bool, true, false, [], ◌∷◌, append-nil}
use zero_code.Base.Text.{Text, codes}
use zero_code.Panel.Compare.{ComparisonMode}
use zero_code.Panel.Cases.{TestCase, Panel, set_stdin, apply_patch, reset_case, new_case}
use zero_code.Panel.Row.{
  stdin_field, expected_field, compile_field, field_of, row_body, verdict_text, head_numbers,
  show_diff, Control, add_button, import_button, export_json_button, export_csv_button,
  compare_select, stop_on_fail_box, run_button, cancel_button, clear_results_button,
  clear_all_button, dismiss_button, shown, disabled,
}

-- When the input of a case is edited, its open row shows no output, no error output and no diff any
-- more, and the head no verdict; but the output of the compiler and the numbers of the last run stay.
pub row_body-set_stdin :
    (mode : ComparisonMode) (s : Text) (t : TestCase)
    → (row_body mode false (apply_patch (set_stdin s) t)
        ≡ stdin_field s ∷ expected_field t.expected ∷ field_of compile_field t.compile_output)
      × (verdict_text (apply_patch (set_stdin s) t) ≡ codes "—")
      × (head_numbers (apply_patch (set_stdin s) t) ≡ head_numbers t)
unfolding row_body verdict_text head_numbers show_diff
row_body-set_stdin mode s t = (
  ap (λ fs. stdin_field s ∷ expected_field t.expected ∷ fs)
      (append-nil (field_of compile_field t.compile_output)),
  refl,
  refl,
)

-- A case whose results are cleared shows its two texts and nothing of a run.
pub row_body-reset_case :
    (mode : ComparisonMode) (t : TestCase)
    → (row_body mode false (reset_case t) ≡ stdin_field t.stdin ∷ expected_field t.expected ∷ [])
      × (verdict_text (reset_case t) ≡ codes "—")
      × (head_numbers (reset_case t) ≡ [])
unfolding row_body verdict_text head_numbers show_diff new_case
row_body-reset_case mode t = (refl, refl, refl)

-- While a batch runs, every control of the toolbar that is there and not disabled is the one that
-- cancels or the one that dismisses the message.
pub disabled-running :
    (api_online : Bool) (p : Panel) (c : Control)
    → p.running ≡ true
    → shown p c ≡ true
    → disabled api_online p c ≡ false
    → (c ≡ cancel_button) ⊎ (c ≡ dismiss_button)
unfolding shown disabled
disabled-running online p add_button r s d = cc (rw r at d)
disabled-running online p import_button r s d = cc
disabled-running online p export_json_button r s d = cc
disabled-running online p export_csv_button r s d = cc
disabled-running online p compare_select r s d = cc
disabled-running online p stop_on_fail_box r s d = cc
disabled-running online p run_button r s d = cc (rw r at s)
disabled-running online p cancel_button r s d = inl refl
disabled-running online p clear_results_button r s d = cc
disabled-running online p clear_all_button r s d = cc
disabled-running online p dismiss_button r s d = inr refl
