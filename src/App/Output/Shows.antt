-- ===== src/App/Output/Shows.antt =====
-- What the output pane shows in every state of a run.
use zero_code.Base.{◌≡◌, refl, Bool, true, false, not, List, [], ◌∷◌, is_empty, ◌&&◌, arith}
use zero_code.Base.Text.{Text, split_on-cons}
use zero_code.Api.Status.{StatusKind}
use zero_code.App.Output.{
  Body, stdout_body, stderr_body, compile_body, step_class, done, active, has_ended, phase_idx,
}

-- There is nothing to see.
abbrev pub is_blank_body : Body → Bool
is_blank_body b = is_empty b.above && is_empty b.shown_lines && not b.caret && is_empty b.below

-- Whatever the status and the output, the tabs of the output pane show a notice, a line or the caret.
pub stdout_body-shows :
    (status : StatusKind) (output errors : List Text) (compile_output : Text)
    → (is_blank_body (stdout_body status output) ≡ false)
      × (is_blank_body (stderr_body errors) ≡ false)
      × (is_blank_body (compile_body compile_output) ≡ false)
unfolding stdout_body stderr_body compile_body
stdout_body-shows status output errors compile_output =
    (on_stdout status output, on_stderr errors, on_compile compile_output)
  where
    on_stdout : (k : StatusKind) (ls : List Text) → is_blank_body (stdout_body k ls) ≡ false
    on_stdout k (l ∷ ls) = ground arith
    on_stdout k [] = ground arith

    on_stderr : (ls : List Text) → is_blank_body (stderr_body ls) ≡ false
    on_stderr [] = refl
    on_stderr (l ∷ ls) = refl

    on_compile : (s : Text) → is_blank_body (compile_body s) ≡ false
    on_compile [] = refl
    on_compile (c ∷ s) = rw ((split_on-cons b'\n' (c ∷ s)).2) refl

-- Whatever the verdict, a run that has ended marks the step named "accepted" as the active one.
pub step_class-ended :
    (status : StatusKind)
    → has_ended status ≡ true
    → (step_class status 0 ≡ done) × (step_class status 1 ≡ done) × (step_class status 2 ≡ active)
unfolding step_class phase_idx
step_class-ended status h = ground arith
