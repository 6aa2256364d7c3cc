-- ===== src/Landing/Tests.antt =====
-- The landing page at concrete inputs, and its theorems there.
use zero_code.Base.{replicate, length, keep, ◌≡◌, refl, [], ◌∷◌}
use zero_code.Base.Text.{codes, text_eq}
use zero_code.Landing.Teaser.{
  Event, Teaser, busy, colorize, indented, Phase, initial, started, handle, shown_output,
}
use zero_code.Landing.Sections.{batch_cases}
use zero_code.Landing.Teaser.Runs.{after_all, ticked-shown}

-- The replacement of strings finds the quotes of the attribute that the replacement of keywords wrote.
keyword_test :
    colorize (codes "fn") ≡ codes "<span class=<span class=\"str\">\"kw\"</span>>fn</span>"
unfolding colorize text_eq
keyword_test = refl

-- The spaces of a line are written twice: once by its text and once by its number of steps.
indent_test : indented (record { tx = codes "    a"; i = 1 }) ≡ codes "        a"
unfolding indented
indent_test = refl

-- The timer of the first render starts anew a run that a click has started.
restart_test :
    shown_output (
      after_all
        (Event.clicked (codes "a") ∷ Event.promoted ∷ Event.ticked ∷ started (codes "b") ∷ [])
        initial)
    ≡ []
unfolding shown_output handle
restart_test = refl

-- A run after a run that was accepted.
abbrev shown_before : Teaser
shown_before = record initial { phase = Phase.accepted; out_idx = 10 }

ticked-shown_example :
    let after =
      after_all
        (Event.clicked (codes "zc_1") ∷ Event.promoted ∷ replicate 2 Event.ticked)
        shown_before in
    (shown_output after ≡ codes "fib(0) = 0" ∷ codes "fib(1) = 1" ∷ [])
    × (after.phase ≡ Phase.processing)
    × (after.metrics.token ≡ codes "zc_1")
unfolding busy
ticked-shown_example = ticked-shown (codes "zc_1") 2 shown_before refl

-- Every case of the card passes.
passed_test : length (keep (λ c. c.is_pass) batch_cases) ≡ length batch_cases
passed_test = refl
