-- ===== src/App/Run/Split.antt =====
-- A text split at its newlines, against the lines that `flushLines` completes, of
-- web/app/src/playground/App.tsx.
use zero_code.Base.{
  is_empty, if◌then◌else◌, ◌≡◌, refl, ap, ◌∙◌, inl, inr, List, [], ◌∷◌, ◌++◌, Bool-cases, ◌==◌,
}
use zero_code.Base.Text.{Text, split_on, glue}
use zero_code.App.Lines.{lf, push_front, flush_lines}
use zero_code.App.Run.{Moment, at_call, at_render, last_line, drop_last_empty}

-- The lines of a text with the last one emptied, or left out if it is empty already.
unfoldable pub blank_last_line : List Text → List Text
blank_last_line [] = []
blank_last_line (l ∷ []) = if is_empty l then [] else [] ∷ []
blank_last_line (l ∷ m ∷ ls) = l ∷ blank_last_line (m ∷ ls)

-- The lines that are shown of those of a text, according to when the updater of the last one runs.
unfoldable pub final_lines : Moment → List Text → List Text
final_lines at_call ls = drop_last_empty ls
final_lines at_render ls = blank_last_line ls

-- Splitting a text at its newlines gives the complete lines and the rest.
pub split_on-flush_lines : (s : Text) → split_on lf s ≡ (flush_lines s).0 ++ (flush_lines s).1 ∷ []
unfolding split_on flush_lines
split_on-flush_lines [] = refl
split_on-flush_lines (c ∷ cs) = elim (Bool-cases (c == lf)) [
  | inl e ↦ rw e (ap (◌∷◌ []) (split_on-flush_lines cs))
  | inr e ↦
      rw e (ap (glue c) (split_on-flush_lines cs) ∙ glued (flush_lines cs).0 (flush_lines cs).1)
]
  where
    glued :
        (ls : List Text) (rest : Text)
        → glue c (ls ++ rest ∷ []) ≡ (push_front c ls rest).0 ++ (push_front c ls rest).1 ∷ []
    glued [] rest = refl
    glued (l ∷ ls) rest = refl

-- The lines that are complete, and what the updater adds to them.
pub final_lines-rest :
    (moment : Moment) (ls : List Text) (rest : Text)
    → final_lines moment (ls ++ rest ∷ []) ≡ ls ++ last_line moment rest
unfolding final_lines drop_last_empty blank_last_line last_line
final_lines-rest at_call [] [] = refl
final_lines-rest at_call [] (c ∷ rest) = refl
final_lines-rest at_call (l ∷ []) rest = ap (◌∷◌ l) (final_lines-rest at_call [] rest)
final_lines-rest at_call (l ∷ m ∷ ls) rest = ap (◌∷◌ l) (final_lines-rest at_call (m ∷ ls) rest)
final_lines-rest at_render [] [] = refl
final_lines-rest at_render [] (c ∷ rest) = refl
final_lines-rest at_render (l ∷ []) rest = ap (◌∷◌ l) (final_lines-rest at_render [] rest)
final_lines-rest at_render (l ∷ m ∷ ls) rest = ap (◌∷◌ l) (final_lines-rest at_render (m ∷ ls) rest)
