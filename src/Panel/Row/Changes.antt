-- ===== src/Panel/Row/Changes.antt =====
-- When a diff shows a change.
use zero_code.Base.{ℕ, suc, ◌≡◌, ◌↔◌, refl, sym, ap, ◌∙◌, Bool, true, false, List, [], ◌∷◌, any}
use zero_code.Base.Text.{Text, text_eq_refl}
use zero_code.Panel.Diff.{LineKind, DiffLine, same, add, del, split_lines, line, walk, line_diff}
use zero_code.Panel.Diff.Lines.{old_lines, new_lines, line_diff-lines}

abbrev pub is_change : LineKind → Bool
is_change same = false
is_change add = true
is_change del = true

-- A line of the diff is added or deleted.
abbrev pub has_change : List DiffLine → Bool
has_change = any λ l. is_change l.kind

same_cons :
    (k : LineKind) (s : Text) (ls : List DiffLine)
    → has_change (line k s ∷ ls) ≡ false
    → (has_change ls ≡ false → old_lines ls ≡ new_lines ls)
    → old_lines (line k s ∷ ls) ≡ new_lines (line k s ∷ ls)
same_cons same s ls h rest = ap (◌∷◌ s) (rest h)
same_cons add s ls h rest = cc
same_cons del s ls h rest = cc

old_new_same : (ls : List DiffLine) → has_change ls ≡ false → old_lines ls ≡ new_lines ls
old_new_same [] h = refl
old_new_same (l ∷ ls) h = same_cons l.kind l.text ls h (old_new_same ls)

walk_same : (dp : List (List ℕ)) (i j : ℕ) (xs : List Text) → has_change (walk dp i j xs xs) ≡ false
unfolding walk
walk_same dp i j [] = refl
walk_same dp i j (x ∷ xs) = rw (text_eq_refl x, walk) (walk_same dp (suc i) (suc j) xs)

-- The diff of two texts shows no change exactly when they split into the same lines, be the line ends
-- written with a carriage return or without.
pub has_change-line_diff :
    (a b : Text) → (has_change (line_diff a b) ≡ false) ↔ (split_lines a ≡ split_lines b)
unfolding line_diff
has_change-line_diff a b = (alike, unchanged)
  where
    alike : has_change (line_diff a b) ≡ false → split_lines a ≡ split_lines b
    alike h = let (old, new) = line_diff-lines a b in sym old ∙ old_new_same (line_diff a b) h ∙ new

    unchanged : split_lines a ≡ split_lines b → has_change (line_diff a b) ≡ false
    unchanged e = rw e (walk_same _ 0 0 (split_lines b))
