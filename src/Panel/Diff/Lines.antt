-- ===== src/Panel/Diff/Lines.antt =====
-- What `lineDiff` shows of either text.
use zero_code.Base.{ℕ, suc, ◌≡◌, refl, ap, inl, inr, ap₂, List, [], ◌∷◌, map, leb, Bool-cases}
use zero_code.Base.Text.{Text, text_eq, text_eq→eq}
use zero_code.Panel.Diff.{DiffLine, same, add, del, split_lines, cell, line, walk, line_diff}

-- The lines of the first text: those that the diff keeps or deletes.
abbrev pub old_lines : List DiffLine → List Text
old_lines [] = []
old_lines (l ∷ ls) = let rest = old_lines ls in elim l.kind [ add ↦ rest | _ ↦ l.text ∷ rest ]

abbrev pub new_lines : List DiffLine → List Text
new_lines [] = []
new_lines (l ∷ ls) = let rest = new_lines ls in elim l.kind [ del ↦ rest | _ ↦ l.text ∷ rest ]

abbrev pub kept_lines : List DiffLine → List Text
kept_lines [] = []
kept_lines (l ∷ ls) = let rest = kept_lines ls in elim l.kind [ same ↦ l.text ∷ rest | _ ↦ rest ]

old_lines-add : (ys : List Text) → old_lines (map (line add) ys) ≡ []
old_lines-add [] = refl
old_lines-add (y ∷ ys) = old_lines-add ys

old_lines-del : (xs : List Text) → old_lines (map (line del) xs) ≡ xs
old_lines-del [] = refl
old_lines-del (x ∷ xs) = ap (◌∷◌ x) (old_lines-del xs)

old_lines-walk :
    (dp : List (List ℕ)) (i j : ℕ) (xs ys : List Text) → old_lines (walk dp i j xs ys) ≡ xs
unfolding walk
old_lines-walk dp i j [] ys = old_lines-add ys
old_lines-walk dp i j (x ∷ xs) [] = old_lines-del (x ∷ xs)
old_lines-walk dp i j (x ∷ xs) (y ∷ ys) = elim (Bool-cases (text_eq x y)) [
  | inl eq ↦ rw (eq, walk) (ap (◌∷◌ x) (old_lines-walk dp (suc i) (suc j) xs ys))
  | inr ne ↦ elim (Bool-cases (leb (cell dp i (suc j)) (cell dp (suc i) j))) [
    | inl down ↦ rw (ne, down, walk) (ap (◌∷◌ x) (old_lines-walk dp (suc i) j xs (y ∷ ys)))
    | inr right ↦ rw (ne, right, walk) (old_lines-walk dp i (suc j) (x ∷ xs) ys)
  ]
]

new_lines-add : (ys : List Text) → new_lines (map (line add) ys) ≡ ys
new_lines-add [] = refl
new_lines-add (y ∷ ys) = ap (◌∷◌ y) (new_lines-add ys)

new_lines-del : (xs : List Text) → new_lines (map (line del) xs) ≡ []
new_lines-del [] = refl
new_lines-del (x ∷ xs) = new_lines-del xs

new_lines-walk :
    (dp : List (List ℕ)) (i j : ℕ) (xs ys : List Text) → new_lines (walk dp i j xs ys) ≡ ys
unfolding walk
new_lines-walk dp i j [] ys = new_lines-add ys
new_lines-walk dp i j (x ∷ xs) [] = new_lines-del (x ∷ xs)
new_lines-walk dp i j (x ∷ xs) (y ∷ ys) = elim (Bool-cases (text_eq x y)) [
  | inl eq ↦ rw (eq, walk) (ap₂ ◌∷◌ (text_eq→eq x y eq) (new_lines-walk dp (suc i) (suc j) xs ys))
  | inr ne ↦ elim (Bool-cases (leb (cell dp i (suc j)) (cell dp (suc i) j))) [
    | inl down ↦ rw (ne, down, walk) (new_lines-walk dp (suc i) j xs (y ∷ ys))
    | inr right ↦ rw (ne, right, walk) (ap (◌∷◌ y) (new_lines-walk dp i (suc j) (x ∷ xs) ys))
  ]
]

-- Read without its additions the diff is the first text's lines, and without its deletions it is
-- the second's.
pub line_diff-lines :
    (a b : Text)
    → (old_lines (line_diff a b) ≡ split_lines a) × (new_lines (line_diff a b) ≡ split_lines b)
unfolding line_diff
line_diff-lines a b = (old_lines-walk _ 0 0 _ _, new_lines-walk _ 0 0 _ _)
