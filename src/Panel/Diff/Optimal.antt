-- ===== src/Panel/Diff/Optimal.antt =====
-- The diff keeps as many lines as possible.
use zero_code.Base.{
  ℕ, zero, suc, ◌+◌, ◌≤◌, ◌≡◌, refl, sym, ◌∙◌, ap, subst, leb→le, not_leb→lt, inl, inr, List, [],
  ◌∷◌, map, arith, leb, length, get_or, drop, replicate, Bool-cases,
}
use zero_code.Base.Text.{Text, text_eq, text_eq→eq}
use zero_code.Panel.Diff.{add, del, split_lines, fill_row, fill_table, cell, line, walk, line_diff}
use zero_code.Panel.Diff.Lines.{kept_lines}
use zero_code.Panel.Diff.Lcs.{Subseq, nil, skip, keep, lcs, length-le-lcs}

get_or-drop_one : (xs : List ℕ) (q : ℕ) → get_or (drop 1 xs) q 0 ≡ get_or xs (suc q) 0
get_or-drop_one [] zero = refl
get_or-drop_one [] (suc q) = refl
get_or-drop_one (x ∷ xs) q = refl

get_or-zeros : (n q : ℕ) → get_or (replicate {A = ℕ} n 0) q 0 ≡ 0
get_or-zeros zero q = refl
get_or-zeros (suc n) zero = refl
get_or-zeros (suc n) (suc q) = get_or-zeros n q

get_or-fill_row :
    (x : Text) (xs ys : List Text) (below : List ℕ)
    → ((q : ℕ) → get_or below q 0 ≡ lcs xs (drop q ys))
    → (q : ℕ) → get_or (fill_row x ys below) q 0 ≡ lcs (x ∷ xs) (drop q ys)
unfolding fill_row lcs
get_or-fill_row x xs [] below h zero = refl
get_or-fill_row x xs [] below h (suc q) = refl
get_or-fill_row x xs (y ∷ ys) below h (suc q) =
    get_or-fill_row x xs ys (drop 1 below) (λ r. get_or-drop_one below r ∙ h (suc r)) q
get_or-fill_row x xs (y ∷ ys) below h zero = elim (Bool-cases (text_eq x y)) [
  | inl eq ↦ rw (eq, lcs) (ap (λ (n : ℕ). n + 1) (h 1))
  | inr ne ↦
      rw (ne, lcs)
        (let right =
            get_or-fill_row x xs ys (drop 1 below) (λ r. get_or-drop_one below r ∙ h (suc r)) 0 in
          cc (h 0, right))
]

-- Every cell holds the length for the lines from there on.
cell-fill_table :
    (xs ys : List Text) (p q : ℕ) → cell (fill_table xs ys) p q ≡ lcs (drop p xs) (drop q ys)
unfolding fill_table lcs
cell-fill_table [] ys zero q = get_or-zeros (suc (length ys)) q
cell-fill_table [] ys (suc p) q = refl
cell-fill_table (x ∷ xs) ys zero q =
    get_or-fill_row x xs ys (get_or (fill_table xs ys) 0 []) (cell-fill_table xs ys 0) q
cell-fill_table (x ∷ xs) ys (suc p) q = cell-fill_table xs ys p q

-- The table holds the lengths for the lines that the walk has still to read.
abbrev Fits : List (List ℕ) → ℕ → ℕ → List Text → List Text → Type 0
Fits dp i j xs ys = (p q : ℕ) → cell dp (p + i) (q + j) ≡ lcs (drop p xs) (drop q ys)

module _ (dp : List (List ℕ)) (i j : ℕ) (x y : Text) (xs ys : List Text)
    (h : Fits dp i j (x ∷ xs) (y ∷ ys)) where
  Fits-down : Fits dp (suc i) j xs (y ∷ ys)
  Fits-down p q = let e : p + suc i ≡ suc p + i = omega arith in rw e (h (suc p) q)

  Fits-right : Fits dp i (suc j) (x ∷ xs) ys
  Fits-right p q = let e : q + suc j ≡ suc q + j = omega arith in rw e (h p (suc q))

  Fits-both : Fits dp (suc i) (suc j) xs ys
  Fits-both p q =
      let e : p + suc i ≡ suc p + i = omega arith in
      let e' : q + suc j ≡ suc q + j = omega arith in rw (e, e') (h (suc p) (suc q))

  cell-down : cell dp (suc i) j ≡ lcs xs (y ∷ ys)
  cell-down =
      let e : 1 + i ≡ suc i = omega arith in
      let e' : 0 + j ≡ j = omega arith in rw (e, e') at (h 1 0)

  cell-right : cell dp i (suc j) ≡ lcs (x ∷ xs) ys
  cell-right =
      let e : 0 + i ≡ i = omega arith in
      let e' : 1 + j ≡ suc j = omega arith in rw (e, e') at (h 0 1)

kept_lines-add : (ys : List Text) → kept_lines (map (line add) ys) ≡ []
kept_lines-add [] = refl
kept_lines-add (y ∷ ys) = kept_lines-add ys

kept_lines-del : (xs : List Text) → kept_lines (map (line del) xs) ≡ []
kept_lines-del [] = refl
kept_lines-del (x ∷ xs) = kept_lines-del xs

-- Guided by a table that fits, the walk keeps as many lines as the longest common subsequence has.
length-kept_lines :
    (dp : List (List ℕ)) (i j : ℕ) (xs ys : List Text)
    → Fits dp i j xs ys
    → length (kept_lines (walk dp i j xs ys)) ≡ lcs xs ys
unfolding walk lcs
length-kept_lines dp i j [] ys h = rw (kept_lines-add ys)
length-kept_lines dp i j (x ∷ xs) [] h = rw (kept_lines-del xs)
length-kept_lines dp i j (x ∷ xs) (y ∷ ys) h = elim (Bool-cases (text_eq x y)) [
  | inl eq ↦
      rw (eq, walk, lcs)
        (let ih = length-kept_lines dp (suc i) (suc j) xs ys (Fits-both dp i j x y xs ys h) in
          omega arith)
  | inr ne ↦ elim (Bool-cases (leb (cell dp i (suc j)) (cell dp (suc i) j))) [
    | inl down ↦
        rw (ne, down, walk, lcs)
          (let ih = length-kept_lines dp (suc i) j xs (y ∷ ys) (Fits-down dp i j x y xs ys h) in
            let above = leb→le _ _ down in
            let a = cell-down dp i j x y xs ys h in
            let b = cell-right dp i j x y xs ys h in omega arith)
    | inr right ↦
        rw (ne, right, walk, lcs)
          (let ih = length-kept_lines dp i (suc j) (x ∷ xs) ys (Fits-right dp i j x y xs ys h) in
            let below = not_leb→lt _ _ right in
            let a = cell-down dp i j x y xs ys h in
            let b = cell-right dp i j x y xs ys h in omega arith)
  ]
]

Subseq-nil : (ys : List Text) → Subseq [] ys
Subseq-nil [] = nil
Subseq-nil (y ∷ ys) = skip (Subseq-nil ys)

-- The kept lines stand in both texts, in order.
kept_lines-Subseq :
    (dp : List (List ℕ)) (i j : ℕ) (xs ys : List Text)
    → Subseq (kept_lines (walk dp i j xs ys)) xs × Subseq (kept_lines (walk dp i j xs ys)) ys
unfolding walk
kept_lines-Subseq dp i j [] ys = rw (kept_lines-add ys) (nil, Subseq-nil ys)
kept_lines-Subseq dp i j (x ∷ xs) [] = rw (kept_lines-del xs) (Subseq-nil (x ∷ xs), nil)
kept_lines-Subseq dp i j (x ∷ xs) (y ∷ ys) = elim (Bool-cases (text_eq x y)) [
  | inl eq ↦
      let ih = kept_lines-Subseq dp (suc i) (suc j) xs ys in
      rw (eq, walk)
        (
          keep ih.0,
          subst (λ t. Subseq (t ∷ kept_lines (walk dp (suc i) (suc j) xs ys)) (y ∷ ys))
              (sym (text_eq→eq x y eq)) (keep ih.1),
        )
  | inr ne ↦ elim (Bool-cases (leb (cell dp i (suc j)) (cell dp (suc i) j))) [
    | inl down ↦
        let ih = kept_lines-Subseq dp (suc i) j xs (y ∷ ys) in rw (ne, down, walk) (skip ih.0, ih.1)
    | inr right ↦
        let ih = kept_lines-Subseq dp i (suc j) (x ∷ xs) ys in
        rw (ne, right, walk) (ih.0, skip ih.1)
  ]
]

-- The lines that the diff marks as kept are a common subsequence of the two texts' lines, and no
-- common subsequence of them is longer.
pub line_diff-longest :
    (a b : Text)
    → Subseq (kept_lines (line_diff a b)) (split_lines a)
      × Subseq (kept_lines (line_diff a b)) (split_lines b)
      × ((zs : List Text)
          → Subseq zs (split_lines a)
          → Subseq zs (split_lines b)
          → length zs ≤ length (kept_lines (line_diff a b)))
unfolding line_diff
line_diff-longest a b = (both.0, both.1, longest)
  where
    xs : List Text
    xs = split_lines a

    ys : List Text
    ys = split_lines b

    both : Subseq (kept_lines (line_diff a b)) xs × Subseq (kept_lines (line_diff a b)) ys
    both = kept_lines-Subseq (fill_table xs ys) 0 0 xs ys

    fits : Fits (fill_table xs ys) 0 0 xs ys
    fits p q =
        let e : p + 0 ≡ p = omega arith in
        let e' : q + 0 ≡ q = omega arith in rw (e, e') (cell-fill_table xs ys p q)

    longest :
        (zs : List Text)
        → Subseq zs xs
        → Subseq zs ys
        → length zs ≤ length (kept_lines (line_diff a b))
    longest zs p q =
        rw (length-kept_lines (fill_table xs ys) 0 0 xs ys fits) (length-le-lcs zs xs ys p q)
