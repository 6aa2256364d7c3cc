-- ===== src/Panel/Diff.antt =====
-- `lineDiff` of web/app/src/playground/TestsPanel.tsx.
pub mod Lines
pub mod Lcs
pub mod Optimal
use zero_code.Base.{
  ℕ, zero, suc, ◌+◌, max, Bool, true, false, ◌&&◌, List, [], ◌∷◌, map, ◌==◌, leb, if◌then◌else◌,
  length, get_or, drop, replicate,
}
use zero_code.Base.Text.{Text, text_eq, glue}

pub data LineKind : Type 0 where
  same add del : LineKind

pub record DiffLine : Type 0 where
  pub kind : LineKind
  pub text : Text

-- `s.split(/\r?\n/)`
unfoldable pub split_lines : Text → List Text
unfolding glue
split_lines [] = [] ∷ []
split_lines (c ∷ []) = if c == b'\n' then [] ∷ [] ∷ [] else (c ∷ []) ∷ []
split_lines (c ∷ d ∷ cs) = elim (c == b'\r' && d == b'\n') [
  | true ↦ [] ∷ split_lines cs
  | false ↦ let rest = split_lines (d ∷ cs) in if c == b'\n' then [] ∷ rest else glue c rest
]

-- The inner loop, from the last column to the first: a row of the table from the row below it,
-- both from column `j` on, where `ys` are the lines of `b` from `j` on.
unfoldable pub fill_row : Text → List Text → List ℕ → List ℕ
unfolding text_eq
fill_row x [] below = 0 ∷ []
fill_row x (y ∷ ys) below =
    let right = fill_row x ys (drop 1 below) in
    (if text_eq x y then get_or below 1 0 + 1 else max (get_or below 0 0) (get_or right 0 0))
    ∷ right

-- The outer loop, from the last row to the first.
unfoldable pub fill_table : List Text → List Text → List (List ℕ)
unfolding fill_row
fill_table [] ys = replicate (suc (length ys)) 0 ∷ []
fill_table (x ∷ xs) ys = let below = fill_table xs ys in fill_row x ys (get_or below 0 []) ∷ below

-- `dp[i][j]`
abbrev pub cell : List (List ℕ) → ℕ → ℕ → ℕ
cell dp i j = get_or (get_or dp i []) j 0

abbrev pub line : LineKind → Text → DiffLine
line k t = record { kind = k; text = t }

-- The three `while` loops; `xs` and `ys` are the lines from `i` and from `j` on.
unfoldable pub walk : List (List ℕ) → ℕ → ℕ → List Text → List Text → List DiffLine
unfolding text_eq
walk dp i j [] ys = map (line add) ys
walk dp i j (x ∷ xs) [] = map (line del) (x ∷ xs)
walk dp i j (x ∷ xs) (y ∷ ys) = elim (text_eq x y) [
  | true ↦ line same x ∷ walk dp (suc i) (suc j) xs ys
  | false ↦ elim (leb (cell dp i (suc j)) (cell dp (suc i) j)) [
    | true ↦ line del x ∷ walk dp (suc i) j xs (y ∷ ys)
    | false ↦ line add y ∷ walk dp i (suc j) (x ∷ xs) ys
  ]
]

unfoldable pub line_diff : Text → Text → List DiffLine
unfolding walk fill_table split_lines
line_diff a b =
    let aL = split_lines a in let bL = split_lines b in walk (fill_table aL bL) 0 0 aL bL
