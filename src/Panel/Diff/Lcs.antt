-- ===== src/Panel/Diff/Lcs.antt =====
-- Longest common subsequences, independently of the table.
use zero_code.Base.{
  ℕ, ◌+◌, ◌≤◌, max, ◌≡◌, refl, ◌⊎◌, inl, inr, true, false, List, [], ◌∷◌, arith, length, Bool-cases,
}
use zero_code.Base.Text.{Text, text_eq, text_eq_refl}

-- The length of a longest common subsequence, by its recursion.
unfoldable pub lcs : List Text → List Text → ℕ
lcs [] ys = 0
lcs (x ∷ xs) [] = 0
lcs (x ∷ xs) (y ∷ ys) = elim (text_eq x y) [
  | true ↦ lcs xs ys + 1
  | false ↦ max (lcs xs (y ∷ ys)) (lcs (x ∷ xs) ys)
]

pub lcs-nil : (xs : List Text) → lcs xs [] ≡ 0
unfolding lcs
lcs-nil [] = refl
lcs-nil (x ∷ xs) = refl

-- A subsequence: `zs` is `ys` with some of its lines left out.
pub data Subseq : List Text → List Text → Type 0 where
  nil : Subseq [] []
  skip : {zs ys : List Text} {y : Text} → Subseq zs ys → Subseq zs (y ∷ ys)
  keep : {zs ys : List Text} {y : Text} → Subseq zs ys → Subseq (y ∷ zs) (y ∷ ys)

pub Subseq-tail : {z : Text} {zs ys : List Text} → Subseq (z ∷ zs) ys → Subseq zs ys
Subseq-tail (skip s) = skip (Subseq-tail s)
Subseq-tail (keep s) = skip s

pub Subseq-tails : {z y : Text} {zs ys : List Text} → Subseq (z ∷ zs) (y ∷ ys) → Subseq zs ys
Subseq-tails (skip s) = Subseq-tail s
Subseq-tails (keep s) = s

pub Subseq-of_nil : {zs : List Text} → Subseq zs [] → zs ≡ []
Subseq-of_nil nil = refl

-- Either the first line is skipped or it is the first of both.
pub Subseq-cases :
    {z y : Text} {zs ys : List Text} → Subseq (z ∷ zs) (y ∷ ys) → Subseq (z ∷ zs) ys ⊎ (z ≡ y)
Subseq-cases (skip s) = inl s
Subseq-cases (keep s) = inr refl

-- No common subsequence is longer.
pub length-le-lcs : (zs xs ys : List Text) → Subseq zs xs → Subseq zs ys → length zs ≤ lcs xs ys
unfolding lcs
length-le-lcs [] xs ys p q = omega arith
length-le-lcs (z ∷ zs) [] ys p q = let e = Subseq-of_nil p in cc
length-le-lcs (z ∷ zs) (x ∷ xs) [] p q = let e = Subseq-of_nil q in cc
length-le-lcs (z ∷ zs) (x ∷ xs) (y ∷ ys) p q = elim (Bool-cases (text_eq x y)) [
  | inl eq ↦
      rw (eq, lcs)
        (let ih = length-le-lcs zs xs ys (Subseq-tails p) (Subseq-tails q) in omega arith)
  | inr ne ↦
      rw (ne, lcs)
        (elim (Subseq-cases p) [
          | inl p' ↦ let ih = length-le-lcs (z ∷ zs) xs (y ∷ ys) p' q in omega arith
          | inr zx ↦ elim (Subseq-cases q) [
            | inl q' ↦ let ih = length-le-lcs (z ∷ zs) (x ∷ xs) ys p q' in omega arith
            | inr zy ↦ cc (text_eq_refl z)
          ]
        ])
]
