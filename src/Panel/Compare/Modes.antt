-- ===== src/Panel/Compare/Modes.antt =====
-- How the four comparison modes are ordered by strictness.
use zero_code.Base.{
  ℕ, ◌≡◌, refl, sym, ap, ◌∙◌, inl, inr, true, List, [], ◌∷◌, ◌++◌, arith, ◌==◌, Bool-cases,
}
use zero_code.Base.Text.{
  Text, text_eq, text_eq→eq, text_eq_refl, is_space, glue, trim_start, trim_end, cons_unless_blank,
}
use zero_code.Base.Text.{trim as trim_spaces}
use zero_code.Panel.Compare.{
  ComparisonMode, exact, trim, ignore_ws, tokens, is_blank, strip_line_ends, chop_newline, norm,
  split_spaces, same_tokens, compare_tokens, remove_spaces, compare_in,
}

pub is_blank-is_space : (c : ℕ) → is_blank c ≡ true → is_space c ≡ true
unfolding is_space
is_blank-is_space c h = ground arith

-- The normal form differs from the text by whitespace only.
remove_spaces-strip : (s : Text) → remove_spaces (strip_line_ends s) ≡ remove_spaces s
unfolding strip_line_ends
remove_spaces-strip [] = refl
remove_spaces-strip (c ∷ cs) = ground (arith, is_blank-is_space c, remove_spaces-strip cs)

space_lf : (c : ℕ) → (c == b'\n') ≡ true → is_space c ≡ true
unfolding is_space
space_lf c h = ground arith

space_cr : (c : ℕ) → (c == b'\r') ≡ true → is_space c ≡ true
unfolding is_space
space_cr c h = ground arith

remove_spaces-chop : (s : Text) → remove_spaces (chop_newline s) ≡ remove_spaces s
unfolding chop_newline
remove_spaces-chop [] = refl
remove_spaces-chop (c ∷ []) = ground (arith, space_lf c)
remove_spaces-chop (c ∷ d ∷ []) = ground (arith, space_lf d, space_cr c)
remove_spaces-chop (c ∷ d ∷ e ∷ cs) = ground (arith, remove_spaces-chop (d ∷ e ∷ cs))

remove_spaces-norm : (s : Text) → remove_spaces (norm s) ≡ remove_spaces s
unfolding norm
remove_spaces-norm s = remove_spaces-chop (strip_line_ends s) ∙ remove_spaces-strip s

compare_tokens_refl : (xs : List Text) → compare_tokens xs xs ≡ true
unfolding compare_tokens same_tokens
compare_tokens_refl [] = refl
compare_tokens_refl (x ∷ xs) = ground (arith, text_eq_refl x, compare_tokens_refl xs)

compare_tokens→eq : (xs ys : List Text) → compare_tokens xs ys ≡ true → xs ≡ ys
unfolding compare_tokens same_tokens
compare_tokens→eq [] [] h = refl
compare_tokens→eq [] (y ∷ ys) h = ground arith
compare_tokens→eq (x ∷ xs) [] h = ground arith
compare_tokens→eq (x ∷ xs) (y ∷ ys) h = ground (arith, text_eq→eq x y, compare_tokens→eq xs ys)

flatten : List Text → Text
flatten [] = []
flatten (f ∷ fs) = f ++ flatten fs

flatten-glue : (c : ℕ) (fs : List Text) → flatten (glue c fs) ≡ c ∷ flatten fs
unfolding flatten glue
flatten-glue c [] = refl
flatten-glue c (f ∷ fs) = refl

-- The fields of a split hold what is no whitespace, in order.
flatten-split_spaces : (s : Text) → flatten (split_spaces s) ≡ remove_spaces s
unfolding flatten split_spaces
flatten-split_spaces [] = refl
flatten-split_spaces (c ∷ cs) = elim (Bool-cases (is_space c)) [
  | inl e ↦ rw e (ground (arith, flatten-split_spaces cs))
  | inr e ↦ rw (e, flatten-glue c (split_spaces cs)) (ap (◌∷◌ c) (flatten-split_spaces cs))
]

remove_spaces-trim_start : (s : Text) → remove_spaces (trim_start s) ≡ remove_spaces s
unfolding trim_start
remove_spaces-trim_start [] = refl
remove_spaces-trim_start (c ∷ cs) = ground (arith, remove_spaces-trim_start cs)

remove_spaces-cons :
    (c : ℕ) (s : Text) → remove_spaces (cons_unless_blank c s) ≡ remove_spaces (c ∷ s)
unfolding cons_unless_blank
remove_spaces-cons c [] = ground arith
remove_spaces-cons c (x ∷ s) = refl

remove_spaces-trim_end : (s : Text) → remove_spaces (trim_end s) ≡ remove_spaces s
unfolding trim_end
remove_spaces-trim_end [] = refl
remove_spaces-trim_end (c ∷ cs) =
    remove_spaces-cons c (trim_end cs) ∙ ground (arith, remove_spaces-trim_end cs)

remove_spaces-tokens : (s : Text) → flatten (split_spaces (trim_spaces s)) ≡ remove_spaces s
unfolding trim_spaces
remove_spaces-tokens s =
    flatten-split_spaces (trim_end (trim_start s))
    ∙ remove_spaces-trim_end (trim_start s)
    ∙ remove_spaces-trim_start s

same_text : (a b : Text) → a ≡ b → text_eq a b ≡ true
same_text a b e = rw e (text_eq_refl b)

-- Equal texts pass in every mode.
pub compare_in-exact :
    (a b : Text) (mode : ComparisonMode) → compare_in exact a b ≡ true → compare_in mode a b ≡ true
unfolding compare_in
compare_in-exact a b exact h = h
compare_in-exact a b trim h = same_text _ _ (ap norm (text_eq→eq a b h))
compare_in-exact a b ignore_ws h = same_text _ _ (ap remove_spaces (text_eq→eq a b h))
compare_in-exact a b tokens h =
    rw (text_eq→eq a b h) (compare_tokens_refl (split_spaces (trim_spaces b)))

-- What passes in any mode passes with all whitespace ignored.
pub compare_in-ignore_ws :
    (a b : Text) (mode : ComparisonMode)
    → compare_in mode a b ≡ true
    → compare_in ignore_ws a b ≡ true
unfolding compare_in
compare_in-ignore_ws a b exact h = same_text _ _ (ap remove_spaces (text_eq→eq a b h))
compare_in-ignore_ws a b trim h = same_text _ _ (
    sym (remove_spaces-norm a)
    ∙ ap remove_spaces {x = norm a} {y = norm b} (text_eq→eq _ _ h)
    ∙ remove_spaces-norm b)
compare_in-ignore_ws a b ignore_ws h = h
compare_in-ignore_ws a b tokens h =
    same_text _ _
      (sym (remove_spaces-tokens a) ∙ ap flatten (compare_tokens→eq _ _ h) ∙ remove_spaces-tokens b)
