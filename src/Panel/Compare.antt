-- ===== src/Panel/Compare.antt =====
-- `ComparisonMode` and `compare` of web/app/src/playground/TestsPanel.tsx.
pub mod Modes
use zero_code.Base.{
  ℕ, zero, suc, Bool, true, false, not, ◌&&◌, ◌||◌, List, [], ◌∷◌, ◌==◌, if◌then◌else◌, length,
  keep, is_empty,
}
use zero_code.Base.Text.{Text, text_eq, starts_with, glue, is_space}
use zero_code.Base.Text.{trim as trim_spaces}

pub data ComparisonMode : Type 0 where
  exact trim ignore_ws tokens : ComparisonMode

abbrev pub is_blank : ℕ → Bool
is_blank c = c == b' ' || c == b'\t'

-- `\r?\n` matches here.
abbrev pub at_line_end : Text → Bool
at_line_end s = starts_with (b'\n' ∷ []) s || starts_with (b'\r' ∷ b'\n' ∷ []) s

-- `[ \t]*\r?\n` matches here.
unfoldable pub blanks_to_line_end : Text → Bool
blanks_to_line_end [] = false
blanks_to_line_end (c ∷ cs) =
    let rest = blanks_to_line_end cs in if is_blank c then rest else at_line_end (c ∷ cs)

-- `s.replace(/[ \t]+(\r?\n)/g, '$1')`: a blank goes if nothing but blanks stand between it and a
-- line end.
unfoldable pub strip_line_ends : Text → Text
unfolding blanks_to_line_end
strip_line_ends [] = []
strip_line_ends (c ∷ cs) =
    let rest = strip_line_ends cs in if is_blank c && blanks_to_line_end cs then rest else c ∷ rest

-- `s.replace(/\r?\n$/, '')`
unfoldable pub chop_newline : Text → Text
chop_newline [] = []
chop_newline (c ∷ []) = if c == b'\n' then [] else c ∷ []
chop_newline (c ∷ d ∷ []) = if d == b'\n' then (if c == b'\r' then [] else c ∷ []) else c ∷ d ∷ []
chop_newline (c ∷ d ∷ e ∷ cs) = c ∷ chop_newline (d ∷ e ∷ cs)

-- The closure `norm`.
unfoldable pub norm : Text → Text
unfolding strip_line_ends chop_newline
norm s = chop_newline (strip_line_ends s)

abbrev pub starts_space : Text → Bool
starts_space [] = false
starts_space (c ∷ cs) = is_space c

-- `s.split(/\s+/)`: the fields between the longest runs of whitespace.
unfoldable pub split_spaces : Text → List Text
unfolding is_space glue
split_spaces [] = [] ∷ []
split_spaces (c ∷ cs) =
    let rest = split_spaces cs in
    if is_space c then (if starts_space cs then rest else [] ∷ rest) else glue c rest

-- The `for` loop over the tokens of lists of one length.
unfoldable pub same_tokens : List Text → List Text → Bool
unfolding text_eq
same_tokens [] ys = true
same_tokens (x ∷ xs) [] = true
same_tokens (x ∷ xs) (y ∷ ys) =
    let rest = same_tokens xs ys in if not (text_eq x y) then false else rest

unfoldable pub compare_tokens : List Text → List Text → Bool
unfolding same_tokens
compare_tokens a b = if not (length a == length b) then false else same_tokens a b

abbrev pub remove_spaces : Text → Text
remove_spaces = keep (λ c. not (is_space c))

-- The `switch`.
unfoldable pub compare_in : ComparisonMode → Text → Text → Bool
unfolding norm text_eq compare_tokens split_spaces trim_spaces
compare_in exact actual expected = text_eq actual expected
compare_in trim actual expected = text_eq (norm actual) (norm expected)
compare_in ignore_ws actual expected = text_eq (remove_spaces actual) (remove_spaces expected)
compare_in tokens actual expected =
    compare_tokens (split_spaces (trim_spaces actual)) (split_spaces (trim_spaces expected))

unfoldable pub compare : Text → Text → ComparisonMode → Bool
unfolding compare_in
compare actual expected mode = if is_empty expected then true else compare_in mode actual expected
