-- ===== src/Editor/Tidy.antt =====
-- What the formatter leaves of a text.
use zero_code.Base.{
  ℕ, ◌≡◌, refl, sym, ap, ◌∙◌, inl, inr, true, List, [], ◌∷◌, ◌++◌, arith, ◌==◌, Bool-cases, map,
  any, append-nil,
}
use zero_code.Base.Text.{Text, text_eq, is_space, glue, split_on, join_with}
use zero_code.Catalog.Types.{CmLang}
use zero_code.Panel.Compare.{remove_spaces}
use zero_code.Panel.Compare.Modes.{is_blank-is_space}
use zero_code.Editor.{
  unify_newlines, expand_lead, unless_blank, strip_end, tidy_line, unless_empty, drop_empty_end,
  pop_empty, tidy_document, lang_id, formatter_language_ids,
}

remove_spaces-unify : (s : Text) → remove_spaces (unify_newlines s) ≡ remove_spaces s
unfolding unify_newlines is_space
remove_spaces-unify [] = refl
remove_spaces-unify (c ∷ []) = ground arith
remove_spaces-unify (c ∷ d ∷ cs) = ground (arith, remove_spaces-unify (d ∷ cs))

remove_spaces-expand : (s : Text) → remove_spaces (expand_lead s) ≡ remove_spaces s
unfolding expand_lead is_space
remove_spaces-expand [] = refl
remove_spaces-expand (c ∷ cs) = ground (arith, remove_spaces-expand cs)

remove_spaces-unless_blank :
    (c : ℕ) (s : Text) → remove_spaces (unless_blank c s) ≡ remove_spaces (c ∷ s)
unfolding unless_blank
remove_spaces-unless_blank c [] = ground (arith, is_blank-is_space c)
remove_spaces-unless_blank c (d ∷ s) = refl

remove_spaces-cons :
    (c : ℕ) (s t : Text)
    → remove_spaces s ≡ remove_spaces t
    → remove_spaces (c ∷ s) ≡ remove_spaces (c ∷ t)
remove_spaces-cons c s t e = rw e refl

remove_spaces-strip_end : (s : Text) → remove_spaces (strip_end s) ≡ remove_spaces s
unfolding strip_end
remove_spaces-strip_end [] = refl
remove_spaces-strip_end (c ∷ cs) =
    remove_spaces-unless_blank c (strip_end cs)
    ∙ remove_spaces-cons c (strip_end cs) cs (remove_spaces-strip_end cs)

remove_spaces-tidy_line : (s : Text) → remove_spaces (tidy_line s) ≡ remove_spaces s
unfolding tidy_line
remove_spaces-tidy_line s = remove_spaces-strip_end (expand_lead s) ∙ remove_spaces-expand s

remove_spaces-append : (s t : Text) → remove_spaces (s ++ t) ≡ remove_spaces s ++ remove_spaces t
remove_spaces-append [] t = refl
remove_spaces-append (c ∷ s) t = ground (arith, remove_spaces-append s t)

-- What the lines hold that is no whitespace.
abbrev solid : List Text → Text
solid [] = []
solid (l ∷ ls) = remove_spaces l ++ solid ls

solid-glue : (c : ℕ) (ls : List Text) → solid (glue c ls) ≡ remove_spaces (c ∷ []) ++ solid ls
unfolding glue
solid-glue c [] = refl
solid-glue c (l ∷ ls) = elim (Bool-cases (is_space c)) [ inl e ↦ rw e refl | inr e ↦ rw e refl ]

space_lf : (c : ℕ) → (c == b'\n') ≡ true → is_space c ≡ true
unfolding is_space
space_lf c h = ground arith

solid-split_on : (s : Text) → solid (split_on b'\n' s) ≡ remove_spaces s
unfolding split_on
solid-split_on [] = refl
solid-split_on (c ∷ cs) = elim (Bool-cases (c == b'\n')) [
  | inl e ↦ rw (e, space_lf c e) (solid-split_on cs)
  | inr e ↦ rw e (
      solid-glue c (split_on b'\n' cs)
      ∙ ap (λ t. remove_spaces (c ∷ []) ++ t) (solid-split_on cs)
      ∙ sym (remove_spaces-append (c ∷ []) cs))
]

solid-join : (ls : List Text) → remove_spaces (join_with b'\n' ls) ≡ solid ls
unfolding join_with is_space
solid-join [] = refl
solid-join (l ∷ []) = sym (append-nil (remove_spaces l))
solid-join (l ∷ m ∷ ls) =
    remove_spaces-append l (b'\n' ∷ join_with b'\n' (m ∷ ls))
    ∙ ap (λ t. remove_spaces l ++ t) (solid-join (m ∷ ls))

solid-map : (ls : List Text) → solid (map tidy_line ls) ≡ solid ls
solid-map [] = refl
solid-map (l ∷ ls) = rw (remove_spaces-tidy_line l, solid-map ls) refl

solid-unless_empty : (l : Text) (ls : List Text) → solid (unless_empty l ls) ≡ solid (l ∷ ls)
unfolding unless_empty
solid-unless_empty [] [] = refl
solid-unless_empty (c ∷ l) [] = refl
solid-unless_empty l (m ∷ ms) = refl

solid-drop_empty_end : (ls : List Text) → solid (drop_empty_end ls) ≡ solid ls
unfolding drop_empty_end
solid-drop_empty_end [] = refl
solid-drop_empty_end (l ∷ ls) =
    solid-unless_empty l (drop_empty_end ls)
    ∙ ap (λ t. remove_spaces l ++ t) (solid-drop_empty_end ls)

solid-pop_empty : (ls : List Text) → solid (pop_empty ls) ≡ solid ls
unfolding pop_empty
solid-pop_empty [] = refl
solid-pop_empty (l ∷ ls) = ap (λ t. remove_spaces l ++ t) (solid-drop_empty_end ls)

-- The formatter changes whitespace only.
pub remove_spaces-tidy_document : (s : Text) → remove_spaces (tidy_document s) ≡ remove_spaces s
unfolding tidy_document is_space
remove_spaces-tidy_document s =
    let ls = split_on b'\n' (unify_newlines s) in
    remove_spaces-append (join_with b'\n' (pop_empty (map tidy_line ls))) (b'\n' ∷ [])
    ∙ append-nil _
    ∙ solid-join (pop_empty (map tidy_line ls))
    ∙ solid-pop_empty (map tidy_line ls)
    ∙ solid-map ls
    ∙ solid-split_on (unify_newlines s)
    ∙ remove_spaces-unify s

-- The formatter is registered for every highlight mode of the catalogue.
pub any-formatter_language_ids :
    (c : CmLang) → any (text_eq (lang_id c)) formatter_language_ids ≡ true
unfolding lang_id formatter_language_ids text_eq
any-formatter_language_ids CmLang.python = refl
any-formatter_language_ids CmLang.javascript = refl
any-formatter_language_ids CmLang.typescript = refl
any-formatter_language_ids CmLang.rust = refl
any-formatter_language_ids CmLang.go = refl
any-formatter_language_ids CmLang.cpp = refl
any-formatter_language_ids CmLang.c = refl
any-formatter_language_ids CmLang.java = refl
any-formatter_language_ids CmLang.shell = refl
any-formatter_language_ids CmLang.lua = refl
any-formatter_language_ids CmLang.perl = refl
any-formatter_language_ids CmLang.ruby = refl
any-formatter_language_ids CmLang.r = refl
any-formatter_language_ids CmLang.php = refl
any-formatter_language_ids CmLang.kotlin = refl
any-formatter_language_ids CmLang.scala = refl
any-formatter_language_ids CmLang.csharp = refl
any-formatter_language_ids CmLang.swift = refl
any-formatter_language_ids CmLang.sql = refl
any-formatter_language_ids CmLang.dart = refl
