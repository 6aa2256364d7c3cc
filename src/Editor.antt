-- ===== src/Editor.antt =====
-- The formatter of the editor: `tidyDocument`, `FORMATTER_LANGUAGE_IDS`, `registerFormatters` and
-- `langId` of web/app/src/playground/Editor.tsx.
pub mod Monarch
pub mod Words
pub mod Shell
pub mod Register
pub mod Stack
pub mod Grammar
pub mod Highlight
pub mod Registered
pub mod Palette
pub mod ThemeRules
pub mod ThemeColors
pub mod Coloured
pub mod Tokens
pub mod Widget
pub mod Tidy
mod Tests
use zero_code.Base.{
  ℕ, Bool, List, [], ◌∷◌, ◌++◌, ◌==◌, if◌then◌else◌, map, is_empty, Option, none, some, any,
}
use zero_code.Base.Text.{Text, codes, text_eq, split_on, join_with}
use zero_code.Catalog.Types.{CmLang}
use zero_code.Panel.Compare.{is_blank}

-- `text.replace(/\r\n?/g, '\n')`
unfoldable pub unify_newlines : Text → Text
unify_newlines [] = []
unify_newlines (c ∷ []) = (if c == b'\r' then b'\n' else c) ∷ []
unify_newlines (c ∷ d ∷ cs) =
    let rest = unify_newlines (d ∷ cs) in
    if c == b'\r' then (if d == b'\n' then rest else b'\n' ∷ rest) else c ∷ rest

-- The blanks at the beginning, with every tab as four spaces, and the body.
unfoldable pub expand_lead : Text → Text
expand_lead [] = []
expand_lead (c ∷ cs) =
    let rest = expand_lead cs in
    if c == b'\t' then codes "    " ++ rest else if c == b' ' then c ∷ rest else c ∷ cs

unfoldable pub unless_blank : ℕ → Text → Text
unless_blank c [] = if is_blank c then [] else c ∷ []
unless_blank c (d ∷ cs) = c ∷ d ∷ cs

-- `line.replace(/[ \t]+$/, '')`
unfoldable pub strip_end : Text → Text
unfolding unless_blank
strip_end [] = []
strip_end (c ∷ cs) = unless_blank c (strip_end cs)

unfoldable pub tidy_line : Text → Text
unfolding expand_lead strip_end
tidy_line line = strip_end (expand_lead line)

unfoldable pub unless_empty : Text → List Text → List Text
unless_empty l [] = if is_empty l then [] else l ∷ []
unless_empty l (m ∷ ms) = l ∷ m ∷ ms

unfoldable pub drop_empty_end : List Text → List Text
unfolding unless_empty
drop_empty_end [] = []
drop_empty_end (l ∷ ls) = unless_empty l (drop_empty_end ls)

-- The `while` loop, which leaves the first line.
unfoldable pub pop_empty : List Text → List Text
unfolding drop_empty_end
pop_empty [] = []
pop_empty (l ∷ ls) = l ∷ drop_empty_end ls

unfoldable pub tidy_document : Text → Text
unfolding unify_newlines split_on tidy_line pop_empty join_with
tidy_document text =
    join_with b'\n' (pop_empty (map tidy_line (split_on b'\n' (unify_newlines text)))) ++ b'\n' ∷ []

-- `provideDocumentFormattingEdits`: the text of the only edit, if there is one.
unfoldable pub formatting_edit : Text → Option Text
unfolding tidy_document text_eq
formatting_edit text = if text_eq (tidy_document text) text then none else some (tidy_document text)

-- `langId`: the mode as the string that it is.
unfoldable pub lang_id : CmLang → Text
lang_id CmLang.python = codes "python"
lang_id CmLang.javascript = codes "javascript"
lang_id CmLang.typescript = codes "typescript"
lang_id CmLang.rust = codes "rust"
lang_id CmLang.go = codes "go"
lang_id CmLang.cpp = codes "cpp"
lang_id CmLang.c = codes "c"
lang_id CmLang.java = codes "java"
lang_id CmLang.shell = codes "shell"
lang_id CmLang.lua = codes "lua"
lang_id CmLang.perl = codes "perl"
lang_id CmLang.ruby = codes "ruby"
lang_id CmLang.r = codes "r"
lang_id CmLang.php = codes "php"
lang_id CmLang.kotlin = codes "kotlin"
lang_id CmLang.scala = codes "scala"
lang_id CmLang.csharp = codes "csharp"
lang_id CmLang.swift = codes "swift"
lang_id CmLang.sql = codes "sql"
lang_id CmLang.dart = codes "dart"

-- `FORMATTER_LANGUAGE_IDS`
unfoldable pub formatter_language_ids : List Text
formatter_language_ids =
    codes "python"
    ∷ codes "javascript"
    ∷ codes "typescript"
    ∷ codes "rust"
    ∷ codes "go"
    ∷ codes "cpp"
    ∷ codes "c"
    ∷ codes "java"
    ∷ codes "shell"
    ∷ codes "lua"
    ∷ codes "perl"
    ∷ codes "ruby"
    ∷ codes "r"
    ∷ codes "php"
    ∷ codes "kotlin"
    ∷ codes "scala"
    ∷ codes "csharp"
    ∷ codes "swift"
    ∷ codes "sql"
    ∷ codes "dart"
    ∷ []
