-- ===== src/Editor/Shell.antt =====
-- The shell grammar that `registerExtraGrammars` of web/app/src/playground/Editor.tsx registers: one
-- list of rules per state, a regular expression as the text of its source.
use zero_code.Base.{List, [], ◌∷◌, false}
use zero_code.Base.Text.{Text, codes}
use zero_code.Editor.Monarch.{
  token, tokens, cases, token_next, Rule, match, include, MonarchLang, text, flag, list, pattern,
}
use zero_code.Editor.Words.{brackets, keywords, builtins}

abbrev pub root_rules : List Rule
root_rules =
    include (codes "@whitespace")
    ∷ match (codes "[a-zA-Z_]\\w*") (
        cases (
          (codes "@keywords", codes "keyword")
          ∷ (codes "@builtins", codes "type.identifier")
          ∷ (codes "@default", codes "")
          ∷ []))
    ∷ include (codes "@strings")
    ∷ include (codes "@parameters")
    ∷ include (codes "@heredoc")
    ∷ match (codes "[{}()[\\]]") (token (codes "@brackets"))
    ∷ match (codes "@symbols") (token (codes "operator"))
    ∷ include (codes "@numbers")
    ∷ match (codes "[;,]") (token (codes "delimiter"))
    ∷ []

abbrev pub whitespace_rules : List Rule
whitespace_rules =
    match (codes "^#!.*$") (token (codes "metatag"))
    ∷ match (codes "(\\s+)(#.*$)") (tokens (codes "white" ∷ codes "comment" ∷ []))
    ∷ match (codes "^#.*$") (token (codes "comment"))
    ∷ match (codes "\\s+") (token (codes "white"))
    ∷ []

abbrev pub numbers_rules : List Rule
numbers_rules =
    match (codes "\\d*\\.\\d+([eE][-+]?\\d+)?") (token (codes "number.float"))
    ∷ match (codes "0[xX][0-9a-fA-F]+") (token (codes "number.hex"))
    ∷ match (codes "\\d+") (token (codes "number"))
    ∷ []

abbrev pub strings_rules : List Rule
strings_rules =
    match (codes "'") (token_next (codes "string") (codes "@sqString"))
    ∷ match (codes "\"") (token_next (codes "string") (codes "@dqString"))
    ∷ match (codes "`") (token_next (codes "string.escape") (codes "@backtick"))
    ∷ []

abbrev pub sq_string_rules : List Rule
sq_string_rules =
    match (codes "[^']+") (token (codes "string"))
    ∷ match (codes "'") (token_next (codes "string") (codes "@pop"))
    ∷ []

abbrev pub dq_string_rules : List Rule
dq_string_rules =
    match (codes "[^\"\\\\$`]+") (token (codes "string"))
    ∷ match (codes "\\\\[\"\\\\$`nrtae]") (token (codes "string.escape"))
    ∷ match (codes "\\\\.") (token (codes "string"))
    ∷ include (codes "@parameters")
    ∷ match (codes "`") (token_next (codes "string.escape") (codes "@backtick"))
    ∷ match (codes "\"") (token_next (codes "string") (codes "@pop"))
    ∷ match (codes "[$`]") (token (codes "string"))
    ∷ []

abbrev pub backtick_rules : List Rule
backtick_rules =
    include (codes "@parameters")
    ∷ include (codes "@strings")
    ∷ match (codes "`") (token_next (codes "string.escape") (codes "@pop"))
    ∷ match (codes "[^`]") (token (codes "string"))
    ∷ []

abbrev pub heredoc_rules : List Rule
heredoc_rules =
    match (codes "(<<[-~]?)(\\s*)(['\"`]?)([\\w-]+)(['\"`]?)") (
      tokens (
        codes "operator"
        ∷ codes "white"
        ∷ codes "string.heredoc.delimiter"
        ∷ codes "string.heredoc.delimiter"
        ∷ codes "string.heredoc.delimiter"
        ∷ []))
    ∷ []

abbrev pub parameters_rules : List Rule
parameters_rules =
    match (codes "\\$\\(\\(") (token_next (codes "delimiter.bracket") (codes "@arithmetic"))
    ∷ match (codes "\\$\\(") (token_next (codes "delimiter.bracket") (codes "@cmdsubst"))
    ∷ match (codes "\\$\\{") (token_next (codes "variable") (codes "@paramExpansion"))
    ∷ match (codes "\\$\\d+") (token (codes "variable.predefined"))
    ∷ match (codes "\\$[@*#?$!0\\-]") (token (codes "variable.predefined"))
    ∷ match (codes "\\$\\w+") (token (codes "variable"))
    ∷ []

abbrev pub param_expansion_rules : List Rule
param_expansion_rules =
    match (codes "[a-zA-Z_]\\w*") (token (codes "variable"))
    ∷ match (codes "\\d+") (token (codes "number"))
    ∷ match (codes ":[-=?+]?|##?|%%?|\\^\\^?|,,?|\\/") (token (codes "delimiter"))
    ∷ match (codes "\\}") (token_next (codes "variable") (codes "@pop"))
    ∷ match (codes "[^}]") (token (codes "variable"))
    ∷ []

abbrev pub arithmetic_rules : List Rule
arithmetic_rules =
    match (codes "\\$\\w+") (token (codes "variable"))
    ∷ match (codes "\\$\\{") (token_next (codes "variable") (codes "@paramExpansion"))
    ∷ match (codes "\\d+") (token (codes "number"))
    ∷ match (codes "[a-zA-Z_]\\w*") (token (codes "variable"))
    ∷ match (codes "[-+*/%<>=!&|^~?:]+") (token (codes "operator"))
    ∷ match (codes "\\)\\)") (token_next (codes "delimiter.bracket") (codes "@pop"))
    ∷ match (codes "[()]") (token (codes "delimiter.bracket"))
    ∷ match (codes "\\s+") (token (codes "white"))
    ∷ []

abbrev pub cmdsubst_rules : List Rule
cmdsubst_rules =
    match (codes "\\)") (token_next (codes "delimiter.bracket") (codes "@pop"))
    ∷ include (codes "@whitespace")
    ∷ match (codes "[a-zA-Z_]\\w*") (
        cases (
          (codes "@keywords", codes "keyword")
          ∷ (codes "@builtins", codes "type.identifier")
          ∷ (codes "@default", codes "")
          ∷ []))
    ∷ include (codes "@strings")
    ∷ include (codes "@parameters")
    ∷ match (codes "[{}[\\]]") (token (codes "@brackets"))
    ∷ match (codes "\\(") (token (codes "delimiter.bracket"))
    ∷ match (codes "@symbols") (token (codes "operator"))
    ∷ include (codes "@numbers")
    ∷ match (codes "[;,]") (token (codes "delimiter"))
    ∷ []

abbrev pub shell_states : List (Text × List Rule)
shell_states =
    (codes "root", root_rules)
    ∷ (codes "whitespace", whitespace_rules)
    ∷ (codes "numbers", numbers_rules)
    ∷ (codes "strings", strings_rules)
    ∷ (codes "sqString", sq_string_rules)
    ∷ (codes "dqString", dq_string_rules)
    ∷ (codes "backtick", backtick_rules)
    ∷ (codes "heredoc", heredoc_rules)
    ∷ (codes "parameters", parameters_rules)
    ∷ (codes "paramExpansion", param_expansion_rules)
    ∷ (codes "arithmetic", arithmetic_rules)
    ∷ (codes "cmdsubst", cmdsubst_rules)
    ∷ []

-- The object given to `setMonarchTokensProvider`.
abbrev pub shell_lang : MonarchLang Rule
shell_lang = record {
  attributes =
      (codes "defaultToken", text (codes ""))
      ∷ (codes "ignoreCase", flag false)
      ∷ (codes "tokenPostfix", text (codes ".shell"))
      ∷ (codes "brackets", list brackets)
      ∷ (codes "keywords", list keywords)
      ∷ (codes "builtins", list builtins)
      ∷ (codes "symbols", pattern (codes "[=><!~?&|+\\-*/^%]+"))
      ∷ [];
  tokenizer = shell_states;
}
