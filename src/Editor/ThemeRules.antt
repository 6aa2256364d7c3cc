-- ===== src/Editor/ThemeRules.antt =====
-- What the editor's theme says of tokens: the `rules` of `makeTheme` in
-- web/app/src/playground/monaco-theme.ts, one list for each of its headings.
use zero_code.Base.{List, [], ◌∷◌, ◌++◌, Option, none, some}
use zero_code.Base.Text.{Text, codes}
use zero_code.Editor.Palette.{Palette}

-- A rule of a theme, with its font style if it names one.
pub record ThemeRule : Type 0 where
  pub token : Text
  pub foreground : Text
  pub font_style : Option Text

abbrev plain : Text → Text → ThemeRule
plain name hue = record { token = name; foreground = hue; font_style = none }

abbrev styled : Text → Text → Text → ThemeRule
styled name hue style = record { token = name; foreground = hue; font_style = some style }

abbrev pub default_rules : Palette → List ThemeRule
default_rules p =
    plain (codes "") p.fg ∷ plain (codes "identifier") p.fg ∷ plain (codes "source") p.fg ∷ []

abbrev pub comment_rules : Palette → List ThemeRule
comment_rules p =
    styled (codes "comment") p.comment (codes "italic")
    ∷ styled (codes "comment.line") p.comment (codes "italic")
    ∷ styled (codes "comment.block") p.comment (codes "italic")
    ∷ styled (codes "comment.doc") p.comment (codes "italic")
    ∷ styled (codes "comment.doc.invalid") p.error (codes "italic underline")
    ∷ styled (codes "comment.invalid") p.error (codes "italic underline")
    ∷ []

abbrev pub keyword_rules : Palette → List ThemeRule
keyword_rules p =
    plain (codes "keyword") p.pink
    ∷ plain (codes "keyword.control") p.pink
    ∷ plain (codes "keyword.flow") p.pink
    ∷ styled (codes "keyword.return") p.pink (codes "italic")
    ∷ plain (codes "keyword.operator") p.pink
    ∷ plain (codes "keyword.other") p.pink
    ∷ plain (codes "keyword.json") p.pink
    ∷ styled (codes "keyword.async") p.pink (codes "italic")
    ∷ styled (codes "keyword.non-sealed") p.pink (codes "italic")
    ∷ styled (codes "keyword.type") p.blue (codes "italic")
    ∷ plain (codes "keyword.directive") p.orange
    ∷ plain (codes "keyword.directive.include") p.orange
    ∷ plain (codes "keyword.directive.include.begin") p.yellow
    ∷ plain (codes "keyword.directive.include.end") p.yellow
    ∷ []

abbrev pub storage_rules : Palette → List ThemeRule
storage_rules p =
    styled (codes "storage") p.pink (codes "italic")
    ∷ styled (codes "storage.type") p.pink (codes "italic")
    ∷ styled (codes "storage.modifier") p.pink (codes "italic")
    ∷ []

abbrev pub operator_rules : Palette → List ThemeRule
operator_rules p =
    plain (codes "operator") p.pink
    ∷ plain (codes "operator.assignment") p.pink
    ∷ plain (codes "operator.comparison") p.pink
    ∷ plain (codes "operator.bitwise") p.pink
    ∷ plain (codes "operator.logical") p.pink
    ∷ plain (codes "operator.arithmetic") p.pink
    ∷ []

abbrev pub string_rules : Palette → List ThemeRule
string_rules p =
    plain (codes "string") p.yellow
    ∷ plain (codes "string.quote") p.yellow
    ∷ plain (codes "string.escape") p.orange
    ∷ styled (codes "string.escape.invalid") p.error (codes "underline")
    ∷ styled (codes "string.invalid") p.error (codes "underline")
    ∷ plain (codes "string.template") p.yellow
    ∷ plain (codes "string.heredoc") p.yellow
    ∷ plain (codes "string.byteliteral") p.yellow
    ∷ plain (codes "string.raw.begin") p.orange
    ∷ plain (codes "string.raw.end") p.orange
    ∷ []

abbrev pub regexp_rules : Palette → List ThemeRule
regexp_rules p =
    plain (codes "regexp") p.orange
    ∷ plain (codes "regexp.escape") p.purple
    ∷ plain (codes "regexp.escape.control") p.purple
    ∷ styled (codes "regexp.invalid") p.error (codes "underline")
    ∷ []

abbrev pub number_rules : Palette → List ThemeRule
number_rules p =
    plain (codes "number") p.purple
    ∷ plain (codes "number.hex") p.purple
    ∷ plain (codes "number.float") p.purple
    ∷ plain (codes "number.binary") p.purple
    ∷ plain (codes "number.octal") p.purple
    ∷ []

abbrev pub constant_rules : Palette → List ThemeRule
constant_rules p =
    plain (codes "constant") p.purple
    ∷ styled (codes "constant.language") p.purple (codes "italic")
    ∷ plain (codes "constant.numeric") p.purple
    ∷ plain (codes "constant.character") p.yellow
    ∷ plain (codes "constant.character.escape") p.orange
    ∷ []

abbrev pub type_rules : Palette → List ThemeRule
type_rules p =
    styled (codes "type") p.blue (codes "italic")
    ∷ styled (codes "type.identifier") p.blue (codes "italic")
    ∷ styled (codes "typeof") p.pink (codes "italic")
    ∷ styled (codes "class") p.blue (codes "italic")
    ∷ styled (codes "class.identifier") p.blue (codes "italic")
    ∷ styled (codes "interface") p.blue (codes "italic")
    ∷ styled (codes "enum") p.blue (codes "italic")
    ∷ styled (codes "struct") p.blue (codes "italic")
    ∷ styled (codes "namespace") p.blue (codes "italic")
    ∷ styled (codes "namespace.identifier") p.blue (codes "italic")
    ∷ []

abbrev pub function_rules : Palette → List ThemeRule
function_rules p =
    plain (codes "function") p.green
    ∷ plain (codes "function.call") p.green
    ∷ plain (codes "function.declaration") p.green
    ∷ plain (codes "identifier.function") p.green
    ∷ plain (codes "method") p.green
    ∷ plain (codes "macro") p.green
    ∷ plain (codes "support.function") p.green
    ∷ plain (codes "entity.name.function") p.green
    ∷ []

abbrev pub variable_rules : Palette → List ThemeRule
variable_rules p =
    plain (codes "variable") p.fg
    ∷ styled (codes "variable.parameter") p.orange (codes "italic")
    ∷ styled (codes "variable.predefined") p.purple (codes "italic")
    ∷ styled (codes "variable.language") p.purple (codes "italic")
    ∷ plain (codes "variable.other") p.fg
    ∷ styled (codes "parameter") p.orange (codes "italic")
    ∷ []

abbrev pub delimiter_rules : Palette → List ThemeRule
delimiter_rules p =
    plain (codes "delimiter") p.fg_dim
    ∷ plain (codes "delimiter.bracket") p.fg
    ∷ plain (codes "delimiter.parenthesis") p.fg
    ∷ plain (codes "delimiter.curly") p.fg
    ∷ plain (codes "delimiter.square") p.fg
    ∷ plain (codes "delimiter.angle") p.pink
    ∷ plain (codes "delimiter.comma") p.fg_dim
    ∷ plain (codes "delimiter.colon") p.fg_dim
    ∷ plain (codes "delimiter.semicolon") p.fg_dim
    ∷ plain (codes "punctuation") p.fg_dim
    ∷ []

abbrev pub annotation_rules : Palette → List ThemeRule
annotation_rules p =
    styled (codes "annotation") p.orange (codes "italic")
    ∷ plain (codes "meta") p.orange
    ∷ styled (codes "meta.decorator") p.orange (codes "italic")
    ∷ plain (codes "metatag") p.orange
    ∷ styled (codes "attribute") p.orange (codes "italic")
    ∷ []

abbrev pub tag_rules : Palette → List ThemeRule
tag_rules p =
    plain (codes "tag") p.pink
    ∷ styled (codes "tag.attribute") p.blue (codes "italic")
    ∷ styled (codes "attribute.name") p.blue (codes "italic")
    ∷ plain (codes "attribute.value") p.yellow
    ∷ plain (codes "attribute.value.unit") p.purple
    ∷ []

abbrev pub markdown_rules : Palette → List ThemeRule
markdown_rules p =
    styled (codes "markup.heading") p.pink (codes "bold")
    ∷ styled (codes "markup.bold") p.fg (codes "bold")
    ∷ styled (codes "markup.italic") p.fg (codes "italic")
    ∷ styled (codes "markup.strikethrough") p.fg_dim (codes "strikethrough")
    ∷ styled (codes "markup.underline.link") p.blue (codes "underline")
    ∷ plain (codes "markup.inline.raw") p.yellow
    ∷ plain (codes "markup.fenced_code") p.yellow
    ∷ []

abbrev pub invalid_rules : Palette → List ThemeRule
invalid_rules p =
    styled (codes "invalid") p.error (codes "underline")
    ∷ styled (codes "invalid.illegal") p.error (codes "underline")
    ∷ styled (codes "invalid.deprecated") p.error (codes "strikethrough")
    ∷ []

abbrev pub shell_rules : Palette → List ThemeRule
shell_rules p =
    plain (codes "type.identifier.shell") p.green
    ∷ plain (codes "variable.shell") p.orange
    ∷ plain (codes "string.heredoc.delimiter.shell") p.orange
    ∷ []

-- `rules`
abbrev pub theme_rules : Palette → List ThemeRule
theme_rules p =
    default_rules p
    ++ comment_rules p
    ++ keyword_rules p
    ++ storage_rules p
    ++ operator_rules p
    ++ string_rules p
    ++ regexp_rules p
    ++ number_rules p
    ++ constant_rules p
    ++ type_rules p
    ++ function_rules p
    ++ variable_rules p
    ++ delimiter_rules p
    ++ annotation_rules p
    ++ tag_rules p
    ++ markdown_rules p
    ++ invalid_rules p
    ++ shell_rules p
