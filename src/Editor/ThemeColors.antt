-- ===== src/Editor/ThemeColors.antt =====
-- What the editor's theme says of the parts of the editor: the `colors` of `makeTheme` in
-- web/app/src/playground/monaco-theme.ts, one list for each of its headings, and the theme itself.
use zero_code.Base.{Bool, true, List, [], ◌∷◌, ◌++◌}
use zero_code.Base.Text.{Text, codes}
use zero_code.Editor.Palette.{Palette, dark}
use zero_code.Editor.ThemeRules.{ThemeRule, theme_rules}

-- `'#' + hue`
abbrev pub hashed : Text → Text
hashed hue = b'#' ∷ hue

abbrev pub surface_colors : Palette → List (Text × Text)
surface_colors p =
    (codes "editor.background", p.bg)
    ∷ (codes "editor.foreground", hashed p.fg)
    ∷ (codes "editorCursor.foreground", hashed p.cursor)
    ∷ (codes "editor.lineHighlightBackground", p.bg_line)
    ∷ (codes "editor.lineHighlightBorder", p.bg_line)
    ∷ (codes "editorLineNumber.foreground", p.gutter_dim)
    ∷ (codes "editorLineNumber.activeForeground", p.gutter_active)
    ∷ []

abbrev pub selection_colors : Palette → List (Text × Text)
selection_colors p =
    (codes "editor.selectionBackground", p.bg_selection)
    ∷ (codes "editor.inactiveSelectionBackground", p.bg_selection_dim)
    ∷ (codes "editor.selectionHighlightBackground", p.bg_selection_dim)
    ∷ (codes "editor.wordHighlightBackground", p.bg_selection_dim)
    ∷ (codes "editor.wordHighlightStrongBackground", p.bg_selection)
    ∷ (codes "editor.findMatchBackground", p.find_match)
    ∷ (codes "editor.findMatchHighlightBackground", p.find_match_hi)
    ∷ (codes "editor.findRangeHighlightBackground", p.range_hi)
    ∷ (codes "editor.rangeHighlightBackground", p.range_hi)
    ∷ []

abbrev pub bracket_colors : Palette → List (Text × Text)
bracket_colors p =
    (codes "editorBracketMatch.background", p.bg_selection_dim)
    ∷ (codes "editorBracketMatch.border", hashed p.yellow)
    ∷ (codes "editorBracketHighlight.foreground1", hashed p.pink)
    ∷ (codes "editorBracketHighlight.foreground2", hashed p.yellow)
    ∷ (codes "editorBracketHighlight.foreground3", hashed p.blue)
    ∷ (codes "editorBracketHighlight.foreground4", hashed p.green)
    ∷ (codes "editorBracketHighlight.foreground5", hashed p.orange)
    ∷ (codes "editorBracketHighlight.foreground6", hashed p.purple)
    ∷ (codes "editorBracketHighlight.unexpectedBracket.foreground", hashed p.error)
    ∷ []

abbrev pub guide_colors : Palette → List (Text × Text)
guide_colors p =
    (codes "editorIndentGuide.background", p.bg_line)
    ∷ (codes "editorIndentGuide.background1", p.bg_line)
    ∷ (codes "editorIndentGuide.activeBackground", p.gutter_dim)
    ∷ (codes "editorIndentGuide.activeBackground1", p.gutter_dim)
    ∷ (codes "editorWhitespace.foreground", p.bg_selection_dim)
    ∷ (codes "editorRuler.foreground", p.bg_line)
    ∷ []

abbrev pub gutter_colors : Palette → List (Text × Text)
gutter_colors p =
    (codes "editorGutter.background", p.bg)
    ∷ (codes "editorGutter.modifiedBackground", hashed p.blue)
    ∷ (codes "editorGutter.addedBackground", hashed p.green)
    ∷ (codes "editorGutter.deletedBackground", hashed p.error)
    ∷ (codes "minimap.background", p.bg)
    ∷ (codes "minimap.selectionHighlight", p.bg_selection)
    ∷ (codes "minimap.findMatchHighlight", p.minimap_find)
    ∷ (codes "scrollbar.shadow", p.scroll_shadow)
    ∷ (codes "scrollbarSlider.background", p.slider)
    ∷ (codes "scrollbarSlider.hoverBackground", p.slider_hover)
    ∷ (codes "scrollbarSlider.activeBackground", p.slider_active)
    ∷ []

abbrev pub sticky_colors : Palette → List (Text × Text)
sticky_colors p =
    (codes "editorStickyScroll.background", p.sticky)
    ∷ (codes "editorStickyScrollHover.background", p.bg_line)
    ∷ []

abbrev pub widget_colors : Palette → List (Text × Text)
widget_colors p =
    (codes "editorWidget.background", p.bg_panel)
    ∷ (codes "editorWidget.border", p.bg_line)
    ∷ (codes "editorWidget.foreground", hashed p.fg)
    ∷ (codes "editorSuggestWidget.background", p.bg_panel)
    ∷ (codes "editorSuggestWidget.border", p.bg_line)
    ∷ (codes "editorSuggestWidget.selectedBackground", p.bg_selection)
    ∷ (codes "editorSuggestWidget.selectedForeground", hashed p.fg)
    ∷ (codes "editorSuggestWidget.foreground", hashed p.fg)
    ∷ (codes "editorSuggestWidget.highlightForeground", hashed p.yellow)
    ∷ (codes "editorHoverWidget.background", p.bg_panel)
    ∷ (codes "editorHoverWidget.border", p.bg_line)
    ∷ (codes "editorHoverWidget.foreground", hashed p.fg)
    ∷ []

abbrev pub list_colors : Palette → List (Text × Text)
list_colors p =
    (codes "list.hoverBackground", p.bg_line)
    ∷ (codes "list.activeSelectionBackground", p.bg_selection)
    ∷ (codes "list.activeSelectionForeground", hashed p.fg)
    ∷ (codes "list.inactiveSelectionBackground", p.bg_selection_dim)
    ∷ (codes "input.background", p.bg_panel)
    ∷ (codes "input.foreground", hashed p.fg)
    ∷ (codes "input.border", p.bg_line)
    ∷ (codes "focusBorder", p.focus_border)
    ∷ (codes "inputOption.activeBorder", hashed p.yellow)
    ∷ []

-- `colors`
abbrev pub theme_colors : Palette → List (Text × Text)
theme_colors p =
    surface_colors p
    ++ selection_colors p
    ++ bracket_colors p
    ++ guide_colors p
    ++ gutter_colors p
    ++ sticky_colors p
    ++ widget_colors p
    ++ list_colors p

-- `IStandaloneThemeData`, as far as the file fills it in.
pub record ThemeData : Type 0 where
  pub base : Text
  pub inherit : Bool
  pub rules : List ThemeRule
  pub colors : List (Text × Text)

abbrev pub make_theme : Palette → Text → ThemeData
make_theme p base_theme = record {
  base = base_theme;
  inherit = true;
  rules = theme_rules p;
  colors = theme_colors p;
}

abbrev pub editor_theme : ThemeData
editor_theme = make_theme dark (codes "vs-dark")
