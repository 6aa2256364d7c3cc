-- ===== src/Editor/Tests.antt =====
-- The formatter on a text, and the theorems about it at concrete inputs.
use mathlib.Core.List.{Memᴰ}
use zero_code.Base.{◌≡◌, refl, true, any, List, [], ◌∷◌, All, arith, none}
use zero_code.Base.Text.{Text, codes, text_eq, text_eq_refl}
use zero_code.Editor.Monarch.{
  Rule, match, token, word, list, MonarchLang, reserve_all, guard, call_rules,
}
use zero_code.Editor.Shell.{shell_states, root_rules, strings_rules}
use zero_code.Editor.Register.{
  Call, register, set_configuration, set_tokens, Configuration, shell_conf, StockModules, call_only,
}
use zero_code.Editor.Stack.{IsStack, HasRule, rooted}
use zero_code.Editor.Grammar.{rooted-IsStack}
use zero_code.Editor.Palette.{dark}
use zero_code.Editor.ThemeRules.{ThemeRule}
use zero_code.Editor.ThemeColors.{make_theme}
use zero_code.Editor.Coloured.{IsPalette, BareRule, HashedColor, make_theme-kept}
use zero_code.Panel.Compare.{remove_spaces}
use zero_code.Editor.{tidy_document}
use zero_code.Editor.Tidy.{remove_spaces-tidy_document}

abbrev untidy : Text
untidy = codes "if x:\r\n\ty = 1  \n\n\n"

tidied : tidy_document untidy ≡ codes "if x:\n    y = 1\n"
unfolding tidy_document
tidied = refl

remove_spaces-tidy_document_example : remove_spaces (tidy_document untidy) ≡ remove_spaces untidy
remove_spaces-tidy_document_example = remove_spaces-tidy_document untidy

-- A grammar with a state of code and one of text.
abbrev small_lang : MonarchLang Rule
small_lang = record {
  attributes = (codes "keywords", list (word (codes "if") ∷ word (codes "=>") ∷ [])) ∷ [];
  tokenizer =
      (codes "root", match (codes "[a-z]+") (token (codes "identifier")) ∷ [])
      ∷ (codes "dqString", match (codes "[^\"]+") (token (codes "string")) ∷ [])
      ∷ [];
}

small_calls :
    call_rules (guard (reserve_all [] small_lang.attributes)) call_only
    ≡ match (codes "(?!(?:if)\\b)[A-Za-z_]\\w*(?=\\s*\\()") (token (codes "function")) ∷ []
unfolding call_rules guard reserve_all
small_calls = refl

-- In a string of double quotes.
in_string : IsStack shell_states (codes "dqString" ∷ codes "root" ∷ [])
unfolding text_eq
in_string =
    IsStack.push IsStack.start
      (HasRule.included {s = codes "root"} {t = codes "strings"} {rules = root_rules} refl
        (Memᴰ.tail (Memᴰ.tail (Memᴰ.head refl)))
        (HasRule.own {rules = strings_rules} refl (Memᴰ.tail (Memᴰ.head refl))))
      refl

rooted-IsStack_example : rooted shell_states (codes "dqString" ∷ codes "root" ∷ []) ≡ true
rooted-IsStack_example = rooted-IsStack (codes "dqString" ∷ codes "root" ∷ []) in_string

-- Stock modules that are all alike.
abbrev small_modules : StockModules Rule Configuration
small_modules = record {
  conf = λ s. shell_conf;
  language = λ s. small_lang;
  own_rule = λ r. r;
  own_conf = λ c. c;
}

-- A Monaco that keeps the ids of its languages.
abbrev note : Call Rule Configuration → List Text → List Text
note (register id e a) m = id ∷ m
note (set_configuration id c) m = m
note (set_tokens id l) m = m

note_keeps :
    (c : Call Rule Configuration) (m : List Text) (id : Text)
    → any (text_eq id) m ≡ true
    → any (text_eq id) (note c m) ≡ true
note_keeps (register i e a) m id h = ground (arith, h)
note_keeps (set_configuration i c) m id h = h
note_keeps (set_tokens i l) m id h = h

note_adds : (id : Text) (e a m : List Text) → any (text_eq id) (note (register id e a) m) ≡ true
note_adds id e a m = rw (text_eq_refl id) refl

dark-IsPalette : IsPalette dark
dark-IsPalette = record {
  bg_kept = refl;
  bg_panel_kept = refl;
  bg_line_kept = refl;
  bg_selection_kept = refl;
  bg_selection_dim_kept = refl;
  cursor_kept = refl;
  gutter_dim_kept = refl;
  gutter_active_kept = refl;
  fg_kept = refl;
  fg_dim_kept = refl;
  pink_kept = refl;
  green_kept = refl;
  yellow_kept = refl;
  orange_kept = refl;
  purple_kept = refl;
  blue_kept = refl;
  comment_kept = refl;
  error_kept = refl;
  find_match_kept = refl;
  find_match_hi_kept = refl;
  range_hi_kept = refl;
  minimap_find_kept = refl;
  scroll_shadow_kept = refl;
  slider_kept = refl;
  slider_hover_kept = refl;
  slider_active_kept = refl;
  sticky_kept = refl;
  focus_border_kept = refl;
}

make_theme-kept_example :
    All BareRule (make_theme dark (codes "vs-dark")).rules
    × All HashedColor (make_theme dark (codes "vs-dark")).colors
make_theme-kept_example = make_theme-kept dark (codes "vs-dark") dark-IsPalette

-- The first rule of the theme, found twice.
abbrev default_rule : ThemeRule
default_rule = record { token = []; foreground = codes "FCFCFA"; font_style = none }
