-- ===== src/Editor/Tokens.antt =====
-- The tokens of the shell grammar against the rules of the theme.
use mathlib.Core.List.{Memᴰ}
use zero_code.Base.{
  and_parts, ◌≡◌, refl, sym, ap, ◌∙◌, Bool, true, false, not, ◌&&◌, ◌||◌, List, [], ◌∷◌, ◌++◌, any,
}
use zero_code.Base.Text.{Text, codes, text_eq, text_eq_refl, starts_with}
use zero_code.Catalog.Pick.{distinct, alike}
use zero_code.Editor.Monarch.{Rule, match, include, token, tokens, cases, token_next}
use zero_code.Editor.Shell.{shell_states}
use zero_code.Editor.Palette.{Palette}
use zero_code.Editor.ThemeRules.{ThemeRule, theme_rules}
use zero_code.Editor.ThemeColors.{make_theme}

abbrev case_tokens : List (Text × Text) → List Text
case_tokens [] = []
case_tokens ((guard, k) ∷ rest) = k ∷ case_tokens rest

abbrev rule_tokens : Rule → List Text
rule_tokens (match p (token k)) = k ∷ []
rule_tokens (match p (tokens ks)) = ks
rule_tokens (match p (cases cs)) = case_tokens cs
rule_tokens (match p (token_next k t)) = k ∷ []
rule_tokens (include t) = []

abbrev rules_tokens : List Rule → List Text
rules_tokens [] = []
rules_tokens (r ∷ rs) = rule_tokens r ++ rules_tokens rs

-- The tokens that the rules of a grammar name.
abbrev pub grammar_tokens : List (Text × List Rule) → List Text
grammar_tokens [] = []
grammar_tokens ((s, rules) ∷ rest) = rules_tokens rules ++ grammar_tokens rest

-- The rule is for the token or for the words before one of its dots.
abbrev pub is_for : Text → ThemeRule → Bool
is_for k r = text_eq r.token k || starts_with (r.token ++ codes ".") k

-- A theme's rule that is not the default text's is for the token of the shell grammar.
abbrev pub themed : List ThemeRule → Text → Bool
themed rules k = any (λ r. is_for (k ++ codes ".shell") r && not (text_eq r.token [])) rules

-- What carries no text of its own: blanks, words without a role, and brackets, whose token is the
-- bracket's.
abbrev pub unstyled : Text → Bool
unstyled k = text_eq k [] || text_eq k (codes "white") || text_eq k (codes "@brackets")

abbrev all_themed : List ThemeRule → List Text → Bool
all_themed rules [] = true
all_themed rules (k ∷ ks) = (unstyled k || themed rules k) && all_themed rules ks

styled_or : (a b : Bool) (rest : Bool) → (a || b) && rest ≡ true → a ≡ false → b ≡ true
styled_or true b rest h e = cc
styled_or false true rest h e = refl
styled_or false false rest h e = cc

themed-Mem :
    (rules : List ThemeRule) (ks : List Text) (k : Text)
    → all_themed rules ks ≡ true
    → Memᴰ k ks
    → unstyled k ≡ false
    → themed rules k ≡ true
unfolding text_eq
themed-Mem rules [] k h m e = elim m [ ]
themed-Mem rules (x ∷ ks) k h (Memᴰ.head same) e =
    ap (themed rules) same
    ∙ styled_or (unstyled x) (themed rules x) (all_themed rules ks) h (ap unstyled (sym same) ∙ e)
themed-Mem rules (x ∷ ks) k h (Memᴰ.tail m) e =
    themed-Mem rules ks k (and_parts (unstyled x || themed rules x) (all_themed rules ks) h).1 m e

shell_themed : (p : Palette) → all_themed (theme_rules p) (grammar_tokens shell_states) ≡ true
unfolding text_eq
shell_themed p = refl

-- Every token that the shell grammar names has a rule of the theme besides the default text's, for any
-- palette, but for blanks, words without a role and brackets.
pub themed-make_theme :
    (p : Palette) (base_theme k : Text)
    → Memᴰ k (grammar_tokens shell_states)
    → unstyled k ≡ false
    → themed (make_theme p base_theme).rules k ≡ true
themed-make_theme p base_theme k m e =
    themed-Mem (theme_rules p) (grammar_tokens shell_states) k (shell_themed p) m e

abbrev same_token : ThemeRule → ThemeRule → Bool
same_token r s = text_eq r.token s.token

rules_distinct : (p : Palette) → distinct same_token (theme_rules p) ≡ true
unfolding text_eq
rules_distinct p = refl

-- No two rules of the theme are for the same token.
pub make_theme-token :
    (p : Palette) (base_theme : Text) (r s : ThemeRule)
    → Memᴰ r (make_theme p base_theme).rules
    → Memᴰ s (make_theme p base_theme).rules
    → r.token ≡ s.token
    → s ≡ r
make_theme-token p base_theme r s m n e =
    alike same_token (theme_rules p) r s (rules_distinct p) m n
      (ap (text_eq r.token) (sym e) ∙ text_eq_refl r.token)
      (ap (text_eq s.token) e ∙ text_eq_refl s.token)
