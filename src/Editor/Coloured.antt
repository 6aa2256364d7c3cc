-- ===== src/Editor/Coloured.antt =====
-- What holds of the editor's theme for any colours that keep the convention of the palette.
use zero_code.Base.{◌≡◌, true, false, All}
use zero_code.Base.Text.{Text, codes, starts_with}
use zero_code.Editor.Palette.{Palette}
use zero_code.Editor.ThemeRules.{ThemeRule}
use zero_code.Editor.ThemeColors.{make_theme}

abbrev pub Hashed : Text → Type 0
Hashed s = starts_with (codes "#") s ≡ true

abbrev pub Bare : Text → Type 0
Bare s = starts_with (codes "#") s ≡ false

-- Surfaces carry the leading number sign, hues of tokens do not.
pub record IsPalette (p : Palette) : Type 0 where
  pub bg_kept : Hashed p.bg
  pub bg_panel_kept : Hashed p.bg_panel
  pub bg_line_kept : Hashed p.bg_line
  pub bg_selection_kept : Hashed p.bg_selection
  pub bg_selection_dim_kept : Hashed p.bg_selection_dim
  pub cursor_kept : Bare p.cursor
  pub gutter_dim_kept : Hashed p.gutter_dim
  pub gutter_active_kept : Hashed p.gutter_active
  pub fg_kept : Bare p.fg
  pub fg_dim_kept : Bare p.fg_dim
  pub pink_kept : Bare p.pink
  pub green_kept : Bare p.green
  pub yellow_kept : Bare p.yellow
  pub orange_kept : Bare p.orange
  pub purple_kept : Bare p.purple
  pub blue_kept : Bare p.blue
  pub comment_kept : Bare p.comment
  pub error_kept : Bare p.error
  pub find_match_kept : Hashed p.find_match
  pub find_match_hi_kept : Hashed p.find_match_hi
  pub range_hi_kept : Hashed p.range_hi
  pub minimap_find_kept : Hashed p.minimap_find
  pub scroll_shadow_kept : Hashed p.scroll_shadow
  pub slider_kept : Hashed p.slider
  pub slider_hover_kept : Hashed p.slider_hover
  pub slider_active_kept : Hashed p.slider_active
  pub sticky_kept : Hashed p.sticky
  pub focus_border_kept : Hashed p.focus_border

abbrev pub BareRule : ThemeRule → Type 0
BareRule r = Bare r.foreground

abbrev pub HashedColor : Text × Text → Type 0
HashedColor c = Hashed c.1

-- In a theme from a palette that keeps the convention, the foreground of every rule is a bare hue and
-- every colour of the editor begins with the number sign.
pub make_theme-kept :
    (p : Palette) (base_theme : Text)
    → IsPalette p
    → All BareRule (make_theme p base_theme).rules
      × All HashedColor (make_theme p base_theme).colors
make_theme-kept p base_theme c = assumption
