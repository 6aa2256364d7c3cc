-- ===== src/Editor/Palette.antt =====
-- The colours of the editor: `Palette` and `DARK` of web/app/src/playground/monaco-theme.ts.
use zero_code.Base.Text.{Text, codes}

pub record Palette : Type 0 where
  pub bg : Text
  pub bg_panel : Text
  pub bg_line : Text
  pub bg_selection : Text
  pub bg_selection_dim : Text
  pub cursor : Text
  pub gutter_dim : Text
  pub gutter_active : Text
  pub fg : Text
  pub fg_dim : Text
  pub pink : Text
  pub green : Text
  pub yellow : Text
  pub orange : Text
  pub purple : Text
  pub blue : Text
  pub comment : Text
  pub error : Text
  pub find_match : Text
  pub find_match_hi : Text
  pub range_hi : Text
  pub minimap_find : Text
  pub scroll_shadow : Text
  pub slider : Text
  pub slider_hover : Text
  pub slider_active : Text
  pub sticky : Text
  pub focus_border : Text

abbrev pub dark : Palette
dark = record {
  bg = codes "#221F22";
  bg_panel = codes "#2D2A2E";
  bg_line = codes "#383539";
  bg_selection = codes "#4A474B";
  bg_selection_dim = codes "#3D3A3F";
  cursor = codes "FFD866";
  gutter_dim = codes "#5B595C";
  gutter_active = codes "#C1C0C0";
  fg = codes "FCFCFA";
  fg_dim = codes "939293";
  pink = codes "FF6188";
  green = codes "A9DC76";
  yellow = codes "FFD866";
  orange = codes "FC9867";
  purple = codes "AB9DF2";
  blue = codes "78DCE8";
  comment = codes "727072";
  error = codes "FF6188";
  find_match = codes "#FFD86640";
  find_match_hi = codes "#FFD86620";
  range_hi = codes "#3D3A3F44";
  minimap_find = codes "#FFD86680";
  scroll_shadow = codes "#1c1a1c";
  slider = codes "#3D3A3F88";
  slider_hover = codes "#4A474BAA";
  slider_active = codes "#5B595CCC";
  sticky = codes "#26232688";
  focus_border = codes "#FFD86655";
}
