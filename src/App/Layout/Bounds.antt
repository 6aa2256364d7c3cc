-- ===== src/App/Layout/Bounds.antt =====
-- The bounds of the sizes.
use zero_code.Base.{ℕ, ◌≡◌, ◌≤◌, ◌+◌, refl, some, arith}
use zero_code.App.Layout.{Layout, Axis, Drag, clamp, resize, load_layout, save_layout}

-- Every pane keeps its smallest size, and leaves the others theirs where the window is large enough
-- for both.
pub record Fits (width height : ℕ) (l : Layout) : Type 0 where
  pub rail_fits : (180 ≤ l.rail) × (l.rail ≤ 460)
  pub editor_fits : (140 ≤ l.editor) × (l.editor + 220 ≤ height)
  pub stdin_fits : (200 ≤ l.stdin_w) × (l.stdin_w + 480 ≤ width)
  pub history_fits : (60 ≤ l.history_h) × (l.history_h + 280 ≤ height)

-- In a window of at least 680 by 360 pixels no drag breaks the bounds of a pane.
pub resize-Fits :
    (width height : ℕ) (a : Axis) (d : Drag) (l : Layout)
    → 680 ≤ width
    → 360 ≤ height
    → Fits width height l
    → Fits width height (resize width height a d l)
unfolding resize clamp
resize-Fits w h Axis.rail d l x y f = record {
  rail_fits = (omega arith, omega arith);
  editor_fits = f.editor_fits;
  stdin_fits = f.stdin_fits;
  history_fits = f.history_fits;
}
resize-Fits w h Axis.editor d l x y f = record {
  rail_fits = f.rail_fits;
  editor_fits = (omega arith, omega arith);
  stdin_fits = f.stdin_fits;
  history_fits = f.history_fits;
}
resize-Fits w h Axis.stdin_w d l x y f = record {
  rail_fits = f.rail_fits;
  editor_fits = f.editor_fits;
  stdin_fits = (omega arith, omega arith);
  history_fits = f.history_fits;
}
resize-Fits w h Axis.history_h d l x y f = record {
  rail_fits = f.rail_fits;
  editor_fits = f.editor_fits;
  stdin_fits = f.stdin_fits;
  history_fits = (omega arith, omega arith);
}

-- A layout that is saved is loaded again.
load_layout-save_layout : (l : Layout) → load_layout (some (save_layout l)) ≡ l
unfolding load_layout save_layout
load_layout-save_layout l = refl
