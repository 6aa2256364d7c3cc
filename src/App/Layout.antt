-- ===== src/App/Layout.antt =====
-- The sizes of the panes, web/app/src/playground/App.tsx: `clamp`, `loadLayout`, and what dragging a
-- splitter does. Sizes are pixels; a size below 0 is clamped like 0, since every lower bound is
-- above it.
pub mod Bounds
use zero_code.Base.{ℕ, ◌+◌, ◌-◌, Option, none, some, max, min, or_else}

pub record Layout : Type 0 where
  pub rail : ℕ
  pub editor : ℕ
  pub stdin_w : ℕ
  pub history_h : ℕ

abbrev pub layout_default : Layout
layout_default = record { rail = 240; editor = 420; stdin_w = 360; history_h = 200 }

-- `Partial<Layout>`; a member that is no number is none.
pub record Stored : Type 0 where
  pub rail : Option ℕ
  pub editor : Option ℕ
  pub stdin_w : Option ℕ
  pub history_h : Option ℕ

-- `loadLayout`; none where nothing is stored or it does not parse.
unfoldable pub load_layout : Option Stored → Layout
load_layout none = layout_default
load_layout (some v) = record {
  rail = or_else v.rail layout_default.rail;
  editor = or_else v.editor layout_default.editor;
  stdin_w = or_else v.stdin_w layout_default.stdin_w;
  history_h = or_else v.history_h layout_default.history_h;
}

-- `saveLayout`
unfoldable pub save_layout : Layout → Stored
save_layout l = record {
  rail = some l.rail;
  editor = some l.editor;
  stdin_w = some l.stdin_w;
  history_h = some l.history_h;
}

unfoldable pub clamp : ℕ → ℕ → ℕ → ℕ
clamp n lo hi = max lo (min hi n)

-- A drag by some pixels, forward or back.
pub data Drag : Type 0 where
  forward back : ℕ → Drag

abbrev pub move : Drag → ℕ → ℕ
move (forward d) n = n + d
move (back d) n = n - d

pub data Axis : Type 0 where
  rail editor stdin_w history_h : Axis

-- The handlers `onDrag` and `onResizeHistory`, in a window of the given size.
unfoldable pub resize : ℕ → ℕ → Axis → Drag → Layout → Layout
unfolding clamp
resize width height Axis.rail d l = record l { rail = clamp (move d l.rail) 180 460 }
resize width height Axis.editor d l = record l {
  editor = clamp (move d l.editor) 140 (height - 220);
}
resize width height Axis.stdin_w d l = record l {
  stdin_w = clamp (move d l.stdin_w) 200 (width - 480);
}
resize width height Axis.history_h d l = record l {
  history_h = clamp (move d l.history_h) 60 (height - 280);
}
