-- ===== src/App/Controls.antt =====
-- The buttons that change what is shown: those of the tabs of `OutputPane`, those of the modes in
-- `WorkspaceBar`, and its popover of limits, of web/app/src/playground/App.tsx.
pub mod Chosen
use zero_code.Base.{
  ℕ, Bool, true, false, not, ◌&&◌, List, [], ◌∷◌, ◌++◌, map, Option, none, some, if◌then◌else◌, ltb,
}
use zero_code.Base.Text.{Text, codes, text_eq}
use zero_code.App.Tabs.{OutputTab, Marks, same_tab, marked}
use zero_code.App.Output.{tabs}
use zero_code.App.Session.{RunLimits, Ceilings}

-- A button of the tabs: whether it is the active one, its dot for new content, its name, and the count.
pub record TabButton : Type 0 where
  pub is_active : Bool
  pub dot : Bool
  pub name : Text
  pub pill : Option ℕ

abbrev pub tab_button : OutputTab → Marks → OutputTab × Text × ℕ → TabButton
tab_button tab unseen (id, name, count) = record {
  is_active = same_tab tab id;
  dot = marked id unseen && not (same_tab tab id);
  name = name;
  pill = if ltb 0 count then some count else none;
}

unfoldable pub tab_buttons : OutputTab → Marks → List Text → List Text → Text → List TabButton
unfolding tabs
tab_buttons tab unseen output errors compile_output =
    map (tab_button tab unseen) (tabs output errors compile_output)

-- A button of the modes: whether it is active, and the mode that it chooses.
pub record ModeButton : Type 0 where
  pub is_active : Bool
  pub mode : Text

abbrev pub mode_button : Text → Text → ModeButton
unfolding text_eq
mode_button mode m = record { is_active = text_eq mode m; mode = m }

unfoldable pub mode_buttons : Text → List ModeButton
mode_buttons mode = map (mode_button mode) (codes "single" ∷ codes "tests" ∷ [])

-- The heading of the popover.
unfoldable pub limits_heading : Bool → Option Ceilings → Text
limits_heading true (some c) = codes "execution limits · server ceilings"
limits_heading _ _ = codes "execution limits · client defaults"

-- The labels of the sliders, and what a move of one sets.
unfoldable pub limits_labels : (ℕ → Text) → RunLimits → Text × Text
limits_labels show l = (show l.memory_mb ++ codes " MB", show l.time_s ++ codes " s")

abbrev pub set_memory : ℕ → RunLimits → RunLimits
set_memory n l = record l { memory_mb = n }

abbrev pub set_time : ℕ → RunLimits → RunLimits
set_time n l = record l { time_s = n }
