-- ===== src/App/Bar.antt =====
-- The bar above the editor, the list of languages, the stdin pane and the splitters: `WorkspaceBar`,
-- `LanguagePicker`, `StdinPanel`, `ThemeToggle`, `Splitter` and `formatMem` of
-- web/app/src/playground/App.tsx.
pub mod Offers
pub mod Follows
pub mod Units
mod Tests
use zero_code.Base.{
  ℕ, zero, suc, ◌+◌, ◌-◌, ◌*◌, ◌/◌, Bool, true, false, not, ◌&&◌, ◌||◌, List, [], ◌∷◌, ◌++◌, map,
  Option, none, some, if◌then◌else◌, length, is_empty, ltb, ◌==◌, keep, min, max, or_else,
}
use zero_code.Base.Text.{Text, codes, text_eq, occurs}
use zero_code.Api.Status.{StatusKind, queued, processing, accepted, tle}
use zero_code.Catalog.{langs}
use zero_code.Catalog.Types.{Lang}
use zero_code.App.Run.{HistoryEntry}
use zero_code.App.Session.{RunLimits, Ceilings}
use zero_code.App.Layout.{Drag, forward, back}

-- `RunMode`, as the text that is stored; a cast lets any text through.
abbrev pub single : Text
single = codes "single"

-- The initial `runMode`: what is stored, unless that is missing or empty or the storage throws.
unfoldable pub load_mode : Option (Option Text) → Text
load_mode none = single
load_mode (some none) = single
load_mode (some (some [])) = single
load_mode (some (some (c ∷ cs))) = c ∷ cs

-- `isRunning`
unfoldable pub is_running : StatusKind → Bool
is_running queued = true
is_running processing = true
is_running _ = false

-- The buttons on the right of the bar.
pub data Button : Type 0 where
  limits_button share_button format_button reset_button : Button
  cancel_button demo_button run_button : Button

abbrev pub run_buttons : Bool → Bool → List Button
run_buttons true api_online = cancel_button ∷ []
run_buttons false true = run_button ∷ []
run_buttons false false = demo_button ∷ run_button ∷ []

-- The buttons that are there, each with whether it is disabled.
unfoldable pub bar_buttons : Text → Bool → StatusKind → List (Button × Bool)
unfolding is_running text_eq
bar_buttons mode api_online status =
    (limits_button, false)
    ∷ (share_button, false)
    ∷ (format_button, is_running status)
    ∷ (reset_button, is_running status)
    ∷ (if text_eq mode single
        then map (λ b. (b, false)) (run_buttons (is_running status) api_online)
        else [])

abbrev pub run_label : Bool → Text
run_label true = codes "run · ⌘↵"
run_label false = codes "connect api"

-- What `getBoundingClientRect` gives of the button, in pixels.
pub record Rect : Type 0 where
  pub bottom : ℕ
  pub right : ℕ

pub record Position : Type 0 where
  pub top : ℕ
  pub right : ℕ

-- The state of the bar.
pub record Bar : Type 0 where
  pub show_limits : Bool
  pub copied : Bool
  pub limits_pos : Position

abbrev pub initial_bar : Bar
initial_bar = record {
  show_limits = false;
  copied = false;
  limits_pos = record { top = 80; right = 14 };
}

-- `handleShare`, and what its timer does.
abbrev pub handle_share : Bar → Bar
handle_share b = record b { copied = true }

abbrev pub share_timer : Bar → Bar
share_timer b = record b { copied = false }

-- `toggleLimits`, for the width of the window. Where the button reaches beyond the window the
-- difference is below 0, and the maximum is 8 all the same.
unfoldable pub toggle_limits : Option Rect → ℕ → Bar → Bar
toggle_limits rect width b = record b {
  show_limits = not b.show_limits;
  limits_pos = if b.show_limits then b.limits_pos else placed rect;
}
  where
    placed : Option Rect → Position
    placed none = b.limits_pos
    placed (some r) = record { top = r.bottom + 8; right = max 8 (width - r.right) }

abbrev pub close_limits : Bar → Bar
close_limits b = record b { show_limits = false }

-- A slider of the popover.
pub record Slider : Type 0 where
  pub lowest : ℕ
  pub highest : ℕ
  pub step : ℕ
  pub position : ℕ

abbrev pub default_ceilings : Ceilings
default_ceilings = record { memory_mb = 2048; time_s = 60 }

unfoldable pub memory_slider : Option Ceilings → RunLimits → Slider
memory_slider c l =
    let highest = (or_else c default_ceilings).memory_mb in
    record { lowest = 16; highest = highest; step = 16; position = min l.memory_mb highest }

unfoldable pub time_slider : Option Ceilings → RunLimits → Slider
time_slider c l =
    let highest = (or_else c default_ceilings).time_s in
    record { lowest = 1; highest = highest; step = 1; position = min l.time_s highest }

-- The text of `stdin`'s head, and whether its button is disabled.
unfoldable pub stdin_meta : (ℕ → Text) → Text → Text × Bool
stdin_meta show [] = (codes "empty", true)
stdin_meta show (c ∷ cs) = (show (length (c ∷ cs)) ++ codes " chars", false)

-- The label and the title of the button of `ThemeToggle`.
unfoldable pub toggle_texts : Text → Text × Text
unfolding text_eq
toggle_texts theme =
    if text_eq theme (codes "light")
    then (codes "Switch to dark theme", codes "Dark mode")
    else (codes "Switch to light theme", codes "Light mode")

module _ (to_lower : Text → Text) (show_id : ℕ → Text) where
  -- The test of `filtered`.
  unfoldable pub matches_query : Text → Lang → Bool
  unfolding occurs
  matches_query q l = occurs (to_lower q) (to_lower l.name) || occurs q (show_id l.id)

  -- `filtered`
  unfoldable pub filtered : (Text → Text → Bool) → Text → List Lang
  unfolding matches_query langs
  filtered name_le q = keep (matches_query q) (langs name_le)

-- The class of a run in the history, and its text.
unfoldable pub history_class : StatusKind → Text
history_class accepted = codes "ok"
history_class tle = codes "tle"
history_class _ = codes "re"

-- A drag of a splitter: `none` while the button is up, else the last position of the mouse along the
-- axis, counted from where no position is negative.
abbrev pub Grip : Type 0
Grip = Option ℕ

pub data Mouse : Type 0 where
  down move_to : ℕ → Mouse
  up : Mouse

-- `curr - prev`, unless it is 0.
unfoldable pub delta : ℕ → ℕ → Option Drag
delta prev curr =
    if curr == prev
    then none
    else some (if ltb prev curr then forward (curr - prev) else back (prev - curr))

-- `onMouseDown`, `onMove` and `onUp`: the grip afterwards, and what `onDrag` is called with.
unfoldable pub on_mouse : Mouse → Grip → Grip × Option Drag
unfolding delta
on_mouse (down at) grip = (some at, none)
on_mouse up grip = (none, none)
on_mouse (move_to curr) none = (none, none)
on_mouse (move_to curr) (some prev) = (some curr, delta prev curr)

abbrev pub drags_of : Option Drag → List Drag → List Drag
drags_of none ds = ds
drags_of (some d) ds = d ∷ ds

-- What a sequence of mouse events calls `onDrag` with, in order.
unfoldable pub drags : List Mouse → Grip → List Drag
unfolding on_mouse
drags [] grip = []
drags (e ∷ es) grip = let (next, d) = on_mouse e grip in drags_of d (drags es next)

-- An amount of memory as `formatMem` writes it: whole bytes, kilobytes with a decimal or whole, or
-- megabytes with a decimal or whole. An amount with a decimal is in tenths.
pub data Amount : Type 0 where
  whole_bytes kb_tenths whole_kb mb_tenths whole_mb : ℕ → Amount

-- `formatMem` of the memory of a run, which is a whole number of KiB divided by 1024: `Math.round` and
-- `toFixed(1)` take the nearest value, and the larger of two.
unfoldable pub format_kib : ℕ → Amount
format_kib kib =
    if ltb kib 1
    then whole_bytes (kib * 1024)
    else if ltb kib 1024
    then (if ltb kib 10 then kb_tenths (kib * 10) else whole_kb kib)
    else if ltb kib (100 * 1024)
    then mb_tenths ((kib * 10 + 512) / 1024)
    else whole_mb ((kib + 512) / 1024)
