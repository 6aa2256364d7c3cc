-- ===== src/App/Tabs.antt =====
-- The tabs of the output pane: `OutputPane` of web/app/src/playground/App.tsx. A render runs the
-- effects whose dependencies changed, in their order.
pub mod Shown
pub mod Picked
use zero_code.Base.{
  ℕ, Bool, true, false, not, ◌&&◌, ◌||◌, List, [], ◌∷◌, Option, none, some, ◌==◌, if◌then◌else◌,
  ltb, length, is_empty,
}
use zero_code.Base.Text.{Text, text_eq}
use zero_code.Api.Status.{StatusKind, idle, queued, accepted, ce, re, nze, tle, mle, se, ole, tag}

pub data OutputTab : Type 0 where
  stdout stderr compile meta : OutputTab

abbrev pub same_tab : OutputTab → OutputTab → Bool
same_tab stdout stdout = true
same_tab stderr stderr = true
same_tab compile compile = true
same_tab meta meta = true
same_tab _ _ = false

-- `Record<OutputTab, boolean>`
pub record Marks : Type 0 where
  pub on_stdout : Bool
  pub on_stderr : Bool
  pub on_compile : Bool
  pub on_meta : Bool

abbrev pub no_marks : Marks
no_marks = record { on_stdout = false; on_stderr = false; on_compile = false; on_meta = false }

-- `unseen[tab]`
abbrev pub marked : OutputTab → Marks → Bool
marked stdout m = m.on_stdout
marked stderr m = m.on_stderr
marked compile m = m.on_compile
marked meta m = m.on_meta

-- `{ ...u, [tab]: false }`
abbrev pub unmark : OutputTab → Marks → Marks
unmark stdout m = record m { on_stdout = false }
unmark stderr m = record m { on_stderr = false }
unmark compile m = record m { on_compile = false }
unmark meta m = record m { on_meta = false }

-- The properties that the effects read.
pub record Props : Type 0 where
  pub status : StatusKind
  pub stderr : List Text
  pub compile_output : Text

-- The state and the refs.
pub record Pane : Type 0 where
  pub tab : OutputTab
  pub user_picked : Bool
  pub prev_status : StatusKind
  pub prev_stderr_len : ℕ
  pub prev_compile_len : ℕ
  pub unseen : Marks

abbrev pub is_queued : StatusKind → Bool
is_queued queued = true
is_queued _ = false

-- The first effect, on the status: a new run.
unfoldable pub reset_run : Props → Pane → Pane
reset_run p s =
    if is_queued p.status && not (is_queued s.prev_status)
    then record s {
      user_picked = false;
      prev_stderr_len = 0;
      prev_compile_len = 0;
      unseen = no_marks;
      tab = stdout;
      prev_status = p.status;
    }
    else record s { prev_status = p.status }

-- An automatic switch to a tab, or its mark where the user has picked another; `seen` is the tab
-- that the render showed.
abbrev pub surface : OutputTab → Marks → OutputTab → Pane → Pane
surface target marks seen s =
    if not s.user_picked
    then record s { tab = target }
    else if same_tab seen target
    then s
    else record s { unseen = marks }

-- The effect on the compile output.
unfoldable pub follow_compile : OutputTab → Props → Pane → Pane
follow_compile seen p s =
    let len = length p.compile_output in
    let moved =
      if ltb s.prev_compile_len len
      then surface compile (record s.unseen { on_compile = true }) seen s
      else if len == 0 && same_tab seen compile
      then record s { tab = stdout }
      else s in
    record moved { prev_compile_len = len }

-- The effect on the length of stderr.
unfoldable pub follow_stderr : OutputTab → Props → Pane → Pane
follow_stderr seen p s =
    let len = length p.stderr in
    let moved =
      if ltb s.prev_stderr_len len && s.prev_stderr_len == 0
      then surface stderr (record s.unseen { on_stderr = true }) seen s
      else s in
    record moved { prev_stderr_len = len }

abbrev pub stderr_or_meta : Props → OutputTab
stderr_or_meta p = if is_empty p.stderr then meta else stderr

-- The tab that a status leads to, where it leads to one.
abbrev pub tab_for : StatusKind → Props → Option OutputTab
tab_for accepted p = some stdout
tab_for ce p = some (if is_empty p.compile_output then stderr_or_meta p else compile)
tab_for re p = some (stderr_or_meta p)
tab_for nze p = some (stderr_or_meta p)
tab_for tle p = some (stderr_or_meta p)
tab_for mle p = some (stderr_or_meta p)
tab_for se p = some (stderr_or_meta p)
tab_for ole p = some (stderr_or_meta p)
tab_for _ p = none

abbrev pub go_to : Option OutputTab → Pane → Pane
go_to none s = s
go_to (some t) s = record s { tab = t }

-- The second effect on the status.
unfoldable pub route : Props → Pane → Pane
route p s = if s.user_picked then s else go_to (tab_for p.status p) s

-- The effect on the tab, which runs in the render that shows a new one.
unfoldable pub see : OutputTab → Pane → Pane
see before s = if same_tab before s.tab then s else record s { unseen = unmark s.tab s.unseen }

-- An effect runs where its dependency is not the same as in the render before.
abbrev pub unless : Bool → (Pane → Pane) → Pane → Pane
unless true effect s = s
unless false effect s = effect s

-- A render with new properties, and the one that its changes of state bring about.
unfoldable pub render : Props → Props → Pane → Pane
unfolding reset_run follow_compile follow_stderr route see text_eq tag
render old p s =
    let same_status = text_eq (tag old.status) (tag p.status) in
    let same_compile = text_eq old.compile_output p.compile_output in
    let same_stderr = length old.stderr == length p.stderr in
    see s.tab (
      unless same_status (route p) (
        unless same_stderr (follow_stderr s.tab p)
          (unless same_compile (follow_compile s.tab p) (unless same_status (reset_run p) s))))

-- `pickTab`, and the render that follows.
unfoldable pub pick_tab : OutputTab → Pane → Pane
unfolding see
pick_tab t s = see s.tab (record s { user_picked = true; tab = t })

-- The tabs on offer.
unfoldable pub offered : Props → OutputTab → Bool
offered p compile = not (is_empty p.compile_output)
offered p _ = true
