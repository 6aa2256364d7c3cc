-- ===== src/App/Output.antt =====
-- What the output pane and the status strip show: the JSX of `OutputPane`, and `StatusStrip`, of
-- web/app/src/playground/App.tsx. How a number is written is a parameter.
pub mod Shows
use zero_code.Base.{
  ℕ, zero, suc, Bool, true, false, not, ◌&&◌, ◌||◌, List, [], ◌∷◌, ◌++◌, map, Option, none, some,
  if◌then◌else◌, length, is_empty, ltb, ◌==◌,
}
use zero_code.Base.Text.{Text, codes, split_on}
use zero_code.Api.Status.{StatusKind, idle, queued, processing, accepted}
use zero_code.Catalog.{verdict_label, verdict_color}
use zero_code.Catalog.Types.{Lang}
use zero_code.Panel.Cases.{Number}
use zero_code.App.Run.{RunMetrics}
use zero_code.App.Tabs.{OutputTab, stdout, stderr, compile, meta}

-- `tabs`: what is offered, with its name and its count.
unfoldable pub tabs : List Text → List Text → Text → List (OutputTab × Text × ℕ)
tabs output errors compile_output =
    (stdout, codes "stdout", length output)
      ∷ (stderr, codes "stderr", length errors)
      ∷ (if is_empty compile_output then [] else (compile, codes "compile", 1) ∷ [])
    ++ (meta, codes "meta", 0) ∷ []

-- A notice in place of lines.
pub data Notice : Type 0 where
  awaiting_first_run waiting_for_worker stdout_empty no_stderr no_compile_output : Notice

-- The body of a tab: notices above, lines, the caret, notices below.
pub record Body : Type 0 where
  pub above : List Notice
  pub shown_lines : List Text
  pub accepted_color : Bool
  pub caret : Bool
  pub below : List Notice

abbrev pub when : Bool → Notice → List Notice
when b n = if b then n ∷ [] else []

abbrev pub is_idle : StatusKind → Bool
is_idle idle = true
is_idle _ = false

abbrev pub is_queued : StatusKind → Bool
is_queued queued = true
is_queued _ = false

abbrev pub is_processing : StatusKind → Bool
is_processing processing = true
is_processing _ = false

abbrev pub is_accepted : StatusKind → Bool
is_accepted accepted = true
is_accepted _ = false

unfoldable pub stdout_body : StatusKind → List Text → Body
stdout_body status output = record {
  above =
      when (is_empty output && is_idle status) awaiting_first_run
      ++ when (is_queued status) waiting_for_worker;
  shown_lines = output;
  accepted_color = is_accepted status;
  caret = is_processing status;
  below =
      when
        (is_empty output
          && not (is_idle status)
          && not (is_queued status)
          && not (is_processing status))
        stdout_empty;
}

abbrev pub plain_body : List Notice → List Text → Body
plain_body notices ls = record {
  above = notices;
  shown_lines = ls;
  accepted_color = false;
  caret = false;
  below = [];
}

unfoldable pub stderr_body : List Text → Body
stderr_body [] = plain_body (no_stderr ∷ []) []
stderr_body (l ∷ ls) = plain_body [] (l ∷ ls)

-- `l || ' '`
abbrev pub or_space : Text → Text
or_space [] = codes " "
or_space (c ∷ cs) = c ∷ cs

unfoldable pub compile_body : Text → Body
unfolding split_on
compile_body [] = plain_body (no_compile_output ∷ []) []
compile_body (c ∷ cs) = plain_body [] (map or_space (split_on b'\n' (c ∷ cs)))

-- A status of a run that has ended: `isTerminal`.
abbrev pub has_ended : StatusKind → Bool
has_ended k = not (is_idle k || is_queued k || is_processing k)

-- `phases`
abbrev pub phases : List StatusKind
phases = queued ∷ processing ∷ accepted ∷ []

-- `phaseIdx`, where none is -1.
unfoldable pub phase_idx : StatusKind → Option ℕ
phase_idx idle = none
phase_idx queued = some 0
phase_idx processing = some 1
phase_idx _ = some 2

pub data Step : Type 0 where
  done active ahead : Step

-- The class of the step at a position.
unfoldable pub step_class : StatusKind → ℕ → Step
unfolding phase_idx
step_class status i = elim (phase_idx status) [
  | none ↦ ahead
  | some n ↦ if ltb i n then done else if i == n then active else ahead
]

abbrev pub dash : Text
dash = codes "—"

-- `exit · …`
unfoldable pub exit_text : StatusKind → RunMetrics → Text
exit_text status m = elim m.exit_code [
  | some n ↦ n
  | none ↦ if is_accepted status then codes "0" else dash
]

abbrev pub detail_suffix : Option Text → Text
detail_suffix none = []
detail_suffix (some []) = []
detail_suffix (some (c ∷ cs)) = codes " · " ++ c ∷ cs

-- The pill on the right: its text, and its three colours.
unfoldable pub pill_text : StatusKind → Option Text → Text
unfolding verdict_label
pill_text status detail =
    (if is_idle status then codes "ready" else verdict_label status) ++ detail_suffix detail

pub record PillColors : Type 0 where
  pub color : Text
  pub border : Text
  pub background : Text

unfoldable pub pill_colors : StatusKind → PillColors
unfolding verdict_color
pill_colors status = record {
  color = verdict_color status;
  border = if is_idle status then codes "var(--line)" else verdict_color status;
  background =
      if is_idle status
      then codes "transparent"
      else codes "color-mix(in oklab, " ++ verdict_color status ++ codes " 10%, transparent)";
}

-- `apiOnline ? 'live' : 'offline'`
abbrev pub net_text : Bool → Text
net_text true = codes "live"
net_text false = codes "offline"

module _ (fixed_3 : Number → Text) (format_mem : Option Number → Text) where
  -- `metrics.time != null ? metrics.time.toFixed(3) + unit : '—'`
  abbrev pub time_text : Text → Option Number → Text
  time_text unit none = dash
  time_text unit (some n) = fixed_3 n ++ unit

  abbrev pub exit_suffix : Option Number → Text
  exit_suffix none = []
  exit_suffix (some n) = codes " · exit " ++ n

  abbrev pub signal_suffix : Option Text → Text
  signal_suffix none = []
  signal_suffix (some []) = []
  signal_suffix (some (c ∷ cs)) = codes " · signal " ++ c ∷ cs

  -- The list of the tab `meta`.
  unfoldable pub meta_rows :
      (show_id : ℕ → Text)
      → StatusKind
      → Option Text
      → RunMetrics
      → Lang
      → Text
      → List (Text × Text)
  unfolding verdict_label
  meta_rows show_id status detail m lang token =
      (codes "token", token)
      ∷ (
        codes "verdict",
        verdict_label status
            ++ detail_suffix detail
            ++ exit_suffix m.exit_code
            ++ signal_suffix m.signal,
      )
      ∷ (codes "wall time", time_text (codes " s") m.time)
      ∷ (codes "memory peak", format_mem m.memory)
      ∷ (
        codes "language",
        lang.name ++ codes " · " ++ lang.version ++ codes " · id " ++ show_id lang.id,
      )
      ∷ (codes "runner", codes "zerocode-runner")
      ∷ (codes "sandbox", codes "8 layers · cgroup v2 · landlock")
      ∷ []

  -- The metrics of the strip.
  unfoldable pub strip_metrics : StatusKind → RunMetrics → List (Text × Text)
  unfolding exit_text
  strip_metrics status m =
      (codes "wall", time_text (codes "s") m.time)
      ∷ (codes "mem", format_mem m.memory)
      ∷ (codes "exit", exit_text status m)
      ∷ []
