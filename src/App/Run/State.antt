-- ===== src/App/Run/State.antt =====
-- The state of a run and what the callbacks do to it before the first answer: the view, `clearResults`,
-- `cancelRun`, `recordHistory` and the beginning of `runOnApi` of web/app/src/playground/App.tsx.
use zero_code.Base.{
  Bool, true, false, ◌||◌, List, [], ◌∷◌, Option, none, some, if◌then◌else◌, take, is_empty,
}
use zero_code.Base.Text.{Text, codes}
use zero_code.Api.Status.{
  StatusKind, idle, queued, processing, cancelled, Json, str, obj, get_member,
}
use zero_code.Panel.Cases.{Number}

pub record HistoryEntry : Type 0 where
  pub name : Text
  pub verdict : StatusKind
  pub time : Option Number
  pub token : Text

pub record RunMetrics : Type 0 where
  pub time : Option Number
  pub memory : Option Number
  pub exit_code : Option Number
  pub signal : Option Text

-- `sub.signal?.name ?? (typeof sub.signal === 'string' ? sub.signal : null)`
unfoldable pub signal_name : Option Json → Option Text
unfolding get_member
signal_name (some (str s)) = some s
signal_name (some (obj ms)) = string_member (get_member (codes "name") ms)
  where
    string_member : Option Json → Option Text
    string_member (some (str s)) = some s
    string_member _ = none
signal_name _ = none

pub data ErrorMessage : Type 0 where
  submit_failed stream_error poll_failed : Text → ErrorMessage
  no_token no_api_reachable : ErrorMessage

-- What the user sees of a run.
pub record View : Type 0 where
  pub status : StatusKind
  pub status_detail : Option Text
  pub output : List Text
  pub stderr : List Text
  pub compile_output : Text
  pub metrics : RunMetrics
  pub token : Text
  pub history : List HistoryEntry
  pub error : Option ErrorMessage

-- The view with the variables that the callbacks of one run share: `runCtlRef` holds the controller,
-- its signal is aborted, `cancelStreamRef` holds the stream, `onError` waits for `poll`, and the closure's
-- own variables.
pub record Run : Type 0 where
  pub view : View
  pub held : Bool
  pub aborted : Bool
  pub streaming : Bool
  pub polling : Bool
  pub tkn : Text
  pub stdout_buf : Text
  pub stderr_buf : Text
  pub finished : Bool

unfoldable pub clear_results : View → View
clear_results v = record v {
  status = idle;
  status_detail = none;
  output = [];
  stderr = [];
  compile_output = [];
  metrics = record { time = none; memory = none; exit_code = none; signal = none };
  error = none;
}

abbrev pub is_busy : StatusKind → Bool
is_busy queued = true
is_busy processing = true
is_busy _ = false

-- `cancelRun`
unfoldable pub cancel_run : Run → Run
cancel_run r = record r { streaming = false; aborted = r.aborted || r.held; held = false }

-- The cancel button, and the key: `cancelRun`, and the status if a run is shown.
unfoldable pub on_cancel : Run → Run
unfolding cancel_run
on_cancel r =
    let c = cancel_run r in
    if is_busy c.view.status then record c { view = record c.view { status = cancelled } } else c

-- `recordHistory`; `Date.now()` is left out.
unfoldable pub record_history : Text → StatusKind → Option Number → Text → View → View
record_history name kind time token v = record v {
  history =
      take 20 (record { name = name; verdict = kind; time = time; token = token } ∷ v.history);
}

-- `.filter((_, i, a) => i < a.length - 1 || a[i] !== '')`: an empty last line goes.
unfoldable pub drop_last_empty : List Text → List Text
drop_last_empty [] = []
drop_last_empty (l ∷ []) = if is_empty l then [] else l ∷ []
drop_last_empty (l ∷ m ∷ ls) = l ∷ drop_last_empty (m ∷ ls)

-- The beginning of `runOnApi`.
unfoldable pub start : View → Run
unfolding clear_results
start v = record {
  view = record (clear_results v) { status = queued };
  held = true;
  aborted = false;
  streaming = false;
  polling = false;
  tkn = [];
  stdout_buf = [];
  stderr_buf = [];
  finished = false;
}

-- When React runs an updater that `setOutput` or `setStderr` is given: at the call, which it does only
-- while nothing waits to be rendered, or when it renders.
pub data Moment : Type 0 where
  at_call at_render : Moment

pub record Updaters : Type 0 where
  pub stdout_at : Moment
  pub stderr_at : Moment

-- `if (stdoutBuf.length) { setOutput(p => [...p, stdoutBuf]); stdoutBuf = ''; }`: what the updater adds. It
-- reads the variable, which is empty again when React renders.
unfoldable pub last_line : Moment → Text → List Text
last_line moment [] = []
last_line at_call (c ∷ cs) = (c ∷ cs) ∷ []
last_line at_render (c ∷ cs) = [] ∷ []
