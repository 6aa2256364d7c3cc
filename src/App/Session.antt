-- ===== src/App/Session.antt =====
-- The session around the runs, web/app/src/playground/App.tsx: what it opens with, the choice of a
-- language, `reset`, `run`, the demonstration run without an API, and the ceilings of the limits.
pub mod Demo
use zero_code.Base.{
  ℕ, zero, suc, Bool, true, false, not, ◌||◌, List, [], ◌∷◌, ◌++◌, Option, none, some, ◌==◌,
  if◌then◌else◌, get_elem?, length, ltb, max, or_else,
}
use zero_code.Base.Text.{Text, codes}
use zero_code.Api.Status.{StatusKind, queued, processing, accepted}
use zero_code.Api.Config.{truthy}
use zero_code.Catalog.Types.{Lang}
use zero_code.Panel.Cases.{Number}
use zero_code.App.Run.{
  Run, View, RunMetrics, clear_results, cancel_run, record_history, is_busy, no_api_reachable,
}

pub record RunLimits : Type 0 where
  pub memory_mb : ℕ
  pub time_s : ℕ

-- `ShareHash`
pub record ShareHash : Type 0 where
  pub lang : Option Text
  pub token : Option Text
  pub code : Option Text
  pub stdin : Text

pub record Draft : Type 0 where
  pub lang_id : ℕ
  pub code : Text
  pub stdin : Text
  pub limits : Option RunLimits

-- What the user edits, and the run that is shown.
pub record Session : Type 0 where
  pub lang : Lang
  pub code : Text
  pub stdin : Text
  pub limits : RunLimits
  pub run : Run

-- `share?.code ?? draft?.code ?? initialLang.snippet`; a draft is only loaded where there is no link.
unfoldable pub initial_code : Option ShareHash → Option Draft → Lang → Text
initial_code (some h) d l = or_else h.code l.snippet
initial_code none (some d) l = d.code
initial_code none none l = l.snippet

unfoldable pub initial_stdin : Option ShareHash → Option Draft → Lang → Text
initial_stdin (some h) d l = h.stdin
initial_stdin none (some d) l = d.stdin
initial_stdin none none l = l.sample_stdin

abbrev pub limits_of : Option RunLimits → RunLimits
limits_of none = record { memory_mb = 1024; time_s = 30 }
limits_of (some l) = l

-- `selectLang`; `token` is the one drawn.
unfoldable pub select_lang : Lang → Text → Session → Session
unfolding cancel_run clear_results
select_lang l token s =
    let r = cancel_run s.run in
    record s {
      lang = l;
      code = l.snippet;
      stdin = l.sample_stdin;
      run = record r { view = record (clear_results r.view) { token = token } };
    }

-- `reset`
unfoldable pub reset : Session → Session
unfolding cancel_run clear_results
reset s =
    let r = cancel_run s.run in
    record s {
      code = s.lang.snippet;
      stdin = s.lang.sample_stdin;
      run = record r { view = clear_results r.view };
    }

-- `run`: nothing while a run is shown, else the API, or the message after a second probe.
pub data Click : Type 0 where
  ignored submits : Click
  complains : View → Click

unfoldable pub click_run : Bool → Bool → View → Click
click_run api_online probe_ok v =
    if is_busy v.status
    then ignored
    else if api_online || probe_ok
    then submits
    else complains (record v { error = some no_api_reachable })

-- `runSimulated` up to the timeout, and the timeout.
unfoldable pub demo_start : Text → View → View
unfolding clear_results
demo_start token v = record (clear_results v) { status = queued; token = token }

abbrev pub demo_running : View → View
demo_running v = record v { status = processing }

-- The interval of the demonstration: its counter, whether it is cleared, and the view.
pub record DemoRun : Type 0 where
  pub i : ℕ
  pub done : Bool
  pub view : View

abbrev pub shown_line : Option Text → List Text → List Text
shown_line none out = out
shown_line (some l) out = out ++ l ∷ []

unfoldable pub demo_tick : Lang → DemoRun → DemoRun
unfolding record_history
demo_tick l d =
    if d.done
    then d
    else if ltb (length l.output) (suc d.i)
    then record d {
      i = suc d.i;
      done = true;
      view = record_history l.name accepted (some l.metrics.time) d.view.token (record d.view {
        status = accepted;
        metrics = record {
          time = some l.metrics.time;
          memory = some l.metrics.memory;
          exit_code = some (codes "0");
          signal = none;
        };
      });
    }
    else record d {
      i = suc d.i;
      view = record d.view { output = shown_line (get_elem? l.output d.i) d.view.output };
    }

unfoldable pub demo_ticks : Lang → ℕ → DemoRun → DemoRun
unfolding demo_tick
demo_ticks l zero d = d
demo_ticks l (suc n) d = demo_ticks l n (demo_tick l d)

pub record Ceilings : Type 0 where
  pub memory_mb : ℕ
  pub time_s : ℕ

-- `LanguageSpec.default_limits`: the memory and the wall time, in whole units.
abbrev pub DefaultLimits : Type 0
DefaultLimits = Option ℕ × Option ℕ

unfoldable pub largest : List DefaultLimits → ℕ × ℕ → ℕ × ℕ
largest [] m = m
largest (l ∷ ls) m = largest ls (max m.0 (or_else l.0 0), max m.1 (or_else l.1 0))

abbrev pub or_default : ℕ → ℕ → ℕ
or_default n d = if n == 0 then d else n

-- The ceilings that `probeApi` takes from the languages.
unfoldable pub ceilings : List DefaultLimits → Ceilings
unfolding largest
ceilings ls =
    let m = largest ls (0, 0) in
    record { memory_mb = or_default m.0 2048; time_s = or_default m.1 60 }
