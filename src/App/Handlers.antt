-- ===== src/App/Handlers.antt =====
-- The handlers of the page between its renders: `run`, `runOnApiRef`, `onKey` and its effect, and what
-- `runOnApi` submits, in web/app/src/playground/App.tsx.
pub mod Current
mod Tests
use zero_code.Base.{
  same, ℕ, zero, suc, Bool, true, false, not, ◌&&◌, ◌||◌, List, [], ◌∷◌, Option, none, some,
  if◌then◌else◌,
}
use zero_code.Base.Text.{Text, codes, text_eq}
use zero_code.Api.Status.{StatusKind, cancelled, tag, Json, num, str, arr, nil, item}
use zero_code.Api.Key.{idem_key}
use zero_code.Api.Request.{SubmitParams, run_limits}
use zero_code.Catalog.Types.{Lang}
use zero_code.App.Run.{Run, View, start, cancel_run, no_api_reachable}
use zero_code.App.Session.{RunLimits, Session, select_lang, reset}

-- What `run` closes over. A status is the text that it is.
pub record Deps : Type 0 where
  pub status : Text
  pub api_online : Bool

-- What the handlers close over: the button's `run`, `runOnApiRef.current`, which stands for the session
-- of its render, and the `run` and the `status` of the listener for keys.
pub record Closures : Type 0 where
  pub run : Deps
  pub on_api : Session
  pub key_run : Deps
  pub key_status : Text

-- The state, how many calls of `run` wait for the probe, and what was submitted, the newest first.
pub record Core : Type 0 where
  pub session : Session
  pub api_online : Bool
  pub waiting : ℕ
  pub sent : List SubmitParams

-- What the user does, a change that a run makes, and the answers of the probes: to the one that
-- `probeApi` makes, and to the one that `run` makes behind it. A number is `Date.now()`.
pub data Event : Type 0 where
  type_code type_stdin : Text → Event
  put_limits : RunLimits → Event
  pick : Lang → Text → Event
  press_reset press_cancel key_cancel dismiss : Event
  shows : Run → Event
  connected : Bool → Event
  click key_enter : ℕ → Event
  answered : Bool → ℕ → Event

abbrev pub status_of : Session → Text
unfolding tag
status_of s = tag s.run.view.status

-- `status === 'queued' || status === 'processing'`
abbrev pub is_shown : Text → Bool
unfolding text_eq
is_shown t = text_eq t (codes "queued") || text_eq t (codes "processing")

abbrev pub with_run : Run → Core → Core
with_run r c = record c { session = record c.session { run = r } }

abbrev pub with_error : View → View
with_error v = record v { error = some no_api_reachable }

-- The button and the key: `cancelRun`, and the status if `status` is one of a run.
unfoldable pub cancel_for : Text → Core → Core
unfolding cancel_run text_eq
cancel_for status c =
    let r = cancel_run c.session.run in
    with_run
      (if is_shown status then record r { view = record r.view { status = cancelled } } else r) c

-- The first steps of `runOnApi`: the stream of the run before stays where it is.
unfoldable pub started : Run → Run
unfolding start
started r = record (start r.view) { streaming = r.streaming }

unfoldable pub same_deps : Deps → Deps → Bool
unfolding text_eq
same_deps d e = text_eq d.status e.status && same d.api_online e.api_online

abbrev pub deps : Core → Deps
unfolding tag
deps c = record { status = status_of c.session; api_online = c.api_online }

-- `useCallback`: the `run` of before where what it depends on has not changed.
unfoldable pub memo : Deps → Deps → Deps
unfolding same_deps
memo old new = if same_deps old new then old else new

-- The effect puts a new listener where `run` or `status` has changed.
unfoldable pub listen : Bool → Text → Deps → Closures → Closures
unfolding text_eq
listen kept status run k =
    if kept && text_eq k.key_status status
    then k
    else record k { key_run = run; key_status = status }

-- A render, and its effect.
unfoldable pub render : Core → Closures → Closures
unfolding same_deps memo listen text_eq tag
render c k =
    let run = memo k.run (deps c) in
    listen (same_deps k.run (deps c)) (status_of c.session) run
      (record k { run = run; on_api = c.session })

-- The first render.
unfoldable pub closures : Core → Closures
unfolding tag
closures c = record {
  run = deps c;
  on_api = c.session;
  key_run = deps c;
  key_status = status_of c.session;
}

pub record Page : Type 0 where
  pub core : Core
  pub held : Closures

unfoldable pub mount : Core → Page
unfolding closures
mount c = record { core = c; held = closures c }

-- `show` is `String`, and `stringify` is JSON.stringify.
module _ (show : ℕ → Text) (stringify : Json → Text) where
  -- The parts of the key.
  abbrev pub parts : Session → Json
  parts s = arr (
      item (num (show s.lang.id)) (
        item (str s.code) (
          item (str s.stdin)
            (item (num (show s.limits.memory_mb)) (item (num (show s.limits.time_s)) nil)))))

  -- The argument of `submit`.
  unfoldable pub submission : ℕ → Session → SubmitParams
  unfolding idem_key
  submission now s = record {
    language_id = s.lang.id;
    source_code = s.code;
    stdin = some s.stdin;
    limits = run_limits s.limits.time_s s.limits.memory_mb;
    callback_url = none;
    idempotency_key = some (idem_key (stringify (parts s)) now);
    wait = false;
  }

  -- `runOnApi` of a render, up to the request.
  unfoldable pub run_on_api : ℕ → Session → Core → Core
  unfolding submission started
  run_on_api now s c =
      with_run (started c.session.run) (record c { sent = submission now s ∷ c.sent })

  -- `run` up to its first await.
  unfoldable pub call_run : Deps → ℕ → Session → Core → Core
  unfolding run_on_api text_eq
  call_run d now s c =
      if is_shown d.status
      then c
      else if d.api_online
      then run_on_api now s c
      else record c { waiting = suc c.waiting }

  -- What `run` does when its own probe has answered.
  abbrev pub resume : Bool → ℕ → Session → Core → Core
  unfolding run_on_api
  resume ok now s c =
      if ok
      then run_on_api now s c
      else with_run (record c.session.run { view = with_error c.session.run.view }) c

  abbrev pub resume_one : ℕ → Bool → ℕ → Session → Core → Core
  resume_one zero ok now s c = c
  resume_one (suc n) ok now s c = resume ok now s (record c { waiting = n })

  -- An event, for the closures that its handler has.
  unfoldable pub happen : Closures → Event → Core → Core
  unfolding select_lang reset cancel_for call_run tag
  happen k (type_code t) c = record c { session = record c.session { code = t } }
  happen k (type_stdin t) c = record c { session = record c.session { stdin = t } }
  happen k (put_limits l) c = record c { session = record c.session { limits = l } }
  happen k (pick l token) c = record c { session = select_lang l token c.session }
  happen k press_reset c = record c { session = reset c.session }
  happen k press_cancel c = cancel_for k.run.status c
  happen k key_cancel c = cancel_for k.key_status c
  happen k dismiss c =
      with_run (record c.session.run { view = record c.session.run.view { error = none } }) c
  happen k (shows r) c = with_run r c
  happen k (connected ok) c = record c { api_online = ok }
  happen k (click now) c = call_run k.run now k.on_api c
  happen k (key_enter now) c = call_run k.key_run now k.on_api c
  happen k (answered ok now) c = resume_one c.waiting ok now k.on_api c

  -- An event, and the render after it.
  unfoldable pub handle : Event → Page → Page
  unfolding happen render
  handle e p = let c = happen p.held e p.core in record { core = c; held = render c p.held }

  unfoldable pub handle_all : List Event → Page → Page
  unfolding handle
  handle_all [] p = p
  handle_all (e ∷ es) p = handle_all es (handle e p)
