-- ===== src/App/Run.antt =====
-- One run of the playground: `clearResults`, `cancelRun`, `applySubmissionView`, `recordHistory` and
-- `runOnApi` of web/app/src/playground/App.tsx. Each function is what one callback does to the
-- state, from the click to the last answer; the view is what is shown when React has rendered.
pub mod State
pub mod Cancel
pub mod Split
pub mod Streamed
use mathlib.Core.Option
use zero_code.Base.{
  ℕ, Bool, true, false, not, ◌&&◌, ◌||◌, List, [], ◌∷◌, ◌++◌, Option, none, some, if◌then◌else◌,
  take, is_empty, is_some,
}
use zero_code.Base.Text.{Text, codes, text_eq}
use zero_code.Api.Status.{
  StatusKind, idle, queued, processing, accepted, ce, re, se, cancelled, ApiStatus, absent, text,
  object, Json, null, bool, num, str, arr, obj, get_member, member_text, status_kind, status_detail,
}
use zero_code.Api.Stream.{SseEvent}
use zero_code.Api.Poll.{Answer, ok, failed, Outcome, returned, stopped, threw, waiting}
use zero_code.Panel.Diff.{split_lines}
use zero_code.Panel.Cases.{Number}
use zero_code.Panel.Run.{SubmissionView, decoded}
unfoldable pub use State.*
use zero_code.App.Lines.{flush_lines}

-- `apiStatusKind(s)` and `apiStatusDetail(s)` take whatever the event carries.
unfoldable pub to_status : Option Json → ApiStatus
unfolding get_member
to_status none = absent
to_status (some null) = absent
to_status (some (str s)) = text s
to_status (some (obj ms)) =
    object (member_text (get_member (codes "kind") ms)) (get_member (codes "detail") ms)
to_status (some _) = object [] none

-- `(json as T | null)?.key`
abbrev pub json_member : Text → Option Json → Option Json
json_member key (some (obj ms)) = get_member key ms
json_member key _ = none

pub data Heard : Type 0 where
  sse : SseEvent Json → Heard
  broke : Heard
  poll_ended : Outcome SubmissionView → Heard

-- `to_lower` is `toLowerCase`, `decode` the base64 decoder, `kib_to_mib` the division of a number by
-- 1024, `stringify` is `JSON.stringify` and `to_text` is `String`; `name` is the language's.
module _ (to_lower decode kib_to_mib : Text → Text) (stringify to_text : Json → Text)
    (name : Text) where
  abbrev pub text_lines : Text → List Text
  text_lines b = drop_last_empty (split_lines (decode b))

  -- `if (sub.stdout) setOutput(…)`: an empty or missing text leaves the lines as they are.
  abbrev pub shown_lines : Option Text → List Text → List Text
  shown_lines (some (c ∷ b)) old = text_lines (c ∷ b)
  shown_lines _ old = old

  abbrev pub shown_text : Option Text → Text → Text
  shown_text (some (c ∷ b)) old = decode (c ∷ b)
  shown_text _ old = old

  unfoldable pub apply_submission_view : SubmissionView → View → View
  unfolding drop_last_empty split_lines signal_name status_kind status_detail
  apply_submission_view sub v = record v {
    status = status_kind to_lower sub.status;
    status_detail = status_detail stringify to_text sub.status;
    output = shown_lines sub.stdout v.output;
    stderr = shown_lines sub.stderr v.stderr;
    compile_output = shown_text sub.compile_output v.compile_output;
    metrics = record {
      time = sub.wall_time;
      memory = Option.map kib_to_mib sub.memory;
      exit_code = sub.exit_code;
      signal = signal_name sub.signal;
    };
  }

  -- An answer that already ends the run.
  abbrev pub is_final_ack : SubmissionView → StatusKind → Bool
  is_final_ack ack accepted = true
  is_final_ack ack ce = true
  is_final_ack ack re = true
  is_final_ack ack _ = is_some ack.stdout

  abbrev pub acked : SubmissionView → StatusKind → View → View
  acked ack kind v = record_history name kind ack.wall_time ack.token (apply_submission_view ack v)

  -- The `catch` of the submission.
  abbrev pub submit_error : ErrorMessage → Run → Run
  submit_error message r =
      if r.aborted
      then r
      else record r { view = record r.view { status = se; error = some message }; held = false }

  -- Behind `await submit(…)`, up to the call of `stream` and the last line of `runOnApi`.
  unfoldable pub on_ack : Answer SubmissionView → Run → Run
  unfolding apply_submission_view record_history
  on_ack (failed message) r = submit_error (submit_failed message) r
  on_ack (ok ack) r =
      let kind = status_kind to_lower ack.status in
      let tokened = record r.view { token = ack.token } in
      if is_empty ack.token
      then submit_error no_token r
      else if is_final_ack ack kind
      then record r { view = acked ack kind tokened; tkn = ack.token; held = false }
      else record r {
        view = record tokened { status = processing };
        tkn = ack.token;
        streaming = true;
        held = true;
      }

  -- `json?.data ?? raw`
  abbrev pub chunk_or_raw : Option Json → Text → Text
  chunk_or_raw none raw = raw
  chunk_or_raw (some null) raw = raw
  chunk_or_raw (some (str s)) raw = s
  chunk_or_raw (some j) raw = to_text j

  abbrev pub chunk_of : SseEvent Json → Text
  chunk_of e = chunk_or_raw (json_member (codes "data") e.json) e.raw

  unfoldable pub on_stdout : Text → Run → Run
  unfolding flush_lines
  on_stdout chunk r =
      let f = flush_lines (r.stdout_buf ++ chunk) in
      record r { view = record r.view { output = r.view.output ++ f.0 }; stdout_buf = f.1 }

  unfoldable pub on_stderr : Text → Run → Run
  unfolding flush_lines
  on_stderr chunk r =
      let f = flush_lines (r.stderr_buf ++ chunk) in
      record r { view = record r.view { stderr = r.view.stderr ++ f.0 }; stderr_buf = f.1 }

  -- `apiGet(tkn).then(…).catch(…)`; `kind` is the one of the 'finished' event.
  unfoldable pub on_row : StatusKind → Answer SubmissionView → Run → Run
  unfolding apply_submission_view record_history
  on_row kind (failed message) r = record r { view = record_history name kind none r.tkn r.view }
  on_row kind (ok sub) r = if r.aborted then r else record r {
    view =
        record_history name (status_kind to_lower sub.status) sub.wall_time r.tkn
          (apply_submission_view sub r.view);
  }

  -- `onError` of the stream, up to `await poll(…)`.
  unfoldable pub on_error : Run → Run
  on_error r = if r.aborted || r.finished then r else record r { streaming = false; polling = true }

  -- What follows `await poll(…)`, with what that ended in; nothing while it goes on. What a
  -- poll throws that the signal has stopped is ignored, since the signal is aborted.
  unfoldable pub polled : Outcome SubmissionView → Run → Run
  unfolding apply_submission_view record_history
  polled (returned sub) r = if r.aborted then r else record r {
    view =
        record_history name (status_kind to_lower sub.status) sub.wall_time r.tkn
          (apply_submission_view sub r.view);
  }
  polled (threw message) r =
      if r.aborted
      then r
      else record r { view = record r.view { status = se; error = some (poll_failed message) } }
  polled stopped r = r
  polled waiting r = record r { polling = true }

  unfoldable pub on_poll : Outcome SubmissionView → Run → Run
  unfolding polled
  on_poll o r = if r.polling then polled o (record r { polling = false }) else r

  -- `react` says when React runs the updaters of the lines that are left over.
  module _ (react : Updaters) where
    -- The 'finished' branch, up to the request for the row.
    unfoldable pub on_finished : SseEvent Json → Run → Run
    unfolding status_kind status_detail to_status last_line
    on_finished e r =
        let s = to_status (json_member (codes "status") e.json) in
        record r {
          finished = true;
          stdout_buf = [];
          stderr_buf = [];
          streaming = false;
          view = record r.view {
            output = r.view.output ++ last_line react.stdout_at r.stdout_buf;
            stderr = r.view.stderr ++ last_line react.stderr_at r.stderr_buf;
            status = status_kind to_lower s;
            status_detail = status_detail stringify to_text s;
          };
        }

    -- `onEvent`
    unfoldable pub on_event : SseEvent Json → Run → Run
    unfolding on_stdout on_stderr on_finished text_eq
    on_event e r =
        if r.aborted
        then r
        else if text_eq e.event (codes "processing")
        then record r { view = record r.view { status = processing } }
        else if text_eq e.event (codes "stdout")
        then on_stdout (chunk_of e) r
        else if text_eq e.event (codes "stderr")
        then on_stderr (chunk_of e) r
        else if text_eq e.event (codes "finished")
        then on_finished e r
        else if text_eq e.event (codes "error")
        then record r { view = record r.view { error = some (stream_error e.raw) } }
        else r

    -- What a run may hear after it was submitted: an event of its stream, the failure of that, and the end
    -- of the poll.
    unfoldable pub hear : Heard → Run → Run
    unfolding on_event on_error on_poll
    hear (sse e) r = on_event e r
    hear broke r = on_error r
    hear (poll_ended o) r = on_poll o r
