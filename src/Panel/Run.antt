-- ===== src/Panel/Run.antt =====
-- `applyView` and `runAll` of web/app/src/playground/TestsPanel.tsx. `decode` is the base64 decoder
-- of web/app/src/shared/api.ts and `to_lower` the engine's `toLowerCase`.
pub mod Verdict
pub mod Pairing
use zero_code.Base.{
  ℕ, zero, suc, ◌+◌, Bool, true, false, not, ◌&&◌, ◌||◌, List, [], ◌∷◌, map, Option, none, some,
  if◌then◌else◌, length, keep, any, is_empty, get_elem?,
}
use mathlib.Core.Option
use zero_code.Base.Text.{Text, text_eq, trim}
use zero_code.Api.Status.{
  StatusKind, queued, processing, accepted, ApiStatus, absent, text, object, Json, str, status_kind,
}
use zero_code.Api.Poll.{
  Answer, ok, failed, Round, Outcome, returned, stopped, threw, waiting, BatchSummary, batch_done,
  poll_with,
}
use zero_code.Panel.Compare.{ComparisonMode, compare}
use zero_code.Panel.Csv.{Case}
use zero_code.Panel.Cases.{
  Number, Passed, pass, fail, unchecked, TestCase, Panel, BatchError, no_api, no_source, no_case,
  run_failed, new_case, reset_case, is_real_case,
}

-- `SubmissionView`, as far as the panel reads it.
pub record SubmissionView : Type 0 where
  pub token : Text
  pub status : ApiStatus
  pub stdout : Option Text
  pub stderr : Option Text
  pub compile_output : Option Text
  pub exit_code : Option Number
  pub wall_time : Option Number
  pub memory : Option Number
  pub signal : Option Json

-- `tokenIds.indexOf(t)`
unfoldable pub index_of : Text → List Text → Option ℕ
unfolding text_eq
index_of t [] = none
index_of t (u ∷ us) =
    let rest = Option.map suc (index_of t us) in if text_eq u t then some 0 else rest

-- A detail that is no string is not shown here.
abbrev pub detail_string : ApiStatus → Option Text
detail_string (object k (some (str (c ∷ s)))) = some (c ∷ s)
detail_string _ = none

abbrev pub is_pending : StatusKind → Bool
is_pending queued = true
is_pending processing = true
is_pending _ = false

abbrev pub is_accepted : StatusKind → Bool
is_accepted accepted = true
is_accepted _ = false

unfoldable pub judge : ComparisonMode → StatusKind → Text → Text → Option Passed
unfolding compare
judge mode kind stdout expected =
    if is_pending kind
    then none
    else if is_empty expected
    then some unchecked
    else if not (is_accepted kind)
    then some fail
    else some (if compare stdout expected mode then pass else fail)

abbrev pub text_or_empty : Option Text → Text
text_or_empty none = []
text_or_empty (some t) = t

abbrev pub item_at : List SubmissionView → Option ℕ → Option SubmissionView
item_at items none = none
item_at items (some i) = get_elem? items i

-- The test of `stopOnFail` over the items of a view.
unfoldable pub any_failed : (Text → Text) → List SubmissionView → Bool
unfolding status_kind
any_failed to_lower =
    any λ it. let k = status_kind to_lower it.status in not (is_pending k) && not (is_accepted k)

module _ (to_lower decode : Text → Text) where
  -- `x != null ? decode(x) : ''`
  abbrev pub decoded : Option Text → Text
  decoded none = []
  decoded (some b) = decode b

  -- What `applyView` makes of a case and the item of its token.
  unfoldable pub apply_item : ComparisonMode → TestCase → SubmissionView → TestCase
  unfolding judge status_kind
  apply_item mode t sub =
      let kind = status_kind to_lower sub.status in
      let out = decoded sub.stdout in
      record t {
        status = some kind;
        status_detail = detail_string sub.status;
        stdout = some out;
        stderr = some (decoded sub.stderr);
        compile_output = some (decoded sub.compile_output);
        time = sub.wall_time;
        memory = sub.memory;
        exit_code = sub.exit_code;
        passed = judge mode kind out t.expected;
      }

  unfoldable pub apply_case : ComparisonMode → List SubmissionView → List Text → TestCase → TestCase
  unfolding apply_item index_of
  apply_case mode items tokens t = elim (item_at items (index_of (text_or_empty t.token) tokens)) [
    | none ↦ t
    | some sub ↦ apply_item mode t sub
  ]

  unfoldable pub apply_view : List SubmissionView → List Text → Panel → Panel
  unfolding apply_case
  apply_view items tokens p = record p { tests = map (apply_case p.mode items tokens) p.tests }

-- `setTests` behind the acknowledgement: the real cases take the tokens in order. A token that is
-- missing is undefined.
unfoldable pub assign_tokens : List Text → ℕ → List TestCase → List TestCase
assign_tokens tokens n [] = []
assign_tokens tokens n (t ∷ ts) =
    if is_real_case t
    then record t { token = get_elem? tokens n; status = some queued }
      ∷ assign_tokens tokens (suc n) ts
    else t ∷ assign_tokens tokens n ts

-- `runAll` up to its first `await`: a refusal, or the state while the batch is submitted and the
-- inputs that are sent.
pub data Start : Type 0 where
  refused : Panel → Start
  submitting : Panel → List Text → Start

unfoldable pub start_run : Bool → Text → Panel → Start
unfolding trim new_case
start_run api_online code p =
    let real_cases = keep is_real_case p.tests in
    if p.running
    then refused p
    else if not api_online
    then refused (record p { batch_error = some no_api })
    else if is_empty (trim code)
    then refused (record p { batch_error = some no_source })
    else if is_empty real_cases
    then refused (record p { batch_error = some no_case })
    else submitting
        (record p { batch_error = none; running = true; tests = map reset_case p.tests })
        (map (λ t. t.stdin) real_cases)

-- `BatchView`
pub record BatchView : Type 0 where
  pub items : List SubmissionView
  pub summary : BatchSummary

-- The state of the run: the panel, and whether `ctl` is aborted by `stopOnFail`.
pub record Running : Type 0 where
  pub panel : Panel
  pub aborted : Bool

module _ (to_lower decode : Text → Text) where
  -- The callback of `pollBatch`.
  unfoldable pub on_view : List Text → BatchView → Running → Running
  unfolding apply_view any_failed
  on_view tokens view r = record {
    panel = apply_view to_lower decode view.items tokens r.panel;
    aborted = r.aborted || (r.panel.stop_on_fail && any_failed to_lower view.items);
  }

  -- Behind the loop: the last sync, or the `catch`; an abort is silent.
  unfoldable pub conclude : List Text → Answer BatchView → Outcome BatchView → Panel → Panel
  unfolding apply_view
  conclude tokens (ok final) (returned v) p = apply_view to_lower decode final.items tokens p
  conclude tokens (failed message) (returned v) p = record p {
    batch_error = some (run_failed message);
  }
  conclude tokens final stopped p = p
  conclude tokens final (threw message) p = record p { batch_error = some (run_failed message) }
  conclude tokens final waiting p = p

  -- `setRunning(false)` of the `finally`, which a loop that still waits has not reached.
  abbrev pub finally : Outcome BatchView → Panel → Panel
  finally waiting p = p
  finally _ p = record p { running = false }

  abbrev pub finish_run : List Text → Answer BatchView → Outcome BatchView × Running → Panel
  finish_run tokens final (o, r) = finally o (conclude tokens final o r.panel)

  abbrev pub poll_run :
      Answer (List Text) → List (Round BatchView) → Answer BatchView → Panel → Panel
  poll_run (failed message) rounds final p = record p {
    batch_error = some (run_failed message);
    running = false;
  }
  poll_run (ok tokens) rounds final p = finish_run tokens final (
      poll_with (λ v. batch_done v.summary) (on_view tokens) (λ r. r.aborted) rounds
        (record { panel = record p { tests = assign_tokens tokens 0 p.tests }; aborted = false }))

  -- The whole of `runAll`: the answer to the submission, the rounds of polling, and the answer to
  -- the last request.
  unfoldable pub run_all :
      Bool → Text → Answer (List Text) → List (Round BatchView) → Answer BatchView → Panel → Panel
  unfolding start_run assign_tokens on_view conclude poll_with
  run_all api_online code ack rounds final p = elim (start_run api_online code p) [
    | refused q ↦ q
    | submitting q inputs ↦ poll_run ack rounds final q
  ]
