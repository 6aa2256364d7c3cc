-- ===== src/App/Run/Cancel.antt =====
-- What a cancelled run still does.
use zero_code.Base.{
  ◌≡◌, refl, ◌∙◌, true, false, List, [], ◌∷◌, ◌≤◌, length, arith, is_empty, ap, length-take, Option,
  Bool-cases, inl, inr,
}
use zero_code.Base.Text.{Text}
use zero_code.Api.Status.{StatusKind, Json, status_kind, processing, cancelled}
use zero_code.Api.Stream.{SseEvent}
use zero_code.Api.Poll.{Answer, ok, failed, Outcome, returned, stopped, threw, waiting}
use zero_code.Panel.Cases.{Number}
use zero_code.Panel.Run.{SubmissionView}
use zero_code.App.Run.{
  View, Run, Updaters, Heard, sse, broke, poll_ended, start, on_cancel, cancel_run, clear_results,
  is_final_ack, on_ack, on_event, on_error, polled, on_poll, hear, is_busy, record_history,
}

-- The history never grows past twenty entries, and its first entry is the newest.
pub length-record_history :
    (name : Text) (kind : StatusKind) (time : Option Number) (token : Text) (v : View)
    → length (record_history name kind time token v).history ≤ 20
unfolding record_history
length-record_history name kind time token v = omega (arith, length-take 19 v.history)

on_cancel-aborted : (r : Run) → r.held ≡ true → (on_cancel r).aborted ≡ true
unfolding on_cancel cancel_run
on_cancel-aborted r h = ground arith

on_cancel-not_busy : (r : Run) → is_busy (on_cancel r).view.status ≡ false
unfolding on_cancel cancel_run
on_cancel-not_busy r = ground arith

module _ (to_lower decode kib_to_mib : Text → Text) (stringify to_text : Json → Text) (name : Text)
    (react : Updaters) where
  abbrev ack : Answer SubmissionView → Run → Run
  ack = on_ack to_lower decode kib_to_mib stringify to_text name

  abbrev heard : Heard → Run → Run
  heard = hear to_lower decode kib_to_mib stringify to_text name react

  -- The events of a stream.
  abbrev pub on_events : List (SseEvent Json) → Run → Run
  on_events [] r = r
  on_events (e ∷ es) r =
      on_events es (on_event to_lower decode kib_to_mib stringify to_text name react e r)

  -- What a run hears, in whatever order.
  unfoldable pub hear_all : List Heard → Run → Run
  unfolding hear
  hear_all [] r = r
  hear_all (h ∷ hs) r = hear_all hs (heard h r)

  -- Two runs that differ at most in whether one waits for the poll.
  SameButPoll : Run → Run → Type 0
  SameButPoll q r = record q { polling = false } ≡ record r { polling = false }

  polled-aborted :
      (o : Outcome SubmissionView) (r : Run)
      → r.aborted ≡ true
      → SameButPoll (polled to_lower decode kib_to_mib stringify to_text name o r) r
  unfolding SameButPoll polled
  polled-aborted (returned sub) r a = rw a refl
  polled-aborted (threw message) r a = rw a refl
  polled-aborted stopped r a = refl
  polled-aborted waiting r a = refl

  hear-aborted : (h : Heard) (r : Run) → r.aborted ≡ true → SameButPoll (heard h r) r
  unfolding hear on_event on_error on_poll SameButPoll
  hear-aborted (sse e) r a = rw a refl
  hear-aborted broke r a = rw a refl
  hear-aborted (poll_ended o) r a = elim (Bool-cases r.polling) [
    | inl p ↦ rw p (polled-aborted o (record r { polling = false }) a)
    | inr p ↦ rw p refl
  ]

  hear_all-aborted : (hs : List Heard) (r : Run) → r.aborted ≡ true → SameButPoll (hear_all hs r) r
  unfolding hear_all SameButPoll
  hear_all-aborted [] r a = refl
  hear_all-aborted (h ∷ hs) r a =
      let e = hear-aborted h r a in
      hear_all-aborted hs (heard h r) (ap (λ (q : Run). q.aborted) e ∙ a) ∙ e

  -- A run that is cancelled while its controller is held, be its stream open or be it polling: whatever its
  -- stream, the failure of that or the poll still bring, in whatever order, the state stays as the
  -- cancellation left it, but for whether it waits for the poll, and the view does not read as busy.
  pub on_cancel-final :
      (hs : List Heard) (r : Run)
      → r.held ≡ true
      → (record (hear_all hs (on_cancel r)) { polling = false }
          ≡ record (on_cancel r) { polling = false })
        × (is_busy (on_cancel r).view.status ≡ false)
  unfolding SameButPoll
  on_cancel-final hs r h =
      (hear_all-aborted hs (on_cancel r) (on_cancel-aborted r h), on_cancel-not_busy r)

  -- The state in which a late answer finds a cancelled submission.
  late_ack :
      (v : View) (sub : SubmissionView)
      → is_empty sub.token ≡ false
      → is_final_ack to_lower decode kib_to_mib stringify to_text name sub
          (status_kind to_lower sub.status)
        ≡ false
      → ((ack (ok sub) (on_cancel (start v))).view.status ≡ processing)
        × ((ack (ok sub) (on_cancel (start v))).aborted ≡ true)
  unfolding on_ack on_cancel cancel_run start clear_results
  late_ack v sub t f = rw (t, f) (refl, refl)

  -- A run that is cancelled while it is being submitted, and refused by the server: nothing changes.
  pub on_ack-cancelled_failed :
      (v : View) (message : Text)
      → ((on_cancel (start v)).view.status ≡ cancelled)
        × (ack (failed message) (on_cancel (start v)) ≡ on_cancel (start v))
  unfolding on_cancel cancel_run start clear_results on_ack
  on_ack-cancelled_failed v message = (refl, refl)

  -- A run that is cancelled while it is being submitted, and then acknowledged with a token and no
  -- final answer: the view reads "processing", and nothing that the stream, its failure or a poll bring
  -- changes that.
  pub on_ack-cancelled_stuck :
      (v : View) (sub : SubmissionView) (hs : List Heard)
      → is_empty sub.token ≡ false
      → is_final_ack to_lower decode kib_to_mib stringify to_text name sub
          (status_kind to_lower sub.status)
        ≡ false
      → (hear_all hs (ack (ok sub) (on_cancel (start v)))).view.status ≡ processing
  unfolding SameButPoll
  on_ack-cancelled_stuck v sub hs t f =
      let (busy, ended) = late_ack v sub t f in
      let r = ack (ok sub) (on_cancel (start v)) in
      ap (λ (q : Run). q.view.status) (hear_all-aborted hs r ended) ∙ busy
