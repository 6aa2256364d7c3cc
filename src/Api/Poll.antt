-- ===== src/Api/Poll.antt =====
-- The loops of `pollBatch` and `poll` of web/app/src/shared/api.ts. What the server answers and when
-- the caller aborts is a list of rounds; the loop ends with `waiting` where the list does.
pub mod Ends
use zero_code.Base.{ℕ, ◌+◌, Bool, true, false, ◌&&◌, ◌||◌, List, [], ◌∷◌, ◌==◌, if◌then◌else◌}
use zero_code.Base.Text.{Text}
use zero_code.Api.Status.{StatusKind, queued, processing}

pub data Answer {ℓ} (V : Type ℓ) : Type ℓ where
  ok : V → Answer V
  failed : (message : Text) → Answer V

-- One turn of the loop: was the signal aborted before it, what did the request give, and did the
-- signal abort during the wait that follows.
pub record Round {ℓ} (V : Type ℓ) : Type ℓ where
  pub aborted : Bool
  pub answer : Answer V
  pub interrupted : Bool

pub data Outcome {ℓ} (V : Type ℓ) : Type ℓ where
  returned : V → Outcome V
  stopped : Outcome V
  threw : (message : Text) → Outcome V
  waiting : Outcome V

-- `on_update` is the callback over the caller's state; it may abort the signal itself, which
-- `signalled` reads. A wait that begins after the abort is not cut short by it.
module _ {ℓ κ} {V : Type ℓ} {S : Type κ} (is_done : V → Bool) (on_update : V → S → S)
    (signalled : S → Bool) where
  -- Behind `onUpdate`: the test `pending === 0`, then the wait, then the next turn `k`.
  unfoldable pub settle : Bool → Bool → V → S → (S → Outcome V × S) → Outcome V × S
  settle true interrupted v s k = (returned v, s)
  settle false true v s k = (stopped, s)
  settle false false v s k = k s

  unfoldable pub turn : Bool → Answer V → Bool → S → (S → Outcome V × S) → Outcome V × S
  unfolding settle
  turn true answer interrupted s k = (stopped, s)
  turn false (failed message) interrupted s k = (threw message, s)
  turn false (ok v) interrupted s k = settle (is_done v) interrupted v (on_update v s) k

  unfoldable pub poll_with : List (Round V) → S → Outcome V × S
  unfolding turn
  poll_with [] s = (waiting, s)
  poll_with (r ∷ rs) s = turn (signalled s || r.aborted) r.answer r.interrupted s (poll_with rs)

-- `BatchSummary`
pub record BatchSummary : Type 0 where
  pub total : ℕ
  pub queued : ℕ
  pub processing : ℕ
  pub accepted : ℕ
  pub failed : ℕ

-- `pending === 0`
abbrev pub batch_done : BatchSummary → Bool
batch_done s = s.queued + s.processing == 0

-- `kind !== 'queued' && kind !== 'processing'`
abbrev pub kind_done : StatusKind → Bool
kind_done StatusKind.queued = false
kind_done StatusKind.processing = false
kind_done _ = true
