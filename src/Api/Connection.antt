-- ===== src/Api/Connection.antt =====
-- A connection to the event stream: the whole of `stream` of web/app/src/shared/api.ts, with what the
-- request and each read end in. The reader itself is `pump` of Stream.antt.
pub mod Aborted
use zero_code.Base.{
  Bool, true, false, not, ◌&&◌, ◌||◌, List, [], ◌∷◌, ◌++◌, Option, none, some, if◌then◌else◌,
}
use zero_code.Base.Text.{Text, codes}
use zero_code.Api.Stream.{SseEvent, Read, drain, read_frames}

-- `reader.read()`, which gives something or throws; a failure says whether the caller has aborted by
-- then.
pub data Reading : Type 0 where
  got : Read → Reading
  broke : Text → Bool → Reading

-- The request, which throws or gives a response; and whether the caller has aborted by then.
pub data Reply : Type 0 where
  unreachable : Text → Reply
  response : (ok has_body : Bool) → (status : Text) → Reply

-- What the handlers were called with: `onEvent`, and `onError` at most once.
pub record Called {ℓ} (Json : Type ℓ) : Type ℓ where
  pub events : List (SseEvent Json)
  pub error : Option Text

-- `if (!aborted) onError(e)`
abbrev pub caught : Text → Bool → Option Text
caught e aborted = if aborted then none else some e

module _ {ℓ} {Json : Type ℓ} (json_parse : Text → Option Json) where
  abbrev pub and_then : List (SseEvent Json) → Called Json → Called Json
  and_then es c = record { events = es ++ c.events; error = c.error }

  -- The `for (;;)` loop, which ends where nothing is left to read.
  unfoldable pub read_all : Text → List Reading → Called Json
  unfolding drain
  read_all buf [] = record { events = []; error = none }
  read_all buf (broke e aborted ∷ rs) = record { events = []; error = caught e aborted }
  read_all buf (got r ∷ rs) = elim (r.done || r.aborted) [
    | true ↦ record { events = []; error = none }
    | false ↦
        let d = drain (buf ++ r.chunk) in and_then (read_frames json_parse d.0) (read_all d.1 rs)
  ]

  -- `stream`
  unfoldable pub stream : Reply → Bool → List Reading → Called Json
  unfolding read_all
  stream (unreachable e) aborted rs = record { events = []; error = caught e aborted }
  stream (response ok has_body status) aborted rs =
      if not ok || not has_body
      then record { events = []; error = caught (codes "stream HTTP " ++ status) aborted }
      else read_all [] rs
