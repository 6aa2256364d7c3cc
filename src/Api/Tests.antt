-- ===== src/Api/Tests.antt =====
-- Tests of the API client, and the theorems about it at concrete inputs.
use zero_code.Base.{ℕ, ◌≡◌, refl, Bool, true, false, List, [], ◌∷◌, ◌++◌, map, Option, none, some}
use zero_code.Base.Text.{Text, codes}
use zero_code.Api.Stream.{Read, drain, read_frames, pump}
use zero_code.Api.Stream.Chunks.{pump-chunks, text_before_stop}
use zero_code.Api.Connection.{Reading, got, broke, unreachable, response, stream}
use zero_code.Api.Connection.Aborted.{stream-aborted, stream-broke}
use zero_code.Api.Key.{hash, idem_key}
use zero_code.Api.Key.Distinct.{idem_key-injective}
use zero_code.Api.Status.{object, status_kind, str, switch_kind, tle, text, status_label}
use zero_code.Api.Status.Contract.{is_pending, is_pending-status_kind, kind, time_limit_exceeded}
use zero_code.Api.Poll.{ok, Round, returned, poll_with}
use zero_code.Api.Poll.Ends.{poll_with-first_done}

abbrev live : Text → Read
live s = record { chunk = s; done = false; aborted = false }

abbrev closed : Read
closed = record { chunk = []; done = true; aborted = false }

abbrev reads : List Read
reads =
    live (codes "event: stdout\ndata: a\n")
    ∷ live (codes "\nevent: fin")
    ∷ live (codes "ished\n\nrest")
    ∷ closed
    ∷ []

abbrev no_json : Text → Option Text
no_json s = none

reads_events :
    pump no_json [] reads
    ≡ record { event = codes "stdout"; json = none; raw = codes "a" }
      ∷ record { event = codes "finished"; json = none; raw = [] }
      ∷ []
unfolding pump
reads_events = refl

pump-chunks_example : pump no_json [] reads ≡ read_frames no_json (drain (text_before_stop reads)).0
pump-chunks_example = pump-chunks no_json reads

abbrev same_text : Text → Text
same_text s = s

wire_time_limit : status_kind same_text (object (codes "time_limit_exceeded") none) ≡ tle
unfolding status_kind switch_kind
wire_time_limit = refl

label_time_limit : status_label same_text (text (codes "tle")) ≡ codes "time limit"
unfolding status_label
label_time_limit = refl

is_pending-status_kind_example :
    is_pending
      (status_kind same_text (object (kind time_limit_exceeded) (some (str (codes "wall")))))
    ≡ false
is_pending-status_kind_example =
    is_pending-status_kind same_text time_limit_exceeded (some (str (codes "wall")))

abbrev answered : Text → Round Text
answered s = record { aborted = false; answer = ok s; interrupted = false }

abbrev rounds : List (Round Text)
rounds = answered [] ∷ answered (codes "x") ∷ answered [] ∷ []

abbrev has_text : Text → Bool
has_text [] = false
has_text (c ∷ cs) = true

abbrev newest : Text → Text → Text
newest v s = v

abbrev never : Text → Bool
never s = false

poll_rounds : poll_with has_text newest never rounds [] ≡ (returned (codes "x"), codes "x")
unfolding poll_with
poll_rounds = refl

poll_with-first_done_example : (poll_with has_text newest never rounds []).0 ≡ returned (codes "x")
poll_with-first_done_example =
    poll_with-first_done has_text newest never rounds []
      (([], refl, refl, refl), ((codes "x", refl, refl, refl), (([], refl, refl, refl), tt)))
      (λ t. refl)

abbrev late_readings : List Reading
late_readings =
    broke (codes "AbortError") true
    ∷ got (record { chunk = codes "event: stdout\n\n"; done = false; aborted = true })
    ∷ []

stream-aborted_example :
    stream no_json (response true true (codes "200")) false (map got reads ++ late_readings)
    ≡ record { events = pump no_json [] reads; error = none }
stream-aborted_example = stream-aborted no_json (codes "200") reads late_readings (refl, (refl, tt))

stream-broke_example :
    (stream no_json
        (response true true (codes "404"))
        false
        (map got (live (codes "a") ∷ []) ++ broke (codes "reset") false ∷ [])
      ≡ record { events = pump no_json [] (live (codes "a") ∷ []); error = some (codes "reset") })
    × (stream no_json (unreachable (codes "reset")) false []
        ≡ record { events = []; error = some (codes "reset") })
    × ((has_body : Bool)
        → stream no_json (response false has_body (codes "404")) false []
          ≡ record { events = []; error = some (codes "stream HTTP 404") })
stream-broke_example =
    stream-broke no_json (codes "404") (live (codes "a") ∷ []) (codes "reset") [] (refl, tt)

key_test : idem_key (codes "a") 1000 ≡ codes "zc-ui-3t1g-rs"
unfolding idem_key
key_test = refl

idem_key-injective_example : (hash (codes "a") ≡ hash (codes "a")) × (◌≡◌ {A = ℕ} 1000 1000)
idem_key-injective_example = idem_key-injective (codes "a") (codes "a") 1000 1000 refl
