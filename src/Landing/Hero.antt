-- ===== src/Landing/Hero.antt =====
-- The terminal of the landing page: its texts and its timers, web/app/src/landing/hero.tsx. A timer is
-- its delay in milliseconds and what it does; timers fire in the order of their delays.
pub mod Typing
use zero_code.Base.{
  ℕ, suc, Bool, true, false, ◌+◌, ◌*◌, ◌-◌, List, [], ◌∷◌, ◌++◌, Option, none, some, length, take,
}
use zero_code.Base.Text.{Text, codes}

-- `CURL`
abbrev pub curl : Text
curl =
    codes
      "curl -X POST https://api.example.com/v1/submissions?wait=true \\\n  -d '{\"language_id\":71,\"source_code\":\"print(\\\"hello, sandbox\\\")\"}'"

-- `OUTPUT_LINES`: the colour and the text.
abbrev pub output_lines : List (Text × Text)
output_lines =
    (codes "st-queued", codes "⟶ queued · token zc_a3f29c8b")
    ∷ (codes "st-queued", codes "⟶ processing · worker-1 claimed")
    ∷ (codes "fg-1", codes "hello, sandbox")
    ∷ (codes "st-accepted", codes "✓ accepted · 47 ms wall · 8.2 MB mem")
    ∷ []

-- The state; `show_out` is the index of the last line shown, where none is -1.
pub record Terminal : Type 0 where
  pub typed : Text
  pub show_out : Option ℕ
  pub restart : ℕ

-- What a timer does.
pub data Job : Type 0 where
  type_to show_line : ℕ → Job
  start_over : Job

unfoldable pub fire : Job → Terminal → Terminal
fire (type_to i) s = record s { typed = take i curl }
fire (show_line i) s = record s { show_out = some i }
fire start_over s = record s { restart = s.restart + 1 }

abbrev pub char_ms : ℕ
char_ms = 14

-- The first loop, from a count of letters on.
unfoldable pub typing : ℕ → Text → List (ℕ × Job)
typing i [] = []
typing i (c ∷ cs) = (i * char_ms, type_to i) ∷ typing (suc i) cs

abbrev pub after_type : ℕ
after_type = length curl * char_ms + 320

-- The second loop, from the index of a line on.
unfoldable pub showing : ℕ → List (Text × Text) → List (ℕ × Job)
showing i [] = []
showing i (l ∷ ls) = (after_type + i * 480, show_line i) ∷ showing (suc i) ls

-- The timers that the effect sets, in order.
unfoldable pub timers : List (ℕ × Job)
unfolding typing showing
timers =
    typing 1 curl
    ++ showing 0 output_lines
    ++ (after_type + length output_lines * 480 + 3600, start_over) ∷ []

-- The effect: what is shown at once, and the timers that are set.
unfoldable pub on_start : (reduced_motion : Bool) → Terminal → Terminal × List (ℕ × Job)
unfolding timers
on_start false s = (record s { typed = []; show_out = none }, timers)
on_start true s = (record s { typed = curl; show_out = some (length output_lines - 1) }, [])

-- After some timers.
unfoldable pub after : List (ℕ × Job) → Terminal → Terminal
unfolding fire
after [] s = s
after ((delay, job) ∷ rest) s = after rest (fire job s)
