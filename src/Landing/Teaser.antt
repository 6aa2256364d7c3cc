-- ===== src/Landing/Teaser.antt =====
-- The demonstration on the landing page: web/app/src/landing/playground-teaser.tsx.
pub mod Runs
use zero_code.Base.{
  ℕ, zero, suc, ◌+◌, Bool, true, false, not, ◌&&◌, ◌||◌, List, [], ◌∷◌, ◌++◌, map, Option, none,
  some, if◌then◌else◌, length, take, any, leb, ltb, ◌==◌, is_empty, replicate,
}
use zero_code.Base.Text.{Text, codes, text_eq, starts_with}

-- A line of the program, with its indentation as a number of steps.
pub record CodeLine : Type 0 where
  pub tx : Text
  pub i : ℕ

-- `TEASER_CODE_LINES`, where a missing `i` is 0.
abbrev pub code_lines : List CodeLine
code_lines =
    record { tx = codes "fn fibonacci(n: u32) -> u64 {"; i = 0 }
    ∷ record { tx = codes "    let (mut a, mut b) = (0u64, 1u64);"; i = 1 }
    ∷ record { tx = codes "    for _ in 0..n {"; i = 1 }
    ∷ record { tx = codes "        (a, b) = (b, a + b);"; i = 2 }
    ∷ record { tx = codes "    }"; i = 1 }
    ∷ record { tx = codes "    a"; i = 1 }
    ∷ record { tx = codes "}"; i = 0 }
    ∷ record { tx = []; i = 0 }
    ∷ record { tx = codes "fn main() {"; i = 0 }
    ∷ record { tx = codes "    for n in 0..10 {"; i = 1 }
    ∷ record { tx = codes "        println!(\"fib({n}) = {}\", fibonacci(n));"; i = 2 }
    ∷ record { tx = codes "    }"; i = 1 }
    ∷ record { tx = codes "}"; i = 0 }
    ∷ []

-- `'    '.repeat(l.i || 0) + l.tx`
unfoldable pub indented : CodeLine → Text
indented l = replicate (l.i + l.i + l.i + l.i) b' ' ++ l.tx

-- `\w`
abbrev pub is_word : ℕ → Bool
is_word c =
    (leb b'a' c && leb c b'z')
    || (leb b'A' c && leb c b'Z')
    || (leb b'0' c && leb c b'9')
    || c == b'_'

abbrev pub wrap : Text → Text → Text
wrap class s = codes "<span class=\"" ++ class ++ codes "\">" ++ s ++ codes "</span>"

-- `.replace(/\b(…)\b/g, …)` for words only: each longest run of word characters that passes the test is
-- wrapped. The first argument is the run so far.
unfoldable pub replace_words : (Text → Bool) → Text → Text → Text → Text
replace_words test class run [] = if test run then wrap class run else run
replace_words test class run (c ∷ cs) = elim (is_word c) [
  | true ↦ replace_words test class (run ++ c ∷ []) cs
  | false ↦ (if test run then wrap class run else run) ++ c ∷ replace_words test class [] cs
]

abbrev pub one_of : List Text → Text → Bool
one_of ws w = any (text_eq w) ws

abbrev pub is_number : Text → Bool
is_number w = not (is_empty w) && not (any (λ c. not (leb b'0' c && leb c b'9')) w)

-- `.replace(/"([^"]*)"/g, …)`; the second argument is what follows an open quote.
unfoldable pub replace_strings : Option Text → Text → Text
replace_strings none [] = []
replace_strings (some body) [] = b'"' ∷ body
replace_strings none (c ∷ cs) = elim (c == b'"') [
  | true ↦ replace_strings (some []) cs
  | false ↦ c ∷ replace_strings none cs
]
replace_strings (some body) (c ∷ cs) = elim (c == b'"') [
  | true ↦ wrap (codes "str") (b'"' ∷ body ++ b'"' ∷ []) ++ replace_strings none cs
  | false ↦ replace_strings (some (body ++ c ∷ [])) cs
]

-- Wraps what the measure gives a length to, from left to right; the second argument counts the letters
-- that are already wrapped.
unfoldable pub replace_at : (Text → ℕ) → Text → ℕ → Text → Text
replace_at measure class k [] = []
replace_at measure class (suc k) (c ∷ cs) = replace_at measure class k cs
replace_at measure class zero (c ∷ cs) = elim (measure (c ∷ cs)) [
  | zero ↦ c ∷ replace_at measure class zero cs
  | suc n ↦ wrap class (take (suc n) (c ∷ cs)) ++ replace_at measure class n cs
]

-- `println!|format!`
abbrev pub macro_length : Text → ℕ
macro_length s =
    if starts_with (codes "println!") s then 8 else if starts_with (codes "format!") s then 7 else 0

-- `(fibonacci|main)(?=\()`
abbrev pub call_length : Text → ℕ
call_length s =
    if starts_with (codes "fibonacci(") s then 9 else if starts_with (codes "main(") s then 4 else 0

abbrev pub keyword_list : List Text
keyword_list =
    codes "fn" ∷ codes "let" ∷ codes "mut" ∷ codes "for" ∷ codes "in" ∷ codes "return" ∷ []

abbrev pub type_list : List Text
type_list = codes "u32" ∷ codes "u64" ∷ codes "i32" ∷ []

-- The replacements, each on what the one before it left.
unfoldable pub colorize : Text → Text
unfolding replace_words replace_strings replace_at text_eq
colorize line =
    let keywords = replace_words (one_of keyword_list) (codes "kw") [] line in
    let types = replace_words (one_of type_list) (codes "ty") [] keywords in
    let numbers = replace_words is_number (codes "num") [] types in
    let strings = replace_strings none numbers in
    let macros = replace_at macro_length (codes "mac") 0 strings in
    replace_at call_length (codes "fn") 0 macros

-- `FIB_OUTPUT`
abbrev pub fib_output : List Text
fib_output =
    codes "fib(0) = 0"
    ∷ codes "fib(1) = 1"
    ∷ codes "fib(2) = 1"
    ∷ codes "fib(3) = 2"
    ∷ codes "fib(4) = 3"
    ∷ codes "fib(5) = 5"
    ∷ codes "fib(6) = 8"
    ∷ codes "fib(7) = 13"
    ∷ codes "fib(8) = 21"
    ∷ codes "fib(9) = 34"
    ∷ []

pub data Phase : Type 0 where
  idle queued processing accepted : Phase

abbrev pub same_phase : Phase → Phase → Bool
same_phase idle idle = true
same_phase queued queued = true
same_phase processing processing = true
same_phase accepted accepted = true
same_phase _ _ = false

pub record Metrics : Type 0 where
  pub time : Text
  pub mem : Text
  pub token : Text

-- The state of the component; `ticks` is the `i` of the interval that is set.
pub record Teaser : Type 0 where
  pub phase : Phase
  pub out_idx : ℕ
  pub metrics : Metrics
  pub ticks : Option ℕ

abbrev pub initial : Teaser
initial = record {
  phase = idle;
  out_idx = 0;
  metrics = record { time = codes "—"; mem = codes "—"; token = codes "—" };
  ticks = none;
}

abbrev pub interval_of : Phase → Option ℕ
interval_of processing = some 0
interval_of _ = none

-- `setPhase`, and the effect on the phase: the interval of the last phase is cleared, and set anew while
-- processing.
unfoldable pub set_phase : Phase → Teaser → Teaser
set_phase ph s =
    if same_phase ph s.phase then s else record s { phase = ph; ticks = interval_of ph }

-- `run`, for the phase of the render that the callback was made in.
unfoldable pub run : Phase → Text → Teaser → Teaser
unfolding set_phase
run captured token s =
    if not (same_phase captured idle) && not (same_phase captured accepted)
    then s
    else set_phase queued (record s {
      out_idx = 0;
      metrics = record { time = codes "—"; mem = codes "—"; token = token };
    })

-- The callback of the interval.
unfoldable pub tick : Teaser → Teaser
unfolding set_phase
tick s = elim s.ticks [
  | none ↦ s
  | some i ↦
      if ltb (length fib_output) (suc i)
      then set_phase accepted
          (record s { metrics = record s.metrics { time = codes "0.014 s"; mem = codes "3.2 MB" } })
      else record s { out_idx = suc i; ticks = some (suc i) }
]

-- What happens: a click, the timer of the first render, the timer of a run, a tick.
pub data Event : Type 0 where
  clicked started : Text → Event
  promoted ticked : Event

unfoldable pub handle : Event → Teaser → Teaser
unfolding run tick set_phase
handle (clicked token) s = run s.phase token s
handle (started token) s = run idle token s
handle promoted s = set_phase processing s
handle ticked s = tick s

-- The output and the caret.
unfoldable pub shown_output : Teaser → List Text
shown_output s = take s.out_idx fib_output

unfoldable pub busy : Teaser → Bool
busy s = same_phase s.phase queued || same_phase s.phase processing
