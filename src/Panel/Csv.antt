-- ===== src/Panel/Csv.antt =====
-- `parseCSV` and `exportCSV` of web/app/src/playground/TestsPanel.tsx, over rows of a test case's
-- two texts.
pub mod Fields
pub mod RoundTrip
use zero_code.Base.{
  ℕ, Bool, true, false, not, ◌&&◌, ◌||◌, List, [], ◌∷◌, ◌++◌, map, ◌==◌, if◌then◌else◌, any,
  is_empty,
}
use zero_code.Base.Text.{Text, codes, text_eq, join_with}

-- `{ stdin: string; expected: string }`
pub record Case : Type 0 where
  pub stdin : Text
  pub expected : Text

abbrev pub quote : ℕ
quote = b'"'

abbrev pub comma : ℕ
comma = b','

abbrev pub lf : ℕ
lf = b'\n'

abbrev pub cr : ℕ
cr = b'\r'

-- The variables of the scan.
pub record Scan : Type 0 where
  pub rows : List (List Text)
  pub row : List Text
  pub field : Text
  pub in_quote : Bool

abbrev pub initial : Scan
initial = record { rows = []; row = []; field = []; in_quote = false }

-- The closures `push` and `flush`.
abbrev pub push : Scan → Scan
push p = record p { row = p.row ++ p.field ∷ []; field = [] }

abbrev pub flush : Scan → Scan
flush p = record p { rows = if is_empty p.row then p.rows else p.rows ++ p.row ∷ []; row = [] }

abbrev pub add : Scan → ℕ → Scan
add p c = record p { field = p.field ++ c ∷ [] }

-- One round of the loop that consumes one character.
unfoldable pub step : Scan → ℕ → Scan
step p c =
    if p.in_quote
    then (if c == quote then record p { in_quote = false } else add p c)
    else if c == quote
    then record p { in_quote = true }
    else if c == comma
    then push p
    else if c == cr
    then p
    else if c == lf
    then flush (push p)
    else add p c

-- What follows the loop, up to the list of rows.
unfoldable pub finish : Scan → List (List Text)
finish p = if not (is_empty p.field) || not (is_empty p.row) then (flush (push p)).rows else p.rows

-- The loop; a doubled quote inside quotes takes two characters.
unfoldable pub scan : Scan → Text → List (List Text)
unfolding step finish
scan p [] = finish p
scan p (c ∷ []) = finish (step p c)
scan p (c ∷ d ∷ cs) = elim (p.in_quote && (c == quote && d == quote)) [
  | true ↦ scan (add p quote) cs
  | false ↦ scan (step p c) (d ∷ cs)
]

abbrev lower : ℕ → ℕ
lower c =
    if (c == b'S')
    then b's'
    else if c == b'T'
    then b't'
    else if c == b'D'
    then b'd'
    else if c == b'I'
    then b'i'
    else if c == b'N'
    then b'n'
    else c

-- `/^stdin$/i.test(s)`
pub is_header : Text → Bool
is_header s = text_eq (map lower s) (codes "stdin")

-- `rows[0][0] || ''`
abbrev pub first_cell : List Text → Text
first_cell [] = []
first_cell (s ∷ r) = s

-- `const [stdin = '', expected = ''] = row`
abbrev pub to_case : List Text → Case
to_case [] = record { stdin = []; expected = [] }
to_case (s ∷ []) = record { stdin = s; expected = [] }
to_case (s ∷ e ∷ r) = record { stdin = s; expected = e }

-- The negation of `stdin === '' && expected === ''`.
abbrev pub is_real : Case → Bool
is_real t = not (is_empty t.stdin) || not (is_empty t.expected)

unfoldable pub to_cases : List (List Text) → List Case
to_cases [] = []
to_cases (r ∷ rs) = let rest = to_cases rs in if is_real (to_case r) then to_case r ∷ rest else rest

unfoldable pub drop_header : List (List Text) → List (List Text)
unfolding is_header
drop_header [] = []
drop_header (r ∷ rs) = if is_header (first_cell r) then rs else r ∷ rs

unfoldable pub parse_csv : Text → List Case
unfolding scan to_cases drop_header
parse_csv src = to_cases (drop_header (scan initial src))

-- `/[",\n]/.test(s)`
abbrev pub needs_quotes : Text → Bool
needs_quotes = any (λ c. c == quote || c == comma || c == lf)

-- `s.replace(/"/g, '""')`
unfoldable pub double_quotes : Text → Text
double_quotes [] = []
double_quotes (c ∷ cs) =
    let rest = double_quotes cs in if c == quote then quote ∷ quote ∷ rest else c ∷ rest

unfoldable pub esc : Text → Text
unfolding double_quotes
esc s = if needs_quotes s then quote ∷ (double_quotes s ++ quote ∷ []) else s

unfoldable pub export_row : Case → Text
unfolding esc
export_row t = esc t.stdin ++ comma ∷ esc t.expected

unfoldable pub export_csv : List Case → Text
unfolding export_row join_with
export_csv ts = join_with lf (codes "stdin,expected" ∷ map export_row ts) ++ lf ∷ []
