-- ===== src/Api/Stream.antt =====
-- `stream` of web/app/src/shared/api.ts: the hand-written SSE reader.
pub mod Chunks
use zero_code.Base.{
  ℕ, zero, suc, Bool, true, false, ◌&&◌, ◌||◌, List, [], ◌∷◌, ◌++◌, Option, none, some, ◌==◌,
  if◌then◌else◌, length, drop, is_empty,
}
use zero_code.Base.Text.{Text, codes, split_on, starts_with, trim}

-- What `onEvent` receives; `json` is null where the data is empty or is not JSON.
pub record SseEvent {ℓ} (Json : Type ℓ) : Type ℓ where
  pub event : Text
  pub json : Option Json
  pub raw : Text

-- The two variables `ev` and `data` of a frame.
pub record Fields : Type 0 where
  pub ev : Text
  pub payload : Text

abbrev pub newline : ℕ
newline = b'\n'

-- The text before the first "\n\n" and the text behind it: `indexOf`, `slice(0, i)`, `slice(i + 2)`.
abbrev pub cons_frame : ℕ → Option (Text × Text) → Option (Text × Text)
cons_frame c none = none
cons_frame c (some (f, rest)) = some (c ∷ f, rest)

unfoldable pub cut : Text → Option (Text × Text)
cut [] = none
cut (c ∷ []) = none
cut (c ∷ d ∷ cs) =
    let later = cons_frame c (cut (d ∷ cs)) in
    if c == newline && d == newline then some ([], cs) else later

-- The `while` loop over the buffer: the frames it completes, and the buffer that stays.
unfoldable pub cut_all : ℕ → Text → List Text × Text
cut_all zero buf = ([], buf)
cut_all (suc fuel) buf = elim (cut buf) [
  | none ↦ ([], buf)
  | some (f, rest) ↦ let r = cut_all fuel rest in (f ∷ r.0, r.1)
]

unfoldable pub drain : Text → List Text × Text
unfolding cut_all cut
drain buf = cut_all (length buf) buf

-- One line of a frame.
pub read_line : Fields → Text → Fields
unfolding trim
read_line f ln =
    if starts_with (codes "event:") ln
    then record f { ev = trim (drop 6 ln) }
    else if starts_with (codes "data:") ln
    then record f {
      payload = f.payload ++ (if is_empty f.payload then [] else newline ∷ []) ++ trim (drop 5 ln);
    }
    else f

pub read_lines : Fields → List Text → Fields
unfolding read_line
read_lines f [] = f
read_lines f (ln ∷ lns) = read_lines (read_line f ln) lns

-- What `reader.read()` gave, decoded, and whether the caller has aborted by then.
pub record Read : Type 0 where
  pub chunk : Text
  pub done : Bool
  pub aborted : Bool

module _ {ℓ} {Json : Type ℓ} (json_parse : Text → Option Json) where
  -- The body of the `while` loop for one frame; `none` is the `continue`.
  pub read_frame : Text → Option (SseEvent Json)
  unfolding read_lines split_on
  read_frame frame =
      let f = read_lines (record { ev = codes "message"; payload = [] }) (split_on newline frame) in
      if is_empty f.ev && is_empty f.payload
      then none
      else some (record {
        event = f.ev;
        json = if is_empty f.payload then none else json_parse f.payload;
        raw = f.payload;
      })

  pub read_frames : List Text → List (SseEvent Json)
  unfolding read_frame
  read_frames [] = []
  read_frames (f ∷ fs) = elim (read_frame f) [ none ↦ read_frames fs | some e ↦ e ∷ read_frames fs ]

  -- The `for (;;)` loop: the events handed to `onEvent`, for the reads of a connection.
  unfoldable pub pump : Text → List Read → List (SseEvent Json)
  unfolding drain read_frames
  pump buf [] = []
  pump buf (r ∷ rs) = elim (r.done || r.aborted) [
    | true ↦ []
    | false ↦ let d = drain (buf ++ r.chunk) in read_frames d.0 ++ pump d.1 rs
  ]
