-- ===== src/Api/Stream/Chunks.antt =====
-- How the events depend on the way the connection cuts the text into chunks.
use zero_code.Base.{
  ℕ, zero, suc, ◌+◌, ◌≤◌, ◌≡◌, refl, sym, ◌∙◌, ap, inl, inr, true, false, ◌&&◌, ◌||◌, List, [], ◌∷◌,
  ◌++◌, Option, none, some, arith, ◌==◌, length, append_assoc, append-nil, Bool-cases, Option-cases,
}
use zero_code.Base.Text.{Text}
use zero_code.Api.Stream.{
  Read, newline, cons_frame, cut, cut_all, drain, read_frame, read_frames, pump,
}

cons_frame-some :
    (c : ℕ) (o : Option (Text × Text)) (f rest : Text)
    → cons_frame c o ≡ some (f, rest)
    → (g : Text) × (o ≡ some (g, rest)) × (f ≡ c ∷ g)
cons_frame-some c none f rest h = cc
cons_frame-some c (some (g, r)) f rest h = (g, cc, cc)

-- A frame that is complete stays the first one, whatever arrives later.
pub cut-append :
    (buf more f rest : Text) → cut buf ≡ some (f, rest) → cut (buf ++ more) ≡ some (f, rest ++ more)
unfolding cut
cut-append [] more f rest h = cc
cut-append (c ∷ []) more f rest h = cc
cut-append (c ∷ d ∷ cs) more f rest h = elim (Bool-cases (c == newline && d == newline)) [
  | inl blank ↦ rw blank (let e = rw blank at h in cc)
  | inr plain ↦
      let w = cons_frame-some c (cut (d ∷ cs)) f rest (rw plain at h) in
      rw (plain, cut-append (d ∷ cs) more w.0 rest w.1, w.2) refl
]

pub cut_lem : (buf f rest : Text) → cut buf ≡ some (f, rest) → buf ≡ f ++ newline ∷ newline ∷ rest
unfolding cut
cut_lem [] f rest h = cc
cut_lem (c ∷ []) f rest h = cc
cut_lem (c ∷ d ∷ cs) f rest h = elim (Bool-cases (c == newline && d == newline)) [
  | inl blank ↦ let e = rw blank at h in ground arith
  | inr plain ↦
      let w = cons_frame-some c (cut (d ∷ cs)) f rest (rw plain at h) in
      rw w.2 (ap (◌∷◌ c) (cut_lem (d ∷ cs) w.0 rest w.1))
]

-- A frame and its two newlines leave the buffer shorter.
pub length-cut :
    (buf f rest : Text) → cut buf ≡ some (f, rest) → length rest + length f + 2 ≡ length buf
unfolding cut
length-cut [] f rest h = cc
length-cut (c ∷ []) f rest h = cc
length-cut (c ∷ d ∷ cs) f rest h = elim (Bool-cases (c == newline && d == newline)) [
  | inl blank ↦ let e = rw blank at h in ground arith
  | inr plain ↦
      let w = cons_frame-some c (cut (d ∷ cs)) f rest (rw plain at h) in
      omega (arith, length-cut (d ∷ cs) w.0 rest w.1, ap length w.2)
]

-- Fuel beyond the length of the buffer changes nothing.
cut_all-fuel :
    (m n : ℕ) (buf : Text) → length buf ≤ m → length buf ≤ n → cut_all m buf ≡ cut_all n buf
unfolding cut_all cut
cut_all-fuel zero zero buf hm hn = refl
cut_all-fuel zero (suc n) [] hm hn = refl
cut_all-fuel zero (suc n) (c ∷ cs) hm hn = absurd (omega arith)
cut_all-fuel (suc m) zero [] hm hn = refl
cut_all-fuel (suc m) zero (c ∷ cs) hm hn = absurd (omega arith)
cut_all-fuel (suc m) (suc n) buf hm hn = elim (Option-cases (cut buf)) [
  | inl e ↦ rw (e, cut_all) refl
  | inr ((f, rest), e) ↦
      let sh = length-cut buf f rest e in
      rw (e, cut_all) (rw (cut_all-fuel m n rest (omega arith) (omega arith)) refl)
]

cut-nil : cut [] ≡ none
unfolding cut
cut-nil = refl

drain-none : (buf : Text) → cut buf ≡ none → drain buf ≡ ([], buf)
unfolding drain
drain-none [] e = refl
drain-none (c ∷ cs) e = rw (e, cut_all) refl

drain-some :
    (buf f rest : Text)
    → cut buf ≡ some (f, rest)
    → drain buf ≡ (f ∷ (drain rest).0, (drain rest).1)
unfolding drain
drain-some [] f rest e = cc
drain-some (c ∷ cs) f rest e =
    let sh = length-cut (c ∷ cs) f rest e in
    rw (e, cut_all)
      (rw (cut_all-fuel (length cs) (length rest) rest (omega arith) (omega arith)) refl)

drain-append_fuel :
    (n : ℕ) (buf more : Text)
    → length buf ≤ n
    → drain (buf ++ more)
      ≡ ((drain buf).0 ++ (drain ((drain buf).1 ++ more)).0, (drain ((drain buf).1 ++ more)).1)
drain-append_fuel zero [] more h = rw (drain-none [] cut-nil) refl
drain-append_fuel zero (c ∷ cs) more h = absurd (omega arith)
drain-append_fuel (suc n) buf more h = elim (Option-cases (cut buf)) [
  | inl e ↦ rw (drain-none buf e) refl
  | inr ((f, rest), e) ↦
      let sh = length-cut buf f rest e in
      rw
        (
          drain-some buf f rest e,
          drain-some (buf ++ more) f (rest ++ more) (cut-append buf more f rest e),
          drain-append_fuel n rest more (omega arith),
        )
        refl
]

-- What a buffer yields may be taken before or after the next chunk arrives.
pub drain-append :
    (buf more : Text)
    → drain (buf ++ more)
      ≡ ((drain buf).0 ++ (drain ((drain buf).1 ++ more)).0, (drain ((drain buf).1 ++ more)).1)
drain-append buf more = drain-append_fuel (length buf) buf more (omega arith)

-- The text that the reader sees: the chunks in front of the end of the stream or of the abort.
abbrev pub text_before_stop : List Read → Text
text_before_stop [] = []
text_before_stop (r ∷ rs) = elim (r.done || r.aborted) [
  | true ↦ []
  | false ↦ r.chunk ++ text_before_stop rs
]

text_before_stop-stop :
    (r : Read) (rs : List Read) → (r.done || r.aborted) ≡ true → text_before_stop (r ∷ rs) ≡ []
text_before_stop-stop r rs e = rw (e, text_before_stop) refl

text_before_stop-live :
    (r : Read) (rs : List Read)
    → (r.done || r.aborted) ≡ false
    → text_before_stop (r ∷ rs) ≡ r.chunk ++ text_before_stop rs
text_before_stop-live r rs e = rw (e, text_before_stop) refl

-- The frames one after the other, each with the newlines that end it.
abbrev pub unframe : List Text → Text
unframe [] = []
unframe (f ∷ fs) = f ++ newline ∷ newline ∷ unframe fs

module _ {ℓ} {Json : Type ℓ} (json_parse : Text → Option Json) where
  read_frames-append :
      (fs gs : List Text)
      → read_frames json_parse (fs ++ gs) ≡ read_frames json_parse fs ++ read_frames json_parse gs
  unfolding read_frames
  read_frames-append [] gs = refl
  read_frames-append (f ∷ fs) gs = elim (Option-cases (read_frame json_parse f)) [
    | inl e ↦ rw (e, read_frames) (read_frames-append fs gs)
    | inr (v, e) ↦ rw (e, read_frames) (ap (◌∷◌ v) (read_frames-append fs gs))
  ]

  pump-drain :
      (buf : Text) (rs : List Read)
      → read_frames json_parse (drain buf).0 ++ pump json_parse (drain buf).1 rs
        ≡ read_frames json_parse (drain (buf ++ text_before_stop rs)).0
  unfolding pump
  pump-drain buf [] = rw (append-nil buf, append-nil) refl
  pump-drain buf (r ∷ rs) = elim (Bool-cases (r.done || r.aborted)) [
    | inl stop ↦
        rw (stop, pump) (rw (text_before_stop-stop r rs stop, append-nil buf, append-nil) refl)
    | inr live ↦
        rw (live, pump)
          (ap (◌++◌ (read_frames json_parse (drain buf).0))
              (pump-drain ((drain buf).1 ++ r.chunk) rs)
            ∙ sym (whole r.chunk (text_before_stop rs))
            ∙ ap (λ t. read_frames json_parse (drain (buf ++ t)).0)
                (sym (text_before_stop-live r rs live)))
  ]
    where
      whole :
          (c tail : Text)
          → read_frames json_parse (drain (buf ++ (c ++ tail))).0
            ≡ read_frames json_parse (drain buf).0
              ++ read_frames json_parse (drain (((drain buf).1 ++ c) ++ tail)).0
      whole c tail =
          rw (drain-append buf (c ++ tail), append_assoc)
            (read_frames-append (drain buf).0 (drain ((drain buf).1 ++ (c ++ tail))).0)

  -- The events depend only on the text received before the end of the stream or the abort, never
  -- on how it was cut into chunks: they are those of the whole text, read at once.
  pub pump-chunks :
      (rs : List Read)
      → pump json_parse [] rs ≡ read_frames json_parse (drain (text_before_stop rs)).0
  unfolding read_frames
  pump-chunks rs = rw (drain-none [] cut-nil) at (pump-drain [] rs)

drain_complete_fuel :
    (n : ℕ) (buf : Text)
    → length buf ≤ n
    → (unframe (drain buf).0 ++ (drain buf).1 ≡ buf) × (cut (drain buf).1 ≡ none)
drain_complete_fuel zero [] h = rw (drain-none [] cut-nil) (refl, cut-nil)
drain_complete_fuel zero (c ∷ cs) h = absurd (omega arith)
drain_complete_fuel (suc n) buf h = elim (Option-cases (cut buf)) [
  | inl e ↦ rw (drain-none buf e) (refl, e)
  | inr ((f, rest), e) ↦
      let sh = length-cut buf f rest e in
      let ih = drain_complete_fuel n rest (omega arith) in
      rw (drain-some buf f rest e) (
        append_assoc f _ _ ∙ ap (λ t. f ++ newline ∷ newline ∷ t) ih.0 ∙ sym (cut_lem buf f rest e),
        ih.1,
      )
]

-- The frames, each with its two newlines, and the rest make up the buffer again, and no frame is
-- left in the rest, nor a blank line inside a frame.
pub drain_complete :
    (buf : Text) → (unframe (drain buf).0 ++ (drain buf).1 ≡ buf) × (cut (drain buf).1 ≡ none)
drain_complete buf = drain_complete_fuel (length buf) buf (omega arith)
