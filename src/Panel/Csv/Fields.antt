-- ===== src/Panel/Csv/Fields.antt =====
-- One exported field, read back by the parser of web/app/src/playground/TestsPanel.tsx.
use zero_code.Base.{
  ℕ, ◌≡◌, refl, sym, ◌∙◌, ap, inl, inr, Bool, true, false, ◌&&◌, ◌||◌, List, [], ◌∷◌, ◌++◌, arith,
  ◌==◌, if◌then◌else◌, append_assoc, append-nil, Bool-cases, ==_iff,
}
use zero_code.Base.Text.{Text}
use zero_code.Panel.Csv.{Scan, quote, comma, lf, cr, needs_quotes, step, scan, double_quotes, esc}

-- The state of the parser, in the order of its variables.
abbrev pub at : List (List Text) → List Text → Text → Bool → Scan
at rows row field in_quote = record { rows = rows; row = row; field = field; in_quote = in_quote }

-- One character at a time, but for a quote inside quotes.
pub scan-step :
    (p : Scan) (c : ℕ) (rest : Text)
    → (p.in_quote && c == quote) ≡ false
    → scan p (c ∷ rest) ≡ scan (step p c) rest
unfolding scan
scan-step p c [] h = refl
scan-step p c (d ∷ cs) h = rw (alone, scan) refl
  where
    alone : (p.in_quote && (c == quote && d == quote)) ≡ false
    alone = ground arith

-- A field without quotes loses its carriage returns.
unfoldable pub remove_cr : Text → Text
remove_cr [] = []
remove_cr (c ∷ cs) = let rest = remove_cr cs in if c == cr then rest else c ∷ rest

abbrev is_special : ℕ → Bool
is_special c = c == quote || c == comma || c == lf

module _ (rows : List (List Text)) (row : List Text) (field : Text) where
  step-cr : (c : ℕ) → (c == cr) ≡ true → step (at rows row field false) c ≡ at rows row field false
  unfolding step
  step-cr c h = ground arith

  step-ordinary :
      (c : ℕ)
      → is_special c ≡ false
      → (c == cr) ≡ false
      → step (at rows row field false) c ≡ at rows row (field ++ c ∷ []) false
  unfolding step
  step-ordinary c h k = ground arith

  step-quoted :
      (c : ℕ)
      → (c == quote) ≡ false
      → step (at rows row field true) c ≡ at rows row (field ++ c ∷ []) true
  unfolding step
  step-quoted c h = ground arith

step-open :
    (rows : List (List Text)) (row : List Text)
    → step (at rows row [] false) quote ≡ at rows row [] true
unfolding step
step-open rows row = refl

any-cons :
    (c : ℕ) (s : Text)
    → needs_quotes (c ∷ s) ≡ false
    → (is_special c ≡ false) × (needs_quotes s ≡ false)
any-cons c s h = elim (Bool-cases (is_special c)) [
  | inl e ↦ let k = rw e at h in cc
  | inr e ↦ (e, rw e at h)
]

scan-plain :
    (rows : List (List Text)) (row : List Text) (field s rest : Text)
    → needs_quotes s ≡ false
    → scan (at rows row field false) (s ++ rest)
      ≡ scan (at rows row (field ++ remove_cr s) false) rest
unfolding remove_cr
scan-plain rows row field [] rest h = rw append-nil refl
scan-plain rows row field (c ∷ s) rest h =
    let w = any-cons c s h in
    scan-step (at rows row field false) c (s ++ rest) refl ∙ elim (Bool-cases (c == cr)) [
      | inl is_cr ↦
          rw (is_cr, step-cr rows row field c is_cr) (scan-plain rows row field s rest w.1)
      | inr not_cr ↦
          rw (not_cr, step-ordinary rows row field c w.0 not_cr)
            (scan-plain rows row (field ++ c ∷ []) s rest w.1
              ∙ ap (λ f. scan (at rows row f false) rest)
                  (append_assoc field (c ∷ []) (remove_cr s)))
    ]

scan-close :
    (rows : List (List Text)) (row : List Text) (field : Text) (d : ℕ) (rest : Text)
    → (d == quote) ≡ false
    → scan (at rows row field true) (quote ∷ d ∷ rest) ≡ scan (at rows row field false) (d ∷ rest)
unfolding scan step
scan-close rows row field d rest h = rw (h, scan) refl

scan-double :
    (rows : List (List Text)) (row : List Text) (field rest : Text)
    → scan (at rows row field true) (quote ∷ quote ∷ rest)
      ≡ scan (at rows row (field ++ quote ∷ []) true) rest
unfolding scan
scan-double rows row field rest = refl

-- A quoted field comes back as it was, up to the quote that closes it.
scan-quoted :
    (rows : List (List Text)) (row : List Text) (field s : Text) (d : ℕ) (rest : Text)
    → (d == quote) ≡ false
    → scan (at rows row field true) (double_quotes s ++ quote ∷ d ∷ rest)
      ≡ scan (at rows row (field ++ s) false) (d ∷ rest)
unfolding double_quotes
scan-quoted rows row field [] d rest h = rw (append-nil field) (scan-close rows row field d rest h)
scan-quoted rows row field (c ∷ s) d rest h = elim (Bool-cases (c == quote)) [
  | inl is_quote ↦ rw is_quote (
      scan-double rows row field (double_quotes s ++ quote ∷ d ∷ rest)
      ∙ scan-quoted rows row (field ++ quote ∷ []) s d rest h
      ∙ ap (λ f. scan (at rows row f false) (d ∷ rest))
          (append_assoc field (quote ∷ []) s
            ∙ ap (λ q. field ++ q ∷ s) (sym ((==_iff c quote).0 is_quote))))
  | inr not_quote ↦ rw not_quote (
      scan-step (at rows row field true) c (double_quotes s ++ quote ∷ d ∷ rest) not_quote
      ∙ ap (λ p. scan p (double_quotes s ++ quote ∷ d ∷ rest))
          (step-quoted rows row field c not_quote)
      ∙ scan-quoted rows row (field ++ c ∷ []) s d rest h
      ∙ ap (λ f. scan (at rows row f false) (d ∷ rest)) (append_assoc field (c ∷ []) s))
]

-- What a field is after the round trip: a field that is written with quotes comes back as it was.
abbrev pub came_back : Text → Text
came_back s = if needs_quotes s then s else remove_cr s

pub scan-esc :
    (rows : List (List Text)) (row : List Text) (s : Text) (d : ℕ) (rest : Text)
    → (d == quote) ≡ false
    → scan (at rows row [] false) (esc s ++ d ∷ rest)
      ≡ scan (at rows row (came_back s) false) (d ∷ rest)
unfolding esc
scan-esc rows row s d rest h = elim (Bool-cases (needs_quotes s)) [
  | inl quoted ↦ rw quoted (
      scan-step (at rows row [] false) quote ((double_quotes s ++ quote ∷ []) ++ d ∷ rest) refl
      ∙ ap (λ t. scan (step (at rows row [] false) quote) t)
          (append_assoc (double_quotes s) (quote ∷ []) (d ∷ rest))
      ∙ ap (λ p. scan p (double_quotes s ++ quote ∷ d ∷ rest)) (step-open rows row)
      ∙ scan-quoted rows row [] s d rest h)
  | inr plain ↦ rw plain (scan-plain rows row [] s (d ∷ rest) plain)
]
