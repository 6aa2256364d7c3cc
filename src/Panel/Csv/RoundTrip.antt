-- ===== src/Panel/Csv/RoundTrip.antt =====
-- Importing what was exported: `exportCSV`, then `parseCSV` of
-- web/app/src/playground/TestsPanel.tsx.
use zero_code.Base.{
  ◌≡◌, refl, sym, ◌∙◌, ap, inl, inr, true, false, List, [], ◌∷◌, ◌++◌, map, any, ◌⊎◌, arith, ◌==◌,
  keep, All, append_assoc, append-nil, Bool-cases,
}
use zero_code.Base.Text.{Text, codes, text_eq, join_with}
use zero_code.Panel.Csv.{
  Case, comma, lf, cr, is_real, needs_quotes, step, finish, scan, to_cases, is_header, parse_csv,
  esc, export_row, export_csv,
}
use zero_code.Panel.Csv.Fields.{at, scan-step, scan-esc, remove_cr, came_back}

abbrev came_back_row : Case → List Text
came_back_row t = came_back t.stdin ∷ came_back t.expected ∷ []

step-comma :
    (rows : List (List Text)) (row : List Text) (field : Text)
    → step (at rows row field false) comma ≡ at rows (row ++ field ∷ []) [] false
unfolding step
step-comma rows row field = refl

step-lf :
    (rows : List (List Text)) (s field : Text)
    → step (at rows (s ∷ []) field false) lf ≡ at (rows ++ (s ∷ field ∷ []) ∷ []) [] [] false
unfolding step
step-lf rows s field = refl

-- One exported line, read back.
scan-row :
    (rows : List (List Text)) (t : Case) (rest : Text)
    → scan (at rows [] [] false) (export_row t ++ lf ∷ rest)
      ≡ scan (at (rows ++ came_back_row t ∷ []) [] [] false) rest
unfolding export_row
scan-row rows t rest =
    ap (λ s. scan (at rows [] [] false) s)
      (append_assoc (esc t.stdin) (comma ∷ esc t.expected) (lf ∷ rest))
    ∙ scan-esc rows [] t.stdin comma (esc t.expected ++ lf ∷ rest) refl
    ∙ scan-step (at rows [] (came_back t.stdin) false) comma (esc t.expected ++ lf ∷ rest) refl
    ∙ ap (λ p. scan p (esc t.expected ++ lf ∷ rest)) (step-comma rows [] (came_back t.stdin))
    ∙ scan-esc rows (came_back t.stdin ∷ []) t.expected lf rest refl
    ∙ scan-step (at rows (came_back t.stdin ∷ []) (came_back t.expected) false) lf rest refl
    ∙ ap (λ p. scan p rest) (step-lf rows (came_back t.stdin) (came_back t.expected))

abbrev unlines : List Text → Text
unlines [] = []
unlines (f ∷ fs) = f ++ lf ∷ unlines fs

join_with-unlines :
    (f : Text) (fs : List Text) → join_with lf (f ∷ fs) ++ lf ∷ [] ≡ unlines (f ∷ fs)
unfolding join_with
join_with-unlines f [] = refl
join_with-unlines f (g ∷ fs) =
    append_assoc f (lf ∷ join_with lf (g ∷ fs)) (lf ∷ [])
    ∙ ap (λ t. f ++ lf ∷ t) (join_with-unlines g fs)

scan-rows :
    (rows : List (List Text)) (ts : List Case)
    → scan (at rows [] [] false) (unlines (map export_row ts)) ≡ rows ++ map came_back_row ts
unfolding scan finish
scan-rows rows [] = sym (append-nil rows)
scan-rows rows (t ∷ ts) =
    scan-row rows t (unlines (map export_row ts))
    ∙ scan-rows (rows ++ came_back_row t ∷ []) ts
    ∙ append_assoc rows (came_back_row t ∷ []) (map came_back_row ts)

abbrev header : Case
header = record { stdin = codes "stdin"; expected = codes "expected" }

scan-export :
    (ts : List Case)
    → scan (at [] [] [] false) (export_csv ts) ≡ came_back_row header ∷ map came_back_row ts
unfolding export_csv export_row esc remove_cr
scan-export ts =
    ap (scan (at [] [] [] false)) (join_with-unlines (codes "stdin,expected") (map export_row ts))
    ∙ header_line (unlines (map export_row ts))
    ∙ scan-rows (came_back_row header ∷ []) ts
  where
    header_line :
        (rest : Text)
        → scan (at [] [] [] false) (codes "stdin,expected" ++ lf ∷ rest)
          ≡ scan (at (came_back_row header ∷ []) [] [] false) rest
    header_line rest = scan-row [] header rest

-- What a test case is after the round trip.
abbrev pub came_back_case : Case → Case
came_back_case t = record { stdin = came_back t.stdin; expected = came_back t.expected }

to_cases-rows :
    (ts : List Case) → to_cases (map came_back_row ts) ≡ keep is_real (map came_back_case ts)
unfolding to_cases
to_cases-rows [] = refl
to_cases-rows (t ∷ ts) = rw (to_cases-rows ts) refl

-- Importing an export gives the exported cases in order, each field without the carriage returns
-- that no quotes protected, and without the cases that this leaves empty.
pub parse_csv-export_csv :
    (ts : List Case) → parse_csv (export_csv ts) ≡ keep is_real (map came_back_case ts)
unfolding parse_csv is_header text_eq remove_cr
parse_csv-export_csv ts = rw (scan-export ts) (to_cases-rows ts)

-- A field that the file format carries: quotes protect it, or it holds no carriage return.
abbrev pub Survives : Text → Type 0
Survives s = (needs_quotes s ≡ true) ⊎ (any (λ c. c == cr) s ≡ false)

remove_cr-id : (s : Text) → any (λ c. c == cr) s ≡ false → remove_cr s ≡ s
unfolding remove_cr
remove_cr-id [] h = refl
remove_cr-id (c ∷ s) h = elim (Bool-cases (c == cr)) [
  | inl e ↦ let k = rw e at h in cc
  | inr e ↦ rw (e, remove_cr-id s (rw e at h)) refl
]

came_back-id : (s : Text) → Survives s → came_back s ≡ s
came_back-id s (inl quoted) = rw quoted refl
came_back-id s (inr plain) = ground (arith, remove_cr-id s plain)

abbrev pub IsPortable : Case → Type 0
IsPortable t = (is_real t ≡ true) × Survives t.stdin × Survives t.expected

-- Cases that are not empty and whose fields hold no unprotected carriage return come back unchanged.
pub parse_csv-export_csv_lossless :
    (ts : List Case) → All IsPortable ts → parse_csv (export_csv ts) ≡ ts
parse_csv-export_csv_lossless ts h = parse_csv-export_csv ts ∙ all_kept ts h
  where
    all_kept : (us : List Case) → All IsPortable us → keep is_real (map came_back_case us) ≡ us
    all_kept [] k = refl
    all_kept (t ∷ us) ((real, same, same'), k) =
        rw (came_back-id t.stdin same, came_back-id t.expected same', real)
          (ap (◌∷◌ t) (all_kept us k))
