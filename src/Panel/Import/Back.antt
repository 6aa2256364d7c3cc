-- ===== src/Panel/Import/Back.antt =====
-- An exported file brings its cases back.
use mathlib.Core.Option.{some-injective}
use zero_code.Base.{
  ◌∙◌, sym, le→not_ltb, ℕ, ◌≤◌, ◌≡◌, refl, ap, subst, true, false, List, [], ◌∷◌, map, some, keep,
  length, take, ltb, All, if_false, arith, length-map, length-keep-le,
}
use zero_code.Base.Text.{
  Text, codes, starts_with, trim, trim_start, trim_end, cons_unless_blank, is_space, text_eq,
  join_with,
}
use zero_code.Api.Status.{get_member, arr}
use zero_code.Panel.Csv.{Case, export_csv}
use zero_code.Panel.Csv.RoundTrip.{IsPortable, parse_csv-export_csv_lossless}
use zero_code.Panel.Cases.{TestCase, Panel, new_case, is_real_case, number_cases, import_cases}
use zero_code.Panel.Cases.Invariant.{without_results}
use zero_code.Panel.Reload.{both, json_rows, json_cases}
use zero_code.Panel.Import.{
  JsonCodec, value, Format, json, csv, File, case_texts, cases_json, export_json, exported,
  do_export, export_real, looks_like_json, on_load,
}

-- The input and the expected output.
abbrev pub texts : TestCase → Text × Text
texts t = (t.stdin, t.expected)

-- The cases of a panel are those of another list: their texts, in order; the ids are those drawn, and no
-- case has a result.
pub record AreImported (ids : List Text) (ts us : List TestCase) : Type 0 where
  pub same_texts : map texts us ≡ map texts ts
  pub drawn_ids : map (λ u. u.id) us ≡ take (length ts) ids
  pub no_results : map without_results us ≡ us

pair : Case → Text × Text
pair r = (r.stdin, r.expected)

texts-number_cases :
    (ids : List Text) (rs : List Case)
    → length rs ≤ length ids
    → map texts (number_cases ids rs) ≡ map pair rs
unfolding pair new_case
texts-number_cases ids [] h = empty ids
  where
    empty : (is : List Text) → map texts (number_cases is []) ≡ []
    empty [] = refl
    empty (i ∷ is) = refl
texts-number_cases [] (r ∷ rs) h = absurd (omega arith)
texts-number_cases (i ∷ is) (r ∷ rs) h =
    ap (◌∷◌ (r.stdin, r.expected)) (texts-number_cases is rs (omega arith))

ids-number_cases :
    (ids : List Text) (rs : List Case)
    → length rs ≤ length ids
    → map (λ u. u.id) (number_cases ids rs) ≡ take (length rs) ids
unfolding new_case
ids-number_cases [] [] h = refl
ids-number_cases (i ∷ is) [] h = refl
ids-number_cases [] (r ∷ rs) h = absurd (omega arith)
ids-number_cases (i ∷ is) (r ∷ rs) h = ap (◌∷◌ i) (ids-number_cases is rs (omega arith))

results-number_cases :
    (ids : List Text) (rs : List Case)
    → map without_results (number_cases ids rs) ≡ number_cases ids rs
unfolding new_case
results-number_cases [] rs = refl
results-number_cases (i ∷ is) [] = refl
results-number_cases (i ∷ is) (r ∷ rs) =
    ap (◌∷◌ (new_case i r.stdin r.expected)) (results-number_cases is rs)

pair-case_texts : (ts : List TestCase) → map pair (map case_texts ts) ≡ map texts ts
unfolding pair
pair-case_texts [] = refl
pair-case_texts (t ∷ ts) = ap (◌∷◌ (t.stdin, t.expected)) (pair-case_texts ts)

number_cases-AreImported :
    (ids : List Text) (ts us : List TestCase)
    → length ts ≤ length ids
    → us ≡ number_cases ids (map case_texts ts)
    → AreImported ids ts us
number_cases-AreImported ids ts us h e =
    let rs = map case_texts ts in
    let n : length rs ≡ length ts = length-map case_texts ts in
    let k : length rs ≤ length ids = omega (arith, n) in
    subst (AreImported ids ts) (sym e) (record {
      same_texts = texts-number_cases ids rs k ∙ pair-case_texts ts;
      drawn_ids = ids-number_cases ids rs k ∙ ap (λ m. take m ids) n;
      no_results = results-number_cases ids rs;
    })

-- What an import of at most a hundred cases leaves.
tests-import_cases :
    (ids : List Text) (r : Case) (rs : List Case) (p : Panel)
    → length (r ∷ rs) ≤ 100
    → (import_cases ids (r ∷ rs) p).tests ≡ number_cases ids (r ∷ rs)
unfolding import_cases
tests-import_cases ids r rs p h =
    ap (number_cases ids)
      (if_false (ltb 100 (length (r ∷ rs))) (take 100 (r ∷ rs)) (r ∷ rs) (le→not_ltb 100 _ h))

json_rows-cases_json : (cs : List Case) → json_rows (cases_json cs) ≡ some cs
unfolding get_member text_eq
json_rows-cases_json [] = refl
json_rows-cases_json (c ∷ cs) = ap (both (some c)) (json_rows-cases_json cs)

-- A JSON array of cases is read back.
tests-import_json :
    (codec : JsonCodec) (ids : List Text) (r : Case) (rs : List Case) (p : Panel)
    → codec.parse (export_json codec (r ∷ rs)) ≡ value (arr (cases_json (r ∷ rs)))
    → starts_with (codes "[") (trim (export_json codec (r ∷ rs))) ≡ true
    → length (r ∷ rs) ≤ 100
    → (on_load codec ids (export_json codec (r ∷ rs)) p).tests ≡ number_cases ids (r ∷ rs)
unfolding on_load looks_like_json export_json json_cases
tests-import_json codec ids r rs p parses opens h =
    rw (opens, parses, json_rows-cases_json (r ∷ rs)) (tests-import_cases ids r rs p h)

cons_unless_blank-solid :
    (c : ℕ) (t : Text) → is_space c ≡ false → (u : Text) × (cons_unless_blank c t ≡ c ∷ u)
unfolding cons_unless_blank
cons_unless_blank-solid c [] h = ([], rw h refl)
cons_unless_blank-solid c (x ∷ t) h = (x ∷ t, refl)

-- A text that begins with no blank keeps its first letter when it is trimmed.
trim-solid : (c : ℕ) (s : Text) → is_space c ≡ false → (u : Text) × (trim (c ∷ s) ≡ c ∷ u)
unfolding trim trim_start trim_end
trim-solid c s h = let (u, e) = cons_unless_blank-solid c (trim_end s) h in (u, rw h e)

header-not_json : (s : Text) → looks_like_json (b's' ∷ s) ≡ false
unfolding looks_like_json is_space
header-not_json s = rw ((trim-solid b's' s refl).1) refl

export_csv-not_json : (cs : List Case) → looks_like_json (export_csv cs) ≡ false
unfolding export_csv join_with
export_csv-not_json [] = header-not_json _
export_csv-not_json (c ∷ cs) = header-not_json _

tests-import_csv :
    (codec : JsonCodec) (ids : List Text) (r : Case) (rs : List Case) (p : Panel)
    → All IsPortable (r ∷ rs)
    → length (r ∷ rs) ≤ 100
    → (on_load codec ids (export_csv (r ∷ rs)) p).tests ≡ number_cases ids (r ∷ rs)
unfolding on_load
tests-import_csv codec ids r rs p portable h =
    rw (export_csv-not_json (r ∷ rs), parse_csv-export_csv_lossless (r ∷ rs) portable)
      (tests-import_cases ids r rs p h)

module _ (codec : JsonCodec) (lang_id : Text) (ids : List Text) where
  -- The file of an export, whatever the import makes of it.
  imported :
      (format : Format) (ts : List TestCase) (p q : Panel) (f : File)
      → ((r : Case) (rs : List Case)
          → map case_texts ts ≡ r ∷ rs
          → (on_load codec ids (exported codec format [] (r ∷ rs)).content q).tests
            ≡ number_cases ids (r ∷ rs))
      → (export_real codec format lang_id ts p).0 ≡ some f
      → (on_load codec ids f.content q).tests ≡ number_cases ids (map case_texts ts)
  unfolding export_real exported
  imported format [] p q f back e = cc
  imported json (t ∷ us) p q f back e =
      subst
        (λ g. (on_load codec ids g.content q).tests ≡ number_cases ids (map case_texts (t ∷ us)))
        (some-injective _ f e) (back (case_texts t) (map case_texts us) refl)
  imported csv (t ∷ us) p q f back e =
      subst
        (λ g. (on_load codec ids g.content q).tests ≡ number_cases ids (map case_texts (t ∷ us)))
        (some-injective _ f e) (back (case_texts t) (map case_texts us) refl)

  module _ (p q : Panel) (f : File) (few : length p.tests ≤ 100)
      (drawn : length (keep is_real_case p.tests) ≤ length ids) where
    few_real : (rs : List Case) → map case_texts (keep is_real_case p.tests) ≡ rs → length rs ≤ 100
    few_real rs e =
        subst (λ xs. length xs ≤ 100) e
          (omega (
            arith,
            few,
            length-map case_texts (keep is_real_case p.tests),
            length-keep-le is_real_case p.tests,
          ))

    -- If JSON.parse undoes JSON.stringify on the cases that are not empty, stringify writes them with a
    -- bracket in front, and an id is drawn for each, importing the JSON export of a panel of at most a
    -- hundred cases leaves any panel with the inputs and the expected outputs of those cases, in their
    -- order, under the ids drawn and without results.
    pub on_load-do_export_json :
        (let rows = map case_texts (keep is_real_case p.tests) in
          codec.parse (export_json codec rows) ≡ value (arr (cases_json rows)))
        → (let rows = map case_texts (keep is_real_case p.tests) in
            starts_with (codes "[") (trim (export_json codec rows)) ≡ true)
        → (do_export codec json lang_id p).0 ≡ some f
        → AreImported ids (keep is_real_case p.tests) (on_load codec ids f.content q).tests
    unfolding do_export exported
    on_load-do_export_json parses opens e =
        number_cases-AreImported ids (keep is_real_case p.tests) _ drawn (
          imported json (keep is_real_case p.tests) p q f
            (λ r rs m.
              tests-import_json codec ids r rs q
                (subst
                  (λ rows. codec.parse (export_json codec rows) ≡ value (arr (cases_json rows))) m
                  parses)
                (subst (λ rows. starts_with (codes "[") (trim (export_json codec rows)) ≡ true) m
                  opens)
                (few_real (r ∷ rs) m))
            e)

    -- If the fields of the cases that are not empty hold no carriage return that no quotes protect, and an
    -- id is drawn for each, importing the CSV export of a panel of at most a hundred cases leaves any panel
    -- with the inputs and the expected outputs of those cases, in their order, under the ids drawn and
    -- without results.
    pub on_load-do_export_csv :
        All IsPortable (map case_texts (keep is_real_case p.tests))
        → (do_export codec csv lang_id p).0 ≡ some f
        → AreImported ids (keep is_real_case p.tests) (on_load codec ids f.content q).tests
    unfolding do_export exported
    on_load-do_export_csv portable e =
        number_cases-AreImported ids (keep is_real_case p.tests) _ drawn (
          imported csv (keep is_real_case p.tests) p q f
            (λ r rs m.
              tests-import_csv codec ids r rs q (subst (All IsPortable) m portable)
                (few_real (r ∷ rs) m))
            e)
