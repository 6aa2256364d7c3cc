-- ===== src/Panel/Cases/Invariant.antt =====
-- What every operation on the cases keeps.
use zero_code.Base.{
  suc, ap, ◌≢◌, ◌==◌, ==_iff, leb, not_leb→lt, ◌+◌, ◌≤◌, ◌<◌, ◌≡◌, refl, inl, inr, Bool, false, not,
  List, [], ◌∷◌, ◌++◌, map, arith, none, length, keep, any, if◌then◌else◌, length-append,
  length-keep-le, length-map, Bool-cases,
}
use zero_code.Base.Text.{Text, text_eq, text_eq→eq, text_eq_refl}
use zero_code.Panel.Csv.{Case}
use zero_code.Panel.Cases.{
  TestCase, Panel, Patch, set_stdin, set_expected, new_case, add_case, delete_case, patch_case,
  number_cases, apply_patch,
}

-- A case with its texts and its id, and without what a run left.
abbrev pub without_results : TestCase → TestCase
without_results t = record t {
  status = none;
  status_detail = none;
  stdout = none;
  stderr = none;
  compile_output = none;
  time = none;
  memory = none;
  exit_code = none;
  token = none;
  passed = none;
}

abbrev pub has_id : Text → List TestCase → Bool
has_id id = any (λ t. text_eq t.id id)

abbrev pub DistinctIds : List TestCase → Type 0
DistinctIds [] = Unit
DistinctIds (t ∷ ts) = (has_id t.id ts ≡ false) × DistinctIds ts

-- There is a case, there are at most a hundred, and no id is given twice.
pub record Inv (p : Panel) : Type 0 where
  pub some_case : 0 < length p.tests
  pub within_batch : length p.tests ≤ 100
  pub distinct : DistinctIds p.tests

has_id-append :
    (id : Text) (ts : List TestCase) (u : TestCase)
    → has_id id ts ≡ false
    → text_eq u.id id ≡ false
    → has_id id (ts ++ u ∷ []) ≡ false
has_id-append id [] u h k = rw k refl
has_id-append id (t ∷ ts) u h k = ground (arith, has_id-append id ts u)

text_eq-sym : (s t : Text) → text_eq s t ≡ false → text_eq t s ≡ false
text_eq-sym s t h = elim (Bool-cases (text_eq t s)) [
  | inl e ↦ let k = text_eq→eq t s e in let r = text_eq_refl s in cc
  | inr e ↦ e
]

DistinctIds-append :
    (ts : List TestCase) (u : TestCase)
    → DistinctIds ts
    → has_id u.id ts ≡ false
    → DistinctIds (ts ++ u ∷ [])
DistinctIds-append [] u d h = (refl, tt)
DistinctIds-append (t ∷ ts) u d h = elim (Bool-cases (text_eq t.id u.id)) [
  | inl e ↦ let k = rw e at h in cc
  | inr e ↦ (
    has_id-append t.id ts u d.0 (text_eq-sym t.id u.id e),
    DistinctIds-append ts u d.1 (rw e at h),
  )
]

-- An operation that leaves the ids alone keeps them distinct.
module _ (f : TestCase → TestCase) (same_id : (t : TestCase) → (f t).id ≡ t.id) where
  has_id-map : (id : Text) (ts : List TestCase) → has_id id (map f ts) ≡ has_id id ts
  has_id-map id [] = refl
  has_id-map id (t ∷ ts) = rw (same_id t, has_id-map id ts) refl

  DistinctIds-map : (ts : List TestCase) → DistinctIds ts → DistinctIds (map f ts)
  DistinctIds-map [] d = tt
  DistinctIds-map (t ∷ ts) d = (rw (same_id t, has_id-map t.id ts) d.0, DistinctIds-map ts d.1)

  pub map-Inv : (p : Panel) → Inv p → Inv (record p { tests = map f p.tests })
  map-Inv p v = record {
    some_case = rw (length-map f p.tests) v.some_case;
    within_batch = rw (length-map f p.tests) v.within_batch;
    distinct = DistinctIds-map p.tests v.distinct;
  }

module _ (keeps : TestCase → Bool) where
  has_id-keep :
      (id : Text) (ts : List TestCase) → has_id id ts ≡ false → has_id id (keep keeps ts) ≡ false
  has_id-keep id [] h = refl
  has_id-keep id (t ∷ ts) h = ground (arith, has_id-keep id ts)

  DistinctIds-keep : (ts : List TestCase) → DistinctIds ts → DistinctIds (keep keeps ts)
  DistinctIds-keep [] d = tt
  DistinctIds-keep (t ∷ ts) d = elim (Bool-cases (keeps t)) [
    | inl e ↦ rw e (has_id-keep t.id ts d.0, DistinctIds-keep ts d.1)
    | inr e ↦ rw e (DistinctIds-keep ts d.1)
  ]

-- With distinct ids at most one case has a given id.
length-keep_others :
    (id : Text) (ts : List TestCase)
    → DistinctIds ts
    → length ts ≤ length (keep (λ t. not (text_eq t.id id)) ts) + 1
length-keep_others id [] d = omega arith
length-keep_others id (t ∷ ts) d = elim (Bool-cases (text_eq t.id id)) [
  | inl e ↦ rw e (let k = keep_absent id ts (rw (text_eq→eq t.id id e) at d.0) in omega arith)
  | inr e ↦ rw e (let ih = length-keep_others id ts d.1 in omega arith)
]
  where
    keep_absent :
        (id : Text) (us : List TestCase)
        → has_id id us ≡ false
        → length us ≤ length (keep (λ t. not (text_eq t.id id)) us)
    keep_absent id [] h = omega arith
    keep_absent id (u ∷ us) h = ground (arith, keep_absent id us)

-- A drawn id that is in use nowhere.
pub add_case-Inv : (id : Text) (p : Panel) → has_id id p.tests ≡ false → Inv p → Inv (add_case id p)
unfolding add_case new_case
add_case-Inv id p fresh v = elim (Bool-cases (leb 100 (length p.tests))) [
  | inl full ↦
      rw full
        (record { some_case = v.some_case; within_batch = v.within_batch; distinct = v.distinct })
  | inr room ↦ rw room (record {
    some_case = omega (arith, length-append p.tests (new_case id [] [] ∷ []));
    within_batch = omega (
      arith,
      not_leb→lt 100 (length p.tests) room,
      length-append p.tests (new_case id [] [] ∷ []),
    );
    distinct = DistinctIds-append p.tests (new_case id [] []) v.distinct fresh;
  })
]

pub delete_case-Inv : (fresh id : Text) (p : Panel) → Inv p → Inv (delete_case fresh id p)
unfolding delete_case
delete_case-Inv fresh id p v = elim (Bool-cases (length p.tests == 1)) [
  | inl last ↦
      rw last
        (record { some_case = omega arith; within_batch = omega arith; distinct = (refl, tt) })
  | inr more ↦ rw more (record {
    some_case =
        let ne : length p.tests ≢ 1 = λ e. (let k = (==_iff (length p.tests) 1).1 e in cc) in
        omega (arith, v.some_case, length-keep_others id p.tests v.distinct);
    within_batch =
        omega (arith, v.within_batch, length-keep-le (λ t. not (text_eq t.id id)) p.tests);
    distinct = DistinctIds-keep (λ t. not (text_eq t.id id)) p.tests v.distinct;
  })
]

pub patch_case-Inv : (id : Text) (c : Patch) (p : Panel) → Inv p → Inv (patch_case id c p)
unfolding patch_case
patch_case-Inv id c p v = map-Inv _ same_id p v
  where
    same_id : (t : TestCase) → (if text_eq t.id id then apply_patch c t else t).id ≡ t.id
    same_id t = elim (Bool-cases (text_eq t.id id)) [ inl e ↦ rw e (patched c) | inr e ↦ rw e refl ]
      where
        patched : (c : Patch) → (apply_patch c t).id ≡ t.id
        patched (set_stdin s) = refl
        patched (set_expected s) = refl

-- Ids drawn for an import.
abbrev pub has_text : Text → List Text → Bool
has_text id = any (λ j. text_eq j id)

abbrev pub DistinctTexts : List Text → Type 0
DistinctTexts [] = Unit
DistinctTexts (id ∷ ids) = (has_text id ids ≡ false) × DistinctTexts ids

has_id-number_cases :
    (id : Text) (ids : List Text) (rs : List Case)
    → has_text id ids ≡ false
    → has_id id (number_cases ids rs) ≡ false
unfolding new_case
has_id-number_cases id [] rs h = refl
has_id-number_cases id (j ∷ ids) [] h = refl
has_id-number_cases id (j ∷ ids) (r ∷ rs) h = ground (arith, has_id-number_cases id ids rs)

pub DistinctIds-number_cases :
    (ids : List Text) (rs : List Case) → DistinctTexts ids → DistinctIds (number_cases ids rs)
unfolding new_case
DistinctIds-number_cases [] rs d = tt
DistinctIds-number_cases (j ∷ ids) [] d = tt
DistinctIds-number_cases (j ∷ ids) (r ∷ rs) d =
    (has_id-number_cases j ids rs d.0, DistinctIds-number_cases ids rs d.1)

pub length-number_cases :
    (ids : List Text) (rs : List Case)
    → length rs ≤ length ids
    → length (number_cases ids rs) ≡ length rs
length-number_cases [] [] h = refl
length-number_cases [] (r ∷ rs) h = absurd (omega arith)
length-number_cases (j ∷ ids) [] h = refl
length-number_cases (j ∷ ids) (r ∷ rs) h = ap suc (length-number_cases ids rs (omega arith))
