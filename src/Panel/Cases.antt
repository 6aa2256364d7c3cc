-- ===== src/Panel/Cases.antt =====
-- The state of `TestsPanel` and its operations on the list of cases, of
-- web/app/src/playground/TestsPanel.tsx. An id that `newId` draws is an argument.
pub mod Invariant
pub mod Steps
use zero_code.Base.{
  ℕ, zero, suc, ◌+◌, Bool, true, false, not, ◌&&◌, ◌||◌, List, [], ◌∷◌, ◌++◌, map, Option, none,
  some, ◌==◌, leb, ltb, if◌then◌else◌, length, take, keep, any, is_empty,
}
use zero_code.Base.Text.{Text, text_eq}
use zero_code.Api.Status.{StatusKind, accepted, idle}
use zero_code.Panel.Compare.{ComparisonMode}
use zero_code.Panel.Csv.{Case}

-- A JSON number, which the panel only passes on and shows: its text.
abbrev pub Number : Type 0
Number = Text

pub data Passed : Type 0 where
  pass fail unchecked : Passed

-- A field that is absent, undefined or null is `none`.
pub record TestCase : Type 0 where
  pub id : Text
  pub stdin : Text
  pub expected : Text
  pub status : Option StatusKind
  pub status_detail : Option Text
  pub stdout : Option Text
  pub stderr : Option Text
  pub compile_output : Option Text
  pub time : Option Number
  pub memory : Option Number
  pub exit_code : Option Number
  pub token : Option Text
  pub passed : Option Passed

-- `{ id, stdin, expected }`
unfoldable pub new_case : Text → Text → Text → TestCase
new_case id stdin expected = record {
  id = id;
  stdin = stdin;
  expected = expected;
  status = none;
  status_detail = none;
  stdout = none;
  stderr = none;
  compile_output = none;
  time = none;
  memory = none;
  exit_code = none;
  token = none;
  passed = none;
}

abbrev pub empty_case : Text → TestCase
empty_case id = new_case id [] []

-- The messages of `setBatchError`.
pub data BatchError : Type 0 where
  max_cases no_api no_source no_case nothing_to_export nothing_found : BatchError
  capping : ℕ → BatchError
  import_failed run_failed : Text → BatchError

pub record Panel : Type 0 where
  pub tests : List TestCase
  pub mode : ComparisonMode
  pub stop_on_fail : Bool
  pub running : Bool
  pub batch_error : Option BatchError
  pub collapsed : List Text

unfoldable pub add_case : Text → Panel → Panel
unfolding new_case
add_case id p =
    if leb 100 (length p.tests)
    then record p { batch_error = some max_cases }
    else record p { tests = p.tests ++ empty_case id ∷ [] }

unfoldable pub delete_case : Text → Text → Panel → Panel
unfolding new_case text_eq
delete_case fresh id p = record p {
  tests =
      if length p.tests == 1
      then empty_case fresh ∷ []
      else keep (λ t. not (text_eq t.id id)) p.tests;
}

-- `onChange` of the two text areas; each patch clears what the run left.
pub data Patch : Type 0 where
  set_stdin set_expected : Text → Patch

abbrev pub apply_patch : Patch → TestCase → TestCase
apply_patch (set_stdin s) t = record t {
  stdin = s;
  passed = none;
  stdout = none;
  stderr = none;
  status = none;
}
apply_patch (set_expected s) t = record t { expected = s; passed = none }

unfoldable pub patch_case : Text → Patch → Panel → Panel
unfolding text_eq
patch_case id patch p = record p {
  tests = map (λ t. if text_eq t.id id then apply_patch patch t else t) p.tests;
}

-- A set of ids, in order of insertion.
unfoldable pub toggle_collapsed : Text → Panel → Panel
unfolding text_eq
toggle_collapsed id p = record p {
  collapsed =
      if any (λ j. text_eq j id) p.collapsed
      then keep (λ j. not (text_eq j id)) p.collapsed
      else p.collapsed ++ id ∷ [];
}

abbrev pub reset_case : TestCase → TestCase
reset_case t = new_case t.id t.stdin t.expected

unfoldable pub clear_results : Panel → Panel
unfolding new_case
clear_results p = record p { tests = map reset_case p.tests; batch_error = none }

-- `confirmed` is the user's answer.
unfoldable pub clear_all : Text → Bool → Panel → Panel
unfolding new_case
clear_all fresh confirmed p =
    if p.running
    then p
    else if not confirmed
    then p
    else record p { tests = empty_case fresh ∷ []; batch_error = none }

-- The counts under the toolbar.
pub record Summary : Type 0 where
  pub total : ℕ
  pub pass : ℕ
  pub fail : ℕ
  pub unchecked : ℕ
  pub errors : ℕ

abbrev pub count_if : Bool → ℕ → ℕ
count_if b n = if b then n + 1 else n

abbrev pub is_passed : Passed → Option Passed → Bool
is_passed pass (some pass) = true
is_passed fail (some fail) = true
is_passed unchecked (some unchecked) = true
is_passed _ _ = false

-- `t.status && t.status !== 'accepted' && t.status !== 'idle'`
abbrev pub is_error : Option StatusKind → Bool
is_error none = false
is_error (some accepted) = false
is_error (some idle) = false
is_error (some (StatusKind.other s)) = not (is_empty s)
is_error (some _) = true

unfoldable pub summarize_from : Summary → List TestCase → Summary
summarize_from c [] = c
summarize_from c (t ∷ ts) =
    summarize_from
      (record {
        total = c.total + 1;
        pass = count_if (is_passed Passed.pass t.passed) c.pass;
        fail = count_if (is_passed Passed.fail t.passed) c.fail;
        unchecked = count_if (is_passed Passed.unchecked t.passed) c.unchecked;
        errors = count_if (is_error t.status) c.errors;
      })
      ts

unfoldable pub summary : List TestCase → Summary
unfolding summarize_from
summary = summarize_from (record { total = 0; pass = 0; fail = 0; unchecked = 0; errors = 0 })

-- `t.stdin.length > 0 || t.expected.length > 0`
abbrev pub is_real_case : TestCase → Bool
is_real_case t = not (is_empty t.stdin) || not (is_empty t.expected)

-- The rest of `reader.onload` in `onImportFile`, on the cases that the file holds; the ids are drawn
-- one for each case.
abbrev pub number_cases : List Text → List Case → List TestCase
number_cases (id ∷ ids) (r ∷ rs) = new_case id r.stdin r.expected ∷ number_cases ids rs
number_cases _ _ = []

unfoldable pub import_cases : List Text → List Case → Panel → Panel
unfolding new_case
import_cases ids [] p = record p { batch_error = some nothing_found }
import_cases ids (r ∷ rs) p =
    let parsed = r ∷ rs in
    let q =
      if ltb 100 (length parsed)
      then record p { batch_error = some (capping (length parsed)) }
      else p in
    let capped = if ltb 100 (length parsed) then take 100 parsed else parsed in
    record q { tests = number_cases ids capped; batch_error = none }
