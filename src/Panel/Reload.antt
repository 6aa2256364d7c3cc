-- ===== src/Panel/Reload.antt =====
-- The effects of web/app/src/playground/TestsPanel.tsx that save the cases of a source and load them
-- again, and the rows of an imported JSON file.
pub mod Kept
use zero_code.Base.{ℕ, suc, Bool, List, [], ◌∷◌, Option, none, some, map, or_else}
use zero_code.Base.Text.{Text, codes}
use zero_code.Api.Config.{truthy}
use zero_code.Api.Status.{Json, Items, nil, item, null, bool, num, str, arr, obj, get_member}
use zero_code.Panel.Cases.{TestCase, Panel, new_case}
use zero_code.Panel.Compare.{ComparisonMode, trim}
use zero_code.Panel.Csv.{Case}

-- A stored case; a member that is missing is none.
pub record StoredCase : Type 0 where
  pub id : Option Text
  pub stdin : Option Text
  pub expected : Option Text

-- `PersistedBucket`
pub record Bucket : Type 0 where
  pub tests : List StoredCase
  pub mode : Option ComparisonMode
  pub stop_on_fail : Bool

abbrev pub store_case : TestCase → StoredCase
store_case t = record { id = some t.id; stdin = some t.stdin; expected = some t.expected }

-- What the effect on every change hands to `saveBucket`.
unfoldable pub to_bucket : Panel → Bucket
to_bucket p = record {
  tests = map store_case p.tests;
  mode = some p.mode;
  stop_on_fail = p.stop_on_fail;
}

-- `t.id || newId()`; `drawn n` is the id that would be drawn for the case at `n`.
abbrev pub id_or : Option Text → Text → Text
id_or (some (c ∷ s)) d = c ∷ s
id_or _ d = d

unfoldable pub load_cases : (ℕ → Text) → ℕ → List StoredCase → List TestCase
unfolding new_case
load_cases drawn n [] = []
load_cases drawn n (t ∷ ts) =
    new_case (id_or t.id (drawn n)) (or_else t.stdin []) (or_else t.expected [])
    ∷ load_cases drawn (suc n) ts

-- The effect on the key of the source, for the bucket that `loadBucket` found.
unfoldable pub hydrate : (ℕ → Text) → Option Bucket → Panel → Panel
unfolding load_cases
hydrate drawn none p = record p { tests = new_case (drawn 0) [] [] ∷ []; collapsed = [] }
hydrate drawn (some b) p = found b.tests
  where
    found : List StoredCase → Panel
    found [] = record p { tests = new_case (drawn 0) [] [] ∷ []; collapsed = [] }
    found (t ∷ ts) = record p {
      tests = load_cases drawn 0 (t ∷ ts);
      mode = or_else b.mode trim;
      stop_on_fail = b.stop_on_fail;
      collapsed = [];
    }

abbrev pub string_or : Option Json → Text → Text
string_or (some (str s)) d = s
string_or _ d = d

-- A row of the file: none where reading its members throws, which it does for null; any other row
-- that is no object has none of them.
abbrev pub json_case : Json → Option Case
json_case null = none
json_case (obj ms) = some (record {
  stdin = string_or (get_member (codes "stdin") ms) [];
  expected =
      string_or (get_member (codes "expected") ms)
        (string_or (get_member (codes "expected_output") ms) []);
})
json_case _ = some (record { stdin = []; expected = [] })

abbrev pub both : Option Case → Option (List Case) → Option (List Case)
both none rs = none
both (some r) none = none
both (some r) (some rs) = some (r ∷ rs)

abbrev pub json_rows : Items → Option (List Case)
json_rows nil = some []
json_rows (item j js) = both (json_case j) (json_rows js)

-- `Array.isArray(j) ? j : [j]`
unfoldable pub json_cases : Json → Option (List Case)
unfolding get_member
json_cases (arr js) = json_rows js
json_cases j = both (json_case j) (some [])
