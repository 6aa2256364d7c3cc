-- ===== src/Panel/Import/Tests.antt =====
-- An export and import of two cases, in both formats.
use zero_code.Base.{refl, inl, inr, arith, false, [], ◌∷◌, none, keep}
use zero_code.Base.Text.{codes, trim, is_space}
use zero_code.Api.Status.{arr}
use zero_code.Panel.Compare.{exact}
use zero_code.Panel.Cases.{Panel, new_case, is_real_case}
use zero_code.Panel.Import.{JsonCodec, value, threw, File, cases_json, do_export, on_load}
use zero_code.Panel.Import.Back.{AreImported, on_load-do_export_csv, on_load-do_export_json}

-- A codec that reads and writes nothing.
abbrev no_json : JsonCodec
no_json = record { parse = λ s. threw (codes "no JSON"); print = λ j. []; null_message = [] }

abbrev two_cases : Panel
two_cases = record {
  tests = new_case (codes "a") (codes "1,2") (codes "3") ∷ new_case (codes "b") [] [] ∷ [];
  mode = exact;
  stop_on_fail = false;
  running = false;
  batch_error = none;
  collapsed = [];
}

abbrev csv_file : File
csv_file = record {
  name = codes "zerocode-tests-71.csv";
  content = codes "stdin,expected\n\"1,2\",3\n";
  mime = codes "text/csv";
}

abbrev other : Panel
other = record two_cases { tests = new_case (codes "z") (codes "8") [] ∷ [] }

on_load-do_export_csv_example :
    AreImported
      (codes "x" ∷ [])
      (keep is_real_case two_cases.tests)
      (on_load no_json (codes "x" ∷ []) csv_file.content other).tests
unfolding do_export new_case
on_load-do_export_csv_example =
    on_load-do_export_csv no_json (codes "71") (codes "x" ∷ []) two_cases other csv_file
      (omega arith) (omega arith) ((refl, inl refl, inr refl), tt) refl

-- A codec for one file.
abbrev one_json : JsonCodec
one_json = record {
  parse = λ s. value (arr (cases_json (record { stdin = codes "1,2"; expected = codes "3" } ∷ [])));
  print = λ j. codes "[1]";
  null_message = [];
}

abbrev json_file : File
json_file = record {
  name = codes "zerocode-tests-71.json";
  content = codes "[1]";
  mime = codes "application/json";
}

on_load-do_export_json_example :
    AreImported
      (codes "x" ∷ [])
      (keep is_real_case two_cases.tests)
      (on_load one_json (codes "x" ∷ []) json_file.content other).tests
unfolding do_export new_case trim is_space
on_load-do_export_json_example =
    on_load-do_export_json one_json (codes "71") (codes "x" ∷ []) two_cases other json_file
      (omega arith) (omega arith) refl refl refl
