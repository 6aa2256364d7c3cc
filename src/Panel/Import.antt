-- ===== src/Panel/Import.antt =====
-- Files of test cases: `exportJSON`, `doExport` and `onImportFile` of
-- web/app/src/playground/TestsPanel.tsx. JSON.parse and JSON.stringify are parameters.
pub mod Back
mod Tests
use zero_code.Base.{
  ℕ, Bool, ◌||◌, List, [], ◌∷◌, ◌++◌, map, Option, none, some, if◌then◌else◌, keep,
}
use zero_code.Base.Text.{Text, codes, starts_with, trim}
use zero_code.Api.Status.{Json, Items, nil, item, str, arr, obj, Members, end, member}
use zero_code.Panel.Csv.{Case, parse_csv, export_csv}
use zero_code.Panel.Cases.{
  TestCase, Panel, is_real_case, import_cases, nothing_to_export, import_failed,
}
use zero_code.Panel.Reload.{json_cases}

-- What JSON.parse does: a value, or an error with its message.
pub data Parsed : Type 0 where
  value : Json → Parsed
  threw : Text → Parsed

-- `JSON.parse(text)`, `JSON.stringify(j, null, 2)`, and the message of the error that reading a member
-- of null throws.
pub record JsonCodec : Type 0 where
  pub parse : Text → Parsed
  pub print : Json → Text
  pub null_message : Text

pub data Format : Type 0 where
  json csv : Format

-- `{ stdin: t.stdin, expected: t.expected }`
abbrev pub case_texts : TestCase → Case
case_texts t = record { stdin = t.stdin; expected = t.expected }

abbrev pub case_json : Case → Json
case_json c =
    obj (member (codes "stdin") (str c.stdin) (member (codes "expected") (str c.expected) end))

abbrev pub cases_json : List Case → Items
cases_json [] = nil
cases_json (c ∷ cs) = item (case_json c) (cases_json cs)

unfoldable pub export_json : JsonCodec → List Case → Text
export_json codec cs = codec.print (arr (cases_json cs))

-- The file that `downloadFile` is given.
pub record File : Type 0 where
  pub name : Text
  pub content : Text
  pub mime : Text

abbrev pub extension : Format → Text
extension json = codes "json"
extension csv = codes "csv"

unfoldable pub exported : JsonCodec → Format → Text → List Case → File
unfolding export_json export_csv
exported codec json name cs = record {
  name = name;
  content = export_json codec cs;
  mime = codes "application/json";
}
exported codec csv name cs = record {
  name = name;
  content = export_csv cs;
  mime = codes "text/csv";
}

-- What `doExport` does with the cases that are not empty.
unfoldable pub export_real : JsonCodec → Format → Text → List TestCase → Panel → Option File × Panel
unfolding exported
export_real codec format lang_id [] p = (none, record p { batch_error = some nothing_to_export })
export_real codec format lang_id (t ∷ ts) p = (
  some (
      exported codec format (codes "zerocode-tests-" ++ lang_id ++ codes "." ++ extension format)
        (map case_texts (t ∷ ts))),
  p,
)

-- `doExport`, for the text of the language's id: the file, if there is one, and the panel after it.
unfoldable pub do_export : JsonCodec → Format → Text → Panel → Option File × Panel
unfolding export_real
do_export codec format lang_id p = export_real codec format lang_id (keep is_real_case p.tests) p

-- `trimmed.startsWith('[') || trimmed.startsWith('{')`
unfoldable pub looks_like_json : Text → Bool
unfolding trim
looks_like_json text = starts_with (codes "[") (trim text) || starts_with (codes "{") (trim text)

abbrev pub import_rows : JsonCodec → List Text → Option (List Case) → Panel → Panel
import_rows codec ids none p = record p { batch_error = some (import_failed codec.null_message) }
import_rows codec ids (some rows) p = import_cases ids rows p

abbrev pub import_parsed : JsonCodec → List Text → Parsed → Panel → Panel
import_parsed codec ids (threw message) p = record p { batch_error = some (import_failed message) }
import_parsed codec ids (value j) p = import_rows codec ids (json_cases j) p

-- `reader.onload`, for the text of the file and the ids that would be drawn.
unfoldable pub on_load : JsonCodec → List Text → Text → Panel → Panel
unfolding looks_like_json json_cases import_cases parse_csv
on_load codec ids text p =
    if looks_like_json text
    then import_parsed codec ids (codec.parse text) p
    else import_cases ids (parse_csv text) p

-- `onImportFile`: nothing happens unless a file is chosen.
unfoldable pub on_import_file : JsonCodec → List Text → Option Text → Panel → Panel
unfolding on_load
on_import_file codec ids none p = p
on_import_file codec ids (some text) p = on_load codec ids text p
