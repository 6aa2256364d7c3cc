-- ===== src/Panel/Tests.antt =====
-- Tests of the test-case panel, and the theorems about it at concrete inputs.
use zero_code.Base.{
  ℕ, ◌≡◌, ◌≢◌, ◌≤◌, ◌↔◌, refl, true, false, List, [], ◌∷◌, none, some, length, arith, replicate,
}
use Prim.Native.String.{String}
use zero_code.Base.Text.{Text, codes, text_eq}
use zero_code.Api.Status.{accepted, text}
use zero_code.Panel.Csv.{Case, parse_csv, export_csv}
use zero_code.Panel.Csv.Fields.{remove_cr}
use zero_code.Panel.Csv.RoundTrip.{parse_csv-export_csv}
use zero_code.Panel.Diff.{line_diff, split_lines, line, same, add, del}
use zero_code.Panel.Diff.Lines.{old_lines, new_lines, kept_lines, line_diff-lines}
use zero_code.Panel.Diff.Lcs.{Subseq}
use zero_code.Panel.Diff.Optimal.{line_diff-longest}
use zero_code.Panel.Compare.{trim, exact, compare}
use zero_code.Panel.Store.{Buckets, save_bucket, has}
use zero_code.Panel.Store.Bounds.{length-save_bucket}
use zero_code.Panel.Cases.{Panel, new_case, import_cases, pass}
use zero_code.Panel.Cases.Invariant.{Inv, without_results}
use zero_code.Panel.Cases.Steps.{act, act-Inv, load, import_cases-silent}
use zero_code.Base.{map}
use zero_code.Panel.Reload.{hydrate, to_bucket}
use zero_code.Panel.Reload.Kept.{hydrate-to_bucket}
use zero_code.Panel.Run.{SubmissionView, judge, assign_tokens, apply_view}
use zero_code.Panel.Run.Verdict.{judge-pass}
use zero_code.Panel.Run.Pairing.{grade, apply_view-assign_tokens}

abbrev case : String → String → Case
case s e = record { stdin = codes s; expected = codes e }

abbrev exported : List Case
exported = case "1,2" "say \"hi\"" ∷ case "a\nb" "" ∷ case "x\r" "y" ∷ []

csv_text :
    export_csv exported ≡ codes "stdin,expected\n\"1,2\",\"say \"\"hi\"\"\"\n\"a\nb\",\nx\r,y\n"
unfolding export_csv
csv_text = refl

parse_csv-export_csv_example :
    parse_csv (export_csv exported) ≡ case "1,2" "say \"hi\"" ∷ case "a\nb" "" ∷ case "x" "y" ∷ []
unfolding remove_cr
parse_csv-export_csv_example = parse_csv-export_csv exported

abbrev portable : List Case
portable = case "1,2" "say \"hi\"" ∷ case "a\r\nb" "" ∷ []

abbrev old_text : Text
old_text = codes "a\nb\nc"

abbrev new_text : Text
new_text = codes "b\r\nx\r\nc"

diff_test :
    line_diff old_text new_text
    ≡ line del (codes "a")
      ∷ line same (codes "b")
      ∷ line add (codes "x")
      ∷ line same (codes "c")
      ∷ []
unfolding line_diff
diff_test = refl

line_diff-lines_example :
    (old_lines (line_diff old_text new_text) ≡ split_lines old_text)
    × (new_lines (line_diff old_text new_text) ≡ split_lines new_text)
line_diff-lines_example = line_diff-lines old_text new_text

line_diff-longest_example :
    Subseq (kept_lines (line_diff old_text new_text)) (split_lines old_text)
    × Subseq (kept_lines (line_diff old_text new_text)) (split_lines new_text)
    × ((zs : List Text)
        → Subseq zs (split_lines old_text)
        → Subseq zs (split_lines new_text)
        → length zs ≤ length (kept_lines (line_diff old_text new_text)))
line_diff-longest_example = line_diff-longest old_text new_text

abbrev two_buckets : Buckets ℕ
two_buckets = (codes "71:a", 1) ∷ (codes "73:b", 2) ∷ []

length-save_bucket_example : length (save_bucket {B = ℕ} (codes "60:c") 3 two_buckets) ≡ 3
unfolding has
length-save_bucket_example = length-save_bucket (codes "60:c") 3 two_buckets

abbrev panel : Panel
panel = record {
  tests = new_case (codes "tc_1") (codes "7") (codes "49") ∷ new_case (codes "tc_2") [] [] ∷ [];
  mode = trim;
  stop_on_fail = false;
  running = false;
  batch_error = none;
  collapsed = [];
}

panel-Inv : Inv panel
unfolding new_case text_eq
panel-Inv = record {
  some_case = omega arith;
  within_batch = omega arith;
  distinct = (refl, (refl, tt));
}

act-Inv_example : Inv (act (load (codes "tc_3" ∷ []) (case "1" "1" ∷ [])) panel)
act-Inv_example =
    act-Inv (load (codes "tc_3" ∷ []) (case "1" "1" ∷ [])) panel ((refl, tt), omega arith) panel-Inv

abbrev many_cases : List Case
many_cases = replicate 101 (case "1" "1")

abbrev many_ids : List Text
many_ids = replicate 101 (codes "tc_3")

import_cases-silent_example :
    ((import_cases many_ids many_cases panel).batch_error ≡ none)
    × (length (import_cases many_ids many_cases panel).tests ≡ 100)
import_cases-silent_example =
    import_cases-silent many_ids many_cases panel (omega arith) (omega arith)

judge-pass_example : (judge trim accepted (codes "49\n") (codes "49") ≡ some pass) ↔ (
    (accepted ≡ accepted) × (codes "49" ≢ []) × (compare (codes "49\n") (codes "49") trim ≡ true))
judge-pass_example = judge-pass trim accepted (codes "49\n") (codes "49")

judge-trim : judge trim accepted (codes "49 \n") (codes "49") ≡ some pass
unfolding judge
judge-trim = refl

abbrev same_text : Text → Text
same_text s = s

abbrev item : SubmissionView
item = record {
  token = codes "t1";
  status = text (codes "accepted");
  stdout = some (codes "49");
  stderr = none;
  compile_output = none;
  exit_code = none;
  wall_time = none;
  memory = none;
  signal = none;
}

apply_view-assign_tokens_example :
    (apply_view same_text same_text
      (item ∷ [])
      (codes "t1" ∷ [])
      (record panel { tests = assign_tokens (codes "t1" ∷ []) 0 panel.tests })).tests
    ≡ grade same_text same_text trim (codes "t1" ∷ []) (item ∷ []) panel.tests
unfolding new_case text_eq
apply_view-assign_tokens_example =
    apply_view-assign_tokens same_text same_text trim (codes "t1" ∷ []) (item ∷ []) panel refl
      (refl, (refl, tt)) (refl, tt) refl refl refl

abbrev drawn : ℕ → Text
drawn n = codes "tc_new"

-- A panel of another source, with another mode and switch.
abbrev other_panel : Panel
other_panel = record panel {
  tests = new_case (codes "z") (codes "8") [] ∷ [];
  mode = exact;
  stop_on_fail = true;
  collapsed = codes "z" ∷ [];
}

hydrate-to_bucket_example :
    hydrate drawn (some (to_bucket panel)) other_panel ≡ record other_panel {
      tests = map without_results panel.tests;
      mode = panel.mode;
      stop_on_fail = panel.stop_on_fail;
      collapsed = [];
    }
unfolding new_case
hydrate-to_bucket_example =
    hydrate-to_bucket drawn panel other_panel (λ e. cc) ((λ e. cc), ((λ e. cc), tt))
