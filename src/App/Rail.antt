-- ===== src/App/Rail.antt =====
-- The column of languages, and what the page shows around it: the list and the history of
-- `LanguagePicker`, the bar of errors, and the panes of `App`, in web/app/src/playground/App.tsx.
pub mod Selected
use zero_code.Base.{
  ℕ, Bool, true, false, List, [], ◌∷◌, ◌++◌, map, Option, none, some, if◌then◌else◌, is_empty, ◌==◌,
}
use zero_code.Base.Text.{Text, codes, text_eq}
use zero_code.Api.Status.{StatusKind, tag}
use zero_code.Catalog.{lang_key_from_id}
use zero_code.Catalog.Types.{Lang}
use zero_code.Panel.Cases.{Number}
use zero_code.App.Run.{
  HistoryEntry, ErrorMessage, submit_failed, stream_error, poll_failed, no_token, no_api_reachable,
}
use zero_code.App.Bar.{filtered, history_class, single}

-- A language in the list; without an icon there is a dot.
pub record LangRow : Type 0 where
  pub is_active : Bool
  pub accent : Text
  pub icon : Option Text
  pub name : Text
  pub version : Text
  pub id : ℕ

abbrev pub lang_row : Lang → Lang → LangRow
unfolding lang_key_from_id
lang_row selected l = record {
  is_active = selected.id == l.id;
  accent = l.accent;
  icon = lang_key_from_id l.id;
  name = l.name;
  version = l.version;
  id = l.id;
}

-- The list, or the text in its place.
pub record LangList : Type 0 where
  pub empty_text : Option Text
  pub rows : List LangRow

abbrev pub list_of : Lang → List Lang → LangList
list_of selected [] = record {
  empty_text = some (codes "no match · try clearing the search");
  rows = [];
}
list_of selected (l ∷ ls) = record { empty_text = none; rows = map (lang_row selected) (l ∷ ls) }

module _ (to_lower : Text → Text) (show_id : ℕ → Text) where
  unfoldable pub lang_list : (Text → Text → Bool) → Lang → Text → LangList
  unfolding filtered
  lang_list name_le selected q = list_of selected (filtered to_lower show_id name_le q)

-- A run in the history: the name, the class of the text behind it, and that text; `to_fixed` is
-- `toFixed(3)`.
pub record HistoryRow : Type 0 where
  pub name : Text
  pub class : Text
  pub text : Text

module _ (to_fixed : Number → Text) where
  abbrev pub time_text : Option Number → Text
  time_text none = codes "pending"
  time_text (some t) = to_fixed t ++ codes "s"

  abbrev pub history_row : HistoryEntry → HistoryRow
  unfolding history_class tag
  history_row h = record {
    name = h.name;
    class = history_class h.verdict;
    text = tag h.verdict ++ codes " · " ++ time_text h.time;
  }

  abbrev pub no_runs : HistoryRow
  no_runs = record { name = []; class = codes "t"; text = codes "no runs yet" }

  -- The rows below `history · session`.
  unfoldable pub history_rows : List HistoryEntry → List HistoryRow
  history_rows [] = no_runs ∷ []
  history_rows (h ∷ hs) = map history_row (h ∷ hs)

abbrev pub or_unknown : Text → Text
or_unknown [] = codes "unknown"
or_unknown (c ∷ s) = c ∷ s

-- The messages that are made of a text.
abbrev pub stream_message : Text → Text
stream_message raw = codes "stream error: " ++ or_unknown raw

abbrev pub poll_message : Text → Text
poll_message e = codes "stream + poll failed: " ++ e

abbrev pub no_token_message : Text
no_token_message = codes "server returned no token"

abbrev pub no_api_message : Text
no_api_message = codes "No ZeroCode API is reachable. Make sure the service is running."

-- `error.message`
unfoldable pub error_text : ErrorMessage → Text
error_text (submit_failed e) = e
error_text no_token = no_token_message
error_text (stream_error raw) = stream_message raw
error_text (poll_failed e) = poll_message e
error_text no_api_reachable = no_api_message

-- `error.retry`
unfoldable pub has_retry : ErrorMessage → Bool
has_retry (submit_failed e) = true
has_retry no_token = true
has_retry (stream_error raw) = false
has_retry (poll_failed e) = true
has_retry no_api_reachable = false

-- The bar below that of the workspace.
pub record ErrorBar : Type 0 where
  pub message : Text
  pub retry : Bool

unfoldable pub error_bar : Option ErrorMessage → Option ErrorBar
unfolding error_text has_retry
error_bar none = none
error_bar (some m) = some (record { message = codes "✗ " ++ error_text m; retry = has_retry m })

-- What stands below the editor.
pub data IoPane : Type 0 where
  stdin_panel output_pane tests_panel : IoPane

unfoldable pub io_row : Text → List IoPane
unfolding text_eq
io_row mode = if text_eq mode single then stdin_panel ∷ output_pane ∷ [] else tests_panel ∷ []
