-- ===== src/App/Draft/Tests.antt =====
-- The stored draft and history at a concrete session.
use zero_code.Base.{ℕ, ◌≡◌, refl, Bool, true, List, [], ◌∷◌, none, some}
use zero_code.Base.Text.{Text, codes}
use zero_code.Api.Status.{accepted}
use zero_code.Catalog.{langs}
use zero_code.Catalog.Core.{rust_entry}
use zero_code.Catalog.Pick.{rust_entry-Mem}
use zero_code.App.Run.{HistoryEntry}
use zero_code.App.Session.{RunLimits}
use zero_code.App.Draft.{draft_of, Storage, Codec, save_draft, save_history, open_session}
use zero_code.App.Draft.Reopened.{open_session-save_draft}

abbrev limits : RunLimits
limits = record { memory_mb = 64; time_s = 2 }

abbrev past : List HistoryEntry
past = record { name = codes "Rust"; verdict = accepted; time = none; token = codes "zc_1" } ∷ []

-- The empty program is a program like any other.
abbrev codec : Codec
codec = record {
  draft_text = λ d. codes "draft";
  parse_draft = λ t. some (draft_of rust_entry [] [] limits);
  history_text = λ h. codes "history";
  parse_history = λ t. some past;
}

abbrev empty : Storage
empty = record { state = none; history = none; readable = true; writable = true }

abbrev as_listed : Text → Text → Bool
as_listed a b = true

abbrev digit : ℕ → Text
digit n = n ∷ []

open_session-save_draft_example :
    open_session codec digit
      (langs as_listed)
      none
      (save_draft codec (draft_of rust_entry [] [] limits) (save_history codec past empty))
    ≡ some (record { lang = rust_entry; code = []; stdin = []; limits = limits; history = past })
open_session-save_draft_example =
    open_session-save_draft codec as_listed digit rust_entry [] [] limits past empty refl refl
      rust_entry-Mem (record { not_empty = λ e. cc; read_back = refl })
      (record { not_empty = λ e. cc; read_back = refl })
