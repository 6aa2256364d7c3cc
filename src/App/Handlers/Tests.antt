-- ===== src/App/Handlers/Tests.antt =====
-- The handlers at concrete events.
use zero_code.Base.{ℕ, ◌≡◌, refl, true, false, [], ◌∷◌, List, none, map, length}
use zero_code.Base.Text.{Text, codes}
use zero_code.Api.Status.{Json, idle}
use zero_code.Catalog.Core.{rust_entry}
use zero_code.App.Run.{View, start}
use zero_code.App.Handlers.{
  Core, Event, type_code, connected, key_enter, click, answered, handle_all, mount,
}
use zero_code.App.Handlers.Current.{current_all, handle_all-current_all}

abbrev show : ℕ → Text
show n = n ∷ []

abbrev stringify : Json → Text
stringify j = []

abbrev view : View
view = record {
  status = idle;
  status_detail = none;
  output = [];
  stderr = [];
  compile_output = [];
  metrics = record { time = none; memory = none; exit_code = none; signal = none };
  token = codes "zc_1";
  history = [];
  error = none;
}

abbrev core : Core
unfolding start
core = record {
  session = record {
    lang = rust_entry;
    code = codes "old";
    stdin = [];
    limits = record { memory_mb = 64; time_s = 2 };
    run = record (start view) { view = view; held = false };
  };
  api_online = true;
  waiting = 0;
  sent = [];
}

abbrev offline : Core
unfolding start
offline = record core { api_online = false }

-- What the key submits is what was typed before it.
typed_test :
    map
      (λ s. s.source_code)
      (handle_all show stringify
        (type_code (codes "new") ∷ key_enter 1 ∷ [])
        (mount core)).core.sent
    ≡ codes "new" ∷ []
unfolding handle_all mount
typed_test = refl

-- Two presses while the probe has not answered are two submissions.
two_presses_test :
    length
      (handle_all show stringify
        (click 1 ∷ click 1 ∷ answered true 2 ∷ answered true 2 ∷ [])
        (mount offline)).core.sent
    ≡ 2
unfolding handle_all mount
two_presses_test = refl

abbrev events : List Event
events = type_code (codes "new") ∷ connected true ∷ key_enter 1 ∷ []

handle_all-current_all_example :
    (handle_all show stringify events (mount offline)).core
    ≡ current_all show stringify events offline
handle_all-current_all_example = handle_all-current_all show stringify events offline
