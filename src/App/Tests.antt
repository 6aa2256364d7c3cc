-- ===== src/App/Tests.antt =====
-- Tests of the playground, and the theorems about it at concrete inputs.
use zero_code.Base.{List, ◌≡◌, refl, false, [], ◌∷◌, none}
use zero_code.Base.Text.{split_on, text_eq, Text, codes}
use zero_code.Api.Status.{Json, status_kind, idle, processing, text}
use zero_code.Api.Stream.{SseEvent}
use zero_code.Api.Poll.{ok, returned}
use zero_code.Panel.Run.{SubmissionView}
use zero_code.Base.{arith}
use zero_code.App.Layout.{Layout, Axis, forward, resize}
use zero_code.App.Layout.Bounds.{Fits, resize-Fits}
use zero_code.Base.{if◌then◌else◌}
use zero_code.App.Drawer.{open_picker, key, handle, handle_all, closed_drawer}
use zero_code.App.Drawer.Restored.{handle_all-closed_drawer}
use zero_code.App.Lines.{flush_lines}
use zero_code.App.Run.Split.{final_lines, blank_last_line}
use zero_code.App.Run.Streamed.{on_events-finished}
use zero_code.App.Run.{
  on_event, View, Run, start, on_cancel, on_ack, is_busy, Updaters, at_render, Heard, sse, broke,
  poll_ended,
}
use zero_code.Base.{true, length, suc}
use zero_code.Api.Status.{ce}
use zero_code.Catalog.Core.{rust_entry}
use zero_code.App.Tabs.{Props, Pane, compile, stderr, render, offered, no_marks}
use zero_code.App.Tabs.Shown.{render-offered}
use zero_code.App.Tabs.Picked.{render-picked}
use zero_code.App.Session.{demo_ticks}
use zero_code.App.Session.Demo.{IsComplete, demo_ticks-IsComplete}
use zero_code.App.Run.Cancel.{hear_all, on_events, on_cancel-final, on_ack-cancelled_stuck}

flush_lines_test : flush_lines (codes "a\nb\nc") ≡ (codes "a" ∷ codes "b" ∷ [], codes "c")
unfolding flush_lines
flush_lines_test = refl

abbrev view : View
view = record {
  status = idle;
  status_detail = none;
  output = [];
  stderr = [];
  compile_output = [];
  metrics = record { time = none; memory = none; exit_code = none; signal = none };
  token = codes "zc_1";
  history = [];
  error = none;
}

abbrev same_text : Text → Text
same_text s = s

abbrev no_text : Json → Text
no_text j = []

abbrev queued_ack : SubmissionView
queued_ack = record {
  token = codes "t1";
  status = text (codes "queued");
  stdout = none;
  stderr = none;
  compile_output = none;
  exit_code = none;
  wall_time = none;
  memory = none;
  signal = none;
}

abbrev stdout_event : SseEvent Json
stdout_event = record { event = codes "stdout"; json = none; raw = codes "49" }

abbrev react : Updaters
react = record { stdout_at = at_render; stderr_at = at_render }

-- The run is polling when it is cancelled, and then the poll answers.
abbrev polling_run : Run
unfolding start
polling_run = record (start view) { polling = true }

abbrev brought : List Heard
brought = sse stdout_event ∷ broke ∷ poll_ended (returned queued_ack) ∷ []

on_cancel-final_example :
    (record (hear_all same_text same_text same_text no_text no_text
        (codes "C")
        react
        brought
        (on_cancel polling_run)) { polling = false }
      ≡ record (on_cancel polling_run) { polling = false })
    × (is_busy (on_cancel polling_run).view.status ≡ false)
unfolding polling_run
on_cancel-final_example =
    on_cancel-final same_text same_text same_text no_text no_text (codes "C") react brought
      polling_run refl

on_ack-cancelled_stuck_example :
    (hear_all same_text same_text same_text no_text no_text (codes "C") react brought (
      on_ack same_text same_text same_text no_text no_text
        (codes "C")
        (ok queued_ack)
        (on_cancel (start view)))).view.status
    ≡ processing
unfolding status_kind
on_ack-cancelled_stuck_example =
    on_ack-cancelled_stuck same_text same_text same_text no_text no_text (codes "C") react view
      queued_ack brought refl refl

-- A compilation failed and the compile tab shows; then its text goes.
abbrev failed_build : Props
failed_build = record { status = ce; stderr = codes "warning" ∷ []; compile_output = codes "error" }

abbrev next_run : Props
next_run = record { status = processing; stderr = []; compile_output = [] }

abbrev on_compile_tab : Pane
on_compile_tab = record {
  tab = compile;
  user_picked = false;
  prev_status = ce;
  prev_stderr_len = 1;
  prev_compile_len = 5;
  unseen = no_marks;
}

abbrev on_stderr_tab : Pane
on_stderr_tab = record on_compile_tab { tab = stderr; user_picked = true }

render-offered_example : offered next_run (render failed_build next_run on_compile_tab).tab ≡ true
unfolding offered
render-offered_example = render-offered failed_build next_run on_compile_tab refl

render-picked_example : (render next_run failed_build on_stderr_tab).tab ≡ stderr
unfolding offered
render-picked_example = render-picked next_run failed_build on_stderr_tab refl refl refl

demo_ticks-IsComplete_example : IsComplete rust_entry (
    demo_ticks rust_entry
      (suc (length rust_entry.output))
      (record { i = 0; done = false; view = view }))
demo_ticks-IsComplete_example = demo_ticks-IsComplete rust_entry view refl

abbrev window_layout : Layout
window_layout = record { rail = 240; editor = 420; stdin_w = 360; history_h = 200 }

layout_Fits : Fits 1280 800 window_layout
layout_Fits = record {
  rail_fits = (omega arith, omega arith);
  editor_fits = (omega arith, omega arith);
  stdin_fits = (omega arith, omega arith);
  history_fits = (omega arith, omega arith);
}

resize-Fits_example : Fits 1280 800 (resize 1280 800 Axis.editor (forward 900) window_layout)
resize-Fits_example =
    resize-Fits 1280 800 Axis.editor (forward 900) window_layout (omega arith) (omega arith)
      layout_Fits

abbrev stderr_event : SseEvent Json
stderr_event = record { event = codes "stderr"; json = none; raw = codes "oops" }

abbrev finished_event : SseEvent Json
finished_event = record { event = codes "finished"; json = none; raw = [] }

abbrev two_lines : SseEvent Json
two_lines = record { event = codes "stdout"; json = none; raw = codes "a\nb" }

-- React renders after both events: the line that no newline ends is shown as an empty one.
on_events-finished_example :
    (on_event same_text same_text same_text no_text no_text (codes "C") react finished_event (
      on_events same_text same_text same_text no_text no_text
        (codes "C")
        react
        (stderr_event ∷ two_lines ∷ [])
        (start view))).view.output
    ≡ codes "a" ∷ [] ∷ []
unfolding start text_eq final_lines blank_last_line split_on
on_events-finished_example =
    on_events-finished same_text same_text same_text no_text no_text (codes "C") react
      (stderr_event ∷ two_lines ∷ []) finished_event (start view) refl refl refl refl refl

handle_all-closed_drawer_example :
    let d = handle_all (open_picker ∷ key (codes "a") ∷ []) (closed_drawer (codes "auto")) in
    (d.overflow ≡ (if d.picker_open then codes "hidden" else codes "auto"))
    × ((handle (key (codes "Escape")) d).overflow ≡ codes "auto")
handle_all-closed_drawer_example =
    handle_all-closed_drawer (codes "auto") (open_picker ∷ key (codes "a") ∷ [])
