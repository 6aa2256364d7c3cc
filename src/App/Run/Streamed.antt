-- ===== src/App/Run/Streamed.antt =====
-- What a run has shown when its stream has finished.
use zero_code.Base.{
  ◌≡◌, refl, sym, ap, ap₂, subst, ◌∙◌, inl, inr, Bool, true, false, List, [], ◌∷◌, ◌++◌,
  append_assoc, append-nil, if◌then◌else◌, if_true, if_false, Bool-cases,
}
use zero_code.Base.Text.{Text, codes, text_eq, text_eq→eq, split_on}
use zero_code.Api.Status.{Json}
use zero_code.Api.Stream.{SseEvent}
use zero_code.App.Lines.{lf, flush_lines, flush_lines-append}
use zero_code.App.Run.{
  Run, Updaters, chunk_of, last_line, on_stdout, on_stderr, on_finished, on_event,
}
use zero_code.App.Run.Cancel.{on_events}
use zero_code.App.Run.Split.{final_lines, split_on-flush_lines, final_lines-rest}

-- What the lines shown so far and the buffer are, of a text that arrived.
record Holds (r : Run) (t : Text) : Type 0 where
  live : r.aborted ≡ false
  shown : r.view.output ≡ (flush_lines t).0
  buffered : r.stdout_buf ≡ (flush_lines t).1

module _ (to_lower decode kib_to_mib : Text → Text) (stringify to_text : Json → Text) (name : Text)
    (react : Updaters) where
  abbrev event : SseEvent Json → Run → Run
  event = on_event to_lower decode kib_to_mib stringify to_text name react

  -- What an event adds to the output of the program.
  abbrev pub stdout_chunk : SseEvent Json → Text
  stdout_chunk e =
      if text_eq e.event (codes "stdout")
      then chunk_of to_lower decode kib_to_mib stringify to_text name e
      else []

  abbrev pub stdout_text : List (SseEvent Json) → Text
  stdout_text [] = []
  stdout_text (e ∷ es) = stdout_chunk e ++ stdout_text es

  -- None of the events ends the stream.
  abbrev pub unfinished : List (SseEvent Json) → Bool
  unfinished [] = true
  unfinished (e ∷ es) =
      let rest = unfinished es in if text_eq e.event (codes "finished") then false else rest

  other_chunk :
      (e : SseEvent Json) (n : Text)
      → text_eq e.event n ≡ true
      → text_eq n (codes "stdout") ≡ false
      → stdout_chunk e ≡ []
  other_chunk e n h k =
      if_false (text_eq e.event (codes "stdout")) _ _
        (ap (λ m. text_eq m (codes "stdout")) (text_eq→eq e.event n h) ∙ k)

  -- An event that leaves the output alone adds nothing.
  Holds-kept :
      (r q : Run) (t c : Text)
      → Holds r t
      → c ≡ []
      → q.aborted ≡ r.aborted
      → q.view.output ≡ r.view.output
      → q.stdout_buf ≡ r.stdout_buf
      → Holds q (t ++ c)
  Holds-kept r q t c h e live shown buffered = record {
    live = live ∙ h.live;
    shown = shown ∙ h.shown ∙ ap (λ s. (flush_lines s).0) (sym (ap (λ d. t ++ d) e ∙ append-nil t));
    buffered =
        buffered
        ∙ h.buffered
        ∙ ap (λ s. (flush_lines s).1) (sym (ap (λ d. t ++ d) e ∙ append-nil t));
  }

  Holds-stdout :
      (r : Run) (t c : Text)
      → Holds r t
      → Holds (on_stdout to_lower decode kib_to_mib stringify to_text name c r) (t ++ c)
  unfolding on_stdout
  Holds-stdout r t c h = record {
    live = h.live;
    shown =
        ap₂ (λ o b. o ++ (flush_lines (b ++ c)).0) h.shown h.buffered
        ∙ sym (ap (λ p. p.0) (flush_lines-append t c));
    buffered =
        ap (λ b. (flush_lines (b ++ c)).1) h.buffered
        ∙ sym (ap (λ p. p.1) (flush_lines-append t c));
  }

  Holds-if :
      (b : Bool) (x y : Run) (s : Text)
      → (b ≡ true → Holds x s)
      → (b ≡ false → Holds y s)
      → Holds (if b then x else y) s
  Holds-if true x y s h k = h refl
  Holds-if false x y s h k = k refl

  Holds-event :
      (e : SseEvent Json) (r : Run) (t : Text)
      → Holds r t
      → text_eq e.event (codes "finished") ≡ false
      → Holds (event e r) (t ++ stdout_chunk e)
  unfolding on_event on_stderr text_eq
  Holds-event e r t h f =
      let s = t ++ stdout_chunk e in
      let chunk = chunk_of to_lower decode kib_to_mib stringify to_text name e in
      Holds-if r.aborted _ _ s (λ a. cc (a, h.live))
        (λ a.
          Holds-if (text_eq e.event (codes "processing")) _ _ s
            (λ p.
              Holds-kept r _ t (stdout_chunk e) h (other_chunk e (codes "processing") p refl) refl
                refl refl)
            (λ p.
              Holds-if (text_eq e.event (codes "stdout")) _ _ s
                (λ o.
                  subst
                    (λ c.
                      Holds (on_stdout to_lower decode kib_to_mib stringify to_text name chunk r)
                        (t ++ c))
                    (sym (if_true (text_eq e.event (codes "stdout")) chunk [] o))
                    (Holds-stdout r t chunk h))
                (λ o.
                  let none_added = if_false (text_eq e.event (codes "stdout")) chunk [] o in
                  Holds-if (text_eq e.event (codes "stderr")) _ _ s
                    (λ q. Holds-kept r _ t (stdout_chunk e) h none_added refl refl refl)
                    (λ q.
                      Holds-if (text_eq e.event (codes "finished")) _ _ s (λ g. cc (g, f))
                        (λ g.
                          Holds-if (text_eq e.event (codes "error")) _ _ s
                            (λ w. Holds-kept r _ t (stdout_chunk e) h none_added refl refl refl)
                            (λ w.
                              Holds-kept r _ t (stdout_chunk e) h none_added refl refl refl))))))

  Holds-events :
      (es : List (SseEvent Json)) (r : Run) (t : Text)
      → Holds r t
      → unfinished es ≡ true
      → Holds
          (on_events to_lower decode kib_to_mib stringify to_text name react es r)
          (t ++ stdout_text es)
  Holds-events [] r t h u = subst (Holds r) (sym (append-nil t)) h
  Holds-events (e ∷ es) r t h u = elim (Bool-cases (text_eq e.event (codes "finished"))) [
    | inl f ↦ cc (rw f at u)
    | inr f ↦
        subst
          (Holds (on_events to_lower decode kib_to_mib stringify to_text name react es (event e r)))
          (append_assoc t (stdout_chunk e) (stdout_text es))
          (Holds-events es (event e r) (t ++ stdout_chunk e) (Holds-event e r t h f) (rw f at u))
  ]

  output-if :
      (b : Bool) (x y : Run) (ls : List Text)
      → (b ≡ true → x.view.output ≡ ls)
      → (b ≡ false → y.view.output ≡ ls)
      → (if b then x else y).view.output ≡ ls
  output-if true x y ls h k = h refl
  output-if false x y ls h k = k refl

  -- The event has one name.
  one_name :
      (e : SseEvent Json) (n m : Text)
      → text_eq e.event m ≡ true
      → text_eq m n ≡ false
      → text_eq e.event n ≡ false
  one_name e n m h k = ap (λ w. text_eq w n) (text_eq→eq e.event m h) ∙ k

  output-finished :
      (e : SseEvent Json) (r : Run) (t : Text)
      → Holds r t
      → text_eq e.event (codes "finished") ≡ true
      → (event e r).view.output ≡ final_lines react.stdout_at (split_on lf t)
  unfolding on_event on_finished text_eq
  output-finished e r t h f =
      let ls = final_lines react.stdout_at (split_on lf t) in
      let fin = codes "finished" in
      output-if r.aborted _ _ ls (λ a. cc (a, h.live))
        (λ a.
          output-if (text_eq e.event (codes "processing")) _ _ ls
            (λ p. cc (p, one_name e (codes "processing") fin f refl))
            (λ p.
              output-if (text_eq e.event (codes "stdout")) _ _ ls
                (λ o. cc (o, one_name e (codes "stdout") fin f refl))
                (λ o.
                  output-if (text_eq e.event (codes "stderr")) _ _ ls
                    (λ q. cc (q, one_name e (codes "stderr") fin f refl))
                    (λ q.
                      output-if (text_eq e.event fin) _ _ ls (λ g. finished_output)
                        (λ g. cc (g, f))))))
    where
      finished_output :
          r.view.output ++ last_line react.stdout_at r.stdout_buf
          ≡ final_lines react.stdout_at (split_on lf t)
      finished_output =
          ap₂ ◌++◌ h.shown (ap (last_line react.stdout_at) h.buffered)
          ∙ sym (final_lines-rest react.stdout_at (flush_lines t).0 (flush_lines t).1)
          ∙ ap (final_lines react.stdout_at) (sym (split_on-flush_lines t))

  -- Whatever other events come in between and however the output was cut into chunks: when the stream of a
  -- run that shows no output yet and is not cancelled has finished, and React has rendered, the output
  -- shown is the lines of all that the program wrote, without an empty last one, if React runs the updater
  -- of the last line at the call; if it runs it when it renders, a last line that no newline ends is
  -- shown as an empty one.
  pub on_events-finished :
      (es : List (SseEvent Json)) (e : SseEvent Json) (r : Run)
      → r.aborted ≡ false
      → r.view.output ≡ []
      → r.stdout_buf ≡ []
      → unfinished es ≡ true
      → text_eq e.event (codes "finished") ≡ true
      → (on_event to_lower decode kib_to_mib stringify to_text name react e
          (on_events to_lower decode kib_to_mib stringify to_text name react es r)).view.output
        ≡ final_lines react.stdout_at (split_on b'\n' (stdout_text es))
  unfolding flush_lines
  on_events-finished es e r live blank clear u f =
      output-finished e (on_events to_lower decode kib_to_mib stringify to_text name react es r)
        (stdout_text es)
        (Holds-events es r [] (record { live = live; shown = blank; buffered = clear }) u) f
