-- ===== src/Editor/Widget/Sync.antt =====
-- The text of the playground and the text in the editor: what the user does, and the renders after it.
use zero_code.Base.{◌≡◌, refl, sym, ap, ◌∙◌, inl, inr, List, [], ◌∷◌, All, some, Bool-cases}
use zero_code.Base.Text.{Text, codes, text_eq, text_eq→eq}
use zero_code.Editor.{lang_id}
use zero_code.Editor.Widget.{
  Fired, Monaco, Widget, Event, edit, set_code, set_mode, press_format, remount, called, mount,
  code_effect, render, format, happen, settle, run, unmount,
}
use zero_code.Editor.Widget.Listeners.{
  IsHonest, IsMonaco, HonestEvent, Shows, Ready, Settled, notify-kept, called-code, honest-Shows,
}
use zero_code.Editor.Widget.Effects.{
  code_effect-Shows, code_effect-Shows_kept, effect_Shows, render-Settled, Settled-render,
  render-Shows_kept, code_effect-code, language_effect-code,
}

module _ (m : Monaco) where
  open m use {Buffer, get_value, set_value, set_position, set_model_language, focus, trigger}

  module _ (laws : IsMonaco m) where
    pub settle-Settled : (w : Widget m) → Ready m w → Settled m (settle m w)
    unfolding settle render
    settle-Settled w r =
        render-Settled m laws (render m w)
          (effect_Shows m laws (code_effect m w) (code_effect-Shows m laws w r))

    Shows-Ready : (w : Widget m) → Shows m w → Ready m w
    Shows-Ready w s = record { buffer = s.buffer; mounted = s.mounted; due = inr s.code_shown }

    format-Shows : (w : Widget m) → Shows m w → Shows m (format m w).0
    unfolding format
    format-Shows w s = rw s.mounted (
        honest-Shows m (trigger (codes "editor.action.reindentlines"))
          (trigger (codes "editor.action.formatDocument") (focus s.buffer)).0
          (called m (trigger (codes "editor.action.formatDocument") (focus s.buffer))
            (record w { editor = some s.buffer }))
          (laws.trigger_honest (codes "editor.action.reindentlines"))
          (called-code m (trigger (codes "editor.action.formatDocument")) (focus s.buffer)
            (record w { editor = some s.buffer })
            (laws.trigger_honest (codes "editor.action.formatDocument"))
            (s.code_shown ∙ sym (laws.focus_value s.buffer))))

    set_code-Ready : (t : Text) (w : Widget m) → Settled m w → Ready m (record w { code = t })
    set_code-Ready t w s = elim (Bool-cases (text_eq w.code t)) [
      | inl e ↦ record {
        buffer = s.shows.buffer;
        mounted = s.shows.mounted;
        due = inr (sym (text_eq→eq w.code t e) ∙ s.shows.code_shown);
      }
      | inr e ↦ record {
        buffer = s.shows.buffer;
        mounted = s.shows.mounted;
        due = inl (rw (s.code_seen, e) refl);
      }
    ]

    pub mount-Ready : (w : Widget m) → Ready m (mount m w)
    unfolding mount
    mount-Ready w = record {
      buffer = m.create w.code (lang_id w.mode);
      mounted = refl;
      due = inl refl;
    }

    happen-Ready :
        (e : Event m) (w : Widget m) → HonestEvent m e → Settled m w → Ready m (happen m e w)
    unfolding happen
    happen-Ready (edit f) w h s = rw s.shows.mounted (
        Shows-Ready _ (
          honest-Shows m f s.shows.buffer (record w { editor = some s.shows.buffer }) h
            s.shows.code_shown))
    happen-Ready (set_code t) w h s = set_code-Ready t w s
    happen-Ready (set_mode l) w h s = record {
      buffer = s.shows.buffer;
      mounted = s.shows.mounted;
      due = inr s.shows.code_shown;
    }
    happen-Ready press_format w h s = Shows-Ready _ (format-Shows w s.shows)
    happen-Ready remount w h s = mount-Ready (unmount m w)

    pub run-Settled :
        (es : List (Event m)) (w : Widget m)
        → All (HonestEvent m) es
        → Settled m w
        → Settled m (run m es w)
    unfolding run
    run-Settled [] w h s = s
    run-Settled (e ∷ es) w (h, hs) s =
        run-Settled es (settle m (happen m e w)) hs
          (settle-Settled (happen m e w) (happen-Ready e w h s))

    -- Whatever the user and the playground do to an editor that was mounted: after the two renders that
    -- follow each of these, the code of the playground is the text in the editor, and another render
    -- changes nothing.
    pub run-Shows :
        (es : List (Event m)) (w : Widget m)
        → All (HonestEvent m) es
        → let r = run m es (settle m (mount m w)) in
          (b : Buffer) × (r.editor ≡ some b) × (r.code ≡ get_value b) × (render m r ≡ r)
    run-Shows es w h =
        let s =
          run-Settled es (settle m (mount m w)) h (settle-Settled (mount m w) (mount-Ready w)) in
        (s.shows.buffer, s.shows.mounted, s.shows.code_shown, Settled-render m laws _ s)

    -- What the user types stays as it is: where nothing is left to do, an edit and the renders after it
    -- leave the editor as the edit left it, and the code of the playground is its text.
    pub settle-edit :
        (w : Widget m) (f : Buffer → Buffer × List Fired) (b : Buffer)
        → Settled m w
        → IsHonest m f
        → w.editor ≡ some b
        → let r = settle m (happen m (edit f) w) in
          (r.editor ≡ some (f b).0) × (r.code ≡ get_value (f b).0)
    unfolding settle happen
    settle-edit w f b s h mounted = rw mounted (
        rw
          (
            render-Shows_kept m laws q shown seen,
            render-Shows_kept m laws (record q { seen_code = some q.code }) again seen,
          )
          (kept.0, called-code m f b (record w { editor = some b }) h same_code))
      where
        same_code : w.code ≡ get_value b
        same_code = cc

        q : Widget m
        q = called m (f b) (record w { editor = some b })

        shown : Shows m q
        shown = honest-Shows m f b (record w { editor = some b }) h same_code

        kept :
            (q.editor ≡ some (f b).0)
            × (q.mode ≡ w.mode)
            × (q.seen_code ≡ w.seen_code)
            × (q.seen_mode ≡ w.seen_mode)
        kept = notify-kept m (f b).0 (f b).1 (record w { editor = some (f b).0 })

        again : Shows m (record q { seen_code = some q.code })
        again = record {
          buffer = shown.buffer;
          mounted = shown.mounted;
          code_shown = shown.code_shown;
        }

        seen : q.seen_mode ≡ some (lang_id q.mode)
        seen = kept.3 ∙ s.mode_seen ∙ ap (λ l. some (lang_id l)) (sym kept.1)

    -- A text that the playground sets is the text in the editor after the renders, if the editor takes
    -- it as it is.
    pub settle-set_code :
        (w : Widget m) (t : Text)
        → Settled m w
        → ((b : Buffer) → get_value (set_value t b).0 ≡ t)
        → let r = settle m (happen m (set_code t) w) in
          (b : Buffer) × (r.editor ≡ some b) × (get_value b ≡ t) × (r.code ≡ t)
    unfolding settle happen render
    settle-set_code w t s keeps =
        let q : Widget m = record w { code = t } in
        let r = set_code-Ready t w s in
        let done = (settle-Settled q r).shows in
        let first = effect_Shows m laws (code_effect m q) (code_effect-Shows m laws q r) in
        let code =
          language_effect-code m laws (code_effect m (render m q))
          ∙ ap (λ (v : Widget m). v.code) (code_effect-Shows_kept m laws (render m q) first)
          ∙ language_effect-code m laws (code_effect m q)
          ∙ code_effect-code m laws q r.buffer r.mounted (keeps r.buffer) in
        (done.buffer, done.mounted, sym done.code_shown ∙ code, code)
