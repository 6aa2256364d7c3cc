-- ===== src/Editor/Widget/Effects.antt =====
-- The effects of the `Editor` component, from a state in which they are due or have nothing to do.
use zero_code.Base.{
  ◌≡◌, refl, sym, ap, ◌∙◌, ◌⊎◌, inl, inr, true, false, List, any, Option, none, some, Bool-cases,
}
use zero_code.Base.Text.{Text, text_eq, text_eq→eq, text_eq_refl}
use zero_code.Editor.{lang_id}
use zero_code.Editor.Widget.{
  Position, Fired, Monaco, Widget, called, changed, put_code, restore, put_mode, code_effect,
  language_effect, render,
}
use zero_code.Editor.Widget.Listeners.{
  is_content, IsMonaco, Shows, Ready, Settled, notify-code, called-Shows, called-code, honest-Shows,
  changed-seen, changed-some,
}

module _ (m : Monaco) where
  open m use {Buffer, get_value, set_value, set_position, set_model_language, focus, trigger}

  module _ (laws : IsMonaco m) where
    restore-Shows :
        (p : Option Position) (r : Buffer × List Fired) (w : Widget m)
        → any is_content r.1 ≡ true
        → Shows m (restore m p r w)
    restore-Shows none r w h = called-Shows m r w (inl h)
    restore-Shows (some p) (b, fs) w h =
        honest-Shows m (set_position p) b (called m (b, fs) w) (λ c h. laws.set_position_value p c)
          (notify-code m b fs (record w { editor = some b }) (inl h))

    -- The code is the text that was set, if the editor has it as it was given.
    restore-code :
        (p : Option Position) (t : Text) (b : Buffer) (w : Widget m)
        → get_value (set_value t b).0 ≡ t
        → (restore m p (set_value t b) w).code ≡ t
    restore-code none t b w keeps =
        notify-code m (set_value t b).0 (set_value t b).1
          (record w { editor = some (set_value t b).0 }) (inl (laws.set_value_fires t b))
        ∙ keeps
    restore-code (some p) t b w keeps =
        called-code m (set_position p) (set_value t b).0 (called m (set_value t b) w)
          (λ c h. laws.set_position_value p c)
          (notify-code m (set_value t b).0 (set_value t b).1
            (record w { editor = some (set_value t b).0 }) (inl (laws.set_value_fires t b)))
        ∙ laws.set_position_value p (set_value t b).0
        ∙ keeps

    pub code_effect-code :
        (w : Widget m) (b : Buffer)
        → w.editor ≡ some b
        → get_value (set_value w.code b).0 ≡ w.code
        → (code_effect m w).code ≡ w.code
    unfolding code_effect
    code_effect-code w b mounted keeps = elim (Bool-cases (changed m w.seen_code w.code)) [
      | inl e ↦
          rw (e, mounted)
            (elim (Bool-cases (text_eq (get_value b) w.code)) [
              | inl same ↦ rw same refl
              | inr other ↦ rw other (restore-code (m.get_position b) w.code b _ keeps)
            ])
      | inr e ↦ rw e refl
    ]

    put_code-Shows :
        (t : Text) (b : Buffer) (w : Widget m)
        → w.editor ≡ some b
        → w.code ≡ t
        → Shows m (put_code m t (some b) w)
    put_code-Shows t b w mounted h = elim (Bool-cases (text_eq (get_value b) t)) [
      | inl e ↦ rw e (record {
        buffer = b;
        mounted = mounted;
        code_shown = h ∙ sym (text_eq→eq (get_value b) t e);
      })
      | inr e ↦ rw e (restore-Shows (m.get_position b) (set_value t b) w (laws.set_value_fires t b))
    ]

    pub code_effect-Shows : (w : Widget m) → Ready m w → Shows m (code_effect m w)
    unfolding code_effect
    code_effect-Shows w r = elim (Bool-cases (changed m w.seen_code w.code)) [
      | inl e ↦
          rw (e, r.mounted)
            (put_code-Shows w.code r.buffer
              (record w { editor = some r.buffer; seen_code = some w.code }) refl refl)
      | inr e ↦ rw e (record { buffer = r.buffer; mounted = r.mounted; code_shown = shown e r.due })
    ]
      where
        shown :
            changed m w.seen_code w.code ≡ false
            → (changed m w.seen_code w.code ≡ true) ⊎ (w.code ≡ get_value r.buffer)
            → w.code ≡ get_value r.buffer
        shown e (inl h) = cc
        shown e (inr h) = h

    -- The effect on the code leaves an editor that shows it alone.
    pub code_effect-Shows_kept :
        (w : Widget m) → Shows m w → code_effect m w ≡ record w { seen_code = some w.code }
    unfolding code_effect
    code_effect-Shows_kept w s = elim (Bool-cases (changed m w.seen_code w.code)) [
      | inl e ↦ rw (e, s.mounted, same) refl
      | inr e ↦ rw e (ap (λ o. record w { seen_code = o }) (changed-seen m w.seen_code w.code e))
    ]
      where
        same : text_eq (get_value s.buffer) w.code ≡ true
        same = rw s.code_shown (text_eq_refl (get_value s.buffer))

    put_mode-Shows : (id : Text) (w : Widget m) → Shows m w → Shows m (put_mode m id w.editor w)
    put_mode-Shows id w s = rw s.mounted (elim (Bool-cases (m.has_model s.buffer)) [
      | inl e ↦ rw e (record {
        buffer = set_model_language id s.buffer;
        mounted = refl;
        code_shown = s.code_shown ∙ sym (laws.language_value id s.buffer);
      })
      | inr e ↦ rw e (record { buffer = s.buffer; mounted = refl; code_shown = s.code_shown })
    ])

    put_mode-kept :
        (id : Text) (o : Option Buffer) (w : Widget m)
        → ((put_mode m id o w).code ≡ w.code)
          × ((put_mode m id o w).mode ≡ w.mode)
          × ((put_mode m id o w).seen_code ≡ w.seen_code)
          × ((put_mode m id o w).seen_mode ≡ w.seen_mode)
    put_mode-kept id none w = (refl, refl, refl, refl)
    put_mode-kept id (some b) w = elim (Bool-cases (m.has_model b)) [
      | inl e ↦ rw e (refl, refl, refl, refl)
      | inr e ↦ rw e (refl, refl, refl, refl)
    ]

    pub effect_Shows : (w : Widget m) → Shows m w → Shows m (language_effect m w)
    unfolding language_effect
    effect_Shows w s = elim (Bool-cases (changed m w.seen_mode (lang_id w.mode))) [
      | inl e ↦ rw e (
          put_mode-Shows (lang_id w.mode) (record w { seen_mode = some (lang_id w.mode) })
            (record { buffer = s.buffer; mounted = s.mounted; code_shown = s.code_shown }))
      | inr e ↦ rw e s
    ]

    pub language_effect-Settled :
        (w : Widget m) → Shows m w → w.seen_code ≡ some w.code → Settled m (language_effect m w)
    unfolding language_effect
    language_effect-Settled w s seen = elim (Bool-cases (changed m w.seen_mode (lang_id w.mode))) [
      | inl e ↦
          let q = record w { seen_mode = some (lang_id w.mode) } in
          let k = put_mode-kept (lang_id w.mode) w.editor q in
          rw e (record {
            shows =
                put_mode-Shows (lang_id w.mode) q
                  (record { buffer = s.buffer; mounted = s.mounted; code_shown = s.code_shown });
            code_seen = k.2 ∙ seen ∙ ap some (sym k.0);
            mode_seen = k.3 ∙ ap (λ l. some (lang_id l)) (sym k.1);
          })
      | inr e ↦ rw e (record {
        shows = s;
        code_seen = seen;
        mode_seen = changed-seen m w.seen_mode (lang_id w.mode) e;
      })
    ]

    pub render-Settled : (w : Widget m) → Shows m w → Settled m (render m w)
    unfolding render
    render-Settled w s = rw (code_effect-Shows_kept w s) (
        language_effect-Settled (record w { seen_code = some w.code })
          (record { buffer = s.buffer; mounted = s.mounted; code_shown = s.code_shown }) refl)

    -- A settled component renders without any effect.
    pub Settled-render : (w : Widget m) → Settled m w → render m w ≡ w
    unfolding render language_effect
    Settled-render w s =
        rw
          (
            code_effect-Shows_kept w s.shows,
            ← s.code_seen,
            s.mode_seen,
            changed-some m (lang_id w.mode),
          )
          refl

    language_effect-seen :
        (w : Widget m) → w.seen_mode ≡ some (lang_id w.mode) → language_effect m w ≡ w
    unfolding language_effect
    language_effect-seen w h = rw (h, changed-some m (lang_id w.mode)) refl

    -- Where the language is as it was, a render leaves an editor that shows the code alone.
    pub render-Shows_kept :
        (w : Widget m)
        → Shows m w
        → w.seen_mode ≡ some (lang_id w.mode)
        → render m w ≡ record w { seen_code = some w.code }
    unfolding render
    render-Shows_kept w s h =
        rw (code_effect-Shows_kept w s)
          (language_effect-seen (record w { seen_code = some w.code }) h)

    pub language_effect-code : (w : Widget m) → (language_effect m w).code ≡ w.code
    unfolding language_effect
    language_effect-code w = elim (Bool-cases (changed m w.seen_mode (lang_id w.mode))) [
      | inl e ↦
          rw e
            (put_mode-kept (lang_id w.mode) w.editor
              (record w { seen_mode = some (lang_id w.mode) })).0
      | inr e ↦ rw e refl
    ]
