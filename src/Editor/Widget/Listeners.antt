-- ===== src/Editor/Widget/Listeners.antt =====
-- What the listeners of the `Editor` component make of a call of Monaco, and the states that its
-- effects lead through.
use zero_code.Base.{
  ◌≡◌, refl, sym, ap, ◌∙◌, ◌⊎◌, inl, inr, Bool, true, false, List, [], ◌∷◌, any, Option, none, some,
  Bool-cases,
}
use zero_code.Base.Text.{Text, text_eq, text_eq→eq, text_eq_refl}
use zero_code.Editor.{lang_id}
use zero_code.Editor.Widget.{
  Position, Fired, content, cursor_at, Monaco, Widget, Event, edit, notify, called, changed,
}

abbrev pub is_content : Fired → Bool
is_content content = true
is_content (cursor_at p) = false

module _ (m : Monaco) where
  open m use {Buffer, get_value, set_value, set_position, set_model_language, focus, trigger}

  -- A call that changes the text says so.
  abbrev pub IsHonest : (Buffer → Buffer × List Fired) → Type 0
  IsHonest f = (b : Buffer) → any is_content (f b).1 ≡ false → get_value (f b).0 ≡ get_value b

  -- What the component relies on.
  pub record IsMonaco : Type 0 where
    pub set_value_fires : (t : Text) (b : Buffer) → any is_content (set_value t b).1 ≡ true
    pub set_position_value :
        (p : Position) (b : Buffer) → get_value (set_position p b).0 ≡ get_value b
    pub trigger_honest : (action : Text) → IsHonest (trigger action)
    pub focus_value : (b : Buffer) → get_value (focus b) ≡ get_value b
    pub language_value :
        (id : Text) (b : Buffer) → get_value (set_model_language id b) ≡ get_value b

  abbrev pub HonestEvent : Event m → Type 0
  HonestEvent (edit f) = IsHonest f
  HonestEvent _ = Unit

  -- There is an editor, and the code is its text.
  pub record Shows (w : Widget m) : Type 0 where
    pub buffer : Buffer
    pub mounted : w.editor ≡ some buffer
    pub code_shown : w.code ≡ get_value buffer

  pub notify-kept :
      (b : Buffer) (fs : List Fired) (w : Widget m)
      → ((notify m b fs w).editor ≡ w.editor)
        × ((notify m b fs w).mode ≡ w.mode)
        × ((notify m b fs w).seen_code ≡ w.seen_code)
        × ((notify m b fs w).seen_mode ≡ w.seen_mode)
  unfolding notify
  notify-kept b [] w = (refl, refl, refl, refl)
  notify-kept b (content ∷ fs) w = notify-kept b fs (record w { code = get_value b })
  notify-kept b (cursor_at p ∷ fs) w = notify-kept b fs (record w { cursor = p })

  -- The listeners leave the code right if it was, or if they were told.
  pub notify-code :
      (b : Buffer) (fs : List Fired) (w : Widget m)
      → (any is_content fs ≡ true) ⊎ (w.code ≡ get_value b)
      → (notify m b fs w).code ≡ get_value b
  unfolding notify
  notify-code b [] w (inl h) = cc
  notify-code b [] w (inr h) = h
  notify-code b (content ∷ fs) w h = notify-code b fs (record w { code = get_value b }) (inr refl)
  notify-code b (cursor_at p ∷ fs) w h = notify-code b fs (record w { cursor = p }) h

  pub called-Shows :
      (r : Buffer × List Fired) (w : Widget m)
      → (any is_content r.1 ≡ true) ⊎ (w.code ≡ get_value r.0)
      → Shows (called m r w)
  called-Shows (b, fs) w h = record {
    buffer = b;
    mounted = (notify-kept b fs (record w { editor = some b })).0;
    code_shown = notify-code b fs (record w { editor = some b }) h;
  }

  pub called-code :
      (f : Buffer → Buffer × List Fired) (b : Buffer) (w : Widget m)
      → IsHonest f
      → w.code ≡ get_value b
      → (called m (f b) w).code ≡ get_value (f b).0
  called-code f b w honest h = elim (Bool-cases (any is_content (f b).1)) [
    | inl e ↦ notify-code (f b).0 (f b).1 (record w { editor = some (f b).0 }) (inl e)
    | inr e ↦
        notify-code (f b).0 (f b).1 (record w { editor = some (f b).0 })
          (inr (h ∙ sym (honest b e)))
  ]

  pub honest-Shows :
      (f : Buffer → Buffer × List Fired) (b : Buffer) (w : Widget m)
      → IsHonest f
      → w.code ≡ get_value b
      → Shows (called m (f b) w)
  honest-Shows f b w honest h = record {
    buffer = (f b).0;
    mounted = (notify-kept (f b).0 (f b).1 (record w { editor = some (f b).0 })).0;
    code_shown = called-code f b w honest h;
  }

  -- There is an editor, and the code is its text or the effect on it will run.
  pub record Ready (w : Widget m) : Type 0 where
    pub buffer : Buffer
    pub mounted : w.editor ≡ some buffer
    pub due : (changed m w.seen_code w.code ≡ true) ⊎ (w.code ≡ get_value buffer)

  -- Nothing is left for the effects to do.
  pub record Settled (w : Widget m) : Type 0 where
    pub shows : Shows w
    pub code_seen : w.seen_code ≡ some w.code
    pub mode_seen : w.seen_mode ≡ some (lang_id w.mode)

  pub changed-seen : (o : Option Text) (t : Text) → changed m o t ≡ false → o ≡ some t
  changed-seen none t h = cc
  changed-seen (some s) t h = elim (Bool-cases (text_eq s t)) [
    | inl e ↦ ap some (text_eq→eq s t e)
    | inr e ↦ cc (rw e at h)
  ]

  pub changed-some : (t : Text) → changed m (some t) t ≡ false
  changed-some t = rw (text_eq_refl t) refl
