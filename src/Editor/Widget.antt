-- ===== src/Editor/Widget.antt =====
-- The `Editor` component of web/app/src/playground/Editor.tsx: Monaco's buffer beside the `code` and
-- `language` of the playground, which own the text. Monaco is a record of what the component calls.
pub mod Listeners
pub mod Effects
pub mod Sync
mod Tests
use zero_code.Base.{ℕ, Bool, true, false, not, List, [], ◌∷◌, Option, none, some, if◌then◌else◌}
use zero_code.Base.Text.{Text, codes, text_eq}
use zero_code.Catalog.Types.{CmLang}
use zero_code.Editor.{lang_id}

-- `{ line, col }`
pub record Position : Type 0 where
  pub line : ℕ
  pub col : ℕ

-- What a call of Monaco, or the user, makes it fire before it returns.
pub data Fired : Type 0 where
  content : Fired
  cursor_at : Position → Fired

-- An editor as Monaco keeps it; a call gives the editor as it is then, and what was fired.
pub record Monaco : Type 1 where
  pub Buffer : Type 0
  pub create : Text → Text → Buffer
  pub get_value : Buffer → Text
  pub set_value : Text → Buffer → Buffer × List Fired
  pub get_position : Buffer → Option Position
  pub set_position : Position → Buffer → Buffer × List Fired
  pub has_model : Buffer → Bool
  pub set_model_language : Text → Buffer → Buffer
  pub language : Buffer → Text
  pub focus : Buffer → Buffer
  pub trigger : Text → Buffer → Buffer × List Fired

module _ (m : Monaco) where
  open m use {
    Buffer, create, get_value, set_value, get_position, set_position, has_model, set_model_language,
    focus, trigger,
  }

  -- `code`, `language` and `cursor` of the playground, `editorRef`, and the properties that the two
  -- effects with dependencies last ran with.
  pub record Widget : Type 0 where
    pub code : Text
    pub mode : CmLang
    pub cursor : Position
    pub editor : Option Buffer
    pub seen_code : Option Text
    pub seen_mode : Option Text

  -- The two listeners, for what one call fired.
  unfoldable pub notify : Buffer → List Fired → Widget → Widget
  notify b [] w = w
  notify b (content ∷ fs) w = notify b fs (record w { code = get_value b })
  notify b (cursor_at p ∷ fs) w = notify b fs (record w { cursor = p })

  -- The editor is the one that a call gave, and the listeners have heard what it fired.
  abbrev pub called : Buffer × List Fired → Widget → Widget
  called (b, fs) w = notify b fs (record w { editor = some b })

  -- The effect that creates the editor; the other two have not run yet.
  unfoldable pub mount : Widget → Widget
  unfolding lang_id
  mount w = record w {
    editor = some (create w.code (lang_id w.mode));
    seen_code = none;
    seen_mode = none;
  }

  -- Its cleanup.
  unfoldable pub unmount : Widget → Widget
  unmount w = record w { editor = none }

  abbrev pub changed : Option Text → Text → Bool
  changed none t = true
  changed (some s) t = not (text_eq s t)

  abbrev pub restore : Option Position → Buffer × List Fired → Widget → Widget
  restore none r w = called r w
  restore (some p) r w = called (set_position p r.0) (called r w)

  abbrev pub put_code : Text → Option Buffer → Widget → Widget
  put_code code none w = w
  put_code code (some b) w =
      if text_eq (get_value b) code then w else restore (get_position b) (set_value code b) w

  -- The effect on `code`.
  unfoldable pub code_effect : Widget → Widget
  unfolding text_eq notify
  code_effect w =
      if changed w.seen_code w.code
      then put_code w.code w.editor (record w { seen_code = some w.code })
      else w

  abbrev pub put_mode : Text → Option Buffer → Widget → Widget
  put_mode id none w = w
  put_mode id (some b) w =
      if has_model b then record w { editor = some (set_model_language id b) } else w

  -- The effect on `language`.
  unfoldable pub language_effect : Widget → Widget
  unfolding text_eq lang_id
  language_effect w =
      let id = lang_id w.mode in
      if changed w.seen_mode id then put_mode id w.editor (record w { seen_mode = some id }) else w

  -- One render, its effects in the order of the source.
  unfoldable pub render : Widget → Widget
  unfolding code_effect language_effect
  render w = language_effect (code_effect w)

  abbrev pub format_in : Option Buffer → Widget → Widget × Bool
  format_in none w = (w, false)
  format_in (some b) w =
      let document = trigger (codes "editor.action.formatDocument") (focus b) in
      let lines = trigger (codes "editor.action.reindentlines") document.0 in
      (called lines (called document w), true)

  -- `format` of the handle.
  unfoldable pub format : Widget → Widget × Bool
  unfolding notify
  format w = format_in w.editor w

  -- What happens between two renders: the user edits, the playground sets the code or the language,
  -- the format button, or the component goes and comes back.
  pub data Event : Type 0 where
    edit : (Buffer → Buffer × List Fired) → Event
    set_code : Text → Event
    set_mode : CmLang → Event
    press_format remount : Event

  abbrev pub edited : (Buffer → Buffer × List Fired) → Option Buffer → Widget → Widget
  edited f none w = w
  edited f (some b) w = called (f b) w

  unfoldable pub happen : Event → Widget → Widget
  unfolding notify format mount unmount
  happen (edit f) w = edited f w.editor w
  happen (set_code t) w = record w { code = t }
  happen (set_mode l) w = record w { mode = l }
  happen press_format w = (format w).0
  happen remount w = mount (unmount w)

  -- An effect that sets the code brings a second render.
  unfoldable pub settle : Widget → Widget
  unfolding render
  settle w = render (render w)

  unfoldable pub run : List Event → Widget → Widget
  unfolding happen settle
  run [] w = w
  run (e ∷ es) w = run es (settle (happen e w))
