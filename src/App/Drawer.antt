-- ===== src/App/Drawer.antt =====
-- The drawer of the languages on a small screen: `pickerOpen` of web/app/src/playground/App.tsx, its
-- effect, and that of `LanguagePicker`.
pub mod Restored
use zero_code.Base.{same, Bool, true, false, not, List, [], ◌∷◌, Option, none, some, if◌then◌else◌}
use zero_code.Base.Text.{Text, codes, text_eq}

-- `pickerOpen`, whether the picker listens for keys, `document.body.style.overflow`, and `prev` of the
-- effect that is in force.
pub record Drawer : Type 0 where
  pub picker_open : Bool
  pub listening : Bool
  pub overflow : Text
  pub prev : Option Text

-- The button in the bar; the backdrop, the button of the drawer or a language; and a key.
pub data Event : Type 0 where
  open_picker close : Event
  key : Text → Event

-- `onKey` of the picker, which calls `onClose`.
unfoldable pub on_key : Text → Drawer → Drawer
unfolding text_eq
on_key k d = if text_eq k (codes "Escape") then record d { picker_open = false } else d

unfoldable pub happen : Event → Drawer → Drawer
unfolding on_key
happen open_picker d = record d { picker_open = true }
happen close d = record d { picker_open = false }
happen (key k) d = if d.listening then on_key k d else d

-- The cleanup of the effect on `pickerOpen`.
abbrev pub unlock : Option Text → Drawer → Drawer
unlock none d = d
unlock (some o) d = record d { overflow = o; prev = none }

-- The effect.
abbrev pub lock : Drawer → Drawer
lock d = if d.picker_open then record d { overflow = codes "hidden"; prev = some d.overflow } else d

-- An event, and the two effects. The picker's runs in every render, since `onClose` is new in each.
unfoldable pub handle : Event → Drawer → Drawer
unfolding happen
handle e d =
    let after = happen e d in
    let heard = record after { listening = after.picker_open } in
    if same after.picker_open d.picker_open then heard else lock (unlock heard.prev heard)

unfoldable pub handle_all : List Event → Drawer → Drawer
unfolding handle
handle_all [] d = d
handle_all (e ∷ es) d = handle_all es (handle e d)

-- The first render.
unfoldable pub closed_drawer : Text → Drawer
closed_drawer overflow = record {
  picker_open = false;
  listening = false;
  overflow = overflow;
  prev = none;
}
