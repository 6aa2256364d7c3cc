-- ===== src/Editor/Widget/Tests.antt =====
-- The `Editor` component over an editor that keeps a text, a cursor and a language, and trims nothing.
use zero_code.Base.{◌≡◌, refl, Bool, true, false, List, [], ◌∷◌, ◌++◌, none, some, All, ◌+◌}
use zero_code.Base.Text.{Text, codes, text_eq}
use zero_code.Catalog.Types.{CmLang}
use zero_code.Editor.{lang_id, tidy_document}
use zero_code.Editor.Widget.{
  Position, Fired, content, cursor_at, Monaco, Widget, Event, edit, set_code, set_mode,
  press_format, mount, render, settle, happen, run,
}
use zero_code.Editor.Widget.Listeners.{IsHonest, IsMonaco, HonestEvent}
use zero_code.Editor.Widget.Sync.{run-Shows, settle-Settled, mount-Ready, settle-edit}

record Plain : Type 0 where
  text : Text
  at : Position
  lang : Text

abbrev origin : Position
origin = record { line = 1; col = 1 }

-- The formatter is the only action that does something.
abbrev act_if : Bool → Plain → Plain × List Fired
act_if true b = (record b { text = tidy_document b.text }, content ∷ [])
act_if false b = (b, [])

abbrev act : Text → Plain → Plain × List Fired
act action b = act_if (text_eq action (codes "editor.action.formatDocument")) b

abbrev plain : Monaco
plain = record {
  Buffer = Plain;
  create = λ t l. record { text = t; at = origin; lang = l };
  get_value = λ b. b.text;
  set_value = λ t b. (record b { text = t; at = origin }, content ∷ cursor_at origin ∷ []);
  get_position = λ b. some b.at;
  set_position = λ p b. (record b { at = p }, cursor_at p ∷ []);
  has_model = λ b. true;
  set_model_language = λ l b. record b { lang = l };
  language = λ b. b.lang;
  focus = λ b. b;
  trigger = act;
}

act_if-IsHonest : (is_format : Bool) → IsHonest plain (act_if is_format)
act_if-IsHonest true b h = cc
act_if-IsHonest false b h = refl

act-IsHonest : (action : Text) → IsHonest plain (act action)
act-IsHonest action b h =
    act_if-IsHonest (text_eq action (codes "editor.action.formatDocument")) b h

plain-IsMonaco : IsMonaco plain
plain-IsMonaco = record {
  set_value_fires = λ t b. refl;
  set_position_value = λ p b. refl;
  trigger_honest = act-IsHonest;
  focus_value = λ b. refl;
  language_value = λ l b. refl;
}

abbrev type_x : Plain → Plain × List Fired
type_x b =
    let p : Position = record { line = b.at.line; col = b.at.col + 1 } in
    (record b { text = b.text ++ codes "x"; at = p }, content ∷ cursor_at p ∷ [])

type_x-IsHonest : IsHonest plain type_x
type_x-IsHonest b h = cc

abbrev fresh : Widget plain
fresh = record {
  code = codes "a  ";
  mode = CmLang.python;
  cursor = origin;
  editor = none;
  seen_code = none;
  seen_mode = none;
}

abbrev session : List (Event plain)
session =
    edit type_x ∷ press_format ∷ set_code (codes "b ") ∷ set_mode CmLang.rust ∷ edit type_x ∷ []

session-code : (run plain session (settle plain (mount plain fresh))).code ≡ codes "b x"
unfolding run settle mount tidy_document
session-code = refl

session-HonestEvent : All (HonestEvent plain) session
session-HonestEvent = (type_x-IsHonest, (tt, (tt, (tt, (type_x-IsHonest, tt)))))

run-Shows_example :
    let r = run plain session (settle plain (mount plain fresh)) in
    (b : Plain) × (r.editor ≡ some b) × (r.code ≡ b.text) × (render plain r ≡ r)
run-Shows_example = run-Shows plain plain-IsMonaco session fresh session-HonestEvent

abbrev shown : Plain
shown = record { text = codes "a  "; at = origin; lang = lang_id CmLang.python }

settle-edit_example :
    let r = settle plain (happen plain (edit type_x) (settle plain (mount plain fresh))) in
    (r.editor ≡ some (type_x shown).0) × (r.code ≡ codes "a  x")
unfolding settle mount happen
settle-edit_example =
    settle-edit plain plain-IsMonaco (settle plain (mount plain fresh)) type_x shown
      (settle-Settled plain plain-IsMonaco (mount plain fresh)
        (mount-Ready plain plain-IsMonaco fresh))
      type_x-IsHonest refl
