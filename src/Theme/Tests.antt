-- ===== src/Theme/Tests.antt =====
-- The theorems about the theme at a concrete page.
use zero_code.Base.{◌≡◌, refl, true, none, some, List, [], ◌∷◌}
use zero_code.Base.Text.{codes}
use zero_code.Theme.{dark, theme_text, Page, get_theme, set_theme, load, on_system_change}
use zero_code.Theme.Toggle.{load-set_theme}
use zero_code.Theme.Mirror.{Change, watch, changes, changes-shown}

abbrev page : Page
page = record {
  data_theme = some (codes "dark");
  stored = none;
  readable = true;
  writable = true;
  prefers_light = some true;
  announced = [];
}

load-set_theme_example :
    (get_theme (set_theme dark page) ≡ theme_text dark)
    × (get_theme (load (set_theme dark page)) ≡ theme_text dark)
    × (on_system_change true (set_theme dark page)
        ≡ record (set_theme dark page) { prefers_light = some true })
load-set_theme_example = load-set_theme dark page true refl refl

abbrev turns : List Change
turns =
    Change.clicked ∷ Change.system true ∷ Change.chosen dark ∷ Change.loaded ∷ Change.clicked ∷ []

changes-shown_example :
    let m = changes turns (watch (load page)) in
    (m.button ≡ get_theme m.page) × (theme_text m.mode ≡ get_theme m.page)
changes-shown_example = changes-shown turns page
