-- ===== src/Theme/Toggle.antt =====
-- Which theme is shown after a choice, a toggle, a reload and a change of the system.
use zero_code.Base.{◌≡◌, refl, Bool, true, none, some}
use zero_code.Theme.{
  Theme, dark, light, theme_text, Page, read_stored, get_theme, set_theme, toggle_theme, load,
  on_system_change, light_if,
}

-- Where the storage can be written and read, the theme that is chosen is shown, is shown again when
-- the page is loaded anew, and stays whatever the system prefers later.
pub load-set_theme :
    (t : Theme) (p : Page) (prefers_light : Bool)
    → p.writable ≡ true
    → p.readable ≡ true
    → (get_theme (set_theme t p) ≡ theme_text t)
      × (get_theme (load (set_theme t p)) ≡ theme_text t)
      × (on_system_change prefers_light (set_theme t p)
          ≡ record (set_theme t p) { prefers_light = some prefers_light })
unfolding set_theme get_theme load on_system_change
load-set_theme dark p b w r = rw (w, r) (refl, refl, refl)
load-set_theme light p b w r = rw (w, r) (refl, refl, refl)

-- Two toggles show the theme that was shown.
pub toggle_theme-twice :
    (t : Theme) (p : Page)
    → p.data_theme ≡ some (theme_text t)
    → get_theme (toggle_theme (toggle_theme p)) ≡ theme_text t
unfolding toggle_theme get_theme
toggle_theme-twice dark p h = rw h refl
toggle_theme-twice light p h = rw h refl

-- While nothing is stored the theme shown follows the system.
pub on_system_change-unstored :
    (prefers_light : Bool) (p : Page)
    → read_stored p ≡ none
    → get_theme (on_system_change prefers_light p) ≡ theme_text (light_if prefers_light)
unfolding on_system_change get_theme
on_system_change-unstored b p h = rw h refl
