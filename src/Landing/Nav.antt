-- ===== src/Landing/Nav.antt =====
-- The bar of the landing page and its menu: `Nav` of web/app/src/landing/nav.tsx.
pub mod Menu
use zero_code.Base.{same, ℕ, Bool, true, false, not, ◌||◌, List, [], ◌∷◌, if◌then◌else◌, ltb}
use zero_code.Base.Text.{Text, codes, text_eq}

-- `scrolled` and `menuOpen`; whether the effect's listeners are registered; and
-- `document.body.style.overflow`.
pub record Nav : Type 0 where
  pub scrolled : Bool
  pub menu_open : Bool
  pub listening : Bool
  pub overflow : Text

-- What happens to the page. A click says whether it is inside the bar, and inside the sheet.
pub data Event : Type 0 where
  scroll_to : ℕ → Event
  burger link : Event
  key : Text → Event
  click_at : Bool → Bool → Event

-- `onScroll`, without the progress bar.
unfoldable pub on_scroll : ℕ → Nav → Nav
on_scroll y n = record n { scrolled = ltb 20 y }

-- `onKey`
unfoldable pub on_key : Text → Nav → Nav
unfolding text_eq
on_key k n = if text_eq k (codes "Escape") then record n { menu_open = false } else n

-- `onClick`
unfoldable pub on_click : Bool → Bool → Nav → Nav
on_click in_nav in_sheet n =
    if not in_nav then (if not in_sheet then record n { menu_open = false } else n) else n

-- A key and a click outside reach only listeners that are registered.
unfoldable pub happen : Event → Nav → Nav
unfolding on_scroll on_key on_click
happen (scroll_to y) n = on_scroll y n
happen burger n = record n { menu_open = not n.menu_open }
happen link n = record n { menu_open = false }
happen (key k) n = if n.listening then on_key k n else n
happen (click_at in_nav in_sheet) n = if n.listening then on_click in_nav in_sheet n else n

-- The cleanup of the effect on `menuOpen`, if it has something to clean up.
abbrev pub clean_up : Nav → Nav
clean_up n = if n.listening then record n { listening = false; overflow = [] } else n

-- The effect.
abbrev pub open_effect : Nav → Nav
open_effect n = if n.menu_open then record n { listening = true; overflow = codes "hidden" } else n

-- An event, and the effect if it has changed `menuOpen`.
unfoldable pub handle : Event → Nav → Nav
unfolding happen
handle e n =
    let after = happen e n in
    if same after.menu_open n.menu_open then after else open_effect (clean_up after)

unfoldable pub handle_all : List Event → Nav → Nav
unfolding handle
handle_all [] n = n
handle_all (e ∷ es) n = handle_all es (handle e n)

-- The first render.
abbrev pub first_nav : Nav
first_nav = record { scrolled = false; menu_open = false; listening = false; overflow = [] }

-- The label of the menu button, and whether the sheet is there.
unfoldable pub burger_label : Nav → Text
burger_label n = if n.menu_open then codes "Close menu" else codes "Open menu"
