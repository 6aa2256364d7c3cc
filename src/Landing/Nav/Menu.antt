-- ===== src/Landing/Nav/Menu.antt =====
-- The menu, its listeners and the scrolling of the page.
use zero_code.Base.{◌≡◌, refl, Bool, true, false, List, [], ◌∷◌, if◌then◌else◌, arith}
use zero_code.Base.Text.{codes, text_eq}
use zero_code.Landing.Nav.{
  Nav, Event, scroll_to, burger, link, key, click_at, on_scroll, on_key, on_click, happen, handle,
  handle_all, first_nav,
}

-- The page does not scroll and the listeners are there exactly while the menu is open.
pub record IsLocked (n : Nav) : Type 0 where
  pub heard : n.listening ≡ n.menu_open
  pub locked : n.overflow ≡ (if n.menu_open then codes "hidden" else [])

handle-IsLocked : (e : Event) (n : Nav) → IsLocked n → IsLocked (handle e n)
unfolding handle happen on_scroll on_key on_click
handle-IsLocked (scroll_to y) n h = ground arith
handle-IsLocked burger n h = ground arith
handle-IsLocked link n h = ground arith
handle-IsLocked (key k) n h = ground arith
handle-IsLocked (click_at in_nav in_sheet) n h = ground arith

handle_all-IsLocked : (es : List Event) (n : Nav) → IsLocked n → IsLocked (handle_all es n)
unfolding handle_all
handle_all-IsLocked [] n h = h
handle_all-IsLocked (e ∷ es) n h = handle_all-IsLocked es (handle e n) (handle-IsLocked e n h)

-- Whatever happens from the first render on, the listeners are registered and the page is kept from
-- scrolling exactly while the menu is open.
pub handle_all-first_nav : (es : List Event) → IsLocked (handle_all es first_nav)
handle_all-first_nav es = handle_all-IsLocked es first_nav (record { heard = refl; locked = refl })

-- After any events, the Escape key, a click outside the bar and the sheet, and a link of the sheet close
-- the menu; a click inside the bar that is not on the menu button does nothing.
pub handle-closed :
    (es : List Event)
    → let n = handle_all es first_nav in
      ((handle (key (codes "Escape")) n).menu_open ≡ false)
      × ((handle (click_at false false) n).menu_open ≡ false)
      × ((handle link n).menu_open ≡ false)
      × ((in_sheet : Bool) → handle (click_at true in_sheet) n ≡ n)
unfolding handle happen on_key on_click text_eq
handle-closed es =
    let n = handle_all es first_nav in
    let h = handle_all-first_nav es in
    (closed_key n h, closed_click n h, closed_link n, λ in_sheet. kept n in_sheet)
  where
    closed_key : (n : Nav) → IsLocked n → (handle (key (codes "Escape")) n).menu_open ≡ false
    closed_key n h = ground arith

    closed_click : (n : Nav) → IsLocked n → (handle (click_at false false) n).menu_open ≡ false
    closed_click n h = ground arith

    closed_link : (n : Nav) → (handle link n).menu_open ≡ false
    closed_link n = ground arith

    kept : (n : Nav) (in_sheet : Bool) → handle (click_at true in_sheet) n ≡ n
    kept n in_sheet = ground arith
