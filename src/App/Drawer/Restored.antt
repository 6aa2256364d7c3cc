-- ===== src/App/Drawer/Restored.antt =====
-- The scrolling of the page while the drawer is open, and after it.
use zero_code.Base.{◌≡◌, refl, List, [], ◌∷◌, none, some, if◌then◌else◌, arith}
use zero_code.Base.Text.{Text, codes, text_eq}
use zero_code.App.Drawer.{
  Drawer, Event, open_picker, close, key, on_key, happen, handle, handle_all, closed_drawer,
}

record IsLocked (before : Text) (d : Drawer) : Type 0 where
  heard : d.listening ≡ d.picker_open
  overflows : d.overflow ≡ (if d.picker_open then codes "hidden" else before)
  kept : d.prev ≡ (if d.picker_open then some before else none)

handle-IsLocked :
    (before : Text) (e : Event) (d : Drawer) → IsLocked before d → IsLocked before (handle e d)
unfolding handle happen on_key
handle-IsLocked before open_picker d h = ground arith
handle-IsLocked before close d h = ground arith
handle-IsLocked before (key k) d h = ground arith

handle_all-IsLocked :
    (before : Text) (es : List Event) (d : Drawer)
    → IsLocked before d
    → IsLocked before (handle_all es d)
unfolding handle_all
handle_all-IsLocked before [] d h = h
handle_all-IsLocked before (e ∷ es) d h =
    handle_all-IsLocked before es (handle e d) (handle-IsLocked before e d h)

-- Whatever happens from the first render on, the page does not scroll while the drawer is open, and is as
-- it was before the first time whenever the drawer is closed; the Escape key closes it.
pub handle_all-closed_drawer :
    (before : Text) (es : List Event)
    → let d = handle_all es (closed_drawer before) in
      (d.overflow ≡ (if d.picker_open then codes "hidden" else before))
      × ((handle (key (codes "Escape")) d).overflow ≡ before)
unfolding closed_drawer handle happen on_key text_eq
handle_all-closed_drawer before es =
    let h =
      handle_all-IsLocked before es (closed_drawer before)
        (record { heard = refl; overflows = refl; kept = refl }) in
    (h.overflows, escaped (handle_all es (closed_drawer before)) h)
  where
    escaped : (d : Drawer) → IsLocked before d → (handle (key (codes "Escape")) d).overflow ≡ before
    escaped d h = ground arith
