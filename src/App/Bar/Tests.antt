-- ===== src/App/Bar/Tests.antt =====
-- A drag and an amount of memory, at concrete numbers.
use zero_code.Base.{ℕ, ◌≡◌, ◌≤◌, ◌⊎◌, refl, [], ◌∷◌, none}
use zero_code.App.Layout.{forward, back}
use zero_code.App.Bar.{down, move_to, up, drags, format_kib, mb_tenths}
use zero_code.App.Bar.Units.{Near, number_of, format_kib-Near}

a_drag :
    drags (down 10 ∷ move_to 15 ∷ move_to 15 ∷ move_to 12 ∷ up ∷ move_to 40 ∷ []) none
    ≡ forward 5 ∷ back 3 ∷ []
unfolding drags
a_drag = refl

some_megabytes : format_kib 3500 ≡ mb_tenths 34
unfolding format_kib
some_megabytes = refl

format_kib-Near_example :
    Near (format_kib 3500) 3500 × ((◌≡◌ {A = ℕ} 3500 0) ⊎ (1 ≤ number_of (format_kib 3500)))
format_kib-Near_example = format_kib-Near 3500
