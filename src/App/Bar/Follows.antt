-- ===== src/App/Bar/Follows.antt =====
-- A pane follows the mouse.
use zero_code.Base.{
  ℕ, ◌+◌, ◌-◌, ◌≤◌, ◌≡◌, refl, ap, ◌∙◌, inl, inr, none, some, List, [], ◌∷◌, ◌++◌, map, arith, ltb,
  ◌==◌, Bool-cases, ==_iff, ltb→lt, not_ltb→le,
}
use zero_code.App.Layout.{Drag, move}
use zero_code.App.Bar.{down, move_to, up, delta, on_mouse, drags, drags_of}

-- A size after some drags.
abbrev pub move_all : List Drag → ℕ → ℕ
move_all [] n = n
move_all (d ∷ ds) n = move_all ds (move d n)

-- Where the mouse is after some moves.
abbrev pub last_of : ℕ → List ℕ → ℕ
last_of at [] = at
last_of at (p ∷ ps) = last_of p ps

drags-up : (qs : List ℕ) → drags (map move_to qs) none ≡ []
unfolding drags on_mouse
drags-up [] = refl
drags-up (q ∷ qs) = drags-up qs

move_all-delta :
    (prev curr n : ℕ) (ds : List Drag)
    → prev ≤ n
    → move_all (drags_of (delta prev curr) ds) n ≡ move_all ds ((n - prev) + curr)
unfolding delta
move_all-delta prev curr n ds h = elim (Bool-cases (curr == prev)) [
  | inl e ↦ rw e (ap (move_all ds) (omega (arith, (==_iff curr prev).0 e)))
  | inr e ↦ elim (Bool-cases (ltb prev curr)) [
    | inl k ↦ rw (e, k) (ap (move_all ds) (omega (arith, ltb→lt prev curr k)))
    | inr k ↦ rw (e, k) (ap (move_all ds) (omega (arith, not_ltb→le prev curr k)))
  ]
]

move_all-drags :
    (ps qs : List ℕ) (at n : ℕ)
    → at ≤ n
    → move_all (drags (map move_to ps ++ up ∷ map move_to qs) (some at)) n
      ≡ (n - at) + last_of at ps
unfolding drags on_mouse
move_all-drags [] qs at n h = rw (drags-up qs) (omega arith)
move_all-drags (p ∷ ps) qs at n h =
    move_all-delta at p n (drags (map move_to ps ++ up ∷ map move_to qs) (some p)) h
    ∙ move_all-drags ps qs p ((n - at) + p) (omega arith)
    ∙ omega arith

-- Pressed at a position that the size is not below, moved about, released and moved on, the mouse has
-- moved the size, where nothing clamps it, by the distance from the press to the release.
pub move_all-drags_down :
    (at : ℕ) (ps qs : List ℕ) (n : ℕ)
    → at ≤ n
    → move_all (drags (down at ∷ map move_to ps ++ up ∷ map move_to qs) none) n
      ≡ (n - at) + last_of at ps
unfolding drags on_mouse
move_all-drags_down at ps qs n h = move_all-drags ps qs at n h
