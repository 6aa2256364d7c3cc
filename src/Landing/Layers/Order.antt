-- ===== src/Landing/Layers/Order.antt =====
-- In which order the rings light up.
use zero_code.Base.{
  le→not_ltb, ℕ, ◌+◌, ◌*◌, ◌≤◌, ◌<◌, ◌≡◌, ap, ◌∙◌, none, some, arith, ltb, if_true, if_false,
  lt→ltb,
}
use zero_code.Landing.Layers.{ring, active_at, ring_start, ring_end}

-- While nothing is hovered, the ring with index `k` is lit from `312 * (k + 1)` for 312 milliseconds of the
-- cycle, and then the next, up to the last.
pub active_at-ring :
    (k t : ℕ) → k ≤ 7 → 312 * (k + 1) ≤ t → t < 312 * (k + 2) → active_at none t ≡ some (ring k)
unfolding active_at
active_at-ring k t few from to =
    if_false (ltb t ring_start) _ _ (le→not_ltb t ring_start (omega arith))
    ∙ if_true (ltb t ring_end) _ _ (lt→ltb t ring_end (omega arith))
    ∙ ap (λ i. some (ring i)) (omega arith)
