-- ===== src/Api/Poll/Ends.antt =====
-- When the polling loops end, and with what.
use zero_code.Base.{◌≡◌, refl, Bool, true, false, ◌||◌, List, [], ◌∷◌, All, Option, none, some}
use zero_code.Api.Poll.{
  Answer, ok, failed, Round, Outcome, returned, waiting, settle, turn, poll_with,
}

-- An answered round, undisturbed by an abort.
abbrev pub IsQuiet {ℓ} : {V : Type ℓ} → Round V → Type ℓ
IsQuiet {V} r = (v : V) × (r.answer ≡ ok v) × (r.aborted ≡ false) × (r.interrupted ≡ false)

-- The answer of the first round that is done.
abbrev pub done_answer {ℓ} : {V : Type ℓ} → (V → Bool) → Answer V → Option V → Option V
done_answer is_done (failed m) rest = rest
done_answer is_done (ok v) rest = elim (is_done v) [ true ↦ some v | false ↦ rest ]

abbrev pub first_done {ℓ} : {V : Type ℓ} → (V → Bool) → List (Round V) → Option V
first_done is_done [] = none
first_done is_done (r ∷ rs) = done_answer is_done r.answer (first_done is_done rs)

abbrev pub outcome_of {ℓ} : {V : Type ℓ} → Option V → Outcome V
outcome_of none = waiting
outcome_of (some v) = returned v

returned-injective {ℓ} : {V : Type ℓ} (v w : V) → returned v ≡ returned w → v ≡ w
returned-injective v w h = cc

module _ {ℓ κ} {V : Type ℓ} {S : Type κ} (is_done : V → Bool) (on_update : V → S → S)
    (signalled : S → Bool) where
  abbrev Ended : V → S → Type κ
  Ended v s = (is_done v ≡ true) × ((t : S) × (s ≡ on_update v t))

  turn-Ended :
      (stop : Bool) (a : Answer V) (i : Bool) (s : S) (k : S → Outcome V × S) (v : V)
      → ((t : S) → (k t).0 ≡ returned v → Ended v (k t).1)
      → (turn is_done on_update signalled stop a i s k).0 ≡ returned v
      → Ended v (turn is_done on_update signalled stop a i s k).1
  unfolding turn
  turn-Ended true a i s k v next h = cc
  turn-Ended false (failed m) i s k v next h = cc
  turn-Ended false (ok w) i s k v next h = settled (is_done w) refl i h
    where
      settled :
          (d : Bool)
          → is_done w ≡ d
          → (i : Bool) → (settle is_done on_update signalled d i w (on_update w s) k).0 ≡ returned v
          → Ended v (settle is_done on_update signalled d i w (on_update w s) k).1
      settled true e i h = let same : w ≡ v = returned-injective w v h in rw (← same) (e, (s, refl))
      settled false e true h = cc
      settled false e false h = next (on_update w s) h

  -- What the loop returns is done, and the callback has seen it last.
  pub returned-is_done :
      (rs : List (Round V)) (s : S) (v : V)
      → (poll_with is_done on_update signalled rs s).0 ≡ returned v
      → (is_done v ≡ true)
        × ((t : S) × ((poll_with is_done on_update signalled rs s).1 ≡ on_update v t))
  unfolding poll_with
  returned-is_done [] s v h = cc
  returned-is_done (r ∷ rs) s v h =
      turn-Ended (signalled s || r.aborted) r.answer r.interrupted s
        (poll_with is_done on_update signalled rs) v (λ t. returned-is_done rs t v) h

  -- While nobody aborts and the server answers, the loop returns the first answer that is done, and
  -- goes on as long as there is none.
  pub poll_with-first_done :
      (rs : List (Round V)) (s : S)
      → All IsQuiet rs
      → ((t : S) → signalled t ≡ false)
      → (poll_with is_done on_update signalled rs s).0 ≡ outcome_of (first_done is_done rs)
  unfolding poll_with turn settle
  poll_with-first_done [] s q n = refl
  poll_with-first_done (r ∷ rs) s ((v, answer, live, calm), qs) n =
      rw (n s, live, answer, calm)
        (settled (is_done v) (poll_with-first_done rs (on_update v s) qs n))
    where
      settled :
          (d : Bool)
          → (poll_with is_done on_update signalled rs (on_update v s)).0
            ≡ outcome_of (first_done is_done rs)
          → (settle is_done on_update signalled d false v
              (on_update v s)
              (poll_with is_done on_update signalled rs)).0
            ≡ outcome_of (elim d [ true ↦ some v | false ↦ first_done is_done rs ])
      settled true next = refl
      settled false next = next
