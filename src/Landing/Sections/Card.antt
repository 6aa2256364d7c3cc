-- ===== src/Landing/Sections/Card.antt =====
-- The card and the buttons of the layers.
use zero_code.Base.{
  ℕ, zero, suc, ◌+◌, ◌<◌, ◌≡◌, refl, ap, ◌∙◌, ◌≢◌, All, List, [], ◌∷◌, Option, none, some, length,
  get_elem?, ◌==◌, arith,
}
use zero_code.Base.Text.{Text}
use zero_code.Landing.Layers.{Layer, layers}
use zero_code.Landing.Sections.{
  active, hover, LayerButton, layer_card, card_of, buttons_from, layer_buttons,
}

-- The pointer, the focus or a click, in the order in which they come.
unfoldable pub hover_all : List ℕ → Option ℕ → Option ℕ
hover_all [] h = h
hover_all (i ∷ is) h = hover_all is (hover i h)

hover_all-within :
    (is : List ℕ) (h : Option ℕ)
    → All (λ i. i < length layers) is
    → active h < length layers
    → active (hover_all is h) < length layers
unfolding hover_all active
hover_all-within [] h a k = k
hover_all-within (i ∷ is) h a k = hover_all-within is (hover i h) a.1 a.0

get_elem-there {ℓ} : {A : Type ℓ} (xs : List A) (i : ℕ) → i < length xs → get_elem? xs i ≢ none
get_elem-there [] i h e = absurd (omega arith)
get_elem-there (x ∷ xs) zero h e = cc
get_elem-there (x ∷ xs) (suc i) h e = get_elem-there xs i (omega arith) e

module _ (show : ℕ → Text) where
  pub buttons_from-active :
      (i j : ℕ) (h : Option ℕ) (ls : List Layer) (b : LayerButton)
      → get_elem? (buttons_from show i h ls) j ≡ some b
      → b.is_active ≡ (i + j == active h)
  unfolding buttons_from
  buttons_from-active i j h [] b e = cc
  buttons_from-active i zero h (l ∷ ls) b e = ground arith
  buttons_from-active i (suc j) h (l ∷ ls) b e =
      let there : suc i + j ≡ i + suc j = omega arith in
      buttons_from-active (suc i) j h ls b e ∙ ap (λ k. k == active h) there

  -- The button of the layer on the card, and no other, is active.
  pub layer_buttons-active :
      (j : ℕ) (h : Option ℕ) (b : LayerButton)
      → get_elem? (layer_buttons show h) j ≡ some b
      → b.is_active ≡ (j == active h)
  unfolding layer_buttons
  layer_buttons-active j h b e =
      let plain : 0 + j ≡ j = omega arith in
      buttons_from-active 0 j h layers b e ∙ ap (λ k. k == active h) plain

  card_of-there : (i : ℕ) (l : Option Layer) → l ≢ none → card_of show i l ≢ none
  card_of-there i none h e = h refl
  card_of-there i (some l) h e = cc

  -- Whatever buttons are pointed at, there is a card.
  pub layer_card-hover_all :
      (is : List ℕ) → All (λ i. i < length layers) is → layer_card show (hover_all is none) ≢ none
  unfolding layer_card active
  layer_card-hover_all is a =
      let i = active (hover_all is none) in
      card_of-there i (get_elem? layers i)
        (get_elem-there layers i (hover_all-within is none a (omega arith)))
