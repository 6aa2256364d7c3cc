-- ===== src/Landing/Packet/Cycle.antt =====
-- The way of the packet through a cycle, from above the outer ring to the centre.
use native.Mathlib.Nat.{mul-le-mul_right}
use zero_code.Base.{
  ℕ, zero, suc, ◌+◌, ◌-◌, ◌*◌, ◌/◌, ◌≤◌, ◌<◌, ◌≡◌, refl, ap, sym, ◌∙◌, inl, inr, Bool, true, arith,
  ltb, ◌==◌, if◌then◌else◌, Bool-cases, ltb→lt, not_ltb→le, subst, List, [], ◌∷◌, leb, ◌&&◌, get_or,
}
use zero_code.Landing.Layers.{ring_end, kernel_end}
use zero_code.Landing.Packet.{
  Fraction, Rings, hero_rings, detail_rings, Glide, radius, glide_at, height,
}
use zero_code.Landing.Packet.Falls.{height-falls}

-- The heights between which the packet glides, from the first to the tenth.
abbrev station : Rings → ℕ → ℕ
station g k =
    if k == 0
    then radius g 0 + 50
    else if ltb k 9
    then radius g (k - 1)
    else if k == 9
    then g.kernel_r + 6
    else 0

abbrev phase : ℕ → ℕ
phase t = if ltb t ring_end then t / 312 else if ltb t kernel_end then 9 else 10

glide_at-from : (g : Rings) (t : ℕ) → (glide_at g t).from ≡ station g (phase t)
unfolding glide_at
glide_at-from g t = grind arith

glide_at-to : (g : Rings) (t : ℕ) → (glide_at g t).to ≡ station g (suc (phase t))
unfolding glide_at
glide_at-to g t = grind arith

phase-monotone : (t u : ℕ) → t ≤ u → phase t ≤ phase u
phase-monotone t u h = ground arith

glide_at-same :
    (g : Rings) (t u : ℕ)
    → t ≤ u
    → phase t ≡ phase u
    → ((glide_at g u).d ≡ (glide_at g t).d) × ((glide_at g t).n ≤ (glide_at g u).n)
unfolding glide_at
glide_at-same g t u h e = (ground arith, ground arith)

-- Each ring lies within the one before it, and the edge of the kernel within the last.
pub record IsNested (g : Rings) : Type 0 where
  pub rings : (i : ℕ) → i < 7 → radius g (i + 1) ≤ radius g i
  pub kernel_inside : g.kernel_r + 6 ≤ radius g 7

-- A height is not above another.
abbrev NotAbove : Fraction → Fraction → Type 0
NotAbove a b = a.num * b.den ≤ b.num * a.den

same_way-falls :
    (w v : Glide)
    → v.from ≡ w.from
    → v.to ≡ w.to
    → v.d ≡ w.d
    → w.to ≤ w.from
    → w.n ≤ v.n
    → NotAbove (height v) (height w)
unfolding height
same_way-falls w v a b c h k =
    let e : v ≡ record w { n = v.n } = cc in
    subst (λ x. NotAbove (height x) (height w)) (sym e)
      (mul-le-mul_right (height w).den (height-falls w v.n h k).0)

next_way-falls :
    (w v : Glide) → w.to ≤ w.from → v.to ≤ v.from → v.from ≤ w.to → NotAbove (height v) (height w)
next_way-falls w v h k l =
    let x = height w in
    let y = height v in
    let above = (height-falls w w.n h (omega arith)).1 in
    let below = (height-falls v v.n k (omega arith)).2 in
    omega (
      arith,
      mul-le-mul_right x.den below,
      mul-le-mul_right (y.den * x.den) l,
      mul-le-mul_right y.den above,
    )

module _ (g : Rings) (nested : IsNested g) where
  station-step : (k : ℕ) → station g (suc k) ≤ station g k
  station-step k = grind (arith, nested.rings (k - 1), nested.kernel_inside)

  station-antitone : (k j : ℕ) → station g (k + j) ≤ station g k
  station-antitone k zero =
      let e : k ≡ k + 0 = omega arith in subst (λ x. station g x ≤ station g k) e (omega arith)
  station-antitone k (suc j) =
      let e : suc (k + j) ≡ k + suc j = omega arith in
      subst (λ x. station g x ≤ station g k) e
        (omega (arith, station-antitone k j, station-step (k + j)))

  glide_at-falls : (t : ℕ) → (glide_at g t).to ≤ (glide_at g t).from
  glide_at-falls t = omega (arith, glide_at-from g t, glide_at-to g t, station-step (phase t))

  next_phase : (t u : ℕ) → phase t < phase u → (glide_at g u).from ≤ (glide_at g t).to
  next_phase t u h =
      let k = phase t in
      let e : suc k + (phase u - suc k) ≡ phase u = omega arith in
      let f =
        subst (λ x. station g x ≤ station g (suc k)) e
          (station-antitone (suc k) (phase u - suc k)) in
      omega (arith, glide_at-from g u, glide_at-to g t, f)

  -- In a cycle that nothing interrupts the packet never rises: later it is as high as before, or lower.
  pub glide_at-never_rises :
      (t u : ℕ) → t ≤ u → NotAbove (height (glide_at g u)) (height (glide_at g t))
  glide_at-never_rises t u h = elim (Bool-cases (ltb (phase t) (phase u))) [
    | inl e ↦
        next_way-falls (glide_at g t) (glide_at g u) (glide_at-falls t) (glide_at-falls u)
          (next_phase t u (ltb→lt (phase t) (phase u) e))
    | inr e ↦
        let k : phase t ≡ phase u =
          omega (arith, not_ltb→le (phase t) (phase u) e, phase-monotone t u h) in
        let s = glide_at-same g t u h k in
        same_way-falls (glide_at g t) (glide_at g u)
          (glide_at-from g u ∙ ap (station g) (sym k) ∙ sym (glide_at-from g t))
          (glide_at-to g u ∙ ap (λ p. station g (suc p)) (sym k) ∙ sym (glide_at-to g t)) s.0
          (glide_at-falls t) s.1
  ]

-- Every member of the list but the first is at most the one before it.
abbrev descending : List ℕ → Bool
descending [] = true
descending (x ∷ []) = true
descending (x ∷ y ∷ xs) = leb y x && descending (y ∷ xs)

descending-get_or :
    (xs : List ℕ) (i : ℕ) → descending xs ≡ true → get_or xs (suc i) 0 ≤ get_or xs i 0
descending-get_or [] i h = omega arith
descending-get_or (x ∷ []) i h = omega arith
descending-get_or (x ∷ y ∷ xs) zero h = ground arith
descending-get_or (x ∷ y ∷ xs) (suc i) h = descending-get_or (y ∷ xs) i (ground arith)

descending-IsNested :
    (g : Rings) → descending g.radii ≡ true → g.kernel_r + 6 ≤ radius g 7 → IsNested g
descending-IsNested g h k = record {
  rings = λ i few.
      let e : suc i ≡ i + 1 = omega arith in
      subst (λ j. radius g j ≤ radius g i) e (descending-get_or g.radii i h);
  kernel_inside = k;
}

-- The rings of both variants are nested.
pub hero_rings-IsNested : IsNested hero_rings
hero_rings-IsNested = descending-IsNested hero_rings refl (omega arith)

pub detail_rings-IsNested : IsNested detail_rings
detail_rings-IsNested = descending-IsNested detail_rings refl (omega arith)
