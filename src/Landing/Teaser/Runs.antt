-- ===== src/Landing/Teaser/Runs.antt =====
-- What the demonstration shows when it has ended, and that it ends.
use zero_code.Base.{
  ℕ, suc, ◌≡◌, refl, inl, inr, Bool, true, false, ◌&&◌, List, [], ◌∷◌, Option, none, some, arith,
  ltb, Bool-cases, leb, ◌==◌, ◌||◌, ==_iff, take, replicate, if◌then◌else◌, if_true, if_false, min,
  subst, ◌∙◌, ap, ◌+◌, zero, length, ltb→lt, not_ltb→le,
}
use zero_code.Base.Text.{Text}
use zero_code.Landing.Teaser.{
  Metrics, busy, Phase, idle, queued, processing, accepted, Teaser, initial, set_phase, run, tick,
  Event, clicked, started, promoted, ticked, handle, fib_output, shown_output,
}

-- Only processing has an interval; one that has ticked shows as many lines, at most ten; and an
-- accepted run shows all ten.
abbrev sound_at : Phase → Option ℕ → ℕ → Bool
sound_at processing (some i) out = leb i 10 && (i == 0 || out == i)
sound_at processing none out = false
sound_at accepted none out = out == 10
sound_at accepted (some i) out = false
sound_at idle none out = true
sound_at idle (some i) out = false
sound_at queued none out = true
sound_at queued (some i) out = false

abbrev pub sound : Teaser → Bool
sound s = sound_at s.phase s.ticks s.out_idx

abbrev teaser : Phase → Option ℕ → ℕ → Metrics → Teaser
teaser ph n out m = record { phase = ph; out_idx = out; metrics = m; ticks = n }

tick-sound :
    (i out : ℕ) (m : Metrics)
    → sound (teaser processing (some i) out m) ≡ true
    → sound (tick (teaser processing (some i) out m)) ≡ true
unfolding tick set_phase
tick-sound i out m h = elim (Bool-cases (ltb 10 (suc i))) [
  | inl e ↦ rw e (ground arith)
  | inr e ↦ rw e (ground arith)
]

sound-parts :
    (e : Event) (ph : Phase) (n : Option ℕ) (out : ℕ) (m : Metrics)
    → sound (teaser ph n out m) ≡ true
    → sound (handle e (teaser ph n out m)) ≡ true
unfolding handle run set_phase tick
sound-parts e idle (some i) out m h = cc
sound-parts e queued (some i) out m h = cc
sound-parts e accepted (some i) out m h = cc
sound-parts e processing none out m h = cc
sound-parts (clicked t) idle none out m h = refl
sound-parts (clicked t) queued none out m h = refl
sound-parts (clicked t) accepted none out m h = refl
sound-parts (clicked t) processing (some i) out m h = h
sound-parts (started t) idle none out m h = refl
sound-parts (started t) queued none out m h = refl
sound-parts (started t) accepted none out m h = refl
sound-parts (started t) processing (some i) out m h = refl
sound-parts promoted idle none out m h = refl
sound-parts promoted queued none out m h = refl
sound-parts promoted accepted none out m h = refl
sound-parts promoted processing (some i) out m h = h
sound-parts ticked idle none out m h = refl
sound-parts ticked queued none out m h = refl
sound-parts ticked accepted none out m h = h
sound-parts ticked processing (some i) out m h = tick-sound i out m h

-- The state after some events.
abbrev pub after_all : List Event → Teaser → Teaser
after_all [] s = s
after_all (e ∷ es) s = after_all es (handle e s)

sound-after_all : (es : List Event) (s : Teaser) → sound s ≡ true → sound (after_all es s) ≡ true
sound-after_all [] s h = h
sound-after_all (e ∷ es) s h =
    sound-after_all es (handle e s) (sound-parts e s.phase s.ticks s.out_idx s.metrics h)

accepted_all :
    (ph : Phase) (n : Option ℕ) (out : ℕ)
    → sound_at ph n out ≡ true
    → ph ≡ accepted
    → take out fib_output ≡ fib_output
accepted_all idle n out h e = cc
accepted_all queued n out h e = cc
accepted_all processing n out h e = cc
accepted_all accepted none out h e = rw ((==_iff out 10).0 h) refl
accepted_all accepted (some i) out h e = cc

-- Whatever clicks, timers and ticks follow each other from the first render on, a run that is accepted
-- shows the whole output.
pub shown_output-accepted :
    (es : List Event)
    → (after_all es initial).phase ≡ accepted
    → shown_output (after_all es initial) ≡ fib_output
unfolding shown_output
shown_output-accepted es e =
    let s = after_all es initial in
    accepted_all s.phase s.ticks s.out_idx (sound-after_all es initial refl) e

-- What the demonstration is when a number of ticks have followed its timer.
record HasTicked (token : Text) (n : ℕ) (s : Teaser) : Type 0 where
  phase_reached : s.phase ≡ (if ltb 10 n then accepted else processing)
  interval : s.ticks ≡ (if ltb 10 n then none else some n)
  shown : s.out_idx ≡ min n 10
  kept_token : s.metrics.token ≡ token

tick-HasTicked :
    (token : Text) (n : ℕ) (s : Teaser) → HasTicked token n s → HasTicked token (suc n) (tick s)
unfolding tick set_phase
tick-HasTicked token n s h = elim (Bool-cases (ltb 10 n)) [
  | inl over ↦
      let i : s.ticks ≡ none = h.interval ∙ if_true (ltb 10 n) none (some n) over in
      let p : s.phase ≡ accepted = h.phase_reached ∙ if_true (ltb 10 n) accepted processing over in
      let later : ltb 10 (suc n) ≡ true = ground arith in
      rw i (record {
        phase_reached = rw later p;
        interval = rw later refl;
        shown = omega (arith, h.shown, ltb→lt 10 n over);
        kept_token = h.kept_token;
      })
  | inr early ↦
      let i : s.ticks ≡ some n = h.interval ∙ if_false (ltb 10 n) none (some n) early in
      let p : s.phase ≡ processing =
        h.phase_reached ∙ if_false (ltb 10 n) accepted processing early in
      elim (Bool-cases (ltb 10 (suc n))) [
        | inl last ↦
            rw (i, last, p)
              (record {
                phase_reached = rw last refl;
                interval = rw last refl;
                shown = omega (arith, h.shown, ltb→lt 10 (suc n) last, not_ltb→le 10 n early);
                kept_token = h.kept_token;
              })
        | inr more ↦
            rw (i, more)
              (record {
                phase_reached = rw more p;
                interval = rw more refl;
                shown = omega (arith, not_ltb→le 10 (suc n) more);
                kept_token = h.kept_token;
              })
      ]
]

ticks-HasTicked :
    (token : Text) (k n : ℕ) (s : Teaser)
    → HasTicked token n s
    → HasTicked token (k + n) (after_all (replicate k ticked) s)
unfolding handle
ticks-HasTicked token zero n s h =
    let e : n ≡ 0 + n = omega arith in subst (λ m. HasTicked token m s) e h
ticks-HasTicked token (suc k) n s h =
    let e : k + suc n ≡ suc k + n = omega arith in
    subst (λ m. HasTicked token m (after_all (replicate k ticked) (tick s))) e
      (ticks-HasTicked token k (suc n) (tick s) (tick-HasTicked token n s h))

clicked-HasTicked :
    (token : Text) (ph : Phase) (i : Option ℕ) (out : ℕ) (m : Metrics)
    → busy (teaser ph i out m) ≡ false
    → HasTicked token 0 (handle promoted (handle (clicked token) (teaser ph i out m)))
unfolding handle run set_phase busy
clicked-HasTicked token idle i out m h = record {
  phase_reached = refl;
  interval = refl;
  shown = refl;
  kept_token = refl;
}
clicked-HasTicked token accepted i out m h = record {
  phase_reached = refl;
  interval = refl;
  shown = refl;
  kept_token = refl;
}
clicked-HasTicked token queued i out m h = cc
clicked-HasTicked token processing i out m h = cc

take-length {ℓ} : {A : Type ℓ} (n : ℕ) (xs : List A) → take (min n (length xs)) xs ≡ take n xs
take-length zero xs = let e : min 0 (length xs) ≡ 0 = omega arith in ap (λ k. take k xs) e
take-length (suc n) [] = let e : min (suc n) 0 ≡ 0 = omega arith in ap (λ k. take k []) e
take-length (suc n) (x ∷ xs) =
    let e : min (suc n) (suc (length xs)) ≡ suc (min n (length xs)) = omega arith in
    ap (λ k. take k (x ∷ xs)) e ∙ ap (◌∷◌ x) (take-length n xs)

-- A click while no run is under way starts one under the token drawn. After its timer and any number of
-- ticks it shows that many lines of the output, all of them if there are no more, and it is being
-- processed until there have been more ticks than lines, and accepted from then on.
pub ticked-shown :
    (token : Text) (n : ℕ) (s : Teaser)
    → busy s ≡ false
    → let after = after_all (clicked token ∷ promoted ∷ replicate n ticked) s in
      (shown_output after ≡ take n fib_output)
      × (after.phase ≡ (if ltb (length fib_output) n then accepted else processing))
      × (after.metrics.token ≡ token)
unfolding shown_output
ticked-shown token n s h =
    let q = handle promoted (handle (clicked token) s) in
    let e : n + 0 ≡ n = omega arith in
    let t =
      subst (λ m. HasTicked token m (after_all (replicate n ticked) q)) e
        (ticks-HasTicked token n 0 q
          (clicked-HasTicked token s.phase s.ticks s.out_idx s.metrics h)) in
    (ap (λ k. take k fib_output) t.shown ∙ take-length n fib_output, t.phase_reached, t.kept_token)
