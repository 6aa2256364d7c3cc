-- ===== src/App/Tabs/Shown.antt =====
-- Which tab the output pane shows.
use zero_code.Base.{
  ℕ, ◌≡◌, inl, inr, refl, Bool, true, false, ◌&&◌, [], ◌∷◌, length, is_empty, arith, Bool-cases,
  ltb, ◌==◌, if◌then◌else◌,
}
use zero_code.Base.Text.{Text, text_eq, text_eq→eq}
use zero_code.Api.Status.{StatusKind, tag}
use zero_code.App.Tabs.{
  OutputTab, stdout, stderr, compile, meta, same_tab, Props, Pane, reset_run, follow_compile,
  follow_stderr, route, see, render, offered, surface, unless, tab_for, go_to,
}

zero_length : (t : Text) → is_empty t ≡ true → length t ≡ 0
zero_length [] h = refl
zero_length (c ∷ t) h = cc

same_tab_refl : (t : OutputTab) → same_tab t t ≡ true
same_tab_refl stdout = refl
same_tab_refl stderr = refl
same_tab_refl compile = refl
same_tab_refl meta = refl

offered-some : (p : Props) (t : OutputTab) → is_empty p.compile_output ≡ false → offered p t ≡ true
unfolding offered
offered-some p compile h = rw h refl
offered-some p _ h = refl

offered-other : (p : Props) (t : OutputTab) → same_tab t compile ≡ false → offered p t ≡ true
unfolding offered
offered-other p compile h = cc
offered-other p stdout h = refl
offered-other p stderr h = refl
offered-other p meta h = refl

-- Where the compile output is gone, the tab that was seen is not left on it.
follow_compile-offered :
    (seen : OutputTab) (p : Props) (s : Pane)
    → (same_tab s.tab compile ≡ true → same_tab seen compile ≡ true)
    → offered p (follow_compile seen p s).tab ≡ true
unfolding follow_compile
follow_compile-offered seen p s e = elim (Bool-cases (is_empty p.compile_output)) [
  | inr some_text ↦ offered-some p _ some_text
  | inl no_text ↦
      offered-other p _ (gone (length p.compile_output) (zero_length p.compile_output no_text))
]
  where
    gone :
        (n : ℕ)
        → n ≡ 0
        → same_tab
            (record (if ltb s.prev_compile_len n
              then surface compile (record s.unseen { on_compile = true }) seen s
              else if n == 0 && same_tab seen compile
              then record s { tab = stdout }
              else s) { prev_compile_len = n }).tab
            compile
          ≡ false
    gone n z = ground arith

follow_stderr-offered :
    (seen : OutputTab) (p : Props) (s : Pane)
    → offered p s.tab ≡ true
    → offered p (follow_stderr seen p s).tab ≡ true
unfolding follow_stderr offered
follow_stderr-offered seen p s h = ground arith

tab_for-offered :
    (k : StatusKind) (p : Props) (s : Pane)
    → offered p s.tab ≡ true
    → offered p (go_to (tab_for k p) s).tab ≡ true
unfolding offered
tab_for-offered k p s h = ground arith

route-offered : (p : Props) (s : Pane) → offered p s.tab ≡ true → offered p (route p s).tab ≡ true
unfolding route
route-offered p s h = routed s.user_picked refl
  where
    routed :
        (b : Bool)
        → s.user_picked ≡ b
        → offered p (if b then s else go_to (tab_for p.status p) s).tab ≡ true
    routed true e = h
    routed false e = tab_for-offered p.status p s h

pub see-tab : (before : OutputTab) (s : Pane) → (see before s).tab ≡ s.tab
unfolding see
see-tab before s = ground arith

reset_run-compile :
    (same : Bool) (p : Props) (s : Pane)
    → same_tab (unless same (reset_run p) s).tab compile ≡ true
    → same_tab s.tab compile ≡ true
unfolding reset_run
reset_run-compile true p s h = h
reset_run-compile false p s h = ground arith

offered-compile :
    (old p : Props) (t u : OutputTab)
    → old.compile_output ≡ p.compile_output
    → offered old t ≡ true
    → (same_tab u compile ≡ true → same_tab t compile ≡ true)
    → offered p u ≡ true
unfolding offered
offered-compile old p compile u e h f = offered-some p u (rw (← e) (ground (arith, h)))
offered-compile old p stdout u e h f = offered-other p u (ground (arith, f))
offered-compile old p stderr u e h f = offered-other p u (ground (arith, f))
offered-compile old p meta u e h f = offered-other p u (ground (arith, f))

after_compile-offered :
    (same : Bool) (old p : Props) (seen : OutputTab) (s : Pane)
    → (same ≡ true → old.compile_output ≡ p.compile_output)
    → offered old seen ≡ true
    → (same_tab s.tab compile ≡ true → same_tab seen compile ≡ true)
    → offered p (unless same (follow_compile seen p) s).tab ≡ true
after_compile-offered true old p seen s e h f = offered-compile old p seen s.tab (e refl) h f
after_compile-offered false old p seen s e h f = follow_compile-offered seen p s f

unless-offered :
    (same : Bool) (p : Props) (effect : Pane → Pane) (s : Pane)
    → ((t : Pane) → offered p t.tab ≡ true → offered p (effect t).tab ≡ true)
    → offered p s.tab ≡ true
    → offered p (unless same effect s).tab ≡ true
unless-offered true p effect s f h = h
unless-offered false p effect s f h = f s h

-- A render never leaves the pane on a tab that is not on offer.
pub render-offered :
    (old p : Props) (s : Pane) → offered old s.tab ≡ true → offered p (render old p s).tab ≡ true
unfolding render
render-offered old p s h =
    let same_status = text_eq (tag old.status) (tag p.status) in
    let same_compile = text_eq old.compile_output p.compile_output in
    let same_stderr = length old.stderr == length p.stderr in
    let s₁ = unless same_status (reset_run p) s in
    let s₂ = unless same_compile (follow_compile s.tab p) s₁ in
    let s₃ = unless same_stderr (follow_stderr s.tab p) s₂ in
    rw (see-tab s.tab (unless same_status (route p) s₃)) (
      unless-offered same_status p (route p) s₃ (route-offered p) (
        unless-offered same_stderr p (follow_stderr s.tab p) s₂ (follow_stderr-offered s.tab p) (
          after_compile-offered same_compile old p s.tab s₁ (text_eq→eq _ _) h
            (reset_run-compile same_status p s))))
