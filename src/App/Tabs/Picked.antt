-- ===== src/App/Tabs/Picked.antt =====
-- The tab that the user has picked.
use zero_code.Base.{
  ◌≡◌, inl, inr, refl, Bool, true, false, not, ◌&&◌, [], ◌∷◌, length, is_empty, arith, Bool-cases,
  ltb, ◌==◌, if◌then◌else◌,
}
use zero_code.Base.Text.{Text, text_eq}
use zero_code.Api.Status.{tag}
use zero_code.App.Tabs.{
  OutputTab, stdout, stderr, compile, meta, same_tab, Props, Pane, is_queued, reset_run,
  follow_compile, follow_stderr, route, render, offered, surface, unless, tab_for, go_to,
}
use zero_code.App.Tabs.Shown.{see-tab}

-- The pane still shows the tab that the user has picked.
abbrev Holds : OutputTab → Pane → Type 0
Holds t s = (s.tab ≡ t) × (s.user_picked ≡ true)

unless-Holds :
    (same : Bool) (t : OutputTab) (effect : Pane → Pane) (s : Pane)
    → ((u : Pane) → Holds t u → Holds t (effect u))
    → Holds t s
    → Holds t (unless same effect s)
unless-Holds true t effect s f h = h
unless-Holds false t effect s f h = f s h

reset_run-Holds :
    (t : OutputTab) (p : Props) (s : Pane)
    → is_queued p.status ≡ false
    → Holds t s
    → Holds t (reset_run p s)
unfolding reset_run
reset_run-Holds t p s n h = rw n h

follow_compile-Holds :
    (t seen : OutputTab) (p : Props) (s : Pane)
    → (same_tab seen compile ≡ true → is_empty p.compile_output ≡ false)
    → Holds t s
    → Holds t (follow_compile seen p s)
unfolding follow_compile
follow_compile-Holds t seen p s n h =
    let len = length p.compile_output in
    kept (ltb s.prev_compile_len len) (len == 0 && same_tab seen compile)
      (not_gone p.compile_output n)
  where
    not_gone :
        (x : Text)
        → (same_tab seen compile ≡ true → is_empty x ≡ false)
        → (length x == 0 && same_tab seen compile) ≡ false
    not_gone [] m = elim (Bool-cases (same_tab seen compile)) [
      | inl e ↦ cc (m e)
      | inr e ↦ rw e refl
    ]
    not_gone (c ∷ x) m = ground arith

    surfaced :
        (b : Bool)
        → s.user_picked ≡ b
        → b ≡ true
        → Holds t (
            if not b
            then record s { tab = compile }
            else if same_tab seen compile
            then s
            else record s { unseen = record s.unseen { on_compile = true } })
    surfaced false e f = cc
    surfaced true e f = unmoved (same_tab seen compile)
      where
        unmoved :
            (b : Bool)
            → Holds t (if b then s else record s { unseen = record s.unseen { on_compile = true } })
        unmoved true = h
        unmoved false = h

    kept :
        (b c : Bool)
        → c ≡ false
        → Holds t
            (record (if b
              then surface compile (record s.unseen { on_compile = true }) seen s
              else if c
              then record s { tab = stdout }
              else s) { prev_compile_len = length p.compile_output })
    kept true c e = surfaced s.user_picked refl h.1
    kept false true e = cc
    kept false false e = h

follow_stderr-Holds :
    (t seen : OutputTab) (p : Props) (s : Pane) → Holds t s → Holds t (follow_stderr seen p s)
unfolding follow_stderr
follow_stderr-Holds t seen p s (same, picked) = (ground arith, ground arith)

route-Holds : (t : OutputTab) (p : Props) (s : Pane) → Holds t s → Holds t (route p s)
unfolding route
route-Holds t p s h = stays s.user_picked h.1
  where
    stays : (b : Bool) → b ≡ true → Holds t (if b then s else go_to (tab_for p.status p) s)
    stays true e = h
    stays false e = cc

offered-compile_text :
    (p : Props) (t : OutputTab)
    → offered p t ≡ true
    → same_tab t compile ≡ true
    → is_empty p.compile_output ≡ false
unfolding offered
offered-compile_text p compile h e = ground arith
offered-compile_text p stdout h e = cc
offered-compile_text p stderr h e = cc
offered-compile_text p meta h e = cc

-- If the user has picked a tab and it is still on offer, it stays through every render but those of a
-- queued run.
pub render-picked :
    (old p : Props) (s : Pane)
    → s.user_picked ≡ true
    → is_queued p.status ≡ false
    → offered p s.tab ≡ true
    → (render old p s).tab ≡ s.tab
unfolding render
render-picked old p s picked running h =
    let same_status = text_eq (tag old.status) (tag p.status) in
    let same_compile = text_eq old.compile_output p.compile_output in
    let same_stderr = length old.stderr == length p.stderr in
    let s₁ = unless same_status (reset_run p) s in
    let s₂ = unless same_compile (follow_compile s.tab p) s₁ in
    let s₃ = unless same_stderr (follow_stderr s.tab p) s₂ in
    let held = unless-Holds same_status s.tab (route p) s₃ (route-Holds s.tab p) (
      unless-Holds same_stderr s.tab (follow_stderr s.tab p) s₂ (follow_stderr-Holds s.tab s.tab p)
        (unless-Holds same_compile s.tab (follow_compile s.tab p) s₁
          (λ u. follow_compile-Holds s.tab s.tab p u (offered-compile_text p s.tab h))
          (unless-Holds same_status s.tab (reset_run p) s (λ u. reset_run-Holds s.tab p u running)
            (refl, picked)))) in
    rw (see-tab s.tab (unless same_status (route p) s₃)) held.0
