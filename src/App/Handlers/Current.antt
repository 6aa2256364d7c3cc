-- ===== src/App/Handlers/Current.antt =====
-- The handlers that are held between renders, and the state that they read.
use zero_code.Base.{
  same→eq, ℕ, ◌≡◌, refl, sym, ap, ap₂, subst, ◌∙◌, Bool, true, false, List, [], ◌∷◌, if◌then◌else◌,
  arith, Bool-cases, inl, inr,
}
use zero_code.Base.Text.{Text, text_eq, text_eq→eq}
use zero_code.Api.Status.{Json}
use zero_code.Api.Request.{SubmitParams}
use zero_code.App.Handlers.{
  Deps, Closures, Core, Event, key_enter, is_shown, status_of, submission, happen, same_deps, deps,
  memo, listen, render, closures, handle, handle_all, mount, call_run, run_on_api,
}

same_deps→eq : (d e : Deps) → same_deps d e ≡ true → d ≡ e
unfolding same_deps
same_deps→eq d e h = elim (Bool-cases (text_eq d.status e.status)) [
  | inl a ↦
      ap₂ (λ s b. record { status = s; api_online = b }) (text_eq→eq d.status e.status a)
        (same→eq d.api_online e.api_online (ground arith))
  | inr a ↦ ground arith
]

memo-new : (old new : Deps) → memo old new ≡ new
unfolding memo
memo-new old new = elim (Bool-cases (same_deps old new)) [
  | inl e ↦ rw e (same_deps→eq old new e)
  | inr e ↦ rw e refl
]

-- What holds of the closures after every render.
record IsHeld (k : Closures) : Type 0 where
  key_run_kept : k.key_run ≡ k.run
  key_status_kept : k.key_status ≡ k.run.status

listen-new :
    (b : Bool) (status : Text) (run : Deps) (k : Closures)
    → (b ≡ true → k.key_run ≡ run)
    → listen b status run k ≡ record k { key_run = run; key_status = status }
unfolding listen
listen-new true status run k h = elim (Bool-cases (text_eq k.key_status status)) [
  | inl e ↦ rw e (
      ap₂ (λ r s. record k { key_run = r; key_status = s }) (h refl)
        (text_eq→eq k.key_status status e))
  | inr e ↦ rw e refl
]
listen-new false status run k h = refl

render-closures : (c : Core) (k : Closures) → k.key_run ≡ k.run → render c k ≡ closures c
unfolding render closures
render-closures c k h =
    let d = deps c in
    listen-new (same_deps k.run d) (status_of c.session) (memo k.run d)
      (record k { run = memo k.run d; on_api = c.session })
      (λ e. h ∙ same_deps→eq k.run d e ∙ sym (memo-new k.run d))
    ∙ ap (λ r. record (closures c) { run = r; key_run = r }) (memo-new k.run d)

module _ (show : ℕ → Text) (stringify : Json → Text) where
  -- What the page would do if its handlers read the state when they are called.
  unfoldable pub current_all : List Event → Core → Core
  unfolding happen closures
  current_all [] c = c
  current_all (e ∷ es) c = current_all es (happen show stringify (closures c) e c)

  handle-mount :
      (e : Event) (c : Core)
      → handle show stringify e (mount c) ≡ mount (happen show stringify (closures c) e c)
  unfolding handle mount closures
  handle-mount e c =
      let d = happen show stringify (closures c) e c in
      ap (λ k. record { core = d; held = k }) (render-closures d (closures c) refl)

  -- Whatever happens to the page from its first render on, the handlers that are kept between the renders,
  -- the memoised `run`, the closure it submits through and the listener for keys, do what they would do if
  -- they read the state when they are called.
  pub handle_all-current_all :
      (es : List Event) (c : Core)
      → (handle_all show stringify es (mount c)).core ≡ current_all es c
  unfolding handle_all current_all mount
  handle_all-current_all [] c = refl
  handle_all-current_all (e ∷ es) c =
      ap (λ p. (handle_all show stringify es p).core) (handle-mount e c)
      ∙ handle_all-current_all es (happen show stringify (closures c) e c)

  handle_all-mount :
      (es : List Event) (c : Core)
      → let p = handle_all show stringify es (mount c) in p ≡ mount p.core
  unfolding handle_all mount
  handle_all-mount [] c = refl
  handle_all-mount (e ∷ es) c =
      let d = happen show stringify (closures c) e c in
      subst (λ p. let q = handle_all show stringify es p in q ≡ mount q.core)
        (sym (handle-mount e c)) (handle_all-mount es d)

  -- What is submitted behind `sent` when the key is pressed.
  abbrev pressed : ℕ → Core → List SubmitParams
  pressed now c =
      if is_shown (status_of c.session)
      then c.sent
      else if c.api_online
      then submission show stringify now c.session ∷ c.sent
      else c.sent

  mounted_enter :
      (now : ℕ) (c : Core)
      → (handle show stringify (key_enter now) (mount c)).core.sent ≡ pressed now c
  unfolding handle mount closures happen call_run run_on_api
  mounted_enter now c = ground arith

  -- The key: unless a run is shown, it submits the session that is there, with an API, and waits without.
  pub key_enter-sent :
      (now : ℕ) (es : List Event) (c : Core)
      → let p = handle_all show stringify es (mount c) in
        (handle show stringify (key_enter now) p).core.sent ≡ (
          if is_shown (status_of p.core.session)
          then p.core.sent
          else if p.core.api_online
          then submission show stringify now p.core.session ∷ p.core.sent
          else p.core.sent)
  key_enter-sent now es c =
      let p = handle_all show stringify es (mount c) in
      ap (λ q. (handle show stringify (key_enter now) q).core.sent) (handle_all-mount es c)
      ∙ mounted_enter now p.core
