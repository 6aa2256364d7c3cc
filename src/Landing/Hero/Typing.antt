-- ===== src/Landing/Hero/Typing.antt =====
-- In which order the terminal shows its texts.
use zero_code.Base.{
  and_parts, implied, ℕ, zero, suc, ◌≡◌, refl, Bool, true, false, not, ◌&&◌, ◌||◌, List, [], ◌∷◌,
  take, is_some,
}
use zero_code.Base.Text.{text_eq, text_eq→eq}
use zero_code.Landing.Hero.{Terminal, Job, fire, timers, after, on_start, curl, typing, showing}

-- No line of the answer is shown before the command is typed.
abbrev typed_first : Terminal → Bool
typed_first s = not (is_some s.show_out) || text_eq s.typed curl

abbrev prefixes : List (ℕ × Job) → Terminal → Bool
prefixes [] s = typed_first s
prefixes ((delay, job) ∷ rest) s = typed_first s && prefixes rest (fire job s)

after-take :
    (n : ℕ) (ts : List (ℕ × Job)) (s : Terminal)
    → prefixes ts s ≡ true
    → typed_first (after (take n ts) s) ≡ true
unfolding after
after-take zero [] s h = h
after-take zero ((delay, job) ∷ rest) s h =
    (and_parts (typed_first s) (prefixes rest (fire job s)) h).0
after-take (suc n) [] s h = h
after-take (suc n) ((delay, job) ∷ rest) s h =
    after-take n rest (fire job s) (and_parts (typed_first s) (prefixes rest (fire job s)) h).1

timers_typed : (s : Terminal) → prefixes timers (on_start false s).0 ≡ true
unfolding timers typing showing fire on_start text_eq
timers_typed s = refl

-- However many of the timers have fired, in their order, no line of the answer is shown before the whole
-- command is typed.
pub after-timers :
    (n : ℕ) (s : Terminal)
    → is_some (after (take n timers) (on_start false s).0).show_out ≡ true
    → (after (take n timers) (on_start false s).0).typed ≡ curl
after-timers n s h =
    let now = after (take n timers) (on_start false s).0 in
    text_eq→eq now.typed curl (
      implied (is_some now.show_out) (text_eq now.typed curl)
        (after-take n timers (on_start false s).0 (timers_typed s)) h)
