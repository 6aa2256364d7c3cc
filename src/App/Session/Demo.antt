-- ===== src/App/Session/Demo.antt =====
-- The demonstration run ends, and shows what the catalogue says.
use zero_code.Base.{
  ℕ, suc, ◌≤◌, ◌≡◌, refl, ap, ◌∙◌, sym, subst, true, false, List, [], ◌∷◌, ◌++◌, some, length,
  get_elem?, ltb, arith, append_assoc, append-nil, max, length-append, lt→ltb, All, or_else,
}
use zero_code.Base.Text.{Text}
use zero_code.Api.Status.{accepted}
use zero_code.Catalog.Types.{Lang}
use zero_code.App.Run.{View}
use zero_code.App.Session.{DemoRun, demo_tick, demo_ticks, largest, DefaultLimits}

get_elem?-append :
    (pre : List Text) (x : Text) (rest : List Text)
    → get_elem? (pre ++ x ∷ rest) (length pre) ≡ some x
get_elem?-append [] x rest = refl
get_elem?-append (y ∷ pre) x rest = get_elem?-append pre x rest

length-before :
    (pre : List Text) (x : Text) (rest : List Text)
    → ltb (length (pre ++ x ∷ rest)) (suc (length pre)) ≡ false
length-before pre x rest = let long = length-append pre (x ∷ rest) in ground arith

-- The run has come to its end, and shows the output of the catalogue.
pub record IsComplete (l : Lang) (d : DemoRun) : Type 0 where
  pub over : d.done ≡ true
  pub good : d.view.status ≡ accepted
  pub all_shown : d.view.output ≡ l.output

-- The run once the lines of `pre` are shown.
abbrev at : List Text → View → DemoRun
at pre v = record { i = length pre; done = false; view = record v { output = pre } }

length-snoc : (pre : List Text) (x : Text) → length (pre ++ x ∷ []) ≡ suc (length pre)
length-snoc pre x = omega (arith, length-append pre (x ∷ []))

demo_tick-next :
    (l : Lang) (pre : List Text) (x : Text) (rest : List Text) (v : View)
    → l.output ≡ pre ++ x ∷ rest
    → demo_tick l (at pre v) ≡ at (pre ++ x ∷ []) v
unfolding demo_tick
demo_tick-next l pre x rest v o =
    rw (o, length-before pre x rest, get_elem?-append pre x rest, length-snoc pre x) refl

demo_tick-last :
    (l : Lang) (pre : List Text) (v : View) → l.output ≡ pre → IsComplete l (demo_tick l (at pre v))
unfolding demo_tick
demo_tick-last l pre v o =
    let past : ltb (length l.output) (suc (length pre)) ≡ true = rw o (lt→ltb _ _ (omega arith)) in
    rw past (record { over = refl; good = refl; all_shown = sym o })

demo_ticks-rest :
    (l : Lang) (rest pre : List Text) (v : View)
    → l.output ≡ pre ++ rest
    → IsComplete l (demo_ticks l (suc (length rest)) (at pre v))
unfolding demo_ticks
demo_ticks-rest l [] pre v o = demo_tick-last l pre v (o ∙ append-nil pre)
demo_ticks-rest l (x ∷ rest) pre v o =
    subst (λ d. IsComplete l (demo_ticks l (suc (length rest)) d))
      (sym (demo_tick-next l pre x rest v o))
      (demo_ticks-rest l rest (pre ++ x ∷ []) v (o ∙ sym (append_assoc pre (x ∷ []) rest)))

-- Started with no output, the run has ended after one tick for each line of the catalogue's output
-- and one more, is accepted, and shows that output.
pub demo_ticks-IsComplete :
    (l : Lang) (v : View)
    → v.output ≡ []
    → IsComplete l (demo_ticks l (suc (length l.output)) (record { i = 0; done = false; view = v }))
demo_ticks-IsComplete l v e =
    subst
      (λ w.
        IsComplete l
          (demo_ticks l (suc (length l.output)) (record { i = 0; done = false; view = w })))
      (sym (ap (λ o. record v { output = o }) e)) (demo_ticks-rest l l.output [] v refl)

-- The largest limits are at least the limits they begin with and those of every language.
pub largest-bounds :
    (ls : List DefaultLimits) (m : ℕ × ℕ)
    → (m.0 ≤ (largest ls m).0)
      × (m.1 ≤ (largest ls m).1)
      × All (λ l. (or_else l.0 0 ≤ (largest ls m).0) × (or_else l.1 0 ≤ (largest ls m).1)) ls
unfolding largest
largest-bounds [] m = (omega arith, omega arith, tt)
largest-bounds (l ∷ ls) m =
    let (a, b, rest) = largest-bounds ls (max m.0 (or_else l.0 0), max m.1 (or_else l.1 0)) in
    (omega arith, omega arith, ((omega arith, omega arith), rest))
