-- ===== src/App/Lines.antt =====
-- `flushLines` of web/app/src/playground/App.tsx: the complete lines of a buffer, and the rest.
use zero_code.Base.{
  ℕ, ◌≡◌, refl, ap, ◌∙◌, inl, inr, false, List, [], ◌∷◌, ◌++◌, arith, ◌==◌, if◌then◌else◌,
  Bool-cases,
}
use zero_code.Base.Text.{Text}

abbrev pub lf : ℕ
lf = b'\n'

abbrev pub push_front : ℕ → List Text → Text → List Text × Text
push_front c [] rest = ([], c ∷ rest)
push_front c (l ∷ ls) rest = ((c ∷ l) ∷ ls, rest)

unfoldable pub flush_lines : Text → List Text × Text
flush_lines [] = ([], [])
flush_lines (c ∷ cs) =
    let r = flush_lines cs in if c == lf then ([] ∷ r.0, r.1) else push_front c r.0 r.1

-- The lines with their newlines.
abbrev pub unlines : List Text → Text
unlines [] = []
unlines (l ∷ ls) = l ++ lf ∷ unlines ls

push_front-unlines :
    (c : ℕ) (ls : List Text) (rest : Text)
    → unlines (push_front c ls rest).0 ++ (push_front c ls rest).1 ≡ c ∷ (unlines ls ++ rest)
push_front-unlines c [] rest = refl
push_front-unlines c (l ∷ ls) rest = refl

-- Nothing is lost.
pub unlines-flush_lines : (s : Text) → unlines (flush_lines s).0 ++ (flush_lines s).1 ≡ s
unfolding flush_lines
unlines-flush_lines [] = refl
unlines-flush_lines (c ∷ cs) = elim (Bool-cases (c == lf)) [
  | inl e ↦ rw e (ground (arith, unlines-flush_lines cs))
  | inr e ↦ rw e (
      push_front-unlines c (flush_lines cs).0 (flush_lines cs).1
      ∙ ap (◌∷◌ c) (unlines-flush_lines cs))
]

abbrev then_flush : List Text → Text → Text → List Text × Text
then_flush ls rest more = (ls ++ (flush_lines (rest ++ more)).0, (flush_lines (rest ++ more)).1)

push_front-then_flush :
    (c : ℕ) (ls : List Text) (rest more : Text)
    → (c == lf) ≡ false
    → push_front c (then_flush ls rest more).0 (then_flush ls rest more).1
      ≡ then_flush (push_front c ls rest).0 (push_front c ls rest).1 more
unfolding flush_lines
push_front-then_flush c [] rest more e = rw e refl
push_front-then_flush c (l ∷ ls) rest more e = refl

-- Lines may be taken before or after the next chunk arrives.
pub flush_lines-append :
    (s more : Text)
    → flush_lines (s ++ more) ≡ (
      (flush_lines s).0 ++ (flush_lines ((flush_lines s).1 ++ more)).0,
      (flush_lines ((flush_lines s).1 ++ more)).1,
    )
unfolding flush_lines
flush_lines-append [] more = refl
flush_lines-append (c ∷ cs) more = elim (Bool-cases (c == lf)) [
  | inl e ↦ rw (e, flush_lines-append cs more) refl
  | inr e ↦
      rw (e, flush_lines-append cs more)
        (push_front-then_flush c (flush_lines cs).0 (flush_lines cs).1 more e)
]
