-- ===== src/Editor/Grammar.antt =====
-- The states of the shell grammar of web/app/src/playground/Editor.tsx that its rules lead to.
use zero_code.Base.{
  and_parts, ◌≡◌, refl, sym, subst, inl, inr, Bool, true, false, not, ◌&&◌, ◌||◌, List, [], ◌∷◌,
  is_some, Bool-cases,
}
use zero_code.Base.Text.{Text, codes, text_eq, text_eq→eq}
use zero_code.Editor.Monarch.{match, token_next}
use zero_code.Editor.Shell.{shell_states}
use zero_code.Editor.Stack.{
  Grammar, IsStack, rooted, lookup, among, sound, steady, and_three, HasRule-sound, HasRule-steady,
}

-- The first state of the shell grammar and the states whose rules it includes.
abbrev bottom : List Text
bottom =
    codes "root"
    ∷ codes "whitespace"
    ∷ codes "strings"
    ∷ codes "parameters"
    ∷ codes "heredoc"
    ∷ codes "numbers"
    ∷ []

shell_states-sound : sound shell_states shell_states ≡ true
unfolding text_eq
shell_states-sound = refl

shell_states-steady : steady bottom shell_states ≡ true
unfolding text_eq
shell_states-steady = refl

or_elim : (a b : Bool) → a || b ≡ true → a ≡ false → b ≡ true
or_elim true b h e = cc
or_elim false b h e = h

rooted_push :
    (g : Grammar) (t s : Text) (st : List Text)
    → not (text_eq t (codes "root")) && is_some (lookup t g) ≡ true
    → rooted g (s ∷ st) ≡ true
    → rooted g (t ∷ s ∷ st) ≡ true
unfolding rooted
rooted_push g t s st h k =
    and_three (not (text_eq t (codes "root"))) (is_some (lookup t g)) (rooted g (s ∷ st)) h k

rooted_pop :
    (g : Grammar) (s : Text) (st : List Text)
    → text_eq s (codes "root") ≡ false
    → rooted g (s ∷ st) ≡ true
    → rooted g st ≡ true
unfolding rooted
rooted_pop g s [] h k = cc (rw h at k)
rooted_pop g s (t ∷ st) h k =
    (and_parts (not (text_eq s (codes "root")) && is_some (lookup s g)) (rooted g (t ∷ st)) k).1

-- Every stack of states that the rules of the shell grammar lead to has the first state at the bottom
-- and nowhere else, so it is not empty, and holds only states that the grammar defines.
pub rooted-IsStack : (st : List Text) → IsStack shell_states st → rooted shell_states st ≡ true
unfolding rooted text_eq
rooted-IsStack st IsStack.start = refl
rooted-IsStack st (IsStack.push {s = s} {t = t} {p = p} {k = k} {st = rest} below h e) =
    rooted_push shell_states t s rest
      (or_elim (text_eq t (codes "pop")) _
        (HasRule-sound shell_states s (match p (token_next k (b'@' ∷ t))) shell_states-sound h) e)
      (rooted-IsStack (s ∷ rest) below)
rooted-IsStack st (IsStack.pop {s = s} {p = p} {k = k} below h) =
    elim (Bool-cases (text_eq s (codes "root"))) [
      | inl e ↦ cc (
          HasRule-steady bottom shell_states s (match p (token_next k (codes "@pop")))
            shell_states-steady
            (subst (λ u. among u bottom ≡ true) (sym (text_eq→eq s (codes "root") e)) refl) h)
      | inr e ↦ rooted_pop shell_states s st e (rooted-IsStack (s ∷ st) below)
    ]
