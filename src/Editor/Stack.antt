-- ===== src/Editor/Stack.antt =====
-- Which states a Monarch tokenizer can be in, for the grammars that
-- web/app/src/playground/Editor.tsx registers. A rule with
-- `next: '@name'` pushes a state, `next: '@pop'` pops one, and `include` takes over another state's
-- rules, as Monarch documents them; when a rule matches is left open.
use mathlib.Core.List.{Memᴰ}
use mathlib.Core.Option.{some-injective}
use zero_code.Base.{
  and_parts, implied, ◌≡◌, refl, ap, ◌∙◌, subst, inl, inr, Bool, true, false, not, ◌&&◌, ◌||◌, List,
  [], ◌∷◌, Option, none, some, is_some, Bool-cases, if◌then◌else◌,
}
use zero_code.Base.Text.{Text, codes, text_eq, text_eq→eq}
use zero_code.Editor.Monarch.{Rule, match, include, token, tokens, cases, token_next}

abbrev pub Grammar : Type 0
Grammar = List (Text × List Rule)

abbrev pub lookup : Text → Grammar → Option (List Rule)
lookup s [] = none
lookup s ((state, rules) ∷ rest) =
    let later = lookup s rest in if text_eq s state then some rules else later

-- A rule of the state, or of a state that it includes.
pub data HasRule (g : Grammar) : Text → Rule → Type 0 where
  own :
      {s : Text} {rules : List Rule} {r : Rule}
      → lookup s g ≡ some rules
      → Memᴰ r rules
      → HasRule g s r
  included :
      {s t : Text} {rules : List Rule} {r : Rule}
      → lookup s g ≡ some rules
      → Memᴰ (include (b'@' ∷ t)) rules
      → HasRule g t r
      → HasRule g s r

-- The stacks of states that the grammar's rules lead to from its first state.
pub data IsStack (g : Grammar) : List Text → Type 0 where
  start : IsStack g (codes "root" ∷ [])
  push :
      {s t p k : Text} {st : List Text}
      → IsStack g (s ∷ st)
      → HasRule g s (match p (token_next k (b'@' ∷ t)))
      → text_eq t (codes "pop") ≡ false
      → IsStack g (t ∷ s ∷ st)
  pop :
      {s p k : Text} {st : List Text}
      → IsStack g (s ∷ st)
      → HasRule g s (match p (token_next k (codes "@pop")))
      → IsStack g st

-- Not empty, the first state at the bottom and nowhere else, and every state one of the grammar's.
unfoldable pub rooted : Grammar → List Text → Bool
unfolding text_eq
rooted g [] = false
rooted g (s ∷ []) = text_eq s (codes "root") && is_some (lookup s g)
rooted g (s ∷ t ∷ st) = not (text_eq s (codes "root")) && is_some (lookup s g) && rooted g (t ∷ st)

-- The rule leaves the state on top for none that is not there, nor for the first.
abbrev sound_rule : Grammar → Rule → Bool
sound_rule g (match p (token_next k (c ∷ t))) =
    text_eq t (codes "pop") || (not (text_eq t (codes "root")) && is_some (lookup t g))
sound_rule g (match p (token_next k [])) = false
sound_rule g (match p (token k)) = true
sound_rule g (match p (tokens ks)) = true
sound_rule g (match p (cases cs)) = true
sound_rule g (include t) = true

abbrev sound_rules : Grammar → List Rule → Bool
sound_rules g [] = true
sound_rules g (r ∷ rs) = sound_rule g r && sound_rules g rs

abbrev pub sound : Grammar → Grammar → Bool
sound g [] = true
sound g ((s, rules) ∷ rest) = sound_rules g rules && sound g rest

abbrev pub among : Text → List Text → Bool
among t [] = false
among t (n ∷ ns) = text_eq t n || among t ns

-- The rule does not pop, and includes only states of the list.
abbrev steady_rule : List Text → Rule → Bool
steady_rule ns (match p (token_next k t)) = not (text_eq t (codes "@pop"))
steady_rule ns (match p (token k)) = true
steady_rule ns (match p (tokens ks)) = true
steady_rule ns (match p (cases cs)) = true
steady_rule ns (include []) = true
steady_rule ns (include (c ∷ t)) = among t ns

abbrev steady_rules : List Text → List Rule → Bool
steady_rules ns [] = true
steady_rules ns (r ∷ rs) = steady_rule ns r && steady_rules ns rs

abbrev pub steady : List Text → Grammar → Bool
steady ns [] = true
steady ns ((s, rules) ∷ rest) = (not (among s ns) || steady_rules ns rules) && steady ns rest

pub and_three : (a b c : Bool) → a && b ≡ true → c ≡ true → a && b && c ≡ true
and_three true b c h k = rw (h, k) refl
and_three false b c h k = cc

-- What holds of every rule of a grammar holds of the rules of a state.
lookup-sound :
    (g h : Grammar) (s : Text) (rules : List Rule)
    → sound g h ≡ true
    → lookup s h ≡ some rules
    → sound_rules g rules ≡ true
lookup-sound g [] s rules k e = cc
lookup-sound g ((t, mine) ∷ rest) s rules k e =
    let (here, later) = and_parts (sound_rules g mine) (sound g rest) k in
    elim (Bool-cases (text_eq s t)) [
      | inl q ↦ subst (λ rs. sound_rules g rs ≡ true) (some-injective mine rules (rw q at e)) here
      | inr q ↦ lookup-sound g rest s rules later (rw q at e)
    ]

Mem-sound :
    (g : Grammar) (r : Rule) (rules : List Rule)
    → sound_rules g rules ≡ true
    → Memᴰ r rules
    → sound_rule g r ≡ true
Mem-sound g r [] k m = elim m [ ]
Mem-sound g r (x ∷ xs) k (Memᴰ.head e) =
    ap (sound_rule g) e ∙ (and_parts (sound_rule g x) (sound_rules g xs) k).0
Mem-sound g r (x ∷ xs) k (Memᴰ.tail m) =
    Mem-sound g r xs (and_parts (sound_rule g x) (sound_rules g xs) k).1 m

-- Every rule of a sound grammar is sound, included or not.
pub HasRule-sound :
    (g : Grammar) (s : Text) (r : Rule) → sound g g ≡ true → HasRule g s r → sound_rule g r ≡ true
HasRule-sound g s r k (HasRule.own {rules = rules} e m) =
    Mem-sound g r rules (lookup-sound g g s rules k e) m
HasRule-sound g s r k (HasRule.included {t = t} e m h) = HasRule-sound g t r k h

lookup-steady :
    (ns : List Text) (h : Grammar) (s : Text) (rules : List Rule)
    → steady ns h ≡ true
    → among s ns ≡ true
    → lookup s h ≡ some rules
    → steady_rules ns rules ≡ true
lookup-steady ns [] s rules k a e = cc
lookup-steady ns ((t, mine) ∷ rest) s rules k a e =
    let (here, later) = and_parts (not (among t ns) || steady_rules ns mine) (steady ns rest) k in
    elim (Bool-cases (text_eq s t)) [
      | inl q ↦
          subst (λ rs. steady_rules ns rs ≡ true) (some-injective mine rules (rw q at e))
            (implied (among t ns) (steady_rules ns mine) here
              (subst (λ u. among u ns ≡ true) (text_eq→eq s t q) a))
      | inr q ↦ lookup-steady ns rest s rules later a (rw q at e)
    ]

Mem-steady :
    (ns : List Text) (r : Rule) (rules : List Rule)
    → steady_rules ns rules ≡ true
    → Memᴰ r rules
    → steady_rule ns r ≡ true
Mem-steady ns r [] k m = elim m [ ]
Mem-steady ns r (x ∷ xs) k (Memᴰ.head e) =
    ap (steady_rule ns) e ∙ (and_parts (steady_rule ns x) (steady_rules ns xs) k).0
Mem-steady ns r (x ∷ xs) k (Memᴰ.tail m) =
    Mem-steady ns r xs (and_parts (steady_rule ns x) (steady_rules ns xs) k).1 m

-- Names closed under `include` whose own rules do not pop have no rule that pops.
pub HasRule-steady :
    (ns : List Text) (g : Grammar) (s : Text) (r : Rule)
    → steady ns g ≡ true
    → among s ns ≡ true
    → HasRule g s r
    → steady_rule ns r ≡ true
HasRule-steady ns g s r k a (HasRule.own {rules = rules} e m) =
    Mem-steady ns r rules (lookup-steady ns g s rules k a e) m
HasRule-steady ns g s r k a (HasRule.included {t = t} {rules = rules} e m h) =
    HasRule-steady ns g t r k
      (Mem-steady ns (include (b'@' ∷ t)) rules (lookup-steady ns g s rules k a e) m) h
