-- ===== src/Base/Text.antt =====
-- JavaScript strings as lists of UTF-16 code units, and the built-in methods that the client calls.
use Prim.Native.Char.{code}
use Prim.Native.String.{String}
use Prim.Native.Nat.{ℕ}
use mathlib.Core.Path.{◌≡◌, refl}
use mathlib.Core.Logic.{◌↔◌, inl, inr}
use mathlib.Core.Bool.{Bool, true, false, ◌&&◌, ◌||◌}
use mathlib.Core.List.{List, [], ◌∷◌, ◌++◌}
use native.Mathlib.Omega.{arith}
use zero_code.Base.Tests.{leb, ◌==◌, if◌then◌else◌, ==_iff, Bool-cases}

abbrev pub Text : Type 0
Text = List ℕ

-- A literal of the source as code units; every literal of the model is ASCII or below U+10000.
abbrev pub codes : String → Text
codes String.[] = []
codes (String.◌∷◌ c s) = code c ∷ codes s

-- `s === t`
unfoldable pub text_eq : Text → Text → Bool
text_eq [] [] = true
text_eq (x ∷ xs) (y ∷ ys) = x == y && text_eq xs ys
text_eq _ _ = false

pub text_eq_refl : (s : Text) → text_eq s s ≡ true
unfolding text_eq
text_eq_refl [] = refl
text_eq_refl (x ∷ xs) = ground (arith, text_eq_refl xs)

pub text_eq→eq : (s t : Text) → text_eq s t ≡ true → s ≡ t
unfolding text_eq
text_eq→eq [] [] h = refl
text_eq→eq [] (y ∷ ys) h = cc
text_eq→eq (x ∷ xs) [] h = cc
text_eq→eq (x ∷ xs) (y ∷ ys) h = ground (arith, text_eq→eq xs ys)

pub text_eq_iff : (s t : Text) → (text_eq s t ≡ true) ↔ (s ≡ t)
text_eq_iff s t = (text_eq→eq s t, λ e. rw e (text_eq_refl t))

unfoldable pub glue : ℕ → List Text → List Text
glue x [] = (x ∷ []) ∷ []
glue x (f ∷ fs) = (x ∷ f) ∷ fs

-- `s.split(sep)` for a separator of one code unit: always at least one field.
unfoldable pub split_on : ℕ → Text → List Text
unfolding glue
split_on c [] = [] ∷ []
split_on c (x ∷ xs) = let rest = split_on c xs in if x == c then [] ∷ rest else glue x rest

-- The fields with the separator between them, `fs.join(sep)`.
unfoldable pub join_with : ℕ → List Text → Text
join_with c [] = []
join_with c (f ∷ []) = f
join_with c (f ∷ g ∷ fs) = f ++ c ∷ join_with c (g ∷ fs)

-- There is always a first field.
pub split_on-cons : (c : ℕ) (s : Text) → (f : Text) × (fs : List Text) × (split_on c s ≡ f ∷ fs)
unfolding split_on
split_on-cons c [] = ([], [], refl)
split_on-cons c (x ∷ xs) =
    elim (x == c)
      as (λ b.
        (f : Text) × (fs : List Text) × ((if b then [] ∷ split_on c xs else glue x (split_on c xs))
          ≡ f ∷ fs)) [ true ↦ ([], split_on c xs, refl) | false ↦ glue-cons (split_on-cons c xs) ]
  where
    glue-cons :
        (f : Text) × (fs : List Text) × (split_on c xs ≡ f ∷ fs)
        → (f : Text) × (fs : List Text) × (glue x (split_on c xs) ≡ f ∷ fs)
    glue-cons (f, fs, e) = (x ∷ f, fs, rw (e, glue) refl)

-- Splitting loses nothing.
pub join_with-split_on : (c : ℕ) (s : Text) → join_with c (split_on c s) ≡ s
unfolding join_with split_on
join_with-split_on c [] = refl
join_with-split_on c (x ∷ xs) = step (split_on c xs) (split_on-cons c xs) (join_with-split_on c xs)
  where
    step :
        (fs : List Text)
        → (f : Text) × (gs : List Text) × (fs ≡ f ∷ gs)
        → join_with c fs ≡ xs
        → join_with c (if x == c then [] ∷ fs else glue x fs) ≡ x ∷ xs
    step [] w e = cc (w.2)
    step (f ∷ []) w e = elim (Bool-cases (x == c)) [
      | inl h ↦ rw h (cc (e, (==_iff x c).0 h))
      | inr h ↦ rw h (cc e)
    ]
    step (f ∷ g ∷ fs) w e = elim (Bool-cases (x == c)) [
      | inl h ↦ rw h (cc (e, (==_iff x c).0 h))
      | inr h ↦ rw h (cc e)
    ]

abbrev pub starts_with : Text → Text → Bool
starts_with [] s = true
starts_with (p ∷ ps) [] = false
starts_with (p ∷ ps) (x ∷ xs) = p == x && starts_with ps xs

-- `s.includes(needle)`
unfoldable pub occurs : Text → Text → Bool
occurs needle [] = starts_with needle []
occurs needle (c ∷ cs) =
    let rest = occurs needle cs in if starts_with needle (c ∷ cs) then true else rest

pub starts_with_self : (s : Text) → starts_with s s ≡ true
starts_with_self [] = refl
starts_with_self (c ∷ s) = ground (arith, starts_with_self s)

pub occurs_self : (s : Text) → occurs s s ≡ true
unfolding occurs
occurs_self [] = refl
occurs_self (c ∷ s) = rw (starts_with_self (c ∷ s)) refl

pub occurs_empty : (s : Text) → occurs [] s ≡ true
unfolding occurs
occurs_empty [] = refl
occurs_empty (c ∷ s) = refl

-- What `\s` matches and `trim` removes: WhiteSpace and LineTerminator of ECMAScript.
unfoldable pub is_space : ℕ → Bool
is_space c =
    (leb 9 c && leb c 13)
    || c == 32
    || c == 0xa0
    || c == 0x1680
    || (leb 0x2000 c && leb c 0x200a)
    || c == 0x2028
    || c == 0x2029
    || c == 0x202f
    || c == 0x205f
    || c == 0x3000
    || c == 0xfeff

unfoldable pub trim_start : Text → Text
unfolding is_space
trim_start [] = []
trim_start (c ∷ cs) = let rest = trim_start cs in if is_space c then rest else c ∷ cs

unfoldable pub cons_unless_blank : ℕ → Text → Text
unfolding is_space
cons_unless_blank c [] = if is_space c then [] else c ∷ []
cons_unless_blank c (x ∷ xs) = c ∷ x ∷ xs

-- Drops the whitespace at the end.
unfoldable pub trim_end : Text → Text
unfolding cons_unless_blank
trim_end [] = []
trim_end (c ∷ cs) = cons_unless_blank c (trim_end cs)

-- `s.trim()`
unfoldable pub trim : Text → Text
unfolding trim_start trim_end
trim s = trim_end (trim_start s)
