-- ===== src/Api/Key/Distinct.antt =====
-- The keys of two submissions.
use zero_code.Base.{
  ℕ, zero, suc, ◌+◌, ◌-◌, ◌*◌, ◌/◌, ◌%◌, ◌<◌, ◌≡◌, refl, sym, ap, ◌∙◌, inl, inr, Bool, false, [],
  ◌∷◌, ◌++◌, ltb, ltb→lt, not_ltb→le, if◌then◌else◌, ◌==◌, any, arith, Bool-cases,
}
use zero_code.Base.Text.{Text}
use zero_code.Api.Key.{hash, digit, digits, to_base_36, idem_key}

-- The value of a digit, and of a number written in base 36.
abbrev value_of : ℕ → ℕ
value_of c = if ltb c 58 then c - b'0' else c - 87

value_from : ℕ → Text → ℕ
value_from acc [] = acc
value_from acc (c ∷ cs) = value_from (acc * 36 + value_of c) cs

value_from-append :
    (acc : ℕ) (s : Text) (c : ℕ) → value_from acc (s ++ c ∷ []) ≡ value_from acc s * 36 + value_of c
unfolding value_from
value_from-append acc [] c = refl
value_from-append acc (d ∷ s) c = value_from-append (acc * 36 + value_of d) s c

value_of-digit : (d : ℕ) → d < 36 → value_of (digit d) ≡ d
unfolding digit
value_of-digit d h = ground arith

value_from-digits : (fuel n : ℕ) → n < fuel → value_from 0 (digits fuel n) ≡ n
unfolding digits value_from
value_from-digits zero n h = absurd (omega arith)
value_from-digits (suc fuel) n h = elim (Bool-cases (ltb n 36)) [
  | inl small ↦ rw small (omega (arith, value_of-digit n (ltb→lt n 36 small)))
  | inr large ↦
      rw (large, value_from-append 0 (digits fuel (n / 36)) (digit (n % 36)))
        (omega (
          arith,
          value_from-digits fuel (n / 36) (omega (arith, not_ltb→le n 36 large)),
          value_of-digit (n % 36) (omega arith),
        ))
]

-- No digit is a dash.
abbrev is_dash : ℕ → Bool
is_dash c = c == b'-'

any-append :
    (s t : Text) → any is_dash s ≡ false → any is_dash t ≡ false → any is_dash (s ++ t) ≡ false
any-append [] t h k = k
any-append (c ∷ s) t h k = ground (arith, any-append s t)

digit-not_dash : (d : ℕ) → is_dash (digit d) ≡ false
unfolding digit
digit-not_dash d = ground arith

any-digits : (fuel n : ℕ) → any is_dash (digits fuel n) ≡ false
unfolding digits
any-digits zero n = refl
any-digits (suc fuel) n = elim (Bool-cases (ltb n 36)) [
  | inl small ↦ rw (small, digit-not_dash n) refl
  | inr large ↦ rw large (
      any-append (digits fuel (n / 36)) (digit (n % 36) ∷ []) (any-digits fuel (n / 36))
        (rw (digit-not_dash (n % 36)) refl))
]

-- What stands before the first dash and what stands behind it are determined.
split_dash :
    (s t q r : Text)
    → any is_dash s ≡ false
    → any is_dash t ≡ false
    → s ++ b'-' ∷ q ≡ t ++ b'-' ∷ r
    → (s ≡ t) × (q ≡ r)
split_dash [] [] q r h k e = (refl, cc)
split_dash [] (d ∷ t) q r h k e = ground arith
split_dash (c ∷ s) [] q r h k e = ground arith
split_dash (c ∷ s) (d ∷ t) q r h k e =
    let rest = split_dash s t q r (ground arith) (ground arith) (cc) in (cc, rest.1)

to_base_36-injective : (m n : ℕ) → to_base_36 m ≡ to_base_36 n → m ≡ n
unfolding to_base_36
to_base_36-injective m n e =
    sym (value_from-digits (suc m) m (omega arith))
    ∙ ap (value_from 0) e
    ∙ value_from-digits (suc n) n (omega arith)

-- Two submissions have the same key only if they were made in the same millisecond and their contents
-- have the same hash.
pub idem_key-injective :
    (s t : Text) (m n : ℕ) → idem_key s m ≡ idem_key t n → (hash s ≡ hash t) × (m ≡ n)
unfolding idem_key
idem_key-injective s t m n e =
    let parts =
      split_dash (to_base_36 (hash s)) (to_base_36 (hash t)) (to_base_36 m) (to_base_36 n)
        (no_dash (hash s)) (no_dash (hash t)) (cc) in
    (to_base_36-injective (hash s) (hash t) parts.0, to_base_36-injective m n parts.1)
  where
    no_dash : (k : ℕ) → any is_dash (to_base_36 k) ≡ false
    no_dash k = unfold to_base_36 in any-digits (suc k) k
