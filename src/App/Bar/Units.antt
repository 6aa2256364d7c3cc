-- ===== src/App/Bar/Units.antt =====
-- How near the amount of memory that is shown is to the one measured.
use zero_code.Base.{
  ℕ, ◌+◌, ◌*◌, ◌≤◌, ◌≡◌, refl, inl, inr, arith, ltb, Bool-cases, ltb→lt, not_ltb→le, ◌⊎◌,
}
use zero_code.App.Bar.{Amount, whole_bytes, kb_tenths, whole_kb, mb_tenths, whole_mb, format_kib}

abbrev pub number_of : Amount → ℕ
number_of (whole_bytes n) = n
number_of (kb_tenths n) = n
number_of (whole_kb n) = n
number_of (mb_tenths n) = n
number_of (whole_mb n) = n

-- Within half of the last digit shown, in KiB: an amount of `n` units of `u / v` KiB.
abbrev pub Near : Amount → ℕ → Type 0
Near (whole_bytes n) kib = n ≡ kib * 1024
Near (kb_tenths n) kib = n ≡ kib * 10
Near (whole_kb n) kib = n ≡ kib
Near (mb_tenths n) kib = (n * 1024 ≤ kib * 10 + 512) × (kib * 10 ≤ n * 1024 + 512)
Near (whole_mb n) kib = (n * 1024 ≤ kib + 512) × (kib ≤ n * 1024 + 512)

-- The memory shown is exact below a megabyte and from there within half of its last digit, and it is
-- not 0 unless nothing was used.
pub format_kib-Near :
    (kib : ℕ) → Near (format_kib kib) kib × ((kib ≡ 0) ⊎ (1 ≤ number_of (format_kib kib)))
unfolding format_kib
format_kib-Near kib = elim (Bool-cases (ltb kib 1)) [
  | inl e ↦ rw e (refl, inl (omega (arith, ltb→lt kib 1 e)))
  | inr e ↦ elim (Bool-cases (ltb kib 1024)) [
    | inl s ↦ elim (Bool-cases (ltb kib 10)) [
      | inl d ↦ rw (e, s, d) (refl, inr (omega (arith, not_ltb→le kib 1 e)))
      | inr d ↦ rw (e, s, d) (refl, inr (omega (arith, not_ltb→le kib 1 e)))
    ]
    | inr s ↦ elim (Bool-cases (ltb kib (100 * 1024))) [
      | inl m ↦
          rw (e, s, m) ((omega arith, omega arith), inr (omega (arith, not_ltb→le kib 1024 s)))
      | inr m ↦
          rw (e, s, m) ((omega arith, omega arith), inr (omega (arith, not_ltb→le kib 1024 s)))
    ]
  ]
]
