-- ===== src/Panel/Store/Bounds.antt =====
-- How large the store gets, and what saving keeps.
use zero_code.Base.{
  ℕ, zero, suc, ltb, ◌+◌, ◌-◌, ◌≡◌, ◌≢◌, refl, ◌⊎◌, inl, inr, false, [], ◌∷◌, none, some, arith,
  if◌then◌else◌, length, drop, length-drop, Bool-cases,
}
use zero_code.Base.Text.{Text, text_eq, text_eq_refl, text_eq→eq}
use zero_code.Panel.Store.{Buckets, lookup, has, put, evict, save_bucket}

module _ {ℓ} {B : Type ℓ} where
  -- No key stands twice, as in every object.
  abbrev pub Distinct : Buckets B → Type 0
  Distinct [] = Unit
  Distinct ((k, b) ∷ all) = (has k all ≡ false) × Distinct all

  has-drop :
      (key : Text) (n : ℕ) (all : Buckets B) → has key all ≡ false → has key (drop n all) ≡ false
  unfolding has
  has-drop key zero all h = h
  has-drop key (suc n) [] h = refl
  has-drop key (suc n) ((j, b) ∷ all) h = has-drop key n all (ground arith)

  lookup-has : (k : Text) (all : Buckets B) → has k all ≡ false → lookup k all ≡ none
  unfolding has lookup
  lookup-has k [] h = refl
  lookup-has k ((j, b) ∷ all) h = ground (arith, lookup-has k all)

  lookup-drop :
      (k : Text) (n : ℕ) (all : Buckets B)
      → Distinct all
      → (lookup k (drop n all) ≡ lookup k all) ⊎ (lookup k (drop n all) ≡ none)
  unfolding lookup
  lookup-drop k zero all d = inl refl
  lookup-drop k (suc n) [] d = inl refl
  lookup-drop k (suc n) ((j, b) ∷ all) d = elim (Bool-cases (text_eq j k)) [
    | inl e ↦ inr (lookup-has k (drop n all) (has-drop k n all (rw (text_eq→eq j k e) at d.0)))
    | inr e ↦ rw e (lookup-drop k n all d.1)
  ]

module _ {ℓ} {B : Type ℓ} (key : Text) (bucket : B) where
  length-put :
      (all : Buckets B)
      → length (put key bucket all) ≡ (if has key all then length all else length all + 1)
  unfolding put has
  length-put [] = omega arith
  length-put ((j, b) ∷ all) = ground (arith, length-put all)

  lookup-put : (all : Buckets B) → lookup key (put key bucket all) ≡ some bucket
  unfolding put lookup
  lookup-put [] = rw (text_eq_refl key) refl
  lookup-put ((j, b) ∷ all) = ground (arith, lookup-put all)

  lookup-put_ne :
      (k : Text) (all : Buckets B)
      → text_eq key k ≡ false
      → lookup k (put key bucket all) ≡ lookup k all
  unfolding put lookup
  lookup-put_ne k [] h = rw h refl
  lookup-put_ne k ((j, b) ∷ all) h = elim (Bool-cases (text_eq j key)) [
    | inl e ↦ let other : text_eq j k ≡ false = rw (text_eq→eq j key e) h in rw (e, other) refl
    | inr e ↦ rw e (ground (arith, lookup-put_ne k all h))
  ]

  -- An object gains a key only while it has room: over thirty keys, all but the newest
  -- twenty-nine go before a new one is added.
  pub length-save_bucket :
      (all : Buckets B)
      → length (save_bucket key bucket all)
        ≡ (if has key all then length all else if ltb 30 (length all) then 30 else length all + 1)
  unfolding save_bucket evict
  length-save_bucket all = elim (Bool-cases (has key all)) [
    | inl old ↦ ground (arith, length-put all)
    | inr new ↦ ground (
      arith,
      length-put all,
      length-put (drop (length all - 29) all),
      length-drop (length all - 29) all,
      has-drop key (length all - 29) all new,
    )
  ]

  -- What was saved is found again.
  pub lookup-save_bucket_self :
      (all : Buckets B) → lookup key (save_bucket key bucket all) ≡ some bucket
  unfolding save_bucket
  lookup-save_bucket_self all = lookup-put (evict key all)

  -- If no key is stored twice, each other bucket stays as it is, or is dropped.
  pub lookup-save_bucket_ne :
      (k : Text) (all : Buckets B)
      → Distinct all
      → key ≢ k
      → (lookup k (save_bucket key bucket all) ≡ lookup k all)
        ⊎ (lookup k (save_bucket key bucket all) ≡ none)
  unfolding save_bucket evict
  lookup-save_bucket_ne k all d ne = ground (
    arith,
    text_eq→eq key k,
    lookup-put_ne k all,
    lookup-put_ne k (drop (length all - 29) all),
    lookup-drop k (length all - 29) all d,
  )
