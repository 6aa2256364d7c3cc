-- ===== src/Catalog/Pick.antt =====
-- Which language the playground opens with.
use mathlib.Core.List.{Memᴰ}
use zero_code.Base.{
  ℕ, ◌≡◌, ◌≢◌, inl, inr, refl, sym, ap, ◌∙◌, Bool, true, false, List, [], ◌∷◌, Option, none, some,
  ◌==◌, Bool-cases, ==_iff, any, not, ◌&&◌,
}
use zero_code.Base.Text.{Text, codes, text_eq, text_eq_refl, text_eq→eq, text_eq_iff}
use zero_code.Catalog.{
  lang_catalog, find, insert, sort, langs, pick_initial_lang, shared_lang, draft_lang,
}
use zero_code.Catalog.Types.{Lang}
use zero_code.Catalog.Core.{rust_entry}

distinct-cons : (b c : Bool) → not b && c ≡ true → (b ≡ false) × (c ≡ true)
distinct-cons true c h = cc
distinct-cons false c h = (refl, h)

module _ {ℓ} {A : Type ℓ} where
  find_unique :
      (p : A → Bool) (l : A) (xs : List A)
      → Memᴰ l xs
      → p l ≡ true
      → ((y : A) → Memᴰ y xs → p y ≡ true → y ≡ l)
      → find p xs ≡ some l
  find_unique p l [] m h u = elim m [ ]
  find_unique p l (x ∷ xs) m h u = elim (Bool-cases (p x)) [
    | inl e ↦ rw e (ap some (u x (Memᴰ.head refl) e))
    | inr e ↦ rw e (elim m [
      | Memᴰ.head same ↦ cc (h, e, same)
      | Memᴰ.tail k ↦ find_unique p l xs k h (λ y n. u y (Memᴰ.tail n))
    ])
  ]

  find-none : (p : A → Bool) (xs : List A) → ((y : A) → Memᴰ y xs → p y ≡ false) → find p xs ≡ none
  find-none p [] h = refl
  find-none p (x ∷ xs) h = rw (h x (Memᴰ.head refl)) (find-none p xs (λ y m. h y (Memᴰ.tail m)))

  pub any-Mem : (p : A → Bool) (xs : List A) (y : A) → any p xs ≡ false → Memᴰ y xs → p y ≡ false
  any-Mem p [] y h m = elim m [ ]
  any-Mem p (x ∷ xs) y h m = elim (Bool-cases (p x)) [
    | inl e ↦ cc (rw e at h)
    | inr e ↦ elim m [ Memᴰ.head same ↦ ap p same ∙ e | Memᴰ.tail k ↦ any-Mem p xs y (rw e at h) k ]
  ]

  -- No two members are alike.
  abbrev pub distinct : (A → A → Bool) → List A → Bool
  distinct same [] = true
  distinct same (x ∷ xs) = not (any (same x) xs) && distinct same xs

  pub alike :
      (same : A → A → Bool) (xs : List A) (x y : A)
      → distinct same xs ≡ true
      → Memᴰ x xs
      → Memᴰ y xs
      → same x y ≡ true
      → same y x ≡ true
      → y ≡ x
  alike same [] x y d k n e f = elim k [ ]
  alike same (z ∷ zs) x y d k n e f =
      let (apart, rest) = distinct-cons (any (same z) zs) (distinct same zs) d in
      elim k [
        | Memᴰ.head a ↦ elim n [
          | Memᴰ.head b ↦ b ∙ sym a
          | Memᴰ.tail n' ↦ cc (any-Mem (same z) zs y apart n', e, a)
        ]
        | Memᴰ.tail k' ↦ elim n [
          | Memᴰ.head b ↦ cc (any-Mem (same z) zs x apart k', f, b)
          | Memᴰ.tail n' ↦ alike same zs x y rest k' n' e f
        ]
      ]

  module _ (le : A → A → Bool) where
    Mem-insert : (x y : A) (xs : List A) → Memᴰ y (x ∷ xs) → Memᴰ y (insert le x xs)
    unfolding insert
    Mem-insert x y [] m = m
    Mem-insert x y (z ∷ zs) m = elim (Bool-cases (le x z)) [
      | inl e ↦ rw e m
      | inr e ↦ rw e (later m (Mem-insert x y zs))
    ]
      where
        later :
            Memᴰ y (x ∷ z ∷ zs)
            → (Memᴰ y (x ∷ zs) → Memᴰ y (insert le x zs))
            → Memᴰ y (z ∷ insert le x zs)
        later (Memᴰ.head e) ih = Memᴰ.tail (ih (Memᴰ.head e))
        later (Memᴰ.tail (Memᴰ.head e)) ih = Memᴰ.head e
        later (Memᴰ.tail (Memᴰ.tail k)) ih = Memᴰ.tail (ih (Memᴰ.tail k))

    insert-Mem : (x y : A) (xs : List A) → Memᴰ y (insert le x xs) → Memᴰ y (x ∷ xs)
    unfolding insert
    insert-Mem x y [] m = m
    insert-Mem x y (z ∷ zs) m = elim (Bool-cases (le x z)) [
      | inl e ↦ rw e at m
      | inr e ↦ later (rw e at m) (insert-Mem x y zs)
    ]
      where
        swapped : Memᴰ y (x ∷ zs) → Memᴰ y (x ∷ z ∷ zs)
        swapped (Memᴰ.head e) = Memᴰ.head e
        swapped (Memᴰ.tail k) = Memᴰ.tail (Memᴰ.tail k)

        later :
            Memᴰ y (z ∷ insert le x zs)
            → (Memᴰ y (insert le x zs) → Memᴰ y (x ∷ zs))
            → Memᴰ y (x ∷ z ∷ zs)
        later (Memᴰ.head e) ih = Memᴰ.tail (Memᴰ.head e)
        later (Memᴰ.tail k) ih = swapped (ih k)

    Mem-sort : (y : A) (xs : List A) → Memᴰ y xs → Memᴰ y (sort le xs)
    unfolding sort
    Mem-sort y [] m = m
    Mem-sort y (x ∷ xs) (Memᴰ.head e) = Mem-insert x y (sort le xs) (Memᴰ.head e)
    Mem-sort y (x ∷ xs) (Memᴰ.tail m) = Mem-insert x y (sort le xs) (Memᴰ.tail (Mem-sort y xs m))

    sort-Mem : (y : A) (xs : List A) → Memᴰ y (sort le xs) → Memᴰ y xs
    unfolding sort
    sort-Mem y [] m = m
    sort-Mem y (x ∷ xs) m = elim (insert-Mem x y (sort le xs) m) [
      | Memᴰ.head e ↦ Memᴰ.head e
      | Memᴰ.tail k ↦ Memᴰ.tail (sort-Mem y xs k)
    ]

-- No two languages have the same id, and no two the same name.
lang_catalog-distinct_ids : distinct (λ l m. l.id == m.id) lang_catalog ≡ true
lang_catalog-distinct_ids = refl

lang_catalog-distinct_names : distinct (λ l m. text_eq l.name m.name) lang_catalog ≡ true
unfolding text_eq
lang_catalog-distinct_names = refl

same_id : (l m : Lang) → Memᴰ l lang_catalog → Memᴰ m lang_catalog → l.id ≡ m.id → m ≡ l
same_id l m k n e =
    alike (λ a b. a.id == b.id) lang_catalog l m lang_catalog-distinct_ids k n
      ((==_iff l.id m.id).1 e) ((==_iff m.id l.id).1 (sym e))

same_name : (l m : Lang) → Memᴰ l lang_catalog → Memᴰ m lang_catalog → l.name ≡ m.name → m ≡ l
same_name l m k n e =
    alike (λ a b. text_eq a.name b.name) lang_catalog l m lang_catalog-distinct_names k n
      ((text_eq_iff l.name m.name).1 e) ((text_eq_iff m.name l.name).1 (sym e))

pub rust_entry-Mem : Memᴰ rust_entry lang_catalog
rust_entry-Mem = Memᴰ.tail (Memᴰ.tail (Memᴰ.head refl))

module _ (name_le : Text → Text → Bool) where
  find-langs :
      (p : Lang → Bool) (l : Lang)
      → Memᴰ l lang_catalog
      → p l ≡ true
      → ((y : Lang) → Memᴰ y lang_catalog → p y ≡ true → y ≡ l)
      → find p (langs name_le) ≡ some l
  unfolding langs
  find-langs p l m h u =
      find_unique p l (langs name_le) (Mem-sort (λ a b. name_le a.name b.name) l lang_catalog m) h
        (λ y n. u y (sort-Mem (λ a b. name_le a.name b.name) y lang_catalog n))

  find-langs-none :
      (p : Lang → Bool)
      → ((y : Lang) → Memᴰ y lang_catalog → p y ≡ false)
      → find p (langs name_le) ≡ none
  unfolding langs
  find-langs-none p h =
      find-none p (langs name_le)
        (λ y n. h y (sort-Mem (λ a b. name_le a.name b.name) y lang_catalog n))

  module _ (to_text : ℕ → Text) where
    shared_lang-find :
        (s : Text) (ls : List Lang)
        → s ≢ []
        → shared_lang to_text (some s) ls ≡ find (λ l. text_eq (to_text l.id) s) ls
    shared_lang-find [] ls ne = absurd (ne refl)
    shared_lang-find (c ∷ s) ls ne = refl

    shared_lang-none :
        (s : Text)
        → ((y : Lang) → Memᴰ y lang_catalog → text_eq (to_text y.id) s ≡ false)
        → shared_lang to_text (some s) (langs name_le) ≡ none
    shared_lang-none [] unknown = refl
    shared_lang-none (c ∷ s) unknown = find-langs-none (λ l. text_eq (to_text l.id) (c ∷ s)) unknown

    pub draft_lang-some :
        (l : Lang) → Memᴰ l lang_catalog → draft_lang to_text (some l.id) (langs name_le) ≡ some l
    draft_lang-some l m =
        find-langs (λ y. y.id == l.id) l m ((==_iff l.id l.id).1 refl)
          (λ y n e. same_id l y m n (sym ((==_iff y.id l.id).0 e)))

    find-rust : find (λ l. text_eq l.name (codes "Rust")) (langs name_le) ≡ some rust_entry
    find-rust =
        find-langs (λ l. text_eq l.name (codes "Rust")) rust_entry rust_entry-Mem
          (text_eq_refl (codes "Rust"))
          (λ y n e.
            same_name rust_entry y rust_entry-Mem n (sym (text_eq→eq y.name (codes "Rust") e)))

    -- If numbers are written differently from each other and never as the empty text, a link that
    -- names a language of the catalogue by its id opens the playground with that language.
    pub pick_initial_lang-shared :
        (l : Lang) (draft : Option ℕ)
        → ((m n : ℕ) → to_text m ≡ to_text n → m ≡ n)
        → to_text l.id ≢ []
        → Memᴰ l lang_catalog
        → pick_initial_lang to_text (some (to_text l.id)) draft (langs name_le) ≡ some l
    unfolding pick_initial_lang
    pick_initial_lang-shared l draft inj ne m =
        let hit : find (λ y. text_eq (to_text y.id) (to_text l.id)) (langs name_le) ≡ some l =
          find-langs (λ y. text_eq (to_text y.id) (to_text l.id)) l m (text_eq_refl (to_text l.id))
            (λ y n e. same_id l y m n (sym (inj y.id l.id (text_eq→eq _ _ e)))) in
        rw (shared_lang-find (to_text l.id) (langs name_le) ne, hit) refl

    -- If the link names no language of the catalogue and the draft names one, it is the draft's.
    pub pick_initial_lang-draft :
        (s : Text) (l : Lang)
        → ((y : Lang) → Memᴰ y lang_catalog → text_eq (to_text y.id) s ≡ false)
        → Memᴰ l lang_catalog
        → pick_initial_lang to_text (some s) (some l.id) (langs name_le) ≡ some l
    unfolding pick_initial_lang
    pick_initial_lang-draft s l unknown m =
        rw (shared_lang-none s unknown, draft_lang-some l m) refl

    -- If neither the link nor the draft names a language of the catalogue, it is Rust.
    pub pick_initial_lang-rust :
        (s : Text) (i : ℕ)
        → ((y : Lang) → Memᴰ y lang_catalog → text_eq (to_text y.id) s ≡ false)
        → ((y : Lang) → Memᴰ y lang_catalog → (y.id == i) ≡ false)
        → pick_initial_lang to_text (some s) (some i) (langs name_le) ≡ some rust_entry
    unfolding pick_initial_lang
    pick_initial_lang-rust s i unknown fresh =
        rw (shared_lang-none s unknown, find-langs-none (λ y. y.id == i) fresh, find-rust) refl
