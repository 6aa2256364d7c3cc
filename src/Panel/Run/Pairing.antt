-- ===== src/Panel/Run/Pairing.antt =====
-- Which case a result reaches.
use zero_code.Base.{
  suc, ◌≡◌, refl, inl, inr, false, List, [], ◌∷◌, ◌++◌, map, none, some, arith, length, get_elem?,
  drop, ap₂, keep, if◌then◌else◌, append_assoc, length-append, Bool-cases, All,
}
use zero_code.Base.Text.{Text, text_eq, text_eq→eq, text_eq_refl}
use zero_code.Api.Status.{queued}
use zero_code.Panel.Compare.{ComparisonMode}
use zero_code.Panel.Cases.{TestCase, Panel, is_real_case}
use zero_code.Panel.Cases.Invariant.{has_text, DistinctTexts}
use zero_code.Panel.Run.{
  SubmissionView, index_of, item_at, text_or_empty, apply_item, apply_case, apply_view,
  assign_tokens,
}

get_elem?-append {ℓ} :
    {A : Type ℓ} (xs ys : List A) (x : A) → get_elem? (xs ++ x ∷ ys) (length xs) ≡ some x
get_elem?-append [] ys x = refl
get_elem?-append (y ∷ xs) ys x = get_elem?-append xs ys x

index_of-append :
    (t : Text) (us vs : List Text)
    → has_text t us ≡ false
    → index_of t (us ++ t ∷ vs) ≡ some (length us)
unfolding index_of
index_of-append t [] vs h = rw (text_eq_refl t) refl
index_of-append t (u ∷ us) vs h = elim (Bool-cases (text_eq u t)) [
  | inl e ↦ let k = rw e at h in cc
  | inr e ↦ rw (e, index_of-append t us vs (rw e at h)) refl
]

index_of-none : (t : Text) (us : List Text) → has_text t us ≡ false → index_of t us ≡ none
unfolding index_of
index_of-none t [] h = refl
index_of-none t (u ∷ us) h = elim (Bool-cases (text_eq u t)) [
  | inl e ↦ let k = rw e at h in cc
  | inr e ↦ rw (e, index_of-none t us (rw e at h)) refl
]

has_text-append :
    (t u : Text) (us vs : List Text) → has_text t (us ++ u ∷ vs) ≡ false → text_eq u t ≡ false
has_text-append t u [] vs h = elim (Bool-cases (text_eq u t)) [
  | inl e ↦ let k = rw e at h in cc
  | inr e ↦ e
]
has_text-append t u (v ∷ us) vs h = has_text-append t u us vs (ground arith)

DistinctTexts-append :
    (us vs : List Text) (t : Text) → DistinctTexts (us ++ t ∷ vs) → has_text t us ≡ false
DistinctTexts-append [] vs t d = refl
DistinctTexts-append (u ∷ us) vs t d = elim (Bool-cases (text_eq u t)) [
  | inl e ↦
      let k = has_text-append u t us vs d.0 in
      let r = text_eq_refl t in let s = text_eq→eq u t e in cc
  | inr e ↦ rw e (DistinctTexts-append us vs t d.1)
]

module _ (to_lower decode : Text → Text) (mode : ComparisonMode) where
  abbrev grade_one : List Text → List SubmissionView → TestCase → TestCase
  grade_one (k ∷ tokens) (v ∷ items) t =
      apply_item to_lower decode mode (record t { token = some k; status = some queued }) v
  grade_one _ _ t = t

  -- What the user should see: the real cases take the tokens and the items in order, the others stay.
  pub grade : List Text → List SubmissionView → List TestCase → List TestCase
  grade tokens items [] = []
  grade tokens items (t ∷ ts) =
      let next = grade_one tokens items t ∷ grade (drop 1 tokens) (drop 1 items) ts in
      let same = t ∷ grade tokens items ts in if is_real_case t then next else same

  apply_case-at :
      (t : TestCase) (k : Text) (us vs : List Text) (v : SubmissionView)
      (before after : List SubmissionView)
      → t.token ≡ some k
      → has_text k us ≡ false
      → length before ≡ length us
      → apply_case to_lower decode mode (before ++ v ∷ after) (us ++ k ∷ vs) t
        ≡ apply_item to_lower decode mode t v
  unfolding apply_case
  apply_case-at t k us vs v before after e h n = rw (found, apply_case) refl
    where
      found :
          item_at (before ++ v ∷ after) (index_of (text_or_empty t.token) (us ++ k ∷ vs)) ≡ some v
      found = simp (e, index_of-append k us vs h, ← n) (get_elem?-append before after v)

  apply_case-none :
      (t : TestCase) (tokens : List Text) (items : List SubmissionView)
      → t.token ≡ none
      → has_text [] tokens ≡ false
      → apply_case to_lower decode mode items tokens t ≡ t
  unfolding apply_case
  apply_case-none t tokens items e h = rw (missing, apply_case) refl
    where
      missing : item_at items (index_of (text_or_empty t.token) tokens) ≡ none
      missing = simp (e, index_of-none [] tokens h)

  apply_case-assign_tokens :
      (us vs : List Text) (before after : List SubmissionView) (ts : List TestCase)
      → All (λ t. t.token ≡ none) ts
      → DistinctTexts (us ++ vs)
      → has_text [] (us ++ vs) ≡ false
      → length before ≡ length us
      → length after ≡ length vs
      → length (keep is_real_case ts) ≡ length vs
      → map
          (apply_case to_lower decode mode (before ++ after) (us ++ vs))
          (assign_tokens (us ++ vs) (length us) ts)
        ≡ grade vs after ts
  unfolding assign_tokens grade
  apply_case-assign_tokens us vs before after [] fresh d ne n m c = refl
  apply_case-assign_tokens us [] before after (t ∷ ts) fresh d ne n m c =
      elim (Bool-cases (is_real_case t)) [
        | inr idle ↦ rw idle (
            ap₂ ◌∷◌ (apply_case-none t (us ++ []) (before ++ after) fresh.0 ne)
              (apply_case-assign_tokens us [] before after ts fresh.1 d ne n m (rw idle at c)))
        | inl real ↦ let k = rw real at c in absurd (omega arith)
      ]
  apply_case-assign_tokens us (k ∷ vs) before [] (t ∷ ts) fresh d ne n m c = absurd (omega arith)
  apply_case-assign_tokens us (k ∷ vs) before (v ∷ after) (t ∷ ts) fresh d ne n m c =
      elim (Bool-cases (is_real_case t)) [
        | inr idle ↦ rw idle (
            ap₂ ◌∷◌ (apply_case-none t (us ++ k ∷ vs) (before ++ v ∷ after) fresh.0 ne) (
              apply_case-assign_tokens us (k ∷ vs) before (v ∷ after) ts fresh.1 d ne n m
                (rw idle at c)))
        | inl real ↦
            let shift = append_assoc us (k ∷ []) vs in
            let shift_items = append_assoc before (v ∷ []) after in
            let len : length (us ++ k ∷ []) ≡ suc (length us) =
              omega (arith, length-append us (k ∷ [])) in
            let len_items : length (before ++ v ∷ []) ≡ length (us ++ k ∷ []) =
              omega (arith, length-append us (k ∷ []), length-append before (v ∷ [])) in
            let ih =
              apply_case-assign_tokens (us ++ k ∷ []) vs (before ++ v ∷ []) after ts fresh.1
                (rw shift d) (rw shift ne) len_items (omega arith)
                (let k' = rw real at c in omega arith) in
            rw (real, get_elem?-append us vs k)
              (ap₂ ◌∷◌
                (apply_case-at (record t { token = some k; status = some queued }) k us vs v before
                  after refl (DistinctTexts-append us vs k d) n)
                (rw (shift, shift_items, len) at ih))
      ]

  -- If the server answers with one token for each input, no two alike and none empty, and with one
  -- item for each token, every real case shows the item of its own input.
  pub apply_view-assign_tokens :
      (tokens : List Text) (items : List SubmissionView) (p : Panel)
      → p.mode ≡ mode
      → All (λ t. t.token ≡ none) p.tests
      → DistinctTexts tokens
      → has_text [] tokens ≡ false
      → length items ≡ length tokens
      → length (keep is_real_case p.tests) ≡ length tokens
      → (apply_view to_lower decode items tokens
          (record p { tests = assign_tokens tokens 0 p.tests })).tests
        ≡ grade tokens items p.tests
  unfolding apply_view
  apply_view-assign_tokens tokens items p same fresh d ne m c =
      rw same (apply_case-assign_tokens [] tokens [] items p.tests fresh d ne refl m c)
