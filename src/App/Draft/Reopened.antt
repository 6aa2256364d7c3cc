-- ===== src/App/Draft/Reopened.antt =====
-- What a session finds again when the page is loaded anew.
use mathlib.Core.List.{Memᴰ}
use zero_code.Base.{
  ℕ, zero, suc, ◌≡◌, refl, ap, ◌∙◌, ◌≢◌, Bool, true, List, [], ◌∷◌, Option, none, some, take, arith,
  Bool-cases, inl, inr,
}
use zero_code.Base.Text.{Text, codes}
use zero_code.Catalog.{lang_catalog, langs, pick_initial_lang}
use zero_code.Catalog.Types.{Lang}
use zero_code.Catalog.Pick.{draft_lang-some}
use zero_code.App.Run.{HistoryEntry}
use zero_code.App.Session.{Draft, RunLimits, initial_code, initial_stdin}
use zero_code.App.Draft.{
  draft_of, Storage, item_or, Codec, draft_unless, load_draft, save_draft, load_history,
  save_history, open_session,
}

item_or-non_empty : (fallback t : Text) → t ≢ [] → item_or fallback (some t) ≡ t
item_or-non_empty fallback [] h = absurd (h refl)
item_or-non_empty fallback (c ∷ t) h = refl

take-take {ℓ} : {A : Type ℓ} (n : ℕ) (xs : List A) → take n (take n xs) ≡ take n xs
take-take zero xs = refl
take-take (suc n) [] = refl
take-take (suc n) (x ∷ xs) = ap (◌∷◌ x) (take-take n xs)

-- A value comes back from the text that it is stored as.
pub record Returns {A : Type 0} (write : A → Text) (parse : Text → Option A) (a : A) : Type 0 where
  pub not_empty : write a ≢ []
  pub read_back : parse (write a) ≡ some a

module _ (c : Codec) where
  load_draft-save_draft :
      (d : Draft) (s : Storage)
      → s.readable ≡ true
      → s.writable ≡ true
      → Returns c.draft_text c.parse_draft d
      → load_draft c (save_draft c d s) ≡ some d
  unfolding load_draft save_draft
  load_draft-save_draft d s r w h =
      rw (w, r, item_or-non_empty (codes "null") (c.draft_text d) h.not_empty) h.read_back

  load_history-save_history :
      (es : List HistoryEntry) (s : Storage)
      → s.readable ≡ true
      → s.writable ≡ true
      → Returns c.history_text c.parse_history (take 20 es)
      → load_history c (save_history c es s) ≡ take 20 es
  unfolding load_history save_history
  load_history-save_history es s r w h =
      rw
        (
          w,
          r,
          item_or-non_empty (codes "[]") (c.history_text (take 20 es)) h.not_empty,
          h.read_back,
        )
        (take-take 20 es)

  save_history-kept :
      (es : List HistoryEntry) (s : Storage)
      → ((save_history c es s).readable ≡ s.readable)
        × ((save_history c es s).writable ≡ s.writable)
  unfolding save_history
  save_history-kept es s = ground arith

  load_history-save_draft :
      (d : Draft) (s : Storage) → load_history c (save_draft c d s) ≡ load_history c s
  unfolding load_history save_draft
  load_history-save_draft d s = elim (Bool-cases s.writable) [
    | inl e ↦ rw e refl
    | inr e ↦ rw e refl
  ]

  -- Where the storage can be read and written and what is stored comes back, the playground that is opened
  -- anew, without a link, has the language of the catalogue, the code, the input and the limits that were
  -- there, be they empty or not, and the newest twenty runs of the history.
  pub open_session-save_draft :
      (name_le : Text → Text → Bool) (to_text : ℕ → Text) (l : Lang) (code stdin : Text)
      (limits : RunLimits) (es : List HistoryEntry) (s : Storage)
      → s.readable ≡ true
      → s.writable ≡ true
      → Memᴰ l lang_catalog
      → Returns c.draft_text c.parse_draft (draft_of l code stdin limits)
      → Returns c.history_text c.parse_history (take 20 es)
      → open_session c to_text
          (langs name_le)
          none
          (save_draft c (draft_of l code stdin limits) (save_history c es s))
        ≡ some
            (record { lang = l; code = code; stdin = stdin; limits = limits; history = take 20 es })
  unfolding open_session draft_unless pick_initial_lang initial_code initial_stdin
  open_session-save_draft name_le to_text l code stdin limits es s r w m hd hh =
      let d = draft_of l code stdin limits in
      let q = save_history c es s in
      let k = save_history-kept es s in
      rw
        (
          load_draft-save_draft d q (k.0 ∙ r) (k.1 ∙ w) hd,
          load_history-save_draft d q,
          load_history-save_history es s r w hh,
          draft_lang-some name_le to_text l m,
        )
        refl
