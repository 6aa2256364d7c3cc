-- ===== src/Catalog/Tables.antt =====
-- The tables that are keyed by the statuses and by the languages.
use mathlib.Core.List.{Memᴰ}
use zero_code.Base.{◌≡◌, ◌↔◌, refl, Bool, true, false, Option, none, some}
use zero_code.Base.Text.{Text, text_eq, text_eq_iff}
use zero_code.Api.Status.{StatusKind, label}
use zero_code.Catalog.{lang_catalog, lang_key_from_id, verdict_label}
use zero_code.Catalog.Pick.{alike, distinct}
use zero_code.Catalog.Types.{Lang}

-- The client and the playground name every status alike, also one that neither table knows.
pub label-verdict_label : (k : StatusKind) → label k ≡ verdict_label k
unfolding label verdict_label
label-verdict_label _ = refl

abbrev same_key : Option Text → Option Text → Bool
same_key none none = true
same_key (some s) (some t) = text_eq s t
same_key _ _ = false

same_key_refl : (o : Option Text) → same_key o o ≡ true
same_key_refl none = refl
same_key_refl (some s) = (text_eq_iff s s).1 refl

lang_catalog-distinct_keys :
    distinct (λ l m. same_key (lang_key_from_id l.id) (lang_key_from_id m.id)) lang_catalog ≡ true
unfolding lang_key_from_id text_eq
lang_catalog-distinct_keys = refl

-- Two languages of the catalogue have the same icon exactly when they are the same.
pub lang_key_from_id-injective :
    (l m : Lang)
    → Memᴰ l lang_catalog
    → Memᴰ m lang_catalog
    → (lang_key_from_id l.id ≡ lang_key_from_id m.id) ↔ (m ≡ l)
lang_key_from_id-injective l m k n = (
  λ e.
      alike (λ a b. same_key (lang_key_from_id a.id) (lang_key_from_id b.id)) lang_catalog l m
        lang_catalog-distinct_keys k n (rw e (same_key_refl (lang_key_from_id m.id)))
        (rw e (same_key_refl (lang_key_from_id m.id))),
  λ e. rw e refl,
)
