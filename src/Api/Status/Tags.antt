-- ===== src/Api/Status/Tags.antt =====
-- The cast between strings and kinds loses nothing.
use zero_code.Base.{◌≡◌, refl, sym, inl, inr, Bool, true, false, List, [], ◌∷◌, Bool-cases}
use zero_code.Base.Text.{Text, text_eq, text_eq→eq}
use zero_code.Api.Status.{StatusKind, tag, tags, find_tag, as_kind, idle, other}

tag-find_tag : (s : Text) (ks : List StatusKind) → tag (find_tag s ks) ≡ s
unfolding find_tag tag
tag-find_tag s [] = refl
tag-find_tag s (k ∷ ks) = elim (Bool-cases (text_eq s (tag k))) [
  | inl hit ↦ rw (hit, find_tag) (sym (text_eq→eq s (tag k) hit))
  | inr miss ↦ rw (miss, find_tag) (tag-find_tag s ks)
]

-- Whatever string is cast to a kind, the kind is still that string.
pub tag-as_kind : (s : Text) → tag (as_kind s) ≡ s
unfolding as_kind
tag-as_kind s = tag-find_tag s tags

abbrev pub is_known : StatusKind → Bool
is_known (other s) = false
is_known _ = true

-- A tag of the union is read as its own kind.
pub as_kind-tag : (k : StatusKind) → is_known k ≡ true → as_kind (tag k) ≡ k
unfolding as_kind find_tag tag text_eq
as_kind-tag (other s) e = cc
as_kind-tag idle e = refl
as_kind-tag _ e = refl
