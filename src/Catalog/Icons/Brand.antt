-- ===== src/Catalog/Icons/Brand.antt =====
-- The icons against the catalogue.
use mathlib.Core.List.{Memᴰ}
use zero_code.Base.{
  ◌≡◌, refl, ap, ◌∙◌, Bool, true, false, ◌&&◌, List, [], ◌∷◌, Option, none, some, and_parts,
}
use zero_code.Base.Text.{Text, text_eq}
use zero_code.Catalog.{lang_catalog, lang_key_from_id}
use zero_code.Catalog.Types.{Lang}
use zero_code.Catalog.Icons.{IconData, icons, icon_of}

abbrev is_titled : Text → Option IconData → Bool
is_titled name none = false
is_titled name (some d) = text_eq d.title name

-- The language has an icon, and its title is the language's name.
abbrev pub has_icon : Lang → Bool
has_icon l = elim (lang_key_from_id l.id) [
  | none ↦ false
  | some key ↦ is_titled l.name (icon_of key icons)
]

abbrev every_icon : List Lang → Bool
every_icon [] = true
every_icon (l ∷ ls) = has_icon l && every_icon ls

catalog_icons : every_icon lang_catalog ≡ true
unfolding text_eq lang_key_from_id icon_of
catalog_icons = refl

Mem-icons : (l : Lang) (ls : List Lang) → every_icon ls ≡ true → Memᴰ l ls → has_icon l ≡ true
Mem-icons l [] h m = elim m [ ]
Mem-icons l (x ∷ ls) h (Memᴰ.head e) = ap has_icon e ∙ (and_parts (has_icon x) (every_icon ls) h).0
Mem-icons l (x ∷ ls) h (Memᴰ.tail m) = Mem-icons l ls (and_parts (has_icon x) (every_icon ls) h).1 m

-- Every language of the catalogue has an icon, under its name.
pub has_icon-lang_catalog : (l : Lang) → Memᴰ l lang_catalog → has_icon l ≡ true
has_icon-lang_catalog l m = Mem-icons l lang_catalog catalog_icons m
