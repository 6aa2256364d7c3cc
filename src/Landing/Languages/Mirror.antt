-- ===== src/Landing/Languages/Mirror.antt =====
-- The tables of the landing page against the catalogue.
use mathlib.Core.List.{Memᴰ}
use zero_code.Base.{
  and_parts, ◌≡◌, refl, ap, ◌∙◌, Bool, true, false, not, ◌&&◌, ◌||◌, List, [], ◌∷◌, ◌++◌, none,
  some, Option, ◌==◌, any,
}
use zero_code.Base.Text.{Text, text_eq}
use zero_code.Catalog.{lang_catalog, lang_key_from_id}
use zero_code.Catalog.Types.{Lang}
use zero_code.Landing.Languages.{CoreLang, core_7, BatchLang, batches}

-- The chips of all groups.
abbrev pub all_chips : List (Text × List BatchLang) → List BatchLang
all_chips [] = []
all_chips ((label, ls) ∷ rest) = ls ++ all_chips rest

abbrev is_key : Option Text → Text → Bool
is_key none k = false
is_key (some key) k = text_eq key k

-- The card is of the language: its id, its name and its icon.
abbrev pub is_card_of : Lang → CoreLang → Bool
is_card_of l c = l.id == c.id && text_eq l.name c.name && is_key (lang_key_from_id l.id) c.key

-- The chip is of the language: its id, its name and its accent.
abbrev pub is_chip_of : Lang → BatchLang → Bool
is_chip_of l b = l.id == b.id && text_eq l.name b.name && text_eq l.accent b.accent

-- A core language has a card, and any other a chip.
abbrev pub is_on_page : Lang → Bool
is_on_page l =
    (l.core && any (is_card_of l) core_7) || (not l.core && any (is_chip_of l) (all_chips batches))

abbrev every_on_page : List Lang → Bool
every_on_page [] = true
every_on_page (l ∷ ls) = is_on_page l && every_on_page ls

Mem-every : (l : Lang) (ls : List Lang) → every_on_page ls ≡ true → Memᴰ l ls → is_on_page l ≡ true
Mem-every l [] h m = elim m [ ]
Mem-every l (x ∷ ls) h (Memᴰ.head e) =
    ap is_on_page e ∙ (and_parts (is_on_page x) (every_on_page ls) h).0
Mem-every l (x ∷ ls) h (Memᴰ.tail m) =
    Mem-every l ls (and_parts (is_on_page x) (every_on_page ls) h).1 m

catalog_on_page : every_on_page lang_catalog ≡ true
unfolding text_eq lang_key_from_id
catalog_on_page = refl

-- Every language of the catalogue is on the landing page: a core language as a card with its id, name and
-- icon, and any other as a chip with its id, name and accent.
pub is_on_page-lang_catalog : (l : Lang) → Memᴰ l lang_catalog → is_on_page l ≡ true
is_on_page-lang_catalog l m = Mem-every l lang_catalog catalog_on_page m
