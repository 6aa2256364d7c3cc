-- ===== src/Catalog/Icons.antt =====
-- The icons of the languages: `ICONS`, `LangIcon` and `langBrandHex` of
-- web/app/src/shared/lang-icons.tsx. The shapes are left out: a path icon is its title and hex, a custom
-- one its title, hex and view box.
pub mod Brand
use zero_code.Base.{
  ℕ, Bool, true, false, List, [], ◌∷◌, ◌++◌, Option, none, some, if◌then◌else◌, or_else, length,
  leb, ◌==◌, map,
}
use zero_code.Base.Text.{Text, codes, text_eq}

pub data IconKind : Type 0 where
  path custom : IconKind
  mono : (label : Text) → IconKind

-- `IconData`
pub record IconData : Type 0 where
  pub kind : IconKind
  pub title : Text
  pub hex : Text
  pub view_box : Option Text

abbrev path_icon : Text → Text → IconData
path_icon title hex = record { kind = path; title = title; hex = hex; view_box = none }

abbrev custom_icon : Text → Text → Text → IconData
custom_icon title hex box = record { kind = custom; title = title; hex = hex; view_box = some box }

-- `ICONS`
abbrev pub icons : List (Text × IconData)
icons =
    (codes "python", custom_icon (codes "Python") (codes "3776AB") (codes "0 0 48 48"))
    ∷ (codes "java", custom_icon (codes "Java") (codes "ED8B00") (codes "0 0 48 48"))
    ∷ (codes "c", custom_icon (codes "C") (codes "283593") (codes "0 0 48 48"))
    ∷ (codes "cpp", custom_icon (codes "C++") (codes "00549d") (codes "0 0 48 48"))
    ∷ (codes "go", path_icon (codes "Go") (codes "00ADD8"))
    ∷ (codes "node", path_icon (codes "Node.js") (codes "5FA04E"))
    ∷ (codes "rust", path_icon (codes "Rust") (codes "CE412B"))
    ∷ (codes "bash", path_icon (codes "Bash") (codes "4EAA25"))
    ∷ (codes "lua", path_icon (codes "Lua") (codes "2C2D72"))
    ∷ (codes "perl", path_icon (codes "Perl") (codes "39457E"))
    ∷ (codes "ruby", path_icon (codes "Ruby") (codes "CC342D"))
    ∷ (codes "r", path_icon (codes "R") (codes "276DC3"))
    ∷ (codes "php", path_icon (codes "PHP") (codes "777BB4"))
    ∷ (codes "typescript", path_icon (codes "TypeScript") (codes "3178C6"))
    ∷ (codes "kotlin", path_icon (codes "Kotlin") (codes "7F52FF"))
    ∷ (codes "scala", path_icon (codes "Scala") (codes "DC322F"))
    ∷ (codes "csharp", custom_icon (codes "C#") (codes "9B4F96") (codes "0 0 128 128"))
    ∷ (codes "swift", path_icon (codes "Swift") (codes "F05138"))
    ∷ (codes "sql", path_icon (codes "SQL") (codes "003B57"))
    ∷ (codes "dart", path_icon (codes "Dart") (codes "0175C2"))
    ∷ []

-- `ICONS[lang]`
unfoldable pub icon_of : Text → List (Text × IconData) → Option IconData
unfolding text_eq
icon_of lang [] = none
icon_of lang ((key, d) ∷ rest) =
    let later = icon_of lang rest in if text_eq key lang then some d else later

-- `langBrandHex`
unfoldable pub lang_brand_hex : Text → Option Text
unfolding icon_of
lang_brand_hex lang = elim (icon_of lang icons) [ none ↦ none | some d ↦ some d.hex ]

-- What `LangIcon` draws: the view box, the label for readers, the fill, and the monogram of a badge with
-- its size in halves of a pixel and its colour.
pub record Drawn : Type 0 where
  pub view_box : Text
  pub aria_label : Text
  pub fill : Text
  pub monogram : Option (Text × ℕ × Text)

abbrev pub plain_box : Text
plain_box = codes "0 0 24 24"

abbrev pub box_of : Option Text → Text
box_of none = plain_box
box_of (some []) = plain_box
box_of (some (c ∷ cs)) = c ∷ cs

-- 12.5, 10.5 and 8 pixels.
unfoldable pub font_size : ℕ → ℕ
font_size len = if leb len 1 then 25 else if len == 2 then 21 else 16

-- `readable_on` is `readableOn`, which computes with floating-point numbers.
unfoldable pub lang_icon :
    (readable_on : Text → Text) → Option Text → Option Text → IconData → Drawn
unfolding font_size
lang_icon readable_on color title d = drawn d.kind
  where
    drawn : IconKind → Drawn
    drawn (mono label) =
        let bg = or_else color (b'#' ∷ d.hex) in
        record {
          view_box = plain_box;
          aria_label = or_else title d.title;
          fill = bg;
          monogram = some (label, font_size (length label), readable_on bg);
        }
    drawn kind = record {
      view_box = box_of d.view_box;
      aria_label = or_else title d.title;
      fill = or_else color (codes "var(--lang-color, #" ++ d.hex ++ codes ")");
      monogram = none;
    }
