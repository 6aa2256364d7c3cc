-- ===== src/Landing/Languages.antt =====
-- The languages of the landing page: the tables of web/app/src/landing/languages.tsx.
pub mod Mirror
use zero_code.Base.{ℕ, List, [], ◌∷◌, Option, none, some, map}
use zero_code.Base.Text.{Text, codes}
use zero_code.Catalog.{lang_key_from_id}

pub data Kind : Type 0 where
  interpreted compiled jvm : Kind

pub record CoreLang : Type 0 where
  pub id : ℕ
  pub name : Text
  pub version : Text
  pub key : Text
  pub accent : Text
  pub kind : Kind

abbrev core_lang : ℕ → Text → Text → Text → Text → Kind → CoreLang
core_lang id name version key accent kind = record {
  id = id;
  name = name;
  version = version;
  key = key;
  accent = accent;
  kind = kind;
}

-- `CORE7`
abbrev pub core_7 : List CoreLang
core_7 =
    core_lang 71 (codes "Python") (codes "3.13") (codes "python") (codes "#3776AB") interpreted
    ∷ core_lang 63 (codes "Node.js") (codes "22 LTS") (codes "node") (codes "#5FA04E") interpreted
    ∷ core_lang 73 (codes "Rust") (codes "stable") (codes "rust") (codes "#CE412B") compiled
    ∷ core_lang 60 (codes "Go") (codes "1.x") (codes "go") (codes "#00ADD8") compiled
    ∷ core_lang 48 (codes "C") (codes "gcc-14") (codes "c") (codes "#A8B9CC") compiled
    ∷ core_lang 52 (codes "C++") (codes "g++-14") (codes "cpp") (codes "#00599C") compiled
    ∷ core_lang 62 (codes "Java") (codes "JDK 21") (codes "java") (codes "#ED8B00") jvm
    ∷ []

-- `KIND_LABEL`
abbrev pub kind_label : Kind → Text
kind_label interpreted = codes "interpreted"
kind_label compiled = codes "compile · run"
kind_label jvm = codes "javac · java"

pub record BatchLang : Type 0 where
  pub id : ℕ
  pub name : Text
  pub accent : Text

abbrev batch_lang : ℕ → Text → Text → BatchLang
batch_lang id name accent = record { id = id; name = name; accent = accent }

-- `BATCHES`
abbrev pub batches : List (Text × List BatchLang)
batches =
    (
      codes "scripting",
      batch_lang 100 (codes "Bash") (codes "#4EAA25")
          ∷ batch_lang 101 (codes "Lua") (codes "#2C2D72")
          ∷ batch_lang 102 (codes "Perl") (codes "#39457E")
          ∷ batch_lang 103 (codes "Ruby") (codes "#CC342D")
          ∷ batch_lang 104 (codes "R") (codes "#276DC3")
          ∷ batch_lang 105 (codes "PHP") (codes "#777BB4")
          ∷ batch_lang 106 (codes "TypeScript") (codes "#3178C6")
          ∷ [],
    )
    ∷ (
      codes "JVM",
      batch_lang 120 (codes "Kotlin") (codes "#7F52FF")
          ∷ batch_lang 121 (codes "Scala") (codes "#DC322F")
          ∷ [],
    )
    ∷ (codes ".NET", batch_lang 140 (codes "C#") (codes "#9B4F96") ∷ [])
    ∷ (
      codes "native",
      batch_lang 152 (codes "Swift") (codes "#F05138")
          ∷ batch_lang 163 (codes "Dart") (codes "#0175C2")
          ∷ [],
    )
    ∷ (codes "data", batch_lang 154 (codes "SQL") (codes "#003B57") ∷ [])
    ∷ []

-- A chip of the wall: the icon, or none where a dot stands, the name and the id.
pub record Chip : Type 0 where
  pub icon : Option Text
  pub name : Text
  pub id : ℕ
  pub accent : Text

unfoldable pub chip : BatchLang → Chip
unfolding lang_key_from_id
chip l = record { icon = lang_key_from_id l.id; name = l.name; id = l.id; accent = l.accent }

unfoldable pub chips : List (Text × List Chip)
unfolding chip
chips = map (λ (b : Text × List BatchLang). (b.0, map chip b.1)) batches
