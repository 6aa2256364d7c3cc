-- ===== src/Catalog/Types.antt =====
-- The types of the catalogue: `Family`, `CmLang` and `Lang` of web/app/src/playground/data.ts.
use zero_code.Base.{ℕ, Bool, List}
use zero_code.Base.Text.{Text}
use zero_code.Panel.Cases.{Number}

pub data Family : Type 0 where
  py c rb sh : Family

-- The highlight modes, which are Monaco's language ids.
pub data CmLang : Type 0 where
  python javascript typescript rust go cpp c java : CmLang
  shell lua perl ruby r php : CmLang
  kotlin scala csharp swift sql dart : CmLang

pub record Metrics : Type 0 where
  pub time : Number
  pub memory : Number
  pub exit : ℕ

pub record Lang : Type 0 where
  pub id : ℕ
  pub name : Text
  pub version : Text
  pub ext : Text
  pub family : Family
  pub core : Bool
  pub accent : Text
  pub cm : CmLang
  pub snippet : Text
  pub sample_stdin : Text
  pub output : List Text
  pub metrics : Metrics
