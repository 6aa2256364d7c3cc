-- ===== src/Catalog.antt =====
-- The language catalogue: web/app/src/playground/data.ts, `langKeyFromId` of
-- web/app/src/shared/lang-icons.tsx, and `pickInitialLang` of web/app/src/playground/App.tsx.
pub mod Types
pub mod Core
pub mod Batch
pub mod Pick
pub mod Tables
pub mod Icons
mod Tests
use zero_code.Base.{ℕ, Bool, List, [], ◌∷◌, ◌++◌, Option, none, some, ◌==◌, if◌then◌else◌}
use zero_code.Base.Text.{Text, codes, text_eq}
use zero_code.Api.Status.{StatusKind, label}
use zero_code.Catalog.Types.{Lang}
use zero_code.Catalog.Batch.{
  bash_entry, lua_entry, perl_entry, ruby_entry, r_entry, php_entry, typescript_entry, kotlin_entry,
  scala_entry, csharp_entry, swift_entry, sql_entry, dart_entry,
}
use zero_code.Catalog.Core.{
  python_entry, node_entry, rust_entry, go_entry, c_entry, cpp_entry, java_entry,
}

abbrev pub lang_catalog : List Lang
lang_catalog =
    python_entry ∷ node_entry ∷ rust_entry ∷ go_entry ∷ c_entry ∷ cpp_entry ∷ java_entry
    ∷ bash_entry ∷ lua_entry ∷ perl_entry ∷ ruby_entry ∷ r_entry ∷ php_entry ∷ typescript_entry
    ∷ kotlin_entry ∷ scala_entry ∷ csharp_entry ∷ swift_entry ∷ sql_entry ∷ dart_entry ∷ []

module _ {ℓ} {A : Type ℓ} where
  -- `xs.find(p)`
  abbrev pub find : (A → Bool) → List A → Option A
  find p [] = none
  find p (x ∷ xs) = let rest = find p xs in if p x then some x else rest

  -- `xs.sort(…)`, which is stable; `le x y` says that the comparator puts `x` before `y` or ties.
  unfoldable pub insert : (A → A → Bool) → A → List A → List A
  insert le x [] = x ∷ []
  insert le x (y ∷ ys) = let rest = insert le x ys in if le x y then x ∷ y ∷ ys else y ∷ rest

  unfoldable pub sort : (A → A → Bool) → List A → List A
  unfolding insert
  sort le [] = []
  sort le (x ∷ xs) = insert le x (sort le xs)

-- `LANGS`; `name_le` is `localeCompare` of two names, at most 0.
unfoldable pub langs : (Text → Text → Bool) → List Lang
unfolding sort
langs name_le = sort (λ a b. name_le a.name b.name) lang_catalog

abbrev pub or_find : Option Lang → Option Lang → Option Lang
or_find none d = d
or_find (some l) d = some l

-- `LANGS[0]`
abbrev pub first : List Lang → Option Lang
first [] = none
first (l ∷ ls) = some l

-- `pickInitialLang` over the list of languages: the language of the share link, which is text, then
-- the one of the draft, then Rust, then the first. `to_text` is `String` of a number.
module _ (to_text : ℕ → Text) where
  -- An empty text in the link counts as none.
  abbrev pub shared_lang : Option Text → List Lang → Option Lang
  shared_lang (some (c ∷ s)) ls = find (λ l. text_eq (to_text l.id) (c ∷ s)) ls
  shared_lang _ ls = none

  abbrev pub draft_lang : Option ℕ → List Lang → Option Lang
  draft_lang none ls = none
  draft_lang (some i) ls = find (λ l. l.id == i) ls

  unfoldable pub pick_initial_lang : Option Text → Option ℕ → List Lang → Option Lang
  unfolding text_eq
  pick_initial_lang share draft ls = or_find (shared_lang share ls) (
      or_find (draft_lang draft ls)
        (or_find (find (λ l. text_eq l.name (codes "Rust")) ls) (first ls)))

-- `langKeyFromId`
unfoldable pub lang_key_from_id : ℕ → Option Text
lang_key_from_id i =
    if i == 48
    then some (codes "c")
    else if i == 52
    then some (codes "cpp")
    else if i == 60
    then some (codes "go")
    else if i == 62
    then some (codes "java")
    else if i == 63
    then some (codes "node")
    else if i == 71
    then some (codes "python")
    else if i == 73
    then some (codes "rust")
    else if i == 100
    then some (codes "bash")
    else if i == 101
    then some (codes "lua")
    else if i == 102
    then some (codes "perl")
    else if i == 103
    then some (codes "ruby")
    else if i == 104
    then some (codes "r")
    else if i == 105
    then some (codes "php")
    else if i == 106
    then some (codes "typescript")
    else if i == 120
    then some (codes "kotlin")
    else if i == 121
    then some (codes "scala")
    else if i == 140
    then some (codes "csharp")
    else if i == 152
    then some (codes "swift")
    else if i == 154
    then some (codes "sql")
    else if i == 163
    then some (codes "dart")
    else none

-- `VERDICT_LABEL[v]`; a string outside the union has no entry, and what shows is the string itself.
unfoldable pub verdict_label : StatusKind → Text
verdict_label StatusKind.idle = codes "idle"
verdict_label StatusKind.queued = codes "queued"
verdict_label StatusKind.processing = codes "processing"
verdict_label StatusKind.accepted = codes "accepted"
verdict_label StatusKind.tle = codes "time limit"
verdict_label StatusKind.mle = codes "memory limit"
verdict_label StatusKind.ole = codes "output limit"
verdict_label StatusKind.ce = codes "compile error"
verdict_label StatusKind.re = codes "runtime error"
verdict_label StatusKind.nze = codes "non-zero exit"
verdict_label StatusKind.se = codes "sandbox error"
verdict_label StatusKind.cancelled = codes "cancelled"
verdict_label StatusKind.expired = codes "expired"
verdict_label (StatusKind.other s) = s

-- `VERDICT_COLOR[v] || 'var(--fg-3)'`
unfoldable pub verdict_color : StatusKind → Text
verdict_color StatusKind.idle = codes "var(--fg-3)"
verdict_color StatusKind.queued = codes "var(--st-queued)"
verdict_color StatusKind.processing = codes "var(--st-processing)"
verdict_color StatusKind.accepted = codes "var(--st-accepted)"
verdict_color StatusKind.tle = codes "var(--st-tle)"
verdict_color StatusKind.mle = codes "var(--st-mle)"
verdict_color StatusKind.ole = codes "var(--st-tle)"
verdict_color StatusKind.ce = codes "var(--st-ce)"
verdict_color StatusKind.re = codes "var(--st-re)"
verdict_color StatusKind.nze = codes "var(--st-re)"
verdict_color StatusKind.se = codes "var(--st-se)"
verdict_color StatusKind.cancelled = codes "var(--fg-3)"
verdict_color StatusKind.expired = codes "var(--fg-3)"
verdict_color (StatusKind.other s) = codes "var(--fg-3)"
