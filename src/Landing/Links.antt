-- ===== src/Landing/Links.antt =====
-- The links of the site and the flag that hides the documentation: web/app/src/shared/flags.ts, the
-- links of nav.tsx, hero.tsx, sections.tsx and playground-teaser.tsx of web/app/src/landing, and those
-- of `TopNav` of web/app/src/playground/App.tsx.
pub mod Kept
use zero_code.Base.{Bool, true, false, List, [], ◌∷◌, ◌++◌, Option, none, some, if◌then◌else◌}
use zero_code.Base.Text.{Text, codes, text_eq}

-- `HIDE_DOCS`, from the variable of the build.
unfoldable pub hide_docs : Option Text → Bool
unfolding text_eq
hide_docs none = false
hide_docs (some v) = text_eq v (codes "true")

-- `GET_STARTED_HREF`
unfoldable pub get_started_href : Bool → Text
get_started_href hide = if hide then codes "/playground.html" else codes "/docs/quickstart"

pub record Link : Type 0 where
  pub href : Text
  pub label : Text

abbrev pub link : Text → Text → Link
link href label = record { href = href; label = label }

-- `{!HIDE_DOCS && …}`
abbrev pub unless_hidden : Bool → Link → List Link
unless_hidden hide l = if hide then [] else l ∷ []

-- The links in the bar of the landing page.
unfoldable pub nav_links : Bool → List Link
nav_links hide =
    link (codes "#isolation") (codes "isolation")
      ∷ link (codes "#how") (codes "how it works")
      ∷ link (codes "#languages") (codes "languages")
      ∷ link (codes "#batch") (codes "test cases")
      ∷ unless_hidden hide (link (codes "/docs/") (codes "docs"))
    ++ link (codes "/playground.html") (codes "playground") ∷ []

-- The button beside them.
unfoldable pub nav_cta : Bool → Link
unfolding get_started_href
nav_cta hide = link (get_started_href hide) (codes "get started")

-- The links of the sheet that the menu button opens, without the arrow behind each label.
unfoldable pub sheet_links : Bool → List Link
unfolding get_started_href
sheet_links hide =
    link (codes "#isolation") (codes "isolation")
      ∷ link (codes "#how") (codes "how it works")
      ∷ link (codes "#languages") (codes "languages")
      ∷ link (codes "#batch") (codes "test cases")
      ∷ unless_hidden hide (link (codes "/docs/") (codes "docs"))
    ++ link (codes "/playground.html") (codes "playground")
      ∷ link (get_started_href hide) (codes "get started")
      ∷ []

unfoldable pub hero_links : Bool → List Link
unfolding get_started_href
hero_links hide =
    link (get_started_href hide) (codes "Get started")
    ∷ link (codes "/playground.html") (codes "Try the playground")
    ∷ []

unfoldable pub test_cases_links : Bool → List Link
test_cases_links hide =
    link (codes "/playground.html") (codes "Open the playground →")
    ∷ unless_hidden hide (link (codes "/docs/api") (codes "Batch API docs"))

unfoldable pub footer_product : Bool → List Link
footer_product hide =
    unless_hidden hide (link (codes "/docs/quickstart") (codes "Quickstart"))
    ++ link (codes "/playground.html") (codes "Playground")
      ∷ (unless_hidden hide (link (codes "/docs/languages") (codes "Languages"))
          ++ unless_hidden hide (link (codes "/docs/security") (codes "Security")))

unfoldable pub footer_developers : Bool → List Link
footer_developers hide =
    unless_hidden hide (link (codes "/docs/api") (codes "REST API"))
    ++ link (codes "/v1/openapi.json") (codes "OpenAPI 3.1")
      ∷ (unless_hidden hide (link (codes "/docs/sdks") (codes "Clients & SDKs"))
          ++ unless_hidden hide (link (codes "/docs/observability") (codes "Observability"))
          ++ unless_hidden hide (link (codes "/docs/deployment") (codes "Deployment")))

abbrev pub teaser_link : Link
teaser_link = link (codes "/playground.html") (codes "open the full playground")

abbrev pub home_link : Link
home_link = link (codes "/") (codes "zerocode")

-- The sections of the landing page that have an id, in the order of `App`.
abbrev pub section_ids : List Text
section_ids =
    codes "isolation" ∷ codes "how" ∷ codes "languages" ∷ codes "batch" ∷ codes "speed" ∷ []

-- All links of the landing page, those of the open sheet included, from top to bottom.
unfoldable pub landing_links : Bool → List Link
unfolding nav_links nav_cta sheet_links hero_links test_cases_links footer_product footer_developers
landing_links hide =
    home_link ∷ nav_links hide
    ++ nav_cta hide ∷ sheet_links hide
    ++ hero_links hide
    ++ test_cases_links hide
    ++ teaser_link ∷ footer_product hide
    ++ footer_developers hide

-- The links of the playground.
unfoldable pub top_nav_links : Bool → List Link
top_nav_links hide =
    link (codes "/") (codes "zerocode")
    ∷ link (codes "/") (codes "home")
    ∷ unless_hidden hide (link (codes "/docs/") (codes "docs"))
