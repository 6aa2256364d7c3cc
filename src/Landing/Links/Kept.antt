-- ===== src/Landing/Links/Kept.antt =====
-- Where the links lead.
use zero_code.Base.{◌≡◌, refl, Bool, true, false, not, ◌&&◌, ◌||◌, List, [], ◌∷◌, ◌++◌, any}
use zero_code.Base.Text.{Text, codes, text_eq, starts_with}
use zero_code.Landing.Links.{
  Link, landing_links, top_nav_links, nav_links, nav_cta, sheet_links, section_ids,
}

-- The place is a section of the page, a page that is built, or an address of the server.
unfoldable pub leads_somewhere : Bool → Text → Bool
unfolding text_eq
leads_somewhere hide href =
    any (λ s. text_eq href (b'#' ∷ s)) section_ids
    || text_eq href (codes "/")
    || text_eq href (codes "/playground.html")
    || starts_with (codes "/v1/") href
    || (not hide && starts_with (codes "/docs/") href)

abbrev pub all_lead : Bool → List Link → Bool
all_lead hide [] = true
all_lead hide (l ∷ ls) = leads_somewhere hide l.href && all_lead hide ls

-- Every link of the landing page and of the playground leads to a section that is there, to a page that
-- is built or to the server; with the documentation hidden, none leads into it.
pub all_lead-links :
    (hide : Bool)
    → (all_lead hide (landing_links hide) ≡ true) × (all_lead hide (top_nav_links hide) ≡ true)
unfolding leads_somewhere landing_links top_nav_links
all_lead-links true = (refl, refl)
all_lead-links false = (refl, refl)

-- The sheet offers the links of the bar, in their order, and then the button beside them.
pub sheet_links-nav_links : (hide : Bool) → sheet_links hide ≡ nav_links hide ++ nav_cta hide ∷ []
unfolding sheet_links nav_links nav_cta
sheet_links-nav_links true = refl
sheet_links-nav_links false = refl
