-- ===== src/Theme/Mirror.antt =====
-- What follows the theme: `ThemeToggle` of web/app/src/playground/App.tsx and `useTheme` of
-- web/app/src/landing/nav.tsx, by the event, and `themeMode` of App.tsx, by the attribute.
use zero_code.Base.{
  ◌≡◌, refl, sym, ap, ◌∙◌, Bool, true, false, List, [], ◌∷◌, ◌++◌, Option, none, some,
  if◌then◌else◌, length, drop, append-nil, or_else,
}
use zero_code.Base.Text.{Text, text_eq}
use zero_code.Theme.{
  Theme, dark, light, Page, theme_text, light_if, is_light, get_theme, set_theme, toggle_theme,
  load, on_system_change, write, apply, read, read_stored, other, follow, system_theme,
}

-- The page, the theme of a button, and the theme in the status strip.
pub record Mirror : Type 0 where
  pub page : Page
  pub button : Text
  pub mode : Theme

-- The listener of a button, for the themes announced.
unfoldable pub hear : List Theme → Text → Text
unfolding theme_text
hear [] shown = shown
hear (t ∷ ts) shown = hear ts (theme_text t)

-- The observer of the attribute.
unfoldable pub sync : Page → Theme
unfolding text_eq
sync p = light_if (is_light p.data_theme)

-- Both at the first render, their effects included.
unfoldable pub watch : Page → Mirror
unfolding get_theme sync
watch p = record { page = p; button = get_theme p; mode = sync p }

pub data Change : Type 0 where
  clicked loaded : Change
  chosen : Theme → Change
  system : Bool → Change

unfoldable pub changed_page : Change → Page → Page
unfolding toggle_theme set_theme on_system_change load
changed_page clicked p = toggle_theme p
changed_page loaded p = load p
changed_page (chosen t) p = set_theme t p
changed_page (system prefers_light) p = on_system_change prefers_light p

-- A change of the page, and what its followers make of it.
unfoldable pub change : Change → Mirror → Mirror
unfolding changed_page hear sync
change c m =
    let p = changed_page c m.page in
    record {
      page = p;
      button = hear (drop (length m.page.announced) p.announced) m.button;
      mode = sync p;
    }

unfoldable pub changes : List Change → Mirror → Mirror
unfolding change
changes [] m = m
changes (c ∷ cs) m = changes cs (change c m)

drop-append : (xs ys : List Theme) → drop (length xs) (xs ++ ys) ≡ ys
drop-append [] ys = refl
drop-append (x ∷ xs) ys = drop-append xs ys

-- A change that announces a theme sets the attribute to it, and any other changes neither.
data IsSaid (p q : Page) : Type 0 where
  said :
      (t : Theme)
      → q.data_theme ≡ some (theme_text t)
      → q.announced ≡ p.announced ++ t ∷ []
      → IsSaid p q
  silent : q.data_theme ≡ p.data_theme → q.announced ≡ p.announced → IsSaid p q

apply-IsSaid : (t : Theme) (p : Page) → IsSaid p (apply t p)
unfolding apply
apply-IsSaid t p = said t refl refl

set_theme-IsSaid : (t : Theme) (p : Page) → IsSaid p (set_theme t p)
unfolding set_theme apply write
set_theme-IsSaid t p = said t refl (ap (λ l. l ++ t ∷ []) (kept p.writable))
  where
    kept :
        (b : Bool)
        → (if b then record p { stored = some (theme_text t) } else p).announced ≡ p.announced
    kept true = refl
    kept false = refl

follow-IsSaid :
    (o : Option Theme) (p q : Page)
    → q.data_theme ≡ p.data_theme
    → q.announced ≡ p.announced
    → IsSaid p (follow o q)
unfolding apply
follow-IsSaid none p q d a = said (system_theme q) refl (ap (λ l. l ++ system_theme q ∷ []) a)
follow-IsSaid (some t) p q d a = silent d a

changed_page-IsSaid : (c : Change) (p : Page) → IsSaid p (changed_page c p)
unfolding changed_page toggle_theme load on_system_change
changed_page-IsSaid clicked p = set_theme-IsSaid (other (is_light p.data_theme)) p
changed_page-IsSaid loaded p = apply-IsSaid (read p) p
changed_page-IsSaid (chosen t) p = set_theme-IsSaid t p
changed_page-IsSaid (system prefers_light) p =
    let q : Page = record p { prefers_light = some prefers_light } in
    follow-IsSaid (read_stored q) p q refl refl

-- The page is in a theme, and its followers show it.
record Agrees (m : Mirror) : Type 0 where
  theme : Theme
  attribute : m.page.data_theme ≡ some (theme_text theme)
  button_shows : m.button ≡ theme_text theme
  mode_shows : m.mode ≡ theme

light_if-is_light : (t : Theme) → light_if (is_light (some (theme_text t))) ≡ t
unfolding text_eq theme_text
light_if-is_light dark = refl
light_if-is_light light = refl

followed :
    (m : Mirror) (p : Page)
    → Agrees m
    → IsSaid m.page p
    → Agrees (record {
      page = p;
      button = hear (drop (length m.page.announced) p.announced) m.button;
      mode = sync p;
    })
unfolding hear sync
followed m p a (said t d e) = record {
  theme = t;
  attribute = d;
  button_shows =
      ap (λ l. hear (drop (length m.page.announced) l) m.button) e
      ∙ ap (λ l. hear l m.button) (drop-append m.page.announced (t ∷ []));
  mode_shows = ap (λ v. light_if (is_light v)) d ∙ light_if-is_light t;
}
followed m p a (silent d e) = record {
  theme = a.theme;
  attribute = d ∙ a.attribute;
  button_shows =
      ap (λ l. hear (drop (length m.page.announced) l) m.button)
        (e ∙ sym (append-nil m.page.announced))
      ∙ ap (λ l. hear l m.button) (drop-append m.page.announced [])
      ∙ a.button_shows;
  mode_shows = ap (λ v. light_if (is_light v)) (d ∙ a.attribute) ∙ light_if-is_light a.theme;
}

changes-Agrees : (cs : List Change) (m : Mirror) → Agrees m → Agrees (changes cs m)
unfolding changes change
changes-Agrees [] m a = a
changes-Agrees (c ∷ cs) m a =
    changes-Agrees cs (change c m)
      (followed m (changed_page c m.page) a (changed_page-IsSaid c m.page))

watch-Agrees : (p : Page) → Agrees (watch (load p))
unfolding watch load apply get_theme sync
watch-Agrees p = record {
  theme = read p;
  attribute = refl;
  button_shows = refl;
  mode_shows = light_if-is_light (read p);
}

-- Once the module has been loaded, whatever changes the theme, a click, another part of the page or the
-- system, or loads the module again: the buttons and the status strip show the theme that the page is in.
pub changes-shown :
    (cs : List Change) (p : Page)
    → let m = changes cs (watch (load p)) in
      (m.button ≡ get_theme m.page) × (theme_text m.mode ≡ get_theme m.page)
unfolding get_theme
changes-shown cs p =
    let a = changes-Agrees cs (watch (load p)) (watch-Agrees p) in
    let m = changes cs (watch (load p)) in
    let e = ap (λ v. or_else v (theme_text (read m.page))) a.attribute in
    (a.button_shows ∙ sym e, ap theme_text a.mode_shows ∙ sym e)
