-- ===== src/Theme.antt =====
-- The theme manager, web/app/src/shared/theme.ts.
pub mod Toggle
pub mod Mirror
mod Tests
use zero_code.Base.{
  Bool, true, false, List, [], ◌∷◌, ◌++◌, Option, none, some, if◌then◌else◌, or_else,
}
use zero_code.Base.Text.{Text, codes, text_eq}

pub data Theme : Type 0 where
  dark light : Theme

unfoldable pub theme_text : Theme → Text
theme_text dark = codes "dark"
theme_text light = codes "light"

-- The page: `data-theme` of the root element, which is none where it is not set; the entry of
-- `localStorage`, and whether reading and writing throw; what the system prefers, none where
-- `matchMedia` is missing; and the themes announced by 'zerocode:theme' so far, oldest first.
pub record Page : Type 0 where
  pub data_theme : Option Text
  pub stored : Option Text
  pub readable : Bool
  pub writable : Bool
  pub prefers_light : Option Bool
  pub announced : List Theme

abbrev pub light_if : Bool → Theme
light_if true = light
light_if false = dark

-- `systemTheme`
abbrev pub system_theme : Page → Theme
system_theme p = light_if (or_else p.prefers_light false)

abbrev pub theme_of : Text → Option Theme
theme_of v =
    if text_eq v (codes "dark")
    then some dark
    else if text_eq v (codes "light")
    then some light
    else none

abbrev pub stored_theme : Bool → Option Text → Option Theme
stored_theme true (some v) = theme_of v
stored_theme _ _ = none

-- `readStored`
unfoldable pub read_stored : Page → Option Theme
unfolding text_eq
read_stored p = stored_theme p.readable p.stored

-- `read`
unfoldable pub read : Page → Theme
unfolding read_stored
read p = or_else (read_stored p) (system_theme p)

-- `write`
unfoldable pub write : Theme → Page → Page
unfolding theme_text
write t p = if p.writable then record p { stored = some (theme_text t) } else p

-- `apply`
unfoldable pub apply : Theme → Page → Page
unfolding theme_text
apply t p = record p { data_theme = some (theme_text t); announced = p.announced ++ t ∷ [] }

-- `getTheme`; the attribute may hold another string.
unfoldable pub get_theme : Page → Text
unfolding theme_text read
get_theme p = or_else p.data_theme (theme_text (read p))

-- `setTheme`
unfoldable pub set_theme : Theme → Page → Page
unfolding write apply
set_theme t p = apply t (write t p)

abbrev pub is_light : Option Text → Bool
is_light none = false
is_light (some v) = text_eq v (codes "light")

abbrev pub other : Bool → Theme
other true = dark
other false = light

-- `toggleTheme`; what it returns is the last theme announced.
unfoldable pub toggle_theme : Page → Page
unfolding set_theme text_eq
toggle_theme p = set_theme (other (is_light p.data_theme)) p

-- What loading the module does.
unfoldable pub load : Page → Page
unfolding apply read
load p = apply (read p) p

abbrev pub follow : Option Theme → Page → Page
follow none p = apply (system_theme p) p
follow (some t) p = p

-- The listener of the system's preference.
unfoldable pub on_system_change : Bool → Page → Page
unfolding apply read_stored
on_system_change prefers_light p =
    let q = record p { prefers_light = some prefers_light } in follow (read_stored q) q
