-- ===== src/App/Rail/Selected.antt =====
-- The row of the selected language.
use mathlib.Core.List.{Memᴰ}
use zero_code.Base.{ℕ, ◌≡◌, refl, ap, Bool, true, List, [], ◌∷◌, map, ==_iff}
use zero_code.Base.Text.{Text}
use zero_code.Catalog.{langs}
use zero_code.Catalog.Types.{Lang}
use zero_code.App.Bar.{filtered}
use zero_code.App.Bar.Offers.{filtered-Mem}
use zero_code.App.Rail.{lang_row, list_of, lang_list}

Mem-list_of :
    (selected l : Lang) (ls : List Lang)
    → Memᴰ l ls
    → Memᴰ (lang_row selected l) (list_of selected ls).rows
Mem-list_of selected l [] m = elim m [ ]
Mem-list_of selected l (k ∷ ls) m = Mem-map (k ∷ ls) m
  where
    Mem-map : (ks : List Lang) → Memᴰ l ks → Memᴰ (lang_row selected l) (map (lang_row selected) ks)
    Mem-map [] n = elim n [ ]
    Mem-map (k ∷ ks) (Memᴰ.head e) = Memᴰ.head (ap (lang_row selected) e)
    Mem-map (k ∷ ks) (Memᴰ.tail n) = Memᴰ.tail (Mem-map ks n)

-- Whoever searches for the whole name of the selected language finds its row, which is active.
pub lang_list-selected :
    (to_lower : Text → Text) (show_id : ℕ → Text) (name_le : Text → Text → Bool) (l : Lang)
    → Memᴰ l (langs name_le)
    → Memᴰ (lang_row l l) (lang_list to_lower show_id name_le l l.name).rows
      × ((lang_row l l).is_active ≡ true)
unfolding lang_list lang_row
lang_list-selected to_lower show_id name_le l m = (
  Mem-list_of l l (filtered to_lower show_id name_le l.name)
      (filtered-Mem to_lower show_id name_le l m).0,
  (==_iff l.id l.id).1 refl,
)
