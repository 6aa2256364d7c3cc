-- ===== src/App/Bar/Offers.antt =====
-- What the bar and the list of languages offer.
use mathlib.Core.List.{Memᴰ}
use zero_code.Base.{
  ℕ, ◌≡◌, ◌≤◌, refl, ap, ◌∙◌, sym, inl, inr, Bool, true, false, ◌||◌, ◌&&◌, not, List, [], ◌∷◌, map,
  some, keep, arith, Bool-cases, if◌then◌else◌,
}
use zero_code.Base.Text.{Text, text_eq, occurs, occurs_self, occurs_empty}
use zero_code.Api.Status.{StatusKind}
use zero_code.Catalog.{langs}
use zero_code.Catalog.Types.{Lang}
use zero_code.App.Session.{RunLimits, Ceilings}
use zero_code.App.Bar.{
  matches_query, filtered, is_running, bar_buttons, run_buttons, Button, limits_button,
  share_button, format_button, reset_button, cancel_button, run_button, single, memory_slider,
}

Mem-keep :
    {A : Type 0} (p : A → Bool) (x : A) (xs : List A) → Memᴰ x xs → p x ≡ true → Memᴰ x (keep p xs)
Mem-keep p x [] m h = elim m [ ]
Mem-keep p x (y ∷ ys) (Memᴰ.head e) h = rw (ap p (sym e) ∙ h) (Memᴰ.head e)
Mem-keep p x (y ∷ ys) (Memᴰ.tail m) h = elim (Bool-cases (p y)) [
  | inl e ↦ rw e (Memᴰ.tail (Mem-keep p x ys m h))
  | inr e ↦ rw e (Mem-keep p x ys m h)
]

keep_all : {A : Type 0} (p : A → Bool) (xs : List A) → ((x : A) → p x ≡ true) → keep p xs ≡ xs
keep_all p [] h = refl
keep_all p (x ∷ xs) h = rw (h x) (ap (◌∷◌ x) (keep_all p xs h))

or_right : (b : Bool) → b || true ≡ true
or_right true = refl
or_right false = refl

-- The list of languages keeps a language when its whole name or its whole id is searched for.
pub filtered-Mem :
    (to_lower : Text → Text) (show_id : ℕ → Text) (name_le : Text → Text → Bool) (l : Lang)
    → Memᴰ l (langs name_le)
    → Memᴰ l (filtered to_lower show_id name_le l.name)
      × Memᴰ l (filtered to_lower show_id name_le (show_id l.id))
unfolding filtered matches_query
filtered-Mem to_lower show_id name_le l m = (
  Mem-keep (matches_query to_lower show_id l.name) l (langs name_le) m
      (rw (occurs_self (to_lower l.name)) refl),
  Mem-keep (matches_query to_lower show_id (show_id l.id)) l (langs name_le) m (
      rw (occurs_self (show_id l.id))
        (or_right (occurs (to_lower (show_id l.id)) (to_lower l.name)))),
)

-- An empty query leaves the list as it is, if the lower case of the empty text is empty.
pub filtered-nil :
    (to_lower : Text → Text) (show_id : ℕ → Text) (name_le : Text → Text → Bool)
    → to_lower [] ≡ []
    → filtered to_lower show_id name_le [] ≡ langs name_le
unfolding filtered matches_query
filtered-nil to_lower show_id name_le e =
    keep_all (matches_query to_lower show_id []) (langs name_le)
      (λ l. rw (e, occurs_empty (to_lower l.name)) refl)

abbrev pub offers : Button → List (Button × Bool) → Bool
offers cancel_button ((cancel_button, d) ∷ bs) = true
offers run_button ((run_button, d) ∷ bs) = true
offers b [] = false
offers b (c ∷ bs) = offers b bs

-- In the mode of single runs the bar offers to cancel exactly while a run is queued or processed, and to
-- run exactly while none is; in any other mode it offers neither.
pub offers-bar_buttons :
    (mode : Text) (api_online : Bool) (status : StatusKind)
    → (offers cancel_button (bar_buttons mode api_online status)
        ≡ text_eq mode single && is_running status)
      × (offers run_button (bar_buttons mode api_online status)
          ≡ text_eq mode single && not (is_running status))
unfolding bar_buttons
offers-bar_buttons mode api_online status =
    by_tests (text_eq mode single) (is_running status) api_online
  where
    buttons : Bool → Bool → Bool → List (Button × Bool)
    buttons here busy online =
        (limits_button, false)
        ∷ (share_button, false)
        ∷ (format_button, busy)
        ∷ (reset_button, busy)
        ∷ (if here then map (λ b. (b, false)) (run_buttons busy online) else [])

    by_tests :
        (here busy online : Bool)
        → (offers cancel_button (buttons here busy online) ≡ here && busy)
          × (offers run_button (buttons here busy online) ≡ here && not busy)
    by_tests true true online = (refl, refl)
    by_tests true false true = (refl, refl)
    by_tests true false false = (refl, refl)
    by_tests false busy online = (refl, refl)

-- Each slider stands between its ends if the limit and the ceiling are at least its lowest value.
pub memory_slider-within :
    (c : Ceilings) (l : RunLimits)
    → 16 ≤ c.memory_mb
    → 16 ≤ l.memory_mb
    → (16 ≤ (memory_slider (some c) l).position)
      × ((memory_slider (some c) l).position ≤ (memory_slider (some c) l).highest)
unfolding memory_slider
memory_slider-within c l h k = (omega arith, omega arith)
