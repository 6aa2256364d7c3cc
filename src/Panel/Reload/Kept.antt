-- ===== src/Panel/Reload/Kept.antt =====
-- What a reload keeps.
use zero_code.Base.{ℕ, suc, ◌≡◌, ◌≢◌, refl, List, [], ◌∷◌, some, map, All}
use zero_code.Base.Text.{Text}
use zero_code.Panel.Cases.{TestCase, Panel, new_case}
use zero_code.Panel.Cases.Invariant.{without_results}
use zero_code.Panel.Reload.{store_case, to_bucket, id_or, load_cases, hydrate}

id_or-some : (s d : Text) → s ≢ [] → id_or (some s) d ≡ s
id_or-some [] d ne = absurd (ne refl)
id_or-some (c ∷ s) d ne = refl

load_cases-store_case :
    (drawn : ℕ → Text) (n : ℕ) (ts : List TestCase)
    → All (λ t. t.id ≢ []) ts
    → load_cases drawn n (map store_case ts) ≡ map without_results ts
unfolding load_cases new_case
load_cases-store_case drawn n [] h = refl
load_cases-store_case drawn n (t ∷ ts) (ne, h) =
    rw (id_or-some t.id (drawn n) ne, load_cases-store_case drawn (suc n) ts h) refl

-- If there is a case and every case has an id, loading what was saved of a panel into any other, or the
-- same, leaves that with the cases, their texts and their ids, without results, with the mode and the
-- stop switch that were saved, and with no case collapsed.
pub hydrate-to_bucket :
    (drawn : ℕ → Text) (p q : Panel)
    → p.tests ≢ []
    → All (λ t. t.id ≢ []) p.tests
    → hydrate drawn (some (to_bucket p)) q ≡ record q {
      tests = map without_results p.tests;
      mode = p.mode;
      stop_on_fail = p.stop_on_fail;
      collapsed = [];
    }
unfolding hydrate to_bucket
hydrate-to_bucket drawn p q ne h = loaded p.tests ne h
  where
    loaded :
        (ts : List TestCase)
        → ts ≢ []
        → All (λ t. t.id ≢ []) ts
        → hydrate drawn (some (record (to_bucket p) { tests = map store_case ts })) q ≡ record q {
          tests = map without_results ts;
          mode = p.mode;
          stop_on_fail = p.stop_on_fail;
          collapsed = [];
        }
    loaded [] n k = absurd (n refl)
    loaded (t ∷ ts) n k = rw (load_cases-store_case drawn 0 (t ∷ ts) k) refl
