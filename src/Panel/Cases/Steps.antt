-- ===== src/Panel/Cases/Steps.antt =====
-- The actions on the panel, one and a history of them, and its invariant.
use zero_code.Base.{
  ◌≤◌, ◌<◌, ◌≡◌, refl, inl, inr, Bool, true, false, List, [], ◌∷◌, none, arith, length, take, ltb,
  not_ltb→le, ltb→lt, if◌then◌else◌, length-take, Bool-cases, not, lt→ltb,
}
use zero_code.Base.Text.{Text}
use zero_code.Panel.Csv.{Case}
use zero_code.Panel.Cases.{
  Panel, Patch, new_case, add_case, delete_case, patch_case, toggle_collapsed, clear_results,
  clear_all, import_cases, reset_case,
}
use zero_code.Panel.Cases.Invariant.{
  Inv, has_id, DistinctTexts, add_case-Inv, delete_case-Inv, patch_case-Inv, map-Inv,
  DistinctIds-number_cases, length-number_cases,
}

-- What the user does, with the ids that `newId` draws.
pub data Action : Type 0 where
  add : (fresh : Text) → Action
  delete : (fresh id : Text) → Action
  patch : (id : Text) → Patch → Action
  toggle : (id : Text) → Action
  clear : Action
  remove_all : (fresh : Text) → (confirmed : Bool) → Action
  load : (ids : List Text) → List Case → Action

unfoldable pub act : Action → Panel → Panel
unfolding add_case delete_case patch_case toggle_collapsed clear_results clear_all import_cases
act (add fresh) p = add_case fresh p
act (delete fresh id) p = delete_case fresh id p
act (patch id c) p = patch_case id c p
act (toggle id) p = toggle_collapsed id p
act clear p = clear_results p
act (remove_all fresh confirmed) p = clear_all fresh confirmed p
act (load ids rs) p = import_cases ids rs p

-- `newId` draws eight random digits: that a drawn id is new is assumed, not proved.
abbrev pub DrawsNew : Action → Panel → Type 0
DrawsNew (add fresh) p = has_id fresh p.tests ≡ false
DrawsNew (load ids rs) p = DistinctTexts ids × (length rs ≤ length ids)
DrawsNew _ p = Unit {0}

toggle_collapsed-Inv : (id : Text) (p : Panel) → Inv p → Inv (toggle_collapsed id p)
unfolding toggle_collapsed
toggle_collapsed-Inv id p v = record {
  some_case = v.some_case;
  within_batch = v.within_batch;
  distinct = v.distinct;
}

clear_results-Inv : (p : Panel) → Inv p → Inv (clear_results p)
unfolding clear_results new_case
clear_results-Inv p v =
    let w = map-Inv reset_case (λ t. refl) p v in
    record { some_case = w.some_case; within_batch = w.within_batch; distinct = w.distinct }

clear_all-Inv :
    (fresh : Text) (confirmed : Bool) (p : Panel) → Inv p → Inv (clear_all fresh confirmed p)
unfolding clear_all new_case
clear_all-Inv fresh confirmed p v = answered p.running confirmed
  where
    answered :
        (busy confirmed : Bool)
        → Inv (
            if busy
            then p
            else if not confirmed
            then p
            else record p { tests = new_case fresh [] [] ∷ []; batch_error = none })
    answered true confirmed = v
    answered false false = v
    answered false true = record {
      some_case = omega arith;
      within_batch = omega arith;
      distinct = (refl, tt);
    }

import_cases-Inv :
    (ids : List Text) (rs : List Case) (p : Panel)
    → DistinctTexts ids
    → length rs ≤ length ids
    → Inv p
    → Inv (import_cases ids rs p)
unfolding import_cases
import_cases-Inv ids [] p d h v = record {
  some_case = v.some_case;
  within_batch = v.within_batch;
  distinct = v.distinct;
}
import_cases-Inv ids (r ∷ rs) p d h v = elim (Bool-cases (ltb 100 (length (r ∷ rs)))) [
  | inl many ↦ rw many (
      let more = ltb→lt 100 (length (r ∷ rs)) many in
      let cut = length-take 100 (r ∷ rs) in
      let n = length-number_cases ids (take 100 (r ∷ rs)) (omega arith) in
      record {
        some_case = omega arith;
        within_batch = omega arith;
        distinct = DistinctIds-number_cases ids (take 100 (r ∷ rs)) d;
      })
  | inr few ↦ rw few (
      let less = not_ltb→le 100 (length (r ∷ rs)) few in
      let n = length-number_cases ids (r ∷ rs) h in
      record {
        some_case = omega arith;
        within_batch = omega arith;
        distinct = DistinctIds-number_cases ids (r ∷ rs) d;
      })
]

-- If the drawn ids are new, every action leaves at least one case, at most a hundred, and no id
-- twice.
pub act-Inv : (a : Action) (p : Panel) → DrawsNew a p → Inv p → Inv (act a p)
unfolding act
act-Inv (add fresh) p n v = add_case-Inv fresh p n v
act-Inv (delete fresh id) p n v = delete_case-Inv fresh id p v
act-Inv (patch id c) p n v = patch_case-Inv id c p v
act-Inv (toggle id) p n v = toggle_collapsed-Inv id p v
act-Inv clear p n v = clear_results-Inv p v
act-Inv (remove_all fresh confirmed) p n v = clear_all-Inv fresh confirmed p v
act-Inv (load ids rs) p n v = import_cases-Inv ids rs p n.0 n.1 v

unfoldable pub act_all : List Action → Panel → Panel
unfolding act
act_all [] p = p
act_all (a ∷ later) p = act_all later (act a p)

-- Every action of the history draws new ids.
abbrev pub AllDrawNew : List Action → Panel → Type 0
AllDrawNew [] p = Unit {0}
AllDrawNew (a ∷ later) p = DrawsNew a p × AllDrawNew later (act a p)

-- If the ids that each of its actions draws are new, a history of actions leaves at least one case, at
-- most a hundred, and no id twice.
pub act_all-Inv :
    (later : List Action) (p : Panel) → AllDrawNew later p → Inv p → Inv (act_all later p)
unfolding act_all
act_all-Inv [] p n v = v
act_all-Inv (a ∷ later) p n v = act_all-Inv later (act a p) n.1 (act-Inv a p n.0 v)

-- An import of more than a hundred cases, with an id drawn for each, ends with a hundred cases and
-- no message.
pub import_cases-silent :
    (ids : List Text) (rs : List Case) (p : Panel)
    → 100 < length rs
    → length rs ≤ length ids
    → ((import_cases ids rs p).batch_error ≡ none) × (length (import_cases ids rs p).tests ≡ 100)
unfolding import_cases
import_cases-silent ids [] p h k = absurd (omega arith)
import_cases-silent ids (r ∷ rs) p h k =
    let many : ltb 100 (length (r ∷ rs)) ≡ true = lt→ltb 100 (length (r ∷ rs)) h in
    rw many (
      let cut = length-take 100 (r ∷ rs) in
      let n = length-number_cases ids (take 100 (r ∷ rs)) (omega arith) in (refl, omega arith))
