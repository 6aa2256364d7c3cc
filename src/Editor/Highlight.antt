-- ===== src/Editor/Highlight.antt =====
-- What role colouring adds to a grammar, and what it leaves alone.
use zero_code.Base.{
  ◌≡◌, refl, sym, ap, ◌∙◌, inl, inr, Bool, true, false, ◌&&◌, ◌||◌, List, [], ◌∷◌, ◌++◌, Option,
  none, some, map, any, arith, Bool-cases, if◌then◌else◌,
}
use zero_code.Base.Text.{Text, text_eq, text_eq→eq, text_eq_refl}
use zero_code.Editor.Monarch.{
  Rule, Item, word, bracket, Attribute, text, flag, pattern, list, MonarchLang, CallOpts,
  non_code_state, is_identifier, add_once, reserve_item, reserve_items, reserve_all, guard,
  call_rules, with_prefix, with_call_highlighting,
}

-- The rules of a state, if the grammar has it.
abbrev pub rules_of : {R : Type 0} → Text → List (Text × List R) → Option (List R)
rules_of s [] = none
rules_of s ((state, rules) ∷ rest) =
    let later = rules_of s rest in if text_eq s state then some rules else later

abbrev pub map_option : {A B : Type 0} → (A → B) → Option A → Option B
map_option f none = none
map_option f (some a) = some (f a)

-- The rules that role colouring prepends for a grammar.
abbrev pub added_rules : {R : Type 0} → (Rule → R) → MonarchLang R → CallOpts → List R
added_rules own lang opts = map own (call_rules (guard (reserve_all [] lang.attributes)) opts)

module _ {R : Type 0} (own : Rule → R) where
  rules_of-with_prefix :
      (added : List R) (g : List (Text × List R)) (s : Text)
      → rules_of s (with_prefix own added g)
        ≡ map_option (λ rules. if non_code_state s then rules else added ++ rules) (rules_of s g)
  unfolding with_prefix
  rules_of-with_prefix added [] s = refl
  rules_of-with_prefix added ((state, rules) ∷ rest) s = elim (Bool-cases (text_eq s state)) [
    | inl e ↦ rw (e, sym (text_eq→eq s state e)) refl
    | inr e ↦ rw e (rules_of-with_prefix added rest s)
  ]

-- Role colouring keeps a grammar's states: one that holds a literal keeps its rules, any other has them
-- after the added ones, and no state is new.
pub rules_of-with_call_highlighting :
    {R : Type 0} (own : Rule → R) (lang : MonarchLang R) (opts : CallOpts) (s : Text)
    → rules_of s (with_call_highlighting own lang opts).tokenizer
      ≡ map_option
          (λ rules. if non_code_state s then rules else added_rules own lang opts ++ rules)
          (rules_of s lang.tokenizer)
unfolding with_call_highlighting
rules_of-with_call_highlighting own lang opts s =
    rules_of-with_prefix own (added_rules own lang opts) lang.tokenizer s

-- An array of the grammar has the word.
abbrev pub listed : Text → List Item → Bool
listed w [] = false
listed w (word v ∷ xs) = text_eq w v || listed w xs
listed w (bracket t o c ∷ xs) = listed w xs

abbrev pub declared : Text → List (Text × Attribute) → Bool
declared w [] = false
declared w ((key, text s) ∷ rest) = declared w rest
declared w ((key, flag b) ∷ rest) = declared w rest
declared w ((key, pattern s) ∷ rest) = declared w rest
declared w ((key, list xs) ∷ rest) = listed w xs || declared w rest

and_false : (b : Bool) → b && false ≡ false
and_false true = refl
and_false false = refl

any-append_one :
    (w v : Text) (seen : List Text)
    → any (text_eq w) (seen ++ v ∷ []) ≡ any (text_eq w) seen || text_eq w v
any-append_one w v [] = ground arith
any-append_one w v (u ∷ seen) = ground (arith, any-append_one w v seen)

or_false : (b : Bool) → b ≡ b || false
or_false true = refl
or_false false = refl

any-seen :
    (w v : Text) (seen : List Text)
    → any (text_eq v) seen ≡ true
    → any (text_eq w) seen ≡ any (text_eq w) seen || text_eq w v
any-seen w v seen h = elim (Bool-cases (text_eq w v)) [
  | inl e ↦ rw (text_eq→eq w v e, text_eq_refl v, h) refl
  | inr e ↦ rw e (or_false (any (text_eq w) seen))
]

any-add_once :
    (w v : Text) (seen : List Text)
    → any (text_eq w) (add_once seen v) ≡ any (text_eq w) seen || text_eq w v
unfolding add_once
any-add_once w v seen = elim (Bool-cases (any (text_eq v) seen)) [
  | inl e ↦ rw e (any-seen w v seen e)
  | inr e ↦ rw e (any-append_one w v seen)
]

-- A word that is the added one is an identifier, so the test may come later.
absorb :
    (seen same ident later : Bool)
    → (same ≡ true → ident ≡ true)
    → (seen || same) || (ident && later) ≡ seen || (ident && (same || later))
absorb true same ident later h = refl
absorb false true true later h = refl
absorb false true false later h = cc (h refl)
absorb false false ident later h = refl

absent :
    (seen same ident later : Bool)
    → (same ≡ true → ident ≡ false)
    → seen || (ident && later) ≡ seen || (ident && (same || later))
absent seen true true later h = cc (h refl)
absent seen true false later h = refl
absent seen false ident later h = refl

any-reserve_items :
    (w : Text) (seen : List Text) (xs : List Item)
    → any (text_eq w) (reserve_items seen xs)
      ≡ any (text_eq w) seen || (is_identifier w && listed w xs)
unfolding reserve_items reserve_item
any-reserve_items w seen [] =
    or_false (any (text_eq w) seen)
    ∙ ap (λ b. any (text_eq w) seen || b) (sym (and_false (is_identifier w)))
any-reserve_items w seen (bracket t o c ∷ xs) = any-reserve_items w seen xs
any-reserve_items w seen (word v ∷ xs) = elim (Bool-cases (is_identifier v)) [
  | inl e ↦ rw e (
      any-reserve_items w (add_once seen v) xs
      ∙ ap (λ b. b || (is_identifier w && listed w xs)) (any-add_once w v seen)
      ∙ absorb (any (text_eq w) seen) (text_eq w v) (is_identifier w) (listed w xs)
          (λ q. ap is_identifier (text_eq→eq w v q) ∙ e))
  | inr e ↦ rw e (
      any-reserve_items w seen xs
      ∙ absent (any (text_eq w) seen) (text_eq w v) (is_identifier w) (listed w xs)
          (λ q. ap is_identifier (text_eq→eq w v q) ∙ e))
]

both_arrays :
    (seen ident here later : Bool)
    → (seen || (ident && here)) || (ident && later) ≡ seen || (ident && (here || later))
both_arrays true ident here later = refl
both_arrays false true here later = refl
both_arrays false false here later = refl

any-reserve_all_from :
    (w : Text) (seen : List Text) (attrs : List (Text × Attribute))
    → any (text_eq w) (reserve_all seen attrs)
      ≡ any (text_eq w) seen || (is_identifier w && declared w attrs)
unfolding reserve_all
any-reserve_all_from w seen [] =
    or_false (any (text_eq w) seen)
    ∙ ap (λ b. any (text_eq w) seen || b) (sym (and_false (is_identifier w)))
any-reserve_all_from w seen ((key, text s) ∷ rest) = any-reserve_all_from w seen rest
any-reserve_all_from w seen ((key, flag b) ∷ rest) = any-reserve_all_from w seen rest
any-reserve_all_from w seen ((key, pattern s) ∷ rest) = any-reserve_all_from w seen rest
any-reserve_all_from w seen ((key, list xs) ∷ rest) =
    any-reserve_all_from w (reserve_items seen xs) rest
    ∙ ap (λ b. b || (is_identifier w && declared w rest)) (any-reserve_items w seen xs)
    ∙ both_arrays (any (text_eq w) seen) (is_identifier w) (listed w xs) (declared w rest)

-- The words that the added rules do not match are the identifiers that some array of the grammar lists.
pub any-reserve_all :
    (w : Text) (attrs : List (Text × Attribute))
    → any (text_eq w) (reserve_all [] attrs) ≡ is_identifier w && declared w attrs
any-reserve_all w attrs = any-reserve_all_from w [] attrs
