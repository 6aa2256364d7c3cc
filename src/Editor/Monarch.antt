-- ===== src/Editor/Monarch.antt =====
-- Monarch grammars and the role colouring put on top of one: `NON_CODE_STATE`, `CallOpts` and
-- `withCallHighlighting` of web/app/src/playground/Editor.tsx. A regular expression is the text that
-- `new RegExp` is given; what Monaco makes of it is not modelled.
use zero_code.Base.{
  ℕ, ◌+◌, Bool, true, false, not, ◌&&◌, ◌||◌, List, [], ◌∷◌, ◌++◌, ◌==◌, leb, if◌then◌else◌, map,
  any,
}
use zero_code.Base.Text.{Text, codes, text_eq, join_with, occurs}

-- What a rule does with what it matches: a token, one token per group, a choice by word list, or a
-- token and the next state.
pub data Action : Type 0 where
  token : Text → Action
  tokens : List Text → Action
  cases : List (Text × Text) → Action
  token_next : Text → Text → Action

-- `IMonarchLanguageRule`, as far as this file builds one.
pub data Rule : Type 0 where
  match : Text → Action → Rule
  include : Text → Rule

-- An element of an array in a grammar.
pub data Item : Type 0 where
  word : Text → Item
  bracket : Text → Text → Text → Item

-- The value of an attribute of a grammar.
pub data Attribute : Type 0 where
  text : Text → Attribute
  flag : Bool → Attribute
  pattern : Text → Attribute
  list : List Item → Attribute

-- `IMonarchLanguage`: the attributes in the object's order but for the tokenizer, and the states.
pub record MonarchLang (R : Type 0) : Type 0 where
  pub attributes : List (Text × Attribute)
  pub tokenizer : List (Text × List R)

pub record CallOpts : Type 0 where
  pub lisp : Bool
  pub pascal_type : Bool
  pub member : Bool

-- A letter as `/i` compares it: only ASCII letters have another case in an ASCII pattern.
abbrev pub fold_case : ℕ → ℕ
fold_case c = if leb b'A' c && leb c b'Z' then c + 32 else c

abbrev pub non_code_names : List Text
non_code_names =
    codes "string"
    ∷ codes "comment"
    ∷ codes "doc"
    ∷ codes "regex"
    ∷ codes "char"
    ∷ codes "heredoc"
    ∷ codes "pod"
    ∷ codes "raw"
    ∷ codes "literal"
    ∷ codes "cdata"
    ∷ codes "whitespace"
    ∷ codes "template"
    ∷ []

-- `NON_CODE_STATE.test(state)`
unfoldable pub non_code_state : Text → Bool
unfolding occurs
non_code_state state = any (λ name. occurs name (map fold_case state)) non_code_names

abbrev pub is_letter : ℕ → Bool
is_letter c = (leb b'A' c && leb c b'Z') || (leb b'a' c && leb c b'z') || c == b'_'

abbrev pub all_word : Text → Bool
all_word [] = true
all_word (c ∷ cs) = (is_letter c || (leb b'0' c && leb c b'9')) && all_word cs

-- `/^[A-Za-z_]\w*$/.test(item)`
unfoldable pub is_identifier : Text → Bool
is_identifier [] = false
is_identifier (c ∷ cs) = is_letter c && all_word cs

-- `reserved.add(item)`
unfoldable pub add_once : List Text → Text → List Text
unfolding text_eq
add_once seen w = if any (text_eq w) seen then seen else seen ++ w ∷ []

unfoldable pub reserve_item : List Text → Item → List Text
unfolding add_once is_identifier
reserve_item seen (word w) = if is_identifier w then add_once seen w else seen
reserve_item seen (bracket t o c) = seen

unfoldable pub reserve_items : List Text → List Item → List Text
unfolding reserve_item
reserve_items seen [] = seen
reserve_items seen (x ∷ xs) = reserve_items (reserve_item seen x) xs

unfoldable pub reserve_all : List Text → List (Text × Attribute) → List Text
unfolding reserve_items
reserve_all seen [] = seen
reserve_all seen ((key, text s) ∷ rest) = reserve_all seen rest
reserve_all seen ((key, flag b) ∷ rest) = reserve_all seen rest
reserve_all seen ((key, pattern s) ∷ rest) = reserve_all seen rest
reserve_all seen ((key, list xs) ∷ rest) = reserve_all (reserve_items seen xs) rest

-- `guard`
unfoldable pub guard : List Text → Text
unfolding join_with
guard [] = []
guard (w ∷ ws) = codes "(?!(?:" ++ join_with b'|' (w ∷ ws) ++ codes ")\\b)"

-- `prefix`, for a guard.
unfoldable pub call_rules : Text → CallOpts → List Rule
call_rules g opts =
    (if opts.member && not opts.lisp
      then match (codes "(::)(\\s*)(" ++ g ++ codes "[A-Za-z_]\\w*)")
          (tokens (codes "operator" ∷ codes "white" ∷ codes "function" ∷ []))
        ∷ match (codes "(\\.)(\\s*)(" ++ g ++ codes "[A-Za-z_]\\w*)")
            (tokens (codes "delimiter" ∷ codes "white" ∷ codes "function" ∷ []))
        ∷ []
      else [])
    ++ (if opts.lisp
        then match (codes "(\\()(\\s*)(" ++ g ++ codes "[A-Za-z][\\w.\\-?!*>=<+/]*)")
            (tokens (codes "delimiter.parenthesis" ∷ codes "white" ∷ codes "function" ∷ []))
          ∷ []
        else match (g ++ codes "[A-Za-z_]\\w*(?=\\s*\\()") (token (codes "function")) ∷ [])
    ++ (if opts.pascal_type then match (g ++ codes "[A-Z]\\w*") (token (codes "type")) ∷ [] else [])

-- The rules of a grammar come with it, so they are of any type that the rules of this file belong to.
module _ {R : Type 0} (own : Rule → R) where
  unfoldable pub with_prefix : List R → List (Text × List R) → List (Text × List R)
  unfolding non_code_state
  with_prefix added [] = []
  with_prefix added ((state, rules) ∷ rest) =
      (state, if non_code_state state then rules else added ++ rules) ∷ with_prefix added rest

  unfoldable pub with_call_highlighting : MonarchLang R → CallOpts → MonarchLang R
  unfolding with_prefix reserve_all guard call_rules
  with_call_highlighting lang opts = record {
    attributes = lang.attributes;
    tokenizer =
        with_prefix (map own (call_rules (guard (reserve_all [] lang.attributes)) opts))
          lang.tokenizer;
  }
