-- ===== src/Editor/Register.antt =====
-- How the grammars are registered with Monaco: `registerEnhancedLang` and `registerExtraGrammars` of
-- web/app/src/playground/Editor.tsx. The stock grammars of monaco-editor and Monaco itself are
-- parameters.
use zero_code.Base.{true, false, List, [], ◌∷◌, ◌++◌, map, any, if◌then◌else◌}
use zero_code.Base.Text.{Text, codes, text_eq}
use zero_code.Editor.Monarch.{Rule, MonarchLang, CallOpts, with_call_highlighting}
use zero_code.Editor.Shell.{shell_lang}

-- The modules of monaco-editor that the file imports, each with a `conf` and a `language`.
pub data Stock : Type 0 where
  python_module js_module ts_module rust_module cpp_module go_module : Stock
  java_module dart_module lua_module perl_module ruby_module r_module : Stock
  php_module kotlin_module scala_module csharp_module swift_module sql_module : Stock

abbrev pub call_only : CallOpts
call_only = record { lisp = false; pascal_type = false; member = false }

-- `M`
abbrev pub member_only : CallOpts
member_only = record { lisp = false; pascal_type = false; member = true }

-- `MT`
abbrev pub member_and_type : CallOpts
member_and_type = record { lisp = false; pascal_type = true; member = true }

-- `STOCK`
abbrev pub stock_table : List (Text × Stock × CallOpts)
stock_table =
    (codes "python", python_module, member_only)
    ∷ (codes "javascript", js_module, member_and_type)
    ∷ (codes "typescript", ts_module, member_and_type)
    ∷ (codes "rust", rust_module, member_and_type)
    ∷ (codes "cpp", cpp_module, member_and_type)
    ∷ (codes "go", go_module, member_and_type)
    ∷ (codes "java", java_module, member_and_type)
    ∷ (codes "dart", dart_module, member_and_type)
    ∷ (codes "lua", lua_module, member_only)
    ∷ (codes "perl", perl_module, member_only)
    ∷ (codes "ruby", ruby_module, member_only)
    ∷ (codes "r", r_module, call_only)
    ∷ (codes "php", php_module, member_only)
    ∷ (codes "kotlin", kotlin_module, member_and_type)
    ∷ (codes "scala", scala_module, member_and_type)
    ∷ (codes "csharp", csharp_module, member_and_type)
    ∷ (codes "swift", swift_module, member_and_type)
    ∷ (codes "sql", sql_module, call_only)
    ∷ []

pub record Configuration : Type 0 where
  pub line_comment : Text
  pub brackets : List (Text × Text)
  pub auto_closing_pairs : List (Text × Text)
  pub surrounding_pairs : List (Text × Text)

abbrev pub bracket_pairs : List (Text × Text)
bracket_pairs = (codes "{", codes "}") ∷ (codes "[", codes "]") ∷ (codes "(", codes ")") ∷ []

abbrev pub quoted_pairs : List (Text × Text)
quoted_pairs =
    bracket_pairs ++ (codes "\"", codes "\"") ∷ (codes "'", codes "'") ∷ (codes "`", codes "`") ∷ []

abbrev pub shell_conf : Configuration
shell_conf = record {
  line_comment = codes "#";
  brackets = bracket_pairs;
  auto_closing_pairs = quoted_pairs;
  surrounding_pairs = quoted_pairs;
}

-- A call of `monaco.languages`: `register`, with the extensions and aliases that are given,
-- `setLanguageConfiguration` or `setMonarchTokensProvider`.
pub data Call (R C : Type 0) : Type 0 where
  register : Text → List Text → List Text → Call R C
  set_configuration : Text → C → Call R C
  set_tokens : Text → MonarchLang R → Call R C

-- `S.conf` and `S.language` of a stock module `S`; a rule and a configuration of this file as Monaco's.
pub record StockModules (R C : Type 0) : Type 0 where
  pub conf : Stock → C
  pub language : Stock → MonarchLang R
  pub own_rule : Rule → R
  pub own_conf : Configuration → C

module _ {R C : Type 0} (modules : StockModules R C) where
  unfoldable pub register_enhanced_lang : Text → Stock → CallOpts → List (Call R C)
  unfolding with_call_highlighting
  register_enhanced_lang id from opts =
      register id [] []
      ∷ set_configuration id (modules.conf from)
      ∷ set_tokens id (with_call_highlighting modules.own_rule (modules.language from) opts)
      ∷ []

  unfoldable pub register_stock : List (Text × Stock × CallOpts) → List (Call R C)
  unfolding register_enhanced_lang
  register_stock [] = []
  register_stock ((id, from, opts) ∷ rest) =
      register_enhanced_lang id from opts ++ register_stock rest

  unfoldable pub register_shell : List (Call R C)
  register_shell =
      register (codes "shell") (codes ".sh" ∷ codes ".bash" ∷ codes ".zsh" ∷ [])
        (codes "Shell" ∷ codes "sh" ∷ codes "bash" ∷ [])
      ∷ set_configuration (codes "shell") (modules.own_conf shell_conf)
      ∷ set_tokens (codes "shell") (record {
        attributes = shell_lang.attributes;
        tokenizer =
            map (λ (entry : Text × List Rule). (entry.0, map modules.own_rule entry.1))
              shell_lang.tokenizer;
      })
      ∷ []

  -- The calls after the guard, in order.
  unfoldable pub extra_grammar_calls : List (Call R C)
  unfolding register_stock register_enhanced_lang register_shell
  extra_grammar_calls =
      register_stock stock_table
      ++ register_enhanced_lang (codes "c") Stock.cpp_module member_and_type
      ++ register_shell

-- A call changes the state of Monaco by `perform`, which `get_languages` reads.
module _ {ℓ} {M : Type ℓ} {R C : Type 0} (perform : Call R C → M → M) where
  unfoldable pub perform_all : List (Call R C) → M → M
  perform_all [] m = m
  perform_all (c ∷ cs) m = perform_all cs (perform c m)

  unfoldable pub register_extra_grammars : (M → List Text) → StockModules R C → M → M
  unfolding extra_grammar_calls text_eq perform_all
  register_extra_grammars get_languages modules m =
      if any (text_eq (codes "shell")) (get_languages m)
      then m
      else perform_all (extra_grammar_calls modules) m
