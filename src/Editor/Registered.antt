-- ===== src/Editor/Registered.antt =====
-- What `registerExtraGrammars` does with Monaco, once and again.
use zero_code.Base.{
  ℕ, ◌+◌, ◌≡◌, refl, sym, ap, subst, ◌∙◌, inl, inr, Bool, true, false, ◌||◌, List, [], ◌∷◌, any,
  Bool-cases, if_true, if_false, if◌then◌else◌,
}
use zero_code.Base.Text.{Text, codes, text_eq, text_eq→eq}
use zero_code.Catalog.Types.{CmLang}
use zero_code.Editor.{lang_id}
use zero_code.Editor.Register.{
  Call, register, set_configuration, set_tokens, StockModules, register_enhanced_lang,
  register_stock, register_shell, extra_grammar_calls, perform_all, register_extra_grammars,
}

-- How often the calls give the language a tokenizer.
abbrev pub tokens_count : {R C : Type 0} → Text → List (Call R C) → ℕ
tokens_count id [] = 0
tokens_count id (register i e a ∷ cs) = tokens_count id cs
tokens_count id (set_configuration i c ∷ cs) = tokens_count id cs
tokens_count id (set_tokens i l ∷ cs) =
    let rest = tokens_count id cs in if text_eq id i then 1 + rest else rest

-- The calls give every highlight mode of the catalogue a tokenizer, and only one.
pub tokens_count-extra_grammar_calls :
    {R C : Type 0} (modules : StockModules R C) (mode : CmLang)
    → tokens_count (lang_id mode) (extra_grammar_calls modules) ≡ 1
unfolding extra_grammar_calls register_stock register_enhanced_lang register_shell lang_id text_eq
tokens_count-extra_grammar_calls modules CmLang.python = refl
tokens_count-extra_grammar_calls modules CmLang.javascript = refl
tokens_count-extra_grammar_calls modules CmLang.typescript = refl
tokens_count-extra_grammar_calls modules CmLang.rust = refl
tokens_count-extra_grammar_calls modules CmLang.go = refl
tokens_count-extra_grammar_calls modules CmLang.cpp = refl
tokens_count-extra_grammar_calls modules CmLang.c = refl
tokens_count-extra_grammar_calls modules CmLang.java = refl
tokens_count-extra_grammar_calls modules CmLang.shell = refl
tokens_count-extra_grammar_calls modules CmLang.lua = refl
tokens_count-extra_grammar_calls modules CmLang.perl = refl
tokens_count-extra_grammar_calls modules CmLang.ruby = refl
tokens_count-extra_grammar_calls modules CmLang.r = refl
tokens_count-extra_grammar_calls modules CmLang.php = refl
tokens_count-extra_grammar_calls modules CmLang.kotlin = refl
tokens_count-extra_grammar_calls modules CmLang.scala = refl
tokens_count-extra_grammar_calls modules CmLang.csharp = refl
tokens_count-extra_grammar_calls modules CmLang.swift = refl
tokens_count-extra_grammar_calls modules CmLang.sql = refl
tokens_count-extra_grammar_calls modules CmLang.dart = refl

abbrev registers : {R C : Type 0} → Text → List (Call R C) → Bool
registers id [] = false
registers id (register i e a ∷ cs) = text_eq id i || registers id cs
registers id (set_configuration i c ∷ cs) = registers id cs
registers id (set_tokens i l ∷ cs) = registers id cs

shell_registers :
    {R C : Type 0} (modules : StockModules R C)
    → registers (codes "shell") (extra_grammar_calls modules) ≡ true
unfolding extra_grammar_calls register_stock register_enhanced_lang register_shell text_eq
shell_registers modules = refl

module _ {ℓ} {M : Type ℓ} {R C : Type 0} (perform : Call R C → M → M)
    (get_languages : M → List Text) where
  module _ (modules : StockModules R C) (m : M) where
    registered_before :
        any (text_eq (codes "shell")) (get_languages m) ≡ true
        → register_extra_grammars perform get_languages modules m ≡ m
    unfolding register_extra_grammars
    registered_before h = if_true (any (text_eq (codes "shell")) (get_languages m)) m _ h

    registered_now :
        any (text_eq (codes "shell")) (get_languages m) ≡ false
        → register_extra_grammars perform get_languages modules m
          ≡ perform_all perform (extra_grammar_calls modules) m
    unfolding register_extra_grammars
    registered_now h = if_false (any (text_eq (codes "shell")) (get_languages m)) m _ h

module _ {ℓ} {M : Type ℓ} {R C : Type 0} (perform : Call R C → M → M)
    (get_languages : M → List Text)
    (keeps : (c : Call R C) (m : M) (id : Text)
      → any (text_eq id) (get_languages m) ≡ true
      → any (text_eq id) (get_languages (perform c m)) ≡ true) where
  perform_all-keeps :
      (cs : List (Call R C)) (m : M) (id : Text)
      → any (text_eq id) (get_languages m) ≡ true
      → any (text_eq id) (get_languages (perform_all perform cs m)) ≡ true
  unfolding perform_all
  perform_all-keeps [] m id h = h
  perform_all-keeps (c ∷ cs) m id h = perform_all-keeps cs (perform c m) id (keeps c m id h)

  module _
      (adds : (id : Text) (e a : List Text) (m : M)
        → any (text_eq id) (get_languages (perform (register id e a) m)) ≡ true) where
    perform_all-registers :
        (cs : List (Call R C)) (m : M) (id : Text)
        → registers id cs ≡ true
        → any (text_eq id) (get_languages (perform_all perform cs m)) ≡ true
    unfolding perform_all
    perform_all-registers [] m id h = cc
    perform_all-registers (register i e a ∷ cs) m id h = elim (Bool-cases (text_eq id i)) [
      | inl q ↦ perform_all-keeps cs (perform (register i e a) m) id (
          subst (λ u. any (text_eq u) (get_languages (perform (register i e a) m)) ≡ true)
            (sym (text_eq→eq id i q)) (adds i e a m))
      | inr q ↦ perform_all-registers cs (perform (register i e a) m) id (rw q at h)
    ]
    perform_all-registers (set_configuration i c ∷ cs) m id h =
        perform_all-registers cs (perform (set_configuration i c) m) id h
    perform_all-registers (set_tokens i l ∷ cs) m id h =
        perform_all-registers cs (perform (set_tokens i l) m) id h

    -- Registering the grammars a second time changes nothing, in any state of a Monaco whose `register`
    -- adds the language to `getLanguages` and none of whose calls takes a language away.
    pub register_extra_grammars-twice :
        (modules : StockModules R C) (m : M)
        → register_extra_grammars perform get_languages modules
            (register_extra_grammars perform get_languages modules m)
          ≡ register_extra_grammars perform get_languages modules m
    register_extra_grammars-twice modules m =
        elim (Bool-cases (any (text_eq (codes "shell")) (get_languages m))) [
          | inl e ↦
              ap (register_extra_grammars perform get_languages modules)
                (registered_before perform get_languages modules m e)
          | inr e ↦
              ap (register_extra_grammars perform get_languages modules)
                (registered_now perform get_languages modules m e)
              ∙ registered_before perform get_languages modules
                  (perform_all perform (extra_grammar_calls modules) m)
                  (perform_all-registers (extra_grammar_calls modules) m (codes "shell")
                    (shell_registers modules))
              ∙ sym (registered_now perform get_languages modules m e)
        ]
