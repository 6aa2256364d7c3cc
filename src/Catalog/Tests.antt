-- ===== src/Catalog/Tests.antt =====
-- The theorems about the catalogue at concrete inputs.
use zero_code.Base.{ℕ, ◌≡◌, Bool, true, false, [], ◌∷◌, arith}
use zero_code.Base.Text.{Text, codes, text_eq}

abbrev as_listed : Text → Text → Bool
as_listed a b = true

abbrev digit : ℕ → Text
digit n = n ∷ []

digit_injective : (m n : ℕ) → digit m ≡ digit n → m ≡ n
digit_injective m n e = cc

digit-unknown : (n : ℕ) → text_eq (digit n) (codes "no") ≡ false
unfolding text_eq
digit-unknown n = ground arith
