-- ===== src/Api/Key.antt =====
-- `idemKey` of web/app/src/shared/api.ts: the idempotency key of a submission.
pub mod Distinct
use Prim.Native.Nat.{bit_xor}
use zero_code.Base.{ℕ, zero, suc, ◌+◌, ◌*◌, ◌/◌, ◌%◌, ◌^◌, List, [], ◌∷◌, ◌++◌, ltb, if◌then◌else◌}
use zero_code.Base.Text.{Text, codes}

-- The loop over the text: 32 bits of `h * 33 ^ c`.
unfoldable pub hash_from : ℕ → Text → ℕ
hash_from h [] = h
hash_from h (c ∷ cs) = hash_from (bit_xor (h * 33 % 2 ^ 32) c % 2 ^ 32) cs

unfoldable pub hash : Text → ℕ
unfolding hash_from
hash s = hash_from 5381 s

-- A digit of `toString(36)`.
unfoldable pub digit : ℕ → ℕ
digit d = if ltb d 10 then b'0' + d else 87 + d

-- The digits, the last one behind; the fuel is a bound of the number.
unfoldable pub digits : ℕ → ℕ → Text
unfolding digit
digits zero n = []
digits (suc fuel) n =
    let more = digits fuel (n / 36) ++ digit (n % 36) ∷ [] in
    if ltb n 36 then digit n ∷ [] else more

-- `n.toString(36)`
unfoldable pub to_base_36 : ℕ → Text
unfolding digits
to_base_36 n = digits (suc n) n

-- `parts` is what JSON.stringify gives, `now` is `Date.now()`.
unfoldable pub idem_key : Text → ℕ → Text
unfolding hash to_base_36
idem_key parts now = codes "zc-ui-" ++ (to_base_36 (hash parts) ++ (b'-' ∷ to_base_36 now))
