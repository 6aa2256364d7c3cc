-- ===== src/Panel/Store.antt =====
-- The store of test cases in localStorage, keyed by language and source hash, and `sourceHash`,
-- of web/app/src/playground/TestsPanel.tsx.
pub mod Bounds
use zero_code.Base.{
  ℕ, ◌+◌, ◌-◌, ◌*◌, ◌%◌, ◌^◌, Bool, true, false, not, ◌&&◌, List, [], ◌∷◌, Option, none, some, ltb,
  if◌then◌else◌, length, drop,
}
use Prim.Native.Nat.{bit_xor}
use zero_code.Base.Text.{Text, text_eq}

-- `Record<string, B>` in insertion order. Its keys hold a colon, so none is an array index, which
-- an object would list first.
abbrev pub Buckets {ℓ} : Type ℓ → Type ℓ
Buckets B = List (Text × B)

module _ {ℓ} {B : Type ℓ} where
  unfoldable pub lookup : Text → Buckets B → Option B
  unfolding text_eq
  lookup k [] = none
  lookup k ((j, b) ∷ all) = let rest = lookup k all in if text_eq j k then some b else rest

  -- `key in all`
  unfoldable pub has : Text → Buckets B → Bool
  unfolding text_eq
  has k [] = false
  has k ((j, b) ∷ all) = let rest = has k all in if text_eq j k then true else rest

  -- `all[key] = bucket`
  unfoldable pub put : Text → B → Buckets B → Buckets B
  unfolding text_eq
  put k b [] = (k, b) ∷ []
  put k b ((j, c) ∷ all) =
      let rest = put k b all in if text_eq j k then (j, b) ∷ all else (j, c) ∷ rest

  -- The overflow test of `saveBucket` and its `delete` loop.
  unfoldable pub evict : Text → Buckets B → Buckets B
  unfolding has
  evict key all =
      if ltb 30 (length all) && not (has key all) then drop (length all - 29) all else all

  unfoldable pub save_bucket : Text → B → Buckets B → Buckets B
  unfolding evict put
  save_bucket key bucket all = put key bucket (evict key all)

-- The loop of `sourceHash` (and of `idemKey` in web/app/src/shared/api.ts) over the code units.
-- `h * 33` stays below 2 ^ 53, so the product is exact; `^` and `>>> 0` work modulo 2 ^ 32.
unfoldable pub hash_from : ℕ → Text → ℕ
hash_from h [] = h
hash_from h (c ∷ cs) = hash_from (bit_xor (h * 33 % 2 ^ 32) c % 2 ^ 32) cs

unfoldable pub source_hash : Text → ℕ
unfolding hash_from
source_hash s = hash_from 5381 s
