-- ===== src/Samples.antt =====
-- A concrete hash with digests of the right form, for the tests: it tells payloads apart by the
-- parity of the numbers and of the lengths of the texts in them.
use quant_agent.Prelude.{
  ℕ, ◌+◌, ◌%◌, ◌≡◌, refl, String, true, inl, inr, Bool-cases, ◌==◌, if◌then◌else◌, is_sha256,
  text_length,
}
use quant_agent.Canonical.{
  Json, null, flag, int, decimal, instant, day, text, arr, obj, Items, nil, cons, Fields, end,
  field, Hashing,
}

mutual
  weight : Json → ℕ
  weight null = 0
  weight (flag b) = 1
  weight (int n) = n
  weight (decimal d) = 1
  weight (instant n) = n
  weight (day n) = n
  weight (text s) = text_length s
  weight (arr xs) = weight_items xs
  weight (obj fs) = weight_fields fs

  weight_items : Items → ℕ
  weight_items nil = 0
  weight_items (cons x xs) = weight x + weight_items xs

  weight_fields : Fields → ℕ
  weight_fields end = 0
  weight_fields (field k v fs) = weight v + weight_fields fs

abbrev pub even_digest : String
even_digest = "0123456789abcdef0123456789abcdef0123456789abcdef0123456789abcdef"

abbrev pub odd_digest : String
odd_digest = "fedcba9876543210fedcba9876543210fedcba9876543210fedcba9876543210"

unfoldable pub sample_hash : Json → String
unfolding weight weight_items weight_fields
sample_hash j = if weight j % 2 == 0 then even_digest else odd_digest

pub sample_digest : (j : Json) → is_sha256 (sample_hash j) ≡ true
unfolding sample_hash is_sha256
sample_digest j = elim (Bool-cases (weight j % 2 == 0)) [
  | inl even ↦ rw even refl
  | inr odd ↦ rw odd refl
]

instance abbrev pub sample_hashing : Hashing
sample_hashing = record { stable_hash = sample_hash; digest = sample_digest }
