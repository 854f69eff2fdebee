-- ===== src/Canonical.antt =====
-- The values that packages/quant_agent/regime/contracts.py hashes (`_canonical`, `stable_hash`).
-- The digest itself, SHA-256 of a canonical JSON text, is the library's `hashlib` and `json`: it is
-- a parameter, of which the code relies on the form of its result, 64 hexadecimal digits.
use quant_agent.Prelude.{
  ℕ, ◌≡◌, String, Bool, true, Option, none, some, List, [], ◌∷◌, Decimal, is_sha256, text_length,
  ◌==◌, arith,
}

-- The Python values that a payload is built of.
mutual
  pub data Json : Type 0 where
    null : Json
    flag : Bool → Json
    int : ℕ → Json
    decimal : Decimal → Json
    instant : ℕ → Json
    day : ℕ → Json
    text : String → Json
    arr : Items → Json
    obj : Fields → Json

  pub data Items : Type 0 where
    nil : Items
    cons : Json → Items → Items

  pub data Fields : Type 0 where
    end : Fields
    field : String → Json → Fields → Fields

abbrev pub opt_text : Option String → Json
opt_text none = null
opt_text (some s) = text s

abbrev pub opt_int : Option ℕ → Json
opt_int none = null
opt_int (some n) = int n

abbrev pub opt_instant : Option ℕ → Json
opt_instant none = null
opt_instant (some n) = instant n

abbrev text_items : List String → Items
text_items [] = nil
text_items (s ∷ ss) = cons (text s) (text_items ss)

abbrev pub texts : List String → Json
texts ss = arr (text_items ss)

pub record Hashing : Type 0 where
  pub stable_hash : Json → String
  pub digest : (j : Json) → is_sha256 (stable_hash j) ≡ true

abbrev pub stable_hash : ⦃h : Hashing⦄ → Json → String
stable_hash ⦃h⦄ = h.stable_hash

-- A digest has the length that the constructors check.
pub stable_hash-length : ⦃h : Hashing⦄ (j : Json) → (text_length (stable_hash j) == 64) ≡ true
unfolding is_sha256
stable_hash-length ⦃h⦄ j = ground (arith, h.digest j)
