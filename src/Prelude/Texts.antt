-- ===== src/Prelude/Texts.antt =====
-- Texts: equality, order by code points, and `str.strip`.
use Prim.Native.Nat.{ℕ, suc, compare, Ordering}
use Prim.Native.Char.{code}
use Prim.Native.String.{String, compare as text_compare}
use mathlib.Core.Path.{◌≡◌, refl}
use mathlib.Core.Bool.{Bool, true, false, ◌&&◌, ◌||◌}
use mathlib.Core.List.{List, [], ◌∷◌}
use mathlib.Core.Option.{Option, none, some}
use native.Mathlib.Omega.{arith}
use text.Mathlib.Text.{◌==◌ as text_beq}
use text.Mathlib.TextEquality.{eq_iff}

infix 50 ◌=s=◌
abbrev pub ◌=s=◌ : String → String → Bool
a =s= b = text_beq a b

pub beq_refl : (s : String) → (s =s= s) ≡ true
beq_refl s = (eq_iff s s).1 refl

-- Equality of values that may be absent.
abbrev pub opt_beq : Option String → Option String → Bool
opt_beq none none = true
opt_beq (some a) (some b) = a =s= b
opt_beq _ _ = false

pub opt_beq-eq : (a b : Option String) → opt_beq a b ≡ true → a ≡ b
opt_beq-eq none none h = refl
opt_beq-eq none (some b) h = cc
opt_beq-eq (some a) none h = cc
opt_beq-eq (some a) (some b) h = ground (arith, eq_iff a b)

abbrev between : ℕ → ℕ → ℕ → Bool
between lo hi c = elim (compare c lo) [
  | Ordering.lt ↦ false
  | _ ↦ elim (compare c hi) [ Ordering.gt ↦ false | _ ↦ true ]
]

-- The characters that `str.isspace` accepts.
unfoldable pub is_space : ℕ → Bool
is_space c =
    between 9 13 c
    || between 28 32 c
    || between 133 133 c
    || between 160 160 c
    || between 5760 5760 c
    || between 8192 8202 c
    || between 8232 8233 c
    || between 8239 8239 c
    || between 8287 8287 c
    || between 12288 12288 c

unfoldable pub lstrip : String → String
unfolding is_space
lstrip String.[] = String.[]
lstrip (String.◌∷◌ c s) =
    let rest = lstrip s in elim (is_space (code c)) [ true ↦ rest | false ↦ String.◌∷◌ c s ]

abbrev pub is_empty : String → Bool
is_empty String.[] = true
is_empty (String.◌∷◌ c s) = false

unfoldable pub rstrip : String → String
unfolding is_space
rstrip String.[] = String.[]
rstrip (String.◌∷◌ c s) =
    let rest = rstrip s in
    elim (is_space (code c) && is_empty rest) [ true ↦ String.[] | false ↦ String.◌∷◌ c rest ]

-- `value.strip()`
unfoldable pub strip : String → String
unfolding lstrip rstrip
strip s = rstrip (lstrip s)

-- `not value.strip()`
unfoldable pub is_blank : String → Bool
unfolding strip
is_blank s = is_empty (strip s)

-- `len(value)` counts characters.
abbrev pub text_length : String → ℕ
text_length String.[] = 0
text_length (String.◌∷◌ c s) = suc (text_length s)

abbrev is_hex : ℕ → Bool
is_hex c = between b'0' b'9' c || between b'a' b'f' c

abbrev all_hex : String → Bool
all_hex String.[] = true
all_hex (String.◌∷◌ c s) = is_hex (code c) && all_hex s

-- `len(value) == 64` and every character of it a hexadecimal digit.
unfoldable pub is_sha256 : String → Bool
is_sha256 s = elim (compare (text_length s) 64) [ Ordering.eq ↦ all_hex s | _ ↦ false ]

-- One more element of `sorted(set(...))`.
unfoldable pub insert_sorted : String → List String → List String
insert_sorted x [] = x ∷ []
insert_sorted x (y ∷ ys) =
    let rest = insert_sorted x ys in
    elim (text_compare x y) [
      | Ordering.lt ↦ x ∷ y ∷ ys
      | Ordering.eq ↦ y ∷ ys
      | Ordering.gt ↦ y ∷ rest
    ]

-- `sorted(set(values))`
unfoldable pub sorted_set : List String → List String
unfolding insert_sorted
sorted_set [] = []
sorted_set (x ∷ xs) = insert_sorted x (sorted_set xs)

-- Equality of tuples of texts.
abbrev pub texts_beq : List String → List String → Bool
texts_beq [] [] = true
texts_beq (a ∷ as_) (b ∷ bs) = (a =s= b) && texts_beq as_ bs
texts_beq _ _ = false

abbrev pub text_in : String → List String → Bool
text_in x [] = false
text_in x (y ∷ ys) = (x =s= y) || text_in x ys

-- A text that is absent, or a digest.
abbrev pub opt_sha256 : Option String → Bool
opt_sha256 none = true
opt_sha256 (some s) = is_sha256 s
