-- ===== src/Prelude/Results.antt =====
-- What a call does that may raise: it returns, or it raises one of the errors `E`.
use mathlib.Core.Bool.{Bool, true, false, not}
use mathlib.Core.Path.{◌≡◌, refl}

pub data Result {ℓ κ} (E : Type ℓ) (A : Type κ) : Type (ℓ ⊔ κ) where
  ok : A → Result E A
  err : E → Result E A

-- A chain in which the rest is not run after a raise.
infixl 5 ◌>>=◌ ◌>>◌
abbrev pub ◌>>=◌ {ℓ κ μ} :
    {E : Type ℓ} {A : Type κ} {B : Type μ} → Result E A → (A → Result E B) → Result E B
err raised >>= rest = err raised
ok value >>= rest = rest value

-- `if test: raise error`
abbrev pub raise_if {ℓ} : {E : Type ℓ} → Bool → E → Result E (Unit {0})
raise_if true e = err e
raise_if false e = ok tt

-- A chain that returned: its first part returned, and so did the rest.
pub bind-ok {ℓ κ μ} :
    {E : Type ℓ} {A : Type κ} {B : Type μ} {result : B} (first : Result E A) (rest : A → Result E B)
    → (first >>= rest) ≡ ok result
    → (value : A) × (first ≡ ok value) × (rest value ≡ ok result)
bind-ok (err raised) rest p = cc
bind-ok (ok value) rest p = (value, refl, p)

abbrev pub ◌>>◌ {ℓ κ} : {E : Type ℓ} {B : Type κ} → Result E (Unit {0}) → Result E B → Result E B
first >> rest = first >>= λ _. rest

-- A last check that passed, and the value behind it.
pub checked-ok {ℓ κ} :
    {E : Type ℓ} {A : Type κ} (bad : Bool) (raised : E) (value result : A)
    → (raise_if bad raised >> ok value) ≡ ok result
    → (bad ≡ false) × (value ≡ result)
checked-ok true raised value result p = cc
checked-ok false raised value result p = (refl, cc)

-- A check that passed, with more behind it.
pub passed-ok {ℓ κ} :
    {E : Type ℓ} {A : Type κ} (bad : Bool) (raised : E) (rest : Result E A) (result : A)
    → (raise_if bad raised >> rest) ≡ ok result
    → (bad ≡ false) × (rest ≡ ok result)
passed-ok true raised rest result p = cc
passed-ok false raised rest result p = (refl, p)

pub ok_injective {ℓ κ} :
    {E : Type ℓ} {A : Type κ} (a b : A) → ◌≡◌ {A = Result E A} (ok a) (ok b) → a ≡ b
ok_injective a b e = cc

-- A check `if not b: raise` that passed.
pub unnegated : (b : Bool) → not b ≡ false → b ≡ true
unnegated true e = refl
unnegated false e = cc
