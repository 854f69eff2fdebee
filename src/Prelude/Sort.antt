-- ===== src/Prelude/Sort.antt =====
-- Python's `sorted`, which is stable, as an insertion sort by a test `before` that compares the keys,
-- and sums over a list.
use Prim.Native.Nat.{ℕ, ◌+◌}
use mathlib.Core.Path.{◌≡◌, refl, ap, ◌∙◌}
use mathlib.Core.Bool.{Bool, true, false}
use mathlib.Core.Logic.{inl, inr}
use mathlib.Core.List.{List, [], ◌∷◌, ◌++◌}
use native.Mathlib.Omega.{arith}
use quant_agent.Prelude.Tests.{if◌then◌else◌, Bool-cases}
use quant_agent.Prelude.Lists.{All}

-- `sum(f(x) for x in xs)`
abbrev pub total {ℓ} : {A : Type ℓ} → (A → ℕ) → List A → ℕ
total f [] = 0
total f (x ∷ xs) = f x + total f xs

pub total-append {ℓ} :
    {A : Type ℓ} (f : A → ℕ) (xs ys : List A) → total f (xs ++ ys) ≡ total f xs + total f ys
total-append f [] ys = omega arith
total-append f (x ∷ xs) ys = omega (arith, total-append f xs ys)

pub All-append {ℓ} :
    {A : Type ℓ} (P : A → Type 0) (xs ys : List A) → All P xs → All P ys → All P (xs ++ ys)
All-append P [] ys h k = k
All-append P (x ∷ xs) ys (h, hs) k = (h, All-append P xs ys hs k)

-- Each element is before every later one, or has the same key.
abbrev pub IsOrdered {ℓ} : {A : Type ℓ} → (A → A → Bool) → List A → Type 0
IsOrdered before [] = Unit
IsOrdered before (x ∷ xs) = All (λ y. before x y ≡ true) xs × IsOrdered before xs

module _ {ℓ} {A : Type ℓ} (before : A → A → Bool) where
  unfoldable pub insert_by : A → List A → List A
  insert_by x [] = x ∷ []
  insert_by x (y ∷ ys) = let rest = insert_by x ys in if before x y then x ∷ y ∷ ys else y ∷ rest

  unfoldable pub sort_by : List A → List A
  unfolding insert_by
  sort_by [] = []
  sort_by (x ∷ xs) = insert_by x (sort_by xs)

  total-insert_by : (f : A → ℕ) (x : A) (xs : List A) → total f (insert_by x xs) ≡ f x + total f xs
  unfolding insert_by
  total-insert_by f x [] = refl
  total-insert_by f x (y ∷ ys) = elim (Bool-cases (before x y)) [
    | inl goes_first ↦ rw goes_first refl
    | inr later ↦ rw later (omega (arith, total-insert_by f x ys))
  ]

  pub total-sort_by : (f : A → ℕ) (xs : List A) → total f (sort_by xs) ≡ total f xs
  unfolding sort_by
  total-sort_by f [] = refl
  total-sort_by f (x ∷ xs) =
      total-insert_by f x (sort_by xs) ∙ ap (λ n. f x + n) (total-sort_by f xs)

  All-insert_by : (P : A → Type 0) (x : A) (xs : List A) → P x → All P xs → All P (insert_by x xs)
  unfolding insert_by
  All-insert_by P x [] px ps = (px, tt)
  All-insert_by P x (y ∷ ys) px (py, ps) = elim (Bool-cases (before x y)) [
    | inl goes_first ↦ rw goes_first (px, (py, ps))
    | inr later ↦ rw later (py, All-insert_by P x ys px ps)
  ]

  pub All-sort_by : (P : A → Type 0) (xs : List A) → All P xs → All P (sort_by xs)
  unfolding sort_by
  All-sort_by P [] ps = tt
  All-sort_by P (x ∷ xs) (px, ps) = All-insert_by P x (sort_by xs) px (All-sort_by P xs ps)

  module _ (trans : (a b c : A) → before a b ≡ true → before b c ≡ true → before a c ≡ true)
      (either : (a b : A) → before a b ≡ false → before b a ≡ true) where
    All-before :
        (a b : A) (xs : List A)
        → before a b ≡ true
        → All (λ x. before b x ≡ true) xs
        → All (λ x. before a x ≡ true) xs
    All-before a b [] h hs = tt
    All-before a b (x ∷ xs) h (k, ks) = (trans a b x h k, All-before a b xs h ks)

    insert_by-IsOrdered :
        (x : A) (xs : List A) → IsOrdered before xs → IsOrdered before (insert_by x xs)
    unfolding insert_by
    insert_by-IsOrdered x [] ordered = (tt, tt)
    insert_by-IsOrdered x (y ∷ ys) (first, ordered) = elim (Bool-cases (before x y)) [
      | inl goes_first ↦
          rw goes_first ((goes_first, All-before x y ys goes_first first), (first, ordered))
      | inr later ↦ rw later (
        All-insert_by (λ k. before y k ≡ true) x ys (either x y later) first,
        insert_by-IsOrdered x ys ordered,
      )
    ]

    pub sort_by-IsOrdered : (xs : List A) → IsOrdered before (sort_by xs)
    unfolding sort_by
    sort_by-IsOrdered [] = tt
    sort_by-IsOrdered (x ∷ xs) = insert_by-IsOrdered x (sort_by xs) (sort_by-IsOrdered xs)
