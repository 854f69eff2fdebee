-- ===== src/Prelude/SortedSets.antt =====
-- `sorted(set(values))` is strictly sorted, so that a tuple equal to it has no value twice.
use Prim.Native.Nat.{ℕ, compare as compare_ℕ, Ordering}
use Prim.Native.Char.{Char, code}
use Prim.Native.String.{String, compare}
use Prim.Native.String.compare
use text.Mathlib.TextPositions.{compare_refl}
use text.Mathlib.TextEquality.{eq_iff}
use mathlib.Core.Path.{◌≡◌, refl, sym, ap, ◌∙◌, subst}
use mathlib.Core.Bool.{Bool, true, false, ◌&&◌}
use mathlib.Core.Logic.{◌⊎◌, inl, inr}
use mathlib.Core.List.{List, [], ◌∷◌}
use native.Mathlib.Omega.{arith}
use quant_agent.Prelude.Lists.{All}
use quant_agent.Prelude.Texts.{insert_sorted, sorted_set, texts_beq, ◌=s=◌}

-- The first texts decide unless they are equal.
abbrev lexical : Ordering → Ordering → Ordering
lexical Ordering.lt rest = Ordering.lt
lexical Ordering.eq rest = rest
lexical Ordering.gt rest = Ordering.gt

compare-cons :
    (x y : Char) (a b : String)
    → compare (String.◌∷◌ x a) (String.◌∷◌ y b)
      ≡ lexical (compare_ℕ (code x) (code y)) (compare a b)
compare-cons x y a b = compare.cons-cons x y a b ∙ ground arith

not_before_nil : (a : String) → compare a String.[] ≡ Ordering.lt → ⊥
not_before_nil String.[] h = lt_not_eq (sym h ∙ compare_refl String.[])
  where
    lt_not_eq : Ordering.lt ≡ Ordering.eq → ⊥
    lt_not_eq e = cc
not_before_nil (String.◌∷◌ x a) h = lt_not_gt (sym h ∙ compare.cons-nil x a)
  where
    lt_not_gt : Ordering.lt ≡ Ordering.gt → ⊥
    lt_not_gt e = cc

pub compare_trans :
    (a b c : String)
    → compare a b ≡ Ordering.lt
    → compare b c ≡ Ordering.lt
    → compare a c ≡ Ordering.lt
compare_trans a b String.[] h k = absurd (not_before_nil b k)
compare_trans a String.[] (String.◌∷◌ z c) h k = absurd (not_before_nil a h)
compare_trans String.[] (String.◌∷◌ y b) (String.◌∷◌ z c) h k = compare.nil-cons z c
compare_trans (String.◌∷◌ x a) (String.◌∷◌ y b) (String.◌∷◌ z c) h k =
    compare-cons x z a c
    ∙ step (code x) (code y) (code z) (compare a b) (compare b c) (compare a c)
        (sym (compare-cons x y a b) ∙ h) (sym (compare-cons y z b c) ∙ k) (compare_trans a b c)
  where
    step :
        (x y z : ℕ) (ab bc ac : Ordering)
        → lexical (compare_ℕ x y) ab ≡ Ordering.lt
        → lexical (compare_ℕ y z) bc ≡ Ordering.lt
        → (ab ≡ Ordering.lt → bc ≡ Ordering.lt → ac ≡ Ordering.lt)
        → lexical (compare_ℕ x z) ac ≡ Ordering.lt
    step x y z ab bc ac h k go = ground arith

compare_flip : (a b : String) → compare a b ≡ Ordering.gt → compare b a ≡ Ordering.lt
compare_flip String.[] String.[] h = absurd (eq_not_gt (sym (compare_refl String.[]) ∙ h))
  where
    eq_not_gt : Ordering.eq ≡ Ordering.gt → ⊥
    eq_not_gt e = cc
compare_flip String.[] (String.◌∷◌ y b) h = absurd (lt_not_gt (sym (compare.nil-cons y b) ∙ h))
  where
    lt_not_gt : Ordering.lt ≡ Ordering.gt → ⊥
    lt_not_gt e = cc
compare_flip (String.◌∷◌ x a) String.[] h = compare.nil-cons x a
compare_flip (String.◌∷◌ x a) (String.◌∷◌ y b) h =
    compare-cons y x b a
    ∙ step (code x) (code y) (compare a b) (compare b a) (sym (compare-cons x y a b) ∙ h)
        (compare_flip a b)
  where
    step :
        (x y : ℕ) (ab ba : Ordering)
        → lexical (compare_ℕ x y) ab ≡ Ordering.gt
        → (ab ≡ Ordering.gt → ba ≡ Ordering.lt)
        → lexical (compare_ℕ y x) ba ≡ Ordering.lt
    step x y ab ba h go = ground arith

and_both : (a b : Bool) → (a && b) ≡ true → (a ≡ true) × (b ≡ true)
and_both true b h = (refl, h)
and_both false b h = cc

-- Each text is before every later one.
abbrev pub IsStrict : List String → Type 0
IsStrict [] = Unit
IsStrict (x ∷ xs) = All (λ y. compare x y ≡ Ordering.lt) xs × IsStrict xs

All-later :
    (x y : String) (ys : List String)
    → compare x y ≡ Ordering.lt
    → All (λ z. compare y z ≡ Ordering.lt) ys
    → All (λ z. compare x z ≡ Ordering.lt) ys
All-later x y [] h hs = tt
All-later x y (z ∷ zs) h (k, ks) = (compare_trans x y z h k, All-later x y zs h ks)

Ordering-cases : (o : Ordering) → (o ≡ Ordering.lt) ⊎ (o ≡ Ordering.eq) ⊎ (o ≡ Ordering.gt)
Ordering-cases Ordering.lt = inl refl
Ordering-cases Ordering.eq = inr (inl refl)
Ordering-cases Ordering.gt = inr (inr refl)

All-insert_sorted :
    (P : String → Type 0) (x : String) (ys : List String)
    → P x
    → All P ys
    → All P (insert_sorted x ys)
unfolding insert_sorted
All-insert_sorted P x [] px ps = (px, tt)
All-insert_sorted P x (y ∷ ys) px (py, ps) = elim (Ordering-cases (compare x y)) [
  | inl first ↦ rw (All, first) (px, (py, ps))
  | inr (inl same) ↦ rw (All, same) (py, ps)
  | inr (inr later) ↦ rw (All, later) (py, All-insert_sorted P x ys px ps)
]

insert_sorted-IsStrict :
    (x : String) (ys : List String) → IsStrict ys → IsStrict (insert_sorted x ys)
unfolding insert_sorted
insert_sorted-IsStrict x [] strict = (tt, tt)
insert_sorted-IsStrict x (y ∷ ys) (before, strict) = elim (Ordering-cases (compare x y)) [
  | inl first ↦ rw (IsStrict, first) ((first, All-later x y ys first before), (before, strict))
  | inr (inl same) ↦ rw (IsStrict, same) (before, strict)
  | inr (inr later) ↦
      rw (IsStrict, later)
        (
          All-insert_sorted (λ z. compare y z ≡ Ordering.lt) x ys (compare_flip x y later) before,
          insert_sorted-IsStrict x ys strict,
        )
]

sorted_set-IsStrict : (xs : List String) → IsStrict (sorted_set xs)
unfolding sorted_set
sorted_set-IsStrict [] = tt
sorted_set-IsStrict (x ∷ xs) = insert_sorted-IsStrict x (sorted_set xs) (sorted_set-IsStrict xs)

texts_beq-eq : (xs ys : List String) → texts_beq xs ys ≡ true → xs ≡ ys
texts_beq-eq [] [] h = refl
texts_beq-eq [] (y ∷ ys) h = cc
texts_beq-eq (x ∷ xs) [] h = cc
texts_beq-eq (x ∷ xs) (y ∷ ys) h =
    let (first, rest) = and_both (x =s= y) (texts_beq xs ys) h in
    ap (λ z. z ∷ xs) ((eq_iff x y).0 first) ∙ ap (λ zs. y ∷ zs) (texts_beq-eq xs ys rest)

-- `tuple(sorted(set(values))) == values`
pub sorted_set-IsStrict_itself :
    (xs : List String) → texts_beq (sorted_set xs) xs ≡ true → IsStrict xs
sorted_set-IsStrict_itself xs h =
    subst IsStrict (texts_beq-eq (sorted_set xs) xs h) (sorted_set-IsStrict xs)
