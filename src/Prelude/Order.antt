-- ===== src/Prelude/Order.antt =====
-- The order of texts by code points is a total order.
use Prim.Native.Nat.{ℕ, compare as compare_ℕ, Ordering}
use Prim.Native.Char.{Char, code}
use Prim.Native.String.{String, compare}
use Prim.Native.String.compare
use mathlib.Core.Path.{◌≡◌, refl, sym, ◌∙◌}
use mathlib.Core.Bool.{Bool, true, false}
use native.Mathlib.Omega.{arith}

abbrev pub text_leb : String → String → Bool
text_leb a b = elim (compare a b) [ Ordering.gt ↦ false | _ ↦ true ]

true_not_false : true ≡ false → ⊥
true_not_false e = cc

text_leb-nil : (a : String) → text_leb String.[] a ≡ true
text_leb-nil String.[] = refl
text_leb-nil (String.◌∷◌ x a) = rw (text_leb, compare.nil-cons x a) refl

text_leb-cons_nil : (x : Char) (a : String) → text_leb (String.◌∷◌ x a) String.[] ≡ false
text_leb-cons_nil x a = rw (text_leb, compare.cons-nil x a) refl

-- The first characters decide unless they are equal.
text_leb-cons :
    (x y : Char) (a b : String)
    → text_leb (String.◌∷◌ x a) (String.◌∷◌ y b) ≡ elim (compare_ℕ (code x) (code y)) [
      | Ordering.lt ↦ true
      | Ordering.eq ↦ text_leb a b
      | Ordering.gt ↦ false
    ]
text_leb-cons x y a b = rw (text_leb, compare.cons-cons x y a b) (ground arith)

pub text_leb_trans :
    (a b c : String) → text_leb a b ≡ true → text_leb b c ≡ true → text_leb a c ≡ true
text_leb_trans String.[] b c h k = text_leb-nil c
text_leb_trans (String.◌∷◌ x a) String.[] c h k =
    absurd (true_not_false (sym h ∙ text_leb-cons_nil x a))
text_leb_trans (String.◌∷◌ x a) (String.◌∷◌ y b) String.[] h k =
    absurd (true_not_false (sym k ∙ text_leb-cons_nil y b))
text_leb_trans (String.◌∷◌ x a) (String.◌∷◌ y b) (String.◌∷◌ z c) h k =
    text_leb-cons x z a c
    ∙ step (code x) (code y) (code z) (text_leb a b) (text_leb b c) (text_leb a c)
        (sym (text_leb-cons x y a b) ∙ h) (sym (text_leb-cons y z b c) ∙ k) (text_leb_trans a b c)
  where
    step :
        (x y z : ℕ) (ab bc ac : Bool)
        → elim (compare_ℕ x y) [ Ordering.lt ↦ true | Ordering.eq ↦ ab | Ordering.gt ↦ false ]
          ≡ true
        → elim (compare_ℕ y z) [ Ordering.lt ↦ true | Ordering.eq ↦ bc | Ordering.gt ↦ false ]
          ≡ true
        → (ab ≡ true → bc ≡ true → ac ≡ true)
        → elim (compare_ℕ x z) [ Ordering.lt ↦ true | Ordering.eq ↦ ac | Ordering.gt ↦ false ]
          ≡ true
    step x y z ab bc ac h k go = ground arith

pub text_leb_total : (a b : String) → text_leb a b ≡ false → text_leb b a ≡ true
text_leb_total String.[] b h = absurd (true_not_false (sym (text_leb-nil b) ∙ h))
text_leb_total (String.◌∷◌ x a) String.[] h = text_leb-nil (String.◌∷◌ x a)
text_leb_total (String.◌∷◌ x a) (String.◌∷◌ y b) h =
    text_leb-cons y x b a
    ∙ step (code x) (code y) (text_leb a b) (text_leb b a) (sym (text_leb-cons x y a b) ∙ h)
        (text_leb_total a b)
  where
    step :
        (x y : ℕ) (ab ba : Bool)
        → elim (compare_ℕ x y) [ Ordering.lt ↦ true | Ordering.eq ↦ ab | Ordering.gt ↦ false ]
          ≡ false
        → (ab ≡ false → ba ≡ true)
        → elim (compare_ℕ y x) [ Ordering.lt ↦ true | Ordering.eq ↦ ba | Ordering.gt ↦ false ]
          ≡ true
    step x y ab ba h go = ground arith
