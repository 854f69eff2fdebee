-- ===== src/WalkForward/Names.antt =====
-- The names `WF-001`, … of the folds: a text without white space is not changed by `strip`.
use Prim.Native.Char.{code}
use Prim.Native.String.{◌++◌ as append_text}
use text.Mathlib.TextLemmas.{nil-append, cons-append}
use quant_agent.Prelude.{
  is_empty, ℕ, zero, suc, ◌/◌, ◌%◌, ◌≡◌, refl, ap, ◌∙◌, String, Bool, true, false, not, ◌&&◌,
  Bool-cases, inl, inr, ltb, is_space, lstrip, rstrip, strip, is_blank, arith,
}
use quant_agent.WalkForward.Splitter.{digit, digits, three_digits, fold_name}

-- Every character is printed.
abbrev pub solid : String → Bool
solid String.[] = true
solid (String.◌∷◌ c s) = not (is_space (code c)) && solid s

solid-rstrip : (s : String) → solid s ≡ true → rstrip s ≡ s
unfolding rstrip
solid-rstrip String.[] h = refl
solid-rstrip (String.◌∷◌ c s) h = ground (arith, solid-rstrip s)

solid-lstrip : (s : String) → solid s ≡ true → lstrip s ≡ s
unfolding lstrip
solid-lstrip String.[] h = refl
solid-lstrip (String.◌∷◌ c s) h = ground arith

pub solid-append : (s t : String) → solid s ≡ true → solid t ≡ true → solid (append_text s t) ≡ true
solid-append String.[] t h k = rw (nil-append t) k
solid-append (String.◌∷◌ c s) t h k = rw (cons-append c s t) (ground (arith, solid-append s t))

solid-strip : (s : String) → solid s ≡ true → strip s ≡ s
unfolding strip
solid-strip s h = ap rstrip (solid-lstrip s h) ∙ solid-rstrip s h

solid-digit : (n : ℕ) → solid (digit n) ≡ true
unfolding digit is_space
solid-digit zero = refl
solid-digit (suc zero) = refl
solid-digit (suc (suc zero)) = refl
solid-digit (suc (suc (suc zero))) = refl
solid-digit (suc (suc (suc (suc zero)))) = refl
solid-digit (suc (suc (suc (suc (suc zero))))) = refl
solid-digit (suc (suc (suc (suc (suc (suc zero)))))) = refl
solid-digit (suc (suc (suc (suc (suc (suc (suc zero))))))) = refl
solid-digit (suc (suc (suc (suc (suc (suc (suc (suc zero)))))))) = refl
solid-digit (suc (suc (suc (suc (suc (suc (suc (suc (suc n))))))))) = refl

solid-digits :
    (fuel n : ℕ) (after : String) → solid after ≡ true → solid (digits fuel n after) ≡ true
unfolding digits
solid-digits zero n after h = h
solid-digits (suc fuel) n after h = elim (Bool-cases (ltb n 10)) [
  | inl small ↦ rw small (solid-append (digit n) after (solid-digit n) h)
  | inr large ↦ rw large (
      solid-digits fuel (n / 10) (append_text (digit (n % 10)) after)
        (solid-append (digit (n % 10)) after (solid-digit (n % 10)) h))
]

solid-three_digits : (n : ℕ) → solid (three_digits n) ≡ true
unfolding three_digits is_space
solid-three_digits n =
    let shown = solid-digits (suc n) n "" refl in
    ground (
      arith,
      solid-append "00" (digits (suc n) n "") refl shown,
      solid-append "0" (digits (suc n) n "") refl shown,
    )

solid-fold_name : (n : ℕ) → solid (fold_name n) ≡ true
unfolding fold_name is_space
solid-fold_name n = solid-append "WF-" (three_digits n) refl (solid-three_digits n)

-- `strip` leaves the name of a fold as it is.
pub strip-fold_name : (n : ℕ) → strip (fold_name n) ≡ fold_name n
strip-fold_name n = solid-strip (fold_name n) (solid-fold_name n)

is_empty-append : (s t : String) → is_empty s ≡ false → is_empty (append_text s t) ≡ false
is_empty-append String.[] t h = cc
is_empty-append (String.◌∷◌ c s) t h = rw (cons-append c s t) refl

pub is_blank-fold_name : (n : ℕ) → is_blank (fold_name n) ≡ false
unfolding is_blank fold_name
is_blank-fold_name n = ap is_empty (strip-fold_name n) ∙ is_empty-append "WF-" (three_digits n) refl
