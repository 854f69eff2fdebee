-- ===== src/Paper/Equality.antt =====
-- Equality of the records of a paper account, field by field, as Python compares dataclasses.
use native.Mathlib.Decide.{ℕ_discrete}
use text.Mathlib.TextEquality.{eq_iff}
use quant_agent.Prelude.{
  ◌≡◌, refl, sym, ◌∙◌, Bool, true, false, String, ℤ, ◌=s=◌, Bool-cases, inl, inr,
}
use quant_agent.Paper.Contracts.{PaperPositionLot}
use quant_agent.Paper.Orders.{PaperOrder}
use quant_agent.Paper.Positions.{PaperPosition}
use quant_agent.Paper.Accounts.{PaperAccountState}

String-discrete : Discrete String
String-discrete a b = elim (Bool-cases (a =s= b)) [
  | inl same ↦ yes ((eq_iff a b).0 same)
  | inr other ↦ no (λ e. true_not_false (sym ((eq_iff a b).1 e) ∙ other))
]
  where
    true_not_false : true ≡ false → ⊥
    true_not_false e = cc

ℤ-discrete : Discrete ℤ
ℤ-discrete = hlevel ℕ_discrete

PaperPositionLot-discrete : Discrete PaperPositionLot
PaperPositionLot-discrete = hlevel (ℕ_discrete, ℤ-discrete, String-discrete)

PaperPosition-discrete : Discrete PaperPosition
PaperPosition-discrete = hlevel (ℕ_discrete, ℤ-discrete, String-discrete, PaperPositionLot-discrete)

PaperOrder-discrete : Discrete PaperOrder
PaperOrder-discrete = hlevel (ℕ_discrete, ℤ-discrete, String-discrete)

pub PaperAccountState-discrete : Discrete PaperAccountState
PaperAccountState-discrete =
    hlevel (ℕ_discrete, ℤ-discrete, String-discrete, PaperPosition-discrete, PaperOrder-discrete)

-- `a == b` of two accounts.
unfoldable pub account_beq : PaperAccountState → PaperAccountState → Bool
account_beq a b = elim (PaperAccountState-discrete a b) [ yes _ ↦ true | no _ ↦ false ]

pub account_beq-eq : (a b : PaperAccountState) → account_beq a b ≡ true → a ≡ b
unfolding account_beq
account_beq-eq a b h = decided (PaperAccountState-discrete a b) h
  where
    decided : (d : Dec (a ≡ b)) → elim d [ yes _ ↦ true | no _ ↦ false ] ≡ true → a ≡ b
    decided (yes e) h = e
    decided (no _) h = cc

pub account_beq_refl : (a : PaperAccountState) → account_beq a a ≡ true
unfolding account_beq
account_beq_refl a = decided (PaperAccountState-discrete a a)
  where
    decided : (d : Dec (a ≡ a)) → elim d [ yes _ ↦ true | no _ ↦ false ] ≡ true
    decided (yes e) = refl
    decided (no different) = absurd (different refl)
