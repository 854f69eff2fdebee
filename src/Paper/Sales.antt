-- ===== src/Paper/Sales.antt =====
-- A sale takes free shares only, in the order of the lots, and exactly as many as it says.
use quant_agent.Prelude.{
  ℕ, ◌+◌, ◌-◌, ◌≤◌, ◌<◌, min, ◌≡◌, refl, ap, inl, inr, Bool-cases, List, [], ◌∷◌, ◌++◌, All,
  if◌then◌else◌, ok, ◌==◌, arith, total, total-append, All-append,
}
use quant_agent.Canonical.{Hashing}
use quant_agent.Paper.Contracts.{Platform, PaperPositionLot}
use quant_agent.Paper.Lots.{free, rest_of_lot, keep_lot, consume_lots}
use quant_agent.Paper.LotFacts.{
  IsLot, hashed, LotFacts, IsLot-facts, build_lot-hashed, hashed-IsLot,
}

-- What is left of a lot.
unfoldable pub left_of : ⦃h : Hashing⦄ ⦃p : Platform⦄ → PaperPositionLot → ℕ → List PaperPositionLot
unfolding rest_of_lot
left_of lot consumed =
    if consumed == 0
    then lot ∷ []
    else if lot.quantity - consumed == 0
    then []
    else hashed (rest_of_lot lot consumed) ∷ []

-- The lots behind a sale.
unfoldable pub sold :
    ⦃h : Hashing⦄ ⦃p : Platform⦄ → ℕ → ℕ → List PaperPositionLot → List PaperPositionLot
unfolding free
sold trading_day quantity [] = []
sold trading_day quantity (l ∷ ls) =
    left_of l (min (free trading_day l) quantity)
    ++ sold trading_day (quantity - min (free trading_day l) quantity) ls

free-le :
    (trading_day : ℕ) (l : PaperPositionLot) → free trading_day l ≤ l.quantity - l.externally_frozen
unfolding free
free-le trading_day l = ground arith

pub no_more : (n : ℕ) → n ≡ n - 0
no_more n = omega arith

take_in_two : (a b n : ℕ) → n - min a n - b ≡ n - (a + b)
take_in_two a b n = omega arith

module _ ⦃h : Hashing⦄ ⦃p : Platform⦄ where
  rest-LotFacts :
      (l : PaperPositionLot) (consumed : ℕ)
      → LotFacts l
      → consumed ≤ l.quantity - l.externally_frozen
      → 0 < l.quantity - consumed
      → LotFacts (rest_of_lot l consumed)
  unfolding rest_of_lot
  rest-LotFacts l consumed facts le some = record {
    named = facts.named;
    lot_stripped = facts.lot_stripped;
    instrument_stripped = facts.instrument_stripped;
    source_stripped = facts.source_stripped;
    quantity_pos = some;
    cost = p.prorate_sign l.cost_basis (l.quantity - consumed) l.quantity facts.cost;
    dates = facts.dates;
    frozen_le = omega (arith, facts.frozen_le);
  }

  keep_lot-left_of :
      (l : PaperPositionLot) (consumed : ℕ)
      → LotFacts l
      → consumed ≤ l.quantity - l.externally_frozen
      → keep_lot l consumed ≡ ok (left_of l consumed)
  unfolding keep_lot rest_of_lot left_of
  keep_lot-left_of l consumed facts le = elim (Bool-cases (consumed == 0)) [
    | inl nothing ↦ rw nothing refl
    | inr some ↦ elim (Bool-cases (l.quantity - consumed == 0)) [
      | inl whole ↦ rw (some, whole) refl
      | inr part ↦
          rw (some, part)
            (rw
              (build_lot-hashed (rest_of_lot l consumed)
                (rest-LotFacts l consumed facts le (ground arith)))
              refl)
    ]
  ]

  pub consume_lots-sold :
      (trading_day quantity : ℕ) (ls : List PaperPositionLot)
      → All IsLot ls
      → consume_lots trading_day quantity ls
        ≡ ok (quantity - total (free trading_day) ls, sold trading_day quantity ls)
  unfolding consume_lots sold
  consume_lots-sold trading_day quantity [] lots = ap (λ n. ok (n, [])) (no_more quantity)
  consume_lots-sold trading_day quantity (l ∷ ls) (lot, lots) =
      let consumed = min (free trading_day l) quantity in
      rw
        (
          keep_lot-left_of l consumed (IsLot-facts l lot) (omega (arith, free-le trading_day l)),
          consume_lots-sold trading_day (quantity - consumed) ls lots,
        )
        (ap (λ n. ok (n, sold trading_day quantity (l ∷ ls)))
          (take_in_two (free trading_day l) (total (free trading_day) ls) quantity))

  -- What a lot passes on, in each of the sums that a sale is measured by.
  left_of-sums :
      (trading_day consumed : ℕ) (l : PaperPositionLot)
      → LotFacts l
      → consumed ≤ free trading_day l
      → (total (λ x. x.quantity) (left_of l consumed) + consumed ≡ l.quantity)
        × (total (free trading_day) (left_of l consumed) + consumed ≡ free trading_day l)
        × (total (λ x. x.externally_frozen) (left_of l consumed) ≡ l.externally_frozen)
  unfolding free rest_of_lot hashed left_of
  left_of-sums trading_day consumed l facts le = ground (arith, facts.frozen_le, facts.quantity_pos)

  left_of-IsLot :
      (consumed : ℕ) (l : PaperPositionLot)
      → IsLot l
      → consumed ≤ l.quantity - l.externally_frozen
      → All IsLot (left_of l consumed)
  unfolding left_of
  left_of-IsLot consumed l lot le = elim (Bool-cases (consumed == 0)) [
    | inl nothing ↦ rw nothing (lot, tt)
    | inr some ↦ elim (Bool-cases (l.quantity - consumed == 0)) [
      | inl whole ↦ rw (some, whole) tt
      | inr part ↦
          rw (some, part)
            (
              hashed-IsLot (rest_of_lot l consumed)
                  (rest-LotFacts l consumed (IsLot-facts l lot) le (ground arith)),
              tt,
            )
    ]
  ]

module _ ⦃h : Hashing⦄ ⦃p : Platform⦄ (trading_day : ℕ) where
  pub sold-sums :
      (quantity : ℕ) (ls : List PaperPositionLot)
      → All IsLot ls
      → (total (λ x. x.quantity) (sold trading_day quantity ls)
            + min quantity (total (free trading_day) ls)
          ≡ total (λ x. x.quantity) ls)
        × (total (free trading_day) (sold trading_day quantity ls)
              + min quantity (total (free trading_day) ls)
            ≡ total (free trading_day) ls)
        × (total (λ x. x.externally_frozen) (sold trading_day quantity ls)
            ≡ total (λ x. x.externally_frozen) ls)
  unfolding sold
  sold-sums quantity [] lots = (omega arith, omega arith, refl)
  sold-sums quantity (l ∷ ls) (lot, lots) =
      let consumed = min (free trading_day l) quantity in
      let rest = sold trading_day (quantity - consumed) ls in
      let (here, free_here, frozen_here) =
        left_of-sums trading_day consumed l (IsLot-facts l lot) (omega arith) in
      let (there, free_there, frozen_there) = sold-sums (quantity - consumed) ls lots in
      (
        omega (arith, total-append (λ x. x.quantity) (left_of l consumed) rest),
        omega (arith, total-append (free trading_day) (left_of l consumed) rest),
        omega (arith, total-append (λ x. x.externally_frozen) (left_of l consumed) rest),
      )

  pub sold-IsLot :
      (quantity : ℕ) (ls : List PaperPositionLot)
      → All IsLot ls
      → All IsLot (sold trading_day quantity ls)
  unfolding sold
  sold-IsLot quantity [] lots = tt
  sold-IsLot quantity (l ∷ ls) (lot, lots) =
      let consumed = min (free trading_day l) quantity in
      All-append IsLot (left_of l consumed) (sold trading_day (quantity - consumed) ls)
        (left_of-IsLot consumed l lot (omega (arith, free-le trading_day l)))
        (sold-IsLot (quantity - consumed) ls lots)
