-- ===== src/Paper/Lots.antt =====
-- `_consume_sell_lots` of packages/quant_agent/execution/paper/transition.py.
use quant_agent.Prelude.{
  ℕ, ◌-◌, min, Bool, true, false, not, List, [], ◌∷◌, ◌++◌, if◌then◌else◌, Result, ok, ◌>>=◌, ◌>>◌,
  raise_if, leb, ◌==◌, text_leb, sort_by,
}
use Prim.Native.Nat.{compare, Ordering}
use quant_agent.Canonical.{Hashing}
use quant_agent.Paper.Contracts.{PaperError, sale_uncovered, Platform, PaperPositionLot, build_lot}

-- `(sellable_on, acquired_on, lot_id)` is compared as a tuple.
unfoldable pub lot_leb : PaperPositionLot → PaperPositionLot → Bool
lot_leb a b = elim (compare a.sellable_on b.sellable_on) [
  | Ordering.lt ↦ true
  | Ordering.gt ↦ false
  | Ordering.eq ↦ elim (compare a.acquired_on b.acquired_on) [
    | Ordering.lt ↦ true
    | Ordering.gt ↦ false
    | Ordering.eq ↦ text_leb a.lot_id b.lot_id
  ]
]

-- `sorted(lots, key=...)`
unfoldable pub sorted_lots : List PaperPositionLot → List PaperPositionLot
unfolding lot_leb
sorted_lots lots = sort_by lot_leb lots

-- What of a lot may be sold on a day.
unfoldable pub free : ℕ → PaperPositionLot → ℕ
free trading_day lot =
    if leb lot.sellable_on trading_day then lot.quantity - lot.externally_frozen else 0

-- What is left of a lot of which so much was consumed, before its checks.
unfoldable pub rest_of_lot : ⦃p : Platform⦄ → PaperPositionLot → ℕ → PaperPositionLot
rest_of_lot ⦃p⦄ lot consumed = record lot {
  quantity = lot.quantity - consumed;
  cost_basis = p.prorate lot.cost_basis (lot.quantity - consumed) lot.quantity;
}

-- A round of the loop: what it appends to the result.
unfoldable pub keep_lot :
    ⦃h : Hashing⦄ ⦃p : Platform⦄ → PaperPositionLot → ℕ → Result PaperError (List PaperPositionLot)
unfolding rest_of_lot
keep_lot lot consumed =
    if consumed == 0
    then ok (lot ∷ [])
    else if lot.quantity - consumed == 0
    then ok []
    else do rest ← build_lot (rest_of_lot lot consumed); ok (rest ∷ [])

-- The loop: what remains to be sold, and the lots that are left.
unfoldable pub consume_lots :
    ⦃h : Hashing⦄ ⦃p : Platform⦄
    → ℕ
    → ℕ
    → List PaperPositionLot
    → Result PaperError (ℕ × List PaperPositionLot)
unfolding free keep_lot
consume_lots trading_day remaining [] = ok (remaining, [])
consume_lots trading_day remaining (lot ∷ lots) =
    let consumed = min (free trading_day lot) remaining in
    let later = consume_lots trading_day (remaining - consumed) lots in
    do kept ← keep_lot lot consumed; (left, rest) ← later; ok (left, kept ++ rest)

-- `_consume_sell_lots`
unfoldable pub consume_sell_lots :
    ⦃h : Hashing⦄ ⦃p : Platform⦄
    → List PaperPositionLot
    → ℕ
    → ℕ
    → Result PaperError (List PaperPositionLot)
unfolding consume_lots sorted_lots
consume_sell_lots lots quantity trading_day = do
  (left, result) ← consume_lots trading_day quantity (sorted_lots lots)
  raise_if (not (left == 0)) sale_uncovered
  ok result
