-- ===== src/Paper/Buckets.antt =====
-- The buckets of a position, and what can be sold from it.
use mathlib.Core.Path.{subst}
use quant_agent.Prelude.{
  ℕ, ◌+◌, ◌≤◌, ◌≡◌, ap, ◌∙◌, String, not, List, [], ◌∷◌, map, All, if◌then◌else◌, total,
  total-sort_by, All-sort_by, sort_by, ok, err, leb, ltb, arith, strip, is_blank, passed-ok,
  checked-ok,
}
use quant_agent.Canonical.{Hashing}
use quant_agent.Paper.Contracts.{
  value_error, sale_uncovered, TradableInstrumentType, Platform, PaperPositionLot,
}
use quant_agent.Paper.Lots.{free, sorted_lots, consume_sell_lots}
use quant_agent.Paper.LotFacts.{IsLot, IsLot-facts}
use quant_agent.Paper.Sales.{sold}
use quant_agent.Paper.SaleFacts.{sale_exact}
use quant_agent.Paper.Positions.{
  PaperPosition, unsettled, settled_frozen, are_distinct, id_leb, position_of, with_position_hash,
  valid_position, make_position, build_position,
}

free-bucket :
    (trading_day : ℕ) (l : PaperPositionLot)
    → l.externally_frozen ≤ l.quantity
    → free trading_day l + settled_frozen trading_day l + unsettled trading_day l ≡ l.quantity
unfolding free
free-bucket trading_day l le = ground arith

-- Every share is free, frozen or not settled.
pub free-buckets :
    ⦃h : Hashing⦄ (trading_day : ℕ) (ls : List PaperPositionLot)
    → All IsLot ls
    → total (free trading_day) ls
        + total (settled_frozen trading_day) ls
        + total (unsettled trading_day) ls
      ≡ total (λ l. l.quantity) ls
free-buckets trading_day [] lots = omega arith
free-buckets trading_day (l ∷ ls) (lot, lots) =
    let facts = IsLot-facts l lot in
    omega (arith, free-bucket trading_day l facts.frozen_le, free-buckets trading_day ls lots)

-- A position that was built: its fields are the derived ones, up to the normalised name.
pub build_position-inv :
    ⦃h : Hashing⦄ ⦃p : Platform⦄ (as_of : ℕ) (id : String) (type : TradableInstrumentType)
    (ls : List PaperPositionLot) (reserved : ℕ) (x : PaperPosition)
    → build_position as_of id type ls reserved ≡ ok x
    → ((position_of as_of id type (sort_by id_leb ls) reserved).unsettled_quantity
          + (position_of as_of id type (sort_by id_leb ls) reserved).frozen_quantity
        ≤ (position_of as_of id type (sort_by id_leb ls) reserved).total_quantity)
      × (record (with_position_hash (position_of as_of id type (sort_by id_leb ls) reserved)) {
        instrument_id = strip id;
      }
          ≡ x)
unfolding build_position make_position position_of
build_position-inv as_of id type ls reserved x built =
    let ordered = sort_by id_leb ls in
    let whole = position_of as_of id type ordered reserved in
    let (distinct, rest) =
      passed-ok (not (are_distinct (map (λ l. l.lot_id) ordered))) value_error _ x built in
    let (covered, checks) =
      passed-ok (ltb whole.total_quantity (whole.unsettled_quantity + whole.frozen_quantity))
        value_error _ x rest in
    let (named, valid) = passed-ok (is_blank id) value_error _ x checks in
    let (_, same) =
      checked-ok
        (not (valid_position (record (with_position_hash whole) { instrument_id = strip id })))
        value_error (record (with_position_hash whole) { instrument_id = strip id }) x valid in
    (ground arith, same)

-- A position that was built of lots that passed their constructor has all their shares, each of
-- them available, frozen or not settled. A sale from its lots on that day goes through exactly if
-- it is of at most the available shares and those that are reserved for orders.
pub position_buckets :
    ⦃h : Hashing⦄ ⦃p : Platform⦄ (as_of : ℕ) (id : String) (type : TradableInstrumentType)
    (ls : List PaperPositionLot) (reserved quantity : ℕ) (x : PaperPosition)
    → All IsLot ls
    → build_position as_of id type ls reserved ≡ ok x
    → (x.total_quantity ≡ x.available_quantity + x.frozen_quantity + x.unsettled_quantity)
      × (x.total_quantity ≡ total (λ l. l.quantity) ls)
      × (consume_sell_lots x.lots quantity (p.local_day as_of) ≡ (
          if leb quantity (x.available_quantity + reserved)
          then ok (sold (p.local_day as_of) quantity (sorted_lots x.lots))
          else err sale_uncovered))
unfolding position_of
position_buckets ⦃h⦄ ⦃p⦄ as_of id type ls reserved quantity x lots built =
    let ordered = sort_by id_leb ls in
    let day = p.local_day as_of in
    let valid = All-sort_by id_leb IsLot ls lots in
    let (covered, same) = build_position-inv as_of id type ls reserved x built in
    let buckets = free-buckets day ordered valid in
    let free_shares : total (free day) ordered
        ≡ (position_of as_of id type ordered reserved).available_quantity + reserved =
      omega arith in
    subst
      (λ y.
        (y.total_quantity ≡ y.available_quantity + y.frozen_quantity + y.unsettled_quantity)
        × (y.total_quantity ≡ total (λ l. l.quantity) ls)
        × (consume_sell_lots y.lots quantity day ≡ (
            if leb quantity (y.available_quantity + reserved)
            then ok (sold day quantity (sorted_lots y.lots))
            else err sale_uncovered)))
      same
      (
        omega arith,
        total-sort_by id_leb (λ l. l.quantity) ls,
        sale_exact ordered quantity day valid
            ∙ ap
                (λ n.
                  if leb quantity n
                  then ok (sold day quantity (sorted_lots ordered))
                  else err sale_uncovered)
                free_shares,
      )
