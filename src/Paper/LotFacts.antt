-- ===== src/Paper/LotFacts.antt =====
-- What the constructor of a lot has checked, and the lots that pass it.
use quant_agent.Prelude.{
  ℕ, ◌≤◌, ◌<◌, ◌≡◌, refl, ap, false, not, ◌||◌, ok, ltb, lt→ltb, arith, is_blank, strip, ltb_ℤ, pos,
  eq_iff, passed-ok, checked-ok,
}
use quant_agent.Canonical.{Hashing, stable_hash}
use quant_agent.Paper.Contracts.{
  value_error, PaperPositionLot, lot_payload, valid_lot, make_lot, build_lot,
}

-- A lot that passed its constructor.
abbrev pub IsLot : ⦃h : Hashing⦄ → PaperPositionLot → Type 0
IsLot l = make_lot l ≡ ok l

unfoldable pub hashed : ⦃h : Hashing⦄ → PaperPositionLot → PaperPositionLot
unfolding lot_payload
hashed l = record l { lot_hash = stable_hash (lot_payload l) }

-- What the constructor has checked.
pub record LotFacts (l : PaperPositionLot) : Type 0 where
  pub named : (is_blank l.lot_id || is_blank l.instrument_id || is_blank l.source_id) ≡ false
  pub lot_stripped : strip l.lot_id ≡ l.lot_id
  pub instrument_stripped : strip l.instrument_id ≡ l.instrument_id
  pub source_stripped : strip l.source_id ≡ l.source_id
  pub quantity_pos : 0 < l.quantity
  pub cost : ltb_ℤ l.cost_basis (pos 0) ≡ false
  pub dates : l.acquired_on ≤ l.sellable_on
  pub frozen_le : l.externally_frozen ≤ l.quantity

valid_lot-inv :
    ⦃h : Hashing⦄ (l : PaperPositionLot)
    → not (valid_lot l) ≡ false
    → (0 < l.quantity)
      × (ltb_ℤ l.cost_basis (pos 0) ≡ false)
      × (l.acquired_on ≤ l.sellable_on)
      × (l.externally_frozen ≤ l.quantity)
unfolding valid_lot
valid_lot-inv l h = ground arith

pub IsLot-facts : ⦃h : Hashing⦄ (l : PaperPositionLot) → IsLot l → LotFacts l
unfolding make_lot
IsLot-facts l made =
    let normal = record l {
      lot_id = strip l.lot_id;
      instrument_id = strip l.instrument_id;
      source_id = strip l.source_id;
    } in
    let (named, rest) =
      passed-ok (is_blank l.lot_id || is_blank l.instrument_id || is_blank l.source_id) value_error
        _ l made in
    let (valid, same) = checked-ok (not (valid_lot normal)) value_error normal l rest in
    let (quantity, cost, dates, frozen) = valid_lot-inv normal valid in
    record {
      named = named;
      lot_stripped = ap (λ x. x.lot_id) same;
      instrument_stripped = ap (λ x. x.instrument_id) same;
      source_stripped = ap (λ x. x.source_id) same;
      quantity_pos = quantity;
      cost = cost;
      dates = dates;
      frozen_le = frozen;
    }

le-not_ltb : (a b : ℕ) → a ≤ b → ltb b a ≡ false
le-not_ltb a b le = ground arith

pub build_lot-hashed :
    ⦃h : Hashing⦄ (l : PaperPositionLot) → LotFacts l → build_lot l ≡ ok (hashed l)
unfolding build_lot valid_lot hashed
build_lot-hashed ⦃h⦄ l facts =
    rw
      (
        facts.named,
        facts.lot_stripped,
        facts.instrument_stripped,
        facts.source_stripped,
        lt→ltb 0 l.quantity facts.quantity_pos,
        facts.cost,
        le-not_ltb l.acquired_on l.sellable_on facts.dates,
        le-not_ltb l.externally_frozen l.quantity facts.frozen_le,
        h.digest (lot_payload l),
        (eq_iff (stable_hash (lot_payload l)) _).1 refl,
      )
      refl

pub hashed-IsLot : ⦃h : Hashing⦄ (l : PaperPositionLot) → LotFacts l → IsLot (hashed l)
unfolding build_lot hashed
hashed-IsLot l facts = build_lot-hashed l facts
