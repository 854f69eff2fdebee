-- ===== src/Paper/Positions.antt =====
-- `PaperPosition` of packages/quant_agent/execution/paper/contracts.py.
use quant_agent.Prelude.{
  ℕ, ◌+◌, ◌-◌, String, Bool, not, ◌&&◌, List, [], ◌∷◌, map, length, all, any, is_nil, if◌then◌else◌,
  total, sort_by, text_leb, sorted_set, texts_beq, Result, ok, ◌>>◌, raise_if, leb, ltb, ◌==◌,
  is_sha256, is_blank, strip, ◌=s=◌, Decimal, pos, ltb_ℤ,
}
use quant_agent.Canonical.{
  Hashing, stable_hash, Json, int, decimal, instant, text, arr, obj, Items, nil, cons,
}
use quant_agent.Paper.Contracts.{
  PaperError, value_error, TradableInstrumentType, type_value, type_beq, Platform, PaperPositionLot,
  lot_fields, fields_of, amount_beq,
}

pub record PaperPosition : Type 0 where
  pub as_of : ℕ
  pub instrument_id : String
  pub instrument_type : TradableInstrumentType
  pub lots : List PaperPositionLot
  pub reserved_sell_quantity : ℕ
  pub total_quantity : ℕ
  pub available_quantity : ℕ
  pub frozen_quantity : ℕ
  pub unsettled_quantity : ℕ
  pub cost_basis : Decimal
  pub average_cost : Decimal
  pub position_hash : String

abbrev lot_items : List PaperPositionLot → Items
lot_items [] = nil
lot_items (l ∷ ls) =
    cons (obj (fields_of (("lot_hash", text l.lot_hash) ∷ lot_fields l))) (lot_items ls)

abbrev pub position_fields : PaperPosition → List (String × Json)
position_fields p =
    ("as_of", instant p.as_of)
    ∷ ("instrument_id", text p.instrument_id)
    ∷ ("instrument_type", text (type_value p.instrument_type))
    ∷ ("lots", arr (lot_items p.lots))
    ∷ ("reserved_sell_quantity", int p.reserved_sell_quantity)
    ∷ ("total_quantity", int p.total_quantity)
    ∷ ("available_quantity", int p.available_quantity)
    ∷ ("frozen_quantity", int p.frozen_quantity)
    ∷ ("unsettled_quantity", int p.unsettled_quantity)
    ∷ ("cost_basis", decimal p.cost_basis)
    ∷ ("average_cost", decimal p.average_cost)
    ∷ []

-- `_content_payload`: all fields but the hash.
unfoldable pub position_payload : PaperPosition → Json
position_payload p = obj (fields_of (position_fields p))

-- The shares of a lot that are not settled on a day, and those of a settled lot that are frozen.
abbrev pub unsettled : ℕ → PaperPositionLot → ℕ
unsettled trading_day l = if ltb trading_day l.sellable_on then l.quantity else 0

abbrev pub settled_frozen : ℕ → PaperPositionLot → ℕ
settled_frozen trading_day l = if leb l.sellable_on trading_day then l.externally_frozen else 0

-- `len(set(values)) == len(values)`
unfoldable pub are_distinct : List String → Bool
are_distinct values = length (sorted_set values) == length values

-- The checks of `PaperPosition.__post_init__` behind the normalisation of `instrument_id`.
unfoldable pub valid_position : ⦃h : Hashing⦄ ⦃p : Platform⦄ → PaperPosition → Bool
unfolding position_payload
valid_position ⦃h⦄ ⦃p⦄ x =
    let trading_day = p.local_day x.as_of in
    let lot_ids = map (λ l. l.lot_id) x.lots in
    let expected_total = total (λ l. l.quantity) x.lots in
    let expected_unsettled = total (unsettled trading_day) x.lots in
    let externally_frozen = total (settled_frozen trading_day) x.lots in
    let expected_cost = p.cost_sum (map (λ l. l.cost_basis) x.lots) in
    not (is_nil x.lots)
    && texts_beq (sorted_set lot_ids) lot_ids
    && all
        (λ l. (l.instrument_id =s= x.instrument_id) && type_beq l.instrument_type x.instrument_type)
        x.lots
    && (not (ltb_ℤ x.cost_basis (pos 0)) && not (ltb_ℤ x.average_cost (pos 0)))
    && ltb 0 x.total_quantity
    && all (λ l. leb l.acquired_on trading_day) x.lots
    && not (any (λ l. ltb 0 l.externally_frozen && ltb trading_day l.sellable_on) x.lots)
    && leb (expected_unsettled + externally_frozen + x.reserved_sell_quantity) expected_total
    && x.total_quantity == expected_total
    && x.unsettled_quantity == expected_unsettled
    && x.frozen_quantity == externally_frozen + x.reserved_sell_quantity
    && x.available_quantity == expected_total - expected_unsettled - x.frozen_quantity
    && x.total_quantity == x.available_quantity + x.frozen_quantity + x.unsettled_quantity
    && (amount_beq x.cost_basis expected_cost
        && amount_beq x.average_cost (p.quotient expected_cost expected_total))
    && is_sha256 x.position_hash
    && (x.position_hash =s= stable_hash (position_payload x))

-- `PaperPosition(...)`
unfoldable pub make_position :
    ⦃h : Hashing⦄ ⦃p : Platform⦄ → PaperPosition → Result PaperError PaperPosition
make_position x = do
  raise_if (is_blank x.instrument_id) value_error
  let normal = record x { instrument_id = strip x.instrument_id }
  raise_if (not (valid_position normal)) value_error
  ok normal

abbrev pub id_leb : PaperPositionLot → PaperPositionLot → Bool
id_leb a b = text_leb a.lot_id b.lot_id

-- The fields that `build` derives, but for the hash.
unfoldable pub position_of :
    ⦃p : Platform⦄ → ℕ → String → TradableInstrumentType → List PaperPositionLot → ℕ → PaperPosition
position_of ⦃p⦄ as_of instrument_id instrument_type lots reserved =
    let trading_day = p.local_day as_of in
    let all_shares = total (λ l. l.quantity) lots in
    let waiting = total (unsettled trading_day) lots in
    let frozen = total (settled_frozen trading_day) lots + reserved in
    let cost = p.cost_sum (map (λ l. l.cost_basis) lots) in
    record {
      as_of = as_of;
      instrument_id = instrument_id;
      instrument_type = instrument_type;
      lots = lots;
      reserved_sell_quantity = reserved;
      total_quantity = all_shares;
      available_quantity = all_shares - waiting - frozen;
      frozen_quantity = frozen;
      unsettled_quantity = waiting;
      cost_basis = cost;
      average_cost = if ltb 0 all_shares then p.quotient cost all_shares else pos 0;
      position_hash = "";
    }

abbrev pub with_position_hash : ⦃h : Hashing⦄ → PaperPosition → PaperPosition
with_position_hash x = record x { position_hash = stable_hash (position_payload x) }

-- `PaperPosition.build`. A negative `available_quantity` does not pass the constructor.
unfoldable pub build_position :
    ⦃h : Hashing⦄ ⦃p : Platform⦄
    → ℕ
    → String
    → TradableInstrumentType
    → List PaperPositionLot
    → ℕ
    → Result PaperError PaperPosition
unfolding are_distinct position_of make_position
build_position ⦃h⦄ ⦃p⦄ as_of instrument_id instrument_type lots reserved =
    let ordered = sort_by id_leb lots in
    let whole = position_of as_of instrument_id instrument_type ordered reserved in
    do
      raise_if (not (are_distinct (map (λ l. l.lot_id) ordered))) value_error
      raise_if (ltb whole.total_quantity (whole.unsettled_quantity + whole.frozen_quantity))
          value_error
      make_position (with_position_hash whole)
