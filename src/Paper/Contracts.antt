-- ===== src/Paper/Contracts.antt =====
-- The values of packages/quant_agent/execution/paper/contracts.py and the checks of a lot. A whole
-- Decimal is a natural number. An amount of money is a number of units of a power of ten of which
-- all amounts are multiples.
use quant_agent.Prelude.{
  ℕ, ◌≡◌, String, Bool, true, false, not, ◌&&◌, ◌||◌, Result, ok, ◌>>◌, raise_if, ltb, is_sha256,
  is_blank, strip, ◌=s=◌, Decimal, pos, ltb_ℤ, leb_ℤ, List, [], ◌∷◌,
}
use quant_agent.Canonical.{
  Hashing, stable_hash, Json, int, decimal, day, text, obj, Fields, end, field,
}

pub data TradableInstrumentType : Type 0 where
  stock etf : TradableInstrumentType

abbrev pub type_beq : TradableInstrumentType → TradableInstrumentType → Bool
type_beq stock stock = true
type_beq etf etf = true
type_beq _ _ = false

abbrev pub type_value : TradableInstrumentType → String
type_value stock = "STOCK"
type_value etf = "ETF"

pub data Side : Type 0 where
  buy sell : Side

abbrev pub side_beq : Side → Side → Bool
side_beq buy buy = true
side_beq sell sell = true
side_beq _ _ = false

abbrev pub side_value : Side → String
side_value buy = "BUY"
side_value sell = "SELL"

pub data PaperOrderStatus : Type 0 where
  accepted partially_filled filled canceled expired rejected : PaperOrderStatus

abbrev pub status_value : PaperOrderStatus → String
status_value accepted = "ACCEPTED"
status_value partially_filled = "PARTIALLY_FILLED"
status_value filled = "FILLED"
status_value canceled = "CANCELED"
status_value expired = "EXPIRED"
status_value rejected = "REJECTED"

-- `_is_active`
unfoldable pub is_active : PaperOrderStatus → Bool
is_active accepted = true
is_active partially_filled = true
is_active _ = false

-- A `ValueError` of a constructor, or one of the uses of `PaperExecutionInputError`.
pub data PaperError : Type 0 where
  value_error moved_backwards batch_processed no_orders foreign_order order_replaced
        refresh_required fill_without_order fill_differs negative_cash buy_unsettled sale_uncovered
        types_conflict refresh_rejected snapshot_differs :
      PaperError

-- What the code takes from the modules `decimal` and `zoneinfo`: the divisions, which round to 50
-- digits, and the sum of costs that come from them, which rounds to the digits of the context; and
-- the local day of an instant. Of a division the code relies on the sign.
pub record Platform : Type 0 where
  pub prorate : Decimal → ℕ → ℕ → Decimal
  pub quotient : Decimal → ℕ → Decimal
  pub cost_sum : List Decimal → Decimal
  pub local_day : ℕ → ℕ
  pub prorate_sign :
      (cost : Decimal) (part whole : ℕ)
      → ltb_ℤ cost (pos 0) ≡ false
      → ltb_ℤ (prorate cost part whole) (pos 0) ≡ false

-- The entries of a dict in a payload.
abbrev pub fields_of : List (String × Json) → Fields
fields_of [] = end
fields_of ((name, value) ∷ rest) = field name value (fields_of rest)

-- Equality of two amounts.
abbrev pub amount_beq : Decimal → Decimal → Bool
amount_beq a b = leb_ℤ a b && leb_ℤ b a

pub record PaperPositionLot : Type 0 where
  pub lot_id : String
  pub instrument_id : String
  pub instrument_type : TradableInstrumentType
  pub quantity : ℕ
  pub cost_basis : Decimal
  pub acquired_on : ℕ
  pub sellable_on : ℕ
  pub externally_frozen : ℕ
  pub source_id : String
  pub lot_hash : String

-- The entries of `asdict(lot)` but for the hash.
abbrev pub lot_fields : PaperPositionLot → List (String × Json)
lot_fields l =
    ("lot_id", text l.lot_id)
    ∷ ("instrument_id", text l.instrument_id)
    ∷ ("instrument_type", text (type_value l.instrument_type))
    ∷ ("quantity", int l.quantity)
    ∷ ("cost_basis", decimal l.cost_basis)
    ∷ ("acquired_on", day l.acquired_on)
    ∷ ("sellable_on", day l.sellable_on)
    ∷ ("externally_frozen", int l.externally_frozen)
    ∷ ("source_id", text l.source_id)
    ∷ []

-- `_content_payload`
unfoldable pub lot_payload : PaperPositionLot → Json
lot_payload l = obj (fields_of (lot_fields l))

-- The checks of `PaperPositionLot.__post_init__` behind the normalisation of the names.
unfoldable pub valid_lot : ⦃h : Hashing⦄ → PaperPositionLot → Bool
unfolding lot_payload
valid_lot l =
    ltb 0 l.quantity
    && not (ltb_ℤ l.cost_basis (pos 0))
    && not (ltb l.sellable_on l.acquired_on)
    && not (ltb l.quantity l.externally_frozen)
    && is_sha256 l.lot_hash
    && (l.lot_hash =s= stable_hash (lot_payload l))

-- `PaperPositionLot(...)`
unfoldable pub make_lot : ⦃h : Hashing⦄ → PaperPositionLot → Result PaperError PaperPositionLot
make_lot l = do
  raise_if (is_blank l.lot_id || is_blank l.instrument_id || is_blank l.source_id) value_error
  let normal = record l {
    lot_id = strip l.lot_id;
    instrument_id = strip l.instrument_id;
    source_id = strip l.source_id;
  }
  raise_if (not (valid_lot normal)) value_error
  ok normal

-- `PaperPositionLot.build`, of the fields of a lot but its hash.
unfoldable pub build_lot : ⦃h : Hashing⦄ → PaperPositionLot → Result PaperError PaperPositionLot
unfolding make_lot
build_lot l = make_lot (record l { lot_hash = stable_hash (lot_payload l) })
