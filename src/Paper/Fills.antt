-- ===== src/Paper/Fills.antt =====
-- `PaperFill` of packages/quant_agent/execution/paper/contracts.py.
use quant_agent.Prelude.{
  ℕ, ◌*◌, String, Bool, true, false, not, ◌&&◌, ◌||◌, Option, none, some, [], ◌∷◌, all, Result, ok,
  ◌>>◌, raise_if, leb, ltb, is_sha256, is_blank, strip, ◌=s=◌, Decimal, pos, pos_part, neg_part,
  sub_ℕ, ltb_ℤ, ◌+ℤ◌, ◌-ℤ◌,
}
use quant_agent.Canonical.{Hashing, stable_hash, Json, null, int, decimal, instant, day, text, obj}
use quant_agent.Paper.Contracts.{
  PaperError, value_error, TradableInstrumentType, type_value, Side, buy, sell, side_value,
  Platform, fields_of, amount_beq,
}

pub record PaperFill : Type 0 where
  pub fill_id : String
  pub order_id : String
  pub attempt_id : String
  pub instrument_id : String
  pub instrument_type : TradableInstrumentType
  pub filled_at : ℕ
  pub side : Side
  pub quantity : ℕ
  pub price : Decimal
  pub gross_amount : Decimal
  pub commission : Decimal
  pub stamp_duty : Decimal
  pub transfer_fee : Decimal
  pub other_fee : Decimal
  pub total_fee : Decimal
  pub cash_change : Decimal
  pub sellable_on : Option ℕ
  pub fee_rule_version : String
  pub fee_rule_hash : String
  pub fill_hash : String

abbrev opt_day : Option ℕ → Json
opt_day none = null
opt_day (some d) = day d

-- `_content_payload`: all fields but the hash.
unfoldable pub fill_payload : PaperFill → Json
fill_payload f = obj (
    fields_of (
      ("fill_id", text f.fill_id)
      ∷ ("order_id", text f.order_id)
      ∷ ("attempt_id", text f.attempt_id)
      ∷ ("instrument_id", text f.instrument_id)
      ∷ ("instrument_type", text (type_value f.instrument_type))
      ∷ ("filled_at", instant f.filled_at)
      ∷ ("side", text (side_value f.side))
      ∷ ("quantity", int f.quantity)
      ∷ ("price", decimal f.price)
      ∷ ("gross_amount", decimal f.gross_amount)
      ∷ ("commission", decimal f.commission)
      ∷ ("stamp_duty", decimal f.stamp_duty)
      ∷ ("transfer_fee", decimal f.transfer_fee)
      ∷ ("other_fee", decimal f.other_fee)
      ∷ ("total_fee", decimal f.total_fee)
      ∷ ("cash_change", decimal f.cash_change)
      ∷ ("sellable_on", opt_day f.sellable_on)
      ∷ ("fee_rule_version", text f.fee_rule_version)
      ∷ ("fee_rule_hash", text f.fee_rule_hash)
      ∷ []))

-- `quantity * price`
abbrev pub times : ℕ → Decimal → Decimal
times n price = sub_ℕ (n * pos_part price) (n * neg_part price)

abbrev pub fee_sum : PaperFill → Decimal
fee_sum f = f.commission +ℤ f.stamp_duty +ℤ f.transfer_fee +ℤ f.other_fee

-- The cash that a trade of this side moves.
unfoldable pub cash_of : Side → Decimal → Decimal → Decimal
cash_of buy gross fee = pos 0 -ℤ (gross +ℤ fee)
cash_of sell gross fee = gross -ℤ fee

-- `sellable_on` of a purchase is not before the local day of the fill; a sale has none.
unfoldable pub valid_settlement : Side → Option ℕ → ℕ → Bool
valid_settlement buy none filled_on = false
valid_settlement buy (some d) filled_on = leb filled_on d
valid_settlement sell none filled_on = true
valid_settlement sell (some d) filled_on = false

-- The checks of `PaperFill.__post_init__` behind the normalisation of the names.
unfoldable pub valid_fill : ⦃h : Hashing⦄ ⦃p : Platform⦄ → PaperFill → Bool
unfolding fill_payload cash_of valid_settlement
valid_fill ⦃h⦄ ⦃p⦄ f =
    ltb 0 f.quantity
    && (ltb_ℤ (pos 0) f.price && ltb_ℤ (pos 0) f.gross_amount)
    && all (λ fee. not (ltb_ℤ fee (pos 0)))
        (f.commission ∷ f.stamp_duty ∷ f.transfer_fee ∷ f.other_fee ∷ [])
    && amount_beq f.gross_amount (times f.quantity f.price)
    && amount_beq f.total_fee (fee_sum f)
    && amount_beq f.cash_change (cash_of f.side f.gross_amount f.total_fee)
    && valid_settlement f.side f.sellable_on (p.local_day f.filled_at)
    && is_sha256 f.fee_rule_hash
    && is_sha256 f.fill_hash
    && (f.fill_hash =s= stable_hash (fill_payload f))

-- `PaperFill(...)`
unfoldable pub make_fill : ⦃h : Hashing⦄ ⦃p : Platform⦄ → PaperFill → Result PaperError PaperFill
make_fill f = do
  raise_if
      (is_blank f.fill_id
        || is_blank f.order_id
        || is_blank f.attempt_id
        || is_blank f.instrument_id
        || is_blank f.fee_rule_version)
      value_error
  let normal = record f {
    fill_id = strip f.fill_id;
    order_id = strip f.order_id;
    attempt_id = strip f.attempt_id;
    instrument_id = strip f.instrument_id;
    fee_rule_version = strip f.fee_rule_version;
  }
  raise_if (not (valid_fill normal)) value_error
  ok normal

-- `PaperFill.build`, of the fields of a fill but the derived amounts and the hash.
unfoldable pub build_fill : ⦃h : Hashing⦄ ⦃p : Platform⦄ → PaperFill → Result PaperError PaperFill
unfolding make_fill cash_of
build_fill f =
    let gross = times f.quantity f.price in
    let whole = record f {
      gross_amount = gross;
      total_fee = fee_sum f;
      cash_change = cash_of f.side gross (fee_sum f);
    } in
    make_fill (record whole { fill_hash = stable_hash (fill_payload whole) })
