-- ===== src/Paper/Orders.antt =====
-- `PaperOrder` of packages/quant_agent/execution/paper/contracts.py, and `_expire_order` of
-- packages/quant_agent/execution/paper/transition.py.
use quant_agent.Prelude.{
  ℕ, ◌-◌, String, Bool, true, false, not, ◌&&◌, ◌||◌, Option, none, some, List, [], ◌∷◌,
  if◌then◌else◌, Result, ok, ◌>>◌, raise_if, leb, ltb, ◌==◌, is_sha256, is_blank, strip, ◌=s=◌,
  Decimal, pos, ltb_ℤ,
}
use quant_agent.Canonical.{
  Hashing, stable_hash, Json, flag, int, decimal, instant, text, opt_text, obj,
}
use quant_agent.Paper.Contracts.{
  fields_of, amount_beq, PaperError, value_error, TradableInstrumentType, type_value, Side, buy,
  sell, side_value, side_beq, PaperOrderStatus, accepted, partially_filled, filled, canceled,
  expired, rejected, status_value, is_active,
}

pub record PaperOrder : Type 0 where
  pub order_id : String
  pub batch_hash : String
  pub line_hash : String
  pub decision_id : String
  pub instrument_id : String
  pub instrument_type : TradableInstrumentType
  pub side : Side
  pub quantity : ℕ
  pub filled_quantity : ℕ
  pub remaining_quantity : ℕ
  pub is_full_liquidation : Bool
  pub status : PaperOrderStatus
  pub created_at : ℕ
  pub expires_at : ℕ
  pub cash_reserved : Decimal
  pub sell_reserved_quantity : ℕ
  pub market_rule_version : String
  pub market_rule_hash : String
  pub fee_rule_version : String
  pub fee_rule_hash : String
  pub slippage_model_version : String
  pub slippage_model_hash : String
  pub last_attempt_id : Option String
  pub order_hash : String

-- The entries of `asdict(order)` but for the hash.
abbrev pub order_fields : PaperOrder → List (String × Json)
order_fields o =
    ("order_id", text o.order_id)
    ∷ ("batch_hash", text o.batch_hash)
    ∷ ("line_hash", text o.line_hash)
    ∷ ("decision_id", text o.decision_id)
    ∷ ("instrument_id", text o.instrument_id)
    ∷ ("instrument_type", text (type_value o.instrument_type))
    ∷ ("side", text (side_value o.side))
    ∷ ("quantity", int o.quantity)
    ∷ ("filled_quantity", int o.filled_quantity)
    ∷ ("remaining_quantity", int o.remaining_quantity)
    ∷ ("is_full_liquidation", flag o.is_full_liquidation)
    ∷ ("status", text (status_value o.status))
    ∷ ("created_at", instant o.created_at)
    ∷ ("expires_at", instant o.expires_at)
    ∷ ("cash_reserved", decimal o.cash_reserved)
    ∷ ("sell_reserved_quantity", int o.sell_reserved_quantity)
    ∷ ("market_rule_version", text o.market_rule_version)
    ∷ ("market_rule_hash", text o.market_rule_hash)
    ∷ ("fee_rule_version", text o.fee_rule_version)
    ∷ ("fee_rule_hash", text o.fee_rule_hash)
    ∷ ("slippage_model_version", text o.slippage_model_version)
    ∷ ("slippage_model_hash", text o.slippage_model_hash)
    ∷ ("last_attempt_id", opt_text o.last_attempt_id)
    ∷ []

-- `_content_payload`
unfoldable pub order_payload : PaperOrder → Json
order_payload o = obj (fields_of (order_fields o))

abbrev opt_blank : Option String → Bool
opt_blank none = false
opt_blank (some s) = is_blank s

abbrev opt_strip : Option String → Option String
opt_strip none = none
opt_strip (some s) = some (strip s)

-- A name that `_non_empty` refuses.
unfoldable pub unnamed : PaperOrder → Bool
unnamed o =
    is_blank o.order_id
    || is_blank o.decision_id
    || is_blank o.instrument_id
    || is_blank o.market_rule_version
    || is_blank o.fee_rule_version
    || is_blank o.slippage_model_version
    || opt_blank o.last_attempt_id

-- The normalised names.
unfoldable pub stripped : PaperOrder → PaperOrder
stripped o = record o {
  order_id = strip o.order_id;
  decision_id = strip o.decision_id;
  instrument_id = strip o.instrument_id;
  market_rule_version = strip o.market_rule_version;
  fee_rule_version = strip o.fee_rule_version;
  slippage_model_version = strip o.slippage_model_version;
  last_attempt_id = opt_strip o.last_attempt_id;
}

-- Whether the filled quantity goes with the status.
unfoldable pub valid_status : PaperOrderStatus → ℕ → ℕ → ℕ → Bool
valid_status filled quantity done remaining = remaining == 0
valid_status partially_filled quantity done remaining = ltb 0 done && ltb done quantity
valid_status accepted quantity done remaining = done == 0
valid_status rejected quantity done remaining = done == 0
valid_status canceled quantity done remaining = not (remaining == 0)
valid_status expired quantity done remaining = not (remaining == 0)

-- Whether the cash and the shares that are held go with the side and the status.
unfoldable pub valid_holds : Side → Bool → Decimal → ℕ → ℕ → Bool
valid_holds buy active cash shares remaining =
    shares == 0 && (if active then ltb_ℤ (pos 0) cash else amount_beq cash (pos 0))
valid_holds sell active cash shares remaining =
    (active || amount_beq cash (pos 0)) && shares == (if active then remaining else 0)

abbrev has_attempt : Option String → Bool
has_attempt none = false
has_attempt (some _) = true

-- The checks that neither the status nor what is held take part in.
unfoldable pub valid_terms : PaperOrder → Bool
valid_terms o =
    (is_sha256 o.batch_hash
      && is_sha256 o.line_hash
      && is_sha256 o.market_rule_hash
      && is_sha256 o.fee_rule_hash
      && is_sha256 o.slippage_model_hash)
    && ltb o.created_at o.expires_at
    && ltb 0 o.quantity
    && leb o.filled_quantity o.quantity
    && (not o.is_full_liquidation || side_beq o.side sell)
    && (o.filled_quantity == 0 || has_attempt o.last_attempt_id)

-- The checks of `PaperOrder.__post_init__` behind the normalisation of the names.
unfoldable pub valid_order : ⦃h : Hashing⦄ → PaperOrder → Bool
unfolding order_payload valid_terms valid_status valid_holds is_active
valid_order o =
    valid_terms o
    && is_sha256 o.order_hash
    && not (ltb_ℤ o.cash_reserved (pos 0))
    && o.remaining_quantity == o.quantity - o.filled_quantity
    && valid_status o.status o.quantity o.filled_quantity o.remaining_quantity
    && valid_holds o.side (is_active o.status) o.cash_reserved o.sell_reserved_quantity
        o.remaining_quantity
    && (o.order_hash =s= stable_hash (order_payload o))

-- `PaperOrder(...)`
unfoldable pub make_order : ⦃h : Hashing⦄ → PaperOrder → Result PaperError PaperOrder
unfolding unnamed stripped
make_order o = do
  raise_if (unnamed o) value_error
  raise_if (not (valid_order (stripped o))) value_error
  ok (stripped o)

-- `PaperOrder.build`, of the fields of an order but its remaining quantity and its hash.
unfoldable pub build_order : ⦃h : Hashing⦄ → PaperOrder → Result PaperError PaperOrder
unfolding make_order
build_order o =
    let whole = record o { remaining_quantity = o.quantity - o.filled_quantity } in
    make_order (record whole { order_hash = stable_hash (order_payload whole) })

-- `_expire_order`
unfoldable pub expire_order : ⦃h : Hashing⦄ → PaperOrder → ℕ → Result PaperError PaperOrder
unfolding build_order is_active
expire_order o as_of =
    let expired_order =
      build_order
        (record o { status = expired; cash_reserved = pos 0; sell_reserved_quantity = 0 }) in
    if not (is_active o.status) || ltb as_of o.expires_at then ok o else expired_order
