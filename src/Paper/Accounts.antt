-- ===== src/Paper/Accounts.antt =====
-- `PaperAccountState` of packages/quant_agent/execution/paper/contracts.py. The schema version and
-- the runtime mode are constants that the constructor checks, and no fields here.
use quant_agent.Prelude.{
  ℕ, String, Bool, not, ◌&&◌, ◌||◌, Option, List, [], ◌∷◌, map, all, any, if◌then◌else◌, total,
  sort_by, text_leb, text_in, sorted_set, texts_beq, Result, ok, ◌>>=◌, ◌>>◌, raise_if, leb, ◌==◌,
  is_sha256, opt_sha256, is_blank, strip, ◌=s=◌, Decimal, pos, ltb_ℤ, leb_ℤ, ◌+ℤ◌, ◌-ℤ◌,
}
use quant_agent.Canonical.{
  Hashing, stable_hash, Json, decimal, instant, text, opt_text, texts, arr, obj, Items, nil, cons,
}
use quant_agent.Paper.Contracts.{
  PaperError, value_error, sell, side_beq, is_active, Platform, fields_of, amount_beq,
}
use quant_agent.Paper.Orders.{PaperOrder, order_fields}
use quant_agent.Paper.Positions.{PaperPosition, position_fields, are_distinct, build_position}

pub record PaperAccountState : Type 0 where
  pub account_id : String
  pub as_of : ℕ
  pub data_version : String
  pub currency : String
  pub source_snapshot_id : String
  pub source_snapshot_hash : String
  pub source_snapshot_as_of : ℕ
  pub total_cash : Decimal
  pub available_cash : Decimal
  pub frozen_cash : Decimal
  pub external_frozen_cash : Decimal
  pub positions : List PaperPosition
  pub orders : List PaperOrder
  pub processed_batch_hashes : List String
  pub previous_state_hash : Option String
  pub event_log_hash : String
  pub state_hash : String

abbrev position_items : List PaperPosition → Items
position_items [] = nil
position_items (p ∷ ps) =
    cons (obj (fields_of (("position_hash", text p.position_hash) ∷ position_fields p)))
      (position_items ps)

abbrev order_items : List PaperOrder → Items
order_items [] = nil
order_items (o ∷ os) =
    cons (obj (fields_of (("order_hash", text o.order_hash) ∷ order_fields o))) (order_items os)

-- `_content_payload`: all fields but the hash.
unfoldable pub account_payload : PaperAccountState → Json
account_payload a = obj (
    fields_of (
      ("schema_version", text "1")
      ∷ ("account_id", text a.account_id)
      ∷ ("runtime_mode", text "PAPER")
      ∷ ("as_of", instant a.as_of)
      ∷ ("data_version", text a.data_version)
      ∷ ("currency", text a.currency)
      ∷ ("source_snapshot_id", text a.source_snapshot_id)
      ∷ ("source_snapshot_hash", text a.source_snapshot_hash)
      ∷ ("source_snapshot_as_of", instant a.source_snapshot_as_of)
      ∷ ("total_cash", decimal a.total_cash)
      ∷ ("available_cash", decimal a.available_cash)
      ∷ ("frozen_cash", decimal a.frozen_cash)
      ∷ ("external_frozen_cash", decimal a.external_frozen_cash)
      ∷ ("positions", arr (position_items a.positions))
      ∷ ("orders", arr (order_items a.orders))
      ∷ ("processed_batch_hashes", texts a.processed_batch_hashes)
      ∷ ("previous_state_hash", opt_text a.previous_state_hash)
      ∷ ("event_log_hash", text a.event_log_hash)
      ∷ []))

-- `sum(order.cash_reserved for order in orders if _is_active(order.status))`
unfoldable pub active_cash : List PaperOrder → Decimal
unfolding is_active
active_cash [] = pos 0
active_cash (o ∷ os) =
    let rest = active_cash os in if is_active o.status then o.cash_reserved +ℤ rest else rest

abbrev pub holds_shares : PaperOrder → Bool
unfolding is_active
holds_shares o = side_beq o.side sell && is_active o.status

-- `sell_holds.get(instrument_id, _ZERO)`
unfoldable pub sell_hold : String → List PaperOrder → ℕ
unfolding holds_shares
sell_hold id orders =
    total (λ o. if holds_shares o && (o.instrument_id =s= id) then o.sell_reserved_quantity else 0)
      orders

-- Each active sale is of an instrument that there is a position of.
unfoldable pub holds_have_positions : List PaperPosition → List PaperOrder → Bool
unfolding holds_shares
holds_have_positions positions orders =
    all
      (λ o. not (holds_shares o) || text_in o.instrument_id (map (λ p. p.instrument_id) positions))
      orders

abbrev is_sorted_set : List String → Bool
is_sorted_set values = texts_beq (sorted_set values) values

-- The checks of `PaperAccountState.__post_init__` behind the normalisation of the names.
unfoldable pub valid_account : ⦃h : Hashing⦄ → PaperAccountState → Bool
unfolding account_payload active_cash sell_hold holds_have_positions is_active
valid_account a =
    leb a.source_snapshot_as_of a.as_of
    && (is_sha256 a.source_snapshot_hash
        && is_sha256 a.event_log_hash
        && is_sha256 a.state_hash
        && opt_sha256 a.previous_state_hash)
    && all (λ cash. not (ltb_ℤ cash (pos 0)))
        (a.total_cash ∷ a.available_cash ∷ a.frozen_cash ∷ a.external_frozen_cash ∷ [])
    && is_sorted_set (map (λ p. p.instrument_id) a.positions)
    && all (λ p. p.as_of == a.as_of) a.positions
    && is_sorted_set (map (λ o. o.order_id) a.orders)
    && all (λ o. leb o.created_at a.as_of) a.orders
    && not (any (λ o. is_active o.status && leb o.expires_at a.as_of) a.orders)
    && is_sorted_set a.processed_batch_hashes
    && all is_sha256 a.processed_batch_hashes
    && all (λ o. text_in o.batch_hash a.processed_batch_hashes) a.orders
    && amount_beq a.frozen_cash (a.external_frozen_cash +ℤ active_cash a.orders)
    && amount_beq a.available_cash (a.total_cash -ℤ a.frozen_cash)
    && leb_ℤ a.frozen_cash a.total_cash
    && holds_have_positions a.positions a.orders
    && all (λ p. p.reserved_sell_quantity == sell_hold p.instrument_id a.orders) a.positions
    && (a.state_hash =s= stable_hash (account_payload a))

-- `PaperAccountState(...)`
unfoldable pub make_account :
    ⦃h : Hashing⦄ → PaperAccountState → Result PaperError PaperAccountState
make_account a = do
  raise_if
      (is_blank a.account_id
        || is_blank a.data_version
        || is_blank a.currency
        || is_blank a.source_snapshot_id)
      value_error
  let normal = record a {
    account_id = strip a.account_id;
    data_version = strip a.data_version;
    currency = strip a.currency;
    source_snapshot_id = strip a.source_snapshot_id;
  }
  raise_if (not (valid_account normal)) value_error
  ok normal

-- The positions, built again with what the orders hold of them.
unfoldable pub rebuild_positions :
    ⦃h : Hashing⦄ ⦃p : Platform⦄
    → ℕ
    → List PaperOrder
    → List PaperPosition
    → Result PaperError (List PaperPosition)
unfolding sell_hold
rebuild_positions as_of orders [] = ok []
rebuild_positions as_of orders (x ∷ xs) = do
  y ←
      build_position as_of x.instrument_id x.instrument_type x.lots
        (sell_hold x.instrument_id orders)
  ys ← rebuild_positions as_of orders xs
  ok (y ∷ ys)

abbrev pub order_leb : PaperOrder → PaperOrder → Bool
order_leb a b = text_leb a.order_id b.order_id

abbrev pub position_leb : PaperPosition → PaperPosition → Bool
position_leb a b = text_leb a.instrument_id b.instrument_id

-- `PaperAccountState.build`, of the fields of an account but the available and the frozen cash and
-- the hash.
unfoldable pub build_account :
    ⦃h : Hashing⦄ ⦃p : Platform⦄ → PaperAccountState → Result PaperError PaperAccountState
unfolding are_distinct rebuild_positions holds_have_positions active_cash make_account
build_account a =
    let orders = sort_by order_leb a.orders in
    let provided = sort_by position_leb a.positions in
    let batches = sort_by text_leb a.processed_batch_hashes in
    let frozen = a.external_frozen_cash +ℤ active_cash orders in
    do
      raise_if (not (are_distinct (map (λ o. o.order_id) orders))) value_error
      raise_if (not (are_distinct (map (λ p. p.instrument_id) provided))) value_error
      positions ← rebuild_positions a.as_of orders provided
      raise_if (not (holds_have_positions provided orders)) value_error
      raise_if (not (are_distinct batches)) value_error
      let whole = record a {
        orders = orders;
        positions = positions;
        processed_batch_hashes = batches;
        frozen_cash = frozen;
        available_cash = a.total_cash -ℤ frozen;
      }
      make_account (record whole { state_hash = stable_hash (account_payload whole) })
