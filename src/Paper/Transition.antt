-- ===== src/Paper/Transition.antt =====
-- `replay_execution_transition` of packages/quant_agent/execution/paper/transition.py.
use quant_agent.Prelude.{
  ℕ, String, Bool, true, false, not, ◌&&◌, ◌≡◌, Option, none, some, List, [], ◌∷◌, ◌++◌, all, any,
  is_nil, sort_by, text_leb, text_in, Result, ok, err, ◌>>=◌, ◌>>◌, raise_if, leb, ltb, ◌=s=◌,
  Decimal, pos, ltb_ℤ, ◌+ℤ◌, eq_iff,
}
use Prim.Native.Nat.{compare, Ordering}
use Prim.Native.String.{◌++◌ as append_text}
use text.Mathlib.TextPositions.{eq_refl}
use quant_agent.Canonical.{Hashing}
use quant_agent.Dict.{Dict, Key, get, put}
use quant_agent.Paper.Contracts.{
  PaperError, moved_backwards, batch_processed, no_orders, foreign_order, order_replaced,
  refresh_required, fill_without_order, fill_differs, negative_cash, buy_unsettled, types_conflict,
  type_beq, Side, buy, sell, side_beq, is_active, Platform, PaperPositionLot, build_lot,
}
use quant_agent.Paper.Lots.{consume_sell_lots}
use quant_agent.Paper.Orders.{PaperOrder}
use quant_agent.Paper.Fills.{PaperFill}
use quant_agent.Paper.Positions.{PaperPosition, build_position}
use quant_agent.Paper.Accounts.{PaperAccountState, build_account}

pub text_equal : (a b : String) → (a =s= b) ≡ true → a ≡ b
text_equal a b h = (eq_iff a b).0 h

-- Names as keys.
instance unfoldable pub name_key : Key String
name_key = record { beq = ◌=s=◌; beq_refl = eq_refl; beq-eq = text_equal }

-- `{order.order_id: order for order in orders}`
unfoldable pub orders_by_id : Dict String PaperOrder → List PaperOrder → Dict String PaperOrder
orders_by_id found [] = found
orders_by_id found (o ∷ os) = orders_by_id (put o.order_id o found) os

-- `{position.instrument_id: list(position.lots) for position in positions}`
unfoldable pub position_lots :
    Dict String (List PaperPositionLot) → List PaperPosition → Dict String (List PaperPositionLot)
position_lots found [] = found
position_lots found (p ∷ ps) = position_lots (put p.instrument_id p.lots found) ps

-- `(filled_at, fill_id)` is compared as a tuple.
unfoldable pub fill_leb : PaperFill → PaperFill → Bool
fill_leb a b = elim (compare a.filled_at b.filled_at) [
  | Ordering.lt ↦ true
  | Ordering.eq ↦ text_leb a.fill_id b.fill_id
  | Ordering.gt ↦ false
]

-- `lots_by_instrument.get(instrument_id, [])`
abbrev pub lots_of : String → Dict String (List PaperPositionLot) → List PaperPositionLot
lots_of id lots = elim (get id lots) [ none ↦ [] | some ls ↦ ls ]

-- The lot that a purchase adds, before its checks.
unfoldable pub bought_lot : ⦃p : Platform⦄ → PaperFill → ℕ → PaperPositionLot
bought_lot ⦃p⦄ f sellable_on = record {
  lot_id = append_text "paper-lot:" f.fill_hash;
  instrument_id = f.instrument_id;
  instrument_type = f.instrument_type;
  quantity = f.quantity;
  cost_basis = f.gross_amount +ℤ f.total_fee;
  acquired_on = p.local_day f.filled_at;
  sellable_on = sellable_on;
  externally_frozen = 0;
  source_id = f.fill_id;
  lot_hash = "";
}

-- The lots behind a purchase with such a first day of sale.
unfoldable pub bought_lots :
    ⦃h : Hashing⦄ ⦃p : Platform⦄
    → PaperFill
    → Option ℕ
    → List PaperPositionLot
    → Result PaperError (List PaperPositionLot)
unfolding bought_lot
bought_lots f none lots = err buy_unsettled
bought_lots f (some d) lots = do lot ← build_lot (bought_lot f d); ok (lots ++ lot ∷ [])

-- The lots of the fill's instrument behind a fill of a side.
unfoldable pub trade_lots :
    ⦃h : Hashing⦄ ⦃p : Platform⦄
    → Side
    → PaperFill
    → List PaperPositionLot
    → Result PaperError (List PaperPositionLot)
unfolding bought_lots
trade_lots buy f lots = bought_lots f f.sellable_on lots
trade_lots ⦃h⦄ ⦃p⦄ sell f lots = consume_sell_lots lots f.quantity (p.local_day f.filled_at)

-- The loop's state: the cash and the lots.
pub record Ledger : Type 0 where
  pub total_cash : Decimal
  pub lots_by_instrument : Dict String (List PaperPositionLot)

unfoldable pub matches_order : PaperFill → Option PaperOrder → Result PaperError (Unit {0})
matches_order f none = err fill_without_order
matches_order f (some o) =
    raise_if
      (not (
        (f.instrument_id =s= o.instrument_id)
        && type_beq f.instrument_type o.instrument_type
        && side_beq f.side o.side))
      fill_differs

-- A round of the loop.
unfoldable pub apply_fill :
    ⦃h : Hashing⦄ ⦃p : Platform⦄
    → Dict String PaperOrder
    → Ledger
    → PaperFill
    → Result PaperError Ledger
unfolding matches_order trade_lots
apply_fill orders s f = do
  matches_order f (get f.order_id orders)
  let cash = s.total_cash +ℤ f.cash_change
  raise_if (ltb_ℤ cash (pos 0)) negative_cash
  lots ← trade_lots f.side f (lots_of f.instrument_id s.lots_by_instrument)
  ok (record {
    total_cash = cash;
    lots_by_instrument = put f.instrument_id lots s.lots_by_instrument;
  })

unfoldable pub apply_fills :
    ⦃h : Hashing⦄ ⦃p : Platform⦄
    → Dict String PaperOrder
    → Ledger
    → List PaperFill
    → Result PaperError Ledger
unfolding apply_fill
apply_fills orders s [] = ok s
apply_fills orders s (f ∷ fs) = do next ← apply_fill orders s f; apply_fills orders next fs

abbrev pub entry_leb : String × List PaperPositionLot → String × List PaperPositionLot → Bool
entry_leb (a, _) (b, _) = text_leb a b

-- The loop of `_positions_from_lots`, over the sorted entries.
unfoldable pub build_positions :
    ⦃h : Hashing⦄ ⦃p : Platform⦄
    → ℕ
    → Dict String (List PaperPositionLot)
    → Result PaperError (List PaperPosition)
build_positions as_of [] = ok []
build_positions as_of ((id, []) ∷ rest) = build_positions as_of rest
build_positions as_of ((id, l ∷ ls) ∷ rest) = do
  raise_if (not (all (λ k. type_beq k.instrument_type l.instrument_type) ls)) types_conflict
  p ← build_position as_of id l.instrument_type (l ∷ ls) 0
  ps ← build_positions as_of rest
  ok (p ∷ ps)

-- `_positions_from_lots`
unfoldable pub positions_from_lots :
    ⦃h : Hashing⦄ ⦃p : Platform⦄
    → Dict String (List PaperPositionLot)
    → ℕ
    → Result PaperError (List PaperPosition)
unfolding build_positions
positions_from_lots lots as_of = build_positions as_of (sort_by entry_leb lots)

-- The inputs of a replay, but the account.
pub record Execution : Type 0 where
  pub batch_hash : String
  pub processed_at : ℕ
  pub event_log_hash : String
  pub orders : List PaperOrder
  pub fills : List PaperFill

-- The checks in front of the loop.
unfoldable pub check_execution : PaperAccountState → Execution → Result PaperError (Unit {0})
unfolding is_active
check_execution a x = do
  raise_if (ltb x.processed_at a.as_of) moved_backwards
  raise_if (text_in x.batch_hash a.processed_batch_hashes) batch_processed
  raise_if (is_nil x.orders) no_orders
  raise_if (any (λ o. not (o.batch_hash =s= x.batch_hash)) x.orders) foreign_order
  raise_if (any (λ o. any (λ prior. o.order_id =s= prior.order_id) a.orders) x.orders)
      order_replaced
  raise_if (any (λ o. is_active o.status && leb o.expires_at x.processed_at) a.orders)
      refresh_required

-- The account that a replay builds, before its checks.
unfoldable pub account_after :
    PaperAccountState → Execution → Ledger → List PaperPosition → PaperAccountState
account_after a x s positions = record a {
  as_of = x.processed_at;
  total_cash = s.total_cash;
  positions = positions;
  orders = a.orders ++ x.orders;
  processed_batch_hashes = a.processed_batch_hashes ++ x.batch_hash ∷ [];
  previous_state_hash = some a.state_hash;
  event_log_hash = x.event_log_hash;
}

-- `replay_execution_transition`
unfoldable pub replay_execution_transition :
    ⦃h : Hashing⦄ ⦃p : Platform⦄
    → PaperAccountState
    → Execution
    → Result PaperError PaperAccountState
unfolding orders_by_id position_lots fill_leb apply_fills positions_from_lots check_execution
    account_after build_account
replay_execution_transition a x = do
  check_execution a x
  s ←
      apply_fills (orders_by_id [] x.orders)
        (record { total_cash = a.total_cash; lots_by_instrument = position_lots [] a.positions })
        (sort_by fill_leb x.fills)
  positions ← positions_from_lots s.lots_by_instrument x.processed_at
  build_account (account_after a x s positions)
