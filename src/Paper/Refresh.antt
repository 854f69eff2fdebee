-- ===== src/Paper/Refresh.antt =====
-- `replay_account_refresh` of packages/quant_agent/execution/paper/transition.py, and the fields of
-- `AccountSnapshot` of packages/quant_agent/portfolio/snapshots/contracts.py. A snapshot here is one
-- that its constructor made: `AccountSnapshot.from_json(snapshot.to_json())` then gives it again. Its
-- quantities are whole ones, since others match no position.
use quant_agent.Prelude.{
  ℕ, String, Bool, false, not, ◌&&◌, Option, none, some, opt_beq, List, [], ◌∷◌, all, map, text_in,
  Result, ok, ◌>>=◌, ◌>>◌, raise_if, leb, ◌==◌, ◌=s=◌, Decimal,
}
use quant_agent.Canonical.{Hashing, stable_hash, Json, text, texts, obj}
use quant_agent.Dict.{Dict, get, put}
use quant_agent.Runtime.States.{RuntimeMode, paper, mode_beq}
use quant_agent.Paper.Contracts.{
  PaperError, refresh_rejected, snapshot_differs, TradableInstrumentType, type_beq, Platform,
  amount_beq, fields_of,
}
use quant_agent.Paper.Orders.{PaperOrder, expire_order}
use quant_agent.Paper.Positions.{PaperPosition, build_position}
use quant_agent.Paper.Accounts.{PaperAccountState, build_account}
use quant_agent.Paper.Transition.{name_key}

pub data ValuationStatus : Type 0 where
  fresh stale suspended : ValuationStatus

pub record CashSnapshot : Type 0 where
  pub as_of : ℕ
  pub currency : String
  pub total_cash : Decimal
  pub available_cash : Decimal
  pub frozen_cash : Decimal

pub record PortfolioPositionSnapshot : Type 0 where
  pub instrument_id : String
  pub instrument_type : TradableInstrumentType
  pub total_quantity : ℕ
  pub available_quantity : ℕ
  pub frozen_quantity : ℕ
  pub unsettled_quantity : ℕ
  pub average_cost : Decimal
  pub valuation_price : Decimal
  pub price_observed_at : ℕ
  pub price_available_at : ℕ
  pub position_as_of : ℕ
  pub price_data_version : String
  pub price_source_hash : String
  pub valuation_status : ValuationStatus
  pub mark_policy_version : String
  pub mark_policy_hash : String
  pub market_value : Decimal
  pub cost_basis : Decimal
  pub unrealized_pnl : Decimal

pub record AccountSnapshot : Type 0 where
  pub schema_version : String
  pub snapshot_id : String
  pub account_id : String
  pub runtime_mode : RuntimeMode
  pub as_of : ℕ
  pub valuation_at : ℕ
  pub data_version : String
  pub currency : String
  pub cash : CashSnapshot
  pub positions : List PortfolioPositionSnapshot
  pub position_market_value : Decimal
  pub total_equity : Decimal
  pub gross_exposure : Decimal
  pub cash_weight : Decimal
  pub previous_snapshot_hash : Option String
  pub source_event_log_hash : Option String
  pub content_hash : String

-- The checks of `replay_account_refresh` in front of the refresh.
unfoldable pub check_refresh : PaperAccountState → AccountSnapshot → Result PaperError (Unit {0})
unfolding mode_beq
check_refresh a s = do
  raise_if (not (mode_beq s.runtime_mode paper)) refresh_rejected
  raise_if (not (s.account_id =s= a.account_id)) refresh_rejected
  raise_if (leb s.as_of a.as_of) refresh_rejected
  raise_if (not (s.currency =s= a.currency)) refresh_rejected
  raise_if (not (opt_beq s.previous_snapshot_hash (some a.source_snapshot_hash))) refresh_rejected
  raise_if (not (opt_beq s.source_event_log_hash (some a.event_log_hash))) refresh_rejected

-- The generators of `refreshed_orders` and of `positions`.
unfoldable pub refresh_orders :
    ⦃h : Hashing⦄ → ℕ → List PaperOrder → Result PaperError (List PaperOrder)
refresh_orders as_of [] = ok []
refresh_orders as_of (o ∷ os) = do
  refreshed ← expire_order o as_of
  rest ← refresh_orders as_of os
  ok (refreshed ∷ rest)

unfoldable pub refresh_positions :
    ⦃h : Hashing⦄ ⦃p : Platform⦄ → ℕ → List PaperPosition → Result PaperError (List PaperPosition)
refresh_positions as_of [] = ok []
refresh_positions as_of (x ∷ xs) = do
  refreshed ← build_position as_of x.instrument_id x.instrument_type x.lots 0
  rest ← refresh_positions as_of xs
  ok (refreshed ∷ rest)

-- What `refresh_event_log_hash` hashes.
unfoldable pub refresh_event : PaperAccountState → AccountSnapshot → List PaperOrder → Json
refresh_event a s orders = obj (
    fields_of (
      ("event", text "PAPER_ACCOUNT_REFRESH")
      ∷ ("account_before_hash", text a.state_hash)
      ∷ ("event_log_before_hash", text a.event_log_hash)
      ∷ ("source_snapshot_hash", text s.content_hash)
      ∷ ("order_hashes", texts (map (λ (o : PaperOrder). o.order_hash) orders))
      ∷ []))

unfoldable pub account_refreshed :
    ⦃h : Hashing⦄
    → PaperAccountState
    → AccountSnapshot
    → List PaperOrder
    → List PaperPosition
    → PaperAccountState
unfolding refresh_event
account_refreshed a s orders positions = record a {
  as_of = s.as_of;
  data_version = s.data_version;
  source_snapshot_id = s.snapshot_id;
  source_snapshot_hash = s.content_hash;
  source_snapshot_as_of = s.as_of;
  positions = positions;
  orders = orders;
  previous_state_hash = some a.state_hash;
  event_log_hash = stable_hash (refresh_event a s orders);
}

-- `snapshot_positions`
unfoldable pub snapshot_positions :
    Dict String PortfolioPositionSnapshot
    → List PortfolioPositionSnapshot
    → Dict String PortfolioPositionSnapshot
snapshot_positions known [] = known
snapshot_positions known (x ∷ xs) = snapshot_positions (put x.instrument_id x known) xs

unfoldable pub position_matches : PaperPosition → Option PortfolioPositionSnapshot → Bool
position_matches x none = false
position_matches x (some source) =
    type_beq source.instrument_type x.instrument_type
    && source.total_quantity == x.total_quantity
    && source.available_quantity == x.available_quantity
    && source.frozen_quantity == x.frozen_quantity
    && source.unsettled_quantity == x.unsettled_quantity
    && amount_beq source.cost_basis x.cost_basis
    && amount_beq source.average_cost x.average_cost

abbrev same_names : List String → List String → Bool
same_names xs ys = all (λ x. text_in x ys) xs && all (λ y. text_in y xs) ys

-- `_validate_refresh_snapshot`
unfoldable pub validate_refresh_snapshot :
    AccountSnapshot → PaperAccountState → Result PaperError (Unit {0})
unfolding snapshot_positions position_matches
validate_refresh_snapshot s refreshed = do
  raise_if
      (not (
        amount_beq s.cash.total_cash refreshed.total_cash
        && amount_beq s.cash.available_cash refreshed.available_cash
        && amount_beq s.cash.frozen_cash refreshed.frozen_cash))
      snapshot_differs
  raise_if
      (not (
        same_names (map (λ (x : PortfolioPositionSnapshot). x.instrument_id) s.positions)
          (map (λ (x : PaperPosition). x.instrument_id) refreshed.positions)))
      snapshot_differs
  raise_if
      (not (
        all (λ x. position_matches x (get x.instrument_id (snapshot_positions [] s.positions)))
          refreshed.positions))
      snapshot_differs

-- `replay_account_refresh`
unfoldable pub replay_account_refresh :
    ⦃h : Hashing⦄ ⦃p : Platform⦄
    → PaperAccountState
    → AccountSnapshot
    → Result PaperError PaperAccountState
unfolding check_refresh refresh_orders refresh_positions account_refreshed validate_refresh_snapshot
replay_account_refresh a s = do
  check_refresh a s
  orders ← refresh_orders s.as_of a.orders
  positions ← refresh_positions s.as_of a.positions
  refreshed ← build_account (account_refreshed a s orders positions)
  validate_refresh_snapshot s refreshed
  ok refreshed
