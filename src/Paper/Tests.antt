-- ===== src/Paper/Tests.antt =====
-- An account with one position, a replay of a sale, and the theorems at them.
use quant_agent.Prelude.{
  ℕ, ◌+◌, ◌≡◌, refl, String, true, false, none, some, List, [], ◌∷◌, All, total, pos, sort_by,
  IsOrdered, map, leb, ltb, ◌&&◌, ◌⊎◌, ◌+ℤ◌, ◌-ℤ◌, sorted_set, strip, is_blank, is_sha256, Result,
  ok, err, if◌then◌else◌,
}
use quant_agent.Canonical.{stable_hash}
use quant_agent.Dict.{get, put}
use quant_agent.Samples.{sample_hashing, even_digest, odd_digest, sample_hash}
use quant_agent.Paper.Contracts.{
  stock, sell, accepted, filled, expired, is_active, Platform, PaperPositionLot, sale_uncovered,
  make_lot, build_lot, valid_lot, batch_processed, moved_backwards,
}
use quant_agent.Paper.Lots.{consume_sell_lots, lot_leb, free, sorted_lots}
use quant_agent.Paper.LotFacts.{IsLot, hashed}
use quant_agent.Paper.Sales.{sold}
use quant_agent.Paper.SaleFacts.{sale_exact, sale_takes_free_shares}
use quant_agent.Paper.Fifo.{shares, first_in_first_out, sale_is_first_in_first_out}
use quant_agent.Paper.Orders.{
  PaperOrder, order_payload, unnamed, stripped, valid_terms, valid_status, valid_holds, valid_order,
  make_order, expire_order,
}
use quant_agent.Paper.Expiry.{IsOrder, expiry_releases_holds}
use quant_agent.Paper.Fills.{PaperFill, fill_payload, valid_fill, make_fill}
use quant_agent.Paper.Positions.{
  PaperPosition, make_position, valid_position, build_position, position_of, with_position_hash,
}
use quant_agent.Paper.Accounts.{PaperAccountState, account_payload, valid_account, make_account}
use quant_agent.Paper.Transition.{name_key, trade_lots, Execution, replay_execution_transition}
use quant_agent.Paper.Buckets.{position_buckets}
use quant_agent.Paper.Trades.{cash_sum}
use quant_agent.Paper.Shares.{account_shares}
use quant_agent.Paper.AccountFacts.{IsFill, IsAccount}
use quant_agent.Paper.Replay.{replay_conserves}
use quant_agent.Paper.Once.{itself, batch_replays_once}

-- Costs in proportion, rounded down; a day of 10 units of time.
instance abbrev pub platform : Platform
platform = record {
  prorate = λ cost part whole. pos 0;
  quotient = λ cost whole. pos 0;
  cost_sum = λ costs. pos 0;
  local_day = λ t. t;
  prorate_sign = λ cost part whole h. refl;
}

abbrev lot : String → ℕ → ℕ → ℕ → PaperPositionLot
lot name quantity day frozen = hashed (record {
  lot_id = name;
  instrument_id = "600000";
  instrument_type = stock;
  quantity = quantity;
  cost_basis = pos 0;
  acquired_on = 1;
  sellable_on = day;
  externally_frozen = frozen;
  source_id = "s";
  lot_hash = "";
})

abbrev lots : List PaperPositionLot
lots = lot "b" 300 2 0 ∷ lot "a" 200 2 100 ∷ lot "c" 400 9 0 ∷ []

lots-IsLot : All IsLot lots
unfolding make_lot valid_lot hashed is_blank is_sha256 sample_hash
lots-IsLot = (refl, (refl, (refl, tt)))

abbrev pub returned : {E A : Type 0} → A → Result E A → A
returned default (ok value) = value
returned default (err e) = default

-- 350 of the 400 shares that are free on day 5.
abbrev rest : List PaperPositionLot
rest = returned [] (consume_sell_lots lots 350 5)

sale_done : consume_sell_lots lots 350 5 ≡ ok rest
unfolding consume_sell_lots free lot_leb sort_by make_lot build_lot valid_lot hashed is_blank
    is_sha256 sample_hash
sale_done = refl

uncovered : consume_sell_lots lots 401 5 ≡ err sale_uncovered
unfolding consume_sell_lots free lot_leb sort_by make_lot build_lot valid_lot hashed is_blank
    is_sha256 sample_hash
uncovered = refl

sale_exact_example : consume_sell_lots lots 350 5 ≡ (
    if leb 350 (total (free 5) lots)
    then ok (sold 5 350 (sorted_lots lots))
    else err sale_uncovered)
sale_exact_example = sale_exact lots 350 5 lots-IsLot

sale_takes_free_shares_example :
    All IsLot rest
    × (total (λ l. l.quantity) rest + 350 ≡ total (λ l. l.quantity) lots)
    × (total (free 5) rest + 350 ≡ total (free 5) lots)
    × (total (λ l. l.externally_frozen) rest ≡ total (λ l. l.externally_frozen) lots)
sale_takes_free_shares_example = sale_takes_free_shares lots rest 350 5 lots-IsLot sale_done

sale_is_first_in_first_out_example :
    IsOrdered lot_leb (sorted_lots lots)
    × (map shares rest ≡ first_in_first_out 5 350 0 (sorted_lots lots))
sale_is_first_in_first_out_example = sale_is_first_in_first_out lots rest 350 5 lots-IsLot sale_done

abbrev order_content : PaperOrder
order_content = record {
  order_id = "o1";
  batch_hash = even_digest;
  line_hash = even_digest;
  decision_id = "d";
  instrument_id = "600000";
  instrument_type = stock;
  side = sell;
  quantity = 350;
  filled_quantity = 0;
  remaining_quantity = 350;
  is_full_liquidation = false;
  status = accepted;
  created_at = 4;
  expires_at = 8;
  cash_reserved = pos 0;
  sell_reserved_quantity = 350;
  market_rule_version = "m";
  market_rule_hash = even_digest;
  fee_rule_version = "f";
  fee_rule_hash = even_digest;
  slippage_model_version = "s";
  slippage_model_hash = even_digest;
  last_attempt_id = none;
  order_hash = "";
}

abbrev with_order_hash : PaperOrder → PaperOrder
with_order_hash o = record o { order_hash = stable_hash (order_payload o) }

abbrev pub open_order : PaperOrder
open_order = with_order_hash order_content

open_order-IsOrder : IsOrder open_order
unfolding make_order valid_order valid_terms valid_status valid_holds unnamed stripped is_active
    is_blank is_sha256 sample_hash
open_order-IsOrder = refl

expiry_releases_holds_example :
    (after : PaperOrder) × (expire_order open_order 9 ≡ ok after)
    × IsOrder after
    × (after.quantity ≡ 350)
    × (after.filled_quantity ≡ 0)
    × (((is_active accepted && leb 8 9 ≡ false) × (after ≡ open_order))
        ⊎ ((is_active accepted && leb 8 9 ≡ true)
            × (after.status ≡ expired)
            × (after.cash_reserved ≡ pos 0)
            × (after.sell_reserved_quantity ≡ 0)))
expiry_releases_holds_example = expiry_releases_holds open_order 9 open_order-IsOrder

abbrev position : PaperPosition
position =
    returned (with_position_hash (position_of 3 "600000" stock lots 0))
      (build_position 3 "600000" stock lots 0)

position_built : build_position 3 "600000" stock lots 0 ≡ ok position
unfolding build_position is_blank sorted_set sort_by hashed valid_position is_sha256 sample_hash
position_built = refl

position_buckets_example :
    (position.total_quantity
      ≡ position.available_quantity + position.frozen_quantity + position.unsettled_quantity)
    × (position.total_quantity ≡ 900)
    × (consume_sell_lots position.lots 400 3 ≡ (
        if leb 400 (position.available_quantity + 0)
        then ok (sold 3 400 (sorted_lots position.lots))
        else err sale_uncovered))
unfolding hashed
position_buckets_example =
    position_buckets 3 "600000" stock lots 0 400 position lots-IsLot position_built

abbrev account_content : PaperAccountState
account_content = record {
  account_id = "a";
  as_of = 3;
  data_version = "d1";
  currency = "CNY";
  source_snapshot_id = "s";
  source_snapshot_hash = even_digest;
  source_snapshot_as_of = 3;
  total_cash = pos 1000;
  available_cash = pos 1000;
  frozen_cash = pos 0;
  external_frozen_cash = pos 0;
  positions = position ∷ [];
  orders = [];
  processed_batch_hashes = [];
  previous_state_hash = none;
  event_log_hash = even_digest;
  state_hash = "";
}

abbrev pub account : PaperAccountState
account = record account_content { state_hash = stable_hash (account_payload account_content) }

abbrev fill_content : PaperFill
fill_content = record {
  fill_id = "f1";
  order_id = "o1";
  attempt_id = "t1";
  instrument_id = "600000";
  instrument_type = stock;
  filled_at = 5;
  side = sell;
  quantity = 350;
  price = pos 2;
  gross_amount = pos 700;
  commission = pos 5;
  stamp_duty = pos 1;
  transfer_fee = pos 0;
  other_fee = pos 0;
  total_fee = pos 6;
  cash_change = pos 694;
  sellable_on = none;
  fee_rule_version = "f";
  fee_rule_hash = even_digest;
  fill_hash = "";
}

abbrev pub fill : PaperFill
fill = record fill_content { fill_hash = stable_hash (fill_payload fill_content) }

abbrev pub filled_order : PaperOrder
filled_order = with_order_hash (record order_content {
  filled_quantity = 350;
  remaining_quantity = 0;
  status = filled;
  sell_reserved_quantity = 0;
  last_attempt_id = some "t1";
})

abbrev pub execution : Execution
execution = record {
  batch_hash = even_digest;
  processed_at = 5;
  event_log_hash = odd_digest;
  orders = filled_order ∷ [];
  fills = fill ∷ [];
}

abbrev pub after : PaperAccountState
after = returned account (replay_execution_transition account execution)

pub account-IsAccount : IsAccount account
unfolding replay_execution_transition sort_by get put name_key ◌+ℤ◌ ◌-ℤ◌ consume_sell_lots free
    lot_leb trade_lots build_position make_position make_account sorted_set hashed is_blank strip
    valid_position is_sha256 sample_hash build_lot make_lot valid_lot valid_account make_fill
    valid_fill unnamed is_active order_payload
account-IsAccount = (refl, ((refl, (refl, (refl, (refl, tt)))), tt))

fill-IsFill : IsFill fill
unfolding replay_execution_transition sort_by get put name_key ◌+ℤ◌ ◌-ℤ◌ consume_sell_lots free
    lot_leb trade_lots build_position make_position make_account sorted_set hashed is_blank strip
    valid_position is_sha256 sample_hash build_lot make_lot valid_lot valid_account make_fill
    valid_fill unnamed is_active order_payload
fill-IsFill = refl

pub replay_done : replay_execution_transition account execution ≡ ok after
unfolding replay_execution_transition sort_by get put name_key ◌+ℤ◌ ◌-ℤ◌ consume_sell_lots free
    lot_leb trade_lots build_position make_position make_account sorted_set hashed is_blank strip
    valid_position is_sha256 sample_hash build_lot make_lot valid_lot valid_account make_fill
    valid_fill unnamed is_active order_payload
replay_done = refl

replay_conserves_example :
    IsAccount after
    × (after.total_cash ≡ pos 1000 +ℤ cash_sum (fill ∷ []))
    × (account_shares "600000" after.positions + 350 ≡ account_shares "600000" (position ∷ []) + 0)
replay_conserves_example =
    replay_conserves account after execution "600000" account-IsAccount (fill-IsFill, tt)
      replay_done

batch_replays_once_example :
    replay_execution_transition after execution
    ≡ err (if ltb 5 after.as_of then moved_backwards else batch_processed)
batch_replays_once_example =
    batch_replays_once account after after execution execution replay_done itself refl
