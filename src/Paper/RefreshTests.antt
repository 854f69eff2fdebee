-- ===== src/Paper/RefreshTests.antt =====
-- A refresh of the account with one position from a later snapshot, alone and in a repository.
use quant_agent.Prelude.{
  ℕ, ◌<◌, ◌≡◌, refl, some, [], ◌∷◌, text_in, pos, ok, err, sort_by, sorted_set, is_blank, is_sha256,
  ◌+ℤ◌, ◌-ℤ◌,
}
use quant_agent.Dict.{get, put}
use quant_agent.Samples.{sample_hashing, even_digest, odd_digest, sample_hash}
use quant_agent.Runtime.States.{paper}
use quant_agent.Paper.Contracts.{stock, refresh_rejected, snapshot_differs}
use quant_agent.Paper.LotFacts.{hashed}
use quant_agent.Paper.Positions.{build_position, valid_position}
use quant_agent.Paper.Accounts.{PaperAccountState, build_account, valid_account}
use quant_agent.Paper.Transition.{name_key}
use quant_agent.Paper.Shares.{account_shares}
use quant_agent.Paper.AccountFacts.{IsAccount}
use quant_agent.Paper.Refresh.{
  fresh, CashSnapshot, PortfolioPositionSnapshot, AccountSnapshot, replay_account_refresh,
}
use quant_agent.Paper.RefreshFacts.{refresh_conserves}
use quant_agent.Paper.Repository.{
  PaperRepository, empty_repository, pair_key, store_refresh, refresh_account,
}
use quant_agent.Paper.Refreshes.{refresh_account-store_refresh}
use quant_agent.Paper.Tests.{platform, account, account-IsAccount, returned}

abbrev cash : ℕ → CashSnapshot
cash total = record {
  as_of = 6;
  currency = "CNY";
  total_cash = pos total;
  available_cash = pos total;
  frozen_cash = pos 0;
}

abbrev snapshot_position : PortfolioPositionSnapshot
snapshot_position = record {
  instrument_id = "600000";
  instrument_type = stock;
  total_quantity = 900;
  available_quantity = 400;
  frozen_quantity = 100;
  unsettled_quantity = 400;
  average_cost = pos 0;
  valuation_price = pos 2;
  price_observed_at = 6;
  price_available_at = 6;
  position_as_of = 6;
  price_data_version = "v";
  price_source_hash = even_digest;
  valuation_status = fresh;
  mark_policy_version = "m";
  mark_policy_hash = even_digest;
  market_value = pos 1800;
  cost_basis = pos 0;
  unrealized_pnl = pos 1800;
}

abbrev snapshot : AccountSnapshot
snapshot = record {
  schema_version = "1";
  snapshot_id = "s2";
  account_id = "a";
  runtime_mode = paper;
  as_of = 6;
  valuation_at = 6;
  data_version = "d2";
  currency = "CNY";
  cash = cash 1000;
  positions = snapshot_position ∷ [];
  position_market_value = pos 1800;
  total_equity = pos 2800;
  gross_exposure = pos 0;
  cash_weight = pos 0;
  previous_snapshot_hash = some even_digest;
  source_event_log_hash = some even_digest;
  content_hash = odd_digest;
}

abbrev refreshed : PaperAccountState
refreshed = returned account (replay_account_refresh account snapshot)

refresh_done : replay_account_refresh account snapshot ≡ ok refreshed
unfolding replay_account_refresh build_position sorted_set sort_by hashed is_blank valid_position
    is_sha256 sample_hash build_account valid_account ◌-ℤ◌ ◌+ℤ◌ get put name_key
refresh_done = refl

stale_lineage :
    replay_account_refresh account (record snapshot { previous_snapshot_hash = some odd_digest })
    ≡ err refresh_rejected
unfolding replay_account_refresh
stale_lineage = refl

other_cash :
    replay_account_refresh account (record snapshot { cash = cash 1001 }) ≡ err snapshot_differs
unfolding replay_account_refresh build_position sorted_set sort_by hashed is_blank valid_position
    is_sha256 sample_hash build_account valid_account ◌-ℤ◌ ◌+ℤ◌
other_cash = refl

abbrev repository : PaperRepository
repository = record empty_repository { accounts = ("a", account) ∷ [] }

refresh_stored_once :
    refresh_account repository account.state_hash snapshot refreshed
    ≡ ok (store_refresh repository snapshot refreshed, refreshed)
unfolding empty_repository get name_key
refresh_stored_once =
    refresh_account-store_refresh repository snapshot account refreshed refl refl refresh_done

refresh_conserves_example :
    IsAccount refreshed
    × (3 < refreshed.as_of)
    × (refreshed.total_cash ≡ pos 1000)
    × (account_shares "600000" refreshed.positions ≡ account_shares "600000" account.positions)
    × (text_in even_digest refreshed.processed_batch_hashes
        ≡ text_in even_digest account.processed_batch_hashes)
refresh_conserves_example =
    refresh_conserves account refreshed snapshot "600000" even_digest account-IsAccount refresh_done
