-- ===== src/Paper/RepositoryTests.antt =====
-- A repository with one account, a commit of a sale, and the theorems at them.
use quant_agent.Prelude.{
  ◌≡◌, refl, true, none, some, [], ◌∷◌, ◌⊎◌, sort_by, ◌+ℤ◌, ◌-ℤ◌, sorted_set, is_blank, strip,
  is_sha256, ok,
}
use quant_agent.Canonical.{stable_hash}
use quant_agent.Dict.{get, put}
use quant_agent.Samples.{sample_hashing, even_digest, odd_digest, sample_hash}
use quant_agent.Paper.Contracts.{build_lot, make_lot, valid_lot, is_active}
use quant_agent.Paper.Lots.{consume_sell_lots, free, lot_leb}
use quant_agent.Paper.LotFacts.{hashed}
use quant_agent.Paper.Orders.{unnamed, order_payload}
use quant_agent.Paper.Fills.{make_fill, valid_fill}
use quant_agent.Paper.Positions.{build_position, make_position, valid_position}
use quant_agent.Paper.Accounts.{PaperAccountState, account_payload, make_account, valid_account}
use quant_agent.Paper.Transition.{name_key, trade_lots, replay_execution_transition}
use quant_agent.Paper.Requests.{
  PaperExecutionConfig, config_hash, PaperExecutionRequest, request_payload, valid_request,
  make_request, PaperExecutionReceipt,
}
use quant_agent.Paper.RequestFacts.{make_request_idem}
use quant_agent.Paper.Repository.{
  PaperRepository, empty_repository, pair_key, store, extends_current, answer_key, answer_batch,
  or_else, commit_execution, execution_of,
}
use quant_agent.Paper.Commits.{Answered, Committed, commit_execution-inv, commit_execution-store}
use quant_agent.Paper.Histories.{Later, unchanged, executed}
use quant_agent.Paper.Succession.{Succeeds, accounts_follow}
use quant_agent.Paper.Idempotence.{commit_repeats, batch_consumed_once}
use quant_agent.Paper.Tests.{platform, account, after, execution, replay_done}

abbrev config : PaperExecutionConfig
config = record { version = "v"; allow_partial = true; max_market_state_age_seconds = 60 }

abbrev request_content : PaperExecutionRequest
request_content = record {
  request_id = "r1";
  idempotency_key = "k1";
  account_id = "a";
  expected_account_state_hash = account.state_hash;
  expected_account_snapshot_hash = even_digest;
  batch_hash = even_digest;
  submitted_at = 4;
  allow_partial = true;
  max_market_state_age_seconds = 60;
  config_version = "v";
  config_hash = config_hash config;
  request_hash = "";
}

abbrev request : PaperExecutionRequest
request = record request_content { request_hash = stable_hash (request_payload request_content) }

abbrev receipt : PaperExecutionReceipt
receipt = record {
  receipt_id = "x1";
  request_id = "r1";
  request_hash = request.request_hash;
  idempotency_key = "k1";
  batch_hash = even_digest;
  request_submitted_at = 4;
  processed_at = 5;
  account_before_hash = account.state_hash;
  account_after_hash = after.state_hash;
  event_log_before_hash = even_digest;
  event_log_hash = odd_digest;
  orders = execution.orders;
  attempts = [];
  fills = execution.fills;
  account_before = account;
  account_after = after;
  receipt_hash = even_digest;
}

abbrev repository : PaperRepository
repository = record empty_repository { accounts = ("a", account) ∷ [] }

abbrev committed : PaperRepository
committed = store repository request after receipt

request_built : make_request request ≡ ok request
unfolding make_request valid_request is_blank is_sha256 strip config_hash request_payload
    sample_hash account_payload build_position sorted_set sort_by hashed valid_position
request_built = refl

make_request_idem_example :
    (make_request request ≡ ok request)
    × (request.request_hash ≡ stable_hash (request_payload request))
    × (request.config_hash ≡ config_hash config)
make_request_idem_example = make_request_idem request request request_built

extends : extends_current account.state_hash account request after receipt ≡ true
unfolding extends_current replay_execution_transition sort_by get put name_key ◌+ℤ◌ ◌-ℤ◌
    consume_sell_lots free lot_leb trade_lots build_position make_position make_account sorted_set
    hashed is_blank strip valid_position is_sha256 sample_hash build_lot make_lot valid_lot
    valid_account make_fill valid_fill unnamed is_active order_payload request_payload config_hash
extends = refl

committed_here :
    commit_execution repository account.state_hash request after receipt ≡ ok (committed, receipt)
unfolding empty_repository get name_key execution_of
committed_here =
    commit_execution-store repository request account after receipt refl refl refl extends
      replay_done refl refl

account_opened : get "a" repository.accounts ≡ some account
unfolding empty_repository get name_key
account_opened = refl

no_batch : get ("a", even_digest) repository.receipts_by_batch ≡ none
unfolding empty_repository get
no_batch = refl

commit_execution-inv_example :
    Answered repository committed request receipt
    ⊎ Committed repository committed account.state_hash request after receipt receipt
commit_execution-inv_example =
    commit_execution-inv repository committed account.state_hash request after receipt receipt
      committed_here

later : Later repository committed
later = executed unchanged account.state_hash request after receipt receipt committed_here

accounts_follow_example :
    (b : PaperAccountState) × (get "a" committed.accounts ≡ some b) × Succeeds account b
accounts_follow_example = accounts_follow "a" account account_opened later

commit_repeats_example :
    commit_execution committed "stale" request account receipt ≡ ok (committed, receipt)
commit_repeats_example =
    commit_repeats repository committed committed account.state_hash "stale" request after account
      receipt receipt receipt no_batch committed_here unchanged

no_key : get ("a", "k1") repository.receipts_by_key ≡ none
unfolding empty_repository get
no_key = refl

-- The same batch under another key.
abbrev redelivery : PaperExecutionRequest
redelivery = record request { idempotency_key = "k2" }

redelivered :
    commit_execution committed "stale" redelivery account receipt ≡ ok (committed, receipt)
unfolding commit_execution answer_key answer_batch or_else store empty_repository get put pair_key
    request_payload config_hash account_payload build_position sorted_set sort_by hashed
    valid_position is_blank is_sha256 strip sample_hash
redelivered = refl

batch_consumed_once_example : committed ≡ committed
batch_consumed_once_example =
    batch_consumed_once repository committed committed committed account.state_hash "stale" request
      redelivery after account receipt receipt receipt receipt no_key committed_here unchanged refl
      refl redelivered
