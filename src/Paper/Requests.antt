-- ===== src/Paper/Requests.antt =====
-- `PaperExecutionRequest`, `PaperMatchAttempt` and `PaperExecutionReceipt` of
-- packages/quant_agent/execution/paper/contracts.py. A field of which a constructor admits one value
-- only (schema version, order policy, environment, engine version) is no field here.
use quant_agent.Prelude.{
  ℕ, String, Bool, not, ◌&&◌, ◌||◌, Option, List, [], ◌∷◌, Result, ok, ◌>>◌, raise_if, ltb,
  is_sha256, is_blank, strip, ◌=s=◌, Decimal,
}
use quant_agent.Canonical.{Hashing, stable_hash, Json, flag, int, instant, text, obj}
use quant_agent.Paper.Contracts.{PaperError, value_error, PaperOrderStatus, fields_of}
use quant_agent.Paper.Orders.{PaperOrder}
use quant_agent.Paper.Fills.{PaperFill}
use quant_agent.Paper.Accounts.{PaperAccountState}

pub record PaperExecutionConfig : Type 0 where
  pub version : String
  pub allow_partial : Bool
  pub max_market_state_age_seconds : ℕ

-- `PaperExecutionConfig(...)`
unfoldable pub make_execution_config : PaperExecutionConfig → Result PaperError PaperExecutionConfig
make_execution_config c = do
  raise_if (is_blank c.version) value_error
  raise_if (not (ltb 0 c.max_market_state_age_seconds)) value_error
  ok (record c { version = strip c.version })

unfoldable pub config_hash : ⦃h : Hashing⦄ → PaperExecutionConfig → String
config_hash c = stable_hash (
    obj (
      fields_of (
        ("version", text c.version)
        ∷ ("allow_partial", flag c.allow_partial)
        ∷ ("order_policy", text "MARKET")
        ∷ ("max_market_state_age_seconds", int c.max_market_state_age_seconds)
        ∷ ("environment", text "paper")
        ∷ [])))

pub record PaperExecutionRequest : Type 0 where
  pub request_id : String
  pub idempotency_key : String
  pub account_id : String
  pub expected_account_state_hash : String
  pub expected_account_snapshot_hash : String
  pub batch_hash : String
  pub submitted_at : ℕ
  pub allow_partial : Bool
  pub max_market_state_age_seconds : ℕ
  pub config_version : String
  pub config_hash : String
  pub request_hash : String

unfoldable pub request_payload : PaperExecutionRequest → Json
request_payload q = obj (
    fields_of (
      ("schema_version", text "1")
      ∷ ("request_id", text q.request_id)
      ∷ ("idempotency_key", text q.idempotency_key)
      ∷ ("account_id", text q.account_id)
      ∷ ("expected_account_state_hash", text q.expected_account_state_hash)
      ∷ ("expected_account_snapshot_hash", text q.expected_account_snapshot_hash)
      ∷ ("batch_hash", text q.batch_hash)
      ∷ ("submitted_at", instant q.submitted_at)
      ∷ ("allow_partial", flag q.allow_partial)
      ∷ ("order_policy", text "MARKET")
      ∷ ("max_market_state_age_seconds", int q.max_market_state_age_seconds)
      ∷ ("environment", text "paper")
      ∷ ("engine_version", text "paper-execution-engine-v1")
      ∷ ("config_version", text q.config_version)
      ∷ ("config_hash", text q.config_hash)
      ∷ []))

-- The checks of `PaperExecutionRequest.__post_init__` behind the normalisation of the names.
unfoldable pub valid_request : ⦃h : Hashing⦄ → PaperExecutionRequest → Bool
unfolding config_hash request_payload
valid_request q =
    ltb 0 q.max_market_state_age_seconds
    && (is_sha256 q.expected_account_state_hash
        && is_sha256 q.expected_account_snapshot_hash
        && is_sha256 q.batch_hash
        && is_sha256 q.config_hash
        && is_sha256 q.request_hash)
    && (q.config_hash
        =s= config_hash (record {
          version = q.config_version;
          allow_partial = q.allow_partial;
          max_market_state_age_seconds = q.max_market_state_age_seconds;
        }))
    && (q.request_hash =s= stable_hash (request_payload q))

-- `PaperExecutionRequest(...)`
unfoldable pub make_request :
    ⦃h : Hashing⦄ → PaperExecutionRequest → Result PaperError PaperExecutionRequest
make_request q = do
  raise_if
      (is_blank q.request_id
        || is_blank q.idempotency_key
        || is_blank q.account_id
        || is_blank q.config_version)
      value_error
  let normal = record q {
    request_id = strip q.request_id;
    idempotency_key = strip q.idempotency_key;
    account_id = strip q.account_id;
    config_version = strip q.config_version;
  }
  raise_if (not (valid_request normal)) value_error
  ok normal

-- `PaperExecutionRequest.build`
unfoldable pub build_request :
    ⦃h : Hashing⦄
    → String
    → String
    → String
    → String
    → String
    → String
    → ℕ
    → PaperExecutionConfig
    → Result PaperError PaperExecutionRequest
unfolding make_request config_hash request_payload
build_request request_id idempotency_key account_id account_state_hash account_snapshot_hash
      batch_hash submitted_at c =
    let values : PaperExecutionRequest = record {
      request_id = request_id;
      idempotency_key = idempotency_key;
      account_id = account_id;
      expected_account_state_hash = account_state_hash;
      expected_account_snapshot_hash = account_snapshot_hash;
      batch_hash = batch_hash;
      submitted_at = submitted_at;
      allow_partial = c.allow_partial;
      max_market_state_age_seconds = c.max_market_state_age_seconds;
      config_version = c.version;
      config_hash = config_hash c;
      request_hash = "";
    } in
    make_request (record values { request_hash = stable_hash (request_payload values) })

pub data PaperNoFillReason : Type 0 where
  suspended side_blocked zero_capacity partial_fill_disabled limit_not_marketable :
      PaperNoFillReason
  insufficient_cash : PaperNoFillReason

pub record PaperMatchAttempt : Type 0 where
  pub attempt_id : String
  pub order_id : String
  pub attempted_at : ℕ
  pub status : PaperOrderStatus
  pub no_fill_reason : Option PaperNoFillReason
  pub requested_quantity : ℕ
  pub filled_quantity : ℕ
  pub unfilled_quantity : ℕ
  pub reference_price : Decimal
  pub execution_price : Option Decimal
  pub gross_amount : Decimal
  pub participation_rate : Decimal
  pub state_revision : String
  pub data_version : String
  pub state_hash : String
  pub market_rule_version : String
  pub market_rule_hash : String
  pub slippage_model_version : String
  pub slippage_model_hash : String
  pub attempt_hash : String

pub record PaperExecutionReceipt : Type 0 where
  pub receipt_id : String
  pub request_id : String
  pub request_hash : String
  pub idempotency_key : String
  pub batch_hash : String
  pub request_submitted_at : ℕ
  pub processed_at : ℕ
  pub account_before_hash : String
  pub account_after_hash : String
  pub event_log_before_hash : String
  pub event_log_hash : String
  pub orders : List PaperOrder
  pub attempts : List PaperMatchAttempt
  pub fills : List PaperFill
  pub account_before : PaperAccountState
  pub account_after : PaperAccountState
  pub receipt_hash : String
