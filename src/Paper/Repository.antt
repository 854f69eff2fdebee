-- ===== src/Paper/Repository.antt =====
-- `InMemoryPaperRepository` of packages/quant_agent/execution/paper/repository.py. Its lock is the
-- atomicity of a method; every method writes behind its last check, so that a raise writes nothing.
use quant_agent.Prelude.{
  String, Bool, true, not, ◌&&◌, ◌≡◌, Option, none, some, opt_beq, [], Result, ok, err, ◌>>=◌, ◌>>◌,
  raise_if, ltb, ◌==◌, ◌=s=◌, if◌then◌else◌, eq_iff, beq_refl, arith,
}
use quant_agent.Canonical.{Hashing}
use quant_agent.Dict.{Dict, Key, get, put}
use quant_agent.Paper.Contracts.{PaperError, Platform}
use quant_agent.Paper.Accounts.{PaperAccountState}
use quant_agent.Paper.Equality.{account_beq}
use quant_agent.Paper.Requests.{PaperExecutionRequest, PaperExecutionReceipt}
use quant_agent.Paper.Refresh.{AccountSnapshot, replay_account_refresh}
use quant_agent.Paper.Transition.{name_key, Execution, replay_execution_transition}

pub data PaperRepositoryError : Type 0 where
  account_not_found account_conflict concurrent_update idempotency_conflict : PaperRepositoryError

-- `tuple[str, str]` as a key.
abbrev pub pair_beq : String × String → String × String → Bool
pair_beq (a, b) (c, d) = (a =s= c) && (b =s= d)

pub pair_refl : (k : String × String) → pair_beq k k ≡ true
pair_refl (a, b) = rw (beq_refl a) (beq_refl b)

pub pair-eq : (j k : String × String) → pair_beq j k ≡ true → j ≡ k
pair-eq (a, b) (c, d) h = ground (arith, eq_iff a c, eq_iff b d)

instance unfoldable pub pair_key : Key (String × String)
pair_key = record { beq = pair_beq; beq_refl = pair_refl; beq-eq = pair-eq }

pub record PaperRepository : Type 0 where
  pub accounts : Dict String PaperAccountState
  pub receipts_by_key : Dict (String × String) (String × PaperExecutionReceipt)
  pub receipts_by_batch : Dict (String × String) PaperExecutionReceipt
  pub states_by_refresh : Dict (String × String) PaperAccountState

unfoldable pub empty_repository : PaperRepository
empty_repository = record {
  accounts = [];
  receipts_by_key = [];
  receipts_by_batch = [];
  states_by_refresh = [];
}

-- `open_account`, behind the look at the stored state.
unfoldable pub open_stored :
    PaperRepository
    → PaperAccountState
    → Option PaperAccountState
    → Result PaperRepositoryError (PaperRepository × PaperAccountState)
unfolding account_beq
open_stored r state none = ok (record r { accounts = put state.account_id state r.accounts }, state)
open_stored r state (some existing) =
    if (existing.state_hash =s= state.state_hash) && account_beq existing state
    then ok (r, existing)
    else err account_conflict

unfoldable pub open_account :
    PaperRepository
    → PaperAccountState
    → Result PaperRepositoryError (PaperRepository × PaperAccountState)
unfolding open_stored
open_account r state = open_stored r state (get state.account_id r.accounts)

unfoldable pub found : Option PaperAccountState → Result PaperRepositoryError PaperAccountState
found none = err account_not_found
found (some state) = ok state

unfoldable pub get_account :
    PaperRepository → String → Result PaperRepositoryError PaperAccountState
unfolding found
get_account r account_id = found (get account_id r.accounts)

-- The receipt that is committed under the idempotency key.
unfoldable pub answer_key :
    Option (String × PaperExecutionReceipt)
    → PaperExecutionRequest
    → Result PaperRepositoryError (Option PaperExecutionReceipt)
answer_key none q = ok none
answer_key (some (hash, receipt)) q =
    if hash =s= q.request_hash then ok (some receipt) else err idempotency_conflict

-- The receipt that consumed the batch.
unfoldable pub answer_batch :
    Option PaperExecutionReceipt
    → PaperExecutionRequest
    → Result PaperRepositoryError (Option PaperExecutionReceipt)
answer_batch none q = ok none
answer_batch (some receipt) q =
    if receipt.request_hash =s= q.request_hash then ok (some receipt) else err idempotency_conflict

-- What of a request and its receipt is replayed.
unfoldable pub execution_of : PaperExecutionRequest → PaperExecutionReceipt → Execution
execution_of q x = record {
  batch_hash = q.batch_hash;
  processed_at = x.processed_at;
  event_log_hash = x.event_log_hash;
  orders = x.orders;
  fills = x.fills;
}

-- `except (...) as error: raise PaperAccountConflict(...) from error`
unfoldable pub as_conflict :
    Result PaperError PaperAccountState → Result PaperRepositoryError PaperAccountState
as_conflict (ok state) = ok state
as_conflict (err raised) = err account_conflict

-- The checks of `_validate_transition` in front of the replay.
unfoldable pub extends_current :
    String
    → PaperAccountState
    → PaperExecutionRequest
    → PaperAccountState
    → PaperExecutionReceipt
    → Bool
extends_current expected current q after x =
    (q.expected_account_state_hash =s= expected)
    && not (ltb q.submitted_at current.as_of)
    && (q.expected_account_snapshot_hash =s= current.source_snapshot_hash)
    && (after.account_id =s= current.account_id)
    && opt_beq after.previous_state_hash (some expected)
    && not (ltb after.as_of current.as_of)
    && ((after.currency =s= current.currency)
        && (after.source_snapshot_id =s= current.source_snapshot_id)
        && (after.source_snapshot_hash =s= current.source_snapshot_hash)
        && after.source_snapshot_as_of == current.source_snapshot_as_of)
    && ((x.request_id =s= q.request_id)
        && (x.request_hash =s= q.request_hash)
        && (x.idempotency_key =s= q.idempotency_key)
        && (x.batch_hash =s= q.batch_hash)
        && x.request_submitted_at == q.submitted_at)
    && ((x.account_before_hash =s= expected)
        && (x.event_log_before_hash =s= current.event_log_hash))

-- `_validate_transition`
unfoldable pub validate_transition :
    ⦃h : Hashing⦄ ⦃p : Platform⦄
    → String
    → PaperAccountState
    → PaperExecutionRequest
    → PaperAccountState
    → PaperExecutionReceipt
    → Result PaperRepositoryError (Unit {0})
unfolding extends_current execution_of as_conflict account_beq
validate_transition expected current q after x = do
  raise_if (not (extends_current expected current q after x)) account_conflict
  expected_after ← as_conflict (replay_execution_transition current (execution_of q x))
  raise_if (not (account_beq after expected_after)) account_conflict
  raise_if (not ((x.account_after_hash =s= after.state_hash) && account_beq x.account_after after))
      account_conflict

-- The three writes of `commit_execution`.
unfoldable pub store :
    PaperRepository
    → PaperExecutionRequest
    → PaperAccountState
    → PaperExecutionReceipt
    → PaperRepository
store r q after x = record r {
  accounts = put q.account_id after r.accounts;
  receipts_by_key = put (q.account_id, q.idempotency_key) (q.request_hash, x) r.receipts_by_key;
  receipts_by_batch = put (q.account_id, q.batch_hash) x r.receipts_by_batch;
}

-- A receipt that is known already, or else what the rest of the method does.
unfoldable pub or_else :
    PaperRepository
    → Option PaperExecutionReceipt
    → Result PaperRepositoryError (PaperRepository × PaperExecutionReceipt)
    → Result PaperRepositoryError (PaperRepository × PaperExecutionReceipt)
or_else r (some receipt) rest = ok (r, receipt)
or_else r none rest = rest

-- `commit_execution`
unfoldable pub commit_execution :
    ⦃h : Hashing⦄ ⦃p : Platform⦄
    → PaperRepository
    → String
    → PaperExecutionRequest
    → PaperAccountState
    → PaperExecutionReceipt
    → Result PaperRepositoryError (PaperRepository × PaperExecutionReceipt)
unfolding answer_key answer_batch or_else found validate_transition store
commit_execution r expected q after x = do
  known ← answer_key (get (q.account_id, q.idempotency_key) r.receipts_by_key) q
  or_else r known (do
    consumed ← answer_batch (get (q.account_id, q.batch_hash) r.receipts_by_batch) q
    or_else r consumed (do
      current ← found (get q.account_id r.accounts)
      raise_if (not (current.state_hash =s= expected)) concurrent_update
      validate_transition expected current q after x
      ok (store r q after x, x)))

-- The two writes of `refresh_account`.
unfoldable pub store_refresh :
    PaperRepository → AccountSnapshot → PaperAccountState → PaperRepository
store_refresh r s after = record r {
  accounts = put s.account_id after r.accounts;
  states_by_refresh = put (s.account_id, s.content_hash) after r.states_by_refresh;
}

-- `refresh_account`, behind the look at the state that is committed for the snapshot.
unfoldable pub refresh_stored :
    ⦃h : Hashing⦄ ⦃p : Platform⦄
    → PaperRepository
    → String
    → AccountSnapshot
    → PaperAccountState
    → Option PaperAccountState
    → Result PaperRepositoryError (PaperRepository × PaperAccountState)
unfolding found as_conflict store_refresh account_beq
refresh_stored r expected s after (some existing) =
    if account_beq existing after then ok (r, existing) else err account_conflict
refresh_stored r expected s after none = do
  current ← found (get s.account_id r.accounts)
  raise_if (not (current.state_hash =s= expected)) concurrent_update
  replayed ← as_conflict (replay_account_refresh current s)
  raise_if (not (account_beq after replayed)) account_conflict
  ok (store_refresh r s after, after)

-- `refresh_account`
unfoldable pub refresh_account :
    ⦃h : Hashing⦄ ⦃p : Platform⦄
    → PaperRepository
    → String
    → AccountSnapshot
    → PaperAccountState
    → Result PaperRepositoryError (PaperRepository × PaperAccountState)
unfolding refresh_stored
refresh_account r expected s after =
    refresh_stored r expected s after (get (s.account_id, s.content_hash) r.states_by_refresh)
