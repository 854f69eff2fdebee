-- ===== src/Paper/Histories.antt =====
-- Histories of a paper repository of packages/quant_agent/execution/paper/repository.py.
use quant_agent.Prelude.{
  String, ◌&&◌, ◌≡◌, refl, sym, ◌⊎◌, inl, inr, Option, none, some, ok, ◌=s=◌, ok_injective,
}
use quant_agent.Canonical.{Hashing}
use quant_agent.Dict.{put}
use quant_agent.Paper.Contracts.{Platform}
use quant_agent.Paper.Accounts.{PaperAccountState}
use quant_agent.Paper.Equality.{account_beq}
use quant_agent.Paper.Requests.{PaperExecutionRequest, PaperExecutionReceipt}
use quant_agent.Paper.Transition.{name_key}
use quant_agent.Paper.Repository.{
  PaperRepository, pair_key, commit_execution, open_stored, open_account, refresh_account,
}
use quant_agent.Paper.Refresh.{AccountSnapshot}
use quant_agent.Paper.Commits.{pair_injective}
use quant_agent.Paper.Refreshes.{same_repository}

-- A repository behind further calls that returned, of all the methods that write. A call that
-- raises writes nothing.
pub data Later ⦃h : Hashing⦄ ⦃p : Platform⦄ (r : PaperRepository) : PaperRepository → Type 0 where
  unchanged : Later r r
  opened :
      {middle last : PaperRepository}
      → Later r middle
      → (state stored : PaperAccountState) → open_account middle state ≡ ok (last, stored)
      → Later r last
  executed :
      {middle last : PaperRepository}
      → Later r middle
      → (expected : String) → (q : PaperExecutionRequest) → (after : PaperAccountState)
      → (x y : PaperExecutionReceipt) → commit_execution middle expected q after x ≡ ok (last, y)
      → Later r last
  refreshed :
      {middle last : PaperRepository}
      → Later r middle
      → (expected : String) → (s : AccountSnapshot) → (after given : PaperAccountState)
      → refresh_account middle expected s after ≡ ok (last, given)
      → Later r last

-- What opening an account writes.
pub open_stored-inv :
    (r r' : PaperRepository) (state stored : PaperAccountState)
    (existing : Option PaperAccountState)
    → open_stored r state existing ≡ ok (r', stored)
    → (r' ≡ r)
      ⊎ ((existing ≡ none) × (r' ≡ record r { accounts = put state.account_id state r.accounts }))
unfolding open_stored
open_stored-inv r r' state stored none done =
    let (written, _) = pair_injective _ r' state stored (ok_injective _ (r', stored) done) in
    inr (refl, sym written)
open_stored-inv r r' state stored (some existing) done = inl (
    same_repository r r' existing stored
      ((existing.state_hash =s= state.state_hash) && account_beq existing state) done)
