-- ===== src/Paper/Succession.antt =====
-- What a history of a paper repository does to an account.
use quant_agent.Prelude.{String, ◌≡◌, sym, ap, ◌∙◌, inl, inr, Option, some, ok}
use quant_agent.Canonical.{Hashing}
use quant_agent.Dict.{get, put, get-put_self, get-put_new, get-put_either}
use quant_agent.Paper.Contracts.{Platform}
use quant_agent.Paper.Accounts.{PaperAccountState}
use quant_agent.Paper.Requests.{PaperExecutionRequest, PaperExecutionReceipt}
use quant_agent.Paper.Transition.{name_key, Execution, replay_execution_transition}
use quant_agent.Paper.Refresh.{AccountSnapshot, replay_account_refresh}
use quant_agent.Paper.Repository.{
  PaperRepository, pair_key, execution_of, store, store_refresh, refresh_account, commit_execution,
  open_account,
}
use quant_agent.Paper.Commits.{commit_execution-inv}
use quant_agent.Paper.Refreshes.{refresh_account-inv}
use quant_agent.Paper.Histories.{Later, unchanged, opened, executed, refreshed, open_stored-inv}

some_injective : {A : Type 0} (a b : A) → ◌≡◌ {A = Option A} (some a) (some b) → a ≡ b
some_injective a b e = cc

-- One account succeeds another by replays of executions and of refreshes.
pub data Succeeds ⦃h : Hashing⦄ ⦃p : Platform⦄ (before : PaperAccountState)
    : PaperAccountState → Type 0 where
  itself : Succeeds before before
  replayed :
      {middle after : PaperAccountState}
      → Succeeds before middle
      → (x : Execution) → replay_execution_transition middle x ≡ ok after
      → Succeeds before after
  advanced :
      {middle after : PaperAccountState}
      → Succeeds before middle
      → (s : AccountSnapshot) → replay_account_refresh middle s ≡ ok after
      → Succeeds before after

module _ ⦃h : Hashing⦄ ⦃p : Platform⦄ where
  -- A call leaves an account as it is, or takes it to what a replay gives.
  opened-keeps :
      (r r' : PaperRepository) (state stored : PaperAccountState) (id : String)
      (a : PaperAccountState)
      → open_account r state ≡ ok (r', stored)
      → get id r.accounts ≡ some a
      → get id r'.accounts ≡ some a
  unfolding open_account
  opened-keeps r r' state stored id a done at =
      elim (open_stored-inv r r' state stored (get state.account_id r.accounts) done) [
        | inl same ↦ ap (λ s. get id s.accounts) same ∙ at
        | inr (absent, written) ↦
            ap (λ s. get id s.accounts) written
            ∙ get-put_new id state.account_id state a r.accounts absent at
      ]

  commit_execution-Succeeds :
      (r r' : PaperRepository) (expected : String) (q : PaperExecutionRequest)
      (after : PaperAccountState) (x y : PaperExecutionReceipt) (id : String)
      (a start : PaperAccountState)
      → commit_execution r expected q after x ≡ ok (r', y)
      → get id r.accounts ≡ some a
      → Succeeds start a
      → (b : PaperAccountState) × (get id r'.accounts ≡ some b) × Succeeds start b
  unfolding store
  commit_execution-Succeeds r r' expected q after x y id a start done at follows =
      elim (commit_execution-inv r r' expected q after x y done) [
        | inl (same, _) ↦ (a, ap (λ s. get id s.accounts) same ∙ at, follows)
        | inr (written, _, _, _, (current, here, _, replay)) ↦
            elim (get-put_either id q.account_id after r.accounts) [
              | inl own ↦
                  let same =
                    some_injective current a (sym here ∙ ap (λ k. get k r.accounts) own ∙ at) in
                  (
                    after,
                    ap (λ s. get id s.accounts) written
                        ∙ ap (λ k. get k (put q.account_id after r.accounts)) (sym own)
                        ∙ get-put_self q.account_id after r.accounts,
                    replayed follows (execution_of q x) (
                        ap (λ c. replay_execution_transition c (execution_of q x)) (sym same)
                        ∙ replay),
                  )
              | inr other ↦ (a, ap (λ s. get id s.accounts) written ∙ other ∙ at, follows)
            ]
      ]

  refresh_account-Succeeds :
      (r r' : PaperRepository) (expected : String) (s : AccountSnapshot)
      (after given : PaperAccountState) (id : String) (a start : PaperAccountState)
      → refresh_account r expected s after ≡ ok (r', given)
      → get id r.accounts ≡ some a
      → Succeeds start a
      → (b : PaperAccountState) × (get id r'.accounts ≡ some b) × Succeeds start b
  unfolding store_refresh
  refresh_account-Succeeds r r' expected s after given id a start done at follows =
      elim (refresh_account-inv r r' expected s after given done) [
        | inl same ↦ (a, ap (λ t. get id t.accounts) same ∙ at, follows)
        | inr (written, (current, here, _, replay)) ↦
            elim (get-put_either id s.account_id after r.accounts) [
              | inl own ↦
                  let same =
                    some_injective current a (sym here ∙ ap (λ k. get k r.accounts) own ∙ at) in
                  (
                    after,
                    ap (λ t. get id t.accounts) written
                        ∙ ap (λ k. get k (put s.account_id after r.accounts)) (sym own)
                        ∙ get-put_self s.account_id after r.accounts,
                    advanced follows s (ap (λ c. replay_account_refresh c s) (sym same) ∙ replay),
                  )
              | inr other ↦ (a, ap (λ t. get id t.accounts) written ∙ other ∙ at, follows)
            ]
      ]

  -- An account that is stored stays stored whatever calls follow, and the state that it has then
  -- comes from its former one by replays of executions and of refreshes alone.
  pub accounts_follow :
      (id : String) (a : PaperAccountState) {r r' : PaperRepository}
      → get id r.accounts ≡ some a
      → Later r r'
      → (b : PaperAccountState) × (get id r'.accounts ≡ some b) × Succeeds a b
  accounts_follow id a at unchanged = (a, at, itself)
  accounts_follow id a {r} {r'} at (opened {middle} earlier state stored done) =
      let (b, there, follows) = accounts_follow id a at earlier in
      (b, opened-keeps middle r' state stored id b done there, follows)
  accounts_follow id a {r} {r'} at (executed {middle} earlier expected q after x y done) =
      let (b, there, follows) = accounts_follow id a at earlier in
      commit_execution-Succeeds middle r' expected q after x y id b a done there follows
  accounts_follow id a {r} {r'} at (refreshed {middle} earlier expected s after given done) =
      let (b, there, follows) = accounts_follow id a at earlier in
      refresh_account-Succeeds middle r' expected s after given id b a done there follows
