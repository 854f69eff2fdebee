-- ===== src/Paper/Idempotence.antt =====
-- Repeated commits of a paper repository, and commits of a consumed batch.
use quant_agent.Prelude.{String, ◌≡◌, refl, sym, ap, ◌∙◌, inl, inr, none, some, ok, beq_refl}
use quant_agent.Canonical.{Hashing}
use quant_agent.Dict.{get, get-put_self, get-put_new}
use quant_agent.Paper.Contracts.{Platform}
use quant_agent.Paper.Accounts.{PaperAccountState}
use quant_agent.Paper.Requests.{PaperExecutionRequest, PaperExecutionReceipt}
use quant_agent.Paper.Transition.{name_key}
use quant_agent.Paper.Repository.{
  PaperRepository, pair_key, answer_key, store, store_refresh, or_else, commit_execution,
  open_account,
}
use quant_agent.Paper.Refreshes.{refresh_account-inv}
use quant_agent.Paper.Commits.{commit_execution-inv}
use quant_agent.Paper.Histories.{Later, unchanged, opened, executed, refreshed, open_stored-inv}

none_not_some : {A : Type 0} {a : A} → none ≡ some a → ⊥
none_not_some e = cc

module _ ⦃h : Hashing⦄ ⦃p : Platform⦄ where
  key-stays :
      (k : String × String) (v : String × PaperExecutionReceipt) {r r' : PaperRepository}
      → get k r.receipts_by_key ≡ some v
      → Later r r'
      → get k r'.receipts_by_key ≡ some v
  unfolding open_account store store_refresh
  key-stays k v known unchanged = known
  key-stays k v {r} {r'} known (opened {middle} earlier state stored done) =
      let before = key-stays k v known earlier in
      elim (open_stored-inv middle r' state stored (get state.account_id middle.accounts) done) [
        | inl same ↦ ap (λ s. get k s.receipts_by_key) same ∙ before
        | inr (_, written) ↦ ap (λ s. get k s.receipts_by_key) written ∙ before
      ]
  key-stays k v {r} {r'} known (refreshed {middle} earlier expected s after given done) =
      let before = key-stays k v known earlier in
      elim (refresh_account-inv middle r' expected s after given done) [
        | inl same ↦ ap (λ t. get k t.receipts_by_key) same ∙ before
        | inr (written, _) ↦ ap (λ t. get k t.receipts_by_key) written ∙ before
      ]
  key-stays k v {r} {r'} known (executed {middle} earlier expected q after x y done) =
      let before = key-stays k v known earlier in
      elim (commit_execution-inv middle r' expected q after x y done) [
        | inl (same, _) ↦ ap (λ s. get k s.receipts_by_key) same ∙ before
        | inr (written, _, new_key, _, _) ↦
            ap (λ s. get k s.receipts_by_key) written
            ∙ get-put_new k (q.account_id, q.idempotency_key) (q.request_hash, x) v
                middle.receipts_by_key new_key before
      ]

  batch-stays :
      (k : String × String) (v : PaperExecutionReceipt) {r r' : PaperRepository}
      → get k r.receipts_by_batch ≡ some v
      → Later r r'
      → get k r'.receipts_by_batch ≡ some v
  unfolding open_account store store_refresh
  batch-stays k v known unchanged = known
  batch-stays k v {r} {r'} known (opened {middle} earlier state stored done) =
      let before = batch-stays k v known earlier in
      elim (open_stored-inv middle r' state stored (get state.account_id middle.accounts) done) [
        | inl same ↦ ap (λ s. get k s.receipts_by_batch) same ∙ before
        | inr (_, written) ↦ ap (λ s. get k s.receipts_by_batch) written ∙ before
      ]
  batch-stays k v {r} {r'} known (refreshed {middle} earlier expected s after given done) =
      let before = batch-stays k v known earlier in
      elim (refresh_account-inv middle r' expected s after given done) [
        | inl same ↦ ap (λ t. get k t.receipts_by_batch) same ∙ before
        | inr (written, _) ↦ ap (λ t. get k t.receipts_by_batch) written ∙ before
      ]
  batch-stays k v {r} {r'} known (executed {middle} earlier expected q after x y done) =
      let before = batch-stays k v known earlier in
      elim (commit_execution-inv middle r' expected q after x y done) [
        | inl (same, _) ↦ ap (λ s. get k s.receipts_by_batch) same ∙ before
        | inr (written, _, _, new_batch, _) ↦
            ap (λ s. get k s.receipts_by_batch) written
            ∙ get-put_new k (q.account_id, q.batch_hash) x v middle.receipts_by_batch new_batch
                before
      ]

  known-answers :
      (r : PaperRepository) (expected : String) (q : PaperExecutionRequest)
      (after : PaperAccountState) (x y : PaperExecutionReceipt)
      → get (q.account_id, q.idempotency_key) r.receipts_by_key ≡ some (q.request_hash, y)
      → commit_execution r expected q after x ≡ ok (r, y)
  unfolding commit_execution answer_key or_else
  known-answers r expected q after x y known = rw (known, beq_refl q.request_hash) refl

  -- A commit of a batch that was not consumed before, and that returned a receipt, is answered with
  -- that receipt whenever the same request is made again after any further calls of the
  -- repository, whatever state is expected and given then, and the repeated commit changes nothing.
  pub commit_repeats :
      (r r' r'' : PaperRepository) (expected expected' : String) (q : PaperExecutionRequest)
      (after after' : PaperAccountState) (x x' y : PaperExecutionReceipt)
      → get (q.account_id, q.batch_hash) r.receipts_by_batch ≡ none
      → commit_execution r expected q after x ≡ ok (r', y)
      → Later r' r''
      → commit_execution r'' expected' q after' x' ≡ ok (r'', y)
  unfolding store
  commit_repeats r r' r'' expected expected' q after after' x x' y new_batch done later =
      let key : String × String = (q.account_id, q.idempotency_key) in
      let known : get key r'.receipts_by_key ≡ some (q.request_hash, y) =
        elim (commit_execution-inv r r' expected q after x y done) [
          | inl (same, inl hit) ↦ ap (λ s. get key s.receipts_by_key) same ∙ hit
          | inl (same, inr hit) ↦ absurd (none_not_some (sym new_batch ∙ hit))
          | inr (written, own, _, _, _) ↦
              ap (λ s. get key s.receipts_by_key) written
              ∙ get-put_self key (q.request_hash, x) r.receipts_by_key
              ∙ ap (λ z. some (q.request_hash, z)) (sym own)
        ] in
      known-answers r'' expected' q after' x' y (key-stays key (q.request_hash, y) known later)

  -- Once a commit under a new key returned, its batch is consumed: after any further calls
  -- of the repository, a commit for the same account and batch, under whatever key, changes
  -- nothing if it returns at all.
  pub batch_consumed_once :
      (r r' r'' r''' : PaperRepository) (expected expected' : String) (q q' : PaperExecutionRequest)
      (after after' : PaperAccountState) (x x' y y' : PaperExecutionReceipt)
      → get (q.account_id, q.idempotency_key) r.receipts_by_key ≡ none
      → commit_execution r expected q after x ≡ ok (r', y)
      → Later r' r''
      → q'.account_id ≡ q.account_id
      → q'.batch_hash ≡ q.batch_hash
      → commit_execution r'' expected' q' after' x' ≡ ok (r''', y')
      → r''' ≡ r''
  unfolding store
  batch_consumed_once r r' r'' r''' expected expected' q q' after after' x x' y y' new_key done
        later account batch again =
      let consumed : String × String = (q.account_id, q.batch_hash) in
      let known : get consumed r'.receipts_by_batch ≡ some y =
        elim (commit_execution-inv r r' expected q after x y done) [
          | inl (same, inl hit) ↦ absurd (none_not_some (sym new_key ∙ hit))
          | inl (same, inr hit) ↦ ap (λ s. get consumed s.receipts_by_batch) same ∙ hit
          | inr (written, own, _, _, _) ↦
              ap (λ s. get consumed s.receipts_by_batch) written
              ∙ get-put_self consumed x r.receipts_by_batch
              ∙ ap some (sym own)
        ] in
      let here = batch-stays consumed y known later in
      elim (commit_execution-inv r'' r''' expected' q' after' x' y' again) [
        | inl (same, _) ↦ same
        | inr (_, _, _, new_batch, _) ↦ absurd (
            none_not_some (
              sym new_batch
              ∙ ap (λ a. get (a, q'.batch_hash) r''.receipts_by_batch) account
              ∙ ap (λ b. get (q.account_id, b) r''.receipts_by_batch) batch
              ∙ here))
      ]
