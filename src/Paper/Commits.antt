-- ===== src/Paper/Commits.antt =====
-- What a commit of an execution does to a paper repository of packages/quant_agent/execution/paper/
-- repository.py.
use quant_agent.Prelude.{
  String, true, not, ◌≡◌, refl, sym, ap, ◌∙◌, ◌⊎◌, inl, inr, Option, none, some, Result, ok, err,
  ◌=s=◌, eq_iff, beq_refl, arith, bind-ok, passed-ok, ok_injective, unnegated,
}
use quant_agent.Canonical.{Hashing}
use quant_agent.Dict.{get}
use quant_agent.Paper.Contracts.{PaperError, Platform}
use quant_agent.Paper.Accounts.{PaperAccountState}
use quant_agent.Paper.Equality.{account_beq, account_beq-eq, account_beq_refl}
use quant_agent.Paper.Requests.{PaperExecutionRequest, PaperExecutionReceipt}
use quant_agent.Paper.Transition.{name_key, replay_execution_transition}
use quant_agent.Paper.Repository.{
  PaperRepositoryError, account_conflict, concurrent_update, PaperRepository, pair_key, answer_key,
  answer_batch, found, execution_of, as_conflict, extends_current, validate_transition, store,
  or_else, commit_execution,
}

pub as_conflict-ok :
    (result : Result PaperError PaperAccountState) (state : PaperAccountState)
    → as_conflict result ≡ ok state
    → result ≡ ok state
unfolding as_conflict
as_conflict-ok (ok value) state e = ap ok (ok_injective value state e)
as_conflict-ok (err raised) state e = cc

pub pair_injective :
    {A B : Type 0} (a c : A) (b d : B) → ◌≡◌ {A = A × B} (a, b) (c, d) → (a ≡ c) × (b ≡ d)
pair_injective a c b d e = (ap (λ x. x.0) e, ap (λ x. x.1) e)

answer_key-some :
    (o : Option (String × PaperExecutionReceipt)) (q : PaperExecutionRequest)
    (y : PaperExecutionReceipt)
    → answer_key o q ≡ ok (some y)
    → o ≡ some (q.request_hash, y)
unfolding answer_key
answer_key-some none q y e = cc
answer_key-some (some (hash, receipt)) q y e = ground (arith, eq_iff hash q.request_hash)

answer_key-none :
    (o : Option (String × PaperExecutionReceipt)) (q : PaperExecutionRequest)
    → answer_key o q ≡ ok none
    → o ≡ none
unfolding answer_key
answer_key-none none q e = refl
answer_key-none (some (hash, receipt)) q e = ground arith

answer_batch-some :
    (o : Option PaperExecutionReceipt) (q : PaperExecutionRequest) (y : PaperExecutionReceipt)
    → answer_batch o q ≡ ok (some y)
    → o ≡ some y
unfolding answer_batch
answer_batch-some none q y e = cc
answer_batch-some (some receipt) q y e = ground arith

answer_batch-none :
    (o : Option PaperExecutionReceipt) (q : PaperExecutionRequest)
    → answer_batch o q ≡ ok none
    → o ≡ none
unfolding answer_batch
answer_batch-none none q e = refl
answer_batch-none (some receipt) q e = ground arith

pub found-some :
    (o : Option PaperAccountState) (state : PaperAccountState) → found o ≡ ok state → o ≡ some state
unfolding found
found-some none state e = cc
found-some (some s) state e = ap some (ok_injective s state e)

or_else-cases :
    (r r' : PaperRepository) (o : Option PaperExecutionReceipt)
    (rest : Result PaperRepositoryError (PaperRepository × PaperExecutionReceipt))
    (y : PaperExecutionReceipt)
    → or_else r o rest ≡ ok (r', y)
    → ((r' ≡ r) × (o ≡ some y)) ⊎ ((o ≡ none) × (rest ≡ ok (r', y)))
unfolding or_else
or_else-cases r r' (some receipt) rest y e =
    let (same, own) = pair_injective r r' receipt y (ok_injective (r, receipt) (r', y) e) in
    inl (sym same, ap some own)
or_else-cases r r' none rest y e = inr (refl, e)

-- A commit that answers with a receipt that is known.
abbrev pub Answered :
    PaperRepository → PaperRepository → PaperExecutionRequest → PaperExecutionReceipt → Type 0
Answered r r' q y =
    (r' ≡ r)
    × ((get (q.account_id, q.idempotency_key) r.receipts_by_key ≡ some (q.request_hash, y))
        ⊎ (get (q.account_id, q.batch_hash) r.receipts_by_batch ≡ some y))

-- A commit that writes: the key and the batch are new, the account is in the expected state, and the
-- state it gets is what the replay of the receipt gives.
abbrev pub Committed :
    ⦃h : Hashing⦄ ⦃p : Platform⦄
    → PaperRepository
    → PaperRepository
    → String
    → PaperExecutionRequest
    → PaperAccountState
    → PaperExecutionReceipt
    → PaperExecutionReceipt
    → Type 0
Committed r r' expected q after x y =
    (r' ≡ store r q after x)
    × (y ≡ x)
    × (get (q.account_id, q.idempotency_key) r.receipts_by_key ≡ none)
    × (get (q.account_id, q.batch_hash) r.receipts_by_batch ≡ none)
    × ((current : PaperAccountState) × (get q.account_id r.accounts ≡ some current)
        × (current.state_hash ≡ expected)
        × (replay_execution_transition current (execution_of q x) ≡ ok after))

module _ ⦃h : Hashing⦄ ⦃p : Platform⦄ where
  -- A transition that is valid is what the replay gives.
  validate_transition-replay :
      (expected : String) (current after : PaperAccountState) (q : PaperExecutionRequest)
      (x : PaperExecutionReceipt)
      → validate_transition expected current q after x ≡ ok tt
      → replay_execution_transition current (execution_of q x) ≡ ok after
  unfolding validate_transition
  validate_transition-replay expected current after q x valid =
      let (_, v1) =
        passed-ok (not (extends_current expected current q after x)) account_conflict _ tt valid in
      let (state, replayed, v2) =
        bind-ok (as_conflict (replay_execution_transition current (execution_of q x))) _ v1 in
      let (same, _) = passed-ok (not (account_beq after state)) account_conflict _ tt v2 in
      as_conflict-ok (replay_execution_transition current (execution_of q x)) state replayed
      ∙ ap ok (sym (account_beq-eq after state (unnegated _ same)))

  replay-validate_transition :
      (expected : String) (current after : PaperAccountState) (q : PaperExecutionRequest)
      (x : PaperExecutionReceipt)
      → extends_current expected current q after x ≡ true
      → replay_execution_transition current (execution_of q x) ≡ ok after
      → x.account_after_hash ≡ after.state_hash
      → x.account_after ≡ after
      → validate_transition expected current q after x ≡ ok tt
  unfolding validate_transition as_conflict
  replay-validate_transition expected current after q x extends replay hash same =
      rw
        (
          extends,
          replay,
          account_beq_refl after,
          hash,
          same,
          beq_refl after.state_hash,
          account_beq_refl after,
        )
        refl

  -- A commit under a new key of a new batch, for an account in the expected state that the request,
  -- the receipt and the new state extend, goes through and writes all three, if the replay of the
  -- receipt gives the new state and the receipt names it.
  pub commit_execution-store :
      (r : PaperRepository) (q : PaperExecutionRequest) (current after : PaperAccountState)
      (x : PaperExecutionReceipt)
      → get (q.account_id, q.idempotency_key) r.receipts_by_key ≡ none
      → get (q.account_id, q.batch_hash) r.receipts_by_batch ≡ none
      → get q.account_id r.accounts ≡ some current
      → extends_current current.state_hash current q after x ≡ true
      → replay_execution_transition current (execution_of q x) ≡ ok after
      → x.account_after_hash ≡ after.state_hash
      → x.account_after ≡ after
      → commit_execution r current.state_hash q after x ≡ ok (store r q after x, x)
  unfolding commit_execution answer_key answer_batch or_else found
  commit_execution-store r q current after x new_key new_batch at extends replay hash same =
      rw
        (
          new_key,
          new_batch,
          at,
          beq_refl current.state_hash,
          replay-validate_transition current.state_hash current after q x extends replay hash same,
        )
        refl

  -- A commit that returns either changes nothing and answers with the receipt that is stored under
  -- the request's key, for the same request, or for its batch; or its key and its batch are new, the
  -- account is in the expected state, and its new state, the receipt under the key and the receipt
  -- of the batch are written. The new state is then what the replay of the receipt gives.
  pub commit_execution-inv :
      (r r' : PaperRepository) (expected : String) (q : PaperExecutionRequest)
      (after : PaperAccountState) (x y : PaperExecutionReceipt)
      → commit_execution r expected q after x ≡ ok (r', y)
      → Answered r r' q y ⊎ Committed r r' expected q after x y
  unfolding commit_execution
  commit_execution-inv r r' expected q after x y done =
      let key = get (q.account_id, q.idempotency_key) r.receipts_by_key in
      let batch = get (q.account_id, q.batch_hash) r.receipts_by_batch in
      let (known, by_key, d1) = bind-ok (answer_key key q) _ done in
      elim (or_else-cases r r' known _ y d1) [
        | inl (same, hit) ↦ inl (same, inl (answer_key-some key q y (by_key ∙ ap ok hit)))
        | inr (new_key, d2) ↦
            let (consumed, by_batch, d3) = bind-ok (answer_batch batch q) _ d2 in
            elim (or_else-cases r r' consumed _ y d3) [
              | inl (same, hit) ↦
                  inl (same, inr (answer_batch-some batch q y (by_batch ∙ ap ok hit)))
              | inr (new_batch, d4) ↦
                  let (current, at, d5) = bind-ok (found (get q.account_id r.accounts)) _ d4 in
                  let (token, d6) =
                    passed-ok (not (current.state_hash =s= expected)) concurrent_update _ (r', y)
                      d5 in
                  let (unit, valid, d7) =
                    bind-ok (validate_transition expected current q after x) _ d6 in
                  let (written, receipt) =
                    pair_injective (store r q after x) r' x y (ok_injective _ (r', y) d7) in
                  inr (
                    sym written,
                    sym receipt,
                    answer_key-none key q (by_key ∙ ap ok new_key),
                    answer_batch-none batch q (by_batch ∙ ap ok new_batch),
                    (
                      current,
                      found-some (get q.account_id r.accounts) current at,
                      (eq_iff current.state_hash expected).0 (unnegated _ token),
                      validate_transition-replay expected current after q x valid,
                    ),
                  )
            ]
      ]
