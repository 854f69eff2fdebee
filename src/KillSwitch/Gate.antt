-- ===== src/KillSwitch/Gate.antt =====
-- What the order gate of the kill switch promises: `guard_new_order` of
-- packages/quant_agent/risk/kill_switch/repository.py over any history of the repository.
use quant_agent.Prelude.{◌≡◌, refl, sym, ap, ◌∙◌, String, Option, none, some, inl, inr}
use quant_agent.Canonical.{Hashing}
use quant_agent.Dict.{get, put, get-put_self, get-put_cases}
use quant_agent.KillSwitch.Contracts.{
  KillSwitchIncident, KillSwitchTransition, KillSwitchGateRequest, KillSwitchGateDecision, allowed,
  blocked,
}
use quant_agent.KillSwitch.Checks.{is_some}
use quant_agent.KillSwitch.Builders.{gate_operation_hash}
use quant_agent.KillSwitch.Store.{
  StateKey, OperationKey, GateKey, state_key_laws, operation_key_laws, gate_key_laws, text_key_laws,
  empty_repository, Repository,
}
use quant_agent.KillSwitch.Plans.{gate_key}
use quant_agent.KillSwitch.Guard.{store_block, open_guard, leave_guard}
use quant_agent.KillSwitch.Outcomes.{
  Mutated, raised, replayed, committed, Outcome, noted, after_commit,
}
use quant_agent.KillSwitch.GuardOutcomes.{
  Judged, Guarded, failed, refused, admitted, stopped, conflicting, repeated, judged,
  enter_guard-Guarded,
}
use quant_agent.KillSwitch.Mutations.{activate-Activated, recover-Recovered, initialize-Initialized}
use quant_agent.KillSwitch.Keeps.{
  after_commit-Extends, after_commit-blocks, noted-IsOpen, noted-Extends, store_block-Extends,
  open_guard-Extends, noted-keeps, IsOpen, Kept, Extends,
}
use quant_agent.KillSwitch.Steps.{
  Step, Reachable, Runs-keeps, initializes, activates, recovers, enters, leaves,
}

-- Each stored decision is a block, and its key has a stored request.
unfoldable pub IsBlockStore : Repository → Type 0
IsBlockStore r =
    (k : GateKey) (d : KillSwitchGateDecision)
    → get k r.blocked_gate_decisions ≡ some d
    → (hash : String) × (d.status ≡ blocked) × (get k r.gate_requests ≡ some hash)

module _ ⦃h : Hashing⦄ where
  -- Calls that leave the blocks as they are, and take no request back.
  same_blocks :
      (r s : Repository)
      → s.blocked_gate_decisions ≡ r.blocked_gate_decisions
      → Kept r.gate_requests s.gate_requests
      → IsBlockStore r
      → IsBlockStore s
  unfolding IsBlockStore
  same_blocks r s same kept inv k d stored =
      let (hash, status, at) = inv k d (ap (get k) (sym same) ∙ stored) in
      (hash, status, kept k hash at)

  store_block-IsBlockStore :
      (request : KillSwitchGateRequest) (d : KillSwitchGateDecision) (r : Repository)
      → d.status ≡ blocked
      → Extends r (store_block request d r)
      → IsBlockStore r
      → IsBlockStore (store_block request d r)
  unfolding IsBlockStore store_block
  store_block-IsBlockStore request d r status extends inv k e stored =
      elim (get-put_cases k (gate_key request) d e r.blocked_gate_decisions stored) [
        | inl (here, same) ↦ (
          gate_operation_hash request,
          ap (λ x. x.status) (sym same) ∙ status,
          ap (λ x. get x (put (gate_key request) (gate_operation_hash request) r.gate_requests))
                (sym here)
              ∙ get-put_self (gate_key request) (gate_operation_hash request) r.gate_requests,
        )
        | inr before ↦
            let (hash, is_blocked, at) = inv k e before in
            (hash, is_blocked, extends.gate_requests_kept k hash at)
      ]

  Judged-IsBlockStore :
      (request : KillSwitchGateRequest) (r : Repository) (out : Outcome KillSwitchGateDecision)
      → IsOpen request r
      → Judged request r out
      → IsBlockStore r
      → IsBlockStore out.1
  unfolding open_guard
  Judged-IsBlockStore request r _ free (failed e) inv = inv
  Judged-IsBlockStore request r _ free (refused d status) inv =
      store_block-IsBlockStore request d r status (store_block-Extends request d r free) inv
  Judged-IsBlockStore request r _ free (admitted g a d _ _ _ _ _) inv =
      same_blocks r (open_guard request r) refl
        (open_guard-Extends request r free).gate_requests_kept inv
  Judged-IsBlockStore request r _ free (stopped d event chain status _ _) inv =
      let known = is_some (get event.event_hash r.events_by_hash) in
      let logged = noted known chain event r in
      let (_, _, blocks, _, _) = noted-keeps known chain event r in
      store_block-IsBlockStore request d logged status
        (store_block-Extends request d logged (noted-IsOpen request known chain event r free))
        (same_blocks r logged blocks (noted-Extends known chain event r).gate_requests_kept inv)

  Mutated-IsBlockStore :
      {Keyed : OperationKey → String → Type 0}
      {Planned : StateKey → OperationKey → String → KillSwitchTransition → Type 0}
      (incident : Option KillSwitchIncident) (r : Repository) (out : Outcome KillSwitchTransition)
      → Mutated Keyed Planned incident r out
      → IsBlockStore r
      → IsBlockStore out.1
  Mutated-IsBlockStore incident r _ (raised e) inv = inv
  Mutated-IsBlockStore incident r _ (replayed key hash t _ _) inv = inv
  Mutated-IsBlockStore incident r _ (committed p key hash t chain _ _ absent _ _ _) inv =
      same_blocks r (after_commit incident p key hash t chain r)
        (after_commit-blocks incident p key hash t chain r)
        (after_commit-Extends incident p key hash t chain r absent).gate_requests_kept inv

  Step-IsBlockStore : (r s : Repository) → Step r s → IsBlockStore r → IsBlockStore s
  unfolding leave_guard
  Step-IsBlockStore r _ (initializes scope account_id actor at key) =
      Mutated-IsBlockStore none r _ (initialize-Initialized scope account_id actor at key r)
  Step-IsBlockStore r _ (activates request) =
      Mutated-IsBlockStore (some request.incident) r _ (activate-Activated request r)
  Step-IsBlockStore r _ (recovers request at) =
      Mutated-IsBlockStore none r _ (recover-Recovered request at r)
  Step-IsBlockStore r _ (enters request actor) =
      entered request r _ (enter_guard-Guarded request actor r)
    where
      entered :
          (request : KillSwitchGateRequest) (r : Repository) (out : Outcome KillSwitchGateDecision)
          → Guarded request r out
          → IsBlockStore r
          → IsBlockStore out.1
      entered request r _ (conflicting e) inv = inv
      entered request r _ (repeated d _ _) inv = inv
      entered request r out (judged _ same absent rest) inv =
          Judged-IsBlockStore request r out (same, absent) rest inv
  Step-IsBlockStore r _ (leaves _) = same_blocks r (leave_guard allowed r) refl (λ _ _ e. e)

  pub Reachable-IsBlockStore : (r : Repository) → Reachable r → IsBlockStore r
  unfolding empty_repository IsBlockStore get
  Reachable-IsBlockStore r runs =
      Runs-keeps (λ r s. IsBlockStore r → IsBlockStore s) (λ _ inv. inv)
        (λ _ _ _ f g inv. g (f inv)) Step-IsBlockStore empty_repository r runs empty
    where
      empty : IsBlockStore empty_repository
      empty k d stored = cc
