-- ===== src/KillSwitch/Mutations.antt =====
-- The outcomes of each of `initialize`, `activate` and `recover` (packages/quant_agent/risk/
-- kill_switch/repository.py), and what an outcome says of the repository.
use quant_agent.Prelude.{ℕ, ◌≡◌, refl, String, not, Option, none, some, ok, raise_if}
use quant_agent.Canonical.{Hashing}
use quant_agent.KillSwitch.Contracts.{
  KillSwitchScope, KillSwitchState, KillSwitchActor, KillSwitchActivationRequest,
  KillSwitchRecoveryRequest, KillSwitchTransition, authorization_error,
}
use quant_agent.KillSwitch.Builders.{initial_state}
use quant_agent.KillSwitch.Store.{
  OperationKey, state_key_laws, operation_key_laws, gate_key_laws, text_key_laws, Repository,
}
use quant_agent.KillSwitch.Plans.{
  state_key, operation_key, may_initialize, effective_key, initialize_hash, plan_initialize,
  plan_activate, plan_recover,
}
use quant_agent.KillSwitch.Repository.{initialize, activate, recover}
use quant_agent.KillSwitch.Outcomes.{
  tail-Ends, raised, replayed, committed, Outcome, continue_cases, Mutated,
}

module _ ⦃h : Hashing⦄ where
  -- The operations by the key and the hash they are stored under.
  abbrev pub IsActivation : KillSwitchActivationRequest → OperationKey → String → Type 0
  IsActivation request key hash =
      (operation_key request.incident.scope request.incident.account_id request.idempotency_key
        ≡ ok key)
      × (hash ≡ request.request_hash)

  abbrev pub Activated :
      KillSwitchActivationRequest → Repository → Outcome KillSwitchTransition → Type 0
  Activated request r =
      Mutated (IsActivation request)
        (λ p k hash t.
          (state_key request.incident.scope request.incident.account_id ≡ ok p)
          × (plan_activate p request r ≡ ok t))
        (some request.incident) r

  pub activate-Activated :
      (request : KillSwitchActivationRequest) (r : Repository)
      → Activated request r (activate request r)
  unfolding activate
  activate-Activated request r =
      continue_cases (Activated request r)
        (operation_key request.incident.scope request.incident.account_id request.idempotency_key) _
        r (λ e _. raised e)
        (λ key keyed.
          tail-Ends (IsActivation request)
            (state_key request.incident.scope request.incident.account_id)
            (λ p. plan_activate p request) (some request.incident) key request.request_hash r
            (keyed, refl))

  abbrev pub IsRecovery : KillSwitchRecoveryRequest → OperationKey → String → Type 0
  IsRecovery request key hash =
      (operation_key request.approval.scope request.approval.account_id request.idempotency_key
        ≡ ok key)
      × (hash ≡ request.request_hash)

  abbrev pub Recovered :
      KillSwitchRecoveryRequest → ℕ → Repository → Outcome KillSwitchTransition → Type 0
  Recovered request processed_at r =
      Mutated (IsRecovery request)
        (λ p k hash t.
          (state_key request.approval.scope request.approval.account_id ≡ ok p)
          × (plan_recover p request processed_at r ≡ ok t))
        none r

  pub recover-Recovered :
      (request : KillSwitchRecoveryRequest) (processed_at : ℕ) (r : Repository)
      → Recovered request processed_at r (recover request processed_at r)
  unfolding recover
  recover-Recovered request processed_at r =
      continue_cases (Recovered request processed_at r)
        (operation_key request.approval.scope request.approval.account_id request.idempotency_key) _
        r (λ e _. raised e)
        (λ key keyed.
          tail-Ends (IsRecovery request)
            (state_key request.approval.scope request.approval.account_id)
            (λ p. plan_recover p request processed_at) none key request.request_hash r
            (keyed, refl))

  abbrev pub IsInitialization : KillSwitchState → Option String → OperationKey → String → Type 0
  IsInitialization after idempotency_key key hash =
      (effective : String) × (effective_key after idempotency_key ≡ ok effective)
      × (operation_key after.scope after.account_id effective ≡ ok key)
      × (hash ≡ initialize_hash effective after)

  -- A first state, or a raise before there is one.
  abbrev pub Initialized :
      KillSwitchScope
      → Option String
      → KillSwitchActor
      → ℕ
      → Option String
      → Repository
      → Outcome KillSwitchTransition
      → Type 0
  Initialized scope account_id actor changed_at idempotency_key r =
      Mutated
        (λ key hash.
          (after : KillSwitchState) × (initial_state scope account_id actor changed_at ≡ ok after)
          × IsInitialization after idempotency_key key hash)
        (λ p k hash t.
          (after : KillSwitchState) × (initial_state scope account_id actor changed_at ≡ ok after)
          × (state_key after.scope after.account_id ≡ ok p)
          × (plan_initialize p after actor hash changed_at r ≡ ok t))
        none r

  weaken :
      (scope : KillSwitchScope) (account_id : Option String) (actor : KillSwitchActor) (at : ℕ)
      (idempotency_key : Option String) (r : Repository) (after : KillSwitchState) (hash₀ : String)
      → initial_state scope account_id actor at ≡ ok after
      → (out : Outcome KillSwitchTransition)
      → Mutated
          (λ k hash. IsInitialization after idempotency_key k hash × (hash ≡ hash₀))
          (λ p k hash t.
            (state_key after.scope after.account_id ≡ ok p)
            × (plan_initialize p after actor hash₀ at r ≡ ok t))
          none
          r
          out
      → Initialized scope account_id actor at idempotency_key r out
  weaken scope account_id actor at idem r after hash₀ first _ (raised e) = raised e
  weaken scope account_id actor at idem r after hash₀ first _
        (replayed key hash t (keyed, _) stored) =
      replayed key hash t (after, first, keyed) stored
  weaken scope account_id actor at idem r after hash₀ first _
        (committed p key hash t chain free (keyed, same) absent (placed, planned) chained valid) =
      committed p key hash t chain free (after, first, keyed) absent
        (after, first, placed, rw same planned) chained valid

  pub initialize-Initialized :
      (scope : KillSwitchScope) (account_id : Option String) (actor : KillSwitchActor)
      (changed_at : ℕ) (idempotency_key : Option String) (r : Repository)
      → Initialized scope account_id actor changed_at idempotency_key r
          (initialize scope account_id actor changed_at idempotency_key r)
  unfolding initialize
  initialize-Initialized scope account_id actor at idem r =
      let End = Initialized scope account_id actor at idem r in
      continue_cases End (raise_if (not (may_initialize actor)) authorization_error) _ r
        (λ e _. raised e)
        (λ _ _.
          continue_cases End (initial_state scope account_id actor at) _ r (λ e _. raised e)
            (λ after first.
              continue_cases End (effective_key after idem) _ r (λ e _. raised e)
                (λ effective named.
                  continue_cases End (operation_key after.scope after.account_id effective) _ r
                    (λ e _. raised e)
                    (λ key keyed.
                      weaken scope account_id actor at idem r after
                        (initialize_hash effective after) first _
                        (tail-Ends
                          (λ k hash.
                            IsInitialization after idem k hash
                            × (hash ≡ initialize_hash effective after))
                          (state_key after.scope after.account_id)
                          (λ p. plan_initialize p after actor (initialize_hash effective after) at)
                          none key (initialize_hash effective after) r
                          ((effective, named, keyed, refl), refl))))))
