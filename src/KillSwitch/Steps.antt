-- ===== src/KillSwitch/Steps.antt =====
-- The histories of an `InMemoryKillSwitchRepository` (packages/quant_agent/risk/kill_switch/
-- repository.py): any calls of its writing methods, with any arguments and any clock, in any
-- order, the ones that raise included. A guard is left when its order was let through.
use quant_agent.Prelude.{ℕ, ◌<◌, String, Option}
use quant_agent.Canonical.{Hashing}
use quant_agent.KillSwitch.Contracts.{
  KillSwitchScope, KillSwitchActor, KillSwitchActivationRequest, KillSwitchRecoveryRequest,
  KillSwitchGateRequest, allowed,
}
use quant_agent.KillSwitch.Store.{Repository, empty_repository}
use quant_agent.KillSwitch.Repository.{initialize, activate, recover}
use quant_agent.KillSwitch.Guard.{enter_guard, leave_guard}

pub data Step ⦃h : Hashing⦄ (r : Repository) : Repository → Type 0 where
  initializes :
      (scope : KillSwitchScope) (account_id : Option String) (actor : KillSwitchActor)
      (changed_at : ℕ) (idempotency_key : Option String)
      → Step r (initialize scope account_id actor changed_at idempotency_key r).1
  activates : (request : KillSwitchActivationRequest) → Step r (activate request r).1
  recovers :
      (request : KillSwitchRecoveryRequest) (processed_at : ℕ)
      → Step r (recover request processed_at r).1
  enters :
      (request : KillSwitchGateRequest) (actor : KillSwitchActor)
      → Step r (enter_guard request actor r).1
  leaves : 0 < r.active_order_guards → Step r (leave_guard allowed r)

pub data Runs ⦃h : Hashing⦄ (r : Repository) : Repository → Type 0 where
  stays : Runs r r
  steps : (s t : Repository) → Runs r s → Step s t → Runs r t

-- What each step keeps, every history keeps.
pub Runs-keeps :
    ⦃h : Hashing⦄ (R : Repository → Repository → Type 0)
    → ((r : Repository) → R r r)
    → ((r s t : Repository) → R r s → R s t → R r t)
    → ((r s : Repository) → Step r s → R r s)
    → (r s : Repository) → Runs r s
    → R r s
Runs-keeps R reflexive transitive step r _ stays = reflexive r
Runs-keeps R reflexive transitive step r _ (steps s t runs last) =
    transitive r s t (Runs-keeps R reflexive transitive step r s runs) (step s t last)

-- The repositories that a history makes from an empty one.
abbrev pub Reachable : ⦃h : Hashing⦄ → Repository → Type 0
Reachable r = Runs empty_repository r
