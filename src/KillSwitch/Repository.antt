-- ===== src/KillSwitch/Repository.antt =====
-- The methods of `InMemoryKillSwitchRepository` (packages/quant_agent/risk/kill_switch/
-- repository.py) that change the states. The clock's reading is an argument of `recover`.
use quant_agent.Prelude.{
  ℕ, String, Bool, true, false, not, Option, none, some, [], ◌∷◌, ◌++◌, Result, raise_if, ◌==◌,
}
use quant_agent.Canonical.{Hashing}
use quant_agent.Dict.{Dict, get, put}
use quant_agent.KillSwitch.Contracts.{
  KillSwitchScope, KillSwitchActor, KillSwitchIncident, KillSwitchState,
  KillSwitchActivationRequest, KillSwitchRecoveryRequest, KillSwitchAuditEvent,
  KillSwitchTransition, KillSwitchError, repository_conflict, authorization_error,
}
use quant_agent.KillSwitch.Checks.{is_some}
use quant_agent.KillSwitch.Builders.{initial_state}
use quant_agent.KillSwitch.Store.{
  StateKey, OperationKey, state_key_laws, operation_key_laws, gate_key_laws, text_key_laws, Action,
  return, lift, gets, modify, ◌>>=◌, ◌>>◌, reads, Repository,
}
use quant_agent.KillSwitch.Plans.{
  state_key, operation_key, committed_operation, validate_event_append, found_state, may_initialize,
  effective_key, initialize_hash, plan_initialize, plan_activate, plan_recover,
}

-- `_reject_reentrant_mutation`
unfoldable pub reject_reentrant_mutation : Repository → Result KillSwitchError (Unit {0})
reject_reentrant_mutation r = raise_if (not (r.active_order_guards == 0)) repository_conflict

unfoldable pub record_event : StateKey → KillSwitchAuditEvent → Repository → Repository
record_event key event r = record r {
  events = r.events ++ (event ∷ []);
  events_by_hash = put event.event_hash event r.events_by_hash;
  events_by_id = put event.event_id event r.events_by_id;
  latest_event_hashes = put key event.event_hash r.latest_event_hashes;
}

unfoldable pub record_new : Bool → KillSwitchAuditEvent → Action (Unit {0})
unfolding record_event
record_new true event = return tt
record_new false event = do
  key ← lift (state_key event.scope event.account_id)
  modify (record_event key event)

-- `_append_event`
unfoldable pub append_event : KillSwitchAuditEvent → Action (Unit {0})
unfolding record_new
append_event event = do
  reads (validate_event_append event)
  known ← gets (λ r. is_some (get event.event_hash r.events_by_hash))
  record_new known event

-- `self._incidents.setdefault(incident.incident_id, incident)`
unfoldable pub add_incident :
    Option KillSwitchIncident → Dict String KillSwitchIncident → Dict String KillSwitchIncident
add_incident none d = d
add_incident (some x) d = elim (get x.incident_id d) [ none ↦ put x.incident_id x d | some _ ↦ d ]

-- What the three mutations write, in their order.
unfoldable pub commit :
    Option KillSwitchIncident
    → StateKey
    → OperationKey
    → String
    → KillSwitchTransition
    → Action KillSwitchTransition
unfolding append_event
commit incident place key hash t = do
  reads (validate_event_append t.audit_event)
  modify (λ r. record r { incidents = add_incident incident r.incidents })
  modify (λ r. record r { states = put place t.state_after r.states })
  append_event t.audit_event
  modify (λ r. record r { operations = put key (hash, t) r.operations })
  return t

abbrev pub or_replay :
    Option KillSwitchTransition → Action KillSwitchTransition → Action KillSwitchTransition
or_replay (some committed) rest = return committed
or_replay none rest = rest

unfoldable pub initialize :
    ⦃h : Hashing⦄
    → KillSwitchScope
    → Option String
    → KillSwitchActor
    → ℕ
    → Option String
    → Action KillSwitchTransition
initialize scope account_id actor changed_at idempotency_key = do
  lift (raise_if (not (may_initialize actor)) authorization_error)
  after ← lift (initial_state scope account_id actor changed_at)
  effective ← lift (effective_key after idempotency_key)
  let hash = initialize_hash effective after
  key ← lift (operation_key after.scope after.account_id effective)
  reads reject_reentrant_mutation
  committed ← reads (committed_operation key hash)
  or_replay committed (do
    place ← lift (state_key after.scope after.account_id)
    t ← reads (plan_initialize place after actor hash changed_at)
    commit none place key hash t)

unfoldable pub activate : ⦃h : Hashing⦄ → KillSwitchActivationRequest → Action KillSwitchTransition
activate request = do
  let incident = request.incident
  key ← lift (operation_key incident.scope incident.account_id request.idempotency_key)
  reads reject_reentrant_mutation
  committed ← reads (committed_operation key request.request_hash)
  or_replay committed (do
    place ← lift (state_key incident.scope incident.account_id)
    t ← reads (plan_activate place request)
    commit (some incident) place key request.request_hash t)

unfoldable pub recover : ⦃h : Hashing⦄ → KillSwitchRecoveryRequest → ℕ → Action KillSwitchTransition
recover request processed_at = do
  let approval = request.approval
  key ← lift (operation_key approval.scope approval.account_id request.idempotency_key)
  reads reject_reentrant_mutation
  committed ← reads (committed_operation key request.request_hash)
  or_replay committed (do
    place ← lift (state_key approval.scope approval.account_id)
    t ← reads (plan_recover place request processed_at)
    commit none place key request.request_hash t)

unfoldable pub get_state : KillSwitchScope → Option String → Action KillSwitchState
get_state scope account_id = do
  key ← lift (state_key scope account_id)
  reads (λ r. found_state (get key r.states))
