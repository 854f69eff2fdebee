-- ===== src/KillSwitch/Plans.antt =====
-- What the methods of `InMemoryKillSwitchRepository` (packages/quant_agent/risk/kill_switch/
-- repository.py) read and compute before they write: keys, committed operations, the check of the
-- audit chain, and the transitions to commit.
use quant_agent.Prelude.{
  ℕ, String, Bool, false, not, ◌&&◌, ◌||◌, Option, none, some, [], ◌∷◌, if◌then◌else◌, Result, ok,
  err, ◌>>=◌, ◌>>◌, raise_if, ltb, ◌==◌, opt_beq, ◌=s=◌, texts_beq, max,
}
use Prim.Native.String.{◌++◌ as append_text}
use quant_agent.Canonical.{Hashing, stable_hash, text, obj, field, end}
use quant_agent.Dict.{get}
use quant_agent.KillSwitch.Contracts.{
  scope_beq, is_active, is_human, is_system, is_risk_admin, is_system_role, event_type_beq,
  source_beq, KillSwitchScope, KillSwitchActor, KillSwitchIncident, KillSwitchState,
  KillSwitchActivationRequest, KillSwitchRecoveryApproval, KillSwitchRecoveryRequest,
  KillSwitchAuditEvent, KillSwitchTransition, KillSwitchGateRequest, KillSwitchError, global,
  account, initialized, activated, trigger_added, recovered, value_error, state_not_found,
  repository_conflict, idempotency_conflict, concurrent_update, incident_conflict,
  authorization_error,
}
use quant_agent.KillSwitch.Checks.{non_empty, is_some}
use quant_agent.KillSwitch.Builders.{activate_state, recover_state, build_event, build_transition}
use quant_agent.KillSwitch.Store.{
  StateKey, OperationKey, GateKey, Repository, state_key_laws, operation_key_laws, gate_key_laws,
  text_key_laws,
}

-- `_state_key`
unfoldable pub state_key : KillSwitchScope → Option String → Result KillSwitchError StateKey
state_key global none = ok (global, none)
state_key global (some _) = err value_error
state_key account none = err value_error
state_key account (some a) = do name ← non_empty a; ok (account, some name)

-- `_operation_key`
unfoldable pub operation_key :
    KillSwitchScope → Option String → String → Result KillSwitchError OperationKey
operation_key scope account_id idempotency_key = do
  place ← state_key scope account_id
  key ← non_empty idempotency_key
  ok (place.0, place.1, key)

-- `_committed_operation`
unfoldable pub same_content :
    String
    → Option (String × KillSwitchTransition)
    → Result KillSwitchError (Option KillSwitchTransition)
same_content hash none = ok none
same_content hash (some (committed_hash, transition)) =
    if committed_hash =s= hash then ok (some transition) else err idempotency_conflict

unfoldable pub committed_operation :
    OperationKey → String → Repository → Result KillSwitchError (Option KillSwitchTransition)
unfolding same_content
committed_operation key hash r = same_content hash (get key r.operations)

-- `_latest_event_hash`
unfoldable pub latest_event_hash :
    KillSwitchScope → Option String → Repository → Result KillSwitchError (Option String)
latest_event_hash scope account_id r = do
  key ← state_key scope account_id
  ok (get key r.latest_event_hashes)

-- `==` of two events: all fields.
unfoldable pub event_beq : KillSwitchAuditEvent → KillSwitchAuditEvent → Bool
event_beq a b =
    (a.schema_version =s= b.schema_version)
    && (a.event_id =s= b.event_id)
    && event_type_beq a.event_type b.event_type
    && scope_beq a.scope b.scope
    && opt_beq a.account_id b.account_id
    && opt_beq a.state_before_hash b.state_before_hash
    && (a.state_after_hash =s= b.state_after_hash)
    && a.state_revision == b.state_revision
    && (a.actor_hash =s= b.actor_hash)
    && (a.operation_hash =s= b.operation_hash)
    && opt_beq a.incident_id b.incident_id
    && texts_beq a.reason_codes b.reason_codes
    && texts_beq a.evidence_hashes b.evidence_hashes
    && a.occurred_at == b.occurred_at
    && opt_beq a.previous_event_hash b.previous_event_hash
    && (a.event_hash =s= b.event_hash)

-- `==` of two incidents: all fields.
unfoldable pub incident_beq : KillSwitchIncident → KillSwitchIncident → Bool
incident_beq a b =
    (a.schema_version =s= b.schema_version)
    && (a.incident_id =s= b.incident_id)
    && scope_beq a.scope b.scope
    && opt_beq a.account_id b.account_id
    && source_beq a.trigger_source b.trigger_source
    && texts_beq a.reason_codes b.reason_codes
    && texts_beq a.evidence_hashes b.evidence_hashes
    && (a.source_reference_hash =s= b.source_reference_hash)
    && (a.summary =s= b.summary)
    && a.triggered_at == b.triggered_at
    && (a.incident_hash =s= b.incident_hash)

abbrev differs : Option KillSwitchAuditEvent → KillSwitchAuditEvent → Bool
differs none event = false
differs (some existing) event = not (event_beq existing event)

-- `_validate_event_append`
unfoldable pub validate_event_append :
    KillSwitchAuditEvent → Repository → Result KillSwitchError (Unit {0})
validate_event_append event r = do
  expected_previous ← latest_event_hash event.scope event.account_id r
  raise_if (not (opt_beq event.previous_event_hash expected_previous)) repository_conflict
  let existing = get event.event_hash r.events_by_hash
  if is_some existing
      then raise_if (differs existing event) repository_conflict
      else raise_if (differs (get event.event_id r.events_by_id) event) repository_conflict

-- A read of a state that must be there.
unfoldable pub found_state : Option KillSwitchState → Result KillSwitchError KillSwitchState
found_state none = err state_not_found
found_state (some s) = ok s

-- `initialize`: who may, its key, and the transition of a scope without a state.
abbrev pub may_initialize : KillSwitchActor → Bool
may_initialize actor =
    (is_system actor.kind && is_system_role actor.role)
    || (is_human actor.kind && is_risk_admin actor.role)

unfoldable pub effective_key : KillSwitchState → Option String → Result KillSwitchError String
effective_key s none = ok (append_text "initialize:" s.state_id)
effective_key s (some key) = non_empty key

unfoldable pub initialize_hash : ⦃h : Hashing⦄ → String → KillSwitchState → String
initialize_hash key s = stable_hash (
    obj (
      field "operation" (text "INITIALIZE")
        (field "idempotency_key" (text key) (field "state_hash" (text s.state_hash) end))))

unfoldable pub plan_initialize :
    ⦃h : Hashing⦄
    → StateKey
    → KillSwitchState
    → KillSwitchActor
    → String
    → ℕ
    → Repository
    → Result KillSwitchError KillSwitchTransition
plan_initialize key after actor operation changed_at r = do
  raise_if (is_some (get key r.states)) repository_conflict
  event ← build_event initialized none after actor operation none [] [] changed_at none
  build_transition operation none after none event

abbrev pub is_other : Option KillSwitchIncident → KillSwitchIncident → Bool
is_other none incident = false
is_other (some existing) incident = not (incident_beq existing incident)

-- `activate`, behind the replay of a committed operation.
unfoldable pub plan_activate :
    ⦃h : Hashing⦄
    → StateKey
    → KillSwitchActivationRequest
    → Repository
    → Result KillSwitchError KillSwitchTransition
plan_activate key request r = do
  let incident = request.incident
  before ← found_state (get key r.states)
  raise_if (is_other (get incident.incident_id r.incidents) incident) incident_conflict
  let activation_at = max request.requested_at before.changed_at
  after ← activate_state before incident request.actor activation_at
  previous ← latest_event_hash after.scope after.account_id r
  let kind = if is_active before.status then trigger_added else activated
  event ←
      build_event kind (some before) after request.actor request.request_hash (some incident)
        incident.reason_codes incident.evidence_hashes activation_at previous
  build_transition request.request_hash (some before) after (some incident) event

-- The state that an approval names is not the current one.
unfoldable pub mismatches : KillSwitchRecoveryApproval → KillSwitchState → Bool
mismatches approval s =
    not (is_active s.status)
    || not (s.state_hash =s= approval.expected_state_hash)
    || not (s.revision == approval.expected_revision)
    || not (opt_beq s.latest_incident_hash (some approval.expected_latest_incident_hash))

-- `recover`, behind the replay of a committed operation.
unfoldable pub plan_recover :
    ⦃h : Hashing⦄
    → StateKey
    → KillSwitchRecoveryRequest
    → ℕ
    → Repository
    → Result KillSwitchError KillSwitchTransition
plan_recover key request processed_at r = do
  let approval = request.approval
  raise_if (ltb processed_at request.requested_at) authorization_error
  raise_if (not (ltb processed_at approval.expires_at)) authorization_error
  before ← found_state (get key r.states)
  raise_if (mismatches approval before) concurrent_update
  after ← recover_state before request.actor processed_at
  previous ← latest_event_hash after.scope after.account_id r
  event ←
      build_event recovered (some before) after request.actor request.request_hash none
        ("APPROVED_RECOVERY" ∷ []) (approval.approval_hash ∷ []) processed_at previous
  build_transition request.request_hash (some before) after none event

abbrev pub gate_key : KillSwitchGateRequest → GateKey
gate_key request = (request.account_id, request.idempotency_key)
