-- ===== src/KillSwitch/Builders.antt =====
-- The class methods of packages/quant_agent/risk/kill_switch/contracts.py that build the states, the
-- audit events, the transitions and the gate decisions.
use quant_agent.Prelude.{
  ℕ, ◌+◌, String, not, ◌&&◌, ◌||◌, Option, none, some, List, [], ◌∷◌, if◌then◌else◌, Result, ok,
  ◌>>=◌, ◌>>◌, raise_if, ltb, sorted_set, opt_beq,
}
use Prim.Native.String.{◌++◌ as append_text}
use quant_agent.Canonical.{Hashing, stable_hash}
use quant_agent.KillSwitch.Contracts.{
  KillSwitchScope, inactive, active, KillSwitchEventType, KillSwitchGateStatus,
  KillSwitchGateReason, KillSwitchActor, KillSwitchIncident, KillSwitchState, KillSwitchAuditEvent,
  KillSwitchTransition, KillSwitchGateRequest, KillSwitchGateDecision, KillSwitchError, value_error,
  engine_version, scope_beq, is_active,
}
use quant_agent.KillSwitch.Payloads.{
  state_content, event_identity, event_content, transition_content, gate_operation,
  decision_content,
}
use quant_agent.KillSwitch.Checks.{
  scope_account, state_identity, canonical_texts, make_state, make_event, opt_state_hash,
  valid_transition, sorted_reasons, valid_decision,
}

-- The record of some values, with the hash of its content.
abbrev with_hash : ⦃h : Hashing⦄ → KillSwitchState → KillSwitchState
with_hash s = record s { state_hash = stable_hash (state_content s) }

-- `KillSwitchState.initial`
unfoldable pub initial_state :
    ⦃h : Hashing⦄
    → KillSwitchScope
    → Option String
    → KillSwitchActor
    → ℕ
    → Result KillSwitchError KillSwitchState
initial_state scope account_id actor changed_at = do
  name ← scope_account scope account_id
  make_state (
      with_hash (record {
        schema_version = "1";
        state_id = state_identity scope name;
        scope = scope;
        account_id = name;
        status = inactive;
        revision = 0;
        active_since = none;
        active_incident_ids = [];
        latest_incident_hash = none;
        changed_at = changed_at;
        changed_by_actor_hash = actor.actor_hash;
        previous_state_hash = none;
        state_hash = "";
      }))

-- `KillSwitchState.activate`
unfoldable pub activate_state :
    ⦃h : Hashing⦄
    → KillSwitchState
    → KillSwitchIncident
    → KillSwitchActor
    → ℕ
    → Result KillSwitchError KillSwitchState
activate_state previous incident actor changed_at = do
  raise_if
      (not (
        scope_beq previous.scope incident.scope && opt_beq previous.account_id incident.account_id))
      value_error
  raise_if (ltb changed_at previous.changed_at || ltb changed_at incident.triggered_at) value_error
  make_state (
      with_hash (record {
        schema_version = "1";
        state_id = previous.state_id;
        scope = previous.scope;
        account_id = previous.account_id;
        status = active;
        revision = previous.revision + 1;
        active_since =
            if is_active previous.status then previous.active_since else some incident.triggered_at;
        active_incident_ids = sorted_set (incident.incident_id ∷ previous.active_incident_ids);
        latest_incident_hash = some incident.incident_hash;
        changed_at = changed_at;
        changed_by_actor_hash = actor.actor_hash;
        previous_state_hash = some previous.state_hash;
        state_hash = "";
      }))

-- `KillSwitchState.recover`
unfoldable pub recover_state :
    ⦃h : Hashing⦄ → KillSwitchState → KillSwitchActor → ℕ → Result KillSwitchError KillSwitchState
recover_state previous actor changed_at = do
  raise_if (not (is_active previous.status)) value_error
  raise_if (ltb changed_at previous.changed_at) value_error
  make_state (
      with_hash (record {
        schema_version = "1";
        state_id = previous.state_id;
        scope = previous.scope;
        account_id = previous.account_id;
        status = inactive;
        revision = previous.revision + 1;
        active_since = none;
        active_incident_ids = [];
        latest_incident_hash = previous.latest_incident_hash;
        changed_at = changed_at;
        changed_by_actor_hash = actor.actor_hash;
        previous_state_hash = some previous.state_hash;
        state_hash = "";
      }))

abbrev opt_incident_id : Option KillSwitchIncident → Option String
opt_incident_id none = none
opt_incident_id (some x) = some x.incident_id

abbrev with_event_id : ⦃h : Hashing⦄ → KillSwitchAuditEvent → KillSwitchAuditEvent
with_event_id e = record e { event_id = append_text "kill-event:" (stable_hash (event_identity e)) }

abbrev with_event_hash : ⦃h : Hashing⦄ → KillSwitchAuditEvent → KillSwitchAuditEvent
with_event_hash e = record e { event_hash = stable_hash (event_content e) }

-- `KillSwitchAuditEvent.build`
unfoldable pub build_event :
    ⦃h : Hashing⦄
    → KillSwitchEventType
    → Option KillSwitchState
    → KillSwitchState
    → KillSwitchActor
    → String
    → Option KillSwitchIncident
    → List String
    → List String
    → ℕ
    → Option String
    → Result KillSwitchError KillSwitchAuditEvent
build_event kind before after actor operation incident reasons evidence occurred_at previous = do
  ordered_reasons ← canonical_texts reasons
  make_event (
      with_event_hash (
        with_event_id (record {
          schema_version = "1";
          event_id = "";
          event_type = kind;
          scope = after.scope;
          account_id = after.account_id;
          state_before_hash = opt_state_hash before;
          state_after_hash = after.state_hash;
          state_revision = after.revision;
          actor_hash = actor.actor_hash;
          operation_hash = operation;
          incident_id = opt_incident_id incident;
          reason_codes = ordered_reasons;
          evidence_hashes = sorted_set evidence;
          occurred_at = occurred_at;
          previous_event_hash = previous;
          event_hash = "";
        })))

abbrev with_transition_hash : ⦃h : Hashing⦄ → KillSwitchTransition → KillSwitchTransition
with_transition_hash t = record t { transition_hash = stable_hash (transition_content t) }

-- The transition that `KillSwitchTransition.build` hands to its constructor.
unfoldable pub transition_of :
    ⦃h : Hashing⦄
    → String
    → Option KillSwitchState
    → KillSwitchState
    → Option KillSwitchIncident
    → KillSwitchAuditEvent
    → KillSwitchTransition
transition_of operation before after incident event = with_transition_hash (record {
  engine_version = engine_version;
  operation_hash = operation;
  state_before = before;
  state_after = after;
  incident = incident;
  audit_event = event;
  transition_hash = "";
})

-- `KillSwitchTransition.build`
unfoldable pub build_transition :
    ⦃h : Hashing⦄
    → String
    → Option KillSwitchState
    → KillSwitchState
    → Option KillSwitchIncident
    → KillSwitchAuditEvent
    → Result KillSwitchError KillSwitchTransition
unfolding transition_of
build_transition operation before after incident event = do
  let built = transition_of operation before after incident event
  raise_if (not (valid_transition built)) value_error
  ok built

-- `KillSwitchGateRequest.operation_hash`
unfoldable pub gate_operation_hash : ⦃h : Hashing⦄ → KillSwitchGateRequest → String
gate_operation_hash r = stable_hash (gate_operation r)

abbrev with_decision_hash : ⦃h : Hashing⦄ → KillSwitchGateDecision → KillSwitchGateDecision
with_decision_hash d = record d { decision_hash = stable_hash (decision_content d) }

-- The decision that `KillSwitchGateDecision.build` hands to its constructor.
unfoldable pub decision_of :
    ⦃h : Hashing⦄
    → KillSwitchGateRequest
    → KillSwitchGateStatus
    → Option String
    → Option String
    → List String
    → List KillSwitchGateReason
    → List String
    → Option String
    → KillSwitchGateDecision
decision_of request status global_hash account_hash blocking reasons incidents audit =
    with_decision_hash (record {
      engine_version = engine_version;
      request_hash = request.request_hash;
      status = status;
      checked_at = request.checked_at;
      global_state_hash = global_hash;
      account_state_hash = account_hash;
      blocking_state_hashes = sorted_set blocking;
      reason_codes = sorted_reasons reasons;
      incident_ids = sorted_set incidents;
      audit_event_hash = audit;
      decision_hash = "";
    })

-- `KillSwitchGateDecision.build`
unfoldable pub build_decision :
    ⦃h : Hashing⦄
    → KillSwitchGateRequest
    → KillSwitchGateStatus
    → Option String
    → Option String
    → List String
    → List KillSwitchGateReason
    → List String
    → Option String
    → Result KillSwitchError KillSwitchGateDecision
unfolding decision_of
build_decision request status global_hash account_hash blocking reasons incidents audit = do
  let built = decision_of request status global_hash account_hash blocking reasons incidents audit
  raise_if (not (valid_decision built)) value_error
  ok built
