-- ===== src/KillSwitch/Payloads.antt =====
-- The payloads that packages/quant_agent/risk/kill_switch/contracts.py hashes: the fields of a
-- record without its own hash, and the whole record where another one contains it.
use quant_agent.Prelude.{String, Option, none, some, map}
use quant_agent.Canonical.{
  Json, null, int, instant, text, obj, Fields, end, field, opt_text, opt_instant, texts,
}
use quant_agent.KillSwitch.Contracts.{
  KillSwitchScope, global, account, KillSwitchStatus, inactive, active, KillSwitchTriggerSource,
  manual, reconciliation, risk, data_source, execution, strategy, KillSwitchEventType, initialized,
  activated, trigger_added, recovered, order_blocked, KillSwitchGateStatus, allowed, blocked,
  KillSwitchGateReason, global_active, account_active, state_unavailable, repository_failure,
  KillSwitchIncident, KillSwitchState, KillSwitchAuditEvent, KillSwitchTransition,
  KillSwitchGateRequest, KillSwitchGateDecision,
}

abbrev pub scope_value : KillSwitchScope → String
scope_value global = "GLOBAL"
scope_value account = "ACCOUNT"

abbrev status_value : KillSwitchStatus → String
status_value inactive = "INACTIVE"
status_value active = "ACTIVE"

abbrev source_value : KillSwitchTriggerSource → String
source_value manual = "MANUAL"
source_value reconciliation = "RECONCILIATION"
source_value risk = "RISK"
source_value data_source = "DATA"
source_value execution = "EXECUTION"
source_value strategy = "STRATEGY"

abbrev pub event_type_value : KillSwitchEventType → String
event_type_value initialized = "INITIALIZED"
event_type_value activated = "ACTIVATED"
event_type_value trigger_added = "TRIGGER_ADDED"
event_type_value recovered = "RECOVERED"
event_type_value order_blocked = "ORDER_BLOCKED"

abbrev gate_status_value : KillSwitchGateStatus → String
gate_status_value allowed = "ALLOWED"
gate_status_value blocked = "BLOCKED"

abbrev pub reason_value : KillSwitchGateReason → String
reason_value global_active = "GLOBAL_ACTIVE"
reason_value account_active = "ACCOUNT_ACTIVE"
reason_value state_unavailable = "STATE_UNAVAILABLE"
reason_value repository_failure = "REPOSITORY_FAILURE"

-- `_state_identity`, what it hashes.
unfoldable pub identity_payload : KillSwitchScope → Option String → Json
identity_payload scope account_id =
    obj (field "scope" (text (scope_value scope)) (field "account_id" (opt_text account_id) end))

unfoldable pub incident_fields : KillSwitchIncident → Fields → Fields
incident_fields x rest = field "schema_version" (text x.schema_version) (
    field "incident_id" (text x.incident_id) (
      field "scope" (text (scope_value x.scope)) (
        field "account_id" (opt_text x.account_id) (
          field "trigger_source" (text (source_value x.trigger_source)) (
            field "reason_codes" (texts x.reason_codes) (
              field "evidence_hashes" (texts x.evidence_hashes) (
                field "source_reference_hash" (text x.source_reference_hash) (
                  field "summary" (text x.summary)
                    (field "triggered_at" (instant x.triggered_at) rest)))))))))

-- `KillSwitchIncident._identity_payload`
unfoldable pub incident_identity : KillSwitchIncident → Json
incident_identity x = obj (
    field "scope" (text (scope_value x.scope)) (
      field "account_id" (opt_text x.account_id) (
        field "trigger_source" (text (source_value x.trigger_source))
          (field "source_reference_hash" (text x.source_reference_hash) end))))

-- `KillSwitchIncident._content_payload`, and the incident with its hash.
unfoldable pub incident_content : KillSwitchIncident → Json
unfolding incident_fields
incident_content x = obj (incident_fields x end)

incident_json : KillSwitchIncident → Json
unfolding incident_fields
incident_json x = obj (incident_fields x (field "incident_hash" (text x.incident_hash) end))

unfoldable pub state_fields : KillSwitchState → Fields → Fields
state_fields s rest = field "schema_version" (text s.schema_version) (
    field "state_id" (text s.state_id) (
      field "scope" (text (scope_value s.scope)) (
        field "account_id" (opt_text s.account_id) (
          field "status" (text (status_value s.status)) (
            field "revision" (int s.revision) (
              field "active_since" (opt_instant s.active_since) (
                field "active_incident_ids" (texts s.active_incident_ids) (
                  field "latest_incident_hash" (opt_text s.latest_incident_hash) (
                    field "changed_at" (instant s.changed_at) (
                      field "changed_by_actor_hash" (text s.changed_by_actor_hash) (
                        field "previous_state_hash" (opt_text s.previous_state_hash) rest)))))))))))

-- `KillSwitchState._content_payload`
unfoldable pub state_content : KillSwitchState → Json
unfolding state_fields
state_content s = obj (state_fields s end)

state_json : KillSwitchState → Json
unfolding state_fields
state_json s = obj (state_fields s (field "state_hash" (text s.state_hash) end))

unfoldable pub event_fields : KillSwitchAuditEvent → Fields → Fields
event_fields e rest = field "schema_version" (text e.schema_version) (
    field "event_id" (text e.event_id) (
      field "event_type" (text (event_type_value e.event_type)) (
        field "scope" (text (scope_value e.scope)) (
          field "account_id" (opt_text e.account_id) (
            field "state_before_hash" (opt_text e.state_before_hash) (
              field "state_after_hash" (text e.state_after_hash) (
                field "state_revision" (int e.state_revision) (
                  field "actor_hash" (text e.actor_hash) (
                    field "operation_hash" (text e.operation_hash) (
                      field "incident_id" (opt_text e.incident_id) (
                        field "reason_codes" (texts e.reason_codes) (
                          field "evidence_hashes" (texts e.evidence_hashes) (
                            field "occurred_at" (instant e.occurred_at) (
                              field "previous_event_hash" (opt_text e.previous_event_hash)
                                rest))))))))))))))

-- `KillSwitchAuditEvent._identity_payload`
unfoldable pub event_identity : KillSwitchAuditEvent → Json
event_identity e = obj (
    field "event_type" (text (event_type_value e.event_type)) (
      field "operation_hash" (text e.operation_hash)
        (field "state_after_hash" (text e.state_after_hash) end)))

-- `KillSwitchAuditEvent._content_payload`
unfoldable pub event_content : KillSwitchAuditEvent → Json
unfolding event_fields
event_content e = obj (event_fields e end)

event_json : KillSwitchAuditEvent → Json
unfolding event_fields
event_json e = obj (event_fields e (field "event_hash" (text e.event_hash) end))

abbrev opt_state : Option KillSwitchState → Json
opt_state none = null
opt_state (some s) = state_json s

abbrev opt_incident : Option KillSwitchIncident → Json
opt_incident none = null
opt_incident (some x) = incident_json x

-- `KillSwitchTransition._content_payload`
unfoldable pub transition_content : KillSwitchTransition → Json
unfolding state_json incident_json event_json
transition_content t = obj (
    field "engine_version" (text t.engine_version) (
      field "operation_hash" (text t.operation_hash) (
        field "state_before" (opt_state t.state_before) (
          field "state_after" (state_json t.state_after) (
            field "incident" (opt_incident t.incident)
              (field "audit_event" (event_json t.audit_event) end))))))

-- What `KillSwitchGateRequest.operation_hash` hashes: all but the time of the check.
unfoldable pub gate_operation : KillSwitchGateRequest → Json
gate_operation r = obj (
    field "schema_version" (text r.schema_version) (
      field "request_id" (text r.request_id) (
        field "account_id" (text r.account_id) (
          field "idempotency_key" (text r.idempotency_key) (
            field "batch_hash" (text r.batch_hash)
              (field "source_request_hash" (text r.source_request_hash) end))))))

-- `KillSwitchGateDecision._content_payload`
unfoldable pub decision_content : KillSwitchGateDecision → Json
decision_content d = obj (
    field "engine_version" (text d.engine_version) (
      field "request_hash" (text d.request_hash) (
        field "status" (text (gate_status_value d.status)) (
          field "checked_at" (instant d.checked_at) (
            field "global_state_hash" (opt_text d.global_state_hash) (
              field "account_state_hash" (opt_text d.account_state_hash) (
                field "blocking_state_hashes" (texts d.blocking_state_hashes) (
                  field "reason_codes" (texts (map reason_value d.reason_codes)) (
                    field "incident_ids" (texts d.incident_ids)
                      (field "audit_event_hash" (opt_text d.audit_event_hash) end))))))))))
