-- ===== src/KillSwitch/Contracts.antt =====
-- The records of packages/quant_agent/risk/kill_switch/contracts.py. An instant is a number of
-- microseconds.
use quant_agent.Prelude.{ℕ, String, Bool, true, false, Option, List}

pub data KillSwitchScope : Type 0 where
  global account : KillSwitchScope

pub data KillSwitchStatus : Type 0 where
  inactive active : KillSwitchStatus

pub data KillSwitchTriggerSource : Type 0 where
  manual reconciliation risk data_source execution strategy : KillSwitchTriggerSource

pub data KillSwitchActorKind : Type 0 where
  human system agent : KillSwitchActorKind

pub data KillSwitchActorRole : Type 0 where
  risk_admin operator system_role agent_role : KillSwitchActorRole

pub data KillSwitchEventType : Type 0 where
  initialized activated trigger_added recovered order_blocked : KillSwitchEventType

pub data KillSwitchGateStatus : Type 0 where
  allowed blocked : KillSwitchGateStatus

pub data KillSwitchGateReason : Type 0 where
  global_active account_active state_unavailable repository_failure : KillSwitchGateReason

pub record KillSwitchActor : Type 0 where
  pub actor_id : String
  pub kind : KillSwitchActorKind
  pub role : KillSwitchActorRole
  pub actor_hash : String

pub record KillSwitchIncident : Type 0 where
  pub schema_version : String
  pub incident_id : String
  pub scope : KillSwitchScope
  pub account_id : Option String
  pub trigger_source : KillSwitchTriggerSource
  pub reason_codes : List String
  pub evidence_hashes : List String
  pub source_reference_hash : String
  pub summary : String
  pub triggered_at : ℕ
  pub incident_hash : String

pub record KillSwitchState : Type 0 where
  pub schema_version : String
  pub state_id : String
  pub scope : KillSwitchScope
  pub account_id : Option String
  pub status : KillSwitchStatus
  pub revision : ℕ
  pub active_since : Option ℕ
  pub active_incident_ids : List String
  pub latest_incident_hash : Option String
  pub changed_at : ℕ
  pub changed_by_actor_hash : String
  pub previous_state_hash : Option String
  pub state_hash : String

pub record KillSwitchActivationRequest : Type 0 where
  pub schema_version : String
  pub request_id : String
  pub idempotency_key : String
  pub incident : KillSwitchIncident
  pub actor : KillSwitchActor
  pub requested_at : ℕ
  pub request_hash : String

pub record KillSwitchRecoveryApproval : Type 0 where
  pub schema_version : String
  pub approval_id : String
  pub scope : KillSwitchScope
  pub account_id : Option String
  pub expected_state_hash : String
  pub expected_revision : ℕ
  pub expected_latest_incident_hash : String
  pub approver : KillSwitchActor
  pub approved_at : ℕ
  pub expires_at : ℕ
  pub approval_hash : String

pub record KillSwitchRecoveryRequest : Type 0 where
  pub schema_version : String
  pub request_id : String
  pub idempotency_key : String
  pub approval : KillSwitchRecoveryApproval
  pub actor : KillSwitchActor
  pub requested_at : ℕ
  pub request_hash : String

pub record KillSwitchAuditEvent : Type 0 where
  pub schema_version : String
  pub event_id : String
  pub event_type : KillSwitchEventType
  pub scope : KillSwitchScope
  pub account_id : Option String
  pub state_before_hash : Option String
  pub state_after_hash : String
  pub state_revision : ℕ
  pub actor_hash : String
  pub operation_hash : String
  pub incident_id : Option String
  pub reason_codes : List String
  pub evidence_hashes : List String
  pub occurred_at : ℕ
  pub previous_event_hash : Option String
  pub event_hash : String

pub record KillSwitchTransition : Type 0 where
  pub engine_version : String
  pub operation_hash : String
  pub state_before : Option KillSwitchState
  pub state_after : KillSwitchState
  pub incident : Option KillSwitchIncident
  pub audit_event : KillSwitchAuditEvent
  pub transition_hash : String

pub record KillSwitchGateRequest : Type 0 where
  pub schema_version : String
  pub request_id : String
  pub account_id : String
  pub idempotency_key : String
  pub batch_hash : String
  pub source_request_hash : String
  pub checked_at : ℕ
  pub request_hash : String

pub record KillSwitchGateDecision : Type 0 where
  pub engine_version : String
  pub request_hash : String
  pub status : KillSwitchGateStatus
  pub checked_at : ℕ
  pub global_state_hash : Option String
  pub account_state_hash : Option String
  pub blocking_state_hashes : List String
  pub reason_codes : List KillSwitchGateReason
  pub incident_ids : List String
  pub audit_event_hash : Option String
  pub decision_hash : String

-- The errors of repository.py, and the ValueError of a constructor's check.
pub data KillSwitchError : Type 0 where
  value_error state_not_found incident_not_found repository_conflict : KillSwitchError
  idempotency_conflict concurrent_update incident_conflict : KillSwitchError
  authorization_error : KillSwitchError

abbrev pub engine_version : String
engine_version = "kill-switch-engine-v1"

-- Members of the enumerations compared by identity.
unfoldable pub scope_beq : KillSwitchScope → KillSwitchScope → Bool
scope_beq global global = true
scope_beq account account = true
scope_beq _ _ = false

abbrev pub is_active : KillSwitchStatus → Bool
is_active active = true
is_active inactive = false

abbrev pub is_human : KillSwitchActorKind → Bool
is_human human = true
is_human _ = false

abbrev pub is_system : KillSwitchActorKind → Bool
is_system system = true
is_system _ = false

abbrev pub is_risk_admin : KillSwitchActorRole → Bool
is_risk_admin risk_admin = true
is_risk_admin _ = false

abbrev pub is_system_role : KillSwitchActorRole → Bool
is_system_role system_role = true
is_system_role _ = false

abbrev pub event_type_beq : KillSwitchEventType → KillSwitchEventType → Bool
event_type_beq initialized initialized = true
event_type_beq activated activated = true
event_type_beq trigger_added trigger_added = true
event_type_beq recovered recovered = true
event_type_beq order_blocked order_blocked = true
event_type_beq _ _ = false

abbrev pub is_allowed : KillSwitchGateStatus → Bool
is_allowed allowed = true
is_allowed blocked = false

abbrev pub source_beq : KillSwitchTriggerSource → KillSwitchTriggerSource → Bool
source_beq manual manual = true
source_beq reconciliation reconciliation = true
source_beq risk risk = true
source_beq data_source data_source = true
source_beq execution execution = true
source_beq strategy strategy = true
source_beq _ _ = false
