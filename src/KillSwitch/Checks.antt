-- ===== src/KillSwitch/Checks.antt =====
-- The checks of the constructors of packages/quant_agent/risk/kill_switch/contracts.py
-- (`__post_init__`), for the records that the repository builds. A field's normalised value
-- replaces the given one before the rest is checked, as in the source.
use quant_agent.Prelude.{
  ℕ, ◌+◌, String, Bool, true, false, not, ◌&&◌, ◌||◌, Option, none, some, List, [], ◌∷◌, map,
  if◌then◌else◌, Result, ok, err, ◌>>=◌, ◌>>◌, raise_if, leb, ltb, ◌==◌, any, all, is_nil,
  is_sha256, opt_sha256, sorted_set, texts_beq, text_in, opt_beq, is_blank, strip, ◌=s=◌,
}
use Prim.Native.String.{◌++◌ as append_text}
use quant_agent.Canonical.{Hashing, stable_hash}
use quant_agent.KillSwitch.Contracts.{
  KillSwitchScope, global, account, KillSwitchEventType, initialized, activated, trigger_added,
  recovered, KillSwitchGateReason, global_active, account_active, state_unavailable,
  repository_failure, KillSwitchIncident, KillSwitchState, KillSwitchAuditEvent,
  KillSwitchTransition, KillSwitchGateDecision, KillSwitchError, value_error, engine_version,
  scope_beq, is_active, event_type_beq, is_allowed,
}
use quant_agent.KillSwitch.Payloads.{
  identity_payload, state_content, event_identity, event_content, transition_content,
  decision_content,
}

-- `_non_empty`
unfoldable pub non_empty : String → Result KillSwitchError String
non_empty value = if is_blank value then err value_error else ok (strip value)

-- `_scope_account`
unfoldable pub scope_account :
    KillSwitchScope → Option String → Result KillSwitchError (Option String)
unfolding non_empty
scope_account global none = ok none
scope_account global (some _) = err value_error
scope_account account none = err value_error
scope_account account (some a) = do name ← non_empty a; ok (some name)

-- `_state_identity`
unfoldable pub state_identity : ⦃h : Hashing⦄ → KillSwitchScope → Option String → String
state_identity scope account_id =
    append_text "kill-switch:" (stable_hash (identity_payload scope account_id))

-- `tuple(sorted({_non_empty(item) for item in items}))`
unfoldable pub canonical_texts : List String → Result KillSwitchError (List String)
canonical_texts items =
    if any is_blank items then err value_error else ok (sorted_set (map strip items))

abbrev pub is_some {ℓ} : {A : Type ℓ} → Option A → Bool
is_some none = false
is_some (some _) = true

abbrev not_after : Option ℕ → ℕ → Bool
not_after none t = true
not_after (some s) t = leb s t

-- The checks of `KillSwitchState.__post_init__` behind the normalisation of `account_id`.
unfoldable pub valid_state : ⦃h : Hashing⦄ → KillSwitchState → Bool
valid_state s =
    (s.schema_version =s= "1")
    && not_after s.active_since s.changed_at
    && is_sha256 s.changed_by_actor_hash
    && opt_sha256 s.latest_incident_hash
    && opt_sha256 s.previous_state_hash
    && texts_beq s.active_incident_ids (sorted_set s.active_incident_ids)
    && not (any is_blank s.active_incident_ids)
    && (if s.revision == 0
        then not (is_some s.previous_state_hash)
          && not (is_active s.status)
          && not (is_some s.latest_incident_hash)
        else is_some s.previous_state_hash)
    && (if is_active s.status
        then is_some s.active_since
          && not (is_nil s.active_incident_ids)
          && is_some s.latest_incident_hash
        else not (is_some s.active_since) && is_nil s.active_incident_ids)
    && (s.state_id =s= state_identity s.scope s.account_id)
    && is_sha256 s.state_hash
    && (s.state_hash =s= stable_hash (state_content s))

-- `KillSwitchState(...)`
unfoldable pub make_state : ⦃h : Hashing⦄ → KillSwitchState → Result KillSwitchError KillSwitchState
make_state s = do
  name ← scope_account s.scope s.account_id
  let normal = record s { account_id = name }
  raise_if (not (valid_state normal)) value_error
  ok normal

abbrev needs_incident : KillSwitchEventType → Bool
needs_incident activated = true
needs_incident trigger_added = true
needs_incident _ = false

abbrev canonical_as : Result KillSwitchError (List String) → List String → Bool
canonical_as (ok canonical) given = texts_beq given canonical
canonical_as (err _) given = false

-- The checks of `KillSwitchAuditEvent.__post_init__` behind the normalisations.
unfoldable pub valid_event : ⦃h : Hashing⦄ → KillSwitchAuditEvent → Bool
valid_event e =
    (e.schema_version =s= "1")
    && (is_sha256 e.state_after_hash && is_sha256 e.actor_hash && is_sha256 e.operation_hash)
    && (opt_sha256 e.state_before_hash && opt_sha256 e.previous_event_hash)
    && (if event_type_beq e.event_type initialized
        then not (is_some e.state_before_hash) && not (is_some e.previous_event_hash)
        else is_some e.state_before_hash && is_some e.previous_event_hash)
    && (not (needs_incident e.event_type) || is_some e.incident_id)
    && canonical_as (canonical_texts e.reason_codes) e.reason_codes
    && texts_beq e.evidence_hashes (sorted_set e.evidence_hashes)
    && all is_sha256 e.evidence_hashes
    && (e.event_id =s= append_text "kill-event:" (stable_hash (event_identity e)))
    && is_sha256 e.event_hash
    && (e.event_hash =s= stable_hash (event_content e))

abbrev opt_non_empty : Option String → Result KillSwitchError (Option String)
opt_non_empty none = ok none
opt_non_empty (some s) = do name ← non_empty s; ok (some name)

-- `KillSwitchAuditEvent(...)`
unfoldable pub make_event :
    ⦃h : Hashing⦄ → KillSwitchAuditEvent → Result KillSwitchError KillSwitchAuditEvent
unfolding non_empty
make_event e = do
  name ← scope_account e.scope e.account_id
  incident ← opt_non_empty e.incident_id
  let normal = record e { account_id = name; incident_id = incident }
  raise_if (not (valid_event normal)) value_error
  ok normal

abbrev same_scope : KillSwitchScope → Option String → KillSwitchScope → Option String → Bool
same_scope s a t b = scope_beq s t && opt_beq a b

abbrev pub opt_state_hash : Option KillSwitchState → Option String
opt_state_hash none = none
opt_state_hash (some s) = some s.state_hash

-- The event type that the two states of a transition and its incident call for; `none` where the
-- combination is refused.
unfoldable pub expected_event_type :
    Option KillSwitchState
    → KillSwitchState
    → Option KillSwitchIncident
    → Option KillSwitchEventType
expected_event_type none after incident = if after.revision == 0 then some initialized else none
expected_event_type (some before) after incident =
    if not (same_scope before.scope before.account_id after.scope after.account_id)
      || not (after.revision == before.revision + 1)
      || not (opt_beq after.previous_state_hash (some before.state_hash))
    then none
    else if not (is_active before.status) && is_active after.status && is_some incident
    then some activated
    else if is_active before.status && is_active after.status && is_some incident
    then some trigger_added
    else if is_active before.status && not (is_active after.status) && not (is_some incident)
    then some recovered
    else none

abbrev is_type : Option KillSwitchEventType → KillSwitchEventType → Bool
is_type none t = false
is_type (some expected) t = event_type_beq t expected

-- The event and the state bind the incident of the transition.
abbrev binds_incident : KillSwitchTransition → Option KillSwitchIncident → Bool
binds_incident t none = true
binds_incident t (some x) =
    opt_beq t.audit_event.incident_id (some x.incident_id)
    && same_scope x.scope x.account_id t.state_after.scope t.state_after.account_id
    && texts_beq t.audit_event.reason_codes x.reason_codes
    && texts_beq t.audit_event.evidence_hashes x.evidence_hashes
    && text_in x.incident_id t.state_after.active_incident_ids
    && opt_beq t.state_after.latest_incident_hash (some x.incident_hash)

-- `KillSwitchTransition.__post_init__`
unfoldable pub valid_transition : ⦃h : Hashing⦄ → KillSwitchTransition → Bool
valid_transition t =
    (t.engine_version =s= engine_version)
    && is_sha256 t.operation_hash
    && (t.audit_event.operation_hash =s= t.operation_hash)
    && (t.audit_event.state_after_hash =s= t.state_after.state_hash)
    && (same_scope t.audit_event.scope t.audit_event.account_id t.state_after.scope
          t.state_after.account_id
        && (t.audit_event.actor_hash =s= t.state_after.changed_by_actor_hash)
        && t.audit_event.occurred_at == t.state_after.changed_at)
    && opt_beq t.audit_event.state_before_hash (opt_state_hash t.state_before)
    && t.audit_event.state_revision == t.state_after.revision
    && is_type (expected_event_type t.state_before t.state_after t.incident)
        t.audit_event.event_type
    && binds_incident t t.incident
    && is_sha256 t.transition_hash
    && (t.transition_hash =s= stable_hash (transition_content t))

-- The order of the values of the reasons.
abbrev reason_rank : KillSwitchGateReason → ℕ
reason_rank account_active = 0
reason_rank global_active = 1
reason_rank repository_failure = 2
reason_rank state_unavailable = 3

unfoldable pub insert_reason :
    KillSwitchGateReason → List KillSwitchGateReason → List KillSwitchGateReason
insert_reason x [] = x ∷ []
insert_reason x (y ∷ ys) =
    let later = y ∷ insert_reason x ys in
    if reason_rank x == reason_rank y
    then y ∷ ys
    else if ltb (reason_rank x) (reason_rank y)
    then x ∷ y ∷ ys
    else later

-- `tuple(sorted(set(reason_codes), key=lambda item: item.value))`
unfoldable pub sorted_reasons : List KillSwitchGateReason → List KillSwitchGateReason
unfolding insert_reason
sorted_reasons [] = []
sorted_reasons (x ∷ xs) = insert_reason x (sorted_reasons xs)

abbrev reasons_beq : List KillSwitchGateReason → List KillSwitchGateReason → Bool
reasons_beq [] [] = true
reasons_beq (x ∷ xs) (y ∷ ys) = reason_rank x == reason_rank y && reasons_beq xs ys
reasons_beq _ _ = false

abbrev reports_active : KillSwitchGateReason → Bool
reports_active global_active = true
reports_active account_active = true
reports_active _ = false

-- `KillSwitchGateDecision.__post_init__`
unfoldable pub valid_decision : ⦃h : Hashing⦄ → KillSwitchGateDecision → Bool
unfolding sorted_reasons
valid_decision d =
    (d.engine_version =s= engine_version)
    && is_sha256 d.request_hash
    && (opt_sha256 d.global_state_hash
        && opt_sha256 d.account_state_hash
        && opt_sha256 d.audit_event_hash)
    && texts_beq d.blocking_state_hashes (sorted_set d.blocking_state_hashes)
    && all is_sha256 d.blocking_state_hashes
    && reasons_beq d.reason_codes (sorted_reasons d.reason_codes)
    && canonical_as (canonical_texts d.incident_ids) d.incident_ids
    && (if is_allowed d.status
        then is_some d.global_state_hash
          && is_some d.account_state_hash
          && is_nil d.blocking_state_hashes
          && is_nil d.reason_codes
          && is_nil d.incident_ids
          && not (is_some d.audit_event_hash)
        else not (is_nil d.reason_codes)
          && (if any reports_active d.reason_codes
              then not (is_nil d.blocking_state_hashes)
                && not (is_nil d.incident_ids)
                && is_some d.audit_event_hash
              else is_nil d.blocking_state_hashes
                && is_nil d.incident_ids
                && not (is_some d.audit_event_hash)))
    && is_sha256 d.decision_hash
    && (d.decision_hash =s= stable_hash (decision_content d))
