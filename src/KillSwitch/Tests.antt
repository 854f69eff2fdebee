-- ===== src/KillSwitch/Tests.antt =====
-- Runs of the kill switch on concrete requests, and the theorems at concrete inputs.
use quant_agent.Prelude.{
  is_blank, is_sha256, sorted_set, ◌≡◌, ◌≤◌, ◌<◌, ◌+◌, refl, Option, none, some, [], ok, err, arith,
  ltb, true, false,
}
use quant_agent.Dict.{get, put}
use quant_agent.KillSwitch.Contracts.{
  scope_beq, KillSwitchState, KillSwitchActivationRequest, KillSwitchRecoveryRequest,
  KillSwitchTransition, KillSwitchGateDecision, global, account, inactive, active, initialized,
  allowed, state_not_found,
}
use quant_agent.KillSwitch.Payloads.{
  identity_payload, incident_fields, incident_identity, incident_content, state_fields,
  state_content, event_fields, event_identity, event_content, transition_content, gate_operation,
  decision_content,
}
use quant_agent.KillSwitch.Checks.{
  non_empty, scope_account, state_identity, canonical_texts, valid_state, make_state, valid_event,
  make_event, expected_event_type, valid_transition, insert_reason, sorted_reasons, valid_decision,
}
use quant_agent.KillSwitch.Builders.{
  initial_state, activate_state, recover_state, build_event, transition_of, build_transition,
  gate_operation_hash, decision_of, build_decision,
}
use quant_agent.KillSwitch.Store.{
  state_key_beq, operation_key_beq, gate_key_beq, state_key_laws, operation_key_laws, gate_key_laws,
  text_key_laws, empty_repository, Repository,
}
use quant_agent.KillSwitch.Plans.{
  state_key, operation_key, same_content, committed_operation, latest_event_hash, event_beq,
  incident_beq, validate_event_append, found_state, effective_key, initialize_hash, plan_initialize,
  plan_activate, mismatches, plan_recover,
}
use quant_agent.KillSwitch.Repository.{
  reject_reentrant_mutation, record_event, record_new, append_event, add_incident, commit,
  initialize, activate, recover, get_state,
}
use quant_agent.KillSwitch.Guard.{
  store_block, open_guard, refuse, admit, when_active, blocking_states, blocking_reasons,
  all_incident_ids, order_blocked_hash, block, judge, check_gate_content, enter_guard, leave_guard,
}
use quant_agent.KillSwitch.Samples.{
  digest_of, spread_hash, spread_hashing, admin, machine, activation, order, recovery,
}
use quant_agent.KillSwitch.Outcomes.{Outcome}
use quant_agent.KillSwitch.Steps.{Reachable, initializes, activates, recovers, stays, steps}
use quant_agent.KillSwitch.Orders.{IsClear, allowed_order-IsClear, blocked_order_stays}
use quant_agent.KillSwitch.Retries.{
  activation_repeats, recovery_repeats, raises_change_nothing, held_guard_freezes_states, perform,
  call_activate,
}
use quant_agent.KillSwitch.Recovery.{IsToken, recovery_swaps_named_state}
use quant_agent.KillSwitch.Chain.{IsLogged, Reachable-IsLogged}
use quant_agent.KillSwitch.Revisions.{revisions_grow, approval_used_once}

-- The value of a call that returned.
abbrev value : {A : Type 0} → A → Outcome A → A
value default (ok a, r) = a
value default (err e, r) = default

abbrev no_decision : KillSwitchGateDecision
no_decision = record {
  engine_version = "";
  request_hash = "";
  status = allowed;
  checked_at = 0;
  global_state_hash = none;
  account_state_hash = none;
  blocking_state_hashes = [];
  reason_codes = [];
  incident_ids = [];
  audit_event_hash = none;
  decision_hash = "";
}

-- A history: both switches are made, an order is let through, the account is stopped, an order is
-- blocked, and the account recovers.
abbrev made_global : Outcome KillSwitchTransition
made_global = initialize global none admin 10 none empty_repository

abbrev made_both : Outcome KillSwitchTransition
made_both = initialize account (some "acc") admin 11 none made_global.1

abbrev both : Repository
both = made_both.1

abbrev let_through : Outcome KillSwitchGateDecision
let_through = enter_guard (order 15) machine both

abbrev no_state : KillSwitchState
no_state = record {
  schema_version = "";
  state_id = "";
  scope = global;
  account_id = none;
  status = inactive;
  revision = 0;
  active_since = none;
  active_incident_ids = [];
  latest_incident_hash = none;
  changed_at = 0;
  changed_by_actor_hash = "";
  previous_state_hash = none;
  state_hash = "";
}

abbrev or_no_state : Option KillSwitchState → KillSwitchState
or_no_state none = no_state
or_no_state (some s) = s

abbrev account_state : Repository → KillSwitchState
account_state r = or_no_state (get (account, some "acc") r.states)

abbrev no_transition : KillSwitchTransition
no_transition = record {
  engine_version = "";
  operation_hash = "";
  state_before = none;
  state_after = no_state;
  incident = none;
  audit_event = record {
    schema_version = "";
    event_id = "";
    event_type = initialized;
    scope = global;
    account_id = none;
    state_before_hash = none;
    state_after_hash = "";
    state_revision = 0;
    actor_hash = "";
    operation_hash = "";
    incident_id = none;
    reason_codes = [];
    evidence_hashes = [];
    occurred_at = 0;
    previous_event_hash = none;
    event_hash = "";
  };
  transition_hash = "";
}

abbrev stopping : Outcome KillSwitchTransition
stopping = activate activation both

abbrev turned_away : Outcome KillSwitchGateDecision
turned_away = enter_guard (order 25) machine stopping.1

abbrev recovery_1 : KillSwitchRecoveryRequest
recovery_1 = recovery (account_state stopping.1).state_hash "recover-1"

abbrev recovering : Outcome KillSwitchTransition
recovering = recover recovery_1 40 stopping.1

reached_both : Reachable both
reached_both =
    steps made_global.1 both
      (steps empty_repository made_global.1 stays (initializes global none admin 10 none))
      (initializes account (some "acc") admin 11 none)

reached_stop : Reachable stopping.1
reached_stop = steps both stopping.1 reached_both (activates activation)

allowed_order-IsClear_example :
    IsClear (order 15) both × (let_through.1.active_order_guards ≡ both.active_order_guards + 1)
unfolding scope_beq identity_payload incident_fields incident_identity incident_content state_fields
    state_content event_fields event_identity event_content transition_content gate_operation
    decision_content non_empty scope_account state_identity canonical_texts valid_state make_state
    valid_event make_event expected_event_type valid_transition insert_reason sorted_reasons
    valid_decision initial_state activate_state recover_state build_event transition_of
    build_transition gate_operation_hash decision_of build_decision state_key_beq operation_key_beq
    gate_key_beq empty_repository state_key operation_key same_content committed_operation
    latest_event_hash event_beq incident_beq validate_event_append found_state effective_key
    initialize_hash plan_initialize plan_activate mismatches plan_recover reject_reentrant_mutation
    record_event record_new append_event add_incident commit initialize activate recover get_state
    store_block open_guard refuse admit when_active blocking_states blocking_reasons
    all_incident_ids order_blocked_hash block judge check_gate_content enter_guard leave_guard
    digest_of spread_hash get put is_blank is_sha256 sorted_set operation_key_laws state_key_laws
    text_key_laws gate_key_laws perform
allowed_order-IsClear_example =
    allowed_order-IsClear (order 15) machine both let_through.1 (value no_decision let_through)
      reached_both refl refl

abbrev after_block : Outcome KillSwitchTransition
after_block = recover recovery_1 40 turned_away.1

blocked_order_stays_example :
    enter_guard (order 45) admin after_block.1 ≡ (ok (value no_decision turned_away), after_block.1)
unfolding scope_beq identity_payload incident_fields incident_identity incident_content state_fields
    state_content event_fields event_identity event_content transition_content gate_operation
    decision_content non_empty scope_account state_identity canonical_texts valid_state make_state
    valid_event make_event expected_event_type valid_transition insert_reason sorted_reasons
    valid_decision initial_state activate_state recover_state build_event transition_of
    build_transition gate_operation_hash decision_of build_decision state_key_beq operation_key_beq
    gate_key_beq empty_repository state_key operation_key same_content committed_operation
    latest_event_hash event_beq incident_beq validate_event_append found_state effective_key
    initialize_hash plan_initialize plan_activate mismatches plan_recover reject_reentrant_mutation
    record_event record_new append_event add_incident commit initialize activate recover get_state
    store_block open_guard refuse admit when_active blocking_states blocking_reasons
    all_incident_ids order_blocked_hash block judge check_gate_content enter_guard leave_guard
    digest_of spread_hash get put is_blank is_sha256 sorted_set operation_key_laws state_key_laws
    text_key_laws gate_key_laws perform
blocked_order_stays_example =
    blocked_order_stays (order 25) machine admin 45 (order 45).request_hash stopping.1 turned_away.1
      after_block.1 (value no_decision turned_away) reached_stop refl refl
      (steps turned_away.1 after_block.1 stays (recovers recovery_1 40))

-- The recovery between the two orders took place.
after_block_recovered : (account_state after_block.1).status ≡ inactive
unfolding scope_beq identity_payload incident_fields incident_identity incident_content state_fields
    state_content event_fields event_identity event_content transition_content gate_operation
    decision_content non_empty scope_account state_identity canonical_texts valid_state make_state
    valid_event make_event expected_event_type valid_transition insert_reason sorted_reasons
    valid_decision initial_state activate_state recover_state build_event transition_of
    build_transition gate_operation_hash decision_of build_decision state_key_beq operation_key_beq
    gate_key_beq empty_repository state_key operation_key same_content committed_operation
    latest_event_hash event_beq incident_beq validate_event_append found_state effective_key
    initialize_hash plan_initialize plan_activate mismatches plan_recover reject_reentrant_mutation
    record_event record_new append_event add_incident commit initialize activate recover get_state
    store_block open_guard refuse admit when_active blocking_states blocking_reasons
    all_incident_ids order_blocked_hash block judge check_gate_content enter_guard leave_guard
    digest_of spread_hash get put is_blank is_sha256 sorted_set operation_key_laws state_key_laws
    text_key_laws gate_key_laws perform
after_block_recovered = refl

activation_repeats_example :
    activate activation recovering.1 ≡ (ok (value no_transition stopping), recovering.1)
unfolding scope_beq identity_payload incident_fields incident_identity incident_content state_fields
    state_content event_fields event_identity event_content transition_content gate_operation
    decision_content non_empty scope_account state_identity canonical_texts valid_state make_state
    valid_event make_event expected_event_type valid_transition insert_reason sorted_reasons
    valid_decision initial_state activate_state recover_state build_event transition_of
    build_transition gate_operation_hash decision_of build_decision state_key_beq operation_key_beq
    gate_key_beq empty_repository state_key operation_key same_content committed_operation
    latest_event_hash event_beq incident_beq validate_event_append found_state effective_key
    initialize_hash plan_initialize plan_activate mismatches plan_recover reject_reentrant_mutation
    record_event record_new append_event add_incident commit initialize activate recover get_state
    store_block open_guard refuse admit when_active blocking_states blocking_reasons
    all_incident_ids order_blocked_hash block judge check_gate_content enter_guard leave_guard
    digest_of spread_hash get put is_blank is_sha256 sorted_set operation_key_laws state_key_laws
    text_key_laws gate_key_laws perform
activation_repeats_example =
    activation_repeats activation both stopping.1 recovering.1 (value no_transition stopping) refl
      (steps stopping.1 recovering.1 stays (recovers recovery_1 40)) refl

abbrev activation_2 : KillSwitchActivationRequest
activation_2 = record activation {
  idempotency_key = "activate-2";
  requested_at = 45;
  request_hash = digest_of 11;
}

abbrev stopped_again : Outcome KillSwitchTransition
stopped_again = activate activation_2 recovering.1

recovery_repeats_example :
    recover recovery_1 50 stopped_again.1 ≡ (ok (value no_transition recovering), stopped_again.1)
unfolding scope_beq identity_payload incident_fields incident_identity incident_content state_fields
    state_content event_fields event_identity event_content transition_content gate_operation
    decision_content non_empty scope_account state_identity canonical_texts valid_state make_state
    valid_event make_event expected_event_type valid_transition insert_reason sorted_reasons
    valid_decision initial_state activate_state recover_state build_event transition_of
    build_transition gate_operation_hash decision_of build_decision state_key_beq operation_key_beq
    gate_key_beq empty_repository state_key operation_key same_content committed_operation
    latest_event_hash event_beq incident_beq validate_event_append found_state effective_key
    initialize_hash plan_initialize plan_activate mismatches plan_recover reject_reentrant_mutation
    record_event record_new append_event add_incident commit initialize activate recover get_state
    store_block open_guard refuse admit when_active blocking_states blocking_reasons
    all_incident_ids order_blocked_hash block judge check_gate_content enter_guard leave_guard
    digest_of spread_hash get put is_blank is_sha256 sorted_set operation_key_laws state_key_laws
    text_key_laws gate_key_laws perform
recovery_repeats_example =
    recovery_repeats recovery_1 40 50 stopping.1 recovering.1 stopped_again.1
      (value no_transition recovering) refl
      (steps recovering.1 stopped_again.1 stays (activates activation_2)) refl

-- The switch was stopped in between.
stopped_again_active : (account_state stopped_again.1).status ≡ active
unfolding scope_beq identity_payload incident_fields incident_identity incident_content state_fields
    state_content event_fields event_identity event_content transition_content gate_operation
    decision_content non_empty scope_account state_identity canonical_texts valid_state make_state
    valid_event make_event expected_event_type valid_transition insert_reason sorted_reasons
    valid_decision initial_state activate_state recover_state build_event transition_of
    build_transition gate_operation_hash decision_of build_decision state_key_beq operation_key_beq
    gate_key_beq empty_repository state_key operation_key same_content committed_operation
    latest_event_hash event_beq incident_beq validate_event_append found_state effective_key
    initialize_hash plan_initialize plan_activate mismatches plan_recover reject_reentrant_mutation
    record_event record_new append_event add_incident commit initialize activate recover get_state
    store_block open_guard refuse admit when_active blocking_states blocking_reasons
    all_incident_ids order_blocked_hash block judge check_gate_content enter_guard leave_guard
    digest_of spread_hash get put is_blank is_sha256 sorted_set operation_key_laws state_key_laws
    text_key_laws gate_key_laws perform
stopped_again_active = refl

raises_change_nothing_example : (activate activation made_global.1).1 ≡ made_global.1
unfolding scope_beq identity_payload incident_fields incident_identity incident_content state_fields
    state_content event_fields event_identity event_content transition_content gate_operation
    decision_content non_empty scope_account state_identity canonical_texts valid_state make_state
    valid_event make_event expected_event_type valid_transition insert_reason sorted_reasons
    valid_decision initial_state activate_state recover_state build_event transition_of
    build_transition gate_operation_hash decision_of build_decision state_key_beq operation_key_beq
    gate_key_beq empty_repository state_key operation_key same_content committed_operation
    latest_event_hash event_beq incident_beq validate_event_append found_state effective_key
    initialize_hash plan_initialize plan_activate mismatches plan_recover reject_reentrant_mutation
    record_event record_new append_event add_incident commit initialize activate recover get_state
    store_block open_guard refuse admit when_active blocking_states blocking_reasons
    all_incident_ids order_blocked_hash block judge check_gate_content enter_guard leave_guard
    digest_of spread_hash get put is_blank is_sha256 sorted_set operation_key_laws state_key_laws
    text_key_laws gate_key_laws perform
raises_change_nothing_example =
    raises_change_nothing (call_activate activation) made_global.1
      (activate activation made_global.1).1 state_not_found refl

one_held : 0 < let_through.1.active_order_guards
unfolding scope_beq identity_payload incident_fields incident_identity incident_content state_fields
    state_content event_fields event_identity event_content transition_content gate_operation
    decision_content non_empty scope_account state_identity canonical_texts valid_state make_state
    valid_event make_event expected_event_type valid_transition insert_reason sorted_reasons
    valid_decision initial_state activate_state recover_state build_event transition_of
    build_transition gate_operation_hash decision_of build_decision state_key_beq operation_key_beq
    gate_key_beq empty_repository state_key operation_key same_content committed_operation
    latest_event_hash event_beq incident_beq validate_event_append found_state effective_key
    initialize_hash plan_initialize plan_activate mismatches plan_recover reject_reentrant_mutation
    record_event record_new append_event add_incident commit initialize activate recover get_state
    store_block open_guard refuse admit when_active blocking_states blocking_reasons
    all_incident_ids order_blocked_hash block judge check_gate_content enter_guard leave_guard
    digest_of spread_hash get put is_blank is_sha256 sorted_set operation_key_laws state_key_laws
    text_key_laws gate_key_laws perform
one_held = let held : let_through.1.active_order_guards ≡ 1 = refl in rw held (omega arith)

held_guard_freezes_states_example :
    (activate activation let_through.1).1.states ≡ let_through.1.states
unfolding scope_beq identity_payload incident_fields incident_identity incident_content state_fields
    state_content event_fields event_identity event_content transition_content gate_operation
    decision_content non_empty scope_account state_identity canonical_texts valid_state make_state
    valid_event make_event expected_event_type valid_transition insert_reason sorted_reasons
    valid_decision initial_state activate_state recover_state build_event transition_of
    build_transition gate_operation_hash decision_of build_decision state_key_beq operation_key_beq
    gate_key_beq empty_repository state_key operation_key same_content committed_operation
    latest_event_hash event_beq incident_beq validate_event_append found_state effective_key
    initialize_hash plan_initialize plan_activate mismatches plan_recover reject_reentrant_mutation
    record_event record_new append_event add_incident commit initialize activate recover get_state
    store_block open_guard refuse admit when_active blocking_states blocking_reasons
    all_incident_ids order_blocked_hash block judge check_gate_content enter_guard leave_guard
    digest_of spread_hash get put is_blank is_sha256 sorted_set operation_key_laws state_key_laws
    text_key_laws gate_key_laws perform
held_guard_freezes_states_example =
    held_guard_freezes_states let_through.1 (activate activation let_through.1).1
      (activates activation) one_held

recovery_swaps_named_state_example :
    (ltb 40 31 ≡ false)
    × (ltb 40 90 ≡ true)
    × ((before : KillSwitchState) × (after : KillSwitchState) × (get
            (account, some "acc")
            stopping.1.states
          ≡ some before)
        × IsToken recovery_1.approval before
        × (get (account, some "acc") recovering.1.states ≡ some after)
        × (after.revision ≡ 2)
        × (after.status ≡ inactive))
unfolding scope_beq identity_payload incident_fields incident_identity incident_content state_fields
    state_content event_fields event_identity event_content transition_content gate_operation
    decision_content non_empty scope_account state_identity canonical_texts valid_state make_state
    valid_event make_event expected_event_type valid_transition insert_reason sorted_reasons
    valid_decision initial_state activate_state recover_state build_event transition_of
    build_transition gate_operation_hash decision_of build_decision state_key_beq operation_key_beq
    gate_key_beq empty_repository state_key operation_key same_content committed_operation
    latest_event_hash event_beq incident_beq validate_event_append found_state effective_key
    initialize_hash plan_initialize plan_activate mismatches plan_recover reject_reentrant_mutation
    record_event record_new append_event add_incident commit initialize activate recover get_state
    store_block open_guard refuse admit when_active blocking_states blocking_reasons
    all_incident_ids order_blocked_hash block judge check_gate_content enter_guard leave_guard
    digest_of spread_hash get put is_blank is_sha256 sorted_set operation_key_laws state_key_laws
    text_key_laws gate_key_laws perform
recovery_swaps_named_state_example =
    recovery_swaps_named_state recovery_1 40 stopping.1 recovering.1
      (value no_transition recovering) (account, some "acc", "recover-1") (account, some "acc") refl
      refl refl refl

revisions_grow_example :
    (y : KillSwitchState) × (get (account, some "acc") recovering.1.states ≡ some y)
    × (0 ≤ y.revision)
unfolding scope_beq identity_payload incident_fields incident_identity incident_content state_fields
    state_content event_fields event_identity event_content transition_content gate_operation
    decision_content non_empty scope_account state_identity canonical_texts valid_state make_state
    valid_event make_event expected_event_type valid_transition insert_reason sorted_reasons
    valid_decision initial_state activate_state recover_state build_event transition_of
    build_transition gate_operation_hash decision_of build_decision state_key_beq operation_key_beq
    gate_key_beq empty_repository state_key operation_key same_content committed_operation
    latest_event_hash event_beq incident_beq validate_event_append found_state effective_key
    initialize_hash plan_initialize plan_activate mismatches plan_recover reject_reentrant_mutation
    record_event record_new append_event add_incident commit initialize activate recover get_state
    store_block open_guard refuse admit when_active blocking_states blocking_reasons
    all_incident_ids order_blocked_hash block judge check_gate_content enter_guard leave_guard
    digest_of spread_hash get put is_blank is_sha256 sorted_set operation_key_laws state_key_laws
    text_key_laws gate_key_laws perform
revisions_grow_example =
    revisions_grow both recovering.1 (account, some "acc") (account_state both)
      (steps stopping.1 recovering.1 (steps both stopping.1 stays (activates activation))
        (recovers recovery_1 40))
      refl

abbrev recovery_2 : KillSwitchRecoveryRequest
recovery_2 = recovery (account_state stopping.1).state_hash "recover-2"

approval_used_once_example : (recover recovery_2 60 stopped_again.1).1 ≡ stopped_again.1
unfolding scope_beq identity_payload incident_fields incident_identity incident_content state_fields
    state_content event_fields event_identity event_content transition_content gate_operation
    decision_content non_empty scope_account state_identity canonical_texts valid_state make_state
    valid_event make_event expected_event_type valid_transition insert_reason sorted_reasons
    valid_decision initial_state activate_state recover_state build_event transition_of
    build_transition gate_operation_hash decision_of build_decision state_key_beq operation_key_beq
    gate_key_beq empty_repository state_key operation_key same_content committed_operation
    latest_event_hash event_beq incident_beq validate_event_append found_state effective_key
    initialize_hash plan_initialize plan_activate mismatches plan_recover reject_reentrant_mutation
    record_event record_new append_event add_incident commit initialize activate recover get_state
    store_block open_guard refuse admit when_active blocking_states blocking_reasons
    all_incident_ids order_blocked_hash block judge check_gate_content enter_guard leave_guard
    digest_of spread_hash get put is_blank is_sha256 sorted_set operation_key_laws state_key_laws
    text_key_laws gate_key_laws perform
approval_used_once_example =
    approval_used_once recovery_1 recovery_2 40 60 stopping.1 recovering.1 stopped_again.1
      (value no_transition recovering) (account, some "acc", "recover-1") (account, some "acc") refl
      refl refl refl (steps recovering.1 stopped_again.1 stays (activates activation_2)) refl

-- The log behind a stop and its recovery.
Reachable-IsLogged_example : IsLogged recovering.1
Reachable-IsLogged_example =
    Reachable-IsLogged recovering.1
      (steps stopping.1 recovering.1 reached_stop (recovers recovery_1 40))
