-- ===== src/KillSwitch/Guard.antt =====
-- `InMemoryKillSwitchRepository.guard_new_order` (packages/quant_agent/risk/kill_switch/
-- repository.py), which yields to its caller in the middle: `enter_guard` runs to the `yield`,
-- `leave_guard` from there.
use quant_agent.Prelude.{
  ◌+◌, ◌-◌, String, Bool, true, false, not, ◌||◌, Option, none, some, List, [], ◌∷◌, map, ◌++◌,
  Result, ok, raise_if, ltb, ◌=s=◌, max,
}
use quant_agent.Canonical.{Hashing, stable_hash, text, opt_text, obj, field, end}
use quant_agent.Dict.{get, put}
use quant_agent.KillSwitch.Contracts.{
  KillSwitchGateStatus, KillSwitchGateReason, KillSwitchActor, KillSwitchState,
  KillSwitchGateRequest, KillSwitchGateDecision, KillSwitchError, global, account, inactive, active,
  order_blocked, allowed, blocked, global_active, account_active, state_unavailable,
  idempotency_conflict,
}
use quant_agent.KillSwitch.Payloads.{reason_value}
use quant_agent.KillSwitch.Checks.{opt_state_hash}
use quant_agent.KillSwitch.Builders.{build_event, build_decision, gate_operation_hash}
use quant_agent.KillSwitch.Store.{
  state_key_laws, operation_key_laws, gate_key_laws, text_key_laws, Action, return, lift, gets,
  modify, ◌>>=◌, ◌>>◌, reads, Repository,
}
use quant_agent.KillSwitch.Repository.{append_event}
use quant_agent.KillSwitch.Plans.{latest_event_hash, validate_event_append, gate_key}

-- The writes of a guard that refuses, and of one that lets the order through.
unfoldable pub store_block :
    ⦃h : Hashing⦄ → KillSwitchGateRequest → KillSwitchGateDecision → Repository → Repository
store_block request decision r = record r {
  gate_requests = put (gate_key request) (gate_operation_hash request) r.gate_requests;
  blocked_gate_decisions = put (gate_key request) decision r.blocked_gate_decisions;
}

unfoldable pub open_guard : ⦃h : Hashing⦄ → KillSwitchGateRequest → Repository → Repository
open_guard request r = record r {
  gate_requests = put (gate_key request) (gate_operation_hash request) r.gate_requests;
  active_order_guards = r.active_order_guards + 1;
}

unfoldable pub refuse :
    ⦃h : Hashing⦄
    → KillSwitchGateRequest
    → Option KillSwitchState
    → Option KillSwitchState
    → Action KillSwitchGateDecision
refuse request global_state account_state = do
  decision ← lift (
      build_decision request blocked (opt_state_hash global_state) (opt_state_hash account_state) []
        (state_unavailable ∷ []) [] none)
  modify (store_block request decision)
  return decision

unfoldable pub admit :
    ⦃h : Hashing⦄
    → KillSwitchGateRequest
    → KillSwitchState
    → KillSwitchState
    → Action KillSwitchGateDecision
admit request global_state account_state = do
  decision ← lift (
      build_decision request allowed (some global_state.state_hash) (some account_state.state_hash)
        [] [] [] none)
  modify (open_guard request)
  return decision

-- The active ones of the two states, and the reasons they give.
unfoldable pub when_active : {A : Type 0} → KillSwitchState → A → List A → List A
when_active s x rest = elim s.status [ active ↦ x ∷ rest | inactive ↦ rest ]

unfoldable pub blocking_states : KillSwitchState → KillSwitchState → List KillSwitchState
unfolding when_active
blocking_states g a = when_active g g (when_active a a [])

unfoldable pub blocking_reasons : KillSwitchState → KillSwitchState → List KillSwitchGateReason
unfolding when_active
blocking_reasons g a = when_active g global_active (when_active a account_active [])

unfoldable pub all_incident_ids : List KillSwitchState → List String
all_incident_ids [] = []
all_incident_ids (s ∷ rest) = s.active_incident_ids ++ all_incident_ids rest

unfoldable pub order_blocked_hash :
    ⦃h : Hashing⦄
    → KillSwitchGateRequest
    → KillSwitchState
    → KillSwitchState
    → Option String
    → String
order_blocked_hash request g a previous = stable_hash (
    obj (
      field "operation" (text "ORDER_BLOCKED") (
        field "request_hash" (text request.request_hash) (
          field "global_state_hash" (text g.state_hash) (
            field "account_state_hash" (text a.state_hash)
              (field "previous_event_hash" (opt_text previous) end))))))

-- An active state blocks the order; `primary` is the first of the active ones.
unfoldable pub block :
    ⦃h : Hashing⦄
    → KillSwitchGateRequest
    → KillSwitchActor
    → KillSwitchState
    → KillSwitchState
    → KillSwitchState
    → Action KillSwitchGateDecision
unfolding blocking_states blocking_reasons
block request actor g a primary = do
  previous ← reads (latest_event_hash primary.scope primary.account_id)
  let hashes = map (λ s. s.state_hash) (blocking_states g a)
  event ← lift (
      build_event order_blocked (some primary) primary actor
        (order_blocked_hash request g a previous) none (map reason_value (blocking_reasons g a))
        hashes (max request.checked_at primary.changed_at) previous)
  decision ← lift (
      build_decision request blocked (some g.state_hash) (some a.state_hash) hashes
        (blocking_reasons g a) (all_incident_ids (blocking_states g a)) (some event.event_hash))
  reads (validate_event_append event)
  append_event event
  modify (store_block request decision)
  return decision

abbrev pub judge_states :
    ⦃h : Hashing⦄
    → KillSwitchGateRequest
    → KillSwitchActor
    → KillSwitchState
    → KillSwitchState
    → List KillSwitchState
    → Action KillSwitchGateDecision
judge_states request actor g a [] = admit request g a
judge_states request actor g a (primary ∷ _) = block request actor g a primary

abbrev pub judge_fresh :
    ⦃h : Hashing⦄
    → KillSwitchGateRequest
    → KillSwitchActor
    → KillSwitchState
    → KillSwitchState
    → Bool
    → Action KillSwitchGateDecision
judge_fresh request actor g a true = refuse request (some g) (some a)
judge_fresh request actor g a false = judge_states request actor g a (blocking_states g a)

unfoldable pub judge :
    ⦃h : Hashing⦄
    → KillSwitchGateRequest
    → KillSwitchActor
    → Option KillSwitchState
    → Option KillSwitchState
    → Action KillSwitchGateDecision
unfolding refuse admit block blocking_states
judge request actor (some g) (some a) =
    judge_fresh request actor g a
      (ltb request.checked_at g.changed_at || ltb request.checked_at a.changed_at)
judge request actor none a = refuse request none a
judge request actor (some g) none = refuse request (some g) none

-- The key belongs to another order.
unfoldable pub check_gate_content : String → Option String → Result KillSwitchError (Unit {0})
check_gate_content hash none = ok tt
check_gate_content hash (some committed) = raise_if (not (committed =s= hash)) idempotency_conflict

abbrev pub or_blocked :
    Option KillSwitchGateDecision → Action KillSwitchGateDecision → Action KillSwitchGateDecision
or_blocked (some committed) rest = return committed
or_blocked none rest = rest

-- `guard_new_order` up to its `yield`.
unfoldable pub enter_guard :
    ⦃h : Hashing⦄ → KillSwitchGateRequest → KillSwitchActor → Action KillSwitchGateDecision
unfolding judge
enter_guard request actor = do
  reads (λ r.
      check_gate_content (gate_operation_hash request) (get (gate_key request) r.gate_requests))
  committed ← gets (λ r. get (gate_key request) r.blocked_gate_decisions)
  or_blocked committed (do
    global_state ← gets (λ r. get (global, none) r.states)
    account_state ← gets (λ r. get (account, some request.account_id) r.states)
    judge request actor global_state account_state)

-- `guard_new_order` behind its `yield`, in the branch of the decision.
unfoldable pub leave_guard : KillSwitchGateStatus → Repository → Repository
leave_guard allowed r = record r { active_order_guards = r.active_order_guards - 1 }
leave_guard blocked r = r
