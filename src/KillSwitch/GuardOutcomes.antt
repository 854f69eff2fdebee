-- ===== src/KillSwitch/GuardOutcomes.antt =====
-- The outcomes of `guard_new_order` at its `yield` (packages/quant_agent/risk/kill_switch/
-- repository.py): a raise, an earlier decision, a refusal, an admission, or a block with its event.
use quant_agent.Prelude.{
  ◌≡◌, refl, sym, ap, String, Bool, true, false, ◌||◌, inl, inr, Option, none, some, List, [], ◌∷◌,
  map, ok, err, raise_if, ◌>>=◌ as ◌>>!◌, ltb, max,
}
use quant_agent.Canonical.{Hashing}
use quant_agent.Dict.{get}
use quant_agent.KillSwitch.Contracts.{
  global, account, KillSwitchState, KillSwitchAuditEvent, KillSwitchActor, KillSwitchError,
  value_error, KillSwitchGateRequest, KillSwitchGateDecision, KillSwitchGateStatus,
  KillSwitchGateReason, allowed, blocked, state_unavailable, order_blocked,
}
use quant_agent.KillSwitch.Payloads.{reason_value}
use quant_agent.KillSwitch.Checks.{is_some, opt_state_hash}
use quant_agent.KillSwitch.Builders.{build_decision, decision_of, build_event, gate_operation_hash}
use quant_agent.KillSwitch.Store.{
  StateKey, state_key_laws, operation_key_laws, gate_key_laws, text_key_laws, Action, return, gets,
  modify, ◌>>=◌, reads, Repository,
}
use quant_agent.KillSwitch.Plans.{state_key, latest_event_hash, validate_event_append, gate_key}
use quant_agent.KillSwitch.Repository.{append_event}
use quant_agent.KillSwitch.Guard.{
  store_block, open_guard, refuse, admit, blocking_states, blocking_reasons, all_incident_ids,
  order_blocked_hash, block, judge_states, judge_fresh, judge, check_gate_content, or_blocked,
  enter_guard,
}
use quant_agent.KillSwitch.Outcomes.{
  Outcome, continue_cases, noted, append_event_lem, validated-state_key, check_cases,
}

-- The outcomes of a check of an order that no earlier one has blocked.
pub data Judged ⦃h : Hashing⦄ (request : KillSwitchGateRequest) (r : Repository)
    : Outcome KillSwitchGateDecision → Type 0 where
  failed : (e : KillSwitchError) → Judged request r (err e, r)
  refused :
      (d : KillSwitchGateDecision)
      → d.status ≡ blocked
      → Judged request r (ok d, store_block request d r)
  admitted :
      (g a : KillSwitchState) (d : KillSwitchGateDecision)
      → get (global, none) r.states ≡ some g
      → get (account, some request.account_id) r.states ≡ some a
      → (ltb request.checked_at g.changed_at || ltb request.checked_at a.changed_at) ≡ false
      → blocking_states g a ≡ []
      → d.status ≡ allowed
      → Judged request r (ok d, open_guard request r)
  stopped :
      (d : KillSwitchGateDecision) (event : KillSwitchAuditEvent) (chain : StateKey)
      → d.status ≡ blocked
      → state_key event.scope event.account_id ≡ ok chain
      → validate_event_append event r ≡ ok tt
      → Judged request r (
        ok d,
        store_block request d
            (noted (is_some (get event.event_hash r.events_by_hash)) chain event r),
      )

checked-ok :
    (bad : Bool) (built d : KillSwitchGateDecision)
    → (raise_if bad value_error >>! λ _. ok built) ≡ ok d
    → built ≡ d
checked-ok true built d e = cc
checked-ok false built d e = cc

module _ ⦃h : Hashing⦄ where
  pub build_decision-status :
      (request : KillSwitchGateRequest) (status : KillSwitchGateStatus) (g a : Option String)
      (hashes : List String) (reasons : List KillSwitchGateReason) (incidents : List String)
      (audit : Option String) (d : KillSwitchGateDecision)
      → build_decision request status g a hashes reasons incidents audit ≡ ok d
      → d.status ≡ status
  unfolding build_decision decision_of
  build_decision-status request status g a hashes reasons incidents audit d built =
      ap status_of
        (sym (checked-ok _ (decision_of request status g a hashes reasons incidents audit) d built))
    where
      status_of : KillSwitchGateDecision → KillSwitchGateStatus
      status_of x = x.status

  module _ (request : KillSwitchGateRequest) (actor : KillSwitchActor) (r : Repository) where
    refuse-Judged : (g a : Option KillSwitchState) → Judged request r (refuse request g a r)
    unfolding refuse
    refuse-Judged g a =
        continue_cases (Judged request r)
          (build_decision request blocked (opt_state_hash g) (opt_state_hash a) []
            (state_unavailable ∷ []) [] none)
          _ r (λ e _. failed e)
          (λ d built. refused d (build_decision-status request blocked _ _ _ _ _ _ d built))

    admit-Judged :
        (g a : KillSwitchState)
        → get (global, none) r.states ≡ some g
        → get (account, some request.account_id) r.states ≡ some a
        → (ltb request.checked_at g.changed_at || ltb request.checked_at a.changed_at) ≡ false
        → blocking_states g a ≡ []
        → Judged request r (admit request g a r)
    unfolding admit
    admit-Judged g a is_g is_a fresh clear =
        continue_cases (Judged request r)
          (build_decision request allowed (some g.state_hash) (some a.state_hash) [] [] [] none) _ r
          (λ e _. failed e)
          (λ d built.
            admitted g a d is_g is_a fresh clear
              (build_decision-status request allowed _ _ _ _ _ _ d built))

    -- The end of a block: the event is checked, appended, and the decision is stored.
    block_end : KillSwitchAuditEvent → KillSwitchGateDecision → Action KillSwitchGateDecision
    block_end event d = reads (validate_event_append event) >>= λ _.
        append_event event >>= λ _. modify (store_block request d) >>= λ _. return d

    block_end-Judged :
        (event : KillSwitchAuditEvent) (d : KillSwitchGateDecision)
        → d.status ≡ blocked
        → Judged request r (block_end event d r)
    unfolding block_end
    block_end-Judged event d is_blocked = elim (check_cases (validate_event_append event r)) [
      | inl (e, bad) ↦ rw bad (failed e)
      | inr valid ↦
          let (chain, chained) = validated-state_key event r valid in
          let appended = append_event_lem event chain r chained valid in
          rw (valid, appended) (stopped d event chain is_blocked chained valid)
    ]

    block-Judged :
        (g a primary : KillSwitchState) → Judged request r (block request actor g a primary r)
    unfolding block block_end
    block-Judged g a primary =
        continue_cases (Judged request r) (latest_event_hash primary.scope primary.account_id r) _ r
          (λ e _. failed e)
          (λ previous _.
            let hashes = map (λ s. s.state_hash) (blocking_states g a) in
            continue_cases (Judged request r)
              (build_event order_blocked (some primary) primary actor
                (order_blocked_hash request g a previous) none
                (map reason_value (blocking_reasons g a)) hashes
                (max request.checked_at primary.changed_at) previous)
              _ r (λ e _. failed e)
              (λ event _.
                continue_cases (Judged request r)
                  (build_decision request blocked (some g.state_hash) (some a.state_hash) hashes
                    (blocking_reasons g a) (all_incident_ids (blocking_states g a))
                    (some event.event_hash))
                  _ r (λ e _. failed e)
                  (λ d built.
                    block_end-Judged event d
                      (build_decision-status request blocked _ _ _ _ _ _ d built))))

    judge_states-Judged :
        (g a : KillSwitchState)
        → get (global, none) r.states ≡ some g
        → get (account, some request.account_id) r.states ≡ some a
        → (ltb request.checked_at g.changed_at || ltb request.checked_at a.changed_at) ≡ false
        → (states : List KillSwitchState) → blocking_states g a ≡ states
        → Judged request r (judge_states request actor g a states r)
    judge_states-Judged g a is_g is_a fresh [] clear = admit-Judged g a is_g is_a fresh clear
    judge_states-Judged g a is_g is_a fresh (primary ∷ _) _ = block-Judged g a primary

    judge_fresh-Judged :
        (g a : KillSwitchState)
        → get (global, none) r.states ≡ some g
        → get (account, some request.account_id) r.states ≡ some a
        → (late : Bool)
        → (ltb request.checked_at g.changed_at || ltb request.checked_at a.changed_at) ≡ late
        → Judged request r (judge_fresh request actor g a late r)
    judge_fresh-Judged g a is_g is_a true _ = refuse-Judged (some g) (some a)
    judge_fresh-Judged g a is_g is_a false fresh =
        judge_states-Judged g a is_g is_a fresh (blocking_states g a) refl

    judge-Judged :
        (g a : Option KillSwitchState)
        → get (global, none) r.states ≡ g
        → get (account, some request.account_id) r.states ≡ a
        → Judged request r (judge request actor g a r)
    unfolding judge
    judge-Judged (some g) (some a) is_g is_a = judge_fresh-Judged g a is_g is_a _ refl
    judge-Judged none a is_g is_a = refuse-Judged none a
    judge-Judged (some g) none is_g is_a = refuse-Judged (some g) none

-- The outcomes of the whole guard.
pub data Guarded ⦃h : Hashing⦄ (request : KillSwitchGateRequest) (r : Repository)
    : Outcome KillSwitchGateDecision → Type 0 where
  conflicting : (e : KillSwitchError) → Guarded request r (err e, r)
  repeated :
      (d : KillSwitchGateDecision)
      → check_gate_content (gate_operation_hash request) (get (gate_key request) r.gate_requests)
        ≡ ok tt
      → get (gate_key request) r.blocked_gate_decisions ≡ some d
      → Guarded request r (ok d, r)
  judged :
      (out : Outcome KillSwitchGateDecision)
      → check_gate_content (gate_operation_hash request) (get (gate_key request) r.gate_requests)
        ≡ ok tt
      → get (gate_key request) r.blocked_gate_decisions ≡ none
      → Judged request r out
      → Guarded request r out

pub enter_guard-Guarded :
    ⦃h : Hashing⦄ (request : KillSwitchGateRequest) (actor : KillSwitchActor) (r : Repository)
    → Guarded request r (enter_guard request actor r)
unfolding enter_guard
enter_guard-Guarded request actor r =
    continue_cases (Guarded request r)
      (check_gate_content (gate_operation_hash request) (get (gate_key request) r.gate_requests)) _
      r (λ e _. conflicting e)
      (λ u same. go u same (get (gate_key request) r.blocked_gate_decisions) refl)
  where
    go :
        (u : Unit {0})
        → check_gate_content (gate_operation_hash request) (get (gate_key request) r.gate_requests)
          ≡ ok u
        → (found : Option KillSwitchGateDecision)
        → get (gate_key request) r.blocked_gate_decisions ≡ found
        → Guarded request r (
            or_blocked found
              (gets (λ r. get (global, none) r.states) >>= λ g.
                gets (λ r. get (account, some request.account_id) r.states) >>= λ a.
                judge request actor g a)
              r)
    go tt same (some d) stored = repeated d same stored
    go tt same none absent = judged _ same absent (judge-Judged request actor r _ _ refl refl)
