-- ===== src/KillSwitch/Retries.antt =====
-- Retries, raises and held guards: `initialize`, `activate` and `recover` of
-- packages/quant_agent/risk/kill_switch/repository.py over any history of the repository.
use quant_agent.Prelude.{
  ℕ, ◌≡◌, ◌<◌, refl, sym, ap, ◌∙◌, String, Option, none, some, ok, err, arith, beq_refl,
}
use quant_agent.Canonical.{Hashing}
use quant_agent.Dict.{get, get-put_self}
use quant_agent.KillSwitch.Contracts.{
  KillSwitchScope, KillSwitchActor, KillSwitchIncident, KillSwitchActivationRequest,
  KillSwitchRecoveryRequest, KillSwitchTransition, KillSwitchGateRequest, KillSwitchGateDecision,
  KillSwitchError,
}
use quant_agent.KillSwitch.Checks.{is_some}
use quant_agent.KillSwitch.Store.{
  StateKey, OperationKey, state_key_laws, operation_key_laws, gate_key_laws, text_key_laws,
  Repository,
}
use quant_agent.KillSwitch.Plans.{operation_key, same_content, committed_operation}
use quant_agent.KillSwitch.Repository.{reject_reentrant_mutation, initialize, activate, recover}
use quant_agent.KillSwitch.Guard.{store_block, open_guard, enter_guard, leave_guard}
use quant_agent.KillSwitch.Outcomes.{Outcome, Mutated, raised, replayed, committed, after_commit}
use quant_agent.KillSwitch.GuardOutcomes.{
  Guarded, failed, refused, admitted, stopped, conflicting, repeated, judged, enter_guard-Guarded,
}
use quant_agent.KillSwitch.Mutations.{activate-Activated, recover-Recovered, initialize-Initialized}
use quant_agent.KillSwitch.Keeps.{Runs-Extends, noted-keeps}
use quant_agent.KillSwitch.Steps.{Step, Runs, initializes, activates, recovers, enters, leaves}

-- A call of a method that writes.
pub data Call : Type 0 where
  call_initialize :
      (scope : KillSwitchScope) (account_id : Option String) (actor : KillSwitchActor)
      (changed_at : ℕ) (idempotency_key : Option String)
      → Call
  call_activate : (request : KillSwitchActivationRequest) → Call
  call_recover : (request : KillSwitchRecoveryRequest) (processed_at : ℕ) → Call
  call_guard : (request : KillSwitchGateRequest) (actor : KillSwitchActor) → Call

-- A mutation that returned is stored under its key.
Mutated-stored :
    {Keyed : OperationKey → String → Type 0}
    {Planned : StateKey → OperationKey → String → KillSwitchTransition → Type 0}
    (incident : Option KillSwitchIncident) (r : Repository) (out : Outcome KillSwitchTransition)
    (t : KillSwitchTransition)
    → Mutated Keyed Planned incident r out
    → out.0 ≡ ok t
    → (key : OperationKey) × (hash : String) × Keyed key hash
      × (get key out.1.operations ≡ some (hash, t))
unfolding after_commit
Mutated-stored incident r _ t (raised e) same = cc
Mutated-stored incident r _ t (replayed key hash x keyed stored) same =
    let here : x ≡ t = cc in (key, hash, keyed, rw (← here) stored)
Mutated-stored incident r _ t (committed p key hash x chain _ keyed _ _ _ _) same =
    let here : x ≡ t = cc in (key, hash, keyed, rw (← here) (get-put_self key (hash, x) _))

-- A mutation that raised wrote nothing.
Mutated-raised :
    {Keyed : OperationKey → String → Type 0}
    {Planned : StateKey → OperationKey → String → KillSwitchTransition → Type 0}
    (incident : Option KillSwitchIncident) (r : Repository) (out : Outcome KillSwitchTransition)
    (e : KillSwitchError)
    → Mutated Keyed Planned incident r out
    → out.0 ≡ err e
    → out.1 ≡ r
Mutated-raised incident r _ e (raised f) same = refl
Mutated-raised incident r _ e (replayed key hash x keyed stored) same = refl
Mutated-raised incident r _ e (committed p key hash x chain _ _ _ _ _ _) same = cc

Mutated-held :
    {Keyed : OperationKey → String → Type 0}
    {Planned : StateKey → OperationKey → String → KillSwitchTransition → Type 0}
    (incident : Option KillSwitchIncident) (r : Repository) (out : Outcome KillSwitchTransition)
    → Mutated Keyed Planned incident r out
    → 0 < r.active_order_guards
    → out.1 ≡ r
Mutated-held incident r _ (raised f) held = refl
Mutated-held incident r _ (replayed key hash x keyed stored) held = refl
Mutated-held incident r _ (committed p key hash x chain free _ _ _ _ _) held =
    absurd (positive r.active_order_guards free held)
  where
    positive : (n : ℕ) → n ≡ 0 → 0 < n → ⊥
    positive n z p = omega arith

module _ ⦃h : Hashing⦄ where
  stored_activation :
      (request : KillSwitchActivationRequest) (key : OperationKey) (t : KillSwitchTransition)
      (r : Repository)
      → operation_key request.incident.scope request.incident.account_id request.idempotency_key
        ≡ ok key
      → get key r.operations ≡ some (request.request_hash, t)
      → r.active_order_guards ≡ 0
      → activate request r ≡ (ok t, r)
  unfolding activate reject_reentrant_mutation committed_operation same_content
  stored_activation request key t r keyed stored free =
      rw (keyed, free, stored, beq_refl request.request_hash) refl

  stored_recovery :
      (request : KillSwitchRecoveryRequest) (now : ℕ) (key : OperationKey)
      (t : KillSwitchTransition) (r : Repository)
      → operation_key request.approval.scope request.approval.account_id request.idempotency_key
        ≡ ok key
      → get key r.operations ≡ some (request.request_hash, t)
      → r.active_order_guards ≡ 0
      → recover request now r ≡ (ok t, r)
  unfolding recover reject_reentrant_mutation committed_operation same_content
  stored_recovery request now key t r keyed stored free =
      rw (keyed, free, stored, beq_refl request.request_hash) refl

  -- An activation that returned a transition returns that transition again when the same request
  -- is made after any further calls, and writes nothing, if no guard is held then.
  pub activation_repeats :
      (request : KillSwitchActivationRequest) (r s u : Repository) (t : KillSwitchTransition)
      → activate request r ≡ (ok t, s)
      → Runs s u
      → u.active_order_guards ≡ 0
      → activate request u ≡ (ok t, u)
  activation_repeats request r s u t done runs free =
      let (key, hash, (keyed, same), stored) =
        Mutated-stored (some request.incident) r (activate request r) t
          (activate-Activated request r) (ap (λ o. o.0) done) in
      let at_end : get key s.operations ≡ some (request.request_hash, t) =
        ap (λ o. get key o.1.operations) (sym done) ∙ stored ∙ ap (λ x. some (x, t)) same in
      stored_activation request key t u keyed
        ((Runs-Extends s u runs).operations_kept key (request.request_hash, t) at_end) free

  -- A recovery that returned a transition returns that transition again when the same request is
  -- made after any further calls and at any time, and writes nothing, if no guard is held then: a
  -- switch that became active in between stays active.
  pub recovery_repeats :
      (request : KillSwitchRecoveryRequest) (now later : ℕ) (r s u : Repository)
      (t : KillSwitchTransition)
      → recover request now r ≡ (ok t, s)
      → Runs s u
      → u.active_order_guards ≡ 0
      → recover request later u ≡ (ok t, u)
  recovery_repeats request now later r s u t done runs free =
      let (key, hash, (keyed, same), stored) =
        Mutated-stored none r (recover request now r) t (recover-Recovered request now r)
          (ap (λ o. o.0) done) in
      let at_end : get key s.operations ≡ some (request.request_hash, t) =
        ap (λ o. get key o.1.operations) (sym done) ∙ stored ∙ ap (λ x. some (x, t)) same in
      stored_recovery request later key t u keyed
        ((Runs-Extends s u runs).operations_kept key (request.request_hash, t) at_end) free

  guard_raised :
      (request : KillSwitchGateRequest) (r : Repository) (out : Outcome KillSwitchGateDecision)
      (e : KillSwitchError)
      → Guarded request r out
      → out.0 ≡ err e
      → out.1 ≡ r
  guard_raised request r _ e (conflicting f) same = refl
  guard_raised request r _ e (repeated x _ _) same = refl
  guard_raised request r _ e (judged _ _ _ (failed f)) same = refl
  guard_raised request r _ e (judged _ _ _ (refused x _)) same = cc
  guard_raised request r _ e (judged _ _ _ (admitted g a x _ _ _ _ _)) same = cc
  guard_raised request r _ e (judged _ _ _ (stopped x event chain _ _ _)) same = cc

  -- A call that raised, with the repository it left: without its value on success.
  abbrev silent : {A : Type 0} → Outcome A → Outcome (Unit {0})
  silent (ok _, r) = (ok tt, r)
  silent (err e, r) = (err e, r)

  silent-raised :
      {A : Type 0} (out : Outcome A) (e : KillSwitchError) (s : Repository)
      → silent out ≡ (err e, s)
      → (out.0 ≡ err e) × (out.1 ≡ s)
  silent-raised (ok _, r) e s same = cc
  silent-raised (err f, r) e s same = (cc, cc)

  unfoldable pub perform : Call → Repository → Outcome (Unit {0})
  perform (call_initialize scope account_id actor at key) r =
      silent (initialize scope account_id actor at key r)
  perform (call_activate request) r = silent (activate request r)
  perform (call_recover request now) r = silent (recover request now r)
  perform (call_guard request actor) r = silent (enter_guard request actor r)

  -- Whatever `initialize`, `activate`, `recover` or `guard_new_order` raises, at any point of its
  -- body, the repository is as it was before the call.
  pub raises_change_nothing :
      (call : Call) (r s : Repository) (e : KillSwitchError) → perform call r ≡ (err e, s) → s ≡ r
  unfolding perform
  raises_change_nothing (call_initialize scope account_id actor at key) r s e raises =
      let (bad, end) = silent-raised _ e s raises in
      sym end
      ∙ Mutated-raised none r _ e (initialize-Initialized scope account_id actor at key r) bad
  raises_change_nothing (call_activate request) r s e raises =
      let (bad, end) = silent-raised _ e s raises in
      sym end ∙ Mutated-raised (some request.incident) r _ e (activate-Activated request r) bad
  raises_change_nothing (call_recover request now) r s e raises =
      let (bad, end) = silent-raised _ e s raises in
      sym end ∙ Mutated-raised none r _ e (recover-Recovered request now r) bad
  raises_change_nothing (call_guard request actor) r s e raises =
      let (bad, end) = silent-raised _ e s raises in
      sym end ∙ guard_raised request r _ e (enter_guard-Guarded request actor r) bad

  pub guard-states :
      (request : KillSwitchGateRequest) (r : Repository) (out : Outcome KillSwitchGateDecision)
      → Guarded request r out
      → out.1.states ≡ r.states
  unfolding store_block open_guard
  guard-states request r _ (conflicting f) = refl
  guard-states request r _ (repeated x _ _) = refl
  guard-states request r _ (judged _ _ _ (failed f)) = refl
  guard-states request r _ (judged _ _ _ (refused x _)) = refl
  guard-states request r _ (judged _ _ _ (admitted g a x _ _ _ _ _)) = refl
  guard-states request r _ (judged _ _ _ (stopped x event chain _ _ _)) =
      let known = is_some (get event.event_hash r.events_by_hash) in
      let (_, _, _, states, _) = noted-keeps known chain event r in states

  -- While the guard of an order that was let through is held, no call changes a switch: neither a
  -- mutation from inside the guarded submission nor another order's guard.
  pub held_guard_freezes_states :
      (r s : Repository) → Step r s → 0 < r.active_order_guards → s.states ≡ r.states
  unfolding leave_guard
  held_guard_freezes_states r _ (initializes scope account_id actor at key) held =
      ap (λ x. x.states)
        (Mutated-held none r _ (initialize-Initialized scope account_id actor at key r) held)
  held_guard_freezes_states r _ (activates request) held =
      ap (λ x. x.states)
        (Mutated-held (some request.incident) r _ (activate-Activated request r) held)
  held_guard_freezes_states r _ (recovers request now) held =
      ap (λ x. x.states) (Mutated-held none r _ (recover-Recovered request now r) held)
  held_guard_freezes_states r _ (enters request actor) held =
      guard-states request r _ (enter_guard-Guarded request actor r)
  held_guard_freezes_states r _ (leaves _) held = refl
