-- ===== src/KillSwitch/Keeps.antt =====
-- What no call of an `InMemoryKillSwitchRepository` (packages/quant_agent/risk/kill_switch/
-- repository.py) takes back: the committed operations, the keys of the guarded orders, and the
-- decisions that blocked one.
use quant_agent.Prelude.{
  ◌≡◌, refl, String, Bool, true, false, Option, none, some, ok, ◌⊎◌, inl, inr, arith, eq_iff,
}
use quant_agent.Canonical.{Hashing}
use quant_agent.Dict.{Dict, Key, get, get-put_new, get-put_agrees}
use quant_agent.KillSwitch.Contracts.{
  allowed, KillSwitchIncident, KillSwitchAuditEvent, KillSwitchTransition, KillSwitchGateRequest,
  KillSwitchGateDecision,
}
use quant_agent.KillSwitch.Checks.{is_some}
use quant_agent.KillSwitch.Builders.{gate_operation_hash}
use quant_agent.KillSwitch.Store.{
  StateKey, OperationKey, state_key_laws, operation_key_laws, gate_key_laws, text_key_laws,
  Repository,
}
use quant_agent.KillSwitch.Repository.{record_event}
use quant_agent.KillSwitch.Plans.{gate_key}
use quant_agent.KillSwitch.Guard.{store_block, open_guard, check_gate_content, leave_guard}
use quant_agent.KillSwitch.Outcomes.{Outcome, noted, states_written, after_commit, Mutated}
use quant_agent.KillSwitch.Outcomes.{raised, replayed, committed}
use quant_agent.KillSwitch.GuardOutcomes.{
  enter_guard-Guarded, failed, refused, admitted, stopped, conflicting, repeated, judged, Judged,
  Guarded,
}
use quant_agent.KillSwitch.Mutations.{activate-Activated, recover-Recovered, initialize-Initialized}
use quant_agent.KillSwitch.Steps.{
  Step, Runs, Runs-keeps, initializes, activates, recovers, enters, leaves,
}

abbrev pub Kept : {K V : Type 0} → ⦃key : Key K⦄ → Dict K V → Dict K V → Type 0
Kept {K = K} {V = V} d e = (k : K) (v : V) → get k d ≡ some v → get k e ≡ some v

pub record Extends (r s : Repository) : Type 0 where
  pub operations_kept : Kept r.operations s.operations
  pub gate_requests_kept : Kept r.gate_requests s.gate_requests
  pub blocked_kept : Kept r.blocked_gate_decisions s.blocked_gate_decisions

unfoldable pub extends_refl : (r : Repository) → Extends r r
extends_refl r = record {
  operations_kept = λ _ _ e. e;
  gate_requests_kept = λ _ _ e. e;
  blocked_kept = λ _ _ e. e;
}

pub extends_trans : (r s t : Repository) → Extends r s → Extends s t → Extends r t
extends_trans r s t e f = record {
  operations_kept = λ k v p. f.operations_kept k v (e.operations_kept k v p);
  gate_requests_kept = λ k v p. f.gate_requests_kept k v (e.gate_requests_kept k v p);
  blocked_kept = λ k v p. f.blocked_kept k v (e.blocked_kept k v p);
}

-- Writing an event changes the audit chain alone.
pub noted-keeps :
    (known : Bool) (chain : StateKey) (event : KillSwitchAuditEvent) (r : Repository)
    → ((noted known chain event r).operations ≡ r.operations)
      × ((noted known chain event r).gate_requests ≡ r.gate_requests)
      × ((noted known chain event r).blocked_gate_decisions ≡ r.blocked_gate_decisions)
      × ((noted known chain event r).states ≡ r.states)
      × ((noted known chain event r).active_order_guards ≡ r.active_order_guards)
unfolding noted record_event
noted-keeps true chain event r = (refl, refl, refl, refl, refl)
noted-keeps false chain event r = (refl, refl, refl, refl, refl)

pub after_commit-Extends :
    (incident : Option KillSwitchIncident) (place : StateKey) (key : OperationKey) (hash : String)
    (t : KillSwitchTransition) (chain : StateKey) (r : Repository)
    → get key r.operations ≡ none
    → Extends r (after_commit incident place key hash t chain r)
unfolding after_commit states_written
after_commit-Extends incident place key hash t chain r absent =
    let event = t.audit_event in
    let known = is_some (get event.event_hash r.events_by_hash) in
    let (ops, gates, blocks, _, _) =
      noted-keeps known chain event (states_written incident place t r) in
    record {
      operations_kept = λ k v e. rw ops (get-put_new k key (hash, t) v r.operations absent e);
      gate_requests_kept = λ k v e. rw gates e;
      blocked_kept = λ k v e. rw blocks e;
    }

pub after_commit-blocks :
    (incident : Option KillSwitchIncident) (place : StateKey) (key : OperationKey) (hash : String)
    (t : KillSwitchTransition) (chain : StateKey) (r : Repository)
    → (after_commit incident place key hash t chain r).blocked_gate_decisions
      ≡ r.blocked_gate_decisions
unfolding after_commit states_written
after_commit-blocks incident place key hash t chain r =
    let known = is_some (get t.audit_event.event_hash r.events_by_hash) in
    (noted-keeps known chain t.audit_event (states_written incident place t r)).2

pub Mutated-Extends :
    {Keyed : OperationKey → String → Type 0}
    {Planned : StateKey → OperationKey → String → KillSwitchTransition → Type 0}
    (incident : Option KillSwitchIncident) (r : Repository)
    → (out : Outcome KillSwitchTransition) → Mutated Keyed Planned incident r out
    → Extends r out.1
Mutated-Extends incident r _ (raised e) = extends_refl r
Mutated-Extends incident r _ (replayed key hash t keyed stored) = extends_refl r
Mutated-Extends incident r _
      (committed p key hash t chain free keyed absent planned chained valid) =
    after_commit-Extends incident p key hash t chain r absent

pub check_gate_content-ok :
    (hash : String) (stored : Option String)
    → check_gate_content hash stored ≡ ok tt
    → (stored ≡ none) ⊎ (stored ≡ some hash)
unfolding check_gate_content
check_gate_content-ok hash none e = inl refl
check_gate_content-ok hash (some other) e = inr (ground (arith, eq_iff other hash))

module _ ⦃h : Hashing⦄ where
  -- The conditions under which a guard writes.
  abbrev pub IsOpen : KillSwitchGateRequest → Repository → Type 0
  IsOpen request r =
      (check_gate_content (gate_operation_hash request) (get (gate_key request) r.gate_requests)
        ≡ ok tt)
      × (get (gate_key request) r.blocked_gate_decisions ≡ none)

  pub store_block-Extends :
      (request : KillSwitchGateRequest) (d : KillSwitchGateDecision) (r : Repository)
      → IsOpen request r
      → Extends r (store_block request d r)
  unfolding store_block
  store_block-Extends request d r (same, absent) = record {
    operations_kept = λ _ _ e. e;
    gate_requests_kept = λ k v e.
        get-put_agrees k (gate_key request) (gate_operation_hash request) v r.gate_requests
          (check_gate_content-ok _ _ same) e;
    blocked_kept = λ k v e. get-put_new k (gate_key request) d v r.blocked_gate_decisions absent e;
  }

  pub open_guard-Extends :
      (request : KillSwitchGateRequest) (r : Repository)
      → IsOpen request r
      → Extends r (open_guard request r)
  unfolding open_guard
  open_guard-Extends request r (same, absent) = record {
    operations_kept = λ _ _ e. e;
    gate_requests_kept = λ k v e.
        get-put_agrees k (gate_key request) (gate_operation_hash request) v r.gate_requests
          (check_gate_content-ok _ _ same) e;
    blocked_kept = λ _ _ e. e;
  }

  pub noted-Extends :
      (known : Bool) (chain : StateKey) (event : KillSwitchAuditEvent) (r : Repository)
      → Extends r (noted known chain event r)
  unfolding noted record_event extends_refl
  noted-Extends true chain event r = extends_refl r
  noted-Extends false chain event r = record {
    operations_kept = λ _ _ e. e;
    gate_requests_kept = λ _ _ e. e;
    blocked_kept = λ _ _ e. e;
  }

  pub noted-IsOpen :
      (request : KillSwitchGateRequest) (known : Bool) (chain : StateKey)
      (event : KillSwitchAuditEvent) (r : Repository)
      → IsOpen request r
      → IsOpen request (noted known chain event r)
  unfolding noted record_event
  noted-IsOpen request true chain event r free = free
  noted-IsOpen request false chain event r free = free

  pub Judged-Extends :
      (request : KillSwitchGateRequest) (r : Repository) (out : Outcome KillSwitchGateDecision)
      → IsOpen request r
      → Judged request r out
      → Extends r out.1
  Judged-Extends request r _ free (failed e) = extends_refl r
  Judged-Extends request r _ free (refused d _) = store_block-Extends request d r free
  Judged-Extends request r _ free (admitted g a d _ _ _ _ _) = open_guard-Extends request r free
  Judged-Extends request r _ free (stopped d event chain _ _ _) =
      let known = is_some (get event.event_hash r.events_by_hash) in
      let logged = noted known chain event r in
      extends_trans r logged (store_block request d logged) (noted-Extends known chain event r)
        (store_block-Extends request d logged (noted-IsOpen request known chain event r free))

  pub Guarded-Extends :
      (request : KillSwitchGateRequest) (r : Repository) (out : Outcome KillSwitchGateDecision)
      → Guarded request r out
      → Extends r out.1
  Guarded-Extends request r _ (conflicting e) = extends_refl r
  Guarded-Extends request r _ (repeated d _ _) = extends_refl r
  Guarded-Extends request r out (judged _ same absent rest) =
      Judged-Extends request r out (same, absent) rest

  leave_guard-Extends : (r : Repository) → Extends r (leave_guard allowed r)
  unfolding leave_guard
  leave_guard-Extends r = record {
    operations_kept = λ _ _ e. e;
    gate_requests_kept = λ _ _ e. e;
    blocked_kept = λ _ _ e. e;
  }

  pub Step-Extends : (r s : Repository) → Step r s → Extends r s
  Step-Extends r _ (initializes scope account_id actor at key) =
      Mutated-Extends none r _ (initialize-Initialized scope account_id actor at key r)
  Step-Extends r _ (activates request) =
      Mutated-Extends (some request.incident) r _ (activate-Activated request r)
  Step-Extends r _ (recovers request at) = Mutated-Extends none r _ (recover-Recovered request at r)
  Step-Extends r _ (enters request actor) =
      Guarded-Extends request r _ (enter_guard-Guarded request actor r)
  Step-Extends r _ (leaves _) = leave_guard-Extends r

  pub Runs-Extends : (r s : Repository) → Runs r s → Extends r s
  Runs-Extends = Runs-keeps Extends extends_refl extends_trans Step-Extends
