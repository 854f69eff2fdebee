-- ===== src/KillSwitch/Outcomes.antt =====
-- The outcomes of `initialize`, `activate` and `recover` of `InMemoryKillSwitchRepository`
-- (packages/quant_agent/risk/kill_switch/repository.py): a raise, a replay or a commit.
use quant_agent.Prelude.{
  ◌≡◌, refl, eq_iff, ◌⊎◌, inl, inr, String, Bool, true, false, Option, none, some, arith, Result,
  ok, err, bind-ok,
}
use mathlib.Core.Path.{subst⁻¹}
use quant_agent.Dict.{get, put}
use quant_agent.KillSwitch.Contracts.{
  KillSwitchIncident, KillSwitchAuditEvent, KillSwitchTransition, KillSwitchError,
}
use quant_agent.KillSwitch.Checks.{is_some}
use quant_agent.KillSwitch.Store.{
  StateKey, OperationKey, state_key_laws, operation_key_laws, gate_key_laws, text_key_laws, Action,
  lift, continue, ◌>>=◌, reads, Repository,
}
use quant_agent.KillSwitch.Plans.{
  state_key, same_content, committed_operation, latest_event_hash, validate_event_append,
}
use quant_agent.KillSwitch.Repository.{
  reject_reentrant_mutation, record_event, record_new, append_event, add_incident, commit,
  or_replay,
}

-- The value and the repository at the end of an action.
abbrev pub Outcome : Type 0 → Type 0
Outcome A = Result KillSwitchError A × Repository

-- Behind a read, what holds of a raise and of the rest holds of both.
pub continue_cases {ℓ} :
    {A B : Type 0} (C : Outcome B → Type ℓ) (m : Result KillSwitchError A) (rest : A → Action B)
    (r : Repository)
    → ((e : KillSwitchError) → m ≡ err e → C (err e, r))
    → ((a : A) → m ≡ ok a → C (rest a r))
    → C (continue rest (m, r))
continue_cases C (err e) rest r raised returned = raised e refl
continue_cases C (ok a) rest r raised returned = returned a refl

-- The repository with an event at the end of its chain, unless the event is there already.
unfoldable pub noted : Bool → StateKey → KillSwitchAuditEvent → Repository → Repository
unfolding record_event
noted true chain event r = r
noted false chain event r = record_event chain event r

-- Where `_append_event` finds the chain in order, it returns.
pub append_event_lem :
    (event : KillSwitchAuditEvent) (chain : StateKey) (r : Repository)
    → state_key event.scope event.account_id ≡ ok chain
    → validate_event_append event r ≡ ok tt
    → append_event event r
      ≡ (ok tt, noted (is_some (get event.event_hash r.events_by_hash)) chain event r)
unfolding append_event record_new noted
append_event_lem event chain r keyed valid =
    rw valid (go (is_some (get event.event_hash r.events_by_hash)))
  where
    go : (known : Bool) → record_new known event r ≡ (ok tt, noted known chain event r)
    go true = refl
    go false = rw keyed refl

pub validated-state_key :
    (event : KillSwitchAuditEvent) (r : Repository)
    → validate_event_append event r ≡ ok tt
    → (chain : StateKey) × (state_key event.scope event.account_id ≡ ok chain)
unfolding validate_event_append latest_event_hash
validated-state_key event r valid =
    let (found, is_found, _) = bind-ok (latest_event_hash event.scope event.account_id r) _ valid in
    let (chain, keyed, _) = bind-ok (state_key event.scope event.account_id) _ is_found in
    (chain, keyed)

unfoldable pub states_written :
    Option KillSwitchIncident → StateKey → KillSwitchTransition → Repository → Repository
states_written incident place t r = record r {
  incidents = add_incident incident r.incidents;
  states = put place t.state_after r.states;
}

validate_event_append-states_written :
    (incident : Option KillSwitchIncident) (place : StateKey) (t : KillSwitchTransition)
    (r : Repository)
    → validate_event_append t.audit_event r ≡ ok tt
    → validate_event_append t.audit_event (states_written incident place t r) ≡ ok tt
unfolding validate_event_append latest_event_hash states_written
validate_event_append-states_written incident place t r valid = valid

-- The repository behind a commit.
unfoldable pub after_commit :
    Option KillSwitchIncident
    → StateKey
    → OperationKey
    → String
    → KillSwitchTransition
    → StateKey
    → Repository
    → Repository
unfolding noted states_written
after_commit incident place key hash t chain r =
    let event = t.audit_event in
    let known = is_some (get event.event_hash r.events_by_hash) in
    let logged = noted known chain event (states_written incident place t r) in
    record logged { operations = put key (hash, t) logged.operations }

pub commit_lem :
    (incident : Option KillSwitchIncident) (place : StateKey) (key : OperationKey) (hash : String)
    (t : KillSwitchTransition) (chain : StateKey) (r : Repository)
    → state_key t.audit_event.scope t.audit_event.account_id ≡ ok chain
    → validate_event_append t.audit_event r ≡ ok tt
    → commit incident place key hash t r ≡ (ok t, after_commit incident place key hash t chain r)
unfolding commit after_commit noted states_written
commit_lem incident place key hash t chain r keyed valid =
    let logs =
      append_event_lem t.audit_event chain (states_written incident place t r) keyed
        (validate_event_append-states_written incident place t r valid) in
    rw valid (rw logs refl)

commit-refused :
    (incident : Option KillSwitchIncident) (place : StateKey) (key : OperationKey) (hash : String)
    (t : KillSwitchTransition) (r : Repository) (e : KillSwitchError)
    → validate_event_append t.audit_event r ≡ err e
    → commit incident place key hash t r ≡ (err e, r)
unfolding commit
commit-refused incident place key hash t r e refused = rw refused refl

pub check_cases :
    (m : Result KillSwitchError (Unit {0})) → ((e : KillSwitchError) × (m ≡ err e)) ⊎ (m ≡ ok tt)
check_cases (err e) = inl (e, refl)
check_cases (ok tt) = inr refl

-- The outcomes of a mutation: `Keyed` says which operation it is, `Planned` where its transition
-- comes from.
pub data Mutated (Keyed : OperationKey → String → Type 0)
    (Planned : StateKey → OperationKey → String → KillSwitchTransition → Type 0)
    (incident : Option KillSwitchIncident) (r : Repository)
    : Outcome KillSwitchTransition → Type 0 where
  raised : (e : KillSwitchError) → Mutated Keyed Planned incident r (err e, r)
  replayed :
      (key : OperationKey) (hash : String) (t : KillSwitchTransition)
      → Keyed key hash
      → get key r.operations ≡ some (hash, t)
      → Mutated Keyed Planned incident r (ok t, r)
  committed :
      (place : StateKey) (key : OperationKey) (hash : String) (t : KillSwitchTransition)
      (chain : StateKey)
      → r.active_order_guards ≡ 0
      → Keyed key hash
      → get key r.operations ≡ none
      → Planned place key hash t
      → state_key t.audit_event.scope t.audit_event.account_id ≡ ok chain
      → validate_event_append t.audit_event r ≡ ok tt
      → Mutated Keyed Planned incident r (ok t, after_commit incident place key hash t chain r)

same_content-none :
    (hash : String) (stored : Option (String × KillSwitchTransition))
    → same_content hash stored ≡ ok none
    → stored ≡ none
unfolding same_content
same_content-none hash none h = refl
same_content-none hash (some (other, t)) h = ground arith

same_content-some :
    (hash : String) (stored : Option (String × KillSwitchTransition)) (t : KillSwitchTransition)
    → same_content hash stored ≡ ok (some t)
    → stored ≡ some (hash, t)
unfolding same_content
same_content-some hash none t h = cc
same_content-some hash (some (other, u)) t h = ground (arith, eq_iff other hash)

reject_reentrant_mutation-ok :
    (r : Repository) (u : Unit {0}) → reject_reentrant_mutation r ≡ ok u → r.active_order_guards ≡ 0
unfolding reject_reentrant_mutation
reject_reentrant_mutation-ok r u free = ground arith

module _ (Keyed : OperationKey → String → Type 0) (place : Result KillSwitchError StateKey)
    (plan : StateKey → Repository → Result KillSwitchError KillSwitchTransition)
    (incident : Option KillSwitchIncident) (key : OperationKey) (hash : String) (r : Repository)
    (keyed : Keyed key hash) where
  abbrev pub Ends : Outcome KillSwitchTransition → Type 0
  Ends = Mutated Keyed (λ p k h t. (place ≡ ok p) × (plan p r ≡ ok t)) incident r

  commit-Ends :
      r.active_order_guards ≡ 0
      → get key r.operations ≡ none
      → (p : StateKey) (t : KillSwitchTransition) → place ≡ ok p
      → plan p r ≡ ok t
      → Ends (commit incident p key hash t r)
  commit-Ends free absent p t placed planned =
      elim (check_cases (validate_event_append t.audit_event r)) [
        | inl (e, refused) ↦
            subst⁻¹ Ends (commit-refused incident p key hash t r e refused) (raised e)
        | inr valid ↦
            let (chain, chained) = validated-state_key t.audit_event r valid in
            subst⁻¹ Ends (commit_lem incident p key hash t chain r chained valid)
              (committed p key hash t chain free keyed absent (placed, planned) chained valid)
      ]

  abbrev pub finish : Action KillSwitchTransition
  finish = lift place >>= λ p. reads (plan p) >>= λ t. commit incident p key hash t

  finish-Ends :
      r.active_order_guards ≡ 0
      → (found : Option KillSwitchTransition) → committed_operation key hash r ≡ ok found
      → Ends (or_replay found finish r)
  unfolding committed_operation
  finish-Ends free (some t) is_found =
      replayed key hash t keyed (same_content-some hash (get key r.operations) t is_found)
  finish-Ends free none is_found =
      let absent = same_content-none hash (get key r.operations) is_found in
      continue_cases Ends place _ r (λ e _. raised e)
        (λ p placed.
          continue_cases Ends (plan p r) _ r (λ e _. raised e)
            (λ t planned. commit-Ends free absent p t placed planned))

  -- The part that the three mutations share, from the check of the guards on.
  pub tail-Ends : Ends (
      (reads reject_reentrant_mutation >>= λ _.
      reads (committed_operation key hash) >>= λ committed. or_replay committed finish)
        r)
  tail-Ends =
      continue_cases Ends (reject_reentrant_mutation r) _ r (λ e _. raised e)
        (λ u free.
          continue_cases Ends (committed_operation key hash r) _ r (λ e _. raised e)
            (λ found is_found. finish-Ends (reject_reentrant_mutation-ok r u free) found is_found))
