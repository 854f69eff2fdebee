-- ===== src/KillSwitch/Chain.antt =====
-- The audit events of `InMemoryKillSwitchRepository` (packages/quant_agent/risk/kill_switch/
-- repository.py): one hash chain for each switch, over any history.
use quant_agent.Prelude.{
  ◌≡◌, refl, sym, ap, ◌∙◌, String, Bool, true, false, not, if◌then◌else◌, Bool-cases, Option, none,
  some, List, [], ◌∷◌, ◌++◌, Result, ok, err, inl, inr, raise_if, bind-ok, opt_beq, opt_beq-eq,
}
use mathlib.Core.Path.{subst⁻¹}
use quant_agent.Canonical.{Hashing}
use quant_agent.Dict.{get, put, get-put_self, get-put_ne}
use quant_agent.KillSwitch.Contracts.{
  KillSwitchAuditEvent, KillSwitchIncident, KillSwitchTransition, KillSwitchError,
  KillSwitchGateRequest, KillSwitchGateDecision, repository_conflict, allowed,
}
use quant_agent.KillSwitch.Checks.{is_some}
use quant_agent.KillSwitch.Store.{
  StateKey, OperationKey, state_key_beq, state_key-eq, state_key_laws, operation_key_laws,
  gate_key_laws, text_key_laws, empty_repository, Repository,
}
use quant_agent.KillSwitch.Plans.{state_key, latest_event_hash, validate_event_append}
use quant_agent.KillSwitch.Repository.{record_event}
use quant_agent.KillSwitch.Guard.{store_block, open_guard, leave_guard}
use quant_agent.KillSwitch.Outcomes.{
  Outcome, Mutated, raised, replayed, committed, after_commit, states_written, noted,
}
use quant_agent.KillSwitch.GuardOutcomes.{
  Judged, Guarded, failed, refused, admitted, stopped, conflicting, repeated, judged,
  enter_guard-Guarded,
}
use quant_agent.KillSwitch.Mutations.{activate-Activated, recover-Recovered, initialize-Initialized}
use quant_agent.KillSwitch.Steps.{
  Step, Reachable, Runs-keeps, initializes, activates, recovers, enters, leaves,
}

-- The event is about the switch of a key.
abbrev is_at : StateKey → Result KillSwitchError StateKey → Bool
is_at k (ok j) = state_key_beq j k
is_at k (err _) = false

abbrev is_about : StateKey → KillSwitchAuditEvent → Bool
is_about k e = is_at k (state_key e.scope e.account_id)

abbrev or_else : Option String → Option String → Option String
or_else (some x) y = some x
or_else none y = y

-- The hash of the last event about a switch.
unfoldable pub newest : StateKey → List KillSwitchAuditEvent → Option String
unfolding state_key_beq state_key
newest k [] = none
newest k (e ∷ es) = or_else (newest k es) (if is_about k e then some e.event_hash else none)

-- Events in the order in which they were appended: each is about one switch, and names the hash
-- of the last event about that switch before it, or none if it is the first.
pub data IsChain : List KillSwitchAuditEvent → Type 0 where
  no_events : IsChain []
  one_more :
      (es : List KillSwitchAuditEvent) (e : KillSwitchAuditEvent) (k : StateKey)
      → IsChain es
      → state_key e.scope e.account_id ≡ ok k
      → e.previous_event_hash ≡ newest k es
      → IsChain (es ++ (e ∷ []))

or_else-none : (x : Option String) → or_else x none ≡ x
or_else-none none = refl
or_else-none (some x) = refl

or_else_assoc : (x y z : Option String) → or_else (or_else x y) z ≡ or_else x (or_else y z)
or_else_assoc none y z = refl
or_else_assoc (some x) y z = refl

newest-append :
    (k : StateKey) (es : List KillSwitchAuditEvent) (e : KillSwitchAuditEvent)
    → newest k (es ++ (e ∷ []))
      ≡ or_else (if is_about k e then some e.event_hash else none) (newest k es)
unfolding newest
newest-append k [] e = sym (or_else-none (if is_about k e then some e.event_hash else none))
newest-append k (d ∷ es) e = rw (newest-append k es e) (
    or_else_assoc (if is_about k e then some e.event_hash else none) (newest k es)
      (if is_about k d then some d.event_hash else none))

-- The stored heads of the chains are those of the events.
pub record IsLogged (r : Repository) : Type 0 where
  pub chained : IsChain r.events
  pub heads : (k : StateKey) → get k r.latest_event_hashes ≡ newest k r.events

validate_event_append-previous :
    (e : KillSwitchAuditEvent) (r : Repository) (chain : StateKey)
    → state_key e.scope e.account_id ≡ ok chain
    → validate_event_append e r ≡ ok tt
    → e.previous_event_hash ≡ get chain r.latest_event_hashes
unfolding validate_event_append latest_event_hash
validate_event_append-previous e r chain keyed valid =
    let (expected, is_expected, rest) =
      bind-ok (latest_event_hash e.scope e.account_id r) _ valid in
    let (u, passed, _) =
      bind-ok (raise_if (not (opt_beq e.previous_event_hash expected)) repository_conflict) _
        rest in
    opt_beq-eq e.previous_event_hash expected (agrees _ u passed) ∙ head_of expected is_expected
  where
    agrees : (b : Bool) (u : Unit {0}) → raise_if (not b) repository_conflict ≡ ok u → b ≡ true
    agrees true u p = refl
    agrees false u p = cc

    head_of :
        (o : Option String)
        → latest_event_hash e.scope e.account_id r ≡ ok o
        → o ≡ get chain r.latest_event_hashes
    head_of o p =
        let (key, at, same) = bind-ok (state_key e.scope e.account_id) _ p in
        let here : key ≡ chain = same_key key (sym at ∙ keyed) in
        value_eq _ o (sym same) ∙ ap (λ k. get k r.latest_event_hashes) here
      where
        same_key :
            (key : StateKey)
            → Path (Result KillSwitchError StateKey) (ok key) (ok chain)
            → key ≡ chain
        same_key key q = cc

        value_eq :
            (x y : Option String)
            → Path (Result KillSwitchError (Option String)) (ok y) (ok x)
            → y ≡ x
        value_eq x y q = cc

record_event-IsLogged :
    (e : KillSwitchAuditEvent) (r : Repository) (chain : StateKey)
    → state_key e.scope e.account_id ≡ ok chain
    → validate_event_append e r ≡ ok tt
    → IsLogged r
    → IsLogged (record_event chain e r)
unfolding record_event state_key_laws state_key_beq
record_event-IsLogged e r chain keyed valid logged = record {
  chained =
      one_more r.events e chain logged.chained keyed
        (validate_event_append-previous e r chain keyed valid ∙ logged.heads chain);
  heads = λ k. head k ∙ sym (newest-append k r.events e);
}
  where
    head :
        (k : StateKey)
        → get k (put chain e.event_hash r.latest_event_hashes)
          ≡ or_else (if is_about k e then some e.event_hash else none) (newest k r.events)
    head k = elim (Bool-cases (state_key_beq chain k)) [
      | inl same ↦ rw (ap (is_at k) keyed ∙ same) (
          ap (λ j. get j (put chain e.event_hash r.latest_event_hashes))
            (sym (state_key-eq chain k same))
          ∙ get-put_self chain e.event_hash r.latest_event_hashes)
      | inr other ↦
          rw (ap (is_at k) keyed ∙ other)
            (get-put_ne k chain e.event_hash r.latest_event_hashes other ∙ logged.heads k)
    ]

noted-IsLogged :
    (known : Bool) (e : KillSwitchAuditEvent) (r : Repository) (chain : StateKey)
    → state_key e.scope e.account_id ≡ ok chain
    → validate_event_append e r ≡ ok tt
    → IsLogged r
    → IsLogged (noted known chain e r)
unfolding noted
noted-IsLogged true e r chain keyed valid logged = logged
noted-IsLogged false e r chain keyed valid logged =
    record_event-IsLogged e r chain keyed valid logged

-- The log stands in two fields.
same_log :
    (r s : Repository)
    → s.events ≡ r.events
    → s.latest_event_hashes ≡ r.latest_event_hashes
    → IsLogged r
    → IsLogged s
same_log r s events heads logged = record {
  chained = subst⁻¹ IsChain events logged.chained;
  heads = λ k. ap (get k) heads ∙ logged.heads k ∙ ap (newest k) (sym events);
}

Mutated-IsLogged :
    {Keyed : OperationKey → String → Type 0}
    {Planned : StateKey → OperationKey → String → KillSwitchTransition → Type 0}
    (incident : Option KillSwitchIncident) (r : Repository) (out : Outcome KillSwitchTransition)
    → Mutated Keyed Planned incident r out
    → IsLogged r
    → IsLogged out.1
unfolding after_commit states_written validate_event_append latest_event_hash
Mutated-IsLogged incident r _ (raised e) logged = logged
Mutated-IsLogged incident r _ (replayed k hash x _ _) logged = logged
Mutated-IsLogged incident r _ (committed p k hash x chain _ _ _ _ keyed valid) logged =
    let known = is_some (get x.audit_event.event_hash r.events_by_hash) in
    let written = states_written incident p x r in
    let noted_log =
      noted-IsLogged known x.audit_event written chain keyed valid
        (same_log r written refl refl logged) in
    same_log (noted known chain x.audit_event written) (after_commit incident p k hash x chain r)
      refl refl noted_log

Judged-IsLogged :
    ⦃h : Hashing⦄ (request : KillSwitchGateRequest) (r : Repository)
    (out : Outcome KillSwitchGateDecision)
    → Judged request r out
    → IsLogged r
    → IsLogged out.1
unfolding store_block open_guard
Judged-IsLogged request r _ (failed e) logged = logged
Judged-IsLogged request r _ (refused d _) logged = same_log r _ refl refl logged
Judged-IsLogged request r _ (admitted g a d _ _ _ _ _) logged = same_log r _ refl refl logged
Judged-IsLogged request r _ (stopped d e chain _ keyed valid) logged =
    let known = is_some (get e.event_hash r.events_by_hash) in
    same_log (noted known chain e r) _ refl refl (noted-IsLogged known e r chain keyed valid logged)

Guarded-IsLogged :
    ⦃h : Hashing⦄ (request : KillSwitchGateRequest) (r : Repository)
    (out : Outcome KillSwitchGateDecision)
    → Guarded request r out
    → IsLogged r
    → IsLogged out.1
Guarded-IsLogged request r _ (conflicting e) logged = logged
Guarded-IsLogged request r _ (repeated d _ _) logged = logged
Guarded-IsLogged request r out (judged _ _ _ rest) logged =
    Judged-IsLogged request r out rest logged

Step-IsLogged : ⦃h : Hashing⦄ (r s : Repository) → Step r s → IsLogged r → IsLogged s
unfolding leave_guard
Step-IsLogged r _ (initializes scope account_id actor at key) =
    Mutated-IsLogged none r _ (initialize-Initialized scope account_id actor at key r)
Step-IsLogged r _ (activates request) =
    Mutated-IsLogged (some request.incident) r _ (activate-Activated request r)
Step-IsLogged r _ (recovers request at) = Mutated-IsLogged none r _ (recover-Recovered request at r)
Step-IsLogged r _ (enters request actor) =
    Guarded-IsLogged request r _ (enter_guard-Guarded request actor r)
Step-IsLogged r _ (leaves _) = same_log r (leave_guard allowed r) refl refl

-- In any history from an empty repository the events are one hash chain for each switch: each
-- names the hash of the last event about its switch before it, and the stored latest hash of a
-- switch is that of its last event.
pub Reachable-IsLogged : ⦃h : Hashing⦄ (r : Repository) → Reachable r → IsLogged r
unfolding empty_repository newest get
Reachable-IsLogged r runs =
    Runs-keeps (λ r s. IsLogged r → IsLogged s) (λ _ x. x) (λ _ _ _ f g x. g (f x)) Step-IsLogged
      empty_repository r runs (record { chained = no_events; heads = λ _. refl })
