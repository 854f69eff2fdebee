-- ===== src/KillSwitch/Recovery.antt =====
-- Recovery of the kill switch and the revisions of its states: `recover` and the other mutations
-- of packages/quant_agent/risk/kill_switch/repository.py.
use quant_agent.Prelude.{
  unnegated, ℕ, ◌≡◌, ◌+◌, refl, sym, ap, ◌∙◌, String, Bool, true, false, not, ◌&&◌, ◌||◌, Option,
  none, some, [], ◌∷◌, ok, arith, raise_if, ltb, bind-ok, checked-ok, eq_iff, opt_beq, opt_beq-eq,
}
use mathlib.Core.Path.{subst}
use quant_agent.Canonical.{Hashing}
use quant_agent.Dict.{get, put, get-put_self}
use quant_agent.KillSwitch.Contracts.{
  scope_beq, is_active, KillSwitchActor, KillSwitchIncident, KillSwitchState,
  KillSwitchRecoveryApproval, KillSwitchRecoveryRequest, KillSwitchAuditEvent, KillSwitchTransition,
  KillSwitchError, inactive, active, recovered, value_error, concurrent_update, authorization_error,
}
use quant_agent.KillSwitch.Checks.{is_some, make_state, scope_account, valid_state}
use quant_agent.KillSwitch.Builders.{
  recover_state, activate_state, build_event, build_transition, transition_of,
}
use quant_agent.KillSwitch.Store.{
  StateKey, OperationKey, state_key_laws, operation_key_laws, gate_key_laws, text_key_laws,
  Repository,
}
use quant_agent.KillSwitch.Plans.{
  state_key, operation_key, latest_event_hash, found_state, mismatches, plan_recover,
}
use quant_agent.KillSwitch.Repository.{recover}
use quant_agent.KillSwitch.Outcomes.{
  Outcome, raised, replayed, committed, after_commit, states_written,
}
use quant_agent.KillSwitch.Keeps.{noted-keeps}
use quant_agent.KillSwitch.Mutations.{recover-Recovered, Recovered}

module _ ⦃h : Hashing⦄ where
  make_state-ok :
      (s x : KillSwitchState)
      → make_state s ≡ ok x
      → (x.revision ≡ s.revision) × (x.status ≡ s.status)
  unfolding make_state
  make_state-ok s x made =
      let (name, _, checked) = bind-ok (scope_account s.scope s.account_id) _ made in
      let normal : KillSwitchState = record s { account_id = name } in
      let (_, same) = checked-ok (not (valid_state normal)) value_error normal x checked in
      (ap (λ y. y.revision) (sym same), ap (λ y. y.status) (sym same))

  recover_state-ok :
      (before x : KillSwitchState) (actor : KillSwitchActor) (now : ℕ)
      → recover_state before actor now ≡ ok x
      → (x.revision ≡ before.revision + 1) × (x.status ≡ inactive)
  unfolding recover_state
  recover_state-ok before x actor now done =
      let (_, _, rest) = bind-ok (raise_if (not (is_active before.status)) value_error) _ done in
      let (_, _, made) = bind-ok (raise_if (ltb now before.changed_at) value_error) _ rest in
      make_state-ok _ x made

  pub activate_state-ok :
      (before x : KillSwitchState) (incident : KillSwitchIncident) (actor : KillSwitchActor)
      (at : ℕ)
      → activate_state before incident actor at ≡ ok x
      → (x.revision ≡ before.revision + 1) × (x.status ≡ active)
  unfolding activate_state
  activate_state-ok before x incident actor at done =
      let (_, _, rest) =
        bind-ok
          (raise_if
            (not (
              scope_beq before.scope incident.scope
              && opt_beq before.account_id incident.account_id))
            value_error)
          _ done in
      let (_, _, made) =
        bind-ok (raise_if (ltb at before.changed_at || ltb at incident.triggered_at) value_error) _
          rest in
      make_state-ok _ x made

  pub build_transition-ok :
      (operation : String) (before : Option KillSwitchState) (after : KillSwitchState)
      (incident : Option KillSwitchIncident) (event : KillSwitchAuditEvent)
      (t : KillSwitchTransition)
      → build_transition operation before after incident event ≡ ok t
      → t.state_after ≡ after
  unfolding build_transition transition_of
  build_transition-ok operation before after incident event t built =
      let (_, same) =
        checked-ok _ value_error (transition_of operation before after incident event) t built in
      ap (λ y. y.state_after) (sym same)

  pub found_state-ok :
      (o : Option KillSwitchState) (s : KillSwitchState) → found_state o ≡ ok s → o ≡ some s
  unfolding found_state
  found_state-ok none s found = cc
  found_state-ok (some x) s found = cc

  -- What an approval must name to be a token for a state.
  unfoldable pub IsToken : KillSwitchRecoveryApproval → KillSwitchState → Type 0
  IsToken approval s =
      (s.status ≡ active)
      × (s.state_hash ≡ approval.expected_state_hash)
      × (s.revision ≡ approval.expected_revision)
      × (s.latest_incident_hash ≡ some approval.expected_latest_incident_hash)

  matches-IsToken :
      (approval : KillSwitchRecoveryApproval) (s : KillSwitchState)
      → mismatches approval s ≡ false
      → IsToken approval s
  unfolding mismatches IsToken
  matches-IsToken approval s h = ground (
    arith,
    eq_iff s.state_hash approval.expected_state_hash,
    opt_beq-eq s.latest_incident_hash (some approval.expected_latest_incident_hash),
  )

  check_passed :
      (bad : Bool) (e : KillSwitchError) (u : Unit {0}) → raise_if bad e ≡ ok u → bad ≡ false
  check_passed true e u p = cc
  check_passed false e u p = refl

  -- A planned recovery is timely, and swaps the state that the approval names.
  pub plan_recover-ok :
      (place : StateKey) (request : KillSwitchRecoveryRequest) (now : ℕ) (r : Repository)
      (t : KillSwitchTransition)
      → plan_recover place request now r ≡ ok t
      → (ltb now request.requested_at ≡ false)
        × (ltb now request.approval.expires_at ≡ true)
        × ((before : KillSwitchState) × (get place r.states ≡ some before)
            × IsToken request.approval before
            × (t.state_after.revision ≡ before.revision + 1)
            × (t.state_after.status ≡ inactive))
  unfolding plan_recover
  plan_recover-ok place request now r t planned =
      let approval = request.approval in
      let (u, early, p1) =
        bind-ok (raise_if (ltb now request.requested_at) authorization_error) _ planned in
      let (v, late, p2) =
        bind-ok (raise_if (not (ltb now approval.expires_at)) authorization_error) _ p1 in
      let (before, found, p3) = bind-ok (found_state (get place r.states)) _ p2 in
      let (w, fits, p4) = bind-ok (raise_if (mismatches approval before) concurrent_update) _ p3 in
      let (after, recovers, p5) = bind-ok (recover_state before request.actor now) _ p4 in
      let (previous, _, p6) = bind-ok (latest_event_hash after.scope after.account_id r) _ p5 in
      let (event, _, p7) =
        bind-ok
          (build_event recovered (some before) after request.actor request.request_hash none
            ("APPROVED_RECOVERY" ∷ []) (approval.approval_hash ∷ []) now previous)
          _ p6 in
      let same = build_transition-ok request.request_hash (some before) after none event t p7 in
      let (revision, status) = recover_state-ok before after request.actor now recovers in
      (
        check_passed _ authorization_error u early,
        unnegated (ltb now approval.expires_at) (check_passed _ authorization_error v late),
        (
          before,
          found_state-ok _ before found,
          matches-IsToken approval before (check_passed _ concurrent_update w fits),
          ap (λ x. x.revision) same ∙ revision,
          ap (λ x. x.status) same ∙ status,
        ),
      )

  -- A recovery that was not made before and returns was made before its approval expired and not
  -- before its request; the state it found was active, with the hash, the revision and the latest
  -- incident that the approval names; and the state it leaves there is inactive, with the next
  -- revision.
  pub recovery_swaps_named_state :
      (request : KillSwitchRecoveryRequest) (now : ℕ) (r s : Repository) (t : KillSwitchTransition)
      (key : OperationKey) (place : StateKey)
      → operation_key request.approval.scope request.approval.account_id request.idempotency_key
        ≡ ok key
      → get key r.operations ≡ none
      → state_key request.approval.scope request.approval.account_id ≡ ok place
      → recover request now r ≡ (ok t, s)
      → (ltb now request.requested_at ≡ false)
        × (ltb now request.approval.expires_at ≡ true)
        × ((before : KillSwitchState) × (after : KillSwitchState) × (get place r.states
              ≡ some before)
            × IsToken request.approval before
            × (get place s.states ≡ some after)
            × (after.revision ≡ request.approval.expected_revision + 1)
            × (after.status ≡ inactive))
  unfolding after_commit states_written IsToken
  recovery_swaps_named_state request now r s t key place keyed fresh placed done =
      go (ok t, s) (subst (Recovered request now r) done (recover-Recovered request now r)) refl
    where
      go :
          (out : Outcome KillSwitchTransition)
          → Recovered request now r out
          → out ≡ (ok t, s)
          → (ltb now request.requested_at ≡ false)
            × (ltb now request.approval.expires_at ≡ true)
            × ((before : KillSwitchState) × (after : KillSwitchState) × (get place r.states
                  ≡ some before)
                × IsToken request.approval before
                × (get place s.states ≡ some after)
                × (after.revision ≡ request.approval.expected_revision + 1)
                × (after.status ≡ inactive))
      go _ (raised e) same = cc
      go _ (replayed k hash x (kept, _) stored) same = cc
      go _ (committed p k hash x chain _ _ _ (at, planned) _ _) same =
          let here : p ≡ place = cc in
          let (early, late, (before, found, token, revision, status)) =
            plan_recover-ok p request now r x planned in
          let (_, _, _, states, _) =
            noted-keeps (is_some (get x.audit_event.event_hash r.events_by_hash)) chain
              x.audit_event (states_written none p x r) in
          let written : get place s.states ≡ some x.state_after =
            ap (λ o. get place o.1.states) (sym same)
            ∙ ap (get place) states
            ∙ ap (λ k. get k (put p x.state_after r.states)) (sym here)
            ∙ get-put_self p x.state_after r.states in
          (
            early,
            late,
            (
              before,
              x.state_after,
              ap (λ k. get k r.states) (sym here) ∙ found,
              token,
              written,
              revision ∙ ap (λ n. n + 1) token.2,
              status,
            ),
          )
