-- ===== src/KillSwitch/Revisions.antt =====
-- The revisions of the switches over the histories of the repository, and the single use of an
-- approval: packages/quant_agent/risk/kill_switch/repository.py.
use quant_agent.Prelude.{
  if◌then◌else◌, ℕ, ◌≡◌, ◌≤◌, ◌<◌, ◌+◌, refl, sym, ap, ◌∙◌, String, Option, none, some, ok, inl,
  inr, arith, raise_if, bind-ok, max,
}
use quant_agent.Canonical.{Hashing}
use quant_agent.Dict.{get, put, get-put_self, get-put_either}
use quant_agent.KillSwitch.Contracts.{
  is_active, KillSwitchActor, KillSwitchIncident, KillSwitchState, KillSwitchActivationRequest,
  KillSwitchRecoveryRequest, KillSwitchTransition, activated, trigger_added, repository_conflict,
  incident_conflict,
}
use quant_agent.KillSwitch.Checks.{is_some}
use quant_agent.KillSwitch.Builders.{activate_state, build_event}
use quant_agent.KillSwitch.Store.{
  StateKey, OperationKey, state_key_laws, operation_key_laws, gate_key_laws, text_key_laws,
  Repository,
}
use quant_agent.KillSwitch.Plans.{
  is_other, state_key, operation_key, latest_event_hash, found_state, plan_initialize,
  plan_activate, plan_recover,
}
use quant_agent.KillSwitch.Repository.{recover}
use quant_agent.KillSwitch.Guard.{leave_guard}
use quant_agent.KillSwitch.Outcomes.{
  Outcome, Mutated, raised, replayed, committed, after_commit, states_written,
}
use quant_agent.KillSwitch.GuardOutcomes.{enter_guard-Guarded}
use quant_agent.KillSwitch.Keeps.{noted-keeps}
use quant_agent.KillSwitch.Mutations.{
  activate-Activated, recover-Recovered, initialize-Initialized, Recovered,
}
use quant_agent.KillSwitch.Recovery.{
  IsToken, plan_recover-ok, activate_state-ok, build_transition-ok, found_state-ok,
  recovery_swaps_named_state,
}
use quant_agent.KillSwitch.Retries.{guard-states}
use quant_agent.KillSwitch.Steps.{
  Step, Runs, Runs-keeps, initializes, activates, recovers, enters, leaves,
}

-- Each switch is still there, at no smaller a revision.
unfoldable pub Grown : Repository → Repository → Type 0
Grown r s =
    (k : StateKey) (x : KillSwitchState)
    → get k r.states ≡ some x
    → (y : KillSwitchState) × (get k s.states ≡ some y) × (x.revision ≤ y.revision)

Grown-same : (r s : Repository) → s.states ≡ r.states → Grown r s
unfolding Grown
Grown-same r s same k x found = (x, ap (get k) same ∙ found, omega arith)

Grown-trans : (r s t : Repository) → Grown r s → Grown s t → Grown r t
unfolding Grown
Grown-trans r s t f g k x found =
    let (y, at_y, below) = f k x found in
    let (z, at_z, above) = g k y at_y in (z, at_z, omega arith)

-- The state to write has no predecessor, or one of no greater revision.
abbrev Fits : StateKey → KillSwitchTransition → Repository → Type 0
Fits place t r =
    (x : KillSwitchState) → get place r.states ≡ some x → x.revision ≤ t.state_after.revision

put-Grown :
    (place : StateKey) (t : KillSwitchTransition) (r s : Repository)
    → Fits place t r
    → s.states ≡ put place t.state_after r.states
    → Grown r s
unfolding Grown
put-Grown place t r s fits written k x found =
    elim (get-put_either k place t.state_after r.states) [
      | inl here ↦ (
        t.state_after,
        ap (get k) written
            ∙ ap (λ j. get j (put place t.state_after r.states)) (sym here)
            ∙ get-put_self place t.state_after r.states,
        fits x (ap (λ j. get j r.states) here ∙ found),
      )
      | inr elsewhere ↦ (x, ap (get k) written ∙ elsewhere ∙ found, omega arith)
    ]

-- The next revision of the state that is there.
next :
    (o : Option KillSwitchState) (before x after : KillSwitchState)
    → o ≡ some before
    → o ≡ some x
    → after.revision ≡ before.revision + 1
    → x.revision ≤ after.revision
next o before x after at found revision =
    let same : before ≡ x = some_eq before x (sym at ∙ found) in
    below before.revision x.revision after.revision (ap (λ s. s.revision) same) revision
  where
    some_eq : (a b : KillSwitchState) → some a ≡ some b → a ≡ b
    some_eq a b e = cc

    below : (b y a : ℕ) → b ≡ y → a ≡ b + 1 → y ≤ a
    below b y a e f = omega arith

Mutated-Grown :
    {Keyed : OperationKey → String → Type 0}
    {Planned : StateKey → OperationKey → String → KillSwitchTransition → Type 0}
    (incident : Option KillSwitchIncident) (r : Repository)
    → ((p : StateKey) (k : OperationKey) (hash : String) (t : KillSwitchTransition)
        → Planned p k hash t
        → Fits p t r)
    → (out : Outcome KillSwitchTransition) → Mutated Keyed Planned incident r out
    → Grown r out.1
unfolding after_commit states_written
Mutated-Grown incident r fits _ (raised e) = Grown-same r r refl
Mutated-Grown incident r fits _ (replayed k hash x keyed stored) = Grown-same r r refl
Mutated-Grown incident r fits _ (committed p k hash x chain _ _ _ planned _ _) =
    let known = is_some (get x.audit_event.event_hash r.events_by_hash) in
    let (_, _, _, states, _) =
      noted-keeps known chain x.audit_event (states_written incident p x r) in
    put-Grown p x r _ (fits p k hash x planned) states

module _ ⦃h : Hashing⦄ where
  plan_initialize-Fits :
      (p : StateKey) (after : KillSwitchState) (actor : KillSwitchActor) (hash : String) (at : ℕ)
      (r : Repository) (t : KillSwitchTransition)
      → plan_initialize p after actor hash at r ≡ ok t
      → Fits p t r
  unfolding plan_initialize
  plan_initialize-Fits p after actor hash at r t planned x found =
      let (u, absent, _) =
        bind-ok (raise_if (is_some (get p r.states)) repository_conflict) _ planned in
      absurd (present (get p r.states) x u found absent)
    where
      present :
          (o : Option KillSwitchState) (y : KillSwitchState) (u : Unit {0})
          → o ≡ some y
          → raise_if (is_some o) repository_conflict ≡ ok u
          → ⊥
      present none y u at e = cc
      present (some z) y u at e = cc

  plan_activate-Fits :
      (p : StateKey) (request : KillSwitchActivationRequest) (r : Repository)
      (t : KillSwitchTransition)
      → plan_activate p request r ≡ ok t
      → Fits p t r
  unfolding plan_activate
  plan_activate-Fits p request r t planned x found =
      let (before, is_before, p1) = bind-ok (found_state (get p r.states)) _ planned in
      let incident = request.incident in
      let at = max request.requested_at before.changed_at in
      let (_, _, p2) =
        bind-ok
          (raise_if (is_other (get incident.incident_id r.incidents) incident) incident_conflict) _
          p1 in
      let (after, made, p3) = bind-ok (activate_state before incident request.actor at) _ p2 in
      let (previous, _, p4) = bind-ok (latest_event_hash after.scope after.account_id r) _ p3 in
      let kind = if is_active before.status then trigger_added else activated in
      let (event, _, p5) =
        bind-ok
          (build_event kind (some before) after request.actor request.request_hash (some incident)
            incident.reason_codes incident.evidence_hashes at previous)
          _ p4 in
      let same =
        build_transition-ok request.request_hash (some before) after (some incident) event t p5 in
      let (revision, _) = activate_state-ok before after incident request.actor at made in
      next (get p r.states) before x t.state_after (found_state-ok _ before is_before) found
        (ap (λ y. y.revision) same ∙ revision)

  plan_recover-Fits :
      (p : StateKey) (request : KillSwitchRecoveryRequest) (now : ℕ) (r : Repository)
      (t : KillSwitchTransition)
      → plan_recover p request now r ≡ ok t
      → Fits p t r
  plan_recover-Fits p request now r t planned x found =
      let (_, _, (before, at, _, revision, _)) = plan_recover-ok p request now r t planned in
      next (get p r.states) before x t.state_after at found revision

  Step-Grown : (r s : Repository) → Step r s → Grown r s
  unfolding leave_guard
  Step-Grown r _ (initializes scope account_id actor at key) =
      Mutated-Grown none r
        (λ p k hash t (after, _, _, planned).
          plan_initialize-Fits p after actor hash at r t planned)
        _ (initialize-Initialized scope account_id actor at key r)
  Step-Grown r _ (activates request) =
      Mutated-Grown (some request.incident) r
        (λ p k hash t (_, planned). plan_activate-Fits p request r t planned) _
        (activate-Activated request r)
  Step-Grown r _ (recovers request now) =
      Mutated-Grown none r (λ p k hash t (_, planned). plan_recover-Fits p request now r t planned)
        _ (recover-Recovered request now r)
  Step-Grown r _ (enters request actor) =
      Grown-same r _ (guard-states request r _ (enter_guard-Guarded request actor r))
  Step-Grown r _ (leaves _) = Grown-same r _ refl

  -- No history takes a switch away or lowers its revision.
  pub revisions_grow :
      (r s : Repository) (place : StateKey) (x : KillSwitchState)
      → Runs r s
      → get place r.states ≡ some x
      → (y : KillSwitchState) × (get place s.states ≡ some y) × (x.revision ≤ y.revision)
  unfolding Grown
  revisions_grow r s place x runs found =
      Runs-keeps Grown (λ r. Grown-same r r refl) Grown-trans Step-Grown r s runs place x found

  -- An approval of a recovery is used at most once: after a recovery that it let through, and any
  -- further calls, no recovery with the same approval, under any key and at any time, writes
  -- anything.
  pub approval_used_once :
      (request again : KillSwitchRecoveryRequest) (now later : ℕ) (r s u : Repository)
      (t : KillSwitchTransition) (key : OperationKey) (place : StateKey)
      → operation_key request.approval.scope request.approval.account_id request.idempotency_key
        ≡ ok key
      → get key r.operations ≡ none
      → state_key request.approval.scope request.approval.account_id ≡ ok place
      → recover request now r ≡ (ok t, s)
      → Runs s u
      → again.approval ≡ request.approval
      → (recover again later u).1 ≡ u
  unfolding IsToken
  approval_used_once request again now later r s u t key place keyed fresh placed done runs same =
      let (_, _, (before, after, _, _, written, revision, _)) =
        recovery_swaps_named_state request now r s t key place keyed fresh placed done in
      let (y, at_y, above) = revisions_grow s u place after runs written in
      go y at_y (spent _ after.revision y.revision revision above) (recover again later u)
        (recover-Recovered again later u)
    where
      spent : (m n k : ℕ) → n ≡ m + 1 → n ≤ k → m < k
      spent m n k e f = omega arith

      clash :
          (o : Option KillSwitchState) (y b : KillSwitchState) (m : ℕ)
          → o ≡ some y
          → o ≡ some b
          → b.revision ≡ m
          → m < y.revision
          → ⊥
      clash o y b m at found e f =
          let here : some y ≡ some b = sym at ∙ found in
          let same : y.revision ≡ b.revision = cc in not_both m y.revision (same ∙ e) f
        where
          not_both : (i j : ℕ) → j ≡ i → i < j → ⊥
          not_both i j e f = omega arith

      go :
          (y : KillSwitchState)
          → get place u.states ≡ some y
          → request.approval.expected_revision < y.revision
          → (out : Outcome KillSwitchTransition) → Recovered again later u out
          → out.1 ≡ u
      go y at_y above _ (raised e) = refl
      go y at_y above _ (replayed k hash x _ _) = refl
      go y at_y above _ (committed p k hash x chain _ _ _ (at, planned) _ _) =
          let (_, _, (b, found, token, _, _)) = plan_recover-ok p again later u x planned in
          let here : ok p ≡ ok place =
            sym at ∙ ap (λ a. state_key a.scope a.account_id) same ∙ placed in
          let there : p ≡ place = cc in
          absurd (
            clash (get place u.states) y b request.approval.expected_revision at_y
              (ap (λ j. get j u.states) (sym there) ∙ found)
              (named b token ∙ ap (λ a. a.expected_revision) same) above)
        where
          named :
              (b : KillSwitchState)
              → IsToken again.approval b
              → b.revision ≡ again.approval.expected_revision
          named b token = token.2
