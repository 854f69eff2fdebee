-- ===== src/Runtime/Approval.antt =====
-- The human approval on the way to execution, and what each goal can come to.
use quant_agent.Runtime.States.{
  AgentRunGoal, paper_execution, live_assisted, AgentRunState, received, approved, executing,
  reconciling, completed, AgentRunEventKind, approval_recorded, goal_beq, state_beq, event_beq,
  state_in,
}
use quant_agent.Runtime.Rules.{
  validate_goal_mode, targets, validate_changed_event_kind, validate_transition,
}
use quant_agent.Runtime.Finite.{
  all_states, all_goals, every_state, every_goal, state_beq-eq, all-in,
}
use quant_agent.Prelude.{
  ◌≡◌, refl, ◌⊎◌, inl, inr, Bool, true, false, not, ◌||◌, [], ◌∷◌, if◌then◌else◌, ok, arith, all,
  bind-ok,
}
use quant_agent.Runtime.Runs.{validate_transition_inversion, Steps, run}

-- Behind the approval.
abbrev pub past_approval : AgentRunState → Bool
past_approval s = state_in s (approved ∷ executing ∷ reconciling ∷ completed ∷ [])

-- An approval is among the events.
abbrev pub has_approval : Steps → Bool
has_approval [] = false
has_approval ((k, t) ∷ steps) = event_beq k approval_recorded || has_approval steps

-- Without the goal of paper execution, only APPROVED leads behind the approval.
abbrev gated : AgentRunState → AgentRunGoal → Bool
gated s g =
    if past_approval s || goal_beq g paper_execution
    then true
    else all (λ t. not (past_approval t) || state_beq t approved) (targets s g)

gated_everywhere : all (λ s. all (λ g. gated s g) all_goals) all_states ≡ true
unfolding targets goal_beq
gated_everywhere = refl

gated_at : (s : AgentRunState) (g : AgentRunGoal) → gated s g ≡ true
gated_at s g =
    every_goal (λ g'. gated s g') g
      (every_state (λ s'. all (λ g'. gated s' g') all_goals) s gated_everywhere)

not_paper_execution :
    (g : AgentRunGoal)
    → validate_goal_mode g live_assisted ≡ ok tt
    → goal_beq g paper_execution ≡ false
unfolding validate_goal_mode goal_beq
not_paper_execution g p = ground arith

enters_approved :
    (s : AgentRunState) (k : AgentRunEventKind)
    → validate_changed_event_kind s approved k ≡ ok tt
    → event_beq k approval_recorded ≡ true
unfolding validate_changed_event_kind
enters_approved s k p = ground arith

enters_by_approval :
    (s t : AgentRunState) (k : AgentRunEventKind)
    → state_beq t approved ≡ true
    → validate_changed_event_kind s t k ≡ ok tt
    → event_beq k approval_recorded ≡ true
enters_by_approval s t k e p = enters_approved s k (rw (state_beq-eq t approved e) at p)

step_approval :
    (s t : AgentRunState) (g : AgentRunGoal) (k : AgentRunEventKind)
    → past_approval s ≡ false
    → validate_transition s t g live_assisted k ≡ ok tt
    → (event_beq k approval_recorded ≡ true) ⊎ (past_approval t ≡ false)
step_approval s t g k before p =
    let (mode, _, moved) = validate_transition_inversion s t g live_assisted k p in
    elim moved [
      | inl same ↦ inr (rw (← same) before)
      | inr (i, valid) ↦
          let open_gate : (not (past_approval t) || state_beq t approved) ≡ true =
            all-in (λ t'. not (past_approval t') || state_beq t' approved) t (targets s g)
              (rw (before, not_paper_execution g mode) at (gated_at s g)) i in
          ground (arith, enters_by_approval s t k, open_gate, valid)
    ]

run_approval :
    (g : AgentRunGoal) (s : AgentRunState) (steps : Steps) {u : AgentRunState}
    → past_approval s ≡ false
    → run g live_assisted s steps ≡ ok u
    → past_approval u ≡ true
    → has_approval steps ≡ true
unfolding run
run_approval g s [] before p after = ground arith
run_approval g s ((k, t) ∷ steps) before p after =
    let (_, here, later) = bind-ok (validate_transition s t g live_assisted k) _ p in
    elim (step_approval s t g k before here) [
      | inl approval ↦ rw approval refl
      | inr still ↦ ground (arith, run_approval g t steps still later after)
    ]

-- In mode LIVE_ASSISTED no run of validated events comes from RECEIVED to APPROVED, EXECUTING,
-- RECONCILING or COMPLETED without a recorded approval.
pub execution_needs_approval :
    (g : AgentRunGoal) (steps : Steps) {t : AgentRunState}
    → run g live_assisted received steps ≡ ok t
    → past_approval t ≡ true
    → has_approval steps ≡ true
unfolding state_beq
execution_needs_approval g steps p after = run_approval g received steps refl p after
