-- ===== src/Runtime/Runs.antt =====
-- Runs as sequences of validated events: how many changes of state there are, which states a goal
-- can reach, and the exits that every state has.
use quant_agent.Runtime.States.{
  AgentRunGoal, RuntimeMode, AgentRunState, received, snapshot_ready, data_validated, analyzed,
  portfolio_ready, risk_checked, draft_ready, pending_approval, approved, executing, reconciling,
  AgentRunEventKind, state_beq, state_in,
}
use quant_agent.Runtime.Rules.{
  RuleError, terminal_states, goal_path, validate_goal_mode, targets, legal_transition_targets,
  validate_changed_event_kind, validate_transition,
}
use quant_agent.Runtime.Finite.{
  all_states, all_goals, every_state, every_goal, state_beq-eq, state_beq_refl, all-in,
}
use quant_agent.Prelude.{
  ℕ, ◌+◌, ◌≤◌, ◌<◌, ◌≡◌, refl, ap, ◌⊎◌, inl, inr, Bool, true, false, ◌||◌, List, [], ◌∷◌,
  if◌then◌else◌, Result, ok, ◌>>◌, arith, all, ltb, ltb→lt, bind-ok,
}

-- What a validated event of a run does: it leaves the state alone, or it moves to a legal target.
pub validate_transition_inversion :
    (s t : AgentRunState) (g : AgentRunGoal) (m : RuntimeMode) (k : AgentRunEventKind)
    → validate_transition s t g m k ≡ ok tt
    → (validate_goal_mode g m ≡ ok tt)
      × (state_in s terminal_states ≡ false)
      × ((s ≡ t)
          ⊎ ((state_in t (targets s g) ≡ true) × (validate_changed_event_kind s t k ≡ ok tt)))
unfolding validate_transition legal_transition_targets
validate_transition_inversion s t g m k p = ground (arith, state_beq-eq s t)

-- The state that a sequence of events leads to, if each of them is validated.
abbrev pub Steps : Type 0
Steps = List (AgentRunEventKind × AgentRunState)

unfoldable pub run :
    AgentRunGoal → RuntimeMode → AgentRunState → Steps → Result RuleError AgentRunState
run g m s [] = ok s
run g m s ((k, t) ∷ steps) = validate_transition s t g m k >> run g m t steps

-- How far a state is on its way to an outcome.
abbrev pub rank : AgentRunState → ℕ
rank received = 0
rank snapshot_ready = 1
rank data_validated = 2
rank analyzed = 3
rank portfolio_ready = 4
rank risk_checked = 5
rank draft_ready = 6
rank pending_approval = 7
rank approved = 8
rank executing = 9
rank reconciling = 10
rank _ = 11

abbrev rises : AgentRunState → AgentRunGoal → Bool
rises s g = all (λ t. ltb (rank s) (rank t)) (targets s g)

rises_everywhere : all (λ s. all (λ g. rises s g) all_goals) all_states ≡ true
unfolding targets
rises_everywhere = refl

rises_at : (s : AgentRunState) (g : AgentRunGoal) → rises s g ≡ true
rises_at s g =
    every_goal (λ g'. rises s g') g
      (every_state (λ s'. all (λ g'. rises s' g') all_goals) s rises_everywhere)

targets_rise :
    (s t : AgentRunState) (g : AgentRunGoal) → state_in t (targets s g) ≡ true → rank s < rank t
targets_rise s t g i =
    ltb→lt (rank s) (rank t)
      (all-in (λ t'. ltb (rank s) (rank t')) t (targets s g) (rises_at s g) i)

-- How many of the steps change the state.
abbrev pub changes : AgentRunState → Steps → ℕ
changes s [] = 0
changes s ((k, t) ∷ steps) = (if state_beq s t then 0 else 1) + changes t steps

step_rank :
    (s t : AgentRunState) (g : AgentRunGoal) (m : RuntimeMode) (k : AgentRunEventKind)
    → validate_transition s t g m k ≡ ok tt
    → (if state_beq s t then 0 else 1) + rank s ≤ rank t
step_rank s t g m k p = elim (validate_transition_inversion s t g m k p).2 [
  | inl same ↦ rw (← same, state_beq_refl s) (omega arith)
  | inr (i, _) ↦ ground (arith, targets_rise s t g i)
]

run-rank :
    (g : AgentRunGoal) (m : RuntimeMode) (s : AgentRunState) (steps : Steps) {u : AgentRunState}
    → run g m s steps ≡ ok u
    → changes s steps + rank s ≤ rank u
unfolding run
run-rank g m s [] {u} p = let e : s ≡ u = cc in rw e (omega arith)
run-rank g m s ((k, t) ∷ steps) p =
    let (_, here, later) = bind-ok (validate_transition s t g m k) _ p in
    omega (arith, step_rank s t g m k here, run-rank g m t steps later)

rank_bounded : (s : AgentRunState) → rank s ≤ 11
rank_bounded s = ground arith

-- A run of validated events changes its state at most eleven times, whatever its goal and mode,
-- and each change leads on: no state is entered again once it is left.
pub changes_bounded :
    (g : AgentRunGoal) (m : RuntimeMode) (s : AgentRunState) (steps : Steps) {t : AgentRunState}
    → run g m s steps ≡ ok t
    → (changes s steps ≤ 11) × (s ≡ t → changes s steps ≡ 0)
changes_bounded g m s steps {t} p = (
  omega (arith, run-rank g m s steps p, rank_bounded t),
  λ e. let same : rank s ≡ rank t = ap (λ x. rank x) e in omega (arith, run-rank g m s steps p),
)

-- On the path of its goal, or at an outcome.
abbrev pub on_course : AgentRunGoal → AgentRunState → Bool
on_course g s = state_in s (goal_path g) || state_in s terminal_states

abbrev keeps_course : AgentRunState → AgentRunGoal → Bool
keeps_course s g = if on_course g s then all (λ t. on_course g t) (targets s g) else true

keeps_course_everywhere : all (λ s. all (λ g. keeps_course s g) all_goals) all_states ≡ true
unfolding targets
keeps_course_everywhere = refl

keeps_course_at : (s : AgentRunState) (g : AgentRunGoal) → keeps_course s g ≡ true
keeps_course_at s g =
    every_goal (λ g'. keeps_course s g') g
      (every_state (λ s'. all (λ g'. keeps_course s' g') all_goals) s keeps_course_everywhere)

step_on_course :
    (s t : AgentRunState) (g : AgentRunGoal) (m : RuntimeMode) (k : AgentRunEventKind)
    → on_course g s ≡ true
    → validate_transition s t g m k ≡ ok tt
    → on_course g t ≡ true
step_on_course s t g m k c p = elim (validate_transition_inversion s t g m k p).2 [
  | inl same ↦ rw (← same) c
  | inr (i, _) ↦ all-in (λ t'. on_course g t') t (targets s g) (rw c at (keeps_course_at s g)) i
]

run-on_course :
    (g : AgentRunGoal) (m : RuntimeMode) (s : AgentRunState) (steps : Steps) {u : AgentRunState}
    → on_course g s ≡ true
    → run g m s steps ≡ ok u
    → on_course g u ≡ true
unfolding run
run-on_course g m s [] {u} c p = let e : s ≡ u = cc in rw (← e) c
run-on_course g m s ((k, t) ∷ steps) c p =
    let (_, here, later) = bind-ok (validate_transition s t g m k) _ p in
    run-on_course g m t steps (step_on_course s t g m k c here) later

starts_on_course : (g : AgentRunGoal) → on_course g received ≡ true
unfolding goal_path state_beq terminal_states
starts_on_course g = ground arith

-- From RECEIVED, every run of validated events is on the path of its goal or at an outcome: in
-- particular a goal that does not execute orders never comes to EXECUTING.
pub run_from_received :
    (g : AgentRunGoal) (m : RuntimeMode) (steps : Steps) {t : AgentRunState}
    → run g m received steps ≡ ok t
    → on_course g t ≡ true
run_from_received g m steps p = run-on_course g m received steps (starts_on_course g) p
