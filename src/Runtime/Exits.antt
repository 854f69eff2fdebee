-- ===== src/Runtime/Exits.antt =====
-- The exits of each state, the way through of each goal, and the agreement of the two tables that
-- say where a goal is ready to report.
use quant_agent.Runtime.States.{
  AgentRunGoal, market_research, paper_execution, live_assisted_execution, RuntimeMode,
  AgentRunState, received, approved, reported, completed, incident, AgentRunEventKind,
  state_transition, approval_recorded, incident_recorded, state_beq, state_in,
}
use quant_agent.Runtime.Rules.{
  invalid_transition, terminal_states, goal_path, validate_goal_mode, report_ready, targets,
  legal_transition_targets, validate_changed_event_kind, validate_transition,
}
use quant_agent.Runtime.Finite.{all_states, all_goals, every_state, every_goal}
use quant_agent.Prelude.{
  ◌≡◌, refl, ◌⊎◌, inl, inr, Bool, true, false, ◌||◌, List, [], ◌∷◌, if◌then◌else◌, ok, err, arith,
  all, Bool-cases, bool_eq, bool_eq-eq,
}
use quant_agent.Runtime.Runs.{Steps, run}

abbrev consistent : AgentRunState → AgentRunGoal → Bool
consistent s g = bool_eq (state_in reported (targets s g)) (report_ready g s)

consistent_everywhere : all (λ s. all (λ g. consistent s g) all_goals) all_states ≡ true
unfolding targets report_ready
consistent_everywhere = refl

-- The table of the states in which a goal is ready to report agrees with the paths of the goals:
-- REPORTED is a legal target of a state exactly if the goal is ready to report in it.
pub report_ready_exact :
    (s : AgentRunState) (g : AgentRunGoal) → state_in reported (targets s g) ≡ report_ready g s
report_ready_exact s g = bool_eq-eq _ _ (
    every_goal (λ g'. consistent s g') g
      (every_state (λ s'. all (λ g'. consistent s' g') all_goals) s consistent_everywhere))

abbrev can_escalate : AgentRunState → AgentRunGoal → Bool
can_escalate s g = state_in s terminal_states || state_in incident (targets s g)

escalates_everywhere : all (λ s. all (λ g. can_escalate s g) all_goals) all_states ≡ true
unfolding targets
escalates_everywhere = refl

incident_legal :
    (s : AgentRunState) (g : AgentRunGoal)
    → state_in s terminal_states ≡ false
    → state_in incident (targets s g) ≡ true
incident_legal s g open_state = rw open_state at (
    every_goal (λ g'. can_escalate s g') g
      (every_state (λ s'. all (λ g'. can_escalate s' g') all_goals) s escalates_everywhere))

incident_kind :
    (s : AgentRunState) → validate_changed_event_kind s incident incident_recorded ≡ ok tt
unfolding validate_changed_event_kind
incident_kind s = ground arith

not_incident :
    (s : AgentRunState) → state_in s terminal_states ≡ false → state_beq s incident ≡ false
unfolding terminal_states state_beq
not_incident s h = ground arith

-- An incident can be recorded in every state that is not terminal, for every permitted goal and
-- mode; in a terminal state no event at all is accepted.
pub incident_always_open :
    (s : AgentRunState) (g : AgentRunGoal) (m : RuntimeMode)
    → validate_goal_mode g m ≡ ok tt
    → ((state_in s terminal_states ≡ false)
        × (validate_transition s incident g m incident_recorded ≡ ok tt))
      ⊎ ((state_in s terminal_states ≡ true)
          × ((t : AgentRunState) (k : AgentRunEventKind)
              → validate_transition s t g m k ≡ err invalid_transition))
unfolding validate_transition legal_transition_targets
incident_always_open s g m p = elim (Bool-cases (state_in s terminal_states)) [
  | inl closed ↦ inr (closed, λ t k. rw (p, closed))
  | inr open_state ↦ inl (
    open_state,
    rw (p, open_state, not_incident s open_state, incident_legal s g open_state) (incident_kind s),
  )
]

-- The events that walk along a path: an approval where it enters APPROVED.
abbrev pub kind_of : AgentRunState → AgentRunEventKind
kind_of approved = approval_recorded
kind_of _ = state_transition

abbrev pub walk : List AgentRunState → Steps
walk [] = []
walk (s ∷ path) = (kind_of s, s) ∷ walk path

abbrev pub rest_of : List AgentRunState → List AgentRunState
rest_of [] = []
rest_of (s ∷ path) = path

abbrev pub executes : AgentRunGoal → Bool
executes paper_execution = true
executes live_assisted_execution = true
executes _ = false

abbrev pub goal_end : AgentRunGoal → AgentRunState
goal_end g = if executes g then completed else reported

-- Every permitted goal and mode can be carried through: the events along the path of the goal are
-- all accepted, and lead from RECEIVED to COMPLETED if the goal executes orders and to REPORTED if
-- it does not.
pub goal_completes :
    (g : AgentRunGoal) (m : RuntimeMode)
    → validate_goal_mode g m ≡ ok tt
    → run g m received (walk (rest_of (goal_path g))) ≡ ok (goal_end g)
unfolding run validate_transition legal_transition_targets targets validate_changed_event_kind
goal_completes market_research m p = rw p
goal_completes g m p = rw p
