-- ===== src/Runtime/Rules.antt =====
-- packages/quant_agent/agent/runtime/rules.py: the goal and mode matrix, the path of each goal, the
-- legal targets of a state, the validation of one event, and the tools of each stage. A frozen set
-- is a list of its members.
use quant_agent.Prelude.{
  Bool, false, not, ◌&&◌, ◌||◌, Option, none, some, List, [], ◌∷◌, ◌++◌, if◌then◌else◌, Result, ok,
  ◌>>=◌, ◌>>◌, raise_if,
}
use quant_agent.Runtime.States.{
  AgentRunGoal, market_research, backtest_report, portfolio_report, order_draft, paper_execution,
  live_assisted_execution, RuntimeMode, research, backtest, paper, live_assisted, live_auto,
  AgentRunState, received, snapshot_ready, data_validated, analyzed, portfolio_ready, risk_checked,
  draft_ready, pending_approval, approved, executing, reconciling, reported, completed, rejected,
  data_invalid, expired, cancelled, timed_out, limit_exceeded, failed, incident, AgentRunEventKind,
  run_created, tool_call_reserved, tool_call_succeeded, tool_call_failed, tool_call_replayed,
  tool_call_rejected, cancellation_requested, approval_recorded, approval_rejected,
  timeout_recorded, limit_reached, incident_recorded, mode_beq, state_beq, event_beq, mode_in,
  state_in, event_in,
}

pub data RuleError : Type 0 where
  goal_mode_mismatch invalid_transition : RuleError

unfoldable pub terminal_states : List AgentRunState
terminal_states =
    reported ∷ completed ∷ rejected ∷ data_invalid ∷ expired ∷ cancelled ∷ timed_out
    ∷ limit_exceeded ∷ failed ∷ incident ∷ []

unfoldable pub goal_mode_compatibility : AgentRunGoal → List RuntimeMode
goal_mode_compatibility market_research = research ∷ backtest ∷ paper ∷ live_assisted ∷ []
goal_mode_compatibility backtest_report = backtest ∷ []
goal_mode_compatibility portfolio_report = paper ∷ live_assisted ∷ []
goal_mode_compatibility order_draft = paper ∷ live_assisted ∷ []
goal_mode_compatibility paper_execution = paper ∷ []
goal_mode_compatibility live_assisted_execution = live_assisted ∷ []

unfoldable pub report_ready_by_goal : AgentRunGoal → Option AgentRunState
report_ready_by_goal market_research = some analyzed
report_ready_by_goal backtest_report = some analyzed
report_ready_by_goal portfolio_report = some risk_checked
report_ready_by_goal order_draft = some draft_ready
report_ready_by_goal paper_execution = none
report_ready_by_goal live_assisted_execution = none

abbrev prefix : List AgentRunState → List AgentRunState
prefix rest = received ∷ snapshot_ready ∷ data_validated ∷ analyzed ∷ rest

abbrev portfolio : List AgentRunState → List AgentRunState
portfolio rest = prefix (portfolio_ready ∷ risk_checked ∷ rest)

abbrev draft : List AgentRunState → List AgentRunState
draft rest = portfolio (draft_ready ∷ rest)

-- `_goal_path`
unfoldable pub goal_path : AgentRunGoal → List AgentRunState
goal_path market_research = prefix (reported ∷ [])
goal_path backtest_report = prefix (reported ∷ [])
goal_path portfolio_report = portfolio (reported ∷ [])
goal_path order_draft = draft (reported ∷ [])
goal_path paper_execution = draft (executing ∷ reconciling ∷ completed ∷ [])
goal_path live_assisted_execution =
    draft (pending_approval ∷ approved ∷ executing ∷ reconciling ∷ completed ∷ [])

unfoldable pub pre_execution_states : List AgentRunState
pre_execution_states =
    received ∷ snapshot_ready ∷ data_validated ∷ analyzed ∷ portfolio_ready ∷ risk_checked
    ∷ draft_ready ∷ pending_approval ∷ approved ∷ []

unfoldable pub rejectable_states : List AgentRunState
rejectable_states =
    received ∷ snapshot_ready ∷ data_validated ∷ analyzed ∷ portfolio_ready ∷ risk_checked
    ∷ draft_ready ∷ pending_approval ∷ []

unfoldable pub data_failure_states : List AgentRunState
data_failure_states =
    snapshot_ready ∷ data_validated ∷ analyzed ∷ portfolio_ready ∷ risk_checked ∷ draft_ready ∷ []

unfoldable pub expirable_states : List AgentRunState
expirable_states = draft_ready ∷ pending_approval ∷ approved ∷ []

unfoldable pub same_state_observations : List AgentRunEventKind
same_state_observations =
    tool_call_reserved ∷ tool_call_succeeded ∷ tool_call_failed ∷ tool_call_replayed
    ∷ tool_call_rejected ∷ cancellation_requested ∷ []

unfoldable pub validate_goal_mode : AgentRunGoal → RuntimeMode → Result RuleError (Unit {0})
unfolding goal_mode_compatibility mode_beq
validate_goal_mode goal mode = do
  raise_if (mode_beq mode live_auto) goal_mode_mismatch
  raise_if (not (mode_in mode (goal_mode_compatibility goal))) goal_mode_mismatch

abbrev is_expected : Option AgentRunState → AgentRunState → Bool
is_expected none state = false
is_expected (some expected) state = state_beq expected state

unfoldable pub report_ready : AgentRunGoal → AgentRunState → Bool
unfolding report_ready_by_goal state_beq
report_ready goal state = is_expected (report_ready_by_goal goal) state

abbrev first_of_list : List AgentRunState → List AgentRunState
first_of_list [] = []
first_of_list (s ∷ _) = s ∷ []

-- The state behind `state` on a path, if both are on it.
unfoldable pub successor : List AgentRunState → AgentRunState → List AgentRunState
unfolding state_beq
successor [] state = []
successor (s ∷ path) state =
    let later = successor path state in if state_beq s state then first_of_list path else later

-- The set that the conditional updates of `legal_transition_targets` collect.
abbrev collected : AgentRunState → AgentRunGoal → List AgentRunState
collected state goal =
    successor (goal_path goal) state
    ++ (if state_in state pre_execution_states
        then cancelled ∷ timed_out ∷ limit_exceeded ∷ failed ∷ incident ∷ []
        else [])
    ++ (if state_in state rejectable_states then rejected ∷ [] else [])
    ++ (if state_in state data_failure_states then data_invalid ∷ [] else [])
    ++ (if state_in state expirable_states then expired ∷ [] else [])

-- The body of `legal_transition_targets` behind the check of goal and mode.
unfoldable pub targets : AgentRunState → AgentRunGoal → List AgentRunState
unfolding state_beq terminal_states goal_path pre_execution_states rejectable_states
    data_failure_states expirable_states successor
targets state goal =
    if state_in state terminal_states
    then []
    else if state_beq state executing
    then reconciling ∷ cancelled ∷ timed_out ∷ expired ∷ incident ∷ []
    else if state_beq state reconciling
    then completed ∷ incident ∷ []
    else collected state goal

unfoldable pub legal_transition_targets :
    AgentRunState → AgentRunGoal → RuntimeMode → Result RuleError (List AgentRunState)
legal_transition_targets state goal mode = do validate_goal_mode goal mode; ok (targets state goal)

-- The event kinds that may enter a state; `none` where the table has no entry.
abbrev target_event_kinds : AgentRunState → Option (List AgentRunEventKind)
target_event_kinds cancelled = some (cancellation_requested ∷ [])
target_event_kinds timed_out = some (timeout_recorded ∷ [])
target_event_kinds expired = some (timeout_recorded ∷ [])
target_event_kinds limit_exceeded = some (limit_reached ∷ [])
target_event_kinds _ = none

abbrev is_excluded : Option (List AgentRunEventKind) → AgentRunEventKind → Bool
is_excluded none kind = false
is_excluded (some kinds) kind = not (event_in kind kinds)

-- `_validate_changed_event_kind`
unfoldable pub validate_changed_event_kind :
    AgentRunState → AgentRunState → AgentRunEventKind → Result RuleError (Unit {0})
unfolding state_beq event_beq
validate_changed_event_kind before after kind = do
  raise_if (event_in kind (run_created ∷ tool_call_reserved ∷ [])) invalid_transition
  raise_if
      (state_beq after approved
        && (not (state_beq before pending_approval) || not (event_beq kind approval_recorded)))
      invalid_transition
  raise_if
      (event_beq kind approval_recorded
        && (not (state_beq before pending_approval) || not (state_beq after approved)))
      invalid_transition
  raise_if
      (event_beq kind approval_rejected
        && (not (state_beq before pending_approval) || not (state_beq after rejected)))
      invalid_transition
  raise_if
      (event_beq kind cancellation_requested && not (state_in after (cancelled ∷ incident ∷ [])))
      invalid_transition
  raise_if
      (event_beq kind timeout_recorded
        && not (state_in after (timed_out ∷ expired ∷ incident ∷ [])))
      invalid_transition
  raise_if (event_beq kind limit_reached && not (state_in after (limit_exceeded ∷ incident ∷ [])))
      invalid_transition
  raise_if (event_beq kind incident_recorded && not (state_beq after incident)) invalid_transition
  raise_if (is_excluded (target_event_kinds after) kind) invalid_transition

-- The branch `before is after` of `validate_transition`.
unfoldable pub validate_observation :
    AgentRunState → AgentRunEventKind → Result RuleError (Unit {0})
unfolding state_beq event_beq same_state_observations
validate_observation state kind =
    if event_beq kind run_created && state_beq state received
    then ok tt
    else if event_beq kind cancellation_requested
    then raise_if (not (state_in state (executing ∷ reconciling ∷ []))) invalid_transition
    else raise_if (not (event_in kind same_state_observations)) invalid_transition

unfoldable pub validate_transition :
    AgentRunState
    → AgentRunState
    → AgentRunGoal
    → RuntimeMode
    → AgentRunEventKind
    → Result RuleError (Unit {0})
unfolding state_beq terminal_states
validate_transition before after goal mode kind = do
  validate_goal_mode goal mode
  raise_if (state_in before terminal_states) invalid_transition
  if state_beq before after then validate_observation before kind else do
    legal ← legal_transition_targets before goal mode
    raise_if (not (state_in after legal)) invalid_transition
    validate_changed_event_kind before after kind
