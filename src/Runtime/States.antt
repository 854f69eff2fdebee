-- ===== src/Runtime/States.antt =====
-- The enumerations that the workflow rules are about: goals, states and event kinds of a run
-- (packages/quant_agent/agent/runtime/contracts.py) and the runtime modes (config/models.py). An
-- argument of the rules that is no member of its enumeration has no value here.
use quant_agent.Prelude.{ℕ, Bool, List, ◌==◌, any}

pub data AgentRunGoal : Type 0 where
  market_research backtest_report portfolio_report order_draft : AgentRunGoal
  paper_execution live_assisted_execution : AgentRunGoal

pub data RuntimeMode : Type 0 where
  research backtest paper live_assisted live_auto : RuntimeMode

pub data AgentRunState : Type 0 where
  received snapshot_ready data_validated analyzed portfolio_ready risk_checked : AgentRunState
  draft_ready pending_approval approved executing reconciling : AgentRunState
  reported completed rejected data_invalid expired cancelled timed_out : AgentRunState
  limit_exceeded failed incident : AgentRunState

pub data AgentRunEventKind : Type 0 where
  run_created state_transition tool_call_reserved tool_call_succeeded : AgentRunEventKind
  tool_call_failed tool_call_replayed tool_call_rejected : AgentRunEventKind
  cancellation_requested approval_recorded approval_rejected : AgentRunEventKind
  timeout_recorded limit_reached incident_recorded : AgentRunEventKind

-- The place of a member in its enumeration, by which members are compared.
abbrev goal_index : AgentRunGoal → ℕ
goal_index market_research = 0
goal_index backtest_report = 1
goal_index portfolio_report = 2
goal_index order_draft = 3
goal_index paper_execution = 4
goal_index live_assisted_execution = 5

abbrev mode_index : RuntimeMode → ℕ
mode_index research = 0
mode_index backtest = 1
mode_index paper = 2
mode_index live_assisted = 3
mode_index live_auto = 4

abbrev state_index : AgentRunState → ℕ
state_index received = 0
state_index snapshot_ready = 1
state_index data_validated = 2
state_index analyzed = 3
state_index portfolio_ready = 4
state_index risk_checked = 5
state_index draft_ready = 6
state_index pending_approval = 7
state_index approved = 8
state_index executing = 9
state_index reconciling = 10
state_index reported = 11
state_index completed = 12
state_index rejected = 13
state_index data_invalid = 14
state_index expired = 15
state_index cancelled = 16
state_index timed_out = 17
state_index limit_exceeded = 18
state_index failed = 19
state_index incident = 20

abbrev event_index : AgentRunEventKind → ℕ
event_index run_created = 0
event_index state_transition = 1
event_index tool_call_reserved = 2
event_index tool_call_succeeded = 3
event_index tool_call_failed = 4
event_index tool_call_replayed = 5
event_index tool_call_rejected = 6
event_index cancellation_requested = 7
event_index approval_recorded = 8
event_index approval_rejected = 9
event_index timeout_recorded = 10
event_index limit_reached = 11
event_index incident_recorded = 12

unfoldable pub goal_beq : AgentRunGoal → AgentRunGoal → Bool
goal_beq a b = goal_index a == goal_index b

unfoldable pub mode_beq : RuntimeMode → RuntimeMode → Bool
mode_beq a b = mode_index a == mode_index b

unfoldable pub state_beq : AgentRunState → AgentRunState → Bool
state_beq a b = state_index a == state_index b

unfoldable pub event_beq : AgentRunEventKind → AgentRunEventKind → Bool
event_beq a b = event_index a == event_index b

-- `x in {…}`
abbrev pub mode_in : RuntimeMode → List RuntimeMode → Bool
mode_in m = any (mode_beq m)

abbrev pub goal_in : AgentRunGoal → List AgentRunGoal → Bool
goal_in g = any (goal_beq g)

abbrev pub state_in : AgentRunState → List AgentRunState → Bool
state_in s = any (state_beq s)

abbrev pub event_in : AgentRunEventKind → List AgentRunEventKind → Bool
event_in k = any (event_beq k)
