-- ===== src/Runtime/Tools.antt =====
-- The tools of each stage: `stage_tool_names` of
-- packages/quant_agent/agent/runtime/rules.py, and where the tools that submit orders are among them.
use quant_agent.Runtime.States.{
  AgentRunGoal, market_research, backtest_report, portfolio_report, order_draft, paper_execution,
  live_assisted_execution, RuntimeMode, paper, live_assisted, AgentRunState, received,
  snapshot_ready, data_validated, analyzed, portfolio_ready, risk_checked, draft_ready,
  pending_approval, approved, executing, reconciling, goal_beq, mode_beq, state_beq, goal_in,
  state_in,
}
use quant_agent.Runtime.Rules.{RuleError, terminal_states, validate_goal_mode}
use quant_agent.Runtime.Finite.{
  all_states, all_goals, every_state, every_goal, every_mode, all_modes,
}
use quant_agent.Prelude.{
  ◌≡◌, refl, String, Bool, true, false, ◌&&◌, ◌||◌, List, [], ◌∷◌, ◌++◌, if◌then◌else◌, Result, ok,
  err, ◌>>◌, arith, all, bool_eq, bool_eq-eq, text_in,
}

abbrev data_tools : List String
data_tools = "get_market_snapshot" ∷ "validate_market_data" ∷ []

abbrev research_tools : List String
research_tools =
    "detect_market_regime" ∷ "rank_market_themes" ∷ "rank_theme_leaders" ∷ "rank_stock_candidates"
    ∷ "explain_candidate" ∷ []

abbrev portfolio_tools : List String
portfolio_tools = "get_portfolio_snapshot" ∷ "build_target_portfolio" ∷ []

abbrev report_tool : List String
report_tool = "generate_decision_report" ∷ []

abbrev draft_read_tool : List String
draft_read_tool = "get_order_draft" ∷ []

-- The tools of a state that is neither terminal nor RECEIVED, for a valid goal and mode.
stage_tools : AgentRunState → AgentRunGoal → RuntimeMode → List String
unfolding goal_beq mode_beq
stage_tools snapshot_ready goal mode = data_tools
stage_tools data_validated goal mode =
    if goal_beq goal backtest_report then "run_backtest" ∷ [] else research_tools
stage_tools analyzed goal mode =
    if goal_in goal (market_research ∷ backtest_report ∷ [])
    then report_tool ++ "explain_candidate" ∷ []
    else portfolio_tools ++ "explain_candidate" ∷ []
stage_tools portfolio_ready goal mode = "check_portfolio_risk" ∷ []
stage_tools risk_checked goal mode =
    if goal_beq goal portfolio_report then report_tool else "create_order_draft" ∷ []
stage_tools draft_ready goal mode =
    if goal_beq goal order_draft then draft_read_tool ++ report_tool else draft_read_tool
stage_tools pending_approval goal mode = draft_read_tool
stage_tools approved goal mode = draft_read_tool
stage_tools executing goal mode =
    if goal_beq goal paper_execution && mode_beq mode paper
    then "submit_paper_orders" ∷ []
    else if goal_beq goal live_assisted_execution && mode_beq mode live_assisted
    then "submit_approved_orders" ∷ []
    else []
stage_tools reconciling goal mode = "reconcile_account" ∷ []
stage_tools _ goal mode = []

unfoldable pub stage_tool_names :
    AgentRunState → AgentRunGoal → RuntimeMode → Result RuleError (List String)
unfolding state_beq terminal_states stage_tools
stage_tool_names state goal mode = do
  validate_goal_mode goal mode
  ok (
      if state_in state terminal_states || state_beq state received
      then []
      else stage_tools state goal mode)

-- Where the paper orders may be submitted, and where the approved ones.
abbrev pub submits_paper : AgentRunState → AgentRunGoal → RuntimeMode → Bool
submits_paper s g m = state_beq s executing && goal_beq g paper_execution && mode_beq m paper

abbrev pub submits_approved : AgentRunState → AgentRunGoal → RuntimeMode → Bool
submits_approved s g m =
    state_beq s executing && goal_beq g live_assisted_execution && mode_beq m live_assisted

abbrev pub offered : Result RuleError (List String) → String → Bool
offered (ok tools) tool = text_in tool tools
offered (err e) tool = false

abbrev agrees : AgentRunState → AgentRunGoal → RuntimeMode → Bool
agrees s g m =
    bool_eq (offered (stage_tool_names s g m) "submit_paper_orders") (submits_paper s g m)
    && bool_eq (offered (stage_tool_names s g m) "submit_approved_orders") (submits_approved s g m)

agrees_everywhere :
    all (λ s. all (λ g. all (λ m. agrees s g m) all_modes) all_goals) all_states ≡ true
unfolding stage_tool_names validate_goal_mode state_beq goal_beq mode_beq
agrees_everywhere = refl

agrees_at : (s : AgentRunState) (g : AgentRunGoal) (m : RuntimeMode) → agrees s g m ≡ true
agrees_at s g m =
    every_mode (λ m'. agrees s g m') m
      (every_goal (λ g'. all (λ m'. agrees s g' m') all_modes) g
        (every_state (λ s'. all (λ g'. all (λ m'. agrees s' g' m') all_modes) all_goals) s
          agrees_everywhere))

-- The tool that submits paper orders is offered in the EXECUTING stage of a paper execution in
-- mode PAPER and nowhere else, and the tool that submits approved orders in the EXECUTING stage of
-- a live assisted execution in mode LIVE_ASSISTED and nowhere else.
pub submit_tools_offered :
    (s : AgentRunState) (g : AgentRunGoal) (m : RuntimeMode)
    → (offered (stage_tool_names s g m) "submit_paper_orders" ≡ submits_paper s g m)
      × (offered (stage_tool_names s g m) "submit_approved_orders" ≡ submits_approved s g m)
submit_tools_offered s g m = ground (
  arith,
  agrees_at s g m,
  bool_eq-eq (offered (stage_tool_names s g m) "submit_paper_orders") (submits_paper s g m),
  bool_eq-eq (offered (stage_tool_names s g m) "submit_approved_orders") (submits_approved s g m),
)
