-- ===== src/Runtime/Finite.antt =====
-- Checks over all members of an enumeration.
use quant_agent.Prelude.{◌≡◌, Bool, true, List, [], ◌∷◌, arith, all}
use quant_agent.Runtime.States.{
  AgentRunGoal, RuntimeMode, AgentRunState, market_research, backtest_report, portfolio_report,
  order_draft, paper_execution, live_assisted_execution, research, backtest, paper, live_assisted,
  live_auto, received, snapshot_ready, data_validated, analyzed, portfolio_ready, risk_checked,
  draft_ready, pending_approval, approved, executing, reconciling, reported, completed, rejected,
  data_invalid, expired, cancelled, timed_out, limit_exceeded, failed, incident, state_beq,
  state_in,
}

abbrev pub all_states : List AgentRunState
all_states =
    received ∷ snapshot_ready ∷ data_validated ∷ analyzed ∷ portfolio_ready ∷ risk_checked
    ∷ draft_ready ∷ pending_approval ∷ approved ∷ executing ∷ reconciling ∷ reported ∷ completed
    ∷ rejected ∷ data_invalid ∷ expired ∷ cancelled ∷ timed_out ∷ limit_exceeded ∷ failed ∷ incident
    ∷ []

abbrev pub all_goals : List AgentRunGoal
all_goals =
    market_research ∷ backtest_report ∷ portfolio_report ∷ order_draft ∷ paper_execution
    ∷ live_assisted_execution ∷ []

pub every_state :
    (p : AgentRunState → Bool) (s : AgentRunState) → all p all_states ≡ true → p s ≡ true
every_state p s h = ground arith

pub every_goal : (p : AgentRunGoal → Bool) (g : AgentRunGoal) → all p all_goals ≡ true → p g ≡ true
every_goal p g h = ground arith

pub state_beq-eq : (s t : AgentRunState) → state_beq s t ≡ true → s ≡ t
unfolding state_beq
state_beq-eq s t h = ground arith

pub all-in :
    (p : AgentRunState → Bool) (s : AgentRunState) (xs : List AgentRunState)
    → all p xs ≡ true
    → state_in s xs ≡ true
    → p s ≡ true
all-in p s [] h i = cc
all-in p s (x ∷ xs) h i = ground (arith, state_beq-eq s x, all-in p s xs)

abbrev pub all_modes : List RuntimeMode
all_modes = research ∷ backtest ∷ paper ∷ live_assisted ∷ live_auto ∷ []

pub every_mode : (p : RuntimeMode → Bool) (m : RuntimeMode) → all p all_modes ≡ true → p m ≡ true
every_mode p m h = ground arith

pub state_beq_refl : (s : AgentRunState) → state_beq s s ≡ true
unfolding state_beq
state_beq_refl s = ground arith
