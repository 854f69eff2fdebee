-- ===== src/Runtime/Tests.antt =====
-- A run of a live assisted execution, and the theorems on the workflow rules at concrete states.
use quant_agent.Runtime.States.{
  portfolio_report, order_draft, paper_execution, live_assisted_execution, paper, live_assisted,
  AgentRunState, received, snapshot_ready, data_validated, analyzed, portfolio_ready, risk_checked,
  draft_ready, pending_approval, approved, executing, reconciling, reported, incident,
  AgentRunEventKind, state_transition, tool_call_reserved, tool_call_succeeded, approval_recorded,
  incident_recorded, state_beq, state_in,
}
use quant_agent.Runtime.Rules.{
  terminal_states, goal_path, validate_goal_mode, report_ready, targets, legal_transition_targets,
  validate_changed_event_kind, validate_observation, validate_transition,
}
use quant_agent.Prelude.{◌≤◌, ◌≡◌, refl, ◌⊎◌, true, false, [], ◌∷◌, ok, err}
use quant_agent.Runtime.Rules.{invalid_transition}
use quant_agent.Runtime.Tools.{
  stage_tool_names, offered, submits_paper, submits_approved, submit_tools_offered,
}
use quant_agent.Runtime.Runs.{Steps, run, changes, changes_bounded, on_course, run_from_received}
use quant_agent.Runtime.Approval.{has_approval, execution_needs_approval}
use quant_agent.Runtime.Exits.{
  report_ready_exact, incident_always_open, walk, rest_of, goal_end, goal_completes,
}

-- Up to the execution, with a tool call and its answer on the way.
abbrev live_run : Steps
live_run =
    (state_transition, snapshot_ready)
    ∷ (tool_call_reserved, snapshot_ready)
    ∷ (tool_call_succeeded, data_validated)
    ∷ (tool_call_succeeded, analyzed)
    ∷ (tool_call_succeeded, portfolio_ready)
    ∷ (tool_call_succeeded, risk_checked)
    ∷ (tool_call_succeeded, draft_ready)
    ∷ (state_transition, pending_approval)
    ∷ (approval_recorded, approved)
    ∷ (state_transition, executing)
    ∷ []

live_run-ok : run live_assisted_execution live_assisted received live_run ≡ ok executing
unfolding run validate_transition validate_goal_mode legal_transition_targets targets
    validate_changed_event_kind validate_observation
live_run-ok = refl

submit_tools_offered_example :
    (offered (stage_tool_names executing paper_execution paper) "submit_paper_orders"
      ≡ submits_paper executing paper_execution paper)
    × (offered (stage_tool_names executing paper_execution paper) "submit_approved_orders"
        ≡ submits_approved executing paper_execution paper)
submit_tools_offered_example = submit_tools_offered executing paper_execution paper

changes_bounded_example :
    (changes received live_run ≤ 11) × (received ≡ executing → changes received live_run ≡ 0)
changes_bounded_example =
    changes_bounded live_assisted_execution live_assisted received live_run live_run-ok

run_from_received_example : on_course live_assisted_execution executing ≡ true
run_from_received_example =
    run_from_received live_assisted_execution live_assisted live_run live_run-ok

execution_needs_approval_example : has_approval live_run ≡ true
unfolding state_beq
execution_needs_approval_example =
    execution_needs_approval live_assisted_execution live_run live_run-ok refl

report_ready_exact_example :
    state_in reported (targets risk_checked portfolio_report)
    ≡ report_ready portfolio_report risk_checked
report_ready_exact_example = report_ready_exact risk_checked portfolio_report

incident_always_open_example :
    ((state_in reconciling terminal_states ≡ false)
      × (validate_transition reconciling incident paper_execution paper incident_recorded ≡ ok tt))
    ⊎ ((state_in reconciling terminal_states ≡ true)
        × ((t : AgentRunState) (k : AgentRunEventKind)
            → validate_transition reconciling t paper_execution paper k ≡ err invalid_transition))
unfolding validate_goal_mode
incident_always_open_example = incident_always_open reconciling paper_execution paper refl

goal_completes_example :
    run order_draft paper received (walk (rest_of (goal_path order_draft)))
    ≡ ok (goal_end order_draft)
unfolding validate_goal_mode
goal_completes_example = goal_completes order_draft paper refl
