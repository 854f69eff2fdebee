-- ===== src/Runtime.antt =====
-- The workflow rules of the Agent runtime: packages/quant_agent/agent/runtime/rules.py.
pub mod States
pub mod Rules
pub mod Finite
pub mod Tools
pub mod Runs
pub mod Approval
pub mod Exits
mod Tests
