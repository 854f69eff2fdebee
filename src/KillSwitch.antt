-- ===== src/KillSwitch.antt =====
-- The kill switch: packages/quant_agent/risk/kill_switch.
pub mod Contracts
pub mod Payloads
pub mod Checks
pub mod Builders
pub mod Store
pub mod Plans
pub mod Repository
pub mod Guard
pub mod Outcomes
pub mod Mutations
pub mod GuardOutcomes
pub mod Steps
pub mod Keeps
pub mod Gate
pub mod Orders
pub mod Retries
pub mod Recovery
pub mod Revisions
pub mod Chain
pub mod Samples
pub mod Tests
