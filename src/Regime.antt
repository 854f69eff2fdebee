-- ===== src/Regime.antt =====
-- The debounced market regime: packages/quant_agent/regime/transitions.py.
pub mod Config
pub mod Engine
pub mod Process
pub mod History
pub mod Debounce
pub mod Totality
pub mod Audit
pub mod Liveness
pub mod Sequences
mod Tests
