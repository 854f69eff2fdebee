-- ===== src/WalkForward.antt =====
-- Walk-forward validation: packages/quant_agent/backtest/validation.
pub mod Contracts
pub mod Splitter
pub mod Names
pub mod Windows
pub mod Folds
pub mod Totality
pub mod Plan
pub mod LookAhead
pub mod Tests
