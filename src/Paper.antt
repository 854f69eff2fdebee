-- ===== src/Paper.antt =====
-- Paper execution: the records of packages/quant_agent/execution/paper/contracts.py, the replay of
-- packages/quant_agent/execution/paper/transition.py and the repository of
-- packages/quant_agent/execution/paper/repository.py.
pub mod Contracts
pub mod Lots
pub mod LotFacts
pub mod Sales
pub mod SaleFacts
pub mod Fifo
pub mod Orders
pub mod Expiry
pub mod Fills
pub mod Positions
pub mod Buckets
pub mod Accounts
pub mod Transition
pub mod Ledger
pub mod Trades
pub mod Shares
pub mod Built
pub mod AccountFacts
pub mod Replay
pub mod Once
pub mod Equality
pub mod Refresh
pub mod RefreshFacts
pub mod Requests
pub mod RequestFacts
pub mod Repository
pub mod Commits
pub mod Refreshes
pub mod Histories
pub mod Succession
pub mod Idempotence
pub mod Tests
pub mod RefreshTests
pub mod RepositoryTests
