-- ===== src/Lib.antt =====
-- Quant-Agent: the state machines that decide whether an order may be sent.
--
-- The program is a research and paper-trading platform for one stock market: it synchronises market
-- data, computes features, classifies the market regime, selects candidates and a portfolio,
-- evaluates risk, drafts orders, and lets an agent run the workflow under rules. This library models
-- its safety-critical cores, the parts whose state decides what later parts may do:
--
--   * the debounced market regime (packages/quant_agent/regime): raw daily regimes enter, a change of
--     the effective regime needs a streak of sessions, and each session leaves an event in a hash
--     chain. Strategies and risk read the effective regime;
--   * the agent's workflow rules (packages/quant_agent/agent/runtime/rules.py): which state may follow
--     which for a goal and a mode, with which kind of event, and which tools a stage offers. The
--     runtime service appends an event only when these rules accept it;
--   * the kill switch (packages/quant_agent/risk/kill_switch): a global switch and one for each
--     account, with idempotent mutations, recovery by a single-use approval, and the gate that paper
--     execution holds around the submission of an order;
--   * the paper account (packages/quant_agent/execution/paper): lots of shares with their settlement,
--     orders that hold cash and shares, the replay that derives an account from an execution, and the
--     repository that commits each execution once;
--   * the book of fee rules (packages/quant_agent/backtest/rules.py), which selects the rule of a day;
--   * walk-forward validation (packages/quant_agent/backtest/validation): the chronological windows
--     that a strategy is fitted, validated and judged on.
--
-- Files and code:
--
--   Prelude, Prelude/*: lists, options, results of calls that may raise, integers, texts as Python
--     compares and strips them. Dict: a `dict` as an association list over keys with an equality.
--   Canonical: the values that `stable_hash` hashes (regime/contracts.py). SHA-256 of canonical JSON
--     is the library's: `Hashing` is a parameter, of which the code relies on the digest's form.
--     Samples, KillSwitch/Samples: two concrete hashes, for the tests.
--   Regime/*: regime/transitions.py with the results of regime/contracts.py. Config is
--     `RegimeTransitionConfig`, Engine the fields and the decision of `RegimeTransitionEngine`, Process
--     its `process`, `process_all`, `_event` and the checks of the constructors. History, Debounce,
--     Totality, Audit, Liveness and Sequences hold the theorems.
--   Runtime/*: agent/runtime/rules.py with the enumerations of agent/runtime/contracts.py and the
--     modes of config/models.py. States and Rules are the tables and the validation, Tools is
--     `stage_tool_names`; Finite, Runs, Approval and Exits hold the theorems.
--   KillSwitch/*: risk/kill_switch/contracts.py (Contracts: the records; Payloads: what is hashed;
--     Checks: the constructors' checks; Builders: the class methods) and
--     risk/kill_switch/repository.py (Store: the fields of `InMemoryKillSwitchRepository` and its
--     methods as actions; Plans: what a method computes before it writes; Repository: `initialize`,
--     `activate`, `recover`, `get_state`; Guard: `guard_new_order`). Outcomes, Mutations and
--     GuardOutcomes list how each call ends; Steps are the histories of a repository; Keeps, Gate,
--     Orders, Retries, Recovery, Revisions and Chain hold the theorems.
--   WalkForward/*: backtest/validation/contracts.py up to `WalkForwardPlan` (Contracts, Splitter) and
--     `build_walk_forward_plan` of backtest/validation/splitter.py (Splitter). Names, Windows, Folds
--     and Totality show that no check of a constructor fails; Plan and LookAhead hold the theorems.
--   Fees: `FeeRule` and `FeeRuleBook` of backtest/rules.py; Selection holds the theorems.
--   Paper/*: execution/paper/contracts.py (Contracts: enumerations and lots; Orders, Fills, Positions,
--     Accounts: the record of that name, its checks and `build`) and execution/paper/transition.py
--     (Lots: `_consume_sell_lots`; Orders: `_expire_order`; Transition: `replay_execution_transition`
--     and `_positions_from_lots`) and execution/paper/repository.py (Requests: the configuration,
--     requests and receipts of the contracts; Repository: the fields of `InMemoryPaperRepository`,
--     `open_account`, `get_account`, `commit_execution` and `refresh_account`; Equality: `==` of
--     account states). Refresh is `replay_account_refresh` of the transitions, over the fields of
--     `AccountSnapshot` of portfolio/snapshots/contracts.py.
--     LotFacts, Sales, SaleFacts, Fifo, Expiry, Buckets, Ledger, Trades, Shares, Built, AccountFacts,
--     Replay, Once, RefreshFacts, RequestFacts, Commits, Refreshes, Histories, Succession and
--     Idempotence hold the lemmas and theorems.
--
-- Conventions. An instant is a number of microseconds, a date a number of days, a Decimal a number of
-- units of 10^-12. A call that may raise returns `Result`. A method of the repository is an `Action`:
-- what it wrote before a raise stays written, so that an interrupted call would be visible. The
-- repository's lock is the atomicity of an action; since the lock is reentrant, a guard that is held
-- is entered and left by two actions, with any others between them. Clocks are arguments.
--
-- In Paper a whole Decimal (a quantity) is a natural number, and an amount of money is a number of
-- units of a power of ten of which all amounts are multiples; their sums and products stay within the
-- digits of Python's context, and are exact. Where they are not, in the costs of what is left of a
-- lot and in what is computed from these, the arithmetic is a parameter, `Platform`, and so is the
-- local day of an instant.
--
-- Fuel: the loop of the splitter has one round more than there are sessions, and Plan shows that it
-- never runs out. The digits of a number take the number as fuel. All other recursion is on a list or
-- on an enumeration.
--
-- Not modelled: the checks of Python types (`isinstance`) that the types here make vacuous; the
-- checks of the records that enter the kill switch as inputs (actors, incidents, requests,
-- approvals); `get_incident` and `events`, which only read; the storage in SQLite; the services,
-- adapters and HTTP layers around these cores; the market matching of paper execution, the checks
-- of its match attempts and receipts, and the checks of an account snapshot (the repository takes
-- one that its constructor made, which its round trip through JSON gives again); the parameters and
-- the report of walk-forward validation; the arithmetic of the fees; and the program's other parts,
-- which compute features, candidates, portfolios and reports.
pub mod Prelude
pub mod Canonical
pub mod Dict
pub mod Fees
pub mod Regime
mod Samples
pub mod Runtime
pub mod KillSwitch
pub mod WalkForward
pub mod Paper
