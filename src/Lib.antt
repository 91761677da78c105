-- ===== src/Lib.antt =====
-- A model of the Soroban contracts of the Stellar tip jar, and what is proved of them.
--
-- The program. A fan tips a creator in a token that the jar's admin has allowed; the contract holds
-- the tokens, keeps a balance and a running total for each creator and token, and takes a fee in
-- basis points. A creator, or an operator with an allowance, withdraws to the creator's payout
-- address, which changes only after a delay. The admin hands over in two steps, upgrades the code
-- after a timelock, and pauses tips or withdrawals, as a guardian can for a limited time. A separate
-- contract keeps a book of limit orders, whose amounts it holds until they are filled or cancelled;
-- others keep a register of participants' exposures, match and settle derivative orders, and record
-- arbitrages between markets. The legacy contract has a constant-product market maker,
-- staking with rewards, lending pools, and a circuit breaker that watches the volume and rate of tips.
--
-- The parts of the model.
--   Common        numbers, lists, maps as association lists, and `i128`/`u32` arithmetic: checked
--                 operations return an option, plain `+` and `-` wrap, as the release profile sets no
--                 overflow checks. Sums: the total of a number of every entry.
--   Soroban       the host: an invocation gets the ledger's sequence number, who has authorised it, the
--                 contract's address, and whether the token contract lets a transfer through (a
--                 parameter, since that contract is not part of the repository). A call is a function
--                 from a state to a failure, or to a result and a state; events, transfers, extensions
--                 of lifetimes and installed code are logged. A failure carries no state: the host
--                 rolls back. Runs: sequences of invocations.
--   TipJar        contracts/tipjar/src/lib.rs. Types: constants, DataKey, events, Error. State: one field
--                 for each key. Internal: the private helpers. Tips: init, tip, get_total_tips,
--                 get_balance, get_tokens. Withdrawals: withdraw. Tokens: add_token, remove_token.
--                 Payouts: payout addresses and operators. Admin: the handover. Upgrade: propose_upgrade to
--                 migrate. Breaker: guardian and pauses. Fees: set_fee to preview_fee. Legacy: the calls
--                 on the default token. Calls: the entry points as data, `invoke`, `step`, `run`.
--   TipJar.Books, Solvency   what the jar owes and holds. TipJar.View: amounts as the queries show them,
--                 and in View.Receipts and View.Payments when a tip and a withdrawal return.
--   TipJar.Pauses  what the pause words block, and what the pauses make of the calls they gate.
--   TipJar.Settings, Access  what a call may change in the settings. Handover, PayoutDelay,
--                 Allowance, FeeRate.
--   LimitOrders   contracts/limit-orders/src/lib.rs: its whole interface; Laws has what one call leaves
--                 for the next, Runs the sequences of calls.
--   RiskManagement, Derivatives  contracts/risk-management/src/lib.rs and
--                 contracts/derivatives/src/lib.rs, likewise; RiskManagement.Totals has the sequences.
--   Arbitrage     contracts/arbitrage/src/lib.rs, likewise.
--   Amm           contracts/tipjar-legacy/src/amm. The module itself: mod.rs, its pools, storage and
--                 rewards. Math: isqrt and the quotes. Pool, Swap, Pricing: the files of those names.
--                 Sqrt: the root. Pool.Shares, Pool.Deposits: what a share is worth. Swap.Quotes,
--                 Swap.Steps, Swap.Product, Swap.Payment: the quotes, the steps of a swap, the
--                 product of the reserves, the payment.
--   Staking       contracts/tipjar-legacy/src/staking. The module itself: mod.rs and rewards.rs.
--                 Distribution: distribution.rs. Its panics are the constructors of Message. Entries,
--                 Totals: what the calls store, and sequences of them.
--   Lending       contracts/tipjar-legacy/src/lending. The module itself: mod.rs, interest.rs and
--                 pool.rs. Loans: loan.rs. An error that is returned is `raise` too.
--   CircuitBreaker  contracts/tipjar-legacy/src/circuit_breaker.rs. The module itself: types, validation,
--                 defaults. Triggers: trigger_engine, cooldown_manager. Volumes: volume_tracker,
--                 rate_limiter. Anomalies, Statistics, Patterns: anomaly_detector, statistics,
--                 pattern_analyzer. Halts: halt_manager, error_handler. Store: the stored keys, events,
--                 admin, cache; Store.Overrides, Store.Audits, Store.Queries: manual_override,
--                 emergency_mode, audit, periodic_status, query, estimation, batch_query,
--                 gas_optimization. Guard: optimization, guard. Cooldowns, Windows, Roots: what these
--                 compute. Checks, Acceptance, Recovery, Limits, Soundness, Runs: what a check does.
--                 An error that is returned is a Verdict with the state that the function leaves to its
--                 caller; Invocations: callers that pass it on, which the host rolls back.
--
-- Correspondence. A definition has the name of the function that it models; a part of a long function
-- has a name of its own (credit, accrue_fee, use_operator, lower_allowance, apply_payout_change,
-- migrate_balance, migrate_total). `panic_with_error!` is `raise`, `require_auth` and the token client
-- are calls of the host. The loop of remove_token is `without`. Addresses, WASM hashes and the text of
-- a pause's notes are numbers, as they are only compared, stored and handed on. Loops are structural
-- recursion over lists, but for Newton's in isqrt, which runs on fuel: one round for each number from
-- the argument down to 0, enough since the guess falls in every round. In Amm, Staking and
-- Lending `side_of`, `swapped`, `shortfall_bps`, `fee_on`, `optimal_amounts`, `minted_shares`,
-- `base_rewards`, `multiplier_after` and `store_rest` are parts of longer functions. A division that
-- can trap returns an option; by a positive constant it cannot. In CircuitBreaker `base_for`, `backed_off`,
-- `excess_score`, `averaged`, `spread`, `count_unique` and `count_gaps` are parts of functions, as are
-- `recover`, `halt`, `act_on`, `blocked`, `checked`, `check_enabled` and `check_under` of
-- check_circuit_breaker. Its function sqrt_approx runs ten rounds, which are the source's own bound.
--
-- Not modelled: that the host archives entries whose lifetime runs out; the token contracts; the
-- functions of circuit_breaker.rs on floating point (get_performance_metrics), on constants alone
-- (GasCosts, get_optimization_recommendations) and on a flag (StateBatch); the
-- rest of contracts/tipjar-legacy, a frozen reference that the workspace excludes, with the entry points
-- through which it calls these modules; the indexer, the SDK and the tools, which are I/O.
pub mod Common
pub mod Soroban
pub mod TipJar
pub mod LimitOrders
pub mod RiskManagement
pub mod Derivatives
pub mod Arbitrage
pub mod Amm
pub mod Staking
pub mod Lending
pub mod CircuitBreaker
