-- ===== src/Lib.antt =====
-- A verification library of the execution of trades in the trading API (apps/api): the decisions on
-- trade intents, the real-money order path, and the governed paper execution.
--
-- The program. TradeIntentService records intents and decides them, by itself or for an operator, under
-- a policy in the key-value table. One that is to be executed with real money is submitted by
-- RealOrderService, which commits a row before it calls the broker. RealBrokerReconciliationService
-- polls the broker and brings the rows and their intents in line with what the broker says, mirrors
-- the broker's portfolio, and looks for positions that no order accounts for. Both trip a kill-switch,
-- kept in the key-value table, that only an operator clears. GovernedPaperExecutionService gates and
-- fills the trades of the paper account and of pretests. CycleSchedulerService starts the agents'
-- cycles, from which the intents come.
--
-- The files.
--   Base, Number, Exec: library names and list functions; the program's numbers, which are doubles;
--     the monad of methods that mutate the world and may throw, with `attempt` for try/catch,
--     `quietly` for a failure that is only logged and `ensuring` for finally.
--   Common.BrokerStatus, Common.Kv, Common.Halt: apps/api/src/common/broker-status.util.ts,
--     kv.service.ts and kv.util.ts, real-execution-halt.util.ts.
--   Store.Rows, Store.Index, Store.World, Store.Calls: the tables of apps/api/prisma/schema.prisma
--     with the unique index of its migrations, the fields that the services keep in memory, and the
--     calls of the database, the clock and the gateway. Store.Calls.Footprint says what each call can
--     change.
--   RealOrder.Submit, RealOrder.Recover: apps/api/src/real-order/real-order.service.ts; each function
--     has the name of its method in snake case (`submit`, `recover_inflight`,
--     `handle_confirmed_absent`), and the parts of a long method have names of their own.
--   Reconciliation.Apply, Sweep, Portfolio, Tick:
--     apps/api/src/real-reconciliation/real-broker-reconciliation.service.ts, one order, all orders,
--     the broker's positions, and the loop with its circuit breaker.
--   Execution.Account, Gate, Fill, Entry: apps/api/src/execution/governed-account-state.ts and
--     governed-paper-execution.service.ts.
--   TradeIntent.Policy, Mode, Real, Process, Record:
--     apps/api/src/trade-intent/trade-intent.service.ts: the policy, where an intent is executed, the
--     real-money execution, the deciding methods with the paper execution, and the recording.
--   Scheduler.State, Cycle: apps/api/src/scheduler/cycle-scheduler.service.ts, which starts the agents'
--     cycles; it shares no table with the other services, so it has a state of its own.
--   Veto.State, Mark, Backfill, Report, Plugins: apps/api/src/veto-analyzer/veto-analyzer.service.ts,
--     which completes the ledger of vetoed signals from later prices and sums it up; the ledger is a
--     state of its own.
--   Pretest.State, Book, Fill, Rebalance, Marks, Floor, Gate, Promote, Reputation, Cycle:
--     apps/api/src/pretest/pretest.service.ts, the simulated portfolios: the trades that are applied,
--     the fills, the rebalancing, the mark to market, the risk floor of a cycle, which asks the gate
--     of the paper account, the significance gate, the promotion of a portfolio's plugins, their
--     reputation, and the trading half of the cycle. It has a state of its own.
--   System: the operations of the services as steps of one run.
--   The files below these (Keeps, Safety, Once, Guards, Recovery, Ledger, Stale, Drift, Adoption,
--     Circuit, Progress, Closing, Limits, Peak, Single, Orders, Placing, Routing, Whole, Exits,
--     Bounds, Recording, Reasons, Starts, Quotes, Returns, Decisions, Refines, Costs, Polling,
--     Later, Fetch, Tally, Sums, Attribution, Ledger of Veto, Reads, Promotion, Ceiling, Mirror, Flat,
--     Peaks, Holdings, Counting, Untouched, Sound, Cycles) hold the proofs, and Tests applies theorems to concrete
--     worlds.
--
-- The outside. `External` holds every answer from outside by the number of the call: whether a
-- database call works, the time, fresh identifiers, what the broker says. A theorem that quantifies
-- over the world quantifies over all of them, so any call may fail and the broker may say anything.
-- `JSON.parse`, `Number()`, date comparison and `String(err)` are parameters as well. The paper
-- execution takes the operations on doubles that round, the quotes and the calendar keys.
--
-- Bounds. There is no fuel: every loop runs over a list that the code has read. Finite doubles are
-- whole multiples of 2^-1074, with one zero, so comparisons are exact. Identifiers, symbols and times
-- are natural numbers, which the code only compares, orders and subtracts. The horizon of the veto
-- analyzer, counted in bars, is a natural number too.
--
-- Not modelled: timers and their delays, log lines, and the interleaving of two methods that run
-- at once, except that another writer may have changed a row since it was read; and of a pretest's
-- cycle what the plugins, the bars and the language model compute. Readings that the code starts
-- together are made one after another. The agents, the plugins, the gateway's network calls and the
-- user interfaces are not part of the library.
pub mod Base
pub mod Number
pub mod Exec
pub mod Common
pub mod Store
pub mod RealOrder
pub mod Reconciliation
pub mod Execution
pub mod TradeIntent
pub mod Scheduler
pub mod Veto
pub mod Pretest
pub mod System
pub mod Tests
