-- ===== src/Lib.antt =====
-- A model of the control plane of AlphaMintX, the part of the repository under control-plane/
-- that decides whether a proposal of a trading agent becomes an order, and that executes it on
-- paper or at a venue. A proposal passes its contract (Contract), then the risk gate (Gate), whose
-- inputs are hydrated (RunState) from the store (Store) and the marks (MarketData), and whose
-- verdict the paper order manager (Paper) or the live one (Live) executes. Each strategy has a
-- lifecycle (Strategy) that says whether it may trade at all, and the safety monitor (Safety) trips
-- its breaker or kills it when it loses too much or falls silent. The paper gate (PaperGate) decides
-- from the fills of the paper manager whether it may go live. All of it is Go under
-- control-plane/internal/.
--
-- Files and the code that they model:
--   Base         names of the library, lemmas on lists, integers over the native numbers
--   Numbers      the decimals of github.com/shopspring/decimal and the float64 of a confidence.
--                They are not in the repository, so they are a parameter: `Numbers` has the
--                operations, `Laws` the documented behaviour that some theorems rely on, and
--                `whole` is an instance of both over the integers.
--   Strategy     strategy/lifecycle.go in Lifecycle, strategy/transition.go in Transition: the
--                mutable Instance is passed on and returned with the result of Transition. Table
--                is the transition table as an independent description, Runs has sequences of
--                attempts.
--   Contract     contract/: data in Types, patterns and decimal parsing in Patterns, Validate in
--                Validate. A violation is its code, its message is dropped.
--   Gate         riskgate/: gate.go in Types, checks.go in Checks, evaluate.go in Evaluate with
--                one function for each group of steps, service.go in Service. Sharing splits a
--                call of the service where it takes its locks, so that calls interleave: a call
--                starts with the lock of its strategy and the lookup, and later stores.
--   Paper        oms/paper/: data and maps in Types, the arithmetic of fills in Fills, booking,
--                protectives, kill and flatten in Booking, entries in Orders, ProcessTick and the
--                restores of a restart in Ticks. A map is an association list. An order that the
--                source mutates through a pointer is written back under its identifier.
--   Safety       safety/: the in-memory state and the interfaces in Types, alert.go and the breaker
--                evaluation in Breaker, watchdog.go in Watchdog, a tick of tick.go in Ticks. What the
--                monitor reaches through its interfaces (store, marks, limits, live order manager) is
--                one abstract state with the operations of `Ports`. Reads of one evaluation see one
--                state: nothing else runs between them. The goroutine that drives the effects is only
--                started here: it runs later, beside the tick, and what it does is not part of it.
--   PaperGate    papergate/: the walk over the fills of the paper window (replay.go) in Replay, the
--                conditions and Evaluate (papergate.go) in Rule.
--   Store        store/: the rows of the safety tables in Types, the appends of kills and the reads of
--                the safety engine in Kills (safety.go, append.go, runtime.go), clears and the
--                lifecycle lock in Clears (killclear.go), the start of the paper window in Windows
--                (lifecycle.go). A table is the list of its rows, a transaction a function to the
--                new tables or an error. Histories has them as steps.
--   Live         the journal of store/liveoms.go in Types, Writes and Fills; oms/live/: fsm.go in
--                Status, filters.go in Filters, submit.go in Submit (what is written), Transmit (the
--                loops) and Entry (submitEntry and journalAndSend), fills.go in Rows (what it
--                stores) and Accounting. What the venue answers, and what other goroutines commit
--                before, between and after the checks of a send, are scripts that the loops run
--                through.
--   MarketData   marketdata/: symbol.go in Symbol, store.go in Ticks.
--   RunState     runstate/runstate.go in Hydrate.
--   Safety.Persisted has the monitor's interface to the store, filled by the tables of Store.
--   Tests        the theorems at concrete inputs.
--
-- Conventions. An amount of money is a value of `Numbers`. A Go string that the code treats as an
-- enum is a data type with a constructor `other` for what the code does not know. An instant is an
-- integer of nanoseconds. A time.Now, a fresh UUID and the hash of a payload are arguments. A mutex
-- is not part of the state of a sequential operation; Gate.Sharing has the locks that matter.
-- A division by zero panics in Go; here it is what `div` of the parameter returns.
--
-- Fuel: the loop that steps a quantity down (qtyForNotional in oms/paper/paper.go) takes fuel in
-- `step_down`, two rounds in `qty_for_notional`, with an error of its own for more. The rounded
-- quotient is at most half a step above the exact one, so one step down is enough: Paper.Sizing. The
-- loops of oms/live/submit.go run along their scripts: a script that is too short ends in `waiting`,
-- which is neither a result nor an error; Live.Attempts says which are enough.
--
-- Not modelled: the upper case of letters that are not ASCII (symbol.go), JSON and the parsing of
-- times, the snapshots Orders and Books, which change nothing, and the other parts of the control
-- plane: the drive of the safety effects, the reconciliation, the protectives and the stream of the
-- live order manager, the loop that times the ticks of the monitor, the curve of the paper gate, the
-- tables of the store for users, tokens, billing and display, the HTTP API, the feeds of market data
-- and the exchange client, which are network, database or glue or stand beside what is modelled here.
pub mod Base
pub mod Numbers
pub mod Strategy
pub mod Contract
pub mod Gate
pub mod Paper
pub mod Live
pub mod MarketData
pub mod PaperGate
pub mod RunState
pub mod Safety
pub mod Store
pub mod Tests
