-- ===== src/Lib.antt =====
-- A model of statesman, a statechart engine in Go, and theorems about it.
--
-- A chart is a JSON document in a subset of XState's format. The loader turns it into a `Definition`,
-- a tree of state nodes. An engine keeps the active configuration, the context, the recorded
-- histories and a queue of internal events, and computes one microstep at a time: it stages the
-- result on copies, and `commit` makes it the live state. An actor goroutine owns an engine. It takes
-- events from a mailbox, asks observers, publishes snapshots, and keeps the timers and the invoked
-- children of the active states.
--
-- Where the parts stand:
--   Definition     definition.go: the nodes, the climbs over parents, the index by state id
--   Configuration  transition.go, microstep.go: the set of active nodes and its orders
--   Domain         transition.go: findLCCA, getTransitionDomain, exitSetOf, computeExitSet
--   Select         transition.go: matchAtNode, selectBy, removeConflictingTransitions
--   Entry          transition.go: computeEntrySet and the recursion below it
--   Status         ids.go, errors.go
--   Engine         microstep.go: Engine.Apply is start, apply, commit; Engine.Step is offer, step
--   Snapshot       snapshot.go
--   Machine        machine.go and the invokes of actors.go: Machine.Timers, Machine.Invokes,
--                  Machine.Exec (execMicrostep, runMacrostep), Machine.Loop (loop, drainAndClose,
--                  shutdown)
--   Legality       no code: what a legal configuration is, and the proof that the engine keeps it
--   Schema         schema/build.go, schema/resolve.go, schema/load.go; Schema.Tokens and
--                  Schema.Parse are schema/parse.go
--   VirtualClock   statesmantest/clock.go
--   StallObserver  stall.go, over VirtualClock
--   Naming         internal/codegen/naming.go
--   Json           the values that encoding/json decodes, as parameters of actions hold them
-- The other children of these modules hold proofs. `Base` has the shared helpers, `Examples` small
-- charts and the theorems applied to them.
--
-- A pointer to a node is an address, a place in the list of nodes; a map is an association list or,
-- where only its keys matter, a list with no repetition. Go walks maps in no fixed order, the model
-- in the order of its list; where the code sorts afterwards, so does the model. What the actor does
-- to the outside is a list of outputs. Actions, guards, observers, the runners of invokes and the
-- readings of the clock are parameters.
--
-- Copies. Values are not shared here, so the copies that `clone` and `cloneHistory` of microstep.go
-- make are the values themselves, and are not written. That the code cannot do without them is not
-- shown.
--
-- Where the code and the docs differ, the model follows the code. docs/transition-algorithm.md has the
-- timers cancelled and armed, and the invokes of exited states stopped, inside the microstep; the code
-- publishes first and cancels and arms behind it, and stops invokes at the end of the macrostep, where
-- it does not restart those of a state that was left and entered again. docs/schema-subset.md takes `*`
-- only where no exact descriptor matches; the code takes it also where the guards of those fail.
--
-- Fuel. The climbs over parents take the number of nodes, more than a chain of parents is long. The
-- entry set takes twice the number of nodes and one, which `Entry.Total` shows to be enough where
-- histories restore states below their parents that are no histories. `runMacrostep` and the loop take fuel from the
-- caller, since internal events may keep a macrostep going for ever. The parse stage takes one more
-- than there are tokens, for the loops and for the nesting of states, and for a value that is decoded
-- whole one more than twice their number; `Schema.Parse.Answers` shows that this is enough.
--
-- `json.Decoder` is the list of the tokens that it is still to give, with a mark where it would report
-- a syntax error. That it gives the tokens of the bytes it reads is not shown. Values that are decoded
-- whole have no limit of nesting, where `json.Decoder` refuses more than 10000 levels.
-- `Schema.Parse.Print` has the document of a tree, which is no code of the repository: it is there for
-- the theorem that what is printed is read back.
--
-- The virtual clock and the watchdog count nanoseconds in integers without bounds, where `time.Time`
-- and `time.Duration` have a range.
--
-- Not modelled: the wall clock and timer service (time.go), the goroutines that deliver to subscribers
-- and that run children, waiting on channels, transient.go, the code generator but for its names, the
-- diagrams, the command line tool, and the fakes and scenarios for tests.
pub mod Base
pub mod Json
pub mod Definition
pub mod Configuration
pub mod Domain
pub mod Select
pub mod Entry
pub mod Status
pub mod Engine
pub mod Legality
pub mod VirtualClock
pub mod StallObserver
pub mod Naming
pub mod Snapshot
pub mod Machine
pub mod Schema
pub mod Examples
