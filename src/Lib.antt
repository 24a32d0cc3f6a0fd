-- ===== src/Lib.antt =====
-- gateloop: a verification development for the deterministic core of the GateLoop harness, a
-- multi-agent software-development loop in which LLM agents propose and a deterministic layer
-- decides. Modelled is that layer; what an agent, a validator or a tool answers is an argument of
-- the model.
--
-- The parts and their files:
--   Base                shared names: tests on numbers, lists, and `Array.prototype.sort` as a stable
--                       insertion sort (Base/Sort), comparators (Base/Comparator), sets of ids (Base/Ids),
--                       how many elements satisfy a predicate (Base/Tally), texts (Base/Text),
--                       throwing functions (Base/Result).
--   Orchestrator        packages/harness-core/src/orchestrator-v0.ts. State has its types; Select is
--                       selectNextRuntimeStory and hasBlockedOrEscalatedDependency; Decide is
--                       decideNextAction; Advance is advanceTrackerState; Run iterates the two over a
--                       list with what each executed action returned. The theorems about a run stand
--                       below Run.
--   Glob                the glob test of write sets, which packages/task-graph and
--                       packages/permission-gateway share. Laws describes what a compiled glob
--                       matches, Scanning and Meaning what a glob covers, Subtree the globs that
--                       contracts use.
--   TaskGraph           packages/task-graph/src/index.ts: the class TaskGraph. State has its types,
--                       Ops its methods; WellFormed is what holds of a store, Creating and Updating
--                       are about the two mutating methods, History about sequences of them, Next
--                       about the next task.
--   Planning            packages/planning-steward/src/workflow.ts from line 226: Flow is the state
--                       machine, Gate the advance that waits for a checklist, Barrier the function
--                       assertStageOrderingBarrier. Progress has the lemmas on statuses; Order, Gated,
--                       Passing and Barrier/Laws the theorems.
--   Harness             packages/harness-core/src/index.ts to line 405: State has the types and the
--                       transitions, Walk the paths along them; Select is selectNextStory,
--                       Convergence assessConvergence, AutoAdvance decideAutoAdvance, Gate tick and
--                       Gate/Human checkHumanGate with matchesGlob, Boundary
--                       acceptanceTestBoundaryCheck.
--   EventLog            packages/event-log/src/index.ts: createTraceEvent, appendNextEvent and
--                       validateTraceEvent, with the hash and the redaction as parameters; Chain has
--                       the theorems.
--   Permission          packages/permission-gateway/src/index.ts: evaluateToolRequest. State has its types,
--                       Pipeline the function; Allowing and Denying are about its answers.
--   GateControl         packages/gate-control/src/index.ts: State has the gate's reads and
--                       writes, Limits the budget and the token cap, Run runGated, Closing what is known
--                       of the gate after it; PolicyChange is classifyPolicyChange.
--   FailureBank         packages/failure-bank/src/index.ts to line 217: State has the genes and their
--                       signals, Bank bankGene and consolidate, Picking injectRelevant and the resolved
--                       genes. Merging and Disjoint are about the loops of consolidate, History about
--                       sequences of operations, Matching and Best about injectRelevant.
--   Scheduling          packages/task-graph/src/scheduler.ts and spawn-plan.ts: Sequential is
--                       runSequentialScheduler, Rounds and Dependencies are about its runs; SpawnPlan is
--                       computeSpawnPlan with applyWipCap, Neighbors, Searching, Finishing, Planned and
--                       Wip are about it.
--   StoryManager        packages/story-manager/src/index.ts: Admission is checkAdmission, Conditions
--                       describes what its gates look at, Gates says when it admits.
--   TraceRefs           packages/shared/src/index.ts, formatTraceRef and parseTraceRef, and
--                       packages/event-log/src/index.ts, resolveTraceRef; Laws is about them.
-- As in the source, Scheduling uses the selection of Harness, StoryManager the plan of Scheduling,
-- TraceRefs the events of EventLog, and Harness.AutoAdvance Harness.Select and Harness.Convergence.
-- Glob is used by TaskGraph, Permission and Harness.Boundary. The others do not interact.
--
-- Correspondence: an interface is a record and a union of literals a data type with the source's
-- words in snake case; null and undefined are `none`; a method that mutates its object returns the
-- new object; a throw is an error value. Ids are native texts and are compared as the source does. An
-- empty text is falsy, as in the source.
--
-- Bounds: counters, budgets, priorities and sequence numbers are natural numbers, so NaN, negative
-- and fractional values are left out. `String.prototype.localeCompare` is a parameter, since its
-- order is the runtime's; where a theorem needs more, its hypothesis `IsCollation` says that it is a
-- total preorder, and `IsComparator` that its two directions agree besides. `new RegExp` on a text
-- that a caller gives is a parameter too. The loops of the source are over lists, or a given number
-- of steps, and are structural recursion. The scheduler and the searches of a spawn plan run on a
-- number of turns that is shown to be enough, and the loops of consolidate over indices carry the used
-- indices. `decimal` gives its digits one more round than the number.
--
-- The regular expressions of the permission gateway and of the gate are parameters (Detectors, Policy,
-- KeyTests): their engine is the runtime's; that of a trace reference is written out. File access is a
-- parameter on a world of any type (GateIo). Money is a natural number of a smallest unit, and a ceiling
-- of Infinity is `none`.
--
-- Not modelled: rendering (buildResumeSummary and the web pages), file, network and process access,
-- prompts, and provider backends.
pub mod Base
pub mod EventLog
pub mod FailureBank
pub mod GateControl
pub mod Glob
pub mod Harness
pub mod Orchestrator
pub mod Permission
pub mod Planning
pub mod Scheduling
pub mod StoryManager
pub mod TaskGraph
pub mod TraceRefs
