-- ===== src/Lib.antt =====
-- Bounda's event-sourcing runtime: packages/core/src, its storage contracts (adapter/), the in-memory
-- storage (memory/) and the reactions of the kernel (kernel/).
--
-- Commands append events to streams of the event store. A unit of work stages its events and the other
-- stores' writes, and commits them in one transaction. Reactions (policies, processes, projections) are
-- given the stored events in the log's order; the inbox ledger hands each event to a handler one claim at
-- a time, the scheduler hands out commands that fall due, and dead letters keep what was given up on.
-- Forgetting a person removes the key that their data is encrypted with and what the stores hold of them.
--
-- Which file models what, paths under packages/core/src:
--   Prelude            lists, insertion-ordered maps (a JavaScript Map as an association list), sorting
--   Contracts          contracts/errors.ts, contracts/event.ts, adapter/storage/event-store.ts
--   Adapter.Order      adapter/sql/order.ts, codePointOrder
--   Adapter.StagedEvents  adapter/staged-event-store.ts, over any base store that loads streams and gives
--                      positions
--   Adapter.DeferredWrites  adapter/deferred-writes.ts, over any target stores
--   Memory.EventStore  memory/event-store.ts, with its log, gaps, watermark and reserved positions
--   Memory.InboxLedger, Memory.Scheduler, Memory.DeadLetters, Memory.Idempotency, Memory.Checkpoints,
--   Memory.Snapshots, Memory.Persons, Memory.PersonalKeys, Memory.ForgetLedger
--                      the stores of memory/ under the same names
--   Memory.Entries     memory/entries.ts and the undo log of memory/transaction.ts
--   Memory.Transaction the events of memory/transaction.ts: staging, commit, a commit that fails
--   Memory.Forgetting  forgetWithin of kernel/personal-data/forget.ts on three of the stores
--   Kernel.Values      values as kernel/aggregate/snapshot-codec.ts compares them, and
--                      kernel/shared/merge-fields.ts
--   Kernel.Aggregate   kernel/aggregate/: fold-state.ts and runtime.ts, with personsOf of
--                      kernel/personal-data/persons.ts; Upcasting, upcasting.ts; Codec, snapshot-codec.ts;
--                      Loading, load-aggregate.ts; Snapshotting, kernel/snapshot/subscriber.ts
--   Kernel.Delivery    kernel/dispatch/delivery.ts, over any claim and any process function
--   Kernel.Projection  kernel/projection/runner.ts, the delivery under a read model's transaction
--   Kernel.Dispatcher  kernel/dispatch/dispatcher.ts, over any subscribers; Kernel.Projection.Subscriber
--                      makes the delivery of a read model one
--   Kernel.Worker      kernel/scheduler/worker.ts over Memory.Scheduler: claims, rounds and failed runs
--   Kernel.InOrder     kernel/shared/in-order.ts
--   Kernel.Retry       kernel/shared/retry.ts
--   Kernel.PendingRetries  kernel/shared/pending-retries.ts
--   Kernel.Attempt     kernel/shared/reaction-attempt.ts and commitAttempt of
--                      kernel/unit-of-work/unit-of-work.ts
--
-- A module's record or `Store` is the state that the factory of the file closes over, and each method is
-- a function of its name, in snake case, from the state to the state and the answer; a promise that
-- rejects is `err`. The memory stores' methods run without an await between a read and a write, so a call
-- is one step; where other callers may come between two steps, as in Kernel.Attempt and Memory.Forgetting,
-- what they do is an argument.
--
-- Moments are milliseconds since the epoch, and in dead letters and the forget ledger the ISO texts that
-- the source compares. `randomUUID()` and the clock's answers are arguments. `JSON.stringify` and
-- `JSON.parse` are parameters. Natural numbers stand for JavaScript's safe integers.
--
-- The dispatcher's waits and passes run on fuel: a round of a wait moves the checkpoint or the clock, and
-- a pass that is followed by another moves a checkpoint, so what is left of the position, of the time and
-- of the log is enough. The subscribers that are waited for together are taken one after another, and what
-- the other waits do is among what others do meanwhile.
--
-- Other loops are structural recursion, except that the watermark's loop runs on fuel, the length of the log
-- and of the gaps together: a round takes at least one of them away, and Memory.EventStore.Watermark
-- shows that the loop ends settled. In Memory.EventStore `notified` records the positions that the
-- notifier was told, and Kernel.InOrder's `calls` the deliveries made; neither is read.
--
-- Values are trees, and two objects of a comparison are never the same reference. devalue, which
-- snapshots are written with, is a parameter that parses what it printed.
--
-- Not modelled: the deferred writes inside the memory transaction, locks, tables and queries, the
-- dispatcher's timers, checkpointedByStore, the runs of the scheduler's worker, processes, the command
-- pipeline, configuration, and telemetry; the SQL, Cloudflare and PostgreSQL adapters, whose behaviour is
-- that of their databases; the command line, and the glue to web frameworks.
pub mod Prelude
pub mod Contracts
pub mod Adapter
pub mod Memory
pub mod Kernel
