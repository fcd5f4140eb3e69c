-- ===== src/Memory/Transaction.antt =====
-- memory/transaction.ts: a transaction's staged events over the memory event store, and its commit.
-- The commits run one at a time, each without yielding to another write of events.
pub mod Batches
pub mod Commit
mod Tests
use bounda.Prelude.{ℕ, List, [], map}
use bounda.Contracts.Errors.{Result, ok, err}
use bounda.Contracts.Events.{AppendResult}
use bounda.Adapter.StagedEvents.{Base, StagedBatch, Streams, batches}
use bounda.Memory.EventStore
use bounda.Memory.EventStore.{Codec, Store, Batch}

module _ {P M : Type 0} where
  abbrev pub positioned : StagedBatch P M → Batch P M
  positioned b = record { args = b.args; positions = b.positions }

module _ {P M : Type 0} (c : Codec P M) where
  -- The store as `createStagedEventStore` is given it.
  abbrev pub memory_base : Base Store P M
  memory_base = record {
    load = λ s stream from. EventStore.load c s stream from;
    next_position = λ s. EventStore.reserve s;
  }

  pub settle_commit : Store → List ℕ → Result (List (AppendResult P M)) → Store × Result (Unit {0})
  settle_commit s reserved (ok results) = (EventStore.release s [], ok tt)
  settle_commit s reserved (err e) = (EventStore.release s reserved, err e)

  -- The events' part of a commit: what was `reserved` is given back when it fails.
  unfoldable pub commit : Store → Streams P M → List ℕ → Store × Result (Unit {0})
  unfolding settle_commit
  commit s staged reserved =
      let (s', r) = EventStore.append_all c s (map positioned (batches staged)) in
      settle_commit s' reserved r
