-- ===== src/Memory/EventStore.antt =====
-- memory/event-store.ts: streams, the global log and the watermark that readers see. Every method
-- runs without yielding between its reads and its writes, so each is one function on the state.
-- `notified` records the calls of `onAppend`. JSON is the platform's: a `Codec` of its two calls.
pub mod Watermark
pub mod Writes
pub mod Release
pub mod Readers
pub mod Streams
pub mod Paging
pub mod Runs
pub mod Commits
mod Tests
use bounda.Prelude.{
  ℕ, zero, suc, ◌+◌, ◌-◌, String, Bool, true, false, ◌&&◌, ◌||◌, Option, none, some, List, [], ◌∷◌,
  ◌++◌, map,
}
use bounda.Prelude.Tests.{ltb, leb, if◌then◌else◌, ◌==◌, nat_eq, string_eq}
use bounda.Prelude.Lists.{length, take, keep_if, contains, without, add, sort_by}
use bounda.Prelude.Dict.{Dict, get, set, has}
use bounda.Contracts.Errors.{runtime_error, error, concurrency, Result, ok, err, ◌>>=◌, ◌>>◌}
use bounda.Contracts.Events.{
  StreamIdentity, PendingEvent, StoredEvent, AppendArgs, AppendResult, LoadResult, stream_id,
}

-- `JSON.stringify`, `none` for a value that has no JSON, and `JSON.parse`.
pub record Codec (P M : Type 0) : Type 0 where
  pub payload_json : P → Option String
  pub payload_parse : String → P
  pub metadata_json : M → Option String
  pub metadata_parse : String → M

abbrev pub PendingKept : Type 0
PendingKept = PendingEvent String String

abbrev pub Kept : Type 0
Kept = StoredEvent String String

pub record Store : Type 0 where
  pub streams : Dict String (List Kept)
  pub log : Dict ℕ Kept
  pub persons : Dict String (List ℕ)
  pub gaps : List ℕ
  pub reserved : ℕ
  pub watermark : ℕ
  pub notified : List ℕ

abbrev pub empty : Store
empty = record {
  streams = [];
  log = [];
  persons = [];
  gaps = [];
  reserved = 0;
  watermark = 0;
  notified = [];
}

-- `PositionedAppendArgs`: no positions is the empty list.
pub record Batch (P M : Type 0) : Type 0 where
  pub args : AppendArgs P M
  pub open args use *
  pub positions : List ℕ

abbrev pub events_of : Option (List Kept) → List Kept
events_of none = []
events_of (some events) = events

abbrev pub stream_of : Store → String → List Kept
stream_of s key = events_of (get s.streams key)

-- The test of the loop of `advance`, and a round of it.
pub can_advance : Store → Bool
can_advance s = has s.log (s.watermark + 1) || contains (s.watermark + 1) s.gaps

pub advance_round : Store → Store
advance_round s = record s {
  gaps = if has s.log (s.watermark + 1) then s.gaps else without (s.watermark + 1) s.gaps;
  watermark = s.watermark + 1;
}

pub advance_loop : ℕ → Store → Store
advance_loop zero s = s
advance_loop (suc fuel) s = elim (can_advance s) [
  | true ↦ advance_loop fuel (advance_round s)
  | false ↦ s
]

-- Each round passes an entry of the log or takes one of the gaps.
pub advance : Store → Store
unfolding can_advance advance_round advance_loop
advance s =
    let after = advance_loop (length s.log + length s.gaps) s in
    if ltb s.watermark after.watermark
    then record after { notified = after.notified ++ after.watermark ∷ [] }
    else after

unfoldable pub reserve : Store → ℕ × Store
reserve s = (s.reserved + 1, record s { reserved = s.reserved + 1 })

or_type_error {ℓ} : {A : Type ℓ} → Option A → Result A
or_type_error none = err (error "TypeError")
or_type_error (some a) = ok a

-- `positions?.[index] || reserve()`, over the number reserved so far.
take_position : ℕ → List ℕ → ℕ × ℕ
take_position reserved [] = (reserved + 1, reserved + 1)
take_position reserved (zero ∷ ps) = (reserved + 1, reserved + 1)
take_position reserved (suc p ∷ ps) = (suc p, reserved)

abbrev pub rest {ℓ} : {A : Type ℓ} → List A → List A
rest [] = []
rest (x ∷ xs) = xs

-- The `written` of one batch, and the number reserved after it.
place : ℕ → List PendingKept → List ℕ → List Kept × ℕ
place reserved [] ps = ([], reserved)
place reserved (e ∷ es) ps =
    let (p, r) = take_position reserved ps in
    let (ws, r') = place r es (rest ps) in (record { event = e; position = p } ∷ ws, r')

positions_of : Option (List ℕ) → List ℕ
positions_of none = []
positions_of (some ps) = ps

index_person : Dict String (List ℕ) → Kept → Dict String (List ℕ)
unfolding positions_of
index_person persons e = elim e.person [
  | none ↦ persons
  | some person ↦ set persons person (positions_of (get persons person) ++ e.position ∷ [])
]

-- `log.set` and the index of persons, for each written event.
log_event : Store → Kept → Store
unfolding index_person
log_event s e = record s { log = set s.log e.position e; persons = index_person s.persons e }

pub log_events : Store → List Kept → Store
unfolding log_event
log_events s [] = s
log_events s (e ∷ es) = log_events (log_event s e) es

write_batch : Store → String → List PendingKept → List ℕ → Store
unfolding take_position place log_events
write_batch s key kept ps =
    let (written, r) = place s.reserved kept ps in
    log_events (record s { reserved = r; streams = set s.streams key (stream_of s key ++ written) })
      written

abbrev pub version_in : Dict String ℕ → Store → String → ℕ
version_in versions s key = elim (get versions key) [
  | none ↦ length (stream_of s key)
  | some version ↦ version
]

-- Positions start at 1, so the last reserved one that is given back leaves a number.
release_position : Store → ℕ → Store
release_position s p =
    if p == s.reserved
    then record s { reserved = s.reserved - 1 }
    else record s { gaps = add p s.gaps }

pub release_positions : Store → List ℕ → Store
unfolding release_position
release_positions s [] = s
release_positions s (p ∷ ps) = release_positions (release_position s p) ps

-- Largest first.
unfoldable pub release : Store → List ℕ → Store
unfolding release_positions advance
release s positions = advance (release_positions s (sort_by (λ a b. leb b a) positions))

pub last_position : Store → ℕ
last_position s = s.watermark

module _ {P M : Type 0} (c : Codec P M) where
  pub keep : PendingEvent P M → Result PendingKept
  unfolding or_type_error
  keep e = do
    payload ← or_type_error (c.payload_json e.payload)
    metadata ← or_type_error (c.metadata_json e.metadata)
    ok (record {
      id = e.id;
      aggregate_type = e.aggregate_type;
      aggregate_id = e.aggregate_id;
      version = e.version;
      type = e.type;
      payload = payload;
      timestamp = e.timestamp;
      metadata = metadata;
      person = e.person;
    })

  unfoldable pub restore : Kept → StoredEvent P M
  restore k = record {
    event = record {
      id = k.id;
      aggregate_type = k.aggregate_type;
      aggregate_id = k.aggregate_id;
      version = k.version;
      type = k.type;
      payload = c.payload_parse k.payload;
      timestamp = k.timestamp;
      metadata = c.metadata_parse k.metadata;
      person = k.person;
    };
    position = k.position;
  }

  pub keep_all : List (PendingEvent P M) → Result (List PendingKept)
  unfolding keep
  keep_all [] = ok []
  keep_all (e ∷ es) = do k ← keep e; ks ← keep_all es; ok (k ∷ ks)

  -- The versions that every batch expects, counted over the batches before it.
  check_versions : Dict String ℕ → Store → List (Batch P M) → Result (Unit {0})
  check_versions versions s [] = ok tt
  check_versions versions s (b ∷ bs) =
      let key = stream_id b.stream in
      let actual = version_in versions s key in
      let others = check_versions (set versions key (actual + length b.events)) s bs in
      if actual == b.expected_version
      then others
      else err (runtime_error (concurrency key b.expected_version actual))

  prepare : List (Batch P M) → Result (List (List PendingKept))
  unfolding keep_all
  prepare [] = ok []
  prepare (b ∷ bs) = do ks ← keep_all b.events; kss ← prepare bs; ok (ks ∷ kss)

  -- The events as they were handed in, with the positions they were written at.
  placed : List (PendingEvent P M) → List Kept → List (StoredEvent P M)
  placed [] ws = []
  placed (e ∷ es) [] = record { event = e; position = 0 } ∷ placed es []
  placed (e ∷ es) (w ∷ ws) = record { event = e; position = w.position } ∷ placed es ws

  result_of : Batch P M → List Kept → AppendResult P M
  unfolding placed
  result_of b written = record {
    version = b.expected_version + length written;
    events = placed b.events written;
  }

  write_batches :
      Store → List (Batch P M) → List (List PendingKept) → Store × List (AppendResult P M)
  unfolding write_batch result_of
  write_batches s (b ∷ bs) (ks ∷ kss) =
      let (s', results) =
        write_batches (write_batch s (stream_id b.stream) ks b.positions) bs kss in
      (s', result_of b (place s.reserved ks b.positions).0 ∷ results)
  write_batches s _ _ = (s, [])

  write_all : Store → List (Batch P M) → List (List PendingKept) → Store × List (AppendResult P M)
  unfolding write_batches advance
  write_all s bs kss = let (s', results) = write_batches s bs kss in (advance s', results)

  -- What is thrown leaves the store as it was: nothing is written before the last check.
  append_checked :
      Store
      → List (Batch P M)
      → Result (List (List PendingKept))
      → Store × Result (List (AppendResult P M))
  unfolding write_all
  append_checked s bs (err e) = (s, err e)
  append_checked s bs (ok kss) = let (s', results) = write_all s bs kss in (s', ok results)

  unfoldable pub append_all : Store → List (Batch P M) → Store × Result (List (AppendResult P M))
  unfolding check_versions prepare append_checked
  append_all s bs = append_checked s bs (check_versions [] s bs >> prepare bs)

  -- `(await appendAll([args]))[0]`
  first_result : List (AppendResult P M) → Result (AppendResult P M)
  first_result [] = err (error "undefined")
  first_result (r ∷ rs) = ok r

  unfoldable pub append : Store → AppendArgs P M → Store × Result (AppendResult P M)
  unfolding append_all first_result
  append s args =
      let (s', r) = append_all s (record { args = args; positions = [] } ∷ []) in
      (s', r >>= first_result)

  unfoldable pub load : Store → StreamIdentity → ℕ → LoadResult P M
  unfolding restore
  load s stream from_version = record {
    events =
        map restore (keep_if (λ k. leb from_version k.version) (stream_of s (stream_id stream)));
    version = length (stream_of s (stream_id stream));
  }

  find_event : String → List Kept → Option (StoredEvent P M)
  unfolding restore
  find_event id [] = none
  find_event id (k ∷ ks) = if k.id == id then some (restore k) else find_event id ks

  pub read_one : Store → StreamIdentity → String → Option (StoredEvent P M)
  unfolding find_event
  read_one s stream event_id = find_event event_id (stream_of s (stream_id stream))

  -- The loop of `readAll`, over the positions left up to the watermark and the room left.
  read_from : ℕ → Store → ℕ → ℕ → List (StoredEvent P M)
  unfolding restore
  read_from left s at zero = []
  read_from zero s at (suc room) = []
  read_from (suc left) s at (suc room) = elim (get s.log at) [
    | none ↦ read_from left s (at + 1) (suc room)
    | some k ↦ restore k ∷ read_from left s (at + 1) room
  ]

  pub read_all : Store → ℕ → ℕ → List (StoredEvent P M)
  unfolding read_from
  read_all s after_position limit =
      read_from (s.watermark - after_position) s (after_position + 1) limit

  -- `restore(log.get(position) as Kept)`, which throws where the log has no such event.
  restore_each : Store → List ℕ → Result (List (StoredEvent P M))
  unfolding or_type_error restore
  restore_each s [] = ok []
  restore_each s (p ∷ ps) = do
    k ← or_type_error (get s.log p)
    es ← restore_each s ps
    ok (restore k ∷ es)

  pub read_by_person : Store → String → ℕ → ℕ → Result (List (StoredEvent P M))
  unfolding positions_of restore_each
  read_by_person s person after_position limit = restore_each s (
      take limit (
        sort_by leb (
          keep_if (λ p. ltb after_position p && leb p s.watermark)
            (positions_of (get s.persons person)))))
