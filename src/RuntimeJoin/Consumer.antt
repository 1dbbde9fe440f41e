-- ===== src/RuntimeJoin/Consumer.antt =====
-- The standalone consumer of layer2/runtime_join.py: the polling thread records messages while the
-- flush thread drains the buffer and then writes to Neo4j, in any order. The lock makes `record` and
-- `drain` single steps; between a drain and its write the polling thread goes on.
use live_system_intelligence.Prelude.{
  ℕ, ◌+◌, String, Option, none, some, List, [], ◌∷◌, ◌++◌, arith, ◌≡◌, refl, ap, ◌==◌, ==_iff,
  if◌then◌else◌, is_empty,
}
use live_system_intelligence.Prelude.Dict.{Dict, lookup, insert, values, lookup-insert}
use live_system_intelligence.Exec.{Result, ok, err, Exec}
use live_system_intelligence.RuntimeJoin.{
  Event, Time, RuntimeEdgeUpdate, Key, key_eq, CallAccumulator, empty_accumulator, record_event,
  drain, bucket_after,
}
use live_system_intelligence.RuntimeJoin.Accumulator.{
  Reading, reading, held, given, after, record_event-after, held-record_event,
}

abbrev pub key_of : RuntimeEdgeUpdate → Key
key_of b = (b.service, b.source_file, b.source_line)

-- Each bucket stands under the key that its fields give, and under no other.
abbrev pub IsFiled : Dict Key RuntimeEdgeUpdate → Type 0
IsFiled [] = Unit
IsFiled ((key, b) ∷ d) = (key_of b ≡ key) × (lookup key d ≡ none) × IsFiled d

insert-IsFiled :
    (key : Key) (b : RuntimeEdgeUpdate) (d : Dict Key RuntimeEdgeUpdate)
    → key_of b ≡ key
    → IsFiled d
    → IsFiled (insert key b d)
unfolding insert lookup
insert-IsFiled key b [] e filed = (e, refl, tt)
insert-IsFiled key b ((j, c) ∷ d) e (same, fresh, filed) =
    ground
      (arith, insert-IsFiled key b d e filed, lookup-insert j key b d, ==_iff key j, ==_iff j key)

key_of-lookup :
    (key : Key) (d : Dict Key RuntimeEdgeUpdate) {b : RuntimeEdgeUpdate}
    → IsFiled d
    → lookup key d ≡ some b
    → key_of b ≡ key
unfolding lookup
key_of-lookup key [] filed e = cc
key_of-lookup key ((j, c) ∷ d) {b} (same, fresh, filed) e =
    ground (arith, key_of-lookup key d {b = b} filed, ==_iff key j)

key_of-bucket_after :
    (ev : Event) (key : Key) (ts : Time) (n : ℕ) (o : Option RuntimeEdgeUpdate)
    → ((b : RuntimeEdgeUpdate) → o ≡ some b → key_of b ≡ key)
    → key_of (bucket_after ev key ts n o) ≡ key
key_of-bucket_after ev key ts n none h = refl
key_of-bucket_after ev key ts n (some b) h = h b refl

after-IsFiled :
    (ev : Event) (acc : CallAccumulator) (r : Option Reading)
    → IsFiled acc.buckets
    → IsFiled (after ev acc r).buckets
after-IsFiled ev acc none filed = filed
after-IsFiled ev acc (some (key, ts, n)) filed =
    insert-IsFiled key _ acc.buckets
      (key_of-bucket_after ev key ts n (lookup key acc.buckets)
        (λ b. key_of-lookup key acc.buckets filed))
      filed

-- The count that a list of updates carries for a key.
unfoldable pub tally : Key → List RuntimeEdgeUpdate → ℕ
tally key [] = 0
tally key (b ∷ bs) = (if key == key_of b then b.call_count_60s else 0) + tally key bs

tally-append :
    (key : Key) (xs ys : List RuntimeEdgeUpdate)
    → tally key (xs ++ ys) ≡ tally key xs + tally key ys
unfolding tally
tally-append key [] ys = omega arith
tally-append key (b ∷ xs) ys = omega (arith, tally-append key xs ys)

tally-values :
    (key : Key) (d : Dict Key RuntimeEdgeUpdate)
    → IsFiled d
    → tally key (values d) ≡ held key (record { buckets = d })
unfolding tally held lookup
tally-values key [] filed = refl
tally-values key ((j, b) ∷ d) (same, fresh, filed) =
    ground (arith, tally-values key d filed, ==_iff key j, ==_iff key (key_of b))

-- The two threads and the database, with what has passed through them. The flush thread sleeps, or
-- holds the batch that it has drained and not yet written.
pub record Consumer (W : Type 0) : Type 0 where
  pub acc : CallAccumulator
  pub batch : Option (List RuntimeEdgeUpdate)
  pub database : W
  pub received : List Event
  pub written : List RuntimeEdgeUpdate
  pub lost : List RuntimeEdgeUpdate

-- The count of a key in the batch that is not yet written.
abbrev pub in_flight : Key → Option (List RuntimeEdgeUpdate) → ℕ
in_flight key none = 0
in_flight key (some events) = tally key events

module _ {W : Type 0} (read_time : String → Option Time)
    (upsert_runtime_calls : List RuntimeEdgeUpdate → Exec W Unit) where
  -- The polling thread takes a message; a bad one is logged and skipped.
  unfoldable pub take_message : Event → Consumer W → Consumer W
  take_message ev c = record c {
    acc = (record_event read_time ev c.acc).1;
    received = ev ∷ c.received;
  }

  -- The flush thread wakes up and drains the buffer: `if events:` it has a batch to write.
  unfoldable pub drain_round : Consumer W → Consumer W
  unfolding drain
  drain_round c =
      let (events, acc') = drain c.acc in
      record c { acc = acc'; batch = if is_empty events then none else some events }

  abbrev file_away : Result (Unit {0}) → List RuntimeEdgeUpdate → Consumer W → Consumer W
  file_away (ok _) events c = record c { written = events ++ c.written }
  file_away (err e) events c = record c { lost = events ++ c.lost }

  -- It writes the batch, which counts as written if the write returned; a failed write is logged.
  unfoldable pub write_round : List RuntimeEdgeUpdate → Consumer W → Consumer W
  write_round events c =
      let (r, database') = upsert_runtime_calls events c.database in
      record (file_away r events c) { batch = none; database = database' }

  pub data Step : Consumer W → Consumer W → Type 0 where
    message : (ev : Event) (c : Consumer W) → Step c (take_message ev c)
    drained : (c : Consumer W) → c.batch ≡ none → Step c (drain_round c)
    flushed :
        (events : List RuntimeEdgeUpdate) (c : Consumer W)
        → c.batch ≡ some events
        → Step c (write_round events c)

  pub data Reach (c : Consumer W) : Consumer W → Type 0 where
    here : Reach c c
    next : {d e : Consumer W} → Reach c d → Step d e → Reach c e

  -- Every count received is in the buffer, in the batch, written or lost.
  pub record Balances (c : Consumer W) : Type 0 where
    pub filed : IsFiled c.acc.buckets
    pub balance :
        (key : Key)
        → tally key c.written + tally key c.lost + in_flight key c.batch + held key c.acc
          ≡ given read_time key c.received

  message-Balances : (ev : Event) (c : Consumer W) → Balances c → Balances (take_message ev c)
  unfolding take_message given
  message-Balances ev c b = record {
    filed = rw record_event-after (after-IsFiled ev c.acc (reading read_time ev) b.filed);
    balance = λ key. omega (arith, b.balance key, held-record_event read_time key ev c.acc);
  }

  in_flight-batch :
      (key : Key) (events : List RuntimeEdgeUpdate)
      → in_flight key (if is_empty events then none else some events) ≡ tally key events
  unfolding tally
  in_flight-batch key [] = refl
  in_flight-batch key (b ∷ events) = refl

  drain-Balances : (c : Consumer W) → c.batch ≡ none → Balances c → Balances (drain_round c)
  unfolding drain_round drain held lookup
  drain-Balances c idle b = record {
    filed = tt;
    balance = λ key.
        let events = values c.acc.buckets in
        omega (
          arith,
          in_flight-batch key events,
          tally-values key c.acc.buckets b.filed,
          b.balance key,
          ap (in_flight key) idle,
        );
  }

  file_away-tally :
      (key : Key) (r : Result (Unit {0})) (events : List RuntimeEdgeUpdate) (c : Consumer W)
      → (tally key (file_away r events c).written + tally key (file_away r events c).lost
          ≡ tally key events + tally key c.written + tally key c.lost)
        × ((file_away r events c).received ≡ c.received)
        × ((file_away r events c).acc ≡ c.acc)
  file_away-tally key (ok _) events c =
      (omega (arith, tally-append key events c.written), refl, refl)
  file_away-tally key (err e) events c = (omega (arith, tally-append key events c.lost), refl, refl)

  write-Balances :
      (events : List RuntimeEdgeUpdate) (c : Consumer W)
      → c.batch ≡ some events
      → Balances c
      → Balances (write_round events c)
  unfolding write_round
  write-Balances events c busy b =
      let r = (upsert_runtime_calls events c.database).0 in
      record {
        filed = rw ((file_away-tally ("", "", 0) r events c).2) b.filed;
        balance = λ key.
            let (counts, same, buffer) = file_away-tally key r events c in
            rw (same, buffer) (omega (arith, counts, b.balance key, ap (in_flight key) busy));
      }

  Step-Balances : {c d : Consumer W} → Step c d → Balances c → Balances d
  Step-Balances (message ev c) b = message-Balances ev c b
  Step-Balances (drained c idle) b = drain-Balances c idle b
  Step-Balances (flushed events c busy) b = write-Balances events c busy b

  abbrev pub start : W → Consumer W
  start w = record {
    acc = empty_accumulator;
    batch = none;
    database = w;
    received = [];
    written = [];
    lost = [];
  }

  start-Balances : (w : W) → Balances (start w)
  unfolding tally held lookup given
  start-Balances w = record { filed = tt; balance = λ key. refl }

  -- However the two threads interleave, for each key the counts of the messages received that have
  -- all five fields and a time that can be read are the counts in batches written, in batches whose
  -- write failed, in the batch drained and not yet written, and in the buffer, together.
  pub Reach-Balances : (w : W) {c : Consumer W} → Reach (start w) c → Balances c
  Reach-Balances w here = start-Balances w
  Reach-Balances w (next r st) = Step-Balances st (Reach-Balances w r)
