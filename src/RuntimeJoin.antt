-- ===== src/RuntimeJoin.antt =====
-- layer2/runtime_join.py: `CallAccumulator`, the buffer between Kafka polls and Neo4j flushes, the
-- consumer's two threads, and the keyed process function of the Flink job.
-- `read_time` is `datetime.fromisoformat` after the `Z` is replaced.

pub mod Accumulator
pub mod Consumer
pub mod Stream
use live_system_intelligence.Prelude.{
  ℕ, ◌+◌, String, Bool, true, not, ltb, ◌&&◌, Option, none, some, List, [], ◌∷◌, arith, ◌≡◌, ◌↔◌,
  Eq, ◌==◌, ==_iff, string_eq, nat_eq, if◌then◌else◌,
}
use live_system_intelligence.Prelude.Dict.{Dict, lookup, insert, values}
use live_system_intelligence.Exec.{Error, Result, ok, err, Exec, pure, lift, ◌>>=◌}

-- A message of the topic, a dict in which every field may be missing.
pub record Event : Type 0 where
  pub service : Option String
  pub source_file : Option String
  pub source_line : Option ℕ
  pub timestamp : Option String
  pub call_count_last_60s : Option ℕ
  pub function_symbol : Option String
  pub caller_symbol : Option String

-- A `datetime`: whether it has an offset, and the moment that it names.
pub record Time : Type 0 where
  pub aware : Bool
  pub moment : ℕ

pub record RuntimeEdgeUpdate : Type 0 where
  pub service : String
  pub function_symbol : String
  pub source_file : String
  pub source_line : ℕ
  pub caller_symbol : String
  pub call_count_60s : ℕ
  pub timestamp : Time

-- `(service, source_file, source_line)`
abbrev pub Key : Type 0
Key = String × String × ℕ

abbrev pub key_beq : Key → Key → Bool
key_beq (s, f, l) (s', f', l') = s == s' && f == f' && l == l'

pub key_beq_iff : (a b : Key) → (key_beq a b ≡ true) ↔ (a ≡ b)
key_beq_iff (s, f, l) (s', f', l') = ground (arith, ==_iff s s', ==_iff f f')

instance abbrev pub key_eq : Eq Key
key_eq = record { beq = key_beq; beq_iff = key_beq_iff }

pub record CallAccumulator : Type 0 where
  pub buckets : Dict Key RuntimeEdgeUpdate

abbrev pub empty_accumulator : CallAccumulator
empty_accumulator = record { buckets = [] }

-- `ev["name"]`
abbrev pub item : {A : Type 0} → String → Option A → Result A
item name none = err (record { kind = "KeyError"; message = name })
item name (some a) = ok a

-- `ev.get("name", "")`
abbrev pub get_or_empty : Option String → String
get_or_empty none = ""
get_or_empty (some s) = s

abbrev pub bad_timestamp : Error
bad_timestamp = record { kind = "ValueError"; message = "Invalid isoformat string" }

abbrev pub parsed_time : Option Time → Result Time
parsed_time none = err bad_timestamp
parsed_time (some ts) = ok ts

abbrev pub not_comparable : Error
not_comparable = record {
  kind = "TypeError";
  message = "can't compare offset-naive and offset-aware datetimes";
}

-- Whether two times can be compared: with an offset both, or neither.
abbrev pub comparable : Time → Time → Bool
comparable s t = if s.aware then t.aware else not t.aware

-- What is stored for `max(s, t)`: where the comparison raises, the old time stays.
abbrev pub later : Time → Time → Time
later s t = if comparable s t && ltb s.moment t.moment then t else s

-- The bucket of a key after an event of that key, the old one updated or a new one. The count is
-- added before the times are compared.
abbrev pub bucket_after : Event → Key → Time → ℕ → Option RuntimeEdgeUpdate → RuntimeEdgeUpdate
bucket_after ev key ts n (some b) = record b {
  call_count_60s = b.call_count_60s + n;
  timestamp = later b.timestamp ts;
}
bucket_after ev (service, source_file, source_line) ts n none = record {
  service = service;
  function_symbol = get_or_empty ev.function_symbol;
  source_file = source_file;
  source_line = source_line;
  caller_symbol = get_or_empty ev.caller_symbol;
  call_count_60s = n;
  timestamp = ts;
}

-- Whether the update of a bucket returns or raises.
abbrev pub compared : Time → Option RuntimeEdgeUpdate → Result (Unit {0})
compared ts none = ok tt
compared ts (some b) = if comparable b.timestamp ts then ok tt else err not_comparable

abbrev pub add : Event → Key → Time → ℕ → Exec CallAccumulator Unit
add ev key ts n acc = (
  compared ts (lookup key acc.buckets),
  record { buckets = insert key (bucket_after ev key ts n (lookup key acc.buckets)) acc.buckets },
)

-- `CallAccumulator.record`
unfoldable pub record_event : (String → Option Time) → Event → Exec CallAccumulator Unit
record_event read_time ev = do
  service ← lift (item "service" ev.service)
  source_file ← lift (item "source_file" ev.source_file)
  source_line ← lift (item "source_line" ev.source_line)
  stamp ← lift (item "timestamp" ev.timestamp)
  ts ← lift (parsed_time (read_time stamp))
  n ← lift (item "call_count_last_60s" ev.call_count_last_60s)
  add ev (service, source_file, source_line) ts n

-- `CallAccumulator.drain`
unfoldable pub drain : CallAccumulator → List RuntimeEdgeUpdate × CallAccumulator
drain acc = (values acc.buckets, empty_accumulator)

-- The consumer's `for msg in consumer`: a bad message is logged and skipped.
unfoldable pub consume : (String → Option Time) → List Event → CallAccumulator → CallAccumulator
consume read_time [] acc = acc
consume read_time (ev ∷ evs) acc = consume read_time evs (record_event read_time ev acc).1
