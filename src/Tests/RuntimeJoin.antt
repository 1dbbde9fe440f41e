-- ===== src/Tests/RuntimeJoin.antt =====
-- layer2/runtime_join.py, at three messages, one of them without a time that can be read.
use live_system_intelligence.Prelude.{
  ℕ, zero, suc, ◌+◌, max, arith, String, true, Option, none, some, List, [], ◌∷◌, ◌==◌, string_eq,
  if◌then◌else◌, ◌≡◌, refl,
}
use live_system_intelligence.Prelude.Dict.{insert, lookup, values}
use live_system_intelligence.Exec.{ok, err, Exec}
use live_system_intelligence.RuntimeJoin.{
  Event, Time, RuntimeEdgeUpdate, Key, not_comparable, drain, empty_accumulator, record_event,
  consume,
}
use live_system_intelligence.RuntimeJoin.Accumulator.{
  held, last_seen, given, newest, held-consume, last_seen-consume,
}
use live_system_intelligence.RuntimeJoin.Consumer.{
  Consumer, take_message, drain_round, write_round, message, drained, flushed, here, next, start,
  Balances, Reach-Balances,
}
use live_system_intelligence.RuntimeJoin.Stream.{
  KeyedState, on_timer, flush_key, process_all, process_element,
}

abbrev read_time : String → Option Time
read_time stamp =
    if stamp == "noon"
    then some (record { aware = true; moment = 12 })
    else if stamp == "one"
    then some (record { aware = true; moment = 13 })
    else none

-- A time that can be read without an offset is counted, and the update raises after that.
abbrev read_any : String → Option Time
read_any stamp = some (record { aware = stamp == "one"; moment = 12 })

abbrev call_at : String → Event
call_at stamp = record {
  service = some "auth";
  source_file = some "jwt.py";
  source_line = some 42;
  timestamp = some stamp;
  call_count_last_60s = some 5;
  function_symbol = some "decode";
  caller_symbol = none;
}

abbrev key : Key
key = ("auth", "jwt.py", 42)

abbrev events : List Event
events = call_at "one" ∷ call_at "never" ∷ call_at "noon" ∷ []

held_run : held key (consume read_time events empty_accumulator) ≡ 10
unfolding held consume record_event insert lookup
held_run = refl

raised_and_counted :
    let acc = consume read_any (call_at "one" ∷ []) empty_accumulator in
    ((record_event read_any (call_at "noon") acc).0 ≡ err not_comparable)
    × (held key (record_event read_any (call_at "noon") acc).1 ≡ 10)
unfolding held consume record_event insert lookup
raised_and_counted = (refl, refl)

held-consume_example :
    held key (consume read_time events empty_accumulator)
    ≡ held key empty_accumulator + given read_time key events
held-consume_example = held-consume read_time key events empty_accumulator

only_offsets : (stamp : String) (t : Time) → read_time stamp ≡ some t → t.aware ≡ true
only_offsets stamp t h = ground (arith, h)

last_seen-consume_example :
    last_seen key (consume read_time events empty_accumulator)
    ≡ max (last_seen key empty_accumulator) (newest read_time key events)
unfolding lookup
last_seen-consume_example =
    last_seen-consume read_time only_offsets key events empty_accumulator refl

-- A database whose first write fails.
abbrev upsert : List RuntimeEdgeUpdate → Exec ℕ Unit
upsert updates zero = (err (record { kind = "ServiceUnavailable"; message = "" }), 1)
upsert updates (suc n) = (ok tt, suc n + 1)

abbrev one_message : Consumer ℕ
one_message = take_message read_time upsert (call_at "one") (start read_time upsert 0)

-- A message that comes between the drain and the write.
abbrev overlapped : Consumer ℕ
overlapped =
    take_message read_time upsert (call_at "noon") (drain_round read_time upsert one_message)

abbrev batch : List RuntimeEdgeUpdate
batch = values one_message.acc.buckets

still_due : overlapped.batch ≡ some batch
unfolding take_message drain_round drain record_event insert lookup
still_due = refl

Reach-Balances_example : Balances read_time upsert (write_round read_time upsert batch overlapped)
unfolding drain_round take_message
Reach-Balances_example = Reach-Balances read_time upsert 0 (
    next
      (next
        (next (next here (message (call_at "one") (start read_time upsert 0)))
          (drained one_message refl))
        (message (call_at "noon") (drain_round read_time upsert one_message)))
      (flushed batch overlapped still_due))

abbrev state : KeyedState ℕ
state = record { call_count = some 5; last_event = some (call_at "one"); timers = []; database = 1 }

on_timer_once : (on_timer upsert 60 state).0 ≡ ok tt
unfolding on_timer flush_key
on_timer_once = refl

abbrev elements : List (ℕ × Event)
elements = (1, call_at "one") ∷ (2, call_at "noon") ∷ []

process_all_runs : (process_all 30 elements state).0 ≡ ok tt
unfolding process_all process_element
process_all_runs = refl
