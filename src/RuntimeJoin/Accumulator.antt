-- ===== src/RuntimeJoin/Accumulator.antt =====
-- What the accumulator of layer2/runtime_join.py holds after any events.
use live_system_intelligence.Prelude.{
  ℕ, ◌+◌, max, String, Bool, true, Option, none, some, List, [], ◌∷◌, arith, ◌≡◌, refl, ◌==◌,
  ==_iff, if◌then◌else◌, Bool-cases, inl, inr,
}
use live_system_intelligence.Prelude.Dict.{lookup, lookup-insert}
use live_system_intelligence.RuntimeJoin.{
  Event, Time, bucket_after, RuntimeEdgeUpdate, Key, key_eq, CallAccumulator, later, record_event,
  consume, add,
}

-- The key, the time and the count of a message that `record` accepts.
abbrev pub Reading : Type 0
Reading = Key × Time × ℕ

abbrev complete : Option Time → Option String → Option String → Option ℕ → Option ℕ → Option Reading
complete (some ts) (some s) (some f) (some l) (some n) = some ((s, f, l), ts, n)
complete _ _ _ _ _ = none

abbrev timed : (String → Option Time) → Option String → Option Time
timed read_time none = none
timed read_time (some stamp) = read_time stamp

unfoldable pub reading : (String → Option Time) → Event → Option Reading
reading read_time ev =
    complete (timed read_time ev.timestamp) ev.service ev.source_file ev.source_line
      ev.call_count_last_60s

abbrev count_of : Option RuntimeEdgeUpdate → ℕ
count_of none = 0
count_of (some b) = b.call_count_60s

-- The count that the accumulator holds for a key.
unfoldable pub held : Key → CallAccumulator → ℕ
held key acc = count_of (lookup key acc.buckets)

abbrev amount : Key → Option Reading → ℕ
amount key none = 0
amount key (some (j, ts, n)) = if key == j then n else 0

abbrev time_of : Option RuntimeEdgeUpdate → ℕ
time_of none = 0
time_of (some b) = b.timestamp.moment

-- The time at which the accumulator saw a key last, 0 if it holds nothing for it.
unfoldable pub last_seen : Key → CallAccumulator → ℕ
last_seen key acc = time_of (lookup key acc.buckets)

-- The count that the messages give for a key.
unfoldable pub given : (String → Option Time) → Key → List Event → ℕ
given read_time key [] = 0
given read_time key (ev ∷ evs) = amount key (reading read_time ev) + given read_time key evs

abbrev moment : Key → Option Reading → ℕ
moment key none = 0
moment key (some (j, ts, n)) = if key == j then ts.moment else 0

-- The latest time that the messages give for a key.
unfoldable pub newest : (String → Option Time) → Key → List Event → ℕ
newest read_time key [] = 0
newest read_time key (ev ∷ evs) = max (moment key (reading read_time ev)) (newest read_time key evs)

-- Whether the time of a key, if there is one, has an offset.
abbrev kind_of : Option RuntimeEdgeUpdate → Bool
kind_of none = true
kind_of (some b) = b.timestamp.aware

abbrev pub IsAware : Key → CallAccumulator → Type 0
IsAware key acc = kind_of (lookup key acc.buckets) ≡ true

-- The accumulator after a message, by what was read from it.
abbrev pub after : Event → CallAccumulator → Option Reading → CallAccumulator
after ev acc none = acc
after ev acc (some (key, ts, n)) = (add ev key ts n acc).1

held-after :
    (key : Key) (ev : Event) (acc : CallAccumulator) (r : Option Reading)
    → held key (after ev acc r) ≡ held key acc + amount key r
unfolding held
held-after key ev acc none = omega arith
held-after key ev acc (some (j, ts, n)) = rw lookup-insert (ground (arith, ==_iff key j))

abbrev aware_reading : Option Reading → Bool
aware_reading none = true
aware_reading (some (j, ts, n)) = ts.aware

later-aware :
    (s t : Time)
    → s.aware ≡ true
    → t.aware ≡ true
    → ((later s t).aware ≡ true) × ((later s t).moment ≡ max s.moment t.moment)
later-aware s t a b = ground (arith, a, b)

last_seen-after :
    (key : Key) (ev : Event) (acc : CallAccumulator) (r : Option Reading)
    → IsAware key acc
    → aware_reading r ≡ true
    → (last_seen key (after ev acc r) ≡ max (last_seen key acc) (moment key r))
      × IsAware key (after ev acc r)
unfolding last_seen
last_seen-after key ev acc none aware timely = (omega arith, aware)
last_seen-after key ev acc (some (j, ts, n)) aware timely =
    rw lookup-insert (elim (Bool-cases (key == j)) [
      | inl e ↦ rw (e, ← (==_iff key j).0 e) (by_bucket (lookup key acc.buckets) aware)
      | inr e ↦ rw e (omega arith, aware)
    ])
  where
    by_bucket :
        (o : Option RuntimeEdgeUpdate)
        → kind_of o ≡ true
        → (time_of (some (bucket_after ev key ts n o)) ≡ max (time_of o) ts.moment)
          × (kind_of (some (bucket_after ev key ts n o)) ≡ true)
    by_bucket none a = (omega arith, timely)
    by_bucket (some b) a = let (k, m) = later-aware b.timestamp ts a timely in (m, k)

module _ (read_time : String → Option Time) where
  pub record_event-after :
      (ev : Event) (acc : CallAccumulator)
      → (record_event read_time ev acc).1 ≡ after ev acc (reading read_time ev)
  unfolding record_event reading
  record_event-after ev acc = ground arith

  pub held-record_event :
      (key : Key) (ev : Event) (acc : CallAccumulator)
      → held key (record_event read_time ev acc).1
        ≡ held key acc + amount key (reading read_time ev)
  held-record_event key ev acc =
      rw record_event-after (held-after key ev acc (reading read_time ev))

  -- After any messages, the bad ones included, each key holds what it held before and the sum of
  -- the counts of the messages that have all five fields and a time that can be read. A message
  -- whose time and that of its bucket cannot be compared raises, and is counted all the same.
  pub held-consume :
      (key : Key) (evs : List Event) (acc : CallAccumulator)
      → held key (consume read_time evs acc) ≡ held key acc + given read_time key evs
  unfolding consume given
  held-consume key [] acc = omega arith
  held-consume key (ev ∷ evs) acc =
      omega (
        arith,
        held-consume key evs (record_event read_time ev acc).1,
        held-record_event key ev acc,
      )

  module _ (offsets : (stamp : String) (t : Time) → read_time stamp ≡ some t → t.aware ≡ true) where
    aware_reading-reading : (ev : Event) → aware_reading (reading read_time ev) ≡ true
    unfolding reading
    aware_reading-reading ev = by_stamp ev.timestamp
      where
        by_time :
            (o : Option Time)
            → ((t : Time) → o ≡ some t → t.aware ≡ true)
            → aware_reading
                (complete o ev.service ev.source_file ev.source_line ev.call_count_last_60s)
              ≡ true
        by_time none h = refl
        by_time (some t) h = ground (arith, h t refl)

        by_stamp :
            (o : Option String)
            → aware_reading (
                complete
                  (timed read_time o)
                  ev.service
                  ev.source_file
                  ev.source_line
                  ev.call_count_last_60s)
              ≡ true
        by_stamp none = refl
        by_stamp (some stamp) = by_time (read_time stamp) (offsets stamp)

    last_seen-record_event :
        (key : Key) (ev : Event) (acc : CallAccumulator)
        → IsAware key acc
        → (last_seen key (record_event read_time ev acc).1
            ≡ max (last_seen key acc) (moment key (reading read_time ev)))
          × IsAware key (record_event read_time ev acc).1
    last_seen-record_event key ev acc aware =
        rw record_event-after
          (last_seen-after key ev acc (reading read_time ev) aware (aware_reading-reading ev))

    -- If every time that can be read has an offset, and the time of the key's bucket too, the key was
    -- last seen, after any messages, at the latest of that time and of those of the good messages.
    pub last_seen-consume :
        (key : Key) (evs : List Event) (acc : CallAccumulator)
        → IsAware key acc
        → last_seen key (consume read_time evs acc)
          ≡ max (last_seen key acc) (newest read_time key evs)
    unfolding consume newest
    last_seen-consume key [] acc aware = omega arith
    last_seen-consume key (ev ∷ evs) acc aware =
        let (seen, aware') = last_seen-record_event key ev acc aware in
        omega (arith, last_seen-consume key evs (record_event read_time ev acc).1 aware', seen)
