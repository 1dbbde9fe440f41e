-- ===== src/RuntimeJoin/Stream.antt =====
-- layer2/runtime_join.py: `RuntimeCallProcessFunction`, the keyed state of the Flink job. The state
-- of one key holds the event itself for its JSON text, and the Flink runtime's timers as a list.
use live_system_intelligence.Prelude.{
  ℕ, ◌+◌, ◌*◌, true, Option, none, some, List, [], ◌∷◌, arith, ◌≡◌, nat_beq, if◌then◌else◌,
  Option-cases, inl, inr,
}
use live_system_intelligence.Exec.{ok, Exec, pure, lift, try_except, ◌>>=◌, ◌>>◌}
use live_system_intelligence.RuntimeJoin.{Event, RuntimeEdgeUpdate, item, get_or_empty}

pub record KeyedState (W : Type 0) : Type 0 where
  pub call_count : Option ℕ
  pub last_event : Option Event
  pub timers : List ℕ
  pub database : W

-- `state.value() or 0`
abbrev pub or_zero : Option ℕ → ℕ
or_zero none = 0
or_zero (some n) = n

module _ {W : Type 0} (flush_interval_s : ℕ) where
  -- `process_element`, at the processing time `now`.
  unfoldable pub process_element : ℕ → Event → Exec (KeyedState W) Unit
  process_element now ev = do
    n ← lift (item "call_count_last_60s" ev.call_count_last_60s)
    λ s. (
      ok tt,
      record s {
        call_count = some (or_zero s.call_count + n);
        last_event = some ev;
        timers = (now + flush_interval_s * 1000) ∷ s.timers;
      },
    )

  -- A run of elements of one key, each with its processing time.
  unfoldable pub process_all : List (ℕ × Event) → Exec (KeyedState W) Unit
  process_all [] = pure tt
  process_all ((now, ev) ∷ more) = do process_element now ev; process_all more

module _ {W : Type 0} (upsert_runtime_calls : List RuntimeEdgeUpdate → Exec W Unit) (now : ℕ) where
  -- The update is built from the last event; the count is the state's.
  abbrev edge_update : Event → Exec (KeyedState W) RuntimeEdgeUpdate
  edge_update ev = do
    service ← lift (item "service" ev.service)
    source_file ← lift (item "source_file" ev.source_file)
    source_line ← lift (item "source_line" ev.source_line)
    λ s. (
      ok (record {
        service = service;
        function_symbol = get_or_empty ev.function_symbol;
        source_file = source_file;
        source_line = source_line;
        caller_symbol = get_or_empty ev.caller_symbol;
        call_count_60s = or_zero s.call_count;
        timestamp = record { aware = true; moment = now };
      }),
      s,
    )

  abbrev write : RuntimeEdgeUpdate → Exec (KeyedState W) Unit
  write update s =
      let (r, database') = upsert_runtime_calls (update ∷ []) s.database in
      (r, record s { database = database' })

  abbrev reset_count : Exec (KeyedState W) Unit
  reset_count s = (ok tt, record s { call_count = some 0 })

  unfoldable pub flush_key : Event → Exec (KeyedState W) Unit
  flush_key ev = do update ← edge_update ev; try_except (write update) (λ e. pure tt); reset_count

  -- `on_timer`: a failed write is logged, and the count is reset all the same.
  unfoldable pub on_timer : Exec (KeyedState W) Unit
  unfolding flush_key
  on_timer s = elim s.last_event [
    | none ↦ (ok tt, s)
    | some ev ↦ if nat_beq (or_zero s.call_count) 0 then (ok tt, s) else flush_key ev s
  ]

  -- A second timer after a first that did not raise writes nothing and changes nothing.
  pub on_timer-on_timer :
      (s : KeyedState W)
      → (on_timer s).0 ≡ ok tt
      → on_timer (on_timer s).1 ≡ (ok tt, (on_timer s).1)
  unfolding on_timer
  on_timer-on_timer s h = ground arith

-- The counts of elements; an element without one gives nothing.
abbrev pub counts : List (ℕ × Event) → ℕ
counts [] = 0
counts ((now, ev) ∷ more) = or_zero ev.call_count_last_60s + counts more

module _ {W : Type 0} (flush_interval_s : ℕ) where
  -- A run of elements that does not raise adds up their counts.
  pub call_count-process_all :
      (elements : List (ℕ × Event)) (s : KeyedState W)
      → (process_all flush_interval_s elements s).0 ≡ ok tt
      → or_zero (process_all flush_interval_s elements s).1.call_count
        ≡ or_zero s.call_count + counts elements
  unfolding process_all process_element
  call_count-process_all [] s h = omega arith
  call_count-process_all ((now, ev) ∷ more) s h = elim (Option-cases ev.call_count_last_60s) [
    | inl missing ↦ ground (arith, missing)
    | inr (n, e) ↦ ground (
      arith,
      e,
      call_count-process_all more (record s {
        call_count = some (or_zero s.call_count + n);
        last_event = some ev;
        timers = (now + flush_interval_s * 1000) ∷ s.timers;
      }),
    )
  ]
