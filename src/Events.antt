-- ===== src/Events.antt =====
-- crates/kappa-core/src/events.rs: the event log in memory. Its lock is held through each call but for the
-- counter of `emit`, which is drawn from before the lock is taken: `emit` is two steps, and steps of other
-- calls can come between them. The counter is 64 bits.
pub mod Numbers
pub mod Bounds
pub mod Last
pub mod CatchUp
mod Tests
use kappa_registry.Prelude.{ℕ, ◌+◌, ◌-◌, ◌%◌, ◌^◌, ltb, leb, Bool, true, false, if◌then◌else◌}
use kappa_registry.Prelude.{
  Option, none, some, List, [], ◌∷◌, ◌++◌, Bytes, codes, length, take, drop,
}
use kappa_registry.Dict.{Dict, get, insert, bytes_key}

pub data TagEventOp : Type 0 where
  set delete set_if batch_item symbolic : TagEventOp

-- `TagEventOp::as_str`
unfoldable pub op_str : TagEventOp → Bytes
op_str set = codes "tag_set"
op_str delete = codes "tag_delete"
op_str set_if = codes "tag_set_if"
op_str batch_item = codes "tag_batch_item"
op_str symbolic = codes "tag_symbolic"

pub record TagEvent : Type 0 where
  pub namespace : Bytes
  pub name : Bytes
  pub value : Option Bytes
  pub prev_value : Option Bytes
  pub epoch : ℕ
  pub mtime_ms : ℕ
  pub operation : TagEventOp
  pub sequence : ℕ

abbrev pub max_events_per_namespace : ℕ
max_events_per_namespace = 10000

pub record EventLog : Type 0 where
  pub log : Dict Bytes (List TagEvent)
  pub next_sequence : ℕ

abbrev pub new_log : EventLog
new_log = record { log = []; next_sequence = 1 }

-- `event.sequence = ..`
unfoldable pub with_sequence : TagEvent → ℕ → TagEvent
with_sequence event n = record {
  namespace = event.namespace;
  name = event.name;
  value = event.value;
  prev_value = event.prev_value;
  epoch = event.epoch;
  mtime_ms = event.mtime_ms;
  operation = event.operation;
  sequence = n;
}

-- `log.entry(..).or_default()`, and `log.get(..)` with the default of the queries.
unfoldable pub events_of : Dict Bytes (List TagEvent) → Bytes → List TagEvent
events_of log namespace = elim (get log namespace) [ none ↦ [] | some events ↦ events ]

-- The eviction of the front at the limit, and the new event at the back.
unfoldable pub push_event : List TagEvent → TagEvent → List TagEvent
push_event events event =
    (if leb max_events_per_namespace (length events) then drop 1 events else events) ++ (event ∷ [])

-- The first step of `emit`, before the lock is taken: `fetch_add` gives the event its number.
unfoldable pub draw : EventLog → TagEvent → EventLog × TagEvent
draw l event = (
  record { log = l.log; next_sequence = (l.next_sequence + 1) % 2 ^ 64 },
  with_sequence event l.next_sequence,
)

-- The second step, under the lock.
unfoldable pub push : EventLog → TagEvent → EventLog
push l event = record {
  log = insert l.log event.namespace (push_event (events_of l.log event.namespace) event);
  next_sequence = l.next_sequence;
}

-- Both steps with none of another call between them.
unfoldable pub emit : EventLog → TagEvent → EventLog
emit l event = let drawn = draw l event in push drawn.0 drawn.1

unfoldable pub reverse_events : List TagEvent → List TagEvent
reverse_events [] = []
reverse_events (e ∷ events) = reverse_events events ++ (e ∷ [])

unfoldable pub recent : EventLog → Bytes → ℕ → List TagEvent
recent l namespace limit = take limit (reverse_events (events_of l.log namespace))

-- `filter(|e| e.sequence > after)`
unfoldable pub retain_after : ℕ → List TagEvent → List TagEvent
retain_after after [] = []
retain_after after (e ∷ events) =
    let rest = retain_after after events in if ltb after e.sequence then e ∷ rest else rest

unfoldable pub since_sequence : EventLog → Bytes → ℕ → List TagEvent
since_sequence l namespace after = retain_after after (events_of l.log namespace)

-- `for events in log.values_mut()`: the tables after it, and the number of events removed.
unfoldable pub compact_log : ℕ → Dict Bytes (List TagEvent) → Dict Bytes (List TagEvent) × ℕ
compact_log after [] = ([], 0)
compact_log after ((namespace, events) ∷ log) =
    let rest = compact_log after log in
    let kept = retain_after after events in
    ((namespace, kept) ∷ rest.0, (length events - length kept) + rest.1)

unfoldable pub compact : EventLog → ℕ → EventLog × ℕ
compact l after =
    let compacted = compact_log after l.log in
    (record { log = compacted.0; next_sequence = l.next_sequence }, compacted.1)

-- `.min()` over the first events, where there is one.
unfoldable pub oldest_front : Dict Bytes (List TagEvent) → Option ℕ
oldest_front [] = none
oldest_front ((namespace, []) ∷ log) = oldest_front log
oldest_front ((namespace, e ∷ events) ∷ log) = elim (oldest_front log) [
  | none ↦ some e.sequence
  | some n ↦ if ltb e.sequence n then some e.sequence else some n
]

unfoldable pub oldest_sequence : EventLog → ℕ
oldest_sequence l = elim (oldest_front l.log) [ none ↦ 0 | some n ↦ n ]
