-- ===== src/Events/Tests.antt =====
-- Runs of an event log, and the theorems at one.
use kappa_registry.Prelude.{◌≡◌, ◌-◌, ◌+◌, ◌^◌, ◌<◌, refl, arith, some, none, [], ◌∷◌, Bytes, codes}
use kappa_registry.Dict.{get, insert, remove}
use kappa_registry.Events.{
  TagEvent, EventLog, new_log, set, max_events_per_namespace, with_sequence, events_of, push_event,
  emit, draw, push,
}
use kappa_registry.Events.{
  recent, reverse_events, since_sequence, retain_after, compact, compact_log, oldest_sequence,
  oldest_front,
}
use kappa_registry.Events.Numbers.{IsQueue}
use kappa_registry.Events.Bounds.{Reached, start, drawn, pushed, Reached-IsQueue}
use kappa_registry.Events.Last.{last}
use kappa_registry.Events.CatchUp.{
  Since, quiet, drawn as then_drawn, pushed as then_pushed, of_namespace, since_sequence-Since,
}

abbrev event : Bytes → Bytes → TagEvent
event namespace name = record {
  namespace = namespace;
  name = name;
  value = some (codes "sha256:abc");
  prev_value = none;
  epoch = 1;
  mtime_ms = 1234567890;
  operation = set;
  sequence = 0;
}

-- Two namespaces share the numbers.
abbrev log : EventLog
log =
    emit (emit (emit new_log (event (codes "ns1") (codes "a"))) (event (codes "ns2") (codes "b")))
      (event (codes "ns1") (codes "c"))

emit-Reached :
    {l : EventLog} (e : TagEvent)
    → l.next_sequence + 1 < 2 ^ 64
    → Reached [] l
    → Reached [] (emit l e)
unfolding emit
emit-Reached {l} e h r = pushed [] [] (draw l e).1 (drawn e h r)

log-Reached : Reached [] log
unfolding emit draw push
log-Reached =
    emit-Reached _ (omega arith) (emit-Reached _ (omega arith) (emit-Reached _ (omega arith) start))

recent_run : recent log (codes "ns1") 1 ≡ with_sequence (event (codes "ns1") (codes "c")) 3 ∷ []
unfolding recent reverse_events events_of emit draw push push_event with_sequence get insert remove
recent_run = refl

compact_run : (compact log 2).1 ≡ 2
unfolding compact compact_log retain_after events_of emit draw push push_event with_sequence get
    insert remove
compact_run = refl

oldest_run : oldest_sequence (compact log 1).0 ≡ 2
unfolding oldest_sequence oldest_front compact compact_log retain_after events_of emit draw push
    push_event with_sequence get insert remove
oldest_run = refl

since_run :
    since_sequence log (codes "ns2") 1 ≡ with_sequence (event (codes "ns2") (codes "b")) 2 ∷ []
unfolding since_sequence retain_after events_of emit draw push push_event with_sequence get insert
    remove
since_run = refl

abbrev first_event : TagEvent
first_event = event (codes "ns1") (codes "d")

abbrev second_event : TagEvent
second_event = event (codes "ns1") (codes "e")

-- Two calls that overlap: the second number is pushed first.
abbrev one_drawn : EventLog × TagEvent
one_drawn = draw log first_event

abbrev both_drawn : EventLog × TagEvent
both_drawn = draw one_drawn.0 second_event

abbrev half_way : EventLog
half_way = push both_drawn.0 both_drawn.1

abbrev overlapped : EventLog
overlapped = push half_way one_drawn.1

half_way-Reached : Reached (one_drawn.1 ∷ []) half_way
unfolding emit draw push
half_way-Reached =
    pushed [] (one_drawn.1 ∷ []) both_drawn.1
      (drawn second_event (omega arith) (drawn first_event (omega arith) log-Reached))

-- A client that asks half way is given number 5, and asks from 5 on later: it never gets number 4.
missed_run :
    (since_sequence half_way (codes "ns1") 3 ≡ with_sequence second_event 5 ∷ [])
    × (since_sequence overlapped (codes "ns1") 5 ≡ [])
    × (since_sequence overlapped (codes "ns1") 3
        ≡ with_sequence second_event 5 ∷ with_sequence first_event 4 ∷ [])
unfolding since_sequence retain_after events_of emit draw push push_event with_sequence get insert
    remove
missed_run = (refl, refl, refl)

Reached-IsQueue_example :
    IsQueue half_way.next_sequence (one_drawn.1 ∷ []) (events_of half_way.log (codes "ns1"))
Reached-IsQueue_example = Reached-IsQueue (one_drawn.1 ∷ []) half_way (codes "ns1") half_way-Reached

overlapped-Since : Since log [] (both_drawn.1 ∷ one_drawn.1 ∷ []) overlapped
unfolding emit draw push
overlapped-Since = then_pushed [] [] one_drawn.1 (
    then_pushed [] (one_drawn.1 ∷ []) both_drawn.1
      (then_drawn second_event (omega arith) (then_drawn first_event (omega arith) quiet)))

since_sequence-Since_example :
    since_sequence overlapped (codes "ns1") (log.next_sequence - 1)
    ≡ last max_events_per_namespace (of_namespace (codes "ns1") (both_drawn.1 ∷ one_drawn.1 ∷ []))
since_sequence-Since_example =
    since_sequence-Since log overlapped [] (both_drawn.1 ∷ one_drawn.1 ∷ []) (codes "ns1")
      log-Reached overlapped-Since
