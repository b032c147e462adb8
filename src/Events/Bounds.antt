-- ===== src/Events/Bounds.antt =====
-- How many events a namespace keeps, and their sequence numbers, where calls of `emit` overlap.
use kappa_registry.Prelude.{ℕ, ◌+◌, ◌^◌, ◌%◌, ◌≤◌, ◌<◌, ◌≡◌, arith}
use kappa_registry.Prelude.{List, [], ◌∷◌, ◌++◌, Bytes, Option-cases, inl, inr}
use kappa_registry.Dict.{Dict, get, bytes_key, AllValues, AllValues-get, AllValues-insert}
use kappa_registry.Events.{
  TagEvent, EventLog, new_log, with_sequence, events_of, draw, push, compact_log, compact,
}
use kappa_registry.Events.Numbers.{
  occurrences, Drawn, IsQueue, Drawn-until, occurrences-append, retain_after-keeps,
  retain_after-fewer, length-retain_after, push_event-IsQueue, occurrences_fresh, Drawn-remove,
}

AllValues-map :
    {P Q : List TagEvent → Type 0} (log : Dict Bytes (List TagEvent))
    → ((events : List TagEvent) → P events → Q events)
    → AllValues P log
    → AllValues Q log
AllValues-map [] f q = tt
AllValues-map ((namespace, events) ∷ log) f (p, q) = (f events p, AllValues-map log f q)

-- A log, with the events that have a number and wait for the lock.
pub record IsLog (pending : List TagEvent) (l : EventLog) : Type 0 where
  pub first : 1 ≤ l.next_sequence
  pub waiting : Drawn l.next_sequence pending
  pub once : (n : ℕ) → occurrences n pending ≤ 1
  pub queues : AllValues (IsQueue l.next_sequence pending) l.log

pub events_of-IsQueue :
    (pending : List TagEvent) (l : EventLog) (namespace : Bytes)
    → IsLog pending l
    → IsQueue l.next_sequence pending (events_of l.log namespace)
unfolding events_of occurrences
events_of-IsQueue pending l namespace i = elim (Option-cases (get l.log namespace)) [
  | inl e ↦ rw (events_of, e) (omega arith, tt, λ n. omega (arith, i.once n))
  | inr (events, e) ↦ rw (events_of, e) (AllValues-get _ l.log namespace events i.queues e)
]

draw-IsLog :
    (pending : List TagEvent) (l : EventLog) (e : TagEvent)
    → l.next_sequence + 1 < 2 ^ 64
    → IsLog pending l
    → IsLog ((draw l e).1 ∷ pending) (draw l e).0
unfolding draw with_sequence occurrences
draw-IsLog pending l e h i =
    let n = l.next_sequence in
    let next : (n + 1) % 2 ^ 64 ≡ n + 1 = omega arith in
    let later : n ≤ (n + 1) % 2 ^ 64 = omega arith in
    record {
      first = omega (arith, i.first);
      waiting = ((i.first, omega arith), Drawn-until n _ pending later i.waiting);
      once = λ k.
          omega (arith, occurrences_fresh k n [] pending tt i.waiting (omega (arith, i.once k)));
      queues =
          AllValues-map l.log
            (λ events (m, d, o). (
              m,
              Drawn-until n _ events later d,
              λ k. occurrences_fresh k n events pending d i.waiting (o k),
            ))
            i.queues;
    }

push-IsLog :
    (before after : List TagEvent) (l : EventLog) (e : TagEvent)
    → IsLog (before ++ (e ∷ after)) l
    → IsLog (before ++ after) (push l e)
unfolding push occurrences
push-IsLog before after l e i =
    let n = l.next_sequence in
    let (left, one) = Drawn-remove n before after e i.waiting in
    let fewer : (k : ℕ) → occurrences k (before ++ after) ≤ occurrences k (before ++ (e ∷ after)) =
      λ k.
        omega (arith, occurrences-append k before after, occurrences-append k before (e ∷ after)) in
    let others =
      AllValues-map {Q = IsQueue n (before ++ after)} l.log
        (λ events (m, d, o). (m, d, λ k. omega (arith, o k, fewer k))) i.queues in
    let own = events_of-IsQueue (before ++ (e ∷ after)) l e.namespace i in
    record {
      first = i.first;
      waiting = left;
      once = λ k. omega (arith, i.once k, fewer k);
      queues =
          AllValues-insert (IsQueue n (before ++ after)) l.log e.namespace _
            (push_event-IsQueue n before after (events_of l.log e.namespace) e own one) others;
    }

compact_log-IsQueue :
    (n after : ℕ) (pending : List TagEvent) (log : Dict Bytes (List TagEvent))
    → AllValues (IsQueue n pending) log
    → AllValues (IsQueue n pending) (compact_log after log).0
unfolding compact_log
compact_log-IsQueue n after pending [] q = tt
compact_log-IsQueue n after pending ((namespace, events) ∷ log) ((m, d, once), q) = (
  (
    omega (arith, length-retain_after after events),
    retain_after-keeps after n events d,
    λ k. omega (arith, once k, retain_after-fewer after k events),
  ),
  compact_log-IsQueue n after pending log q,
)

-- A new log after steps of calls of `emit`, which may overlap in any way, and calls of `compact`; and the
-- events that have a number and wait for the lock. The numbers stay below 2^64.
pub data Reached : List TagEvent → EventLog → Type 0 where
  start : Reached [] new_log
  drawn :
      {pending : List TagEvent} {l : EventLog} (e : TagEvent)
      → l.next_sequence + 1 < 2 ^ 64
      → Reached pending l
      → Reached ((draw l e).1 ∷ pending) (draw l e).0
  pushed :
      (before after : List TagEvent) {l : EventLog} (e : TagEvent)
      → Reached (before ++ (e ∷ after)) l
      → Reached (before ++ after) (push l e)
  compacted :
      {pending : List TagEvent} {l : EventLog} (after : ℕ)
      → Reached pending l
      → Reached pending (compact l after).0

pub Reached-IsLog : {pending : List TagEvent} {l : EventLog} → Reached pending l → IsLog pending l
unfolding compact occurrences
Reached-IsLog start = record {
  first = omega arith;
  waiting = tt;
  once = λ n. omega arith;
  queues = tt;
}
Reached-IsLog (drawn e h r) = draw-IsLog _ _ e h (Reached-IsLog r)
Reached-IsLog (pushed before after e r) = push-IsLog before after _ e (Reached-IsLog r)
Reached-IsLog (compacted after r) =
    let i = Reached-IsLog r in
    record {
      first = i.first;
      waiting = i.waiting;
      once = i.once;
      queues = compact_log-IsQueue _ after _ _ i.queues;
    }

-- While fewer than 2^64 numbers are given out: after any steps of calls of `emit`, which may overlap in
-- any way, and of calls of `compact`, a namespace has at most 10,000 events; their sequence numbers are
-- from 1 on and below the next one, and no two of them, nor one of them and one that waits for the lock,
-- have the same number.
pub Reached-IsQueue :
    (pending : List TagEvent) (l : EventLog) (namespace : Bytes)
    → Reached pending l
    → IsQueue l.next_sequence pending (events_of l.log namespace)
Reached-IsQueue pending l namespace r = events_of-IsQueue pending l namespace (Reached-IsLog r)
