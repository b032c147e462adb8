-- ===== src/Events/CatchUp.antt =====
-- What a client that knows the events up to a number is given later, where calls of `emit` overlap.
use kappa_registry.Prelude.{
  ℕ, zero, suc, ◌+◌, ◌-◌, ◌^◌, ◌≤◌, ◌<◌, ◌≡◌, refl, sym, ap, ◌∙◌, subst, arith, leb, if◌then◌else◌,
}
use kappa_registry.Prelude.{
  List, [], ◌∷◌, ◌++◌, append_assoc, append-nil, Bytes, bytes_eq, bytes_eq_iff, length,
  length-append, drop, Bool-cases, lt-cases, inl, inr, All, All-append,
}
use kappa_registry.Dict.{insert, bytes_key, get-insert}
use kappa_registry.Events.{
  TagEvent, EventLog, max_events_per_namespace, with_sequence, events_of, push_event, draw, push,
  retain_after, since_sequence,
}
use kappa_registry.Events.Numbers.{Drawn}
use kappa_registry.Events.Bounds.{Reached, Reached-IsQueue, Reached-IsLog}
use kappa_registry.Events.Last.{
  last, drop-append, drop-append_right, last-last_append, last_short, length-last,
}

-- The events of a namespace, in order.
unfoldable pub of_namespace : Bytes → List TagEvent → List TagEvent
of_namespace namespace [] = []
of_namespace namespace (e ∷ events) =
    let rest = of_namespace namespace events in
    if bytes_eq e.namespace namespace then e ∷ rest else rest

-- What steps of calls of `emit`, which may overlap in any way, make of the log `from`: the events that
-- have a number and wait for the lock, and those that were pushed, in the order of the pushes.
pub data Since (from : EventLog) : List TagEvent → List TagEvent → EventLog → Type 0 where
  quiet : Since from [] [] from
  drawn :
      {pending done : List TagEvent} {l : EventLog} (e : TagEvent)
      → l.next_sequence + 1 < 2 ^ 64
      → Since from pending done l
      → Since from ((draw l e).1 ∷ pending) done (draw l e).0
  pushed :
      (before after : List TagEvent) {done : List TagEvent} {l : EventLog} (e : TagEvent)
      → Since from (before ++ (e ∷ after)) done l
      → Since from (before ++ after) (done ++ (e ∷ [])) (push l e)

-- Numbers from `n` on.
abbrev IsNew : ℕ → List TagEvent → Type 0
IsNew n events = All (λ e. n ≤ e.sequence) events

push_event-last :
    (events : List TagEvent) (e : TagEvent)
    → length events ≤ max_events_per_namespace
    → push_event events e ≡ last max_events_per_namespace (events ++ (e ∷ []))
unfolding push_event
push_event-last events e h = elim (Bool-cases (leb max_events_per_namespace (length events))) [
  | inl full ↦
      let k : length (events ++ (e ∷ [])) - max_events_per_namespace ≡ 1 =
        ground (arith, length-append events (e ∷ [])) in
      rw (full, k) (sym (drop-append 1 events (e ∷ []) (ground arith)))
  | inr free ↦
      let k : length (events ++ (e ∷ [])) - max_events_per_namespace ≡ 0 =
        ground (arith, length-append events (e ∷ [])) in
      rw (free, k) refl
]

events_of-insert :
    (l : EventLog) (namespace : Bytes) (events : List TagEvent) (other : Bytes)
    → events_of (insert l.log namespace events) other
      ≡ (if bytes_eq namespace other then events else events_of l.log other)
unfolding events_of
events_of-insert l namespace events other = elim (Bool-cases (bytes_eq namespace other)) [
  | inl same ↦ rw (events_of, get-insert l.log namespace other events, same) refl
  | inr differ ↦ rw (events_of, get-insert l.log namespace other events, differ) refl
]

of_namespace-append :
    (namespace : Bytes) (xs ys : List TagEvent)
    → of_namespace namespace (xs ++ ys) ≡ of_namespace namespace xs ++ of_namespace namespace ys
unfolding of_namespace
of_namespace-append namespace [] ys = refl
of_namespace-append namespace (x ∷ xs) ys = ground (arith, of_namespace-append namespace xs ys)

of_namespace-IsNew :
    (n : ℕ) (namespace : Bytes) (events : List TagEvent)
    → IsNew n events
    → IsNew n (of_namespace namespace events)
unfolding of_namespace
of_namespace-IsNew n namespace [] d = tt
of_namespace-IsNew n namespace (e ∷ events) (d, ds) =
    elim (Bool-cases (bytes_eq e.namespace namespace)) [
      | inl same ↦ rw same (d, of_namespace-IsNew n namespace events ds)
      | inr other ↦ rw other (of_namespace-IsNew n namespace events ds)
    ]

-- One push, for every namespace.
events_of-push :
    (l : EventLog) (e : TagEvent) (namespace : Bytes)
    → length (events_of l.log e.namespace) ≤ max_events_per_namespace
    → length (events_of l.log namespace) ≤ max_events_per_namespace
    → events_of (push l e).log namespace
      ≡ last max_events_per_namespace (events_of l.log namespace ++ of_namespace namespace (e ∷ []))
unfolding push of_namespace
events_of-push l e namespace own short = elim (Bool-cases (bytes_eq e.namespace namespace)) [
  | inl same ↦
      let name = (bytes_eq_iff e.namespace namespace).0 same in
      rw (push, events_of-insert l e.namespace _ namespace, same)
        (ap (λ a. push_event (events_of l.log a) e) name
          ∙ push_event-last (events_of l.log namespace) e short)
  | inr other ↦
      rw
        (
          push,
          events_of-insert l e.namespace _ namespace,
          other,
          append-nil (events_of l.log namespace),
        )
        (sym (last_short max_events_per_namespace (events_of l.log namespace) short))
]

-- What a namespace holds after the steps.
events_of-Since :
    (from l : EventLog) (pending done : List TagEvent) (namespace : Bytes)
    → ((a : Bytes) → length (events_of from.log a) ≤ max_events_per_namespace)
    → Since from pending done l
    → events_of l.log namespace
      ≡ last max_events_per_namespace (events_of from.log namespace ++ of_namespace namespace done)
unfolding draw of_namespace
events_of-Since from l pending done namespace short quiet =
    rw (append-nil (events_of from.log namespace))
      (sym (last_short max_events_per_namespace (events_of from.log namespace) (short namespace)))
events_of-Since from l pending done namespace short (drawn {pending = ps} {l = l'} e h r) =
    events_of-Since from l' ps done namespace short r
events_of-Since from l pending done namespace short (pushed before after {done = ds} {l = l'} e r) =
    let holds = λ (a : Bytes). events_of-Since from l' (before ++ (e ∷ after)) ds a short r in
    let fits = λ (a : Bytes).
      subst (λ t. length t ≤ max_events_per_namespace) (sym (holds a))
        (length-last max_events_per_namespace (events_of from.log a ++ of_namespace a ds)) in
    let old = events_of from.log namespace in
    let earlier = of_namespace namespace ds in
    let one = of_namespace namespace (e ∷ []) in
    events_of-push l' e namespace (fits e.namespace) (fits namespace)
    ∙ ap (λ t. last max_events_per_namespace (t ++ one)) (holds namespace)
    ∙ last-last_append max_events_per_namespace (old ++ earlier) one
    ∙ ap (last max_events_per_namespace) (
        append_assoc old earlier one
        ∙ ap (λ t. old ++ t) (sym (of_namespace-append namespace ds (e ∷ []))))

IsNew-remove :
    (n : ℕ) (before after : List TagEvent) (e : TagEvent)
    → IsNew n (before ++ (e ∷ after))
    → IsNew n (before ++ after) × (n ≤ e.sequence)
IsNew-remove n [] after e (d, ds) = (ds, d)
IsNew-remove n (x ∷ before) after e (d, ds) =
    let (rest, one) = IsNew-remove n before after e ds in ((d, rest), one)

-- The numbers drawn since are from the next one of `from` on.
Since-IsNew :
    (from l : EventLog) (pending done : List TagEvent)
    → Since from pending done l
    → (from.next_sequence ≤ l.next_sequence)
      × IsNew from.next_sequence pending
      × IsNew from.next_sequence done
unfolding draw push with_sequence
Since-IsNew from l pending done quiet = (omega arith, tt, tt)
Since-IsNew from l pending done (drawn {pending = ps} {l = l'} e h r) =
    let (later, waiting, old) = Since-IsNew from l' ps done r in
    (omega arith, (later, waiting), old)
Since-IsNew from l pending done (pushed before after {done = ds} {l = l'} e r) =
    let (later, waiting, old) = Since-IsNew from l' (before ++ (e ∷ after)) ds r in
    let (left, one) = IsNew-remove from.next_sequence before after e waiting in
    (later, left, All-append _ ds (e ∷ []) old (one, tt))

retain_after_old :
    (n : ℕ) (events : List TagEvent) → Drawn n events → retain_after (n - 1) events ≡ []
unfolding retain_after
retain_after_old n [] d = refl
retain_after_old n (e ∷ events) ((b, a), d) = ground (arith, retain_after_old n events d)

retain_after_new :
    (n : ℕ) (events : List TagEvent) → 1 ≤ n → IsNew n events → retain_after (n - 1) events ≡ events
unfolding retain_after
retain_after_new n [] h d = refl
retain_after_new n (e ∷ events) h (b, d) = ground (arith, retain_after_new n events h d)

retain_after-append :
    (after : ℕ) (xs ys : List TagEvent)
    → retain_after after (xs ++ ys) ≡ retain_after after xs ++ retain_after after ys
unfolding retain_after
retain_after-append after [] ys = refl
retain_after-append after (x ∷ xs) ys = ground (arith, retain_after-append after xs ys)

All-drop :
    (P : TagEvent → Type 0) (k : ℕ) (events : List TagEvent) → All P events → All P (drop k events)
All-drop P zero events a = a
All-drop P (suc k) [] a = a
All-drop P (suc k) (e ∷ events) (b, a) = All-drop P k events a

-- Of the last events of an old and a new list, those after the old ones are the last of the new list.
retain_after-last :
    (n m : ℕ) (old new : List TagEvent)
    → 1 ≤ n
    → Drawn n old
    → IsNew n new
    → retain_after (n - 1) (last m (old ++ new)) ≡ last m new
retain_after-last n m old new h a a' =
    let k = length (old ++ new) - m in
    elim (lt-cases (length old) k) [
      | inl past ↦
          let count : k - length old ≡ length new - m = omega (arith, length-append old new) in
          let cut = drop-append_right k old new (omega arith) ∙ ap (λ j. drop j new) count in
          rw cut (retain_after_new n (last m new) h (All-drop _ (length new - m) new a'))
      | inr within ↦
          let cut = drop-append k old new within in
          let whole = last_short m new (omega (arith, length-append old new)) in
          rw
            (
              cut,
              retain_after-append (n - 1) (drop k old) new,
              retain_after_old n (drop k old) (All-drop _ k old a),
              whole,
            )
            (retain_after_new n new h a')
    ]

-- While fewer than 2^64 numbers are given out, and without a compaction in between: a client that asks from
-- the number before the next one on, at a moment when no event with a number waits for the lock, is given
-- after any steps of calls of `emit`, which may overlap in any way, exactly the events that were pushed to
-- its namespace since that moment, in the order of the pushes; of more than 10,000 it gets the last 10,000.
pub since_sequence-Since :
    (from l : EventLog) (pending done : List TagEvent) (namespace : Bytes)
    → Reached [] from
    → Since from pending done l
    → since_sequence l namespace (from.next_sequence - 1)
      ≡ last max_events_per_namespace (of_namespace namespace done)
unfolding since_sequence
since_sequence-Since from l pending done namespace r steps =
    let i = Reached-IsLog r in
    let (short, old, _) = Reached-IsQueue [] from namespace r in
    let (_, _, new) = Since-IsNew from l pending done steps in
    let holds =
      events_of-Since from l pending done namespace (λ a. (Reached-IsQueue [] from a r).0) steps in
    ap (retain_after (from.next_sequence - 1)) holds
    ∙ retain_after-last from.next_sequence max_events_per_namespace (events_of from.log namespace)
        (of_namespace namespace done) i.first old
        (of_namespace-IsNew from.next_sequence namespace done new)
