-- ===== src/Events/Numbers.antt =====
-- Numbers of events that were given out, each to one event.
use kappa_registry.Prelude.{ℕ, ◌+◌, ◌≤◌, ◌<◌, ◌≡◌, refl, arith, leb, ltb}
use kappa_registry.Prelude.{
  List, [], ◌∷◌, ◌++◌, length, length-append, drop, length-drop, Bool-cases, inl, inr, All,
  All-append, ◌==◌, if◌then◌else◌,
}
use kappa_registry.Dict.{bytes_key}
use kappa_registry.Events.{TagEvent, max_events_per_namespace, push_event, retain_after}

-- How many of the events have a number.
unfoldable pub occurrences : ℕ → List TagEvent → ℕ
occurrences n [] = 0
occurrences n (e ∷ events) = (if e.sequence == n then 1 else 0) + occurrences n events

-- Numbers that were given out: from 1 on, and before the next one.
abbrev pub Drawn : ℕ → List TagEvent → Type 0
Drawn until events = All (λ e. (1 ≤ e.sequence) × (e.sequence < until)) events

-- The events of a namespace, while others are on their way: at most 10,000, with numbers that were given
-- out, and no number is that of two events of these and the ones on their way.
abbrev pub IsQueue : ℕ → List TagEvent → List TagEvent → Type 0
IsQueue until pending events =
    (length events ≤ max_events_per_namespace)
    × Drawn until events
    × ((n : ℕ) → occurrences n events + occurrences n pending ≤ 1)

pub Drawn-until :
    (until until' : ℕ) (events : List TagEvent)
    → until ≤ until'
    → Drawn until events
    → Drawn until' events
Drawn-until until until' [] h d = tt
Drawn-until until until' (e ∷ events) h ((b, a), d) =
    ((b, omega arith), Drawn-until until until' events h d)

pub occurrences-append :
    (n : ℕ) (xs ys : List TagEvent) → occurrences n (xs ++ ys) ≡ occurrences n xs + occurrences n ys
unfolding occurrences
occurrences-append n [] ys = omega arith
occurrences-append n (x ∷ xs) ys = omega (arith, occurrences-append n xs ys)

occurrences_new :
    (n until : ℕ) (events : List TagEvent)
    → Drawn until events
    → until ≤ n
    → occurrences n events ≡ 0
unfolding occurrences
occurrences_new n until [] d h = refl
occurrences_new n until (e ∷ events) ((b, a), d) h =
    ground (arith, occurrences_new n until events d h)

occurrences-drop :
    (n : ℕ) (events : List TagEvent) → occurrences n (drop 1 events) ≤ occurrences n events
unfolding occurrences
occurrences-drop n [] = omega arith
occurrences-drop n (e ∷ events) = ground arith

Drawn-drop : (until : ℕ) (events : List TagEvent) → Drawn until events → Drawn until (drop 1 events)
Drawn-drop until [] d = d
Drawn-drop until (e ∷ events) (b, d) = d

pub retain_after-keeps :
    (after until : ℕ) (events : List TagEvent)
    → Drawn until events
    → Drawn until (retain_after after events)
unfolding retain_after
retain_after-keeps after until [] d = d
retain_after-keeps after until (e ∷ events) (b, d) = elim (Bool-cases (ltb after e.sequence)) [
  | inl later ↦ rw later (b, retain_after-keeps after until events d)
  | inr old ↦ rw old (retain_after-keeps after until events d)
]

pub retain_after-fewer :
    (after n : ℕ) (events : List TagEvent)
    → occurrences n (retain_after after events) ≤ occurrences n events
unfolding retain_after occurrences
retain_after-fewer after n [] = omega arith
retain_after-fewer after n (e ∷ events) = ground (arith, retain_after-fewer after n events)

pub length-retain_after :
    (after : ℕ) (events : List TagEvent) → length (retain_after after events) ≤ length events
unfolding retain_after
length-retain_after after [] = omega arith
length-retain_after after (e ∷ events) = ground (arith, length-retain_after after events)

-- An event on its way gets to the back of the queue of its namespace.
pub push_event-IsQueue :
    (until : ℕ) (before after events : List TagEvent) (e : TagEvent)
    → IsQueue until (before ++ (e ∷ after)) events
    → Drawn until (e ∷ [])
    → IsQueue until (before ++ after) (push_event events e)
unfolding push_event occurrences
push_event-IsQueue until before after events e (short, d, once) (de, _) =
    elim (Bool-cases (leb max_events_per_namespace (length events))) [
      | inl full ↦ rw full (
        ground (arith, length-append (drop 1 events) (e ∷ []), length-drop 1 events),
        All-append _ (drop 1 events) (e ∷ []) (Drawn-drop until events d) (de, tt),
        λ n. omega (
          arith,
          once n,
          occurrences-drop n events,
          occurrences-append n (drop 1 events) (e ∷ []),
          occurrences-append n before (e ∷ after),
          occurrences-append n before after,
        ),
      )
      | inr free ↦ rw free (
        ground (arith, length-append events (e ∷ [])),
        All-append _ events (e ∷ []) d (de, tt),
        λ n. omega (
          arith,
          once n,
          occurrences-append n events (e ∷ []),
          occurrences-append n before (e ∷ after),
          occurrences-append n before after,
        ),
      )
    ]

pub occurrences_fresh :
    (k n : ℕ) (events pending : List TagEvent)
    → Drawn n events
    → Drawn n pending
    → occurrences k events + occurrences k pending ≤ 1
    → occurrences k events + ((if n == k then 1 else 0) + occurrences k pending) ≤ 1
occurrences_fresh k n events pending d w once = elim (Bool-cases (n == k)) [
  | inl same ↦
      let equal : n ≤ k = ground arith in
      rw same
        (omega (arith, occurrences_new k n events d equal, occurrences_new k n pending w equal))
  | inr other ↦ rw other (omega (arith, once))
]

pub Drawn-remove :
    (until : ℕ) (before after : List TagEvent) (e : TagEvent)
    → Drawn until (before ++ (e ∷ after))
    → Drawn until (before ++ after) × Drawn until (e ∷ [])
Drawn-remove until [] after e (d, ds) = (ds, (d, tt))
Drawn-remove until (x ∷ before) after e (d, ds) =
    let (rest, one) = Drawn-remove until before after e ds in ((d, rest), one)
