-- ===== src/Clock/Monotonic.antt =====
-- Readings of the clock grow, whatever the system's time does.
use kappa_registry.Prelude.{ℕ, ◌^◌, ◌<◌}
use kappa_registry.Prelude.{List, [], ◌∷◌}
use kappa_registry.Clock.{ClockState, tick}

-- Each number is greater than the one before it, the first one greater than `bound`.
abbrev pub Increasing : ℕ → List ℕ → Type 0
Increasing bound [] = Unit {0}
Increasing bound (t ∷ ts) = (bound < t) × Increasing t ts

-- The logical counter stays below 2 ^ 16 in the states of the readings at these times.
abbrev pub Fits : List ℕ → ClockState → Type 0
Fits [] s = Unit {0}
Fits (t ∷ ts) s = ((tick t s).logical < 2 ^ 16) × Fits ts (tick t s)
