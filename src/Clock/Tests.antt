-- ===== src/Clock/Tests.antt =====
-- A system time that goes back, and the theorem at it.
use kappa_registry.Prelude.{ℕ, ◌≡◌, refl, List, [], ◌∷◌}
use kappa_registry.Clock.{new_clock, tick, encoded, now_ms, readings}

abbrev times : List ℕ
times = 5 ∷ 5 ∷ 3 ∷ 6 ∷ []

times_run : readings times new_clock ≡ 327680 ∷ 327681 ∷ 327682 ∷ 393216 ∷ []
unfolding readings now_ms tick encoded new_clock
times_run = refl

-- The counter at its end: the reading goes back.
wrapped_run :
    ((now_ms 5 (record { last_physical_ms = 5; logical = 65534 })).1 ≡ 393215)
    × ((now_ms 5 (record { last_physical_ms = 5; logical = 65535 })).1 ≡ 327680)
unfolding now_ms tick encoded
wrapped_run = (refl, refl)
