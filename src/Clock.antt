-- ===== src/Clock.antt =====
-- crates/kappa-core/src/clock/ntp_lamport.rs: the hybrid clock. The system's time in milliseconds is
-- an argument of each reading.
pub mod Monotonic
mod Tests
use kappa_registry.Prelude.{ℕ, zero, suc, ◌+◌, ◌*◌, ◌%◌, ◌^◌, ltb, if◌then◌else◌, List, [], ◌∷◌}

pub record ClockState : Type 0 where
  pub last_physical_ms : ℕ
  pub logical : ℕ

unfoldable pub new_clock : ClockState
new_clock = record { last_physical_ms = 0; logical = 0 }

unfoldable pub tick : ℕ → ClockState → ClockState
tick physical state =
    if ltb state.last_physical_ms physical
    then record { last_physical_ms = physical; logical = 0 }
    else record {
      last_physical_ms = state.last_physical_ms;
      logical = (state.logical + 1) % 2 ^ 32;
    }

-- `(state.last_physical_ms << 16) | (state.logical as u64 & 0xFFFF)`: the low 16 bits of the shifted
-- number are zero, so that `|` adds.
unfoldable pub encoded : ClockState → ℕ
encoded state = (state.last_physical_ms * 2 ^ 16) % 2 ^ 64 + state.logical % 2 ^ 16

unfoldable pub now_ms : ℕ → ClockState → ClockState × ℕ
now_ms physical state = let state' = tick physical state in (state', encoded state')

-- The readings at a sequence of system times.
unfoldable pub readings : List ℕ → ClockState → List ℕ
readings [] state = []
readings (physical ∷ times) state =
    let read = now_ms physical state in read.1 ∷ readings times read.0
