-- ===== src/Clock.antt =====
-- internal/clock/clock.go: Clock, the interface to the wall clock, with its adapter Func and the clock
-- System. time.Now is a parameter; a reading may change the world.
use gklog.Base.{ℕ, Option, none, some}

-- The interface, with its method Now.
pub record Clock (W : Type 0) : Type 0 where
  pub now : W → ℕ × W

-- Func(f), whose Now calls f.
abbrev pub func : {W : Type 0} → (W → ℕ × W) → Clock W
func f = record { now = λ w. f w }

abbrev pub system : {W : Type 0} → (time_now : W → ℕ × W) → Clock W
system time_now = func time_now

-- `if clock == nil { clock = clock.System }`
abbrev pub or_system : {W : Type 0} → (time_now : W → ℕ × W) → Option (Clock W) → Clock W
or_system time_now none = system time_now
or_system time_now (some clock) = clock
