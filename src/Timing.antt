-- ===== src/Timing.antt =====
-- internal/sync/timing.go: the random delays before a transmission, and the counters.
-- The arithmetic of `float64` is the interface `Floats`, a draw of `rand.Float64` an argument.
-- Durations are signed numbers of nanoseconds, within the range of `time.Duration`. `Nanoseconds` is
-- their arithmetic, and `Bounds` proves how long each delay is. The queue takes a delay as seconds
-- of its own, which the definitions of the daemon have as an argument.
pub mod Nanoseconds
pub mod Bounds
use rfmpd.Base.{Option, if◌then◌else◌, none, some, ℕ, ◌+◌, ◌==◌, ◌≡◌}
use rfmpd.Base.Int.{ℤ, pos}
use rfmpd.Timing.Nanoseconds.{◌+ℤ◌, ◌≤ℤ◌}

-- The operations on `float64` that the delays use, at finite values and within the range of a
-- `Duration`. The laws say that rounding is monotone, and how long the constants of the file are:
-- their products with the nanoseconds of a second are whole numbers once they are rounded.
pub record Floats (Float : Type 0) : Type 1 where
  pub le : Float → Float → Type 0
  pub plus : Float → Float → Float
  pub times : Float → Float → Float
  pub nanoseconds : Float → ℤ
  -- 0, 1.0, 2.0, 0.05 and the nanoseconds of a second
  pub zero_float : Float
  pub one : Float
  pub two : Float
  pub twentieth : Float
  pub second : Float
  pub plus_up : (a b : Float) → le zero_float b → le a (plus a b)
  pub plus_mono : (a b c : Float) → le b c → le (plus a b) (plus a c)
  pub times_nonneg : (a b : Float) → le zero_float a → le zero_float b → le zero_float (times a b)
  pub times_down : (a b : Float) → le a one → le zero_float b → le (times a b) b
  pub times_mono : (a b c : Float) → le zero_float c → le a b → le (times a c) (times b c)
  pub nanoseconds_mono : (a b : Float) → le a b → nanoseconds a ≤ℤ nanoseconds b
  pub two_nonneg : le zero_float two
  pub twentieth_nonneg : le zero_float twentieth
  pub second_nonneg : le zero_float second
  pub zero_seconds : nanoseconds (times zero_float second) ≡ pos 0
  pub one_second : nanoseconds (times one second) ≡ pos 1000000000
  pub two_seconds : nanoseconds (times two second) ≡ pos 2000000000
  pub three_seconds : nanoseconds (times (plus one two) second) ≡ pos 3000000000
  pub twentieth_second : nanoseconds (times twentieth second) ≡ pos 50000000
  pub tenth_second : nanoseconds (times (plus twentieth twentieth) second) ≡ pos 100000000

pub record Timing (Float : Type 0) : Type 0 where
  pub base_delay : Float
  pub jitter : Float
  pub transmissions : ℕ
  -- `none` is the zero time
  pub last_transmit : Option ℕ

unfoldable pub new_timing : {Float : Type 0} → Float → Float → Timing Float
new_timing base_delay jitter = record {
  base_delay = base_delay;
  jitter = jitter;
  transmissions = 0;
  last_transmit = none;
}

module _ {Float : Type 0} (floats : Floats Float) where
  -- `time.Duration` of a number of seconds
  abbrev pub duration : Float → ℤ
  duration s = floats.nanoseconds (floats.times s floats.second)

  unfoldable pub calculate_delay : Float → Timing Float → ℤ
  calculate_delay draw t = duration (floats.plus t.base_delay (floats.times draw t.jitter))

  unfoldable pub calculate_sync_delay : Float → Float → Timing Float → ℤ
  calculate_sync_delay draw more t =
      calculate_delay draw t +ℤ duration (floats.times more floats.two)

  unfoldable pub calculate_fragment_delay : Float → ℕ → Timing Float → ℤ
  calculate_fragment_delay draw index t =
      if index == 0
      then calculate_delay draw t
      else duration (floats.plus floats.twentieth (floats.times draw floats.twentieth))

  unfoldable pub calculate_rebroadcast_delay : Float → Float → Timing Float → ℤ
  calculate_rebroadcast_delay draw more t =
      calculate_delay draw t +ℤ duration (floats.plus floats.one (floats.times more floats.two))

unfoldable pub record_transmission : {Float : Type 0} → ℕ → Timing Float → Timing Float
record_transmission now t = record t {
  transmissions = t.transmissions + 1;
  last_transmit = some now;
}

-- `GetStats`, with the time as it is
pub record TimingStats (Float : Type 0) : Type 0 where
  pub base_delay : Float
  pub jitter : Float
  pub transmissions : ℕ
  pub last_transmit : Option ℕ

unfoldable pub get_stats : {Float : Type 0} → Timing Float → TimingStats Float
get_stats t = record {
  base_delay = t.base_delay;
  jitter = t.jitter;
  transmissions = t.transmissions;
  last_transmit = t.last_transmit;
}
