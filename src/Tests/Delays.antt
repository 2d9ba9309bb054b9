-- ===== src/Tests/Delays.antt =====
-- Delays with decimal numbers of two places that are not negative, rounded down, for floating-point
-- ones.
use rfmpd.Base.{arith, refl, ℕ, ◌*◌, ◌+◌, ◌/◌, ◌≡◌, ◌≤◌}
use rfmpd.Timing.{
  Floats, Timing, new_timing, calculate_delay, calculate_sync_delay, calculate_fragment_delay,
  calculate_rebroadcast_delay,
}
use rfmpd.Base.Int.{pos}
use rfmpd.Timing.Nanoseconds.{◌+ℤ◌, ◌≤ℤ◌}
use rfmpd.Timing.Bounds.{IsBetween, delays_bounded}

times_down : (a b : ℕ) → a ≤ 100 → 0 ≤ b → a * b / 100 ≤ b
times_down a b h k = let p : a * b ≤ 100 * b = grind arith in omega (arith, p)

times_mono : (a b c : ℕ) → 0 ≤ c → a ≤ b → a * c / 100 ≤ b * c / 100
times_mono a b c k h = let p : a * c ≤ b * c = grind arith in omega (arith, p)

hundredths_mono : (a b : ℕ) → a ≤ b → pos (a / 100) ≤ℤ pos (b / 100)
unfolding ◌≤ℤ◌
hundredths_mono a b h = omega (arith, h)

abbrev hundredths : Floats ℕ
hundredths = record {
  le = λ a b. a ≤ b;
  plus = λ a b. a + b;
  times = λ a b. a * b / 100;
  nanoseconds = λ a. pos (a / 100);
  zero_float = 0;
  one = 100;
  two = 200;
  twentieth = 5;
  second = 100000000000;
  plus_up = λ a b h. omega (arith, h);
  plus_mono = λ a b c h. omega (arith, h);
  times_nonneg = λ a b h k. omega arith;
  times_down = times_down;
  times_mono = times_mono;
  nanoseconds_mono = hundredths_mono;
  two_nonneg = omega arith;
  twentieth_nonneg = omega arith;
  second_nonneg = omega arith;
  zero_seconds = refl;
  one_second = refl;
  two_seconds = refl;
  three_seconds = refl;
  twentieth_second = refl;
  tenth_second = refl;
}

-- half a second, and a jitter of two
abbrev timing : Timing ℕ
timing = new_timing 50 200

delays_bounded_example :
    IsBetween (pos 500000000) (calculate_delay hundredths 30 timing) (pos 2500000000)
    × IsBetween
        (calculate_delay hundredths 30 timing)
        (calculate_sync_delay hundredths 30 70 timing)
        (calculate_delay hundredths 30 timing +ℤ pos 2000000000)
    × IsBetween
        (calculate_delay hundredths 30 timing +ℤ pos 1000000000)
        (calculate_rebroadcast_delay hundredths 30 70 timing)
        (calculate_delay hundredths 30 timing +ℤ pos 3000000000)
    × (calculate_fragment_delay hundredths 30 0 timing ≡ calculate_delay hundredths 30 timing)
    × IsBetween (pos 50000000) (calculate_fragment_delay hundredths 30 4 timing) (pos 100000000)
unfolding new_timing
delays_bounded_example =
    delays_bounded hundredths timing 30 70 3 (omega arith, omega arith) (omega arith, omega arith)
      (omega arith)
