-- ===== src/Timing/Bounds.antt =====
-- How long the delays are.
use rfmpd.Base.{arith, false, refl, subst, suc, ℕ, ◌==◌, ◌≡◌}
use rfmpd.Base.Int.{ℤ, pos}
use rfmpd.Timing.{
  Floats, Timing, duration, calculate_delay, calculate_sync_delay, calculate_fragment_delay,
  calculate_rebroadcast_delay,
}
use rfmpd.Timing.Nanoseconds.{◌+ℤ◌, ◌≤ℤ◌, add_mono, add_up}

abbrev pub IsBetween : ℤ → ℤ → ℤ → Type 0
IsBetween low d high = (low ≤ℤ d) × (d ≤ℤ high)

IsBetween-same : (low d high l h : ℤ) → low ≡ l → high ≡ h → IsBetween low d high → IsBetween l d h
IsBetween-same low d high l h p q b = subst (λ z. IsBetween z d h) p (subst (IsBetween low d) q b)

module _ {Float : Type 0} (floats : Floats Float) where
  -- a draw of `rand.Float64`
  abbrev pub IsDraw : Float → Type 0
  IsDraw x = floats.le floats.zero_float x × floats.le x floats.one

  duration_mono : (a b : Float) → floats.le a b → duration floats a ≤ℤ duration floats b
  duration_mono a b h =
      floats.nanoseconds_mono _ _ (floats.times_mono a b floats.second floats.second_nonneg h)

  -- a random part on top of a fixed one
  spread :
      (base draw part : Float)
      → IsDraw draw
      → floats.le floats.zero_float part
      → IsBetween
          (duration floats base)
          (duration floats (floats.plus base (floats.times draw part)))
          (duration floats (floats.plus base part))
  spread base draw part (low, high) h = (
    duration_mono base (floats.plus base (floats.times draw part))
        (floats.plus_up base (floats.times draw part) (floats.times_nonneg draw part low h)),
    duration_mono (floats.plus base (floats.times draw part)) (floats.plus base part)
        (floats.plus_mono base (floats.times draw part) part (floats.times_down draw part high h)),
  )

  -- With a jitter of 0 or more, and draws between 0 and 1: `CalculateDelay` gives from the base
  -- delay to the base delay and the whole jitter, which may be negative as the base delay may;
  -- the delay of a vector clock is at most two seconds longer, and that of a rebroadcast longer by
  -- one to three seconds. A first fragment has the delay of a transmission, and each other one,
  -- whatever the configuration, from 0.05 to 0.1 seconds.
  pub delays_bounded :
      (t : Timing Float) (draw more : Float) (index : ℕ)
      → IsDraw draw
      → IsDraw more
      → floats.le floats.zero_float t.jitter
      → IsBetween
          (duration floats t.base_delay)
          (calculate_delay floats draw t)
          (duration floats (floats.plus t.base_delay t.jitter))
        × IsBetween
            (calculate_delay floats draw t)
            (calculate_sync_delay floats draw more t)
            (calculate_delay floats draw t +ℤ pos 2000000000)
        × IsBetween
            (calculate_delay floats draw t +ℤ pos 1000000000)
            (calculate_rebroadcast_delay floats draw more t)
            (calculate_delay floats draw t +ℤ pos 3000000000)
        × (calculate_fragment_delay floats draw 0 t ≡ calculate_delay floats draw t)
        × IsBetween
            (pos 50000000)
            (calculate_fragment_delay floats draw (suc index) t)
            (pos 100000000)
  unfolding calculate_delay calculate_sync_delay calculate_rebroadcast_delay
      calculate_fragment_delay
  delays_bounded t draw more index h k j =
      let s : (suc index == 0) ≡ false = ground arith in
      let d = duration floats (floats.plus t.base_delay (floats.times draw t.jitter)) in
      let extra = duration floats (floats.times more floats.two) in
      let e : IsBetween (pos 0) extra (pos 2000000000) =
        IsBetween-same _ extra _ _ _ floats.zero_seconds floats.two_seconds (
          duration_mono floats.zero_float (floats.times more floats.two)
              (floats.times_nonneg more floats.two k.0 floats.two_nonneg),
          duration_mono (floats.times more floats.two) floats.two
              (floats.times_down more floats.two k.1 floats.two_nonneg),
        ) in
      let r =
        IsBetween-same _ _ _ _ _ floats.one_second floats.three_seconds
          (spread floats.one more floats.two k floats.two_nonneg) in
      (
        spread t.base_delay draw t.jitter h j,
        (add_up d extra e.0, add_mono d extra (pos 2000000000) e.1),
        (add_mono d _ _ r.0, add_mono d _ _ r.1),
        refl,
        rw s (
            IsBetween-same _ _ _ _ _ floats.twentieth_second floats.tenth_second
              (spread floats.twentieth draw floats.twentieth h floats.twentieth_nonneg)),
      )
