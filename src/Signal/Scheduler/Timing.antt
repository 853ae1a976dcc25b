-- ===== src/Signal/Scheduler/Timing.antt =====
-- The green duration of ai/signal/signal_scheduler.py lies between the configured bounds.
use smart_traffic_management.Common.{ℕ, ◌≤◌, arith, Bool-cases, inl, inr}
use smart_traffic_management.Common.Float.{Float, ℤ, pos, negsuc, fl_zero}
use smart_traffic_management.Signal.Types.{PriorityScore, PriorityResult}
use smart_traffic_management.Signal.Scheduler.{Scheduler, clamp, calculate_green_time}

clamp_bounds : (lo hi : ℕ) (z : ℤ) → lo ≤ hi → (lo ≤ clamp lo hi z) × (clamp lo hi z ≤ hi)
unfolding clamp
clamp_bounds lo hi (pos n) h = ground arith
clamp_bounds lo hi (negsuc n) h = ground arith

module _ {F : Type 0} ⦃fl : Float F⦄ (s : Scheduler) (winner : PriorityScore F) where
  -- Whatever the scores and statistics are, the green duration lies between the minimum and the
  -- maximum, if the minimum is not above the maximum.
  pub calculate_green_time_bounds :
      (result : PriorityResult F)
      → s.min_green_sec ≤ s.max_green_sec
      → (s.min_green_sec ≤ calculate_green_time s winner result)
        × (calculate_green_time s winner result ≤ s.max_green_sec)
  unfolding calculate_green_time
  calculate_green_time_bounds result h = elim (Bool-cases (fl.lt fl_zero winner.score)) [
    | inl e ↦ rw e (clamp_bounds s.min_green_sec s.max_green_sec _ h)
    | inr e ↦ rw e (omega arith, h)
  ]
