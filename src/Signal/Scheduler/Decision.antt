-- ===== src/Signal/Scheduler/Decision.antt =====
-- The decisions of `SignalScheduler.schedule` in ai/signal/signal_scheduler.py.
use mathlib.Core.List.{Memᴰ}
use mathlib.Core.List.Memᴰ
use smart_traffic_management.Common.{
  ℕ, ◌≤◌, ◌≡◌, ◌≢◌, refl, ◌↔◌, sym, not, Option, none, some, List, [], ◌∷◌, map, arith, filter,
  Memᴰ-filter, filter-Memᴰ,
}
use smart_traffic_management.Common.Equality.{beq, beq_ne, eq→beq}
use smart_traffic_management.Common.Float.{Float}
use smart_traffic_management.Signal.Types.{
  LaneId, PriorityScore, PriorityResult, SignalDecision, lane_id_eq_inst,
}
use smart_traffic_management.Signal.Scheduler.{
  Scheduler, value_error, returned, red_lanes_of, build_decision, schedule, calculate_green_time,
  select_green_lane,
}
use smart_traffic_management.Signal.Scheduler.Timing.{calculate_green_time_bounds}

module _ {F : Type 0} ⦃fl : Float F⦄ where
  abbrev pub lanes_of : List (PriorityScore F) → List LaneId
  lanes_of scores = map (λ s. PriorityScore.lane s) scores

  red_sound :
      (green k : LaneId) (scores : List (PriorityScore F))
      → Memᴰ k (red_lanes_of green scores)
      → Memᴰ k (lanes_of scores) × (k ≢ green)
  unfolding red_lanes_of
  red_sound green k scores m =
      let kept = filter (λ s. not (beq (PriorityScore.lane s) green)) scores in
      let (x, there, e) = Memᴰ.of_map (λ s. PriorityScore.lane s) kept m in
      let (inside, tested) =
        Memᴰ-filter (λ s. not (beq (PriorityScore.lane s) green)) x scores there in
      (
        Memᴰ.cast (sym e) (Memᴰ.map (λ s. PriorityScore.lane s) inside),
        λ same. ground (arith, eq→beq x.lane green, e, same, tested),
      )

  red_complete :
      (green : LaneId) (x : PriorityScore F) (scores : List (PriorityScore F))
      → Memᴰ x scores
      → x.lane ≢ green
      → Memᴰ x.lane (red_lanes_of green scores)
  unfolding red_lanes_of
  red_complete green x scores m ne =
      Memᴰ.map (λ s. PriorityScore.lane s)
        (filter-Memᴰ (λ s. not (beq (PriorityScore.lane s) green)) scores m
          (rw (beq_ne x.lane green ne)))

  -- What a decision promises of the scores that it is made from.
  pub record IsSafeDecision (s : Scheduler) (result : PriorityResult F) (phase : ℕ)
      (d : SignalDecision F) : Type 0 where
    pub at_least : s.min_green_sec ≤ d.green_duration_sec
    pub at_most : d.green_duration_sec ≤ s.max_green_sec
    pub yellow : d.yellow_duration_sec ≡ s.yellow_sec
    pub numbered : d.phase_id ≡ phase
    pub green_not_red : ¬ Memᴰ d.green_lane d.red_lanes
    pub others_red :
        (x : PriorityScore F)
        → Memᴰ x result.scores
        → x.lane ≢ d.green_lane
        → Memᴰ x.lane d.red_lanes

  -- From a result with scores, `schedule` returns a decision in which the green lane is not red,
  -- every other scored lane is red, and the durations are the configured ones and in bounds.
  pub schedule-IsSafeDecision :
      (s : Scheduler) (result : PriorityResult F) (phase : ℕ) (now : F)
      → s.min_green_sec ≤ s.max_green_sec
      → result.scores ≢ []
      → (d : SignalDecision F) × (schedule s (some result) phase now ≡ returned d)
        × IsSafeDecision s result phase d
  unfolding schedule
  schedule-IsSafeDecision s result phase now h ne = go result.scores refl
    where
      go :
          (scores : List (PriorityScore F))
          → result.scores ≡ scores
          → (d : SignalDecision F) × (schedule s (some result) phase now ≡ returned d)
            × IsSafeDecision s result phase d
      go [] e = absurd (ne e)
      go (first ∷ rest) e =
          let winner = select_green_lane result.highest_priority first in
          let green = calculate_green_time s winner result in
          let bounds = calculate_green_time_bounds s winner result h in
          (
            build_decision s winner green result phase now,
            rw e,
            record {
              at_least = bounds.0;
              at_most = bounds.1;
              yellow = refl;
              numbered = refl;
              green_not_red = λ m. (red_sound winner.lane winner.lane result.scores m).1 refl;
              others_red = λ x m d. red_complete winner.lane x result.scores m d;
            },
          )

  -- `schedule` raises `ValueError` without a result, or without scores in it.
  pub schedule_raises :
      (s : Scheduler) (o : Option (PriorityResult F)) (phase : ℕ) (now : F)
      → (schedule s o phase now ≡ value_error)
        ↔ ((result : PriorityResult F) → o ≡ some result → result.scores ≡ [])
  unfolding schedule
  schedule_raises s none phase now = (λ _ r e. cc, λ _. refl)
  schedule_raises s (some result) phase now = go result.scores refl
    where
      go :
          (scores : List (PriorityScore F))
          → result.scores ≡ scores
          → (schedule s (some result) phase now ≡ value_error)
            ↔ ((r : PriorityResult F) → some result ≡ some r → r.scores ≡ [])
      go [] e = (λ _ r p. cc, λ _. rw e)
      go (first ∷ rest) e = (λ p. cc, λ all. cc (all result refl))
