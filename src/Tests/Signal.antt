-- ===== src/Tests/Signal.antt =====
-- ai/signal/ at concrete inputs, over floats that are hundredths.
use mathlib.Core.List.{Memᴰ}
use smart_traffic_management.Common.{
  All-Memᴰ, List, Option, [], arith, lt→ltb, map, none, refl, some, true, ℕ, ◌*◌, ◌+◌, ◌∷◌, ◌≡◌,
  ◌≤◌,
}
use smart_traffic_management.Common.Float.{hundredths, hundredths-FloatOrder}
use smart_traffic_management.Signal.Emergency.{check_and_override}
use smart_traffic_management.Signal.Emergency.Preemption.{
  BoostLifts, HasPriority, emergency_ranks_first,
}
use smart_traffic_management.Signal.Fairness.{FairnessManager, apply_fairness, no_cycles}
use smart_traffic_management.Signal.Fairness.Counting.{apply_fairness-IsRanked, with_bonus}
use smart_traffic_management.Signal.Priority.{
  calculate, calculate-IsRanked, default_weights, weighed,
}
use smart_traffic_management.Signal.Ranking.{IsRanked}
use smart_traffic_management.Signal.Scheduler.{
  Scheduler, advance_after, build_decision, by_lane, first_candidate, in_demand, is_emergency,
  new_scheduler, returned, schedule, select_eligible,
}
use smart_traffic_management.Signal.Scheduler.Decision.{IsSafeDecision, schedule-IsSafeDecision}
use smart_traffic_management.Signal.Scheduler.Rotation.{Waits}
use smart_traffic_management.Signal.Scheduler.Selection.{IsChoice, select_eligible_sound}
use smart_traffic_management.Signal.Scheduler.Starvation.{Round, served_in_four, winners}
use smart_traffic_management.Signal.Types.{
  Lane, LaneId, LaneStatistics, PriorityResult, PriorityScore, SignalDecision, Stats, approach,
  no_statistics, north, south,
}

abbrev busy : Lane → ℕ → LaneId × LaneStatistics ℕ
busy lane count = (
  approach lane,
  record (no_statistics (approach lane)) { raw_count = count; pce_score = count * 100 },
)

abbrev urgent : Lane → ℕ → LaneId × LaneStatistics ℕ
urgent lane count = (
  approach lane,
  record (no_statistics (approach lane)) {
    raw_count = count;
    pce_score = count * 100;
    has_priority_vehicle = true;
  },
)

abbrev two_busy : Stats ℕ
two_busy = busy north 8 ∷ busy south 2 ∷ []

abbrev one_urgent : Stats ℕ
one_urgent = busy north 8 ∷ urgent south 2 ∷ []

abbrev fresh : List LaneId
fresh = approach north ∷ approach south ∷ []

abbrev calculated : Stats ℕ → PriorityResult ℕ
calculated stats = calculate default_weights stats 100

abbrev score_of_lane : Lane → ℕ → PriorityScore ℕ
score_of_lane lane score = record {
  lane = approach lane;
  score = score;
  rank = 1;
  breakdown = record {
    pce = score;
    queue = 0;
    congestion = 0;
    fairness_bonus = 0;
    raw_pce = score;
    raw_queue_sec = 0;
    raw_congestion_index = 0;
  };
}

abbrev two_scores : PriorityResult ℕ
two_scores = record {
  scores = score_of_lane north 360 ∷ score_of_lane south 90 ∷ [];
  highest_priority = some (score_of_lane north 360);
  timestamp = 100;
}

abbrev scheduler : Scheduler
scheduler = new_scheduler 10 60 3

abbrev round : Round ℕ
round = record { result = two_scores; lane_stats = two_busy; fresh_lanes = fresh }

south-Waits : Waits south two_scores two_busy fresh
unfolding in_demand is_emergency
south-Waits = record {
  score = score_of_lane south 90;
  scored = Memᴰ.tail (Memᴰ.head refl);
  of_lane = refl;
  demanded = refl;
  calm = refl;
}

served_in_four_example :
    Memᴰ (some (approach south)) (winners scheduler (round ∷ round ∷ round ∷ round ∷ []))
served_in_four_example =
    served_in_four scheduler south (round ∷ round ∷ round ∷ round ∷ []) (omega arith) (omega arith)
      (south-Waits, (south-Waits, (south-Waits, (south-Waits, tt))))

select_eligible_sound_example :
    IsChoice scheduler two_scores two_busy fresh
      (advance_after (approach north) scheduler)
      two_scores
unfolding select_eligible advance_after in_demand is_emergency by_lane first_candidate
select_eligible_sound_example =
    select_eligible_sound scheduler two_scores two_busy fresh
      (advance_after (approach north) scheduler) two_scores refl

schedule-IsSafeDecision_example :
    (d : SignalDecision ℕ) × (schedule scheduler (some two_scores) 7 100 ≡ returned d)
    × IsSafeDecision scheduler two_scores 7 d
schedule-IsSafeDecision_example =
    schedule-IsSafeDecision scheduler two_scores 7 100 (omega arith) (λ e. cc)

abbrev no_result : Option (PriorityResult ℕ)
no_result = none

-- An emergency boost of 1000.00.
boost_lifts : BoostLifts 100000 two_scores one_urgent
boost_lifts x y m n has lacks =
    let small = All-Memᴰ (λ s. PriorityScore.score s ≤ 360) two_scores.scores (omega arith) n in
    lt→ltb y.score (x.score + 100000) (omega arith)

emergency_ranks_first_example :
    (w : PriorityScore ℕ) × ((check_and_override 100000 two_scores one_urgent 100).highest_priority
      ≡ some w)
    × HasPriority one_urgent w.lane
emergency_ranks_first_example =
    emergency_ranks_first 100000 two_scores one_urgent hundredths-FloatOrder 100
      (score_of_lane south 90) (Memᴰ.tail (Memᴰ.head refl))
      ((urgent south 2).1, Memᴰ.tail (Memᴰ.head refl), refl) boost_lifts

calculate-IsRanked_example :
    IsRanked (map (weighed default_weights) two_busy) (calculate default_weights two_busy 100)
calculate-IsRanked_example = calculate-IsRanked hundredths-FloatOrder default_weights two_busy 100

abbrev fairness : FairnessManager ℕ
fairness = record {
  bonus_per_cycle = 500;
  max_fairness_bonus = 2500;
  cycles_since_served = no_cycles;
}

apply_fairness-IsRanked_example :
    IsRanked (map (with_bonus fairness) two_scores.scores) (apply_fairness fairness two_scores 100)
apply_fairness-IsRanked_example =
    apply_fairness-IsRanked hundredths-FloatOrder fairness two_scores 100 (λ e. cc)

abbrev decision : SignalDecision ℕ
decision = build_decision scheduler (score_of_lane north 360) 22 two_scores 1 100
