-- ===== src/Signal/Scheduler.antt =====
-- ai/signal/signal_scheduler.py: the clockwise service cursor, the choice of the next approach, the
-- green duration and the decision. `time.time()` is the argument `now`.
pub mod Timing
pub mod Selection
pub mod Rotation
pub mod Starvation
pub mod Decision
use smart_traffic_management.Common.{
  ℕ, zero, suc, ◌+◌, ◌%◌, Bool, true, false, not, ◌&&◌, ◌||◌, Option, none, some, List, [], ◌∷◌,
  map, ltb, if◌then◌else◌, any, filter, head?, is_some,
}
use smart_traffic_management.Common.Equality.{beq}
use smart_traffic_management.Common.Dict.{Dict, get, put}
use smart_traffic_management.Common.Float.{
  Float, ℤ, pos, negsuc, of_ℕ, fl_zero, fl_max, fl_min, sum_from,
}
use smart_traffic_management.Signal.Types.{
  Lane, north, south, east, west, LaneId, approach, other, normal, PriorityScore, PriorityResult,
  SignalDecision, LaneStatistics, or_now, Stats, lane_id_eq_inst,
}

pub record Scheduler : Type 0 where
  pub min_green_sec : ℕ
  pub max_green_sec : ℕ
  pub yellow_sec : ℕ
  pub next_cycle_index : ℕ

abbrev pub new_scheduler : ℕ → ℕ → ℕ → Scheduler
new_scheduler min_green_sec max_green_sec yellow_sec = record {
  min_green_sec = min_green_sec;
  max_green_sec = max_green_sec;
  yellow_sec = yellow_sec;
  next_cycle_index = 0;
}

-- `ValueError`, or the value.
pub data Outcome (A : Type 0) : Type 0 where
  value_error : Outcome A
  returned : A → Outcome A

-- `cycle_order[i]`, for i < 4
unfoldable pub lane_at : ℕ → Lane
lane_at zero = north
lane_at (suc zero) = east
lane_at (suc (suc zero)) = south
lane_at (suc (suc (suc n))) = west

-- The index of a lane in `cycle_order`.
unfoldable pub position : Lane → ℕ
position north = 0
position east = 1
position south = 2
position west = 3

unfoldable pub advance_after : LaneId → Scheduler → Scheduler
unfolding position
advance_after (approach lane) s = record s { next_cycle_index = (position lane + 1) % 4 }
advance_after (other name) s = s

-- `max(lo, min(hi, n))`
unfoldable pub clamp : ℕ → ℕ → ℤ → ℕ
clamp lo hi (negsuc n) = lo
clamp lo hi (pos n) =
    let capped = if ltb n hi then n else hi in if ltb lo capped then capped else lo

module _ {F : Type 0} ⦃fl : Float F⦄ where
  -- `s in demand`: fresh, with statistics, and not empty
  unfoldable pub in_demand : Stats F → List LaneId → PriorityScore F → Bool
  in_demand lane_stats fresh_lanes s =
      any (beq s.lane) fresh_lanes
      && elim (get s.lane lane_stats) [ none ↦ false | some stats ↦ ltb 0 stats.raw_count ]

  unfoldable pub is_emergency : Stats F → PriorityScore F → Bool
  is_emergency lane_stats s = elim (get s.lane lane_stats) [
    | none ↦ false
    | some stats ↦ stats.has_priority_vehicle
  ]

  -- `max(scores, key=score)`: the first of the greatest
  unfoldable pub max_score : PriorityScore F → List (PriorityScore F) → PriorityScore F
  max_score best [] = best
  max_score best (s ∷ rest) = max_score (if fl.lt best.score s.score then s else best) rest

  -- `{key(score): score for score in demand}`: the last score of a lane stays
  unfoldable pub by_lane :
      Dict LaneId (PriorityScore F) → List (PriorityScore F) → Dict LaneId (PriorityScore F)
  by_lane d [] = d
  by_lane d (s ∷ rest) = by_lane (put s.lane s d) rest

  -- The loop over `offset`, with the number of offsets left.
  unfoldable pub first_candidate :
      Dict LaneId (PriorityScore F) → ℕ → ℕ → ℕ → Option (PriorityScore F)
  unfolding lane_at
  first_candidate d next zero offset = none
  first_candidate d next (suc left) offset =
      let rest = first_candidate d next left (offset + 1) in
      elim (get (approach (lane_at ((next + offset) % 4))) d) [
        | some candidate ↦ some candidate
        | none ↦ rest
      ]

  -- The winner is recorded in the result, and the cursor moves behind it.
  abbrev pub grant :
      Scheduler → PriorityResult F → PriorityScore F → Scheduler × Option (PriorityResult F)
  grant s result winner =
      (advance_after winner.lane s, some (record result { highest_priority = some winner }))

  abbrev pub grant_next :
      Scheduler
      → PriorityResult F
      → Option (PriorityScore F)
      → Scheduler × Option (PriorityResult F)
  grant_next s result none = (s, none)
  grant_next s result (some winner) = grant s result winner

  -- The choice among the lanes in demand: `emergency` first, then the cycle.
  abbrev pub choose :
      Scheduler
      → PriorityResult F
      → List (PriorityScore F)
      → List (PriorityScore F)
      → Scheduler × Option (PriorityResult F)
  choose s result [] emergency = (s, none)
  choose s result (d ∷ demand) (e ∷ rest) = grant s result (max_score e rest)
  choose s result (d ∷ demand) [] =
      grant_next s result (first_candidate (by_lane [] (d ∷ demand)) s.next_cycle_index 4 0)

  -- The second value of the pair that the source returns is always False and is left out.
  unfoldable pub select_eligible :
      Scheduler → PriorityResult F → Stats F → List LaneId → Scheduler × Option (PriorityResult F)
  select_eligible s result lane_stats fresh_lanes =
      let demand = filter (in_demand lane_stats fresh_lanes) result.scores in
      choose s result demand (filter (is_emergency lane_stats) demand)

  unfoldable pub demand_ratio : PriorityScore F → List (PriorityScore F) → F
  demand_ratio winner scores =
      let pce = fl_max fl_zero winner.breakdown.raw_pce in
      let queue_sec = fl_max fl_zero winner.breakdown.raw_queue_sec in
      let load_ratio = fl_min (fl.lit 100) (fl.div pce (fl.lit 2000)) in
      let queue_ratio = fl_min (fl.lit 100) (fl.div queue_sec (fl.lit 12000)) in
      let total = sum_from fl_zero (map (λ s. fl_max fl_zero (PriorityScore.score s)) scores) in
      if fl.lt fl_zero pce || fl.lt fl_zero queue_sec
      then fl.add (fl.mul (fl.lit 75) load_ratio) (fl.mul (fl.lit 25) queue_ratio)
      else if fl.lt fl_zero total || fl.lt total fl_zero
      then fl.div (fl_max fl_zero winner.score) total
      else fl_zero

  unfoldable pub calculate_green_time : Scheduler → PriorityScore F → PriorityResult F → ℕ
  unfolding clamp demand_ratio
  calculate_green_time s winner result =
      let ratio = demand_ratio winner result.scores in
      let span = fl.sub (of_ℕ s.max_green_sec) (of_ℕ s.min_green_sec) in
      if not (fl.lt fl_zero winner.score)
      then s.min_green_sec
      else clamp s.min_green_sec s.max_green_sec
          (fl.round (fl.add (of_ℕ s.min_green_sec) (fl.mul ratio span)))

  -- `[s.lane for s in scores if s.lane != winner.lane]`
  unfoldable pub red_lanes_of : LaneId → List (PriorityScore F) → List LaneId
  red_lanes_of green scores =
      map (λ s. PriorityScore.lane s) (filter (λ s. not (beq (PriorityScore.lane s) green)) scores)

  unfoldable pub build_decision :
      Scheduler → PriorityScore F → ℕ → PriorityResult F → ℕ → F → SignalDecision F
  unfolding red_lanes_of
  build_decision s winner green result phase now = record {
    phase_id = phase;
    green_lane = winner.lane;
    green_duration_sec = green;
    yellow_duration_sec = s.yellow_sec;
    red_lanes = red_lanes_of winner.lane result.scores;
    priority_score = winner.score;
    reason = normal;
    timestamp = or_now result.timestamp now;
  }

  -- `highest_priority`, or else the first score
  unfoldable pub select_green_lane : Option (PriorityScore F) → PriorityScore F → PriorityScore F
  select_green_lane (some winner) first = winner
  select_green_lane none first = first

  abbrev pub schedule_scores :
      Scheduler → PriorityResult F → List (PriorityScore F) → ℕ → F → Outcome (SignalDecision F)
  schedule_scores s result [] phase now = value_error
  schedule_scores s result (first ∷ rest) phase now =
      let winner = select_green_lane result.highest_priority first in
      returned (build_decision s winner (calculate_green_time s winner result) result phase now)

  unfoldable pub schedule :
      Scheduler → Option (PriorityResult F) → ℕ → F → Outcome (SignalDecision F)
  unfolding calculate_green_time build_decision select_green_lane
  schedule s none phase now = value_error
  schedule s (some result) phase now = schedule_scores s result result.scores phase now
