-- ===== src/Signal/Fairness.antt =====
-- ai/signal/fairness_manager.py: waiting counters, and the capped bonus that they give.
pub mod Counting
use smart_traffic_management.Common.{
  ℕ, suc, ◌+◌, Bool, true, List, [], ◌∷◌, or_default, if◌then◌else◌, not,
}
use smart_traffic_management.Common.Equality.{beq}
use smart_traffic_management.Common.Dict.{Dict, get, put, contains}
use smart_traffic_management.Common.Float.{Float, of_ℕ, fl_min}
use smart_traffic_management.Signal.Types.{
  LaneId, approach, north, south, east, west, PriorityScore, PriorityResult, or_now,
  lane_id_eq_inst,
}
use smart_traffic_management.Signal.Ranking.{rank_scores}

pub record FairnessManager (F : Type 0) : Type 0 where
  pub bonus_per_cycle : F
  pub max_fairness_bonus : F
  pub cycles_since_served : Dict LaneId ℕ

abbrev pub no_cycles : Dict LaneId ℕ
no_cycles = (approach north, 0) ∷ (approach south, 0) ∷ (approach east, 0) ∷ (approach west, 0) ∷ []

-- The loop over the counters: the served lane's is reset, every other grows.
unfoldable pub recount : LaneId → Dict LaneId ℕ → Dict LaneId ℕ
recount green [] = []
recount green ((lane, n) ∷ rest) = (lane, if beq lane green then 0 else n + 1) ∷ recount green rest

-- A lane that has no counter gets one first.
unfoldable pub with_counter : LaneId → Dict LaneId ℕ → Dict LaneId ℕ
with_counter green cycles = if contains green cycles then cycles else put green 0 cycles

module _ {F : Type 0} where
  unfoldable pub update_served : LaneId → FairnessManager F → FairnessManager F
  unfolding recount with_counter
  update_served green m = record m {
    cycles_since_served = recount green (with_counter green m.cycles_since_served);
  }

module _ {F : Type 0} ⦃fl : Float F⦄ where
  unfoldable pub fairness_bonus_of : FairnessManager F → LaneId → F
  fairness_bonus_of m lane =
      let wait_cycles = or_default (get lane m.cycles_since_served) 0 in
      fl_min (fl.mul (of_ℕ wait_cycles) m.bonus_per_cycle) m.max_fairness_bonus

  unfoldable pub adjusted : FairnessManager F → PriorityScore F → PriorityScore F
  unfolding fairness_bonus_of
  adjusted m s =
      let bonus = fairness_bonus_of m s.lane in
      record {
        lane = s.lane;
        score = fl.round2 (fl.add s.score bonus);
        rank = 0;
        breakdown = record (s.breakdown) { fairness_bonus = fl.round2 bonus };
      }

  unfoldable pub adjusted_scores :
      FairnessManager F → List (PriorityScore F) → List (PriorityScore F)
  unfolding adjusted
  adjusted_scores m [] = []
  adjusted_scores m (s ∷ rest) = adjusted m s ∷ adjusted_scores m rest

  abbrev rank_adjusted :
      FairnessManager F → PriorityResult F → List (PriorityScore F) → F → PriorityResult F
  rank_adjusted m result [] now = result
  rank_adjusted m result (s ∷ rest) now =
      rank_scores (adjusted_scores m (s ∷ rest)) (or_now result.timestamp now)

  -- A result of None is handed back as it is; the callers always have one.
  unfoldable pub apply_fairness : FairnessManager F → PriorityResult F → F → PriorityResult F
  unfolding adjusted_scores rank_scores
  apply_fairness m result now = rank_adjusted m result result.scores now
