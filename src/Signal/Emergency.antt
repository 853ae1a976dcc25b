-- ===== src/Signal/Emergency.antt =====
-- ai/signal/emergency_override.py: lanes with a priority vehicle get a boost and are ranked again.
pub mod Preemption
use smart_traffic_management.Common.{Bool, true, false, List, [], ◌∷◌, any, if◌then◌else◌}
use smart_traffic_management.Common.Equality.{beq}
use smart_traffic_management.Common.Float.{Float}
use smart_traffic_management.Signal.Types.{
  LaneId, PriorityScore, PriorityResult, LaneStatistics, Stats, or_now, lane_id_eq_inst,
}
use smart_traffic_management.Signal.Ranking.{rank_scores}

module _ {F : Type 0} where
  -- The lanes whose statistics have a priority vehicle.
  unfoldable pub emergency_lanes : Stats F → List LaneId
  emergency_lanes [] = []
  emergency_lanes ((lane, stats) ∷ rest) =
      let others = emergency_lanes rest in
      if stats.has_priority_vehicle then lane ∷ others else others

  abbrev pub is_listed : List LaneId → PriorityScore F → Bool
  is_listed lanes s = any (beq s.lane) lanes

module _ {F : Type 0} ⦃fl : Float F⦄ where
  -- The score plus the boost; the breakdown is copied.
  unfoldable pub boosted : F → PriorityScore F → PriorityScore F
  boosted boost s = record s { score = fl.round2 (fl.add s.score boost); rank = 0 }

  unfoldable pub overridden : F → List LaneId → List (PriorityScore F) → List (PriorityScore F)
  unfolding boosted
  overridden boost lanes [] = []
  overridden boost lanes (s ∷ rest) =
      (if is_listed lanes s then boosted boost s else s) ∷ overridden boost lanes rest

  abbrev pub override :
      F → PriorityResult F → List (PriorityScore F) → List LaneId → F → PriorityResult F
  override boost result [] lanes now = result
  override boost result (s ∷ scores) [] now = result
  override boost result (s ∷ scores) (lane ∷ lanes) now =
      rank_scores (overridden boost (lane ∷ lanes) (s ∷ scores)) (or_now result.timestamp now)

  -- A result of None is handed back as it is; the callers always have one.
  unfoldable pub check_and_override : F → PriorityResult F → Stats F → F → PriorityResult F
  unfolding emergency_lanes overridden rank_scores
  check_and_override boost result lane_stats now =
      override boost result result.scores (emergency_lanes lane_stats) now
