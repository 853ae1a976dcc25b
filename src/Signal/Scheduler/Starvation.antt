-- ===== src/Signal/Scheduler/Starvation.antt =====
-- Successive selections of ai/signal/signal_scheduler.py, over the results, statistics and fresh
-- lanes that each one is given.
use mathlib.Core.List.{Memᴰ}
use smart_traffic_management.Common.{
  ◌≤◌, ◌<◌, sym, ap, inl, inr, Option, none, some, List, [], ◌∷◌, arith, length, All,
}
use smart_traffic_management.Common.Float.{Float}
use smart_traffic_management.Signal.Types.{
  Lane, LaneId, approach, PriorityScore, PriorityResult, Stats,
}
use smart_traffic_management.Signal.Scheduler.{Scheduler, select_eligible, advance_after}
use smart_traffic_management.Signal.Scheduler.Rotation.{turns, Waits, select_eligible-Nearer}

-- What one call of `select_eligible` is given.
pub record Round (F : Type 0) : Type 0 where
  pub result : PriorityResult F
  pub lane_stats : Stats F
  pub fresh_lanes : List LaneId

module _ {F : Type 0} where
  abbrev lane_of : Option (PriorityScore F) → Option LaneId
  lane_of none = none
  lane_of (some w) = some w.lane

  abbrev winner_lane : Option (PriorityResult F) → Option LaneId
  winner_lane none = none
  winner_lane (some r) = lane_of r.highest_priority

module _ {F : Type 0} ⦃fl : Float F⦄ where
  -- The lanes that successive calls select.
  abbrev pub winners : Scheduler → List (Round F) → List (Option LaneId)
  winners s [] = []
  winners s (r ∷ rounds) =
      let (s', selected) = select_eligible s r.result r.lane_stats r.fresh_lanes in
      winner_lane selected ∷ winners s' rounds

  abbrev pub WaitsIn : Lane → Round F → Type 0
  WaitsIn lane r = Waits lane r.result r.lane_stats r.fresh_lanes

  served_within :
      (s : Scheduler) (lane : Lane) (rounds : List (Round F))
      → s.next_cycle_index < 4
      → turns s.next_cycle_index lane < length rounds
      → All (WaitsIn lane) rounds
      → Memᴰ (some (approach lane)) (winners s rounds)
  served_within s lane [] h k a = absurd (omega arith)
  served_within s lane (r ∷ rounds) h k (now, later) =
      let n = select_eligible-Nearer s lane r.result r.lane_stats r.fresh_lanes h now in
      rw n.selected (elim n.progress [
        | inl e ↦ Memᴰ.head (sym (ap (λ l. some l) e))
        | inr lt ↦ Memᴰ.tail (
            served_within (advance_after n.winner.lane s) lane rounds n.in_range (omega arith)
              later)
      ])

  -- No starvation: over any four or more successive selections in which a lane stays in demand and
  -- no lane in demand has an emergency vehicle, that lane is selected.
  pub served_in_four :
      (s : Scheduler) (lane : Lane) (rounds : List (Round F))
      → s.next_cycle_index < 4
      → 4 ≤ length rounds
      → All (WaitsIn lane) rounds
      → Memᴰ (some (approach lane)) (winners s rounds)
  served_in_four s lane rounds h k a = served_within s lane rounds h (omega arith) a
