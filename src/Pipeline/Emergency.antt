-- ===== src/Pipeline/Emergency.antt =====
-- An emergency vehicle in ai/pipeline/traffic_pipeline.py: the phase changes at once, to a lane that
-- reports one, and the decision says why.
use mathlib.Core.Path.{subst}
use smart_traffic_management.Common.{
  Bool, Bool-cases, Option, [], any, ap, arith, false, inl, inr, lt→ltb, none, refl, some, sym,
  true, ◌+◌, ◌<◌, ◌∙◌, ◌∷◌, ◌≡◌, ◌≤◌,
}
use smart_traffic_management.Common.Dict.{get}
use smart_traffic_management.Common.Equality.{beq}
use smart_traffic_management.Common.Float.{Float}
use smart_traffic_management.Pipeline.{Clocks, Pipeline}
use smart_traffic_management.Pipeline.Change.{StartsPhase, start-StartsPhase}
use smart_traffic_management.Pipeline.Decide.{
  change_phase, final_priority, fresh_lanes, has_emergency, select_next, start_phase,
}
use smart_traffic_management.Pipeline.Emergency.Scores.{final_priority-HasLane}
use smart_traffic_management.Signal.Scheduler.{advance_after, in_demand, is_emergency, returned}
use smart_traffic_management.Signal.Scheduler.Selection.{
  select_eligible_emergency, select_eligible_winner,
}
use smart_traffic_management.Signal.Types.{
  LaneId, LaneStatistics, PriorityResult, PriorityScore, Stats, emergency, lane_id_eq_inst,
}
pub mod Scores

module _ {F : Type 0} ⦃fl : Float F⦄ where
  -- A lane that reports an emergency vehicle, has vehicles, and is fresh.
  pub record HasAlarm (clocks : Clocks F) (lane_stats : Stats F) (p : Pipeline F) (lane : LaneId)
      : Type 0 where
    pub statistics : LaneStatistics F
    pub known : get lane lane_stats ≡ some statistics
    pub urgent : statistics.has_priority_vehicle ≡ true
    pub occupied : 0 < statistics.raw_count
    pub fresh : any (beq lane) (fresh_lanes clocks.now_mono lane_stats p) ≡ true

  pub has_emergency-get :
      (lane : LaneId) (stats : LaneStatistics F) (lane_stats : Stats F)
      → get lane lane_stats ≡ some stats
      → stats.has_priority_vehicle ≡ true
      → has_emergency lane_stats ≡ true
  unfolding has_emergency
  has_emergency-get lane stats [] found h = cc
  has_emergency-get lane stats ((k, s) ∷ rest) found h = elim (Bool-cases (beq k lane)) [
    | inl same ↦
        let it : some s ≡ some stats = rw same at found in
        let one : s ≡ stats = cc in rw (one, h) refl
    | inr apart ↦ ground (arith, has_emergency-get lane stats rest (rw apart at found) h)
  ]

  abbrev urgency : Option (LaneStatistics F) → Bool
  urgency o = elim o [ none ↦ false | some stats ↦ stats.has_priority_vehicle ]

  alarm_in_demand :
      (clocks : Clocks F) (lane_stats : Stats F) (p : Pipeline F) (lane : LaneId)
      (x : PriorityScore F)
      → x.lane ≡ lane
      → HasAlarm clocks lane_stats p lane
      → (in_demand lane_stats (fresh_lanes clocks.now_mono lane_stats p) x ≡ true)
        × (is_emergency lane_stats x ≡ true)
  unfolding in_demand is_emergency
  alarm_in_demand clocks lane_stats p lane x e alarm =
      let found = ap (λ k. get k lane_stats) e ∙ alarm.known in
      let recent =
        ap (λ k. any (beq k) (fresh_lanes clocks.now_mono lane_stats p)) e ∙ alarm.fresh in
      (
        rw (recent, found) (lt→ltb 0 alarm.statistics.raw_count alarm.occupied),
        subst (λ o. urgency o ≡ true) (sym found) alarm.urgent,
      )

  -- A phase for an emergency: the lane reports one, and the decision has it as its reason.
  pub record StartsEmergency (clocks : Clocks F) (lane_stats : Stats F) (p q : Pipeline F)
      : Type 0 where
    pub phase : StartsPhase clocks lane_stats p q
    pub urgent : phase.statistics.has_priority_vehicle ≡ true
    pub reason : phase.decision.reason ≡ emergency

  is_emergency-get :
      (lane_stats : Stats F) (w : PriorityScore F) (stats : LaneStatistics F)
      → is_emergency lane_stats w ≡ true
      → get w.lane lane_stats ≡ some stats
      → stats.has_priority_vehicle ≡ true
  unfolding is_emergency
  is_emergency-get lane_stats w stats h found = subst (λ o. urgency o ≡ true) found h

  -- While a fresh lane with vehicles reports an emergency vehicle, a change of the phase gives the
  -- green to a lane that reports one, with the emergency as its reason.
  pub change_phase_emergency :
      (clocks : Clocks F) (lane_stats : Stats F) (p : Pipeline F) (lane : LaneId)
      → p.signal_scheduler.min_green_sec ≤ p.signal_scheduler.max_green_sec
      → HasAlarm clocks lane_stats p lane
      → (q : Pipeline F) × (change_phase clocks lane_stats p ≡ returned q)
        × StartsEmergency clocks lane_stats p q
  unfolding change_phase select_next
  change_phase_emergency clocks lane_stats p lane h alarm =
      let given = final_priority clocks lane_stats p in
      let (x, m, e) =
        final_priority-HasLane clocks lane_stats p lane alarm.statistics alarm.known in
      let (wanted, first) = alarm_in_demand clocks lane_stats p lane x e alarm in
      let (w, grants, emergent) =
        select_eligible_emergency p.signal_scheduler given lane_stats
          (fresh_lanes clocks.now_mono lane_stats p) x m wanted first in
      let s = advance_after w.lane p.signal_scheduler in
      let r : PriorityResult F = record given { highest_priority = some w } in
      let (w', granted, m', wanted') =
        select_eligible_winner p.signal_scheduler given lane_stats
          (fresh_lanes clocks.now_mono lane_stats p) s r grants in
      let top : some w ≡ some w' = ap (λ t. PriorityResult.highest_priority t) granted.0 in
      let one : w ≡ w' = cc in
      let (q, runs, begun, same) =
        start-StartsPhase clocks lane_stats p s given r w' h granted m' wanted' in
      let urgent =
        is_emergency-get lane_stats w' begun.statistics (rw one at emergent)
          (ap (λ k. get k lane_stats) (sym same) ∙ begun.known) in
      (
        q,
        ap
              (λ chosen.
                start_phase clocks lane_stats chosen
                  (record p { phase_counter = p.phase_counter + 1 }))
              grants
            ∙ runs,
        record { phase = begun; urgent = urgent; reason = begun.reasoned_by ∙ rw urgent refl },
      )
