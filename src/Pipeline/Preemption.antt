-- ===== src/Pipeline/Preemption.antt =====
-- A whole step of ai/pipeline/traffic_pipeline.py while a lane reports an emergency vehicle.
use mathlib.Core.Path.{subst}
use smart_traffic_management.Common.{
  Bool, List, ap, arith, false, inl, inr, is_empty, is_some, leb, not, refl, some, sym, true, ℕ,
  ◌&&◌, ◌<◌, ◌||◌, ◌∙◌, ◌≡◌, ◌≤◌,
}
use smart_traffic_management.Common.Dict.{Dict}
use smart_traffic_management.Common.Float.{Float}
use smart_traffic_management.Pipeline.{Clocks, Payload, Pipeline, PipelineResult}
use smart_traffic_management.Pipeline.Decide.{
  decision_must_change, has_emergency, is_no_emergency, must_change, phase_elapsed, phase_ms,
}
use smart_traffic_management.Pipeline.Emergency.{
  HasAlarm, StartsEmergency, change_phase_emergency, has_emergency-get,
}
use smart_traffic_management.Pipeline.Gather.{gather}
use smart_traffic_management.Pipeline.Outcomes.{Announces, deciding, result-Announces}
use smart_traffic_management.Pipeline.Release.{IsKept, RunsOn, release_empty-RunsOn}
use smart_traffic_management.Pipeline.Running.{gather-SamePhase}
use smart_traffic_management.Pipeline.Step.{process_step, result_of, signal_step}
use smart_traffic_management.Signal.Scheduler.{returned}
use smart_traffic_management.Signal.Types.{LaneId, SignalDecision, Stats}

module _ {F : Type 0} ⦃fl : Float F⦄ where
  kept-reason : (elapsed : ℕ) (d d' : SignalDecision F) → IsKept elapsed d d' → d'.reason ≡ d.reason
  kept-reason elapsed d d' (inl same) = ap (λ t. SignalDecision.reason t) same
  kept-reason elapsed d d' (inr (cut, short)) = ap (λ t. SignalDecision.reason t) cut

  must_change-emergency :
      (now : ℕ) (lane_stats : Stats F) (p q : Pipeline F) (d : SignalDecision F)
      → RunsOn now p q d
      → has_emergency lane_stats ≡ true
      → is_no_emergency d.reason ≡ true
      → must_change now lane_stats q ≡ true
  unfolding must_change
  must_change-emergency now lane_stats p q d on alarm calm =
      let reason = kept-reason (phase_elapsed now p) d on.decision on.kept in
      let late = leb (phase_ms on.decision) (phase_elapsed now q) in
      subst (λ o. decision_must_change (phase_elapsed now q) (has_emergency lane_stats) o ≡ true)
        (sym on.active) (rw (alarm, reason, calm) (or_true late))
    where
      or_true : (b : Bool) → (b || true) ≡ true
      or_true true = refl
      or_true false = refl

  -- While the decision was not made for an emergency and a fresh lane with vehicles reports an
  -- emergency vehicle, the step returns and starts a phase for a lane that reports one, with the
  -- emergency as its reason, and in green at once, whatever time the running phase has left.
  pub process_step_emergency :
      (fps : F) (order : List LaneId → List LaneId) (clocks : Clocks F)
      (frames : Dict LaneId (Payload F)) (p : Pipeline F) (d : SignalDecision F) (lane : LaneId)
      → p.signal_scheduler.min_green_sec ≤ p.signal_scheduler.max_green_sec
      → 0 < p.signal_scheduler.min_green_sec
      → p.active_decision ≡ some d
      → is_no_emergency d.reason ≡ true
      → let (lane_stats, p') = gather fps order clocks.now_mono frames p in
        let p'' = deciding clocks frames lane_stats p' in
        HasAlarm clocks lane_stats p'' lane
        → (r : PipelineResult F) × (q : Pipeline F) × (process_step fps order clocks frames p
            ≡ returned (r, q))
          × (begun : StartsEmergency clocks lane_stats p'' q) × Announces q begun.phase.decision r
  unfolding process_step signal_step
  process_step_emergency fps order clocks frames p d lane h k a calm alarm =
      let now = clocks.current_mono_time in
      let (lane_stats, p') = gather fps order clocks.now_mono frames p in
      let p'' = deciding clocks frames lane_stats p' in
      let same = gather-SamePhase fps order clocks.now_mono frames p in
      let on = release_empty-RunsOn now frames lane_stats p' d (same.decision ∙ a) in
      let kept = on.scheduler ∙ same.scheduler in
      let h' : p''.signal_scheduler.min_green_sec ≤ p''.signal_scheduler.max_green_sec =
        rw kept h in
      let k' : 0 < p''.signal_scheduler.min_green_sec = rw kept k in
      let urgent = has_emergency-get lane alarm.statistics lane_stats alarm.known alarm.urgent in
      let must = must_change-emergency now lane_stats p' p'' d on urgent calm in
      let (q, moves, begun) = change_phase_emergency clocks lane_stats p'' lane h' alarm in
      let awake : (is_empty frames && not (is_some p.active_decision)) ≡ false =
        ground (arith, a) in
      (
        result_of true (not (is_empty frames)) now lane_stats q,
        q,
        rw (awake, must, moves) refl,
        begun,
        result-Announces (not (is_empty frames)) now lane_stats q begun.phase.decision
            begun.phase.active begun.phase.started (omega (arith, k', begun.phase.at_least)),
      )
