-- ===== src/Pipeline/Bounds.antt =====
-- A step of ai/pipeline/traffic_pipeline.py leaves the bounds of the green time alone.
use smart_traffic_management.Common.{
  Bool, Bool-cases, List, Option, [], ap, arith, false, inl, inr, is_empty, is_some, none, not,
  refl, some, sym, ℕ, ◌&&◌, ◌+◌, ◌∙◌, ◌∷◌, ◌≡◌,
}
use smart_traffic_management.Common.Dict.{Dict, get}
use smart_traffic_management.Common.Equality.{nat_eq, string_eq}
use smart_traffic_management.Common.Float.{Float}
use smart_traffic_management.Pipeline.{Clocks, Payload, Pipeline, PipelineResult}
use smart_traffic_management.Pipeline.Decide.{
  activate, activate_known, activate_outcome, change_phase, final_priority, must_change,
  release_empty, select_next, start_phase,
}
use smart_traffic_management.Pipeline.Gather.{gather}
use smart_traffic_management.Pipeline.Outcomes.{release_empty-scheduler}
use smart_traffic_management.Pipeline.Running.{SamePhase, gather-SamePhase}
use smart_traffic_management.Pipeline.Step.{finish, no_result, process_step, result_of, signal_step}
use smart_traffic_management.Signal.Scheduler.{
  Outcome, Scheduler, advance_after, by_lane, choose, first_candidate, grant_next, max_score,
  returned, schedule, select_eligible, value_error,
}
use smart_traffic_management.Signal.Types.{
  LaneId, LaneStatistics, PriorityResult, PriorityScore, SignalDecision, Stats, approach,
  lane_id_eq_inst, other,
}

-- The smallest and the greatest green time.
abbrev pub bounds_of : Scheduler → ℕ × ℕ
bounds_of s = (s.min_green_sec, s.max_green_sec)

bounds-advance_after :
    (lane : LaneId) (s : Scheduler) → bounds_of (advance_after lane s) ≡ bounds_of s
unfolding advance_after
bounds-advance_after (approach lane) s = refl
bounds-advance_after (other name) s = refl

module _ {F : Type 0} ⦃fl : Float F⦄ where
  bounds-grant_next :
      (s : Scheduler) (result : PriorityResult F) (o : Option (PriorityScore F))
      → bounds_of (grant_next s result o).0 ≡ bounds_of s
  bounds-grant_next s result none = refl
  bounds-grant_next s result (some winner) = bounds-advance_after winner.lane s

  bounds-choose :
      (s : Scheduler) (result : PriorityResult F) (demand alarmed : List (PriorityScore F))
      → bounds_of (choose s result demand alarmed).0 ≡ bounds_of s
  bounds-choose s result [] alarmed = refl
  bounds-choose s result (d ∷ demand) (e ∷ rest) = bounds-advance_after (max_score e rest).lane s
  bounds-choose s result (d ∷ demand) [] =
      bounds-grant_next s result (first_candidate (by_lane [] (d ∷ demand)) s.next_cycle_index 4 0)

  bounds-select_next :
      (clocks : Clocks F) (lane_stats : Stats F) (p : Pipeline F)
      → bounds_of (select_next clocks lane_stats p).0 ≡ bounds_of p.signal_scheduler
  unfolding select_next select_eligible
  bounds-select_next clocks lane_stats p =
      bounds-choose p.signal_scheduler (final_priority clocks lane_stats p) _ _

  activate_outcome-scheduler :
      (now : ℕ) (lane_stats : Stats F) (result : PriorityResult F) (o : Outcome (SignalDecision F))
      (p q : Pipeline F)
      → activate_outcome now lane_stats result o p ≡ returned q
      → q.signal_scheduler ≡ p.signal_scheduler
  unfolding activate
  activate_outcome-scheduler now lane_stats result value_error p q e = cc
  activate_outcome-scheduler now lane_stats result (returned d) p q e =
      go (get d.green_lane lane_stats) e
    where
      go :
          (o : Option (LaneStatistics F))
          → activate_known now result o d p ≡ returned q
          → q.signal_scheduler ≡ p.signal_scheduler
      go none h = cc
      go (some stats) h = ground arith

  bounds-start_phase :
      (clocks : Clocks F) (lane_stats : Stats F) (chosen : Scheduler × Option (PriorityResult F))
      (p q : Pipeline F)
      → start_phase clocks lane_stats chosen p ≡ returned q
      → q.signal_scheduler ≡ chosen.0
  bounds-start_phase clocks lane_stats (s, none) p q e = ground arith
  bounds-start_phase clocks lane_stats (s, some result) p q e =
      activate_outcome-scheduler clocks.current_mono_time lane_stats result
        (schedule s (some result) p.phase_counter clocks.time) (record p { signal_scheduler = s }) q
        e

  bounds-change_phase :
      (clocks : Clocks F) (lane_stats : Stats F) (p q : Pipeline F)
      → change_phase clocks lane_stats p ≡ returned q
      → bounds_of q.signal_scheduler ≡ bounds_of p.signal_scheduler
  unfolding change_phase
  bounds-change_phase clocks lane_stats p q e =
      ap bounds_of (
        bounds-start_phase clocks lane_stats (select_next clocks lane_stats p)
          (record p { phase_counter = p.phase_counter + 1 }) q e)
      ∙ bounds-select_next clocks lane_stats p

  bounds-returned :
      (p q : Pipeline F) → p ≡ q → bounds_of q.signal_scheduler ≡ bounds_of p.signal_scheduler
  bounds-returned p q e = ap (λ (x : Pipeline F). bounds_of x.signal_scheduler) (sym e)

  bounds-finish :
      (has_frames : Bool) (now : ℕ) (lane_stats : Stats F) (o : Outcome (Pipeline F))
      (r : PipelineResult F) (q : Pipeline F)
      → finish has_frames now lane_stats o ≡ returned (r, q)
      → o ≡ returned q
  bounds-finish has_frames now lane_stats value_error r q e = cc
  bounds-finish has_frames now lane_stats (returned p) r q e = ground arith

  bounds-signal_step :
      (clocks : Clocks F) (frames : Dict LaneId (Payload F)) (lane_stats : Stats F) (p : Pipeline F)
      (r : PipelineResult F) (q : Pipeline F)
      → signal_step clocks frames lane_stats p ≡ returned (r, q)
      → bounds_of q.signal_scheduler ≡ bounds_of p.signal_scheduler
  unfolding signal_step
  bounds-signal_step clocks frames lane_stats p r q e =
      let now = clocks.current_mono_time in
      let p' = release_empty now frames lane_stats p in
      let same = ap bounds_of (release_empty-scheduler now frames lane_stats p) in
      elim (Bool-cases (must_change now lane_stats p')) [
        | inl must ↦
            bounds-change_phase clocks lane_stats p' q (
              bounds-finish (not (is_empty frames)) now lane_stats
                (change_phase clocks lane_stats p') r q (rw must at e))
            ∙ same
        | inr stands ↦
            let kept : returned (result_of false (not (is_empty frames)) now lane_stats p', p')
                ≡ returned (r, q) =
              rw stands at e in
            bounds-returned p' q (ground (arith, kept)) ∙ same
      ]

  -- A step that returns leaves the smallest and the greatest green time as they are.
  pub process_step-bounds :
      (fps : F) (order : List LaneId → List LaneId) (clocks : Clocks F)
      (frames : Dict LaneId (Payload F)) (p : Pipeline F) (r : PipelineResult F) (q : Pipeline F)
      → process_step fps order clocks frames p ≡ returned (r, q)
      → bounds_of q.signal_scheduler ≡ bounds_of p.signal_scheduler
  unfolding process_step
  process_step-bounds fps order clocks frames p r q e =
      let (lane_stats, p') = gather fps order clocks.now_mono frames p in
      elim (Bool-cases (is_empty frames && not (is_some p.active_decision))) [
        | inl idle ↦
            let kept : returned (no_result, p) ≡ returned (r, q) = rw idle at e in
            bounds-returned p q (ground (arith, kept))
        | inr awake ↦
            bounds-signal_step clocks frames lane_stats p' r q (rw awake at e)
            ∙ ap bounds_of
                (SamePhase.scheduler (gather-SamePhase fps order clocks.now_mono frames p))
      ]
