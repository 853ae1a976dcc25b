-- ===== src/Pipeline/Keeping.antt =====
-- A step of ai/pipeline/traffic_pipeline.py keeps its phase until green, yellow and all-red are over,
-- or an emergency comes up.
use mathlib.Core.Path.{subst}
use smart_traffic_management.Common.{
  Bool, Bool-cases, List, Option, ap, arith, false, if◌then◌else◌, inl, inr, is_empty, is_some, ltb,
  none, not, refl, some, true, ℕ, ◌&&◌, ◌-◌, ◌∙◌, ◌≡◌, ◌≤◌, ◌⊎◌,
}
use smart_traffic_management.Common.Dict.{Dict}
use smart_traffic_management.Common.Float.{Float}
use smart_traffic_management.Pipeline.{Clocks, Payload, Pipeline, PipelineResult}
use smart_traffic_management.Pipeline.Decide.{
  has_emergency, is_no_emergency, must_change, phase_elapsed, phase_ms, release_empty,
}
use smart_traffic_management.Pipeline.Gather.{gather}
use smart_traffic_management.Pipeline.Release.{
  IsKept, RunsOn, must_change-RunsOn, release_empty-RunsOn,
}
use smart_traffic_management.Pipeline.Running.{SamePhase, gather-SamePhase}
use smart_traffic_management.Pipeline.Step.{process_step, result_for, result_of, signal_step}
use smart_traffic_management.Signal.Scheduler.{Outcome, returned}
use smart_traffic_management.Signal.Types.{LaneId, SignalDecision, Stats}

module _ {F : Type 0} ⦃fl : Float F⦄ where
  -- A step that keeps the phase of a decision, and reports that.
  pub record KeepsPhase (now : ℕ) (p : Pipeline F) (d : SignalDecision F) (r : PipelineResult F)
      (q : Pipeline F) : Type 0 where
    pub runs : RunsOn now p q d
    pub unchanged : r.is_phase_change ≡ false
    pub reported : r.signal_decision ≡ some runs.decision
    pub same_command : r.hardware_command ≡ p.active_hardware_cmd

  result-KeepsPhase :
      (now : ℕ) (has_frames : Bool) (lane_stats : Stats F) (p q : Pipeline F) (d : SignalDecision F)
      → RunsOn now p q d
      → KeepsPhase now p d (result_of false has_frames now lane_stats q) q
  unfolding result_of
  result-KeepsPhase now has_frames lane_stats p q d runs = record {
    runs = runs;
    unchanged = is_unchanged q.active_decision;
    reported = is_reported q.active_decision runs.active;
    same_command = is_same q.active_decision runs.active ∙ runs.command;
  }
    where
      is_unchanged :
          (o : Option (SignalDecision F))
          → (result_for false has_frames now lane_stats q o).is_phase_change ≡ false
      is_unchanged none = refl
      is_unchanged (some e) = refl

      is_reported :
          (o : Option (SignalDecision F))
          → o ≡ some runs.decision
          → (result_for false has_frames now lane_stats q o).signal_decision ≡ some runs.decision
      is_reported none h = cc
      is_reported (some e) h = h

      is_same :
          (o : Option (SignalDecision F))
          → o ≡ some runs.decision
          → (result_for false has_frames now lane_stats q o).hardware_command
            ≡ q.active_hardware_cmd
      is_same none h = cc
      is_same (some e) h = refl

  signal_step_keeps :
      (clocks : Clocks F) (frames : Dict LaneId (Payload F)) (lane_stats : Stats F)
      (p q : Pipeline F) (d : SignalDecision F) (r : PipelineResult F)
      → p.active_decision ≡ some d
      → signal_step clocks frames lane_stats p ≡ returned (r, q)
      → KeepsPhase clocks.current_mono_time p d r q
        ⊎ (phase_ms d ≤ phase_elapsed clocks.current_mono_time p)
        ⊎ ((has_emergency lane_stats ≡ true) × (is_no_emergency d.reason ≡ true))
  unfolding signal_step
  signal_step_keeps clocks frames lane_stats p q d r a e =
      let now = clocks.current_mono_time in
      let p' = release_empty now frames lane_stats p in
      let runs = release_empty-RunsOn now frames lane_stats p d a in
      elim (Bool-cases (must_change now lane_stats p')) [
        | inl must ↦ inr (must_change-RunsOn now lane_stats p p' d runs must)
        | inr stands ↦ inl (kept now p' runs (rw stands at e))
      ]
    where
      kept :
          (now : ℕ) (p' : Pipeline F)
          → RunsOn now p p' d
          → ◌≡◌ {A = Outcome (PipelineResult F × Pipeline F)}
              (returned (result_of false (not (is_empty frames)) now lane_stats p', p'))
              (returned (r, q))
          → KeepsPhase now p d r q
      kept now p' runs left =
          let first : result_of false (not (is_empty frames)) now lane_stats p' ≡ r = cc in
          let second : p' ≡ q = cc in
          subst (λ t. KeepsPhase now p d r t) second
            (subst (λ t. KeepsPhase now p d t p') first
              (result-KeepsPhase now (not (is_empty frames)) lane_stats p p' d runs))

  elapsed_same :
      (now : ℕ) (p p' : Pipeline F) → SamePhase p p' → phase_elapsed now p' ≡ phase_elapsed now p
  unfolding phase_elapsed
  elapsed_same now p p' same = ap (λ s. if ltb 0 s then now - s else 999000) same.start

  from_same :
      (now : ℕ) (p p' q : Pipeline F) (d : SignalDecision F) (r : PipelineResult F)
      → SamePhase p p'
      → KeepsPhase now p' d r q
      → KeepsPhase now p d r q
  from_same now p p' q d r same keeps = record {
    runs = record {
      decision = keeps.runs.decision;
      active = keeps.runs.active;
      kept =
          subst (λ t. IsKept t d keeps.runs.decision) (elapsed_same now p p' same) keeps.runs.kept;
      start = keeps.runs.start ∙ same.start;
      command = keeps.runs.command ∙ same.command;
      counter = keeps.runs.counter ∙ same.counter;
      scheduler = keeps.runs.scheduler ∙ same.scheduler;
    };
    unchanged = keeps.unchanged;
    reported = keeps.reported;
    same_command = keeps.same_command ∙ same.command;
  }

  -- A step keeps the phase of its decision, and the command: the lane, the reason, the yellow time
  -- and the start stay, and the green is at most cut to the seconds that have passed. The
  -- exceptions are that green, yellow and all-red time have passed, and that a lane reports an
  -- emergency vehicle while the decision was not made for one.
  pub process_step_keeps :
      (fps : F) (order : List LaneId → List LaneId) (clocks : Clocks F)
      (frames : Dict LaneId (Payload F)) (p q : Pipeline F) (d : SignalDecision F)
      (r : PipelineResult F)
      → p.active_decision ≡ some d
      → process_step fps order clocks frames p ≡ returned (r, q)
      → KeepsPhase clocks.current_mono_time p d r q
        ⊎ (phase_ms d ≤ phase_elapsed clocks.current_mono_time p)
        ⊎ ((has_emergency (gather fps order clocks.now_mono frames p).0 ≡ true)
            × (is_no_emergency d.reason ≡ true))
  unfolding process_step
  process_step_keeps fps order clocks frames p q d r a e =
      let (lane_stats, p') = gather fps order clocks.now_mono frames p in
      let same = gather-SamePhase fps order clocks.now_mono frames p in
      let active = same.decision ∙ a in
      let on : (is_empty frames && not (is_some p.active_decision)) ≡ false = ground (arith, a) in
      let stepped : signal_step clocks frames lane_stats p' ≡ returned (r, q) = rw on at e in
      elim (signal_step_keeps clocks frames lane_stats p' q d r active stepped) [
        | inl keeps ↦ inl (from_same clocks.current_mono_time p p' q d r same keeps)
        | inr (inl over) ↦
            let e' = elapsed_same clocks.current_mono_time p p' same in inr (inl (rw e' at over))
        | inr (inr alarm) ↦ inr (inr alarm)
      ]
