-- ===== src/Pipeline/Outcomes.antt =====
-- A step of ai/pipeline/traffic_pipeline.py always returns, and what it reports is what it did.
use mathlib.Core.Path.{subst}
use smart_traffic_management.Common.{
  Bool, Bool-cases, List, Option, arith, false, inl, inr, is_empty, is_some, ltb, lt→ltb, none, not,
  refl, some, sym, true, ℕ, ◌&&◌, ◌*◌, ◌+◌, ◌-◌, ◌/◌, ◌<◌, ◌≡◌, ◌≤◌, ◌⊎◌,
}
use smart_traffic_management.Common.Dict.{Dict}
use smart_traffic_management.Common.Float.{Float}
use smart_traffic_management.Intersection.{all_red, green, yellow}
use smart_traffic_management.Pipeline.{Clocks, Payload, Pipeline, PipelineResult}
use smart_traffic_management.Pipeline.Change.{NoPhase, StartsPhase, change_phase_starts}
use smart_traffic_management.Pipeline.Decide.{
  decision_must_change, must_change, release_active, release_empty,
}
use smart_traffic_management.Pipeline.Demand.{NoneDemands}
use smart_traffic_management.Pipeline.Gather.{gather}
use smart_traffic_management.Pipeline.Release.{RunsOn, release_active-RunsOn}
use smart_traffic_management.Pipeline.Running.{SamePhase, gather-SamePhase}
use smart_traffic_management.Pipeline.Step.{
  no_result, process_step, result_for, result_of, signal_state_of, signal_step,
}
use smart_traffic_management.Signal.Scheduler.{returned}
use smart_traffic_management.Signal.Types.{LaneId, SignalDecision, Stats}

module _ {F : Type 0} ⦃fl : Float F⦄ where
  pub release_empty-scheduler :
      (now : ℕ) (frames : Dict LaneId (Payload F)) (lane_stats : Stats F) (p : Pipeline F)
      → (release_empty now frames lane_stats p).signal_scheduler ≡ p.signal_scheduler
  unfolding release_empty
  release_empty-scheduler now frames lane_stats p = go p.active_decision refl
    where
      go :
          (o : Option (SignalDecision F))
          → p.active_decision ≡ o
          → (release_active now frames lane_stats o p).signal_scheduler ≡ p.signal_scheduler
      go none a = refl
      go (some d) a = RunsOn.scheduler (release_active-RunsOn now frames lane_stats p d a)

  -- The report of a step that starts a phase: the new decision and its command, in green.
  pub record Announces (q : Pipeline F) (d : SignalDecision F) (r : PipelineResult F) : Type 0 where
    pub changed : r.is_phase_change ≡ true
    pub reported : r.signal_decision ≡ some d
    pub command : r.hardware_command ≡ q.active_hardware_cmd
    pub lit : r.signal_state ≡ green

  -- The report of a step in which the phase runs on: its decision and its command, no change, the green
  -- seconds that are left, rounded up, and the lights by the time since the phase began.
  pub record Continues (now : ℕ) (q : Pipeline F) (r : PipelineResult F) : Type 0 where
    pub decision : SignalDecision F
    pub active : q.active_decision ≡ some decision
    pub unchanged : r.is_phase_change ≡ false
    pub reported : r.signal_decision ≡ some decision
    pub command : r.hardware_command ≡ q.active_hardware_cmd
    pub left :
        r.remaining_green_sec
        ≡ (decision.green_duration_sec * 1000 - (now - q.phase_start_time) + 999) / 1000
    pub in_green :
        now - q.phase_start_time < decision.green_duration_sec * 1000 → r.signal_state ≡ green
    pub in_yellow :
        decision.green_duration_sec * 1000 ≤ now - q.phase_start_time
        → now - q.phase_start_time
          < (decision.green_duration_sec + decision.yellow_duration_sec) * 1000
        → r.signal_state ≡ yellow
    pub after_yellow :
        (decision.green_duration_sec + decision.yellow_duration_sec) * 1000
          ≤ now - q.phase_start_time
        → r.signal_state ≡ all_red

  must_change_none :
      (elapsed : ℕ) (alarm : Bool) (o : Option (SignalDecision F))
      → decision_must_change elapsed alarm o ≡ false
      → (d : SignalDecision F) × (o ≡ some d)
  must_change_none elapsed alarm none h = cc
  must_change_none elapsed alarm (some d) h = (d, refl)

  result-Continues :
      (has_frames : Bool) (now : ℕ) (lane_stats : Stats F) (q : Pipeline F) (d : SignalDecision F)
      → q.active_decision ≡ some d
      → Continues now q (result_of false has_frames now lane_stats q)
  unfolding result_of signal_state_of
  result-Continues has_frames now lane_stats q d a =
      subst (λ o. Continues now q (result_for false has_frames now lane_stats q o)) (sym a)
        (record {
          decision = d;
          active = a;
          unchanged = refl;
          reported = refl;
          command = refl;
          left = refl;
          in_green = λ early. rw (lt→ltb _ _ early) refl;
          in_yellow = λ over early. ground arith;
          after_yellow = λ over. ground arith;
        })

  stands-Continues :
      (has_frames : Bool) (now : ℕ) (lane_stats : Stats F) (q : Pipeline F)
      → must_change now lane_stats q ≡ false
      → Continues now q (result_of false has_frames now lane_stats q)
  unfolding must_change
  stands-Continues has_frames now lane_stats q h =
      let (d, a) = must_change_none _ _ q.active_decision h in
      result-Continues has_frames now lane_stats q d a

  -- The report of a step that leaves no phase.
  pub record IsDark (r : PipelineResult F) : Type 0 where
    pub no_decision : r.signal_decision ≡ none
    pub no_command : r.hardware_command ≡ none
    pub all_dark : r.signal_state ≡ all_red

  result-IsDark :
      (changed has_frames : Bool) (now : ℕ) (lane_stats : Stats F) (q : Pipeline F)
      → q.active_decision ≡ none
      → IsDark (result_of changed has_frames now lane_stats q)
  unfolding result_of
  result-IsDark changed has_frames now lane_stats q a =
      subst (λ o. IsDark (result_for changed has_frames now lane_stats q o)) (sym a)
        (record { no_decision = refl; no_command = refl; all_dark = refl })

  signal_state_lit :
      (now : ℕ) (q : Pipeline F) (d : SignalDecision F)
      → q.phase_start_time ≡ now
      → 0 < d.green_duration_sec
      → signal_state_of now q d ≡ green
  unfolding signal_state_of
  signal_state_lit now q d started long =
      let begins : ltb (now - q.phase_start_time) (d.green_duration_sec * 1000) ≡ true =
        lt→ltb (now - q.phase_start_time) (d.green_duration_sec * 1000)
          (omega (arith, started, long)) in
      rw begins refl

  pub result-Announces :
      (has_frames : Bool) (now : ℕ) (lane_stats : Stats F) (q : Pipeline F) (d : SignalDecision F)
      → q.active_decision ≡ some d
      → q.phase_start_time ≡ now
      → 0 < d.green_duration_sec
      → Announces q d (result_of true has_frames now lane_stats q)
  unfolding result_of
  result-Announces has_frames now lane_stats q d a started long =
      subst (λ o. Announces q d (result_for true has_frames now lane_stats q o)) (sym a)
        (record {
          changed = refl;
          reported = refl;
          command = refl;
          lit = signal_state_lit now q d started long;
        })

  -- The state in which a step decides: the frames read, and an empty lane released.
  abbrev pub deciding : Clocks F → Dict LaneId (Payload F) → Stats F → Pipeline F → Pipeline F
  deciding clocks frames lane_stats p = release_empty clocks.current_mono_time frames lane_stats p

  -- The phase goes on; or none is left; or one begins.
  abbrev pub SignalOutcome :
      Clocks F
      → Dict LaneId (Payload F)
      → Stats F
      → Pipeline F
      → PipelineResult F
      → Pipeline F
      → Type 0
  SignalOutcome clocks frames lane_stats p r q =
      ((q ≡ deciding clocks frames lane_stats p)
        × (must_change clocks.current_mono_time lane_stats q ≡ false)
        × Continues clocks.current_mono_time q r)
      ⊎ (NoPhase q × IsDark r × NoneDemands clocks lane_stats (deciding clocks frames lane_stats p))
      ⊎ ((begun : StartsPhase clocks lane_stats (deciding clocks frames lane_stats p) q) × Announces
            q begun.decision r)

  signal_step_returns :
      (clocks : Clocks F) (frames : Dict LaneId (Payload F)) (lane_stats : Stats F) (p : Pipeline F)
      → p.signal_scheduler.min_green_sec ≤ p.signal_scheduler.max_green_sec
      → 0 < p.signal_scheduler.min_green_sec
      → (r : PipelineResult F) × (q : Pipeline F) × (signal_step clocks frames lane_stats p
          ≡ returned (r, q))
        × SignalOutcome clocks frames lane_stats p r q
  unfolding signal_step
  signal_step_returns clocks frames lane_stats p h k =
      let now = clocks.current_mono_time in
      let p' = deciding clocks frames lane_stats p in
      let same = release_empty-scheduler now frames lane_stats p in
      let h' : p'.signal_scheduler.min_green_sec ≤ p'.signal_scheduler.max_green_sec = rw same h in
      let k' : 0 < p'.signal_scheduler.min_green_sec = rw same k in
      elim (Bool-cases (must_change now lane_stats p')) [
        | inr stands ↦ (
          result_of false (not (is_empty frames)) now lane_stats p',
          p',
          rw stands refl,
          inl (refl, stands, stands-Continues (not (is_empty frames)) now lane_stats p' stands),
        )
        | inl must ↦
            let (q, runs, left) = change_phase_starts clocks lane_stats p' h' in
            (
              result_of true (not (is_empty frames)) now lane_stats q,
              q,
              rw (must, runs) refl,
              inr (elim left [
                | inl gone ↦ inl (
                  gone.0,
                  result-IsDark true (not (is_empty frames)) now lane_stats q gone.0.0,
                  gone.1,
                )
                | inr begun ↦ inr (
                  begun,
                  result-Announces (not (is_empty frames)) now lane_stats q begun.decision
                      begun.active begun.started (omega (arith, k', begun.at_least)),
                )
              ]),
            )
      ]

  pub process_step_returns :
      (fps : F) (order : List LaneId → List LaneId) (clocks : Clocks F)
      (frames : Dict LaneId (Payload F)) (p : Pipeline F)
      → p.signal_scheduler.min_green_sec ≤ p.signal_scheduler.max_green_sec
      → 0 < p.signal_scheduler.min_green_sec
      → (r : PipelineResult F) × (q : Pipeline F) × (process_step fps order clocks frames p
          ≡ returned (r, q))
        × (((r ≡ no_result) × (q ≡ p))
            ⊎ SignalOutcome clocks frames
                (gather fps order clocks.now_mono frames p).0
                (gather fps order clocks.now_mono frames p).1
                r
                q)
  unfolding process_step
  process_step_returns fps order clocks frames p h k =
      let (lane_stats, p') = gather fps order clocks.now_mono frames p in
      let same = SamePhase.scheduler (gather-SamePhase fps order clocks.now_mono frames p) in
      let h' : p'.signal_scheduler.min_green_sec ≤ p'.signal_scheduler.max_green_sec = rw same h in
      let k' : 0 < p'.signal_scheduler.min_green_sec = rw same k in
      elim (Bool-cases (is_empty frames && not (is_some p.active_decision))) [
        | inl idle ↦ (no_result, p, rw idle refl, inl (refl, refl))
        | inr awake ↦
            let (r, q, runs, left) = signal_step_returns clocks frames lane_stats p' h' k' in
            (r, q, rw awake runs, inr left)
      ]
