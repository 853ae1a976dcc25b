-- ===== src/Pipeline/Step.antt =====
-- A whole step of ai/pipeline/traffic_pipeline.py and its result.
use smart_traffic_management.Common.{
  Bool, List, Option, [], false, if◌then◌else◌, is_empty, is_some, ltb, none, not, some, true, ℕ,
  ◌&&◌, ◌*◌, ◌+◌, ◌-◌, ◌/◌,
}
use smart_traffic_management.Common.Dict.{Dict}
use smart_traffic_management.Common.Float.{Float}
use smart_traffic_management.Intersection.{PhaseState, all_red, green, yellow}
use smart_traffic_management.Pipeline.{Clocks, Payload, Pipeline, PipelineResult}
use smart_traffic_management.Pipeline.Decide.{change_phase, must_change, release_empty}
use smart_traffic_management.Pipeline.Gather.{gather}
use smart_traffic_management.Signal.Scheduler.{Outcome, returned, value_error}
use smart_traffic_management.Signal.Types.{LaneId, SignalDecision, Stats}

module _ {F : Type 0} ⦃fl : Float F⦄ where
  -- `signal_state`, by the time since the phase began.
  unfoldable pub signal_state_of : ℕ → Pipeline F → SignalDecision F → PhaseState
  signal_state_of now p d =
      let since = now - p.phase_start_time in
      if ltb since (d.green_duration_sec * 1000)
      then green
      else if ltb since ((d.green_duration_sec + d.yellow_duration_sec) * 1000)
      then yellow
      else all_red

  -- `max(0, int(math.ceil(green_duration - elapsed)))`
  abbrev pub remaining_green : ℕ → Pipeline F → SignalDecision F → ℕ
  remaining_green now p d = (d.green_duration_sec * 1000 - (now - p.phase_start_time) + 999) / 1000

  abbrev pub result_for :
      Bool → Bool → ℕ → Stats F → Pipeline F → Option (SignalDecision F) → PipelineResult F
  result_for changed has_frames now lane_stats p none = record {
    has_frame = has_frames;
    lane_stats = lane_stats;
    priority_result = none;
    signal_decision = none;
    hardware_command = none;
    remaining_green_sec = 0;
    signal_state = all_red;
    is_phase_change = false;
  }
  result_for changed has_frames now lane_stats p (some d) = record {
    has_frame = true;
    lane_stats = lane_stats;
    priority_result = p.last_priority_result;
    signal_decision = some d;
    hardware_command = p.active_hardware_cmd;
    remaining_green_sec = remaining_green now p d;
    signal_state = signal_state_of now p d;
    is_phase_change = changed;
  }

  -- The result of a step that leaves the state `p`. Without a decision it is the early return.
  unfoldable pub result_of : Bool → Bool → ℕ → Stats F → Pipeline F → PipelineResult F
  unfolding signal_state_of
  result_of changed has_frames now lane_stats p =
      result_for changed has_frames now lane_stats p p.active_decision

  abbrev pub finish :
      Bool → ℕ → Stats F → Outcome (Pipeline F) → Outcome (PipelineResult F × Pipeline F)
  finish has_frames now lane_stats value_error = value_error
  finish has_frames now lane_stats (returned p) =
      returned (result_of true has_frames now lane_stats p, p)

  -- Step 6, from the statistics of all lanes.
  unfoldable pub signal_step :
      Clocks F
      → Dict LaneId (Payload F)
      → Stats F
      → Pipeline F
      → Outcome (PipelineResult F × Pipeline F)
  unfolding release_empty must_change change_phase result_of
  signal_step clocks frames lane_stats p =
      let now = clocks.current_mono_time in
      let p' = release_empty now frames lane_stats p in
      let has_frames = not (is_empty frames) in
      if must_change now lane_stats p'
      then finish has_frames now lane_stats (change_phase clocks lane_stats p')
      else returned (result_of false has_frames now lane_stats p', p')

  -- `PipelineResult(has_frame=False)`
  abbrev pub no_result : PipelineResult F
  no_result = record {
    has_frame = false;
    lane_stats = [];
    priority_result = none;
    signal_decision = none;
    hardware_command = none;
    remaining_green_sec = 0;
    signal_state = all_red;
    is_phase_change = false;
  }

  -- `_process_step_unlocked`, for `DETECTOR_FPS` and an order of sets.
  unfoldable pub process_step :
      F
      → (List LaneId → List LaneId)
      → Clocks F
      → Dict LaneId (Payload F)
      → Pipeline F
      → Outcome (PipelineResult F × Pipeline F)
  unfolding gather signal_step
  process_step detector_fps order clocks frames p =
      let (lane_stats, p') = gather detector_fps order clocks.now_mono frames p in
      if is_empty frames && not (is_some p.active_decision)
      then returned (no_result, p)
      else signal_step clocks frames lane_stats p'
