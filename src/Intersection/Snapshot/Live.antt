-- ===== src/Intersection/Snapshot/Live.antt =====
-- The live snapshots of ai/pipeline/digital_intersection.py. Clocks and durations are in milliseconds
-- unless a name says seconds.
use smart_traffic_management.Common.{
  ℕ, ◌+◌, ◌-◌, ◌*◌, ◌/◌, Bool, not, ◌&&◌, ◌||◌, Option, none, some, [], map, ltb, if◌then◌else◌,
  or_default, all, any,
}
use smart_traffic_management.Common.Dict.{Dict, get}
use smart_traffic_management.Common.Float.{Float, fl_zero}
use smart_traffic_management.Signal.Types.{
  LaneId, PriorityResult, SignalDecision, Stats, lane_id_eq_inst,
}
use smart_traffic_management.Intersection.{
  approach_names, CameraStatus, healthy, offline, is_offline, note_scores,
}
use smart_traffic_management.Intersection.Snapshot.{
  ApproachState, IntersectionSnapshot, all_red_hold, all_red_phase, approach_state, ceil_seconds,
  color_of, degraded_status, is_healthy, phase_name, red, status_of,
}

-- What `get_snapshot` reads of the application context and the pipeline.
pub record LiveContext (F : Type 0) : Type 0 where
  pub now_mono : ℕ
  pub pipeline_running : Bool
  pub active_decision : Option (SignalDecision F)
  pub phase_start : ℕ
  pub lane_last_seen : Dict LaneId ℕ
  pub is_pipeline_stalled : Bool
  pub last_frame_monotonic : ℕ
  pub any_frame_updated : Bool
  pub last_priority_result : Option (PriorityResult F)
  pub lane_stats_history : Stats F
  pub phase_counter : ℕ

-- The phase of a decision after a time: what is lit, and the time that is left.
pub record PhaseView : Type 0 where
  pub green_now : Option LaneId
  pub yellow_now : Option LaneId
  pub left : ℕ

module _ {F : Type 0} ⦃fl : Float F⦄ where
  -- A camera seen within three seconds is healthy.
  abbrev pub camera_now : LiveContext F → LaneId → CameraStatus
  camera_now ctx lane =
      if ltb (ctx.now_mono - or_default (get lane ctx.lane_last_seen) 0) 3000
      then healthy
      else offline

  abbrev pub live_stalled : LiveContext F → Bool
  live_stalled ctx =
      ctx.is_pipeline_stalled
      || (ltb 5000 (ctx.now_mono - ctx.last_frame_monotonic) && ctx.any_frame_updated)

  -- 999 seconds where no phase has started
  abbrev pub elapsed_ms : LiveContext F → ℕ
  elapsed_ms ctx = if ltb 0 ctx.phase_start then ctx.now_mono - ctx.phase_start else 999000

  unfoldable pub decision_view : ℕ → ℕ → Option (SignalDecision F) → PhaseView
  decision_view all_red_sec elapsed none = record { green_now = none; yellow_now = none; left = 0 }
  decision_view all_red_sec elapsed (some d) =
      let green_ms = d.green_duration_sec * 1000 in
      let yellow_ms = d.yellow_duration_sec * 1000 in
      if ltb elapsed green_ms
      then record {
        green_now = some d.green_lane;
        yellow_now = none;
        left = ceil_seconds (green_ms - elapsed);
      }
      else if ltb elapsed (green_ms + yellow_ms)
      then record {
        green_now = none;
        yellow_now = some d.green_lane;
        left = ceil_seconds (green_ms + yellow_ms - elapsed);
      }
      else record {
        green_now = none;
        yellow_now = none;
        left = ceil_seconds (green_ms + yellow_ms + all_red_sec * 1000 - elapsed);
      }

  abbrev pub live_view : ℕ → LiveContext F → PhaseView
  live_view all_red_sec ctx =
      decision_view all_red_sec (elapsed_ms ctx)
        (if live_stalled ctx then none else ctx.active_decision)

  abbrev pub scores_of : Option (PriorityResult F) → Dict LaneId F
  scores_of none = []
  scores_of (some r) = note_scores r.scores []

  abbrev pub hold_approach : LiveContext F → LaneId → ApproachState F
  hold_approach ctx lane = approach_state none fl_zero (camera_now ctx lane) red

  abbrev pub live_approach : ℕ → LiveContext F → LaneId → ApproachState F
  live_approach all_red_sec ctx lane =
      let v = live_view all_red_sec ctx in
      approach_state (get lane ctx.lane_stats_history)
        (or_default (get lane (scores_of ctx.last_priority_result)) fl_zero) (camera_now ctx lane)
        (color_of v.green_now v.yellow_now lane)

  -- While the system is stopped or has no pipeline, everything is red.
  unfoldable pub safe_hold_snapshot : LiveContext F → IntersectionSnapshot F
  unfolding approach_state
  safe_hold_snapshot ctx = record {
    active_phase = all_red_phase;
    current_green_lane = none;
    current_yellow_lane = none;
    remaining_time_seconds = 0;
    approaches = map (λ lane. (lane, hold_approach ctx lane)) approach_names;
    safety_status =
        if any is_healthy (map (camera_now ctx) approach_names)
        then degraded_status
        else all_red_hold;
    cycle_count = 0;
  }

  -- `get_snapshot` outside the simulation mode.
  unfoldable pub get_live_snapshot : ℕ → LiveContext F → IntersectionSnapshot F
  unfolding approach_state decision_view safe_hold_snapshot note_scores
  get_live_snapshot all_red_sec ctx =
      let v = live_view all_red_sec ctx in
      let cameras = map (camera_now ctx) approach_names in
      if not ctx.pipeline_running then safe_hold_snapshot ctx else record {
        active_phase = phase_name v.green_now v.yellow_now;
        current_green_lane = v.green_now;
        current_yellow_lane = v.yellow_now;
        remaining_time_seconds = v.left;
        approaches = map (λ lane. (lane, live_approach all_red_sec ctx lane)) approach_names;
        safety_status = status_of (live_stalled ctx || all is_offline cameras) cameras;
        cycle_count = ctx.phase_counter / 4;
      }
