-- ===== src/Runtime/Processing.antt =====
-- `_process_frame_locked` of server/message_handler.py: one decoded frame goes through the pipeline and
-- the control manager, and becomes a snapshot. The vision models are a parameter.
use smart_traffic_management.Common.{
  List, Option, String, [], false, if◌then◌else◌, is_some, ltb, map, none, not, or_default, some,
  true, ℕ, ◌&&◌, ◌+◌, ◌-◌, ◌∷◌,
}
use smart_traffic_management.Common.Dict.{Dict, get, put, values}
use smart_traffic_management.Common.Equality.{nat_eq, string_eq}
use smart_traffic_management.Common.Float.{Float, fl_zero, of_ℕ, sum_from}
use smart_traffic_management.Deployment.{DeploymentProfile}
use smart_traffic_management.Hardware.{Esp32Interface, OpenReply, SendReply}
use smart_traffic_management.Pipeline.{Clocks, Payload, Pipeline, PipelineResult}
use smart_traffic_management.Pipeline.Step.{process_step}
use smart_traffic_management.Runtime.{
  Context, LaneView, Snapshot, control, initialize_control_manager, no_camera, no_reason, tally,
}
use smart_traffic_management.Server.{Frame, StageCounters}
use smart_traffic_management.Signal.Scheduler.{Outcome, returned, value_error}
use smart_traffic_management.Signal.Types.{
  low, LaneId, LaneStatistics, PriorityResult, PriorityScore, SignalDecision, Stats, approach, east,
  lane_id_eq_inst, north, or_now, south, west,
}

-- Decoding with the correction of the orientation; the detector, which takes the images of a batch with
-- their frame numbers and timestamps and gives their detections and the time it took; and what trackers
-- and analytics make of an image with or without detections that were computed before.
pub record Vision (A I D F : Type 0) : Type 0 where
  pub decode : A → Option I
  pub detect_batch : List I → List ℕ → List F → List D × F
  pub observe_image : LaneId → I → Option (D × F) → LaneStatistics F

-- What a frame reads while it is processed: the clocks, and the replies of the port.
pub record Moment (F : Type 0) : Type 0 where
  pub now : ℕ
  pub clocks : Clocks F
  pub opening : OpenReply
  pub sending : SendReply

-- The configuration; `order` lists a set in Python's order, `fresh` is a new pipeline.
pub record Settings (F : Type 0) : Type 0 where
  pub detector_fps : F
  pub order : List LaneId → List LaneId
  pub profile : DeploymentProfile F
  pub fresh : Pipeline F
  pub batch_size : ℕ

abbrev pub count_decoded : StageCounters → StageCounters
count_decoded c = record c { decoded_frames = c.decoded_frames + 1 }

abbrev pub sum_counts : {F : Type 0} → (LaneStatistics F → ℕ) → List (LaneStatistics F) → ℕ
sum_counts f [] = 0
sum_counts f (s ∷ stats) = f s + sum_counts f stats

abbrev pub snapshot_lanes : List LaneId
snapshot_lanes = approach north ∷ approach south ∷ approach east ∷ approach west ∷ []

module _ {F : Type 0} ⦃fl : Float F⦄ where
  -- Milliseconds as seconds.
  abbrev pub seconds : ℕ → F
  seconds ms = fl.div (of_ℕ ms) (of_ℕ 1000)

  -- `{score.lane: score.score for score in scores}`
  abbrev pub scores_by_lane : List (PriorityScore F) → Dict LaneId F → Dict LaneId F
  scores_by_lane [] acc = acc
  scores_by_lane (s ∷ scores) acc = scores_by_lane scores (put s.lane s.score acc)

  abbrev pub scores_of : Option (PriorityResult F) → List (PriorityScore F)
  scores_of none = []
  scores_of (some r) = r.scores

  unfoldable pub lane_view : LaneId → Option (LaneStatistics F) → Dict LaneId F → LaneView F
  lane_view lane none priorities = record {
    vehicles = 0;
    historical_count = 0;
    queue = 0;
    wait = fl_zero;
    pce = fl_zero;
    density = low;
    priority = fl_zero;
    raw_count = 0;
    smoothed_count = fl_zero;
    stream_status = no_camera;
  }
  lane_view lane (some s) priorities = record {
    vehicles = s.live_count;
    historical_count = s.historical_count;
    queue = s.stopped_count;
    wait = fl.round1 s.max_queue_time_sec;
    pce = fl.round1 s.pce_score;
    density = s.density;
    priority = fl.round2 (or_default (get lane priorities) fl_zero);
    raw_count = s.raw_count;
    smoothed_count = fl.round2 s.smoothed_count;
    stream_status = no_camera;
  }

  abbrev pub lane_views : List LaneId → Stats F → Dict LaneId F → Dict LaneId (LaneView F)
  lane_views [] stats priorities = []
  lane_views (lane ∷ lanes) stats priorities =
      (lane, lane_view lane (get lane stats) priorities) ∷ lane_views lanes stats priorities

  -- `green_lane` of the decision, else the direction of the frame.
  abbrev pub phase_of : LaneId → Option (SignalDecision F) → LaneId
  phase_of direction none = direction
  phase_of direction (some d) = d.green_lane

  abbrev pub duration_of : Option (SignalDecision F) → ℕ
  duration_of none = 0
  duration_of (some d) = d.green_duration_sec

  -- The last two fields are runtime_snapshot's.
  unfoldable pub snapshot_of : String → LaneId → PipelineResult F → Snapshot F
  unfolding lane_view
  snapshot_of frame_id direction result = record {
    frame_id = some frame_id;
    active_phase = some (phase_of direction result.signal_decision);
    signal_state = result.signal_state;
    green_duration = duration_of result.signal_decision;
    time_remaining = result.remaining_green_sec;
    phase_reason = no_reason;
    total_vehicles = sum_counts LaneStatistics.live_count (values result.lane_stats);
    queue_length = sum_counts LaneStatistics.stopped_count (values result.lane_stats);
    pce_score =
        fl.round1 (sum_from fl_zero (map LaneStatistics.pce_score (values result.lane_stats)));
    lanes =
        lane_views snapshot_lanes result.lane_stats
          (scores_by_lane (scores_of result.priority_result) []);
    system_running = false;
    pipeline_healthy = false;
  }

module _ {A I D F : Type 0} ⦃fl : Float F⦄ (v : Vision A I D F) (st : Settings F) where
  -- The interface of the control manager, which is made on first use.
  abbrev pub with_control : OpenReply → Option (Esp32Interface F) → Context A F → Context A F
  with_control reply (some i) c = c
  with_control reply none c = initialize_control_manager reply st.profile c

  abbrev pub frame_payload : Moment F → Frame A → I → Option (D × F) → Payload F
  frame_payload m frame image detection = record {
    connected = true;
    timestamp = or_now (seconds frame.backend_receive_monotonic) m.clocks.time;
    observation = v.observe_image frame.direction image detection;
  }

  abbrev pub shown_by :
      Moment F
      → PipelineResult F
      → Option (Esp32Interface F)
      → Context A F
      → PipelineResult F × Context A F
  shown_by m result none c = (result, c)
  shown_by m result (some i) c = control m.sending m.clocks.time result i c

  abbrev pub after_step :
      Moment F
      → Frame A
      → Context A F
      → Outcome (PipelineResult F × Pipeline F)
      → Outcome (Option (Snapshot F)) × Context A F
  after_step m frame c value_error = (value_error, c)
  after_step m frame c (returned (result, p)) =
      let (shown, c') = shown_by m result c.esp32_interface (record c { pipeline = some p }) in
      (returned (some (snapshot_of frame.frame_id frame.direction shown)), c')

  -- A frame without detections that waited for more than 2.5 seconds is left.
  unfoldable pub process_frame :
      Moment F
      → Frame A
      → I
      → Option (D × F)
      → Context A F
      → Outcome (Option (Snapshot F)) × Context A F
  unfolding initialize_control_manager control snapshot_of
  process_frame m frame image detection c =
      let p = or_default c.pipeline st.fresh in
      let c' = with_control m.opening c.esp32_interface (tally count_decoded c) in
      if not (is_some detection) && ltb 2500 (m.now - frame.backend_receive_timestamp)
      then (returned none, c)
      else after_step m frame (record c' { pipeline = some p; frame_count = c'.frame_count + 1 })
          (process_step st.detector_fps st.order m.clocks
            ((frame.direction, frame_payload m frame image detection) ∷ []) p)
