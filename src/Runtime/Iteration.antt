-- ===== src/Runtime/Iteration.antt =====
-- `runtime_snapshot`, `apply_signal` and `run_runtime_iteration` of server/runtime.py. Of a snapshot's
-- telemetry, the frame ids and latencies that are only copied are left out; publishing it to the
-- clients cannot fail here.
use smart_traffic_management.Common.{
  Bool, List, Option, String, [], any, false, if◌then◌else◌, is_empty, is_some, ltb, none, not,
  or_default, some, true, ℕ, ◌&&◌, ◌+◌, ◌-◌, ◌∷◌,
}
use smart_traffic_management.Common.Dict.{Dict, get, put}
use smart_traffic_management.Common.Equality.{beq, nat_eq, string_eq}
use smart_traffic_management.Common.Float.{Float, fl_zero}
use smart_traffic_management.Hardware.{Esp32Interface, hardware_is_safe_to_run}
use smart_traffic_management.Intersection.{all_red, approach_names}
use smart_traffic_management.Pipeline.{Pipeline, PipelineResult}
use smart_traffic_management.Pipeline.Step.{process_step}
use smart_traffic_management.Runtime.{
  decided, Context, LaneView, PhaseReason, Snapshot, StreamStatus, approach_unavailable,
  connecting_camera, control, is_safe, live, no_camera, no_reason, set_running, stale,
  system_is_paused, waiting_for_frames,
}
use smart_traffic_management.Runtime.Processing.{Moment, Settings, lane_view}
use smart_traffic_management.Server.{Server, disconnect_node}
use smart_traffic_management.Sessions.{
  get_expired_sessions, get_session_by_direction, remove_session,
}
use smart_traffic_management.Signal.Scheduler.{Outcome, returned, value_error}
use smart_traffic_management.Signal.Types.{LaneId, SignalDecision, lane_id_eq_inst}

abbrev pub status_of : Bool → Bool → Bool → StreamStatus
status_of true has_session has_seen = live
status_of false true true = stale
status_of false true false = connecting_camera
status_of false false has_seen = no_camera

abbrev pub is_fresh : ℕ → Option ℕ → Bool
is_fresh now_mono none = false
is_fresh now_mono (some seen_at) = ltb (now_mono - seen_at) 3000

abbrev pub is_live_status : StreamStatus → Bool
is_live_status live = true
is_live_status _ = false

-- Whether the active phase is one of the lanes.
abbrev pub is_among : Option LaneId → List LaneId → Bool
is_among none lanes = false
is_among (some lane) lanes = any (beq lane) lanes

abbrev pub pause_reason : Bool → Bool → PhaseReason
pause_reason false has_live = system_is_paused
pause_reason true false = waiting_for_frames
pause_reason true true = approach_unavailable

module _ {F : Type 0} where
  abbrev pub live_names : Dict LaneId (LaneView F) → List LaneId
  live_names [] = []
  live_names ((lane, shown) ∷ lanes) =
      let rest = live_names lanes in
      if is_live_status shown.stream_status then lane ∷ rest else rest

  abbrev pub sum_live : (LaneView F → ℕ) → Dict LaneId (LaneView F) → ℕ
  sum_live f [] = 0
  sum_live f ((lane, shown) ∷ lanes) =
      (if is_live_status shown.stream_status then f shown else 0) + sum_live f lanes

  abbrev pub withdrawn : PhaseReason → Snapshot F → Snapshot F
  withdrawn reason s = record s {
    active_phase = none;
    time_remaining = 0;
    green_duration = 0;
    signal_state = all_red;
    phase_reason = reason;
  }

  -- The phase is shown only where the system runs and the camera of its approach is live.
  unfoldable pub guard_phase : Bool → List LaneId → Snapshot F → Snapshot F
  guard_phase running live_lanes s =
      if running && not (is_empty live_lanes) && is_among s.active_phase live_lanes
      then s
      else withdrawn (pause_reason running (not (is_empty live_lanes))) s

  abbrev pub signalled : Option (SignalDecision F) → PipelineResult F → Snapshot F → Snapshot F
  signalled none result s = s
  signalled (some d) result s = record s {
    active_phase = some d.green_lane;
    green_duration = d.green_duration_sec;
    time_remaining = result.remaining_green_sec;
    phase_reason = decided d.reason;
    signal_state = result.signal_state;
  }

  unfoldable pub apply_signal : PipelineResult F → Option (Snapshot F) → Option (Snapshot F)
  apply_signal result none = none
  apply_signal result (some s) = some (signalled result.signal_decision result s)

module _ {A : Type 0} where
  -- An expired session goes with its connection.
  unfoldable pub expire_all : List String → Server A → Server A
  unfolding remove_session disconnect_node
  expire_all [] s = s
  expire_all (node ∷ nodes) s = expire_all nodes (record s {
    session_manager = remove_session node s.session_manager;
    active_connections = disconnect_node node s.active_connections;
  })

module _ {A F : Type 0} where
  unfoldable pub lane_status : ℕ → ℕ → LaneId → Context A F → StreamStatus
  unfolding get_session_by_direction
  lane_status now now_mono lane c =
      let session = get_session_by_direction now (some lane) c.server.session_manager in
      let seen_at = get lane c.frame_updated_at in
      status_of (c.server.system_running && is_some session && is_fresh now_mono seen_at)
        (is_some session) (is_some seen_at)

  unfoldable pub expire_sessions : ℕ → Context A F → Context A F
  unfolding get_expired_sessions expire_all
  expire_sessions now c = record c {
    server = expire_all (get_expired_sessions now c.server.session_manager.sessions) c.server;
  }

  -- After an exception the system stops where the hardware is not safe.
  unfoldable pub contain_fault : Context A F → Context A F
  unfolding hardware_is_safe_to_run
  contain_fault c =
      let c' = record c { frame_processing_errors = c.frame_processing_errors + 1 } in
      if is_safe c.esp32_interface then c' else set_running false c'

module _ {F : Type 0} ⦃fl : Float F⦄ where
  -- The view of a lane, with the status of its camera.
  abbrev pub viewed : StreamStatus → Option (LaneView F) → LaneId → LaneView F
  viewed status none lane = record (lane_view lane none []) { stream_status = status }
  viewed status (some shown) lane = record shown { stream_status = status }

  abbrev pub empty_snapshot : Snapshot F
  empty_snapshot = record {
    frame_id = none;
    active_phase = none;
    signal_state = all_red;
    green_duration = 0;
    time_remaining = 0;
    phase_reason = no_reason;
    total_vehicles = 0;
    queue_length = 0;
    pce_score = fl_zero;
    lanes = [];
    system_running = false;
    pipeline_healthy = false;
  }

module _ {A F : Type 0} ⦃fl : Float F⦄ where
  abbrev pub view_lanes :
      ℕ → ℕ → List LaneId → Context A F → Dict LaneId (LaneView F) → Dict LaneId (LaneView F)
  view_lanes now now_mono [] c lanes = lanes
  view_lanes now now_mono (lane ∷ rest) c lanes =
      view_lanes now now_mono rest c
        (put lane (viewed (lane_status now now_mono lane c) (get lane lanes) lane) lanes)

  unfoldable pub runtime_snapshot : ℕ → ℕ → Context A F → Snapshot F
  unfolding lane_status guard_phase lane_view
  runtime_snapshot now now_mono c =
      let base = or_default c.latest_snapshot empty_snapshot in
      let lanes = view_lanes now now_mono approach_names c base.lanes in
      let live_lanes = live_names lanes in
      guard_phase c.server.system_running live_lanes (record base {
        lanes = lanes;
        total_vehicles = sum_live LaneView.vehicles lanes;
        queue_length = sum_live LaneView.queue lanes;
        system_running = c.server.system_running;
        pipeline_healthy = c.server.system_running && not (is_empty live_lanes);
      })

  -- The new snapshot is kept, and the iteration reports success.
  unfoldable pub publish_snapshot : ℕ → ℕ → Context A F → Bool × Context A F
  unfolding runtime_snapshot
  publish_snapshot now now_mono c =
      (true, record c { latest_snapshot = some (runtime_snapshot now now_mono c) })

  abbrev pub after_control : ℕ → ℕ → PipelineResult F × Context A F → Bool × Context A F
  after_control now now_mono (shown, c) =
      publish_snapshot now now_mono
        (record c { latest_snapshot = apply_signal shown c.latest_snapshot })

  -- The step without frames, and its command; without a control manager it raises.
  abbrev pub after_tick :
      Moment F
      → ℕ
      → Option (Esp32Interface F)
      → Outcome (PipelineResult F × Pipeline F)
      → Context A F
      → Bool × Context A F
  after_tick m now_mono o value_error c = (false, contain_fault c)
  after_tick m now_mono none (returned (result, p)) c =
      (false, contain_fault (record c { pipeline = some p }))
  after_tick m now_mono (some i) (returned (result, p)) c =
      after_control m.now now_mono
        (control m.sending m.clocks.time result i (record c { pipeline = some p }))

  abbrev pub tick :
      Settings F → Moment F → ℕ → Option (Pipeline F) → Context A F → Bool × Context A F
  tick st m now_mono none c = publish_snapshot m.now now_mono c
  tick st m now_mono (some p) c =
      if c.server.system_running && is_some p.active_decision
      then after_tick m now_mono c.esp32_interface
          (process_step st.detector_fps st.order m.clocks [] p) c
      else publish_snapshot m.now now_mono c

  unfoldable pub run_runtime_iteration :
      Settings F → Moment F → ℕ → Context A F → Bool × Context A F
  unfolding expire_sessions contain_fault control publish_snapshot apply_signal
  run_runtime_iteration st m now_mono c =
      let c' = expire_sessions m.now c in tick st m now_mono c'.pipeline c'
