-- ===== src/Intersection/Snapshot.antt =====
-- The simulated snapshots of ai/pipeline/digital_intersection.py. Clocks and durations are
-- in milliseconds unless a name says seconds; the wall-clock `timestamp` of a snapshot is left out.
pub mod Live
pub mod Exclusion
use smart_traffic_management.Common.{
  ℕ, ◌+◌, ◌-◌, ◌*◌, ◌/◌, String, Bool, true, false, not, ◌&&◌, ◌||◌, Option, none, some, List, [],
  ◌∷◌, map, ltb, if◌then◌else◌, or_default, all, any,
}
use smart_traffic_management.Common.Equality.{beq}
use smart_traffic_management.Common.Dict.{Dict, get, put, values}
use smart_traffic_management.Common.Float.{Float, fl_zero}
use smart_traffic_management.Signal.Types.{
  LaneId, approach, north, south, east, west, PriorityScore, PriorityResult, SignalDecision,
  LaneStatistics, Stats, lane_id_eq_inst,
}
use smart_traffic_management.Intersection.{
  approach_names, Intersection, PhaseState, CameraStatus, healthy, degraded, offline, is_offline,
  all_cameras_offline, must_hold, note_scores,
}

pub data SignalColor : Type 0 where
  red yellow green : SignalColor

pub data SafetyStatus : Type 0 where
  normal all_red_hold degraded_status : SafetyStatus

-- `active_phase`: "all_red", "<lane>_green" or "<lane>_yellow"
pub data ActivePhase : Type 0 where
  all_red_phase : ActivePhase
  green_phase yellow_phase : LaneId → ActivePhase

pub record ApproachState (F : Type 0) : Type 0 where
  pub vehicles : ℕ
  pub queue : ℕ
  pub pce : F
  pub priority : F
  pub camera_status : CameraStatus
  pub signal : SignalColor

pub record IntersectionSnapshot (F : Type 0) : Type 0 where
  pub active_phase : ActivePhase
  pub current_green_lane : Option LaneId
  pub current_yellow_lane : Option LaneId
  pub remaining_time_seconds : ℕ
  pub approaches : Dict LaneId (ApproachState F)
  pub safety_status : SafetyStatus
  pub cycle_count : ℕ

-- `max(0, int(math.ceil(seconds)))` of a time in milliseconds
abbrev pub ceil_seconds : ℕ → ℕ
ceil_seconds ms = (ms + 999) / 1000

abbrev pub names : LaneId → Option LaneId → Bool
names lane none = false
names lane (some l) = beq l lane

-- The signal of a lane, from the lanes that are green and yellow.
abbrev pub color_of : Option LaneId → Option LaneId → LaneId → SignalColor
color_of green_lane yellow_lane lane =
    if names lane green_lane then green else if names lane yellow_lane then yellow else red

abbrev pub is_healthy : CameraStatus → Bool
is_healthy healthy = true
is_healthy _ = false

-- Any camera that is not healthy degrades the status, unless everything is on hold.
abbrev pub status_of : Bool → List CameraStatus → SafetyStatus
status_of held cameras =
    if held then all_red_hold else if all is_healthy cameras then normal else degraded_status

-- The lane that a phase shows green, and the one that it shows yellow.
abbrev pub lit_green : PhaseState → Option LaneId → Option LaneId
lit_green PhaseState.green lane = lane
lit_green _ lane = none

abbrev pub lit_yellow : PhaseState → Option LaneId → Option LaneId
lit_yellow PhaseState.yellow lane = lane
lit_yellow _ lane = none

abbrev pub phase_name : Option LaneId → Option LaneId → ActivePhase
phase_name (some lane) y = green_phase lane
phase_name none (some lane) = yellow_phase lane
phase_name none none = all_red_phase

module _ {F : Type 0} ⦃fl : Float F⦄ where
  -- One approach of a snapshot, with the rounding of `to_dict`.
  unfoldable pub approach_state :
      Option (LaneStatistics F) → F → CameraStatus → SignalColor → ApproachState F
  approach_state none priority status color = record {
    vehicles = 0;
    queue = 0;
    pce = fl.round2 fl_zero;
    priority = fl.round2 priority;
    camera_status = status;
    signal = color;
  }
  approach_state (some stat) priority status color = record {
    vehicles = stat.raw_count;
    queue = stat.stopped_count;
    pce = fl.round2 stat.pce_score;
    priority = fl.round2 priority;
    camera_status = status;
    signal = color;
  }

  abbrev pub sim_approach : Intersection F → LaneId → ApproachState F
  sim_approach st lane =
      approach_state (get lane st.stats) (or_default (get lane st.last_priority_scores) fl_zero)
        (or_default (get lane st.camera_status) offline)
        (color_of (lit_green st.phase_state st.active_lane)
          (lit_yellow st.phase_state st.active_lane) lane)

  unfoldable pub build_sim_snapshot : Intersection F → IntersectionSnapshot F
  unfolding approach_state
  build_sim_snapshot st =
      let g = lit_green st.phase_state st.active_lane in
      let y = lit_yellow st.phase_state st.active_lane in
      record {
        active_phase = phase_name g y;
        current_green_lane = g;
        current_yellow_lane = y;
        remaining_time_seconds = ceil_seconds st.remaining;
        approaches = map (λ lane. (lane, sim_approach st lane)) approach_names;
        safety_status = status_of (must_hold st) (values st.camera_status);
        cycle_count = st.cycle_count;
      }
