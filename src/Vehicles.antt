-- ===== src/Vehicles.antt =====
-- ai/state/vehicle_state_manager.py: the states of the tracked vehicles of one camera. Lanes stand
-- for their names up to case, which the pipeline writes with a capital throughout. `math.hypot` of
-- the difference of two centroids is the argument `distance`.
use smart_traffic_management.Common.{
  Bool, List, Option, String, [], any, false, if◌then◌else◌, leb, map, none, not, some, true, ℕ,
  ◌+◌, ◌-◌, ◌||◌, ◌∷◌,
}
use smart_traffic_management.Common.Dict.{Dict}
use smart_traffic_management.Common.Equality.{beq, nat_eq}
use smart_traffic_management.Common.Float.{Float, fl_zero, ℤ}
use smart_traffic_management.Intersection.{approach_names}
use smart_traffic_management.Signal.Types.{LaneId, lane_id_eq_inst}
pub mod Update
pub mod Counters
pub mod Invariant
pub mod Replay
pub mod Sightings
pub mod Observed
pub mod Seen
pub mod Grouping

pub data ObservationState : Type 0 where
  observed predicted : ObservationState

abbrev pub Centroid : Type 0
Centroid = ℤ × ℤ

-- `Detection`, less its bounding box and its confidence.
pub record Detection (F : Type 0) : Type 0 where
  pub track_id : Option ℕ
  pub class_name : String
  pub lane : Option LaneId
  pub centroid : Centroid
  pub observation_type : ObservationState
  pub motion_px_sec : F
  pub time_in_lane_sec : F
  pub queue_time_sec : F
  pub is_priority : Bool

pub record VehicleState (F : Type 0) : Type 0 where
  pub track_id : ℕ
  pub class_name : String
  pub lane : LaneId
  pub last_centroid : Centroid
  pub first_seen_timestamp : F
  pub last_seen_timestamp : F
  pub entered_frame : ℕ
  pub last_seen_frame : ℕ
  pub motion_px_sec : F
  pub time_in_lane_sec : F
  pub queue_time_sec : F
  pub consecutive_low_motion_frames : ℕ
  pub consecutive_seen_frames : ℕ
  pub is_queued : Bool
  pub is_alive : Bool
  pub is_confirmed : Bool
  pub is_priority : Bool
  pub observation_type : ObservationState
  pub last_observation_frame_id : ℕ
  pub last_prediction_frame_id : Option ℕ
  pub last_observation_timestamp : F

-- A set of track identifiers is a list without repetitions.
pub record VehicleStateManager (F : Type 0) : Type 0 where
  pub active_states : Dict ℕ (VehicleState F)
  pub historical_tracks_count : Dict LaneId (List ℕ)

-- `CONSECUTIVE_QUEUE_FRAMES`, `MIN_CONFIRMATION_FRAMES`
abbrev pub consecutive_queue_frames : ℕ
consecutive_queue_frames = 10

abbrev pub min_confirmation_frames : ℕ
min_confirmation_frames = 2

abbrev pub add_track : ℕ → List ℕ → List ℕ
add_track tid tids = if any (beq tid) tids then tids else tid ∷ tids

module _ {F : Type 0} where
  abbrev pub new_manager : VehicleStateManager F
  new_manager = record {
    active_states = [];
    historical_tracks_count = map (λ lane. (lane, [])) approach_names;
  }

  -- What the tracker projects refreshes nothing but the kind and the frame of the projection.
  abbrev pub projected : ℕ → VehicleState F → VehicleState F
  projected frame s = record s {
    observation_type = predicted;
    last_prediction_frame_id = some frame;
  }

  -- The detection with the values of its state.
  abbrev pub enriched : VehicleState F → Detection F → Detection F
  enriched s det = record det {
    motion_px_sec = s.motion_px_sec;
    time_in_lane_sec = s.time_in_lane_sec;
    queue_time_sec = s.queue_time_sec;
    is_priority = s.is_priority;
  }

module _ {F : Type 0} ⦃fl : Float F⦄ where
  abbrev pub new_state : ℕ → LaneId → Detection F → ℕ → F → VehicleState F
  new_state tid lane det frame timestamp = record {
    track_id = tid;
    class_name = det.class_name;
    lane = lane;
    last_centroid = det.centroid;
    first_seen_timestamp = timestamp;
    last_seen_timestamp = timestamp;
    entered_frame = frame;
    last_seen_frame = frame;
    motion_px_sec = fl_zero;
    time_in_lane_sec = fl_zero;
    queue_time_sec = fl_zero;
    consecutive_low_motion_frames = 0;
    consecutive_seen_frames = 1;
    is_queued = false;
    is_alive = true;
    is_confirmed = false;
    is_priority = det.is_priority;
    observation_type = observed;
    last_observation_frame_id = frame;
    last_prediction_frame_id = none;
    last_observation_timestamp = timestamp;
  }

  -- A change of the lane starts its times anew.
  unfoldable pub in_lane : LaneId → F → VehicleState F → VehicleState F
  in_lane lane dt s =
      if not (beq s.lane lane)
      then record s {
        lane = lane;
        time_in_lane_sec = fl_zero;
        queue_time_sec = fl_zero;
        consecutive_low_motion_frames = 0;
      }
      else if fl.lt fl_zero dt
      then record s { time_in_lane_sec = fl.add s.time_in_lane_sec dt }
      else s

  abbrev pub moved : F → F → VehicleState F → VehicleState F
  moved dist dt s = if fl.lt fl_zero dt then record s { motion_px_sec = fl.div dist dt } else s

  -- One more frame of low motion, or one less. `QUEUE_MOTION_THRESHOLD_PX_SEC` is 15.0.
  abbrev pub slowed : VehicleState F → VehicleState F
  slowed s = record s {
    consecutive_low_motion_frames =
        if fl.lt s.motion_px_sec (fl.lit 1500)
        then s.consecutive_low_motion_frames + 1
        else s.consecutive_low_motion_frames - 1;
  }

  abbrev pub queued : F → VehicleState F → VehicleState F
  queued dt s =
      if leb consecutive_queue_frames s.consecutive_low_motion_frames
      then record s {
        is_queued = true;
        queue_time_sec = if fl.lt fl_zero dt then fl.add s.queue_time_sec dt else s.queue_time_sec;
      }
      else record s { is_queued = false }

  abbrev pub confirmed : VehicleState F → VehicleState F
  confirmed s =
      let seen = s.consecutive_seen_frames + 1 in
      record s {
        consecutive_seen_frames = seen;
        is_confirmed = leb min_confirmation_frames seen || s.is_confirmed;
      }

  abbrev pub refreshed : Centroid → ℕ → F → VehicleState F → VehicleState F
  refreshed centroid frame timestamp s = record s {
    last_centroid = centroid;
    last_seen_timestamp = timestamp;
    last_seen_frame = frame;
    is_alive = true;
    observation_type = observed;
    last_observation_frame_id = frame;
    last_observation_timestamp = timestamp;
  }

  -- A known vehicle is observed again.
  unfoldable pub observe_again :
      (Centroid → Centroid → F) → LaneId → Detection F → ℕ → F → VehicleState F → VehicleState F
  unfolding in_lane
  observe_again distance lane det frame timestamp s =
      let dt = fl.sub timestamp s.last_seen_timestamp in
      refreshed det.centroid frame timestamp (
        confirmed (
          queued dt
            (slowed (moved (distance det.centroid s.last_centroid) dt (in_lane lane dt s)))))

  abbrev pub observe_state :
      (Centroid → Centroid → F)
      → ℕ
      → LaneId
      → Detection F
      → ℕ
      → F
      → Option (VehicleState F)
      → VehicleState F
  observe_state distance tid lane det frame timestamp none = new_state tid lane det frame timestamp
  observe_state distance tid lane det frame timestamp (some s) =
      observe_again distance lane det frame timestamp s
