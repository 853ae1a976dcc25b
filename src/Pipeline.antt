-- ===== src/Pipeline.antt =====
-- ai/pipeline/traffic_pipeline.py: the state of the pipeline, and what comes in and out of a step. The
-- monotonic clock and the durations taken from it are in milliseconds.
use smart_traffic_management.Common.{Bool, Option, String, [], none, ℕ}
use smart_traffic_management.Common.Dict.{Dict}
use smart_traffic_management.Common.Float.{Float}
use smart_traffic_management.Intersection.{PhaseState, approach_names}
use smart_traffic_management.Signal.Controller.{SignalController}
use smart_traffic_management.Signal.Priority.{init_weights}
use smart_traffic_management.Signal.Scheduler.{Scheduler, new_scheduler}
use smart_traffic_management.Signal.Types.{
  HardwareCommand, LaneId, LaneStatistics, PriorityResult, SignalDecision, Stats, lane_id_eq_inst,
}
use smart_traffic_management.Stabilizer.{
  CountStabilizer, StabilityMetrics, new_stabilizer, no_metrics,
}
pub mod Gather
pub mod Decide
pub mod Step
pub mod Running
pub mod Release
pub mod Keeping
pub mod Demand
pub mod Change
pub mod Emergency
pub mod Outcomes
pub mod Preemption
pub mod Lanes
pub mod Merging
pub mod Cadence
pub mod Bounds

-- One entry of `frames_data`: whether there is a frame, its timestamp, and the statistics that the
-- vision models, the trackers and the analytics find in it, which are not modelled here.
pub record Payload (F : Type 0) : Type 0 where
  pub connected : Bool
  pub timestamp : F
  pub observation : LaneStatistics F

-- The readings of the clocks in one step: `now_mono`, `current_mono_time`, `time.time()`.
pub record Clocks (F : Type 0) : Type 0 where
  pub now_mono : ℕ
  pub current_mono_time : ℕ
  pub time : F

-- `TrafficPipeline`, with the two maps that it keeps in the application context. A start time of 0
-- means that no phase has started.
pub record Pipeline (F : Type 0) : Type 0 where
  pub weights : Dict String F
  pub boost : F
  pub signal_scheduler : Scheduler
  pub signal_controller : SignalController
  pub count_stabilizer : CountStabilizer LaneId F
  pub metrics : StabilityMetrics LaneId
  pub last_detection_ts : Dict LaneId F
  pub last_authoritative_stats : Stats F
  pub lane_stats_history : Stats F
  pub lane_last_seen : Dict LaneId ℕ
  pub phase_counter : ℕ
  pub active_decision : Option (SignalDecision F)
  pub active_hardware_cmd : Option (HardwareCommand F)
  pub last_priority_result : Option (PriorityResult F)
  pub phase_start_time : ℕ
  pub active_empty_since : Option ℕ

-- `PipelineResult`, less what is only displayed.
pub record PipelineResult (F : Type 0) : Type 0 where
  pub has_frame : Bool
  pub lane_stats : Stats F
  pub priority_result : Option (PriorityResult F)
  pub signal_decision : Option (SignalDecision F)
  pub hardware_command : Option (HardwareCommand F)
  pub remaining_green_sec : ℕ
  pub signal_state : PhaseState
  pub is_phase_change : Bool

-- `ALL_RED_SEC`, `EMPTY_LANE_RELEASE_SEC` in milliseconds
abbrev pub all_red_ms : ℕ
all_red_ms = 2000

abbrev pub empty_lane_release_ms : ℕ
empty_lane_release_ms = 1000

module _ {F : Type 0} ⦃fl : Float F⦄ where
  -- `__init__`, with the configured green bounds, yellow time, smoothing, and boost.
  unfoldable pub new_pipeline : ℕ → ℕ → ℕ → F → ℕ → F → Pipeline F
  unfolding init_weights new_stabilizer
  new_pipeline min_green_sec max_green_sec yellow_sec alpha history_size boost = record {
    weights = init_weights none;
    boost = boost;
    signal_scheduler = new_scheduler min_green_sec max_green_sec yellow_sec;
    signal_controller = record { phase_counter = 0 };
    count_stabilizer = new_stabilizer approach_names alpha history_size;
    metrics = no_metrics;
    last_detection_ts = [];
    last_authoritative_stats = [];
    lane_stats_history = [];
    lane_last_seen = [];
    phase_counter = 0;
    active_decision = none;
    active_hardware_cmd = none;
    last_priority_result = none;
    phase_start_time = 0;
    active_empty_since = none;
  }
