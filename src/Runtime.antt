-- ===== src/Runtime.antt =====
-- core/application_context.py and the state that server/runtime.py, server/frame_coordinator.py and
-- `_process_frame_locked` of server/message_handler.py share. Clocks are in milliseconds. Images,
-- annotated frames and measured latencies are left out.
use smart_traffic_management.Common.{
  Bool, Option, String, false, if◌then◌else◌, none, some, true, ℕ,
}
use smart_traffic_management.Common.Dict.{Dict}
use smart_traffic_management.Common.Equality.{nat_eq, string_eq}
use smart_traffic_management.Deployment.{DeploymentProfile, is_simulated}
use smart_traffic_management.Hardware.{
  Esp32Interface, OpenReply, SendReply, hardware_is_safe_to_run, new_interface,
}
use smart_traffic_management.Hardware.Control.{process_result}
use smart_traffic_management.Intersection.{PhaseState}
use smart_traffic_management.Pipeline.{Pipeline, PipelineResult}
use smart_traffic_management.Server.{Server, StageCounters}
use smart_traffic_management.Signal.Types.{DecisionReason, Density, LaneId, lane_id_eq_inst}
pub mod Commands
pub mod Processing
pub mod Coordinator
pub mod Iteration
pub mod Shown
pub mod Operation
pub mod Expiry
pub mod Batching
pub mod Steady
pub mod History

-- What runtime_snapshot says of a camera.
pub data StreamStatus : Type 0 where
  live stale connecting_camera no_camera : StreamStatus

-- One lane of a snapshot.
pub record LaneView (F : Type 0) : Type 0 where
  pub vehicles : ℕ
  pub historical_count : ℕ
  pub queue : ℕ
  pub wait : F
  pub pce : F
  pub density : Density
  pub priority : F
  pub raw_count : ℕ
  pub smoothed_count : F
  pub stream_status : StreamStatus

pub data PhaseReason : Type 0 where
  no_reason system_is_paused waiting_for_frames approach_unavailable : PhaseReason
  decided : DecisionReason → PhaseReason

-- The payload of a snapshot. The text "None" of `activePhase` is `none`.
pub record Snapshot (F : Type 0) : Type 0 where
  pub frame_id : Option String
  pub active_phase : Option LaneId
  pub signal_state : PhaseState
  pub green_duration : ℕ
  pub time_remaining : ℕ
  pub phase_reason : PhaseReason
  pub total_vehicles : ℕ
  pub queue_length : ℕ
  pub pce_score : F
  pub lanes : Dict LaneId (LaneView F)
  pub system_running : Bool
  pub pipeline_healthy : Bool

-- `ApplicationContext`; the sessions, the connections, the counters and `system_running` stand in
-- the server's state.
pub record Context (A F : Type 0) : Type 0 where
  pub server : Server A
  pub pipeline : Option (Pipeline F)
  pub esp32_interface : Option (Esp32Interface F)
  pub confidence : F
  pub frame_updated_at : Dict LaneId ℕ
  pub latest_snapshot : Option (Snapshot F)
  pub frame_processing_errors : ℕ
  -- `_frame_count` of the pipeline
  pub frame_count : ℕ

module _ {F : Type 0} where
  -- A command may go out where there is no control manager yet, or where its hardware is safe.
  abbrev pub is_safe : Option (Esp32Interface F) → Bool
  is_safe none = true
  is_safe (some i) = hardware_is_safe_to_run i.status

module _ {A F : Type 0} where
  abbrev pub set_running : Bool → Context A F → Context A F
  set_running on c = record c { server = record c.server { system_running = on } }

  abbrev pub tally : (StageCounters → StageCounters) → Context A F → Context A F
  tally change c = record c {
    server = record c.server { stage_counters = change c.server.stage_counters };
  }

  -- `initialize_control_manager`: a new interface for the profile; where it is not safe to run, the
  -- system stops.
  unfoldable pub initialize_control_manager :
      OpenReply → DeploymentProfile F → Context A F → Context A F
  unfolding new_interface hardware_is_safe_to_run
  initialize_control_manager reply profile c =
      let i = new_interface profile.serial_port (is_simulated profile.hardware_mode) reply in
      let c' = record c { esp32_interface = some i } in
      if hardware_is_safe_to_run i.status then c' else set_running false c'

  -- `ctx.control_manager.process_result(result)`
  unfoldable pub control :
      SendReply
      → F
      → PipelineResult F
      → Esp32Interface F
      → Context A F
      → PipelineResult F × Context A F
  unfolding process_result
  control reply time result i c =
      let (shown, after) =
        process_result reply time result
          (record { esp32_interface = i; system_running = c.server.system_running }) in
      (
        shown,
        record c {
          server = record c.server { system_running = after.system_running };
          esp32_interface = some after.esp32_interface;
        },
      )
