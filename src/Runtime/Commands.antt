-- ===== src/Runtime/Commands.antt =====
-- `handle_command` of server/runtime.py, with what it changes. The confidence is compared as a float.
use smart_traffic_management.Common.{
  Bool, Option, String, [], false, if◌then◌else◌, is_some, leb, none, not, some, true, ℕ, ◌&&◌, ◌∷◌,
}
use smart_traffic_management.Common.Dict.{Dict, pop}
use smart_traffic_management.Common.Equality.{nat_eq, string_eq}
use smart_traffic_management.Common.Float.{Float}
use smart_traffic_management.Hardware.{hardware_is_safe_to_run}
use smart_traffic_management.Pipeline.{Pipeline}
use smart_traffic_management.Runtime.{Context, is_safe, set_running}
use smart_traffic_management.Server.{Server, disconnect_node}
use smart_traffic_management.Sessions.{NodeSession, get_session_by_direction, remove_session}
use smart_traffic_management.Signal.Types.{LaneId, lane_id_eq_inst}

pub data Command (F : Type 0) : Type 0 where
  disconnect_camera : Option LaneId → Command F
  configure : F → ℕ → ℕ → Command F
  start stop restart unsupported : Command F

pub data CommandError : Type 0 where
  out_of_range runtime_not_ready unsafe_hardware unsupported_command : CommandError

pub data CommandReply : Type 0 where
  success : CommandReply
  refused_with : CommandError → CommandReply

abbrev pub forget : Option LaneId → Dict LaneId ℕ → Dict LaneId ℕ
forget none seen = seen
forget (some direction) seen = pop direction seen

-- `session.streaming = ctx.system_running` for every session.
abbrev pub stream_all : Bool → Dict String NodeSession → Dict String NodeSession
stream_all on [] = []
stream_all on ((node, s) ∷ rest) = (node, record s { streaming = on }) ∷ stream_all on rest

module _ {A : Type 0} where
  abbrev pub drop_session : Option NodeSession → Server A → Server A
  drop_session none s = s
  drop_session (some session) s = record s {
    session_manager = remove_session session.node_id s.session_manager;
    active_connections = disconnect_node session.node_id s.active_connections;
  }

module _ {F : Type 0} where
  abbrev pub configured : ℕ → ℕ → Pipeline F → Pipeline F
  configured minimum maximum p = record p {
    signal_scheduler = record p.signal_scheduler {
      min_green_sec = minimum;
      max_green_sec = maximum;
    };
  }

  abbrev pub without_phase : Option (Pipeline F) → Option (Pipeline F)
  without_phase none = none
  without_phase (some p) = some (record p { active_decision = none; active_hardware_cmd = none })

module _ {F : Type 0} ⦃fl : Float F⦄ where
  -- Confidence 0.05 to 0.95; 5 ≤ min ≤ max ≤ 120 seconds.
  abbrev pub is_in_range : F → ℕ → ℕ → Bool
  is_in_range confidence minimum maximum =
      not (fl.lt confidence (fl.lit 5))
      && not (fl.lt (fl.lit 95) confidence)
      && leb 5 minimum
      && leb minimum maximum
      && leb maximum 120

module _ {A F : Type 0} where
  -- A command that names no direction is for the north camera, and forgets no frame.
  unfoldable pub disconnect_direction : ℕ → Option LaneId → Context A F → Context A F
  unfolding get_session_by_direction remove_session disconnect_node
  disconnect_direction now direction c = record c {
    server =
        drop_session (get_session_by_direction now direction c.server.session_manager) c.server;
    frame_updated_at = forget direction c.frame_updated_at;
  }

  abbrev pub apply_configuration :
      F → ℕ → ℕ → Option (Pipeline F) → Context A F → CommandReply × Context A F
  apply_configuration confidence minimum maximum none c = (refused_with runtime_not_ready, c)
  apply_configuration confidence minimum maximum (some p) c = (
    success,
    record c { pipeline = some (configured minimum maximum p); confidence = confidence },
  )

  -- STOP and RESTART end the phase and forget the frames, where there is a pipeline.
  abbrev pub reset_phase : Bool → Context A F → Context A F
  reset_phase false c = c
  reset_phase true c = record c {
    pipeline = without_phase c.pipeline;
    frame_updated_at = if is_some c.pipeline then [] else c.frame_updated_at;
  }

  -- The system runs or not, and every session is told.
  unfoldable pub set_system : Bool → Bool → Context A F → Context A F
  set_system running resets c =
      let c' = reset_phase resets c in
      record c' {
        server = record c'.server {
          system_running = running;
          session_manager = record c'.server.session_manager {
            sessions = stream_all running c'.server.session_manager.sessions;
          };
        };
      }

  -- START and RESTART are refused where the hardware is not safe, and the system stops.
  abbrev pub start_system : Bool → Bool → Context A F → CommandReply × Context A F
  start_system true resets c = (success, set_system true resets c)
  start_system false resets c = (refused_with unsafe_hardware, set_running false c)

module _ {A F : Type 0} ⦃fl : Float F⦄ where
  unfoldable pub handle_command : ℕ → Command F → Context A F → CommandReply × Context A F
  unfolding disconnect_direction set_system hardware_is_safe_to_run
  handle_command now (disconnect_camera direction) c =
      (success, disconnect_direction now direction c)
  handle_command now (configure confidence minimum maximum) c =
      if is_in_range confidence minimum maximum
      then apply_configuration confidence minimum maximum c.pipeline c
      else (refused_with out_of_range, c)
  handle_command now start c = start_system (is_safe c.esp32_interface) false c
  handle_command now restart c = start_system (is_safe c.esp32_interface) true c
  handle_command now stop c = (success, set_system false true c)
  handle_command now unsupported c = (refused_with unsupported_command, c)
