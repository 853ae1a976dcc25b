-- ===== src/Tests/Server.antt =====
-- server/message_handler.py at concrete inputs. The content of a frame is a number.
use smart_traffic_management.Common.{
  List, Option, String, [], arith, length, none, refl, some, true, ℕ, ◌+◌, ◌-◌, ◌∷◌, ◌≡◌,
}
use smart_traffic_management.Common.Dict.{values}
use smart_traffic_management.Common.Equality.{nat_eq, string_eq}
use smart_traffic_management.Common.Float.{hundredths}
use smart_traffic_management.Server.{
  Environment, Frame, Message, MessagePayload, Server, connect_node, disconnect_node, empty_payload,
  encoded, failure, get_connection, message_type_of, new_server, object, registered,
  unauthorized_session,
}
use smart_traffic_management.Server.Admission.{
  Admission, is_admitted, is_paired, register_checked_lem,
}
use smart_traffic_management.Server.Authorization.{IsGuarded, process_message-IsGuarded}
use smart_traffic_management.Server.Frames.{
  enqueue, handle_video_frame, submit_decoded_frame, take_packets,
}
use smart_traffic_management.Server.Messages.{
  act, authorized_session, handle_disconnect, handle_heartbeat, process_message,
}
use smart_traffic_management.Server.Failures.{IsHarmless}
use smart_traffic_management.Server.Keeping.{same_sessions-IsValid}
use smart_traffic_management.Server.Refusals.{process_message_fails}
use smart_traffic_management.Server.Registration.{
  handle_register_camera, named_direction, register, register_checked, requested_direction,
  requested_node,
}
use smart_traffic_management.Server.Slots.{
  FrameEvent, apply_frame_event, arrivals, arrives, handed_over, newest, run_events,
  run_events-IsCounted, run_events_refines, taken, waiting_frame,
}
use smart_traffic_management.Server.Validity.{run_messages, run_messages-IsValid}
use smart_traffic_management.Sessions.History.{no_sessions, no_sessions-IsValid}
use smart_traffic_management.Sessions.Uniqueness.{IsValid}
use smart_traffic_management.Sessions.{
  clear_pairing_session, create_session, get_pairing_session, get_session, get_session_by_direction,
  is_expired, new_session, remove_session, update_heartbeat, validate_pairing_session,
  validate_session,
}
use smart_traffic_management.Signal.Types.{approach, lane_id_eq_inst, north, south, west}

abbrev pub env_at : ℕ → Environment ℕ
env_at now = record {
  now = now;
  now_mono = now;
  new_token = "t-2";
  new_frame_id = "north-1";
  is_well_formed = λ msg. true;
  answer = none;
}

-- One camera is registered for north, over socket 7.
abbrev pub one_camera : Server ℕ
one_camera = record (new_server 15000) {
  session_manager = record {
    sessions = ("cam-1", new_session 1000 "t-1" "cam-1" (approach north) 15000) ∷ [];
    pairing_sessions =
        (approach south, record { session_id = "cam-2"; token = "qr"; expires_at = 9000 }) ∷ [];
    timeout = 15000;
  };
  active_connections = ("cam-1", 7) ∷ [];
}

abbrev pub message_of : String → MessagePayload ℕ → Message ℕ
message_of text p = record {
  message_type = some text;
  type_name = none;
  protocol_version = some "1.0";
  id = some "m-1";
  token = none;
  payload = object p;
}

abbrev pub from_camera : MessagePayload ℕ
from_camera = record empty_payload {
  node_id = some "cam-1";
  session_token = some "t-1";
  frame = encoded 100 42;
  frame_id = some "f-1";
}

abbrev pub frame_message : Message ℕ
frame_message = message_of "VIDEO_FRAME" from_camera

abbrev pub north_frame : Frame ℕ
north_frame = record {
  owner_socket = 7;
  node_id = some "cam-1";
  session_token = "t-1";
  direction = approach north;
  frame_id = "f-1";
  capture_timestamp = 2000;
  upload_timestamp = 2000;
  backend_receive_timestamp = 2000;
  backend_receive_monotonic = 2000;
  content = 42;
}

-- All that a message computes with.
unfoldable pub handling : Unit {0}
unfolding process_message message_type_of handle_register_camera requested_node requested_direction
    named_direction register_checked register validate_pairing_session get_pairing_session
    clear_pairing_session get_session get_session_by_direction create_session is_expired
    authorized_session validate_session get_connection act handle_video_frame enqueue
    handle_heartbeat update_heartbeat handle_disconnect remove_session connect_node disconnect_node
    new_server submit_decoded_frame apply_frame_event take_packets
handling = tt

frame_waits :
    (process_message (env_at 2000) 7 (some frame_message) one_camera).1.latest_frames
    ≡ (approach north, north_frame) ∷ []
unfolding handling
frame_waits = refl

-- The same frame over another socket.
other_socket :
    (process_message (env_at 2000) 8 (some frame_message) one_camera).0
    ≡ some (record { body = failure unauthorized_session; id = none })
unfolding handling
other_socket = refl

-- The direction is in the node's id, in lower case.
direction_of_id : named_direction "gate-west-2" ≡ some (approach west)
unfolding named_direction
direction_of_id = refl

abbrev south_request : Message ℕ
south_request =
    record (message_of "REGISTER_CAMERA"
      (record empty_payload { node_id = some "cam-2"; camera_direction = some (approach south) })) {
        token = some "qr";
      }

south_is_registered :
    (process_message (env_at 2000) 8 (some south_request) one_camera).0
    ≡ some (record { body = registered "cam-2" "t-2" (approach south); id = some "m-1" })
unfolding handling
south_is_registered = refl

process_message-IsGuarded_example :
    IsGuarded 2000 7 one_camera (process_message (env_at 2000) 7 (some frame_message) one_camera).1
process_message-IsGuarded_example =
    process_message-IsGuarded (env_at 2000) 7 (some frame_message) one_camera

register_checked_lem_example :
    Admission
      (env_at 2000)
      8
      (is_admitted (env_at 2000) 8 south_request "cam-2" (approach south) one_camera)
      (is_paired 2000 (approach south) "cam-2" "qr" one_camera.session_manager)
      "cam-2"
      (approach south)
      one_camera
      (register_checked (env_at 2000) 8 south_request "cam-2" (approach south) one_camera)
register_checked_lem_example =
    register_checked_lem (env_at 2000) 8 south_request "cam-2" (approach south) one_camera

process_message_fails_example :
    IsHarmless 2000 one_camera (process_message (env_at 2000) 8 (some frame_message) one_camera).1
unfolding handling
process_message_fails_example =
    process_message_fails (env_at 2000) 8 unauthorized_session none (some frame_message) one_camera
      refl

-- Two frames of north, a take, and one more.
abbrev frame_events : List (FrameEvent ℕ)
frame_events =
    arrives north_frame
    ∷ arrives (record north_frame { content = 43 })
    ∷ taken
    ∷ arrives (record north_frame { content = 44 })
    ∷ []

run_events_refines_example :
    waiting_frame (run_events frame_events one_camera)
    ≡ newest frame_events (waiting_frame one_camera)
run_events_refines_example = run_events_refines frame_events one_camera

one_was_dropped : (run_events frame_events one_camera).dropped_frames_count ≡ 1
unfolding handling
one_was_dropped = refl

run_events-IsCounted_example :
    length (values one_camera.latest_frames) + arrivals frame_events
    ≡ length (values (run_events frame_events one_camera).latest_frames)
      + handed_over frame_events one_camera
      + ((run_events frame_events one_camera).dropped_frames_count - 0)
unfolding new_server
run_events-IsCounted_example = (run_events-IsCounted frame_events one_camera).3

-- The node of the pairing registers over socket 8, and then a frame comes over socket 7.
abbrev south_then_frame : List (Environment ℕ × ℕ × Option (Message ℕ))
south_then_frame = (env_at 2000, 8, some south_request) ∷ (env_at 2500, 7, some frame_message) ∷ []

abbrev no_camera : Server ℕ
no_camera = record one_camera {
  session_manager = record one_camera.session_manager { sessions = [] };
}

run_messages-IsValid_example :
    IsValid 2500 (run_messages south_then_frame no_camera).session_manager
run_messages-IsValid_example =
    run_messages-IsValid 1000 south_then_frame no_camera (omega arith, (omega arith, tt))
      (same_sessions-IsValid 1000 (no_sessions 15000) no_camera.session_manager refl
        (no_sessions-IsValid 1000 15000))
