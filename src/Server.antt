-- ===== src/Server.antt =====
-- server/message_handler.py, server/connection_manager.py and server/protocol.py: the state that the
-- messages of the camera nodes change, the messages, and the replies. A web socket is a number, its
-- identity. Fields of a message that are missing or empty are `none`, since the code chains them by
-- `or`. `A` is the content of a frame. Clocks are in milliseconds.
use smart_traffic_management.Common.{
  Bool, Option, String, [], false, if◌then◌else◌, none, some, true, ℕ, ◌+◌, ◌==◌,
}
use smart_traffic_management.Common.Dict.{Dict, get, pop, put}
use smart_traffic_management.Common.Equality.{beq, nat_eq, string_eq}
use smart_traffic_management.Sessions.{NodeSession, SessionManager}
use smart_traffic_management.Signal.Types.{LaneId, lane_id_eq_inst}
pub mod Registration
pub mod Frames
pub mod Messages
pub mod Authorization
pub mod Submission
pub mod Slots
pub mod Keeping
pub mod Validity
pub mod Admission
pub mod Failures
pub mod Refusals

pub data MessageType : Type 0 where
  register_camera registration_ack heartbeat heartbeat_ack disconnect error video_frame webrtc_offer
        webrtc_stop start_stream stop_stream :
      MessageType

-- `MessageType(msg_type_str)`
unfoldable pub message_type_of : String → Option MessageType
message_type_of text =
    if beq text "REGISTER_CAMERA"
    then some register_camera
    else if beq text "REGISTRATION_ACK"
    then some registration_ack
    else if beq text "HEARTBEAT"
    then some heartbeat
    else if beq text "HEARTBEAT_ACK"
    then some heartbeat_ack
    else if beq text "DISCONNECT"
    then some disconnect
    else if beq text "ERROR"
    then some error
    else if beq text "VIDEO_FRAME"
    then some video_frame
    else if beq text "WEBRTC_OFFER"
    then some webrtc_offer
    else if beq text "WEBRTC_STOP"
    then some webrtc_stop
    else if beq text "START_STREAM"
    then some start_stream
    else if beq text "STOP_STREAM"
    then some stop_stream
    else none

pub data ErrorCode : Type 0 where
  malformed_json missing_message_type protocol_version_mismatch unknown_message_type invalid_payload
        unauthorized_session direction_mismatch webrtc_failed system_paused stream_paused
        unsupported_action invalid_direction unauthorized_pairing direction_occupied
        invalid_registration_payload invalid_heartbeat_payload invalid_frame :
      ErrorCode

-- What a frame message brings: nothing that is a text, a text of a length, or a decoded image.
pub data FrameData (A : Type 0) : Type 0 where
  no_text : FrameData A
  encoded : ℕ → A → FrameData A
  decoded : A → FrameData A

pub record MessagePayload (A : Type 0) : Type 0 where
  pub node_id : Option String
  pub session : Option String
  pub camera_id : Option String
  pub camera_direction : Option LaneId
  pub assigned_lane : Option LaneId
  pub direction : Option LaneId
  pub session_token : Option String
  pub frame : FrameData A
  pub frame_id : Option String
  pub capture_timestamp : Option ℕ
  pub upload_timestamp : Option ℕ

pub data PayloadField (A : Type 0) : Type 0 where
  no_payload not_an_object : PayloadField A
  object : MessagePayload A → PayloadField A

pub record Message (A : Type 0) : Type 0 where
  pub message_type : Option String
  pub type_name : Option String
  pub protocol_version : Option String
  pub id : Option String
  pub token : Option String
  pub payload : PayloadField A

pub data Reply : Type 0 where
  failure : ErrorCode → Reply
  registered : String → String → LaneId → Reply
  heartbeat_ok : String → Reply
  streaming_set : Bool → Reply
  webrtc_stopped : Reply
  webrtc_answer : String → Reply

-- A response with the correlation id that it carries.
pub record Response : Type 0 where
  pub body : Reply
  pub id : Option String

-- A frame that waits for the coordinator.
pub record Frame (A : Type 0) : Type 0 where
  pub owner_socket : ℕ
  pub node_id : Option String
  pub session_token : String
  pub direction : LaneId
  pub frame_id : String
  pub capture_timestamp : ℕ
  pub upload_timestamp : ℕ
  pub backend_receive_timestamp : ℕ
  pub backend_receive_monotonic : ℕ
  pub content : A

-- `stage_counters`
pub record StageCounters : Type 0 where
  pub received : ℕ
  pub decoded_frames : ℕ
  pub decode_failed : ℕ
  pub processed : ℕ
  pub dropped : ℕ

-- The message handler, the connection manager and what they read of the application context.
pub record Server (A : Type 0) : Type 0 where
  pub session_manager : SessionManager
  pub active_connections : Dict String ℕ
  pub latest_frames : Dict LaneId (Frame A)
  pub dropped_frames_count : ℕ
  pub start_stream_counts : Dict String ℕ
  pub system_running : Bool
  pub stage_counters : StageCounters

-- What a call takes from outside: the clock, a fresh token and a fresh frame id, the verdict of the
-- schemas (Pydantic), and the answer to an offer (aiortc), if there is one.
pub record Environment (A : Type 0) : Type 0 where
  pub now : ℕ
  pub now_mono : ℕ
  pub new_token : String
  pub new_frame_id : String
  pub is_well_formed : Message A → Bool
  pub answer : Option String

abbrev pub current_version : String
current_version = "1.0"

-- `a or b`
abbrev pub or_else {ℓ} : {A : Type ℓ} → Option A → Option A → Option A
or_else none b = b
or_else (some a) b = some a

-- `ConnectionManager.connect`: the older socket of the node goes, the new one stands last.
unfoldable pub connect_node : String → ℕ → Dict String ℕ → Dict String ℕ
connect_node node websocket connections = put node websocket (pop node connections)

unfoldable pub disconnect_node : String → Dict String ℕ → Dict String ℕ
disconnect_node node connections = pop node connections

unfoldable pub get_connection : String → Dict String ℕ → Option ℕ
get_connection node connections = get node connections

abbrev pub is_socket : ℕ → Option ℕ → Bool
is_socket websocket none = false
is_socket websocket (some w) = w == websocket

abbrev pub count_dropped : StageCounters → StageCounters
count_dropped c = record c { dropped = c.dropped + 1 }

module _ {A : Type 0} where
  unfoldable pub new_server : ℕ → Server A
  new_server timeout = record {
    session_manager = record { sessions = []; pairing_sessions = []; timeout = timeout };
    active_connections = [];
    latest_frames = [];
    dropped_frames_count = 0;
    start_stream_counts = [];
    system_running = true;
    stage_counters = record {
      received = 0;
      decoded_frames = 0;
      decode_failed = 0;
      processed = 0;
      dropped = 0;
    };
  }

  abbrev pub empty_payload : MessagePayload A
  empty_payload = record {
    node_id = none;
    session = none;
    camera_id = none;
    camera_direction = none;
    assigned_lane = none;
    direction = none;
    session_token = none;
    frame = no_text;
    frame_id = none;
    capture_timestamp = none;
    upload_timestamp = none;
  }

  -- `raw_json.get("payload", {})`, where it is an object.
  abbrev pub payload_of : PayloadField A → Option (MessagePayload A)
  payload_of no_payload = some empty_payload
  payload_of not_an_object = none
  payload_of (object p) = some p

  -- A node's session is replaced.
  abbrev pub put_session : String → NodeSession → Server A → Server A
  put_session node session s = record s {
    session_manager = record s.session_manager {
      sessions = put node session s.session_manager.sessions;
    };
  }
