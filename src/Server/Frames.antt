-- ===== src/Server/Frames.antt =====
-- `MessageHandler._handle_video_frame` and `submit_decoded_frame` of server/message_handler.py: the
-- latest frame of each direction waits, and a newer one takes its place.
use smart_traffic_management.Common.{
  Bool, List, Option, String, [], false, if◌then◌else◌, leb, ltb, none, or_default, some, true, ℕ,
  ◌&&◌, ◌+◌,
}
use smart_traffic_management.Common.Dict.{Dict, contains, put, values}
use smart_traffic_management.Common.Equality.{beq, nat_eq, string_eq}
use smart_traffic_management.Server.{
  Environment, ErrorCode, Frame, FrameData, MessagePayload, Server, StageCounters, count_dropped,
  decoded, empty_payload, encoded, get_connection, invalid_frame, is_socket, no_text, put_session,
  system_paused,
}
use smart_traffic_management.Sessions.{NodeSession, get_session, validate_session}
use smart_traffic_management.Signal.Types.{LaneId, lane_id_eq_inst}

module _ {A : Type 0} where
  -- The waiting frames and the counts of frames.
  abbrev pub frame_state : Server A → Dict LaneId (Frame A) × ℕ × StageCounters
  frame_state t = (t.latest_frames, t.dropped_frames_count, t.stage_counters)

  -- JPEG base64 must be nonempty and below 2MB.
  abbrev pub accepted_content : FrameData A → Option A
  accepted_content no_text = none
  accepted_content (decoded image) = some image
  accepted_content (encoded size text) = if ltb 0 size && leb size 2000000 then some text else none

  -- A frame that is still in the slot is dropped.
  unfoldable pub enqueue : Frame A → Server A → Server A
  enqueue frame s =
      let waits = contains frame.direction s.latest_frames in
      let c = record s.stage_counters { received = s.stage_counters.received + 1 } in
      record s {
        latest_frames = put frame.direction frame s.latest_frames;
        dropped_frames_count = if waits then s.dropped_frames_count + 1 else s.dropped_frames_count;
        stage_counters = if waits then count_dropped c else c;
      }

  abbrev pub new_frame : Environment A → ℕ → MessagePayload A → String → LaneId → A → Frame A
  new_frame env websocket p token direction content =
      let captured = or_default p.capture_timestamp env.now in
      record {
        owner_socket = websocket;
        node_id = p.node_id;
        session_token = token;
        direction = direction;
        frame_id = or_default p.frame_id env.new_frame_id;
        capture_timestamp = captured;
        upload_timestamp = or_default p.upload_timestamp captured;
        backend_receive_timestamp = env.now;
        backend_receive_monotonic = env.now_mono;
        content = content;
      }

  abbrev pub accept_frame : Bool → Option A → (A → Frame A) → Server A → Option ErrorCode × Server A
  accept_frame running none frame_of s = (some invalid_frame, s)
  accept_frame false (some content) frame_of s = (some system_paused, s)
  accept_frame true (some content) frame_of s = (none, enqueue (frame_of content) s)

  unfoldable pub handle_video_frame :
      Environment A
      → ℕ
      → MessagePayload A
      → String
      → LaneId
      → Server A
      → Option ErrorCode × Server A
  unfolding enqueue
  handle_video_frame env websocket p token direction s =
      accept_frame s.system_running (accepted_content p.frame)
        (new_frame env websocket p token direction) s

  -- A frame of a WebRTC peer.
  abbrev pub submit_payload : A → LaneId → String → String → String → ℕ → MessagePayload A
  submit_payload image direction node token frame_id received_ms = record empty_payload {
    node_id = some node;
    direction = some direction;
    session_token = some token;
    frame = decoded image;
    frame_id = some frame_id;
    capture_timestamp = some received_ms;
    upload_timestamp = some received_ms;
  }

  abbrev pub submit_to :
      Option NodeSession
      → Environment A
      → A
      → LaneId
      → String
      → String
      → ℕ
      → String
      → ℕ
      → Server A
      → Server A
  submit_to none env image direction node token websocket frame_id received_ms s = s
  submit_to (some session) env image direction node token websocket frame_id received_ms s =
      if session.streaming && beq session.camera_direction direction
      then (handle_video_frame env websocket
          (submit_payload image direction node token frame_id received_ms) token direction
          (put_session node (record session { last_heartbeat = env.now }) s)).1
      else s

  -- `frame_id` is the node's id with the number of the frame.
  unfoldable pub submit_decoded_frame :
      Environment A → A → LaneId → String → String → ℕ → String → ℕ → Server A → Server A
  unfolding validate_session get_connection get_session handle_video_frame
  submit_decoded_frame env image direction node token websocket frame_id received_ms s =
      if s.system_running
        && validate_session env.now node token s.session_manager
        && is_socket websocket (get_connection node s.active_connections)
      then submit_to (get_session node s.session_manager) env image direction node token websocket
          frame_id received_ms s
      else s

  -- What the coordinator takes: all that waits.
  unfoldable pub take_packets : Server A → List (Frame A) × Server A
  take_packets s = (values s.latest_frames, record s { latest_frames = [] })
