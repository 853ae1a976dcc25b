-- ===== src/Server/Messages.antt =====
-- `MessageHandler.process_message` of server/message_handler.py with the handlers of heartbeats and
-- of disconnections. A message is processed as one step.
use smart_traffic_management.Common.{
  Bool, Option, String, false, if◌then◌else◌, none, not, or_default, some, true, ℕ, ◌&&◌,
}
use smart_traffic_management.Common.Equality.{beq, nat_eq, string_eq}
use smart_traffic_management.Server.{
  Environment, ErrorCode, Message, MessagePayload, MessageType, Reply, Response, Server,
  current_version, direction_mismatch, disconnect, disconnect_node, error, failure, get_connection,
  heartbeat, heartbeat_ack, heartbeat_ok, invalid_heartbeat_payload, invalid_payload, is_socket,
  malformed_json, message_type_of, missing_message_type, or_else, payload_of,
  protocol_version_mismatch, put_session, register_camera, registration_ack, start_stream,
  stop_stream, stream_paused, streaming_set, system_paused, unauthorized_session,
  unknown_message_type, unsupported_action, video_frame, webrtc_answer, webrtc_failed, webrtc_offer,
  webrtc_stop, webrtc_stopped,
}
use smart_traffic_management.Server.Frames.{handle_video_frame}
use smart_traffic_management.Server.Registration.{handle_register_camera}
use smart_traffic_management.Sessions.{
  NodeSession, get_session, remove_session, update_heartbeat, validate_session,
}
use smart_traffic_management.Signal.Types.{LaneId, lane_id_eq_inst}

abbrev pub is_registration : MessageType → Bool
is_registration register_camera = true
is_registration _ = false

abbrev pub reject : ErrorCode → Option String → Option Response
reject code id = some (record { body = failure code; id = id })

abbrev pub failure_response : Option ErrorCode → Option String → Option Response
failure_response none id = none
failure_response (some code) id = reject code id

-- The response carries the id of the message.
abbrev pub with_id {ℓ} : {S : Type ℓ} → Option String → Reply × S → Option Response × S
with_id id handled = (some (record { body = handled.0; id = id }), handled.1)

abbrev pub without_id {ℓ} : {S : Type ℓ} → Reply × S → Option Response × S
without_id handled = with_id none handled

abbrev pub is_mismatch : Option LaneId → LaneId → Bool
is_mismatch none direction = false
is_mismatch (some claimed) direction = not (beq claimed direction)

abbrev pub answer_offer : Option String → Reply
answer_offer none = failure webrtc_failed
answer_offer (some sdp) = webrtc_answer sdp

module _ {A : Type 0} where
  unfoldable pub handle_heartbeat :
      Environment A → Message A → String → String → Server A → Reply × Server A
  unfolding update_heartbeat
  handle_heartbeat env msg node token s =
      let (valid, m) = update_heartbeat env.now node token s.session_manager in
      if env.is_well_formed msg
      then (
        (if valid then heartbeat_ok node else failure unauthorized_session),
        record s { session_manager = m },
      )
      else (failure invalid_heartbeat_payload, s)

  unfoldable pub handle_disconnect :
      Environment A → Message A → String → String → Server A → Server A
  unfolding validate_session remove_session disconnect_node
  handle_disconnect env msg node token s =
      if env.is_well_formed msg && validate_session env.now node token s.session_manager
      then record s {
        session_manager = remove_session node s.session_manager;
        active_connections = disconnect_node node s.active_connections;
      }
      else s

  -- The session that a message may act for: its token is valid, and the message came over the
  -- connection that is registered for the node.
  unfoldable pub authorized_session :
      ℕ → ℕ → Option String → Option String → Server A → Option NodeSession
  unfolding validate_session get_connection get_session
  authorized_session now websocket none token s = none
  authorized_session now websocket (some node) none s = none
  authorized_session now websocket (some node) (some token) s =
      if validate_session now node token s.session_manager
        && is_socket websocket (get_connection node s.active_connections)
      then get_session node s.session_manager
      else none

  abbrev pub set_streaming : Bool → String → NodeSession → Server A → Server A
  set_streaming on node session s = put_session node (record session { streaming = on }) s

  abbrev pub framed : Option String → Option ErrorCode × Server A → Option Response × Server A
  framed id taken = (failure_response taken.0 id, taken.1)

  -- What an authorized message does.
  unfoldable pub act :
      MessageType
      → Environment A
      → ℕ
      → Message A
      → MessagePayload A
      → String
      → String
      → NodeSession
      → Server A
      → Option Response × Server A
  unfolding handle_video_frame handle_heartbeat handle_disconnect
  act webrtc_stop env websocket msg p node token session s = without_id (webrtc_stopped, s)
  act webrtc_offer env websocket msg p node token session s =
      without_id (answer_offer env.answer, s)
  act start_stream env websocket msg p node token session s =
      if s.system_running
      then with_id msg.id (streaming_set true, set_streaming true node session s)
      else without_id (failure system_paused, s)
  act stop_stream env websocket msg p node token session s =
      with_id msg.id (streaming_set false, set_streaming false node session s)
  act video_frame env websocket msg p node token session s =
      if session.streaming
      then framed msg.id (handle_video_frame env websocket p token session.camera_direction s)
      else without_id (failure stream_paused, s)
  act heartbeat env websocket msg p node token session s =
      with_id msg.id (handle_heartbeat env msg node token s)
  act disconnect env websocket msg p node token session s =
      (none, handle_disconnect env msg node token s)
  act register_camera env websocket msg p node token session s =
      with_id msg.id (failure unsupported_action, s)
  act registration_ack env websocket msg p node token session s =
      with_id msg.id (failure unsupported_action, s)
  act heartbeat_ack env websocket msg p node token session s =
      with_id msg.id (failure unsupported_action, s)
  act error env websocket msg p node token session s =
      with_id msg.id (failure unsupported_action, s)

  -- The session is refreshed before the direction is compared.
  abbrev pub act_for :
      Option NodeSession
      → MessageType
      → Environment A
      → ℕ
      → Message A
      → MessagePayload A
      → String
      → String
      → Server A
      → Option Response × Server A
  act_for none t env websocket msg p node token s = without_id (failure unauthorized_session, s)
  act_for (some session) t env websocket msg p node token s =
      let fresh = record session { last_heartbeat = env.now } in
      let s' = put_session node fresh s in
      if is_mismatch (or_else p.direction p.camera_direction) session.camera_direction
      then without_id (failure direction_mismatch, s')
      else act t env websocket msg p node token fresh s'

  abbrev pub authenticate :
      Option (MessagePayload A)
      → MessageType
      → Environment A
      → ℕ
      → Message A
      → Server A
      → Option Response × Server A
  authenticate none t env websocket msg s = without_id (failure invalid_payload, s)
  authenticate (some p) t env websocket msg s =
      let node = or_else p.node_id p.camera_id in
      let token = or_else p.session_token msg.token in
      act_for (authorized_session env.now websocket node token s) t env websocket msg p
        (or_default node "") (or_default token "") s

  abbrev pub route :
      Option MessageType → Environment A → ℕ → Message A → Server A → Option Response × Server A
  route none env websocket msg s = (reject unknown_message_type msg.id, s)
  route (some t) env websocket msg s =
      if is_registration t
      then with_id msg.id (handle_register_camera env websocket msg s)
      else authenticate (payload_of msg.payload) t env websocket msg s

  abbrev pub typed :
      Option String → Environment A → ℕ → Message A → Server A → Option Response × Server A
  typed none env websocket msg s = (reject missing_message_type none, s)
  typed (some text) env websocket msg s =
      if beq (or_default msg.protocol_version current_version) current_version
      then route (message_type_of text) env websocket msg s
      else (reject protocol_version_mismatch msg.id, s)

  -- `none` where the JSON is no object.
  unfoldable pub process_message :
      Environment A → ℕ → Option (Message A) → Server A → Option Response × Server A
  unfolding message_type_of handle_register_camera authorized_session act
  process_message env websocket none s = (reject malformed_json none, s)
  process_message env websocket (some msg) s =
      typed (or_else msg.message_type msg.type_name) env websocket msg s
