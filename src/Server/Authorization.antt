-- ===== src/Server/Authorization.antt =====
-- Who may put a frame into the slots of server/message_handler.py.
use smart_traffic_management.Common.{
  &&_parts, ==_iff, Bool, Bool-cases, Option, String, arith, false, if◌then◌else◌, inl, inr, none,
  or_default, refl, some, true, ℕ, ◌&&◌, ◌≡◌, ◌⊎◌,
}
use smart_traffic_management.Common.Equality.{beq, nat_eq, string_eq}
use smart_traffic_management.Server.{
  Environment, Frame, Message, MessagePayload, MessageType, Server, current_version, disconnect,
  empty_payload, error, failure, get_connection, heartbeat, heartbeat_ack, invalid_direction,
  is_socket, message_type_of, or_else, payload_of, put_session, register_camera, registration_ack,
  start_stream, stop_stream, stream_paused, video_frame, webrtc_offer, webrtc_stop,
}
use smart_traffic_management.Server.Frames.{
  accept_frame, accepted_content, enqueue, frame_state, handle_video_frame, new_frame,
}
use smart_traffic_management.Server.Messages.{
  act, act_for, authenticate, authorized_session, framed, handle_disconnect, handle_heartbeat,
  is_mismatch, is_registration, process_message, route, typed, without_id,
}
use smart_traffic_management.Server.Registration.{
  handle_register_camera, is_known_direction, register, register_checked, requested_direction,
  requested_node,
}
use smart_traffic_management.Sessions.{NodeSession, get_session, validate_session}
use smart_traffic_management.Signal.Types.{LaneId, lane_id_eq_inst}

-- Taking an authorization apart.
pub record IsAuthorized {A : Type 0} (now websocket : ℕ) (s : Server A) (node token : String)
    (session : NodeSession) : Type 0 where
  pub is_valid : validate_session now node token s.session_manager ≡ true
  pub is_owner : get_connection node s.active_connections ≡ some websocket
  pub is_found : get_session node s.session_manager ≡ some session

-- A frame that may be taken: its session is authorized for the socket, streams, and is registered for
-- the frame's direction, and the system runs.
pub record IsAuthorizedFrame {A : Type 0} (now websocket : ℕ) (s : Server A) (frame : Frame A)
    : Type 0 where
  pub node : String
  pub session : NodeSession
  pub authorized : IsAuthorized now websocket s node frame.session_token session
  pub owned : frame.owner_socket ≡ websocket
  pub in_direction : frame.direction ≡ session.camera_direction
  pub streams : session.streaming ≡ true
  pub system_runs : s.system_running ≡ true

pub is_socket_eq :
    (websocket : ℕ) (o : Option ℕ) → is_socket websocket o ≡ true → o ≡ some websocket
is_socket_eq websocket none h = cc
is_socket_eq websocket (some w) h = ground (arith, ==_iff w websocket)

module _ {A : Type 0} (now websocket : ℕ) (s : Server A) where
  pub authorized_session-some :
      (node token : Option String) (session : NodeSession)
      → authorized_session now websocket node token s ≡ some session
      → IsAuthorized now websocket s (or_default node "") (or_default token "") session
  unfolding authorized_session
  authorized_session-some none token session h = cc
  authorized_session-some (some node) none session h = cc
  authorized_session-some (some node) (some token) session h =
      let valid = validate_session now node token s.session_manager in
      let owns = is_socket websocket (get_connection node s.active_connections) in
      elim (Bool-cases (valid && owns)) [
        | inl good ↦ record {
          is_valid = (&&_parts valid owns good).0;
          is_owner = is_socket_eq websocket _ (&&_parts valid owns good).1;
          is_found = rw good at h;
        }
        | inr bad ↦ cc (rw bad at h)
      ]

  -- The waiting frames and the counts stay, or one authorized frame is put into its slot.
  abbrev pub IsGuarded : Server A → Type 0
  IsGuarded s' =
      (frame_state s' ≡ frame_state s)
      ⊎ ((frame : Frame A) × IsAuthorizedFrame now websocket s frame
          × (frame_state s' ≡ frame_state (enqueue frame s)))

module _ {A : Type 0} (env : Environment A) (websocket : ℕ) where
  pub handle_video_frame-IsGuarded :
      (p : MessagePayload A) (node token : String) (session fresh : NodeSession) (s : Server A)
      → IsAuthorized env.now websocket s node token session
      → session.streaming ≡ true
      → IsGuarded env.now websocket s
          (handle_video_frame env websocket p token session.camera_direction
            (put_session node fresh s)).1
  unfolding handle_video_frame enqueue
  handle_video_frame-IsGuarded p node token session fresh s authorized streams =
      go s.system_running (accepted_content p.frame) refl
    where
      go :
          (running : Bool) (o : Option A)
          → s.system_running ≡ running
          → IsGuarded env.now websocket s
              (accept_frame running o
                (new_frame env websocket p token session.camera_direction)
                (put_session node fresh s)).1
      go true none e = inl refl
      go false none e = inl refl
      go false (some content) e = inl refl
      go true (some content) e = inr (
        new_frame env websocket p token session.camera_direction content,
        record {
          node = node;
          session = session;
          authorized = authorized;
          owned = refl;
          in_direction = refl;
          streams = streams;
          system_runs = e;
        },
        refl,
      )

  act-IsGuarded :
      (t : MessageType) (msg : Message A) (p : MessagePayload A) (node token : String)
      (session : NodeSession) (s : Server A)
      → IsAuthorized env.now websocket s node token session
      → let fresh = record session { last_heartbeat = env.now } in
        IsGuarded env.now websocket s
          (act t env websocket msg p node token fresh (put_session node fresh s)).1
  unfolding act handle_heartbeat handle_disconnect
  act-IsGuarded webrtc_stop msg p node token session s authorized = inl refl
  act-IsGuarded webrtc_offer msg p node token session s authorized = inl refl
  act-IsGuarded start_stream msg p node token session s authorized = inl (ground arith)
  act-IsGuarded stop_stream msg p node token session s authorized = inl refl
  act-IsGuarded video_frame msg p node token session s authorized = go session.streaming refl
    where
      fresh : NodeSession
      fresh = record session { last_heartbeat = env.now }

      s' : Server A
      s' = put_session node fresh s

      go :
          (on : Bool)
          → session.streaming ≡ on
          → IsGuarded env.now websocket s
              (if on
                then framed msg.id
                    (handle_video_frame env websocket p token fresh.camera_direction s')
                else without_id (failure stream_paused, s')).1
      go true e = handle_video_frame-IsGuarded p node token session fresh s authorized e
      go false e = inl refl
  act-IsGuarded heartbeat msg p node token session s authorized = inl (ground arith)
  act-IsGuarded disconnect msg p node token session s authorized = inl (ground arith)
  act-IsGuarded register_camera msg p node token session s authorized = inl refl
  act-IsGuarded registration_ack msg p node token session s authorized = inl refl
  act-IsGuarded heartbeat_ack msg p node token session s authorized = inl refl
  act-IsGuarded error msg p node token session s authorized = inl refl

  route-IsGuarded :
      (t : MessageType) (o : Option (MessagePayload A)) (msg : Message A) (s : Server A)
      → IsGuarded env.now websocket s (authenticate o t env websocket msg s).1
  route-IsGuarded t none msg s = inl refl
  route-IsGuarded t (some p) msg s = go (authorized_session env.now websocket node token s) refl
    where
      node : Option String
      node = or_else p.node_id p.camera_id

      token : Option String
      token = or_else p.session_token msg.token

      go :
          (o : Option NodeSession)
          → authorized_session env.now websocket node token s ≡ o
          → IsGuarded env.now websocket s
              (act_for o t env websocket msg p (or_default node "") (or_default token "") s).1
      go none e = inl refl
      go (some session) e =
          elim (Bool-cases
            (is_mismatch (or_else p.direction p.camera_direction) session.camera_direction)) [
              | inl wrong ↦ rw wrong (inl refl)
              | inr right ↦ rw right (
                  act-IsGuarded t msg p (or_default node "") (or_default token "") session s
                    (authorized_session-some env.now websocket s node token session e))
            ]

  pub register_checked-frames :
      (msg : Message A) (node : String) (direction : LaneId) (s : Server A)
      → frame_state (register_checked env websocket msg node direction s).1 ≡ frame_state s
  unfolding register_checked register
  register_checked-frames msg node direction s = ground arith

  handle_register_camera-frames :
      (msg : Message A) (s : Server A)
      → frame_state (handle_register_camera env websocket msg s).1 ≡ frame_state s
  unfolding handle_register_camera
  handle_register_camera-frames msg s = go (or_default (payload_of msg.payload) empty_payload)
    where
      go :
          (p : MessagePayload A)
          → let node = requested_node msg p in
            let direction = requested_direction node p in
            frame_state
              (if is_known_direction direction
                then register_checked env websocket msg node direction s
                else (failure invalid_direction, s)).1
            ≡ frame_state s
      go p = elim (Bool-cases (is_known_direction (requested_direction (requested_node msg p) p))) [
        | inl known ↦ rw known (
            register_checked-frames msg (requested_node msg p)
              (requested_direction (requested_node msg p) p) s)
        | inr unknown ↦ rw unknown refl
      ]

  typed-IsGuarded :
      (text : Option String) (msg : Message A) (s : Server A)
      → IsGuarded env.now websocket s (typed text env websocket msg s).1
  typed-IsGuarded none msg s = inl refl
  typed-IsGuarded (some text) msg s =
      elim (Bool-cases (beq (or_default msg.protocol_version current_version) current_version)) [
        | inl same ↦ rw same (go (message_type_of text))
        | inr differs ↦ rw differs (inl refl)
      ]
    where
      go : (t : Option MessageType) → IsGuarded env.now websocket s (route t env websocket msg s).1
      go none = inl refl
      go (some t) = elim (Bool-cases (is_registration t)) [
        | inl registers ↦ rw registers (inl (handle_register_camera-frames msg s))
        | inr acts ↦ rw acts (route-IsGuarded t (payload_of msg.payload) msg s)
      ]

  -- A message leaves the waiting frames as they are, or it is a frame whose session token is valid,
  -- that came over the socket which is registered for the session's node, while the session streams
  -- and the system runs; it then takes the slot of the direction that the session is registered for,
  -- and no other.
  pub process_message-IsGuarded :
      (raw : Option (Message A)) (s : Server A)
      → IsGuarded env.now websocket s (process_message env websocket raw s).1
  unfolding process_message
  process_message-IsGuarded none s = inl refl
  process_message-IsGuarded (some msg) s =
      typed-IsGuarded (or_else msg.message_type msg.type_name) msg s
