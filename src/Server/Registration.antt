-- ===== src/Server/Registration.antt =====
-- `MessageHandler._handle_register_camera` of server/message_handler.py. The texts of node ids are
-- ASCII. The signal to start the stream, which follows a registration, is `send_start_stream`.
use smart_traffic_management.Common.{
  Bool, Option, String, false, if◌then◌else◌, map, none, not, or_default, some, true, ℕ, ◌&&◌, ◌+◌,
  ◌||◌,
}
use smart_traffic_management.Common.Dict.{get, put}
use smart_traffic_management.Common.Equality.{beq, nat_eq, string_eq}
use smart_traffic_management.Common.Text.{codes, occurs, upper}
use smart_traffic_management.Server.{
  Environment, Message, MessagePayload, Reply, Server, connect_node, direction_occupied,
  empty_payload, failure, get_connection, invalid_direction, invalid_registration_payload,
  is_socket, or_else, payload_of, put_session, registered, unauthorized_pairing,
}
use smart_traffic_management.Sessions.{
  NodeSession, SessionManager, clear_pairing_session, create_session, get_session,
  get_session_by_direction, is_expired, validate_pairing_session,
}
use smart_traffic_management.Signal.Types.{
  LaneId, approach, east, lane_id_eq_inst, north, other, south, west,
}

-- The direction that a node id names.
unfoldable pub named_direction : String → Option LaneId
named_direction node =
    let text = map upper (codes node) in
    if occurs (codes "NORTH") text
    then some (approach north)
    else if occurs (codes "SOUTH") text
    then some (approach south)
    else if occurs (codes "EAST") text
    then some (approach east)
    else if occurs (codes "WEST") text
    then some (approach west)
    else none

abbrev pub is_known_direction : LaneId → Bool
is_known_direction (approach lane) = true
is_known_direction (other text) = false

-- The node's session is alive, in this direction, with this token.
abbrev pub is_reconnect : ℕ → LaneId → String → Option NodeSession → Bool
is_reconnect now direction token none = false
is_reconnect now direction token (some s) =
    beq s.camera_direction direction && beq s.session_token token && not (is_expired now s)

abbrev pub is_occupied : String → Option NodeSession → Bool
is_occupied node none = false
is_occupied node (some previous) = not (beq previous.node_id node)

-- A pairing is used once.
abbrev pub use_pairing : Bool → LaneId → SessionManager → SessionManager
use_pairing true direction m = clear_pairing_session (some direction) m
use_pairing false direction m = m

module _ {A : Type 0} where
  unfoldable pub requested_node : Message A → MessagePayload A → String
  requested_node msg p =
      or_default (or_else p.node_id (or_else p.session (or_else p.camera_id msg.token))) "CAM-001"

  unfoldable pub requested_direction : String → MessagePayload A → LaneId
  unfolding named_direction
  requested_direction node p =
      or_default (or_else (or_else p.camera_direction p.assigned_lane) (named_direction node))
        (approach north)

  -- The connection, the session and its streaming flag.
  unfoldable pub register : Environment A → ℕ → Bool → String → LaneId → Server A → Reply × Server A
  unfolding create_session clear_pairing_session connect_node
  register env websocket paired node direction s =
      let (session, m) =
        create_session env.now env.new_token node (some direction) s.session_manager in
      (
        registered node session.session_token direction,
        record (put_session node (record session { streaming = s.system_running })
            (record s { session_manager = use_pairing paired direction m })) {
              active_connections = connect_node node websocket s.active_connections;
            },
      )

  abbrev pub admit :
      Bool → Bool → Bool → Environment A → ℕ → Bool → String → LaneId → Server A → Reply × Server A
  admit false occupied valid env websocket paired node direction s =
      (failure unauthorized_pairing, s)
  admit true true valid env websocket paired node direction s = (failure direction_occupied, s)
  admit true false false env websocket paired node direction s =
      (failure invalid_registration_payload, s)
  admit true false true env websocket paired node direction s =
      register env websocket paired node direction s

  unfoldable pub register_checked :
      Environment A → ℕ → Message A → String → LaneId → Server A → Reply × Server A
  unfolding validate_pairing_session get_session get_session_by_direction is_expired register
  register_checked env websocket msg node direction s =
      let token = or_default msg.token "" in
      let returning = is_reconnect env.now direction token (get_session node s.session_manager) in
      let (paired, m) =
        validate_pairing_session env.now (some direction) node token s.session_manager in
      admit (paired || returning)
        (is_occupied node (get_session_by_direction env.now (some direction) m))
        (env.is_well_formed msg) env websocket paired node direction
        (record s { session_manager = m })

  unfoldable pub handle_register_camera :
      Environment A → ℕ → Message A → Server A → Reply × Server A
  unfolding requested_node requested_direction register_checked
  handle_register_camera env websocket msg s =
      let p = or_default (payload_of msg.payload) empty_payload in
      let node = requested_node msg p in
      let direction = requested_direction node p in
      if is_known_direction direction
      then register_checked env websocket msg node direction s
      else (failure invalid_direction, s)

  -- The task that a registration leaves behind: it counts, and sends the signal only if the system
  -- runs and the socket is still the node's.
  unfoldable pub send_start_stream : String → ℕ → Server A → Option ℕ × Server A
  unfolding get_connection
  send_start_stream node websocket s =
      let count = or_default (get node s.start_stream_counts) 0 + 1 in
      (
        (if s.system_running && is_socket websocket (get_connection node s.active_connections)
            then some count
            else none),
        record s { start_stream_counts = put node count s.start_stream_counts },
      )
