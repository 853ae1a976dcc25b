-- ===== src/Server/Validity.antt =====
-- The sessions of server/message_handler.py over the messages of the nodes: no direction has two live
-- ones.
use smart_traffic_management.Common.{
  Bool, Bool-cases, List, Option, String, [], false, inl, inr, none, or_default, refl, some, true,
  ℕ, ◌∷◌, ◌≤◌,
}
use smart_traffic_management.Common.Dict.{get-put_self, put}
use smart_traffic_management.Common.Equality.{beq, nat_eq, string_eq}
use smart_traffic_management.Server.{
  Environment, Message, MessagePayload, MessageType, Server, current_version, empty_payload,
  message_type_of, or_else, payload_of,
}
use smart_traffic_management.Server.Admission.{validate_keeps}
use smart_traffic_management.Server.Messages.{is_registration, process_message, route, typed}
use smart_traffic_management.Server.Registration.{
  admit, handle_register_camera, is_known_direction, register, register_checked,
  requested_direction, requested_node,
}
use smart_traffic_management.Sessions.{
  NodeSession, SessionManager, clear_pairing_session, create_session, validate_pairing_session,
}
use smart_traffic_management.Sessions.Uniqueness.{IsValid, create_session-IsValid, later-IsValid}
use smart_traffic_management.Signal.Types.{LaneId, lane_id_eq_inst}
use smart_traffic_management.Server.Keeping.{
  KeepsValid, authenticate-IsValid, fresh_is_live, put_live-IsValid, same_sessions-IsValid,
}

module _ {A : Type 0} (env : Environment A) (websocket : ℕ) where
  register-IsValid :
      (paired : Bool) (node : String) (direction : LaneId) (s : Server A)
      → KeepsValid env websocket s
      → KeepsValid env websocket (register env websocket paired node direction s).1
  unfolding register create_session clear_pairing_session
  register-IsValid paired node direction s v = go paired
    where
      created : NodeSession × SessionManager
      created = create_session env.now env.new_token node (some direction) s.session_manager

      flagged : NodeSession
      flagged = record created.0 { streaming = s.system_running }

      valid : IsValid env.now (record created.1 { sessions = put node flagged created.1.sessions })
      valid =
          put_live-IsValid env.now node created.0 flagged created.1
            (create_session-IsValid env.now env.new_token node (some direction) s.session_manager v)
            (get-put_self node created.0 _) (fresh_is_live env.now created.0) refl refl

      go : (p : Bool) → KeepsValid env websocket (register env websocket p node direction s).1
      go true = same_sessions-IsValid env.now _ _ refl valid
      go false = same_sessions-IsValid env.now _ _ refl valid

  register_checked-IsValid :
      (msg : Message A) (node : String) (direction : LaneId) (s : Server A)
      → KeepsValid env websocket s
      → KeepsValid env websocket (register_checked env websocket msg node direction s).1
  unfolding register_checked
  register_checked-IsValid msg node direction s v = go _ _ _ _
    where
      token : String
      token = or_default msg.token ""

      m : SessionManager
      m = (validate_pairing_session env.now (some direction) node token s.session_manager).1

      v' : IsValid env.now m
      v' =
          same_sessions-IsValid env.now s.session_manager m
            (validate_keeps env.now (some direction) node token s.session_manager).0 v

      go :
          (may occupied formed paired : Bool)
          → KeepsValid env websocket
              (admit may occupied formed env websocket paired node direction
                (record s { session_manager = m })).1
      go false occupied formed paired = v'
      go true true formed paired = v'
      go true false false paired = v'
      go true false true paired =
          register-IsValid paired node direction (record s { session_manager = m }) v'

  route-IsValid :
      (t : Option MessageType) (msg : Message A) (s : Server A)
      → KeepsValid env websocket s
      → KeepsValid env websocket (route t env websocket msg s).1
  unfolding handle_register_camera
  route-IsValid none msg s v = v
  route-IsValid (some t) msg s v = elim (Bool-cases (is_registration t)) [
    | inl registers ↦ rw registers (elim (Bool-cases (is_known_direction direction)) [
      | inl known ↦ rw known (register_checked-IsValid msg node direction s v)
      | inr unknown ↦ rw unknown v
    ])
    | inr acts ↦ rw acts (authenticate-IsValid env websocket t (payload_of msg.payload) msg s v)
  ]
    where
      p : MessagePayload A
      p = or_default (payload_of msg.payload) empty_payload

      node : String
      node = requested_node msg p

      direction : LaneId
      direction = requested_direction node p

  process_message-IsValid :
      (raw : Option (Message A)) (s : Server A)
      → KeepsValid env websocket s
      → KeepsValid env websocket (process_message env websocket raw s).1
  unfolding process_message
  process_message-IsValid none s v = v
  process_message-IsValid (some msg) s v = go (or_else msg.message_type msg.type_name)
    where
      go : (text : Option String) → KeepsValid env websocket (typed text env websocket msg s).1
      go none = v
      go (some text) =
          elim (Bool-cases
            (beq (or_default msg.protocol_version current_version) current_version)) [
              | inl same ↦ rw same (route-IsValid (message_type_of text) msg s v)
              | inr differs ↦ rw differs v
            ]

module _ {A : Type 0} where
  -- Messages, each with its environment and its socket.
  abbrev pub run_messages : List (Environment A × ℕ × Option (Message A)) → Server A → Server A
  run_messages [] s = s
  run_messages ((env, websocket, raw) ∷ rest) s =
      run_messages rest (process_message env websocket raw s).1

  -- The clock does not run backwards between messages.
  abbrev pub InOrder : ℕ → List (Environment A × ℕ × Option (Message A)) → Type 0
  InOrder now [] = Unit
  InOrder now ((env, websocket, raw) ∷ rest) = (now ≤ env.now) × InOrder env.now rest

  abbrev pub time_after : ℕ → List (Environment A × ℕ × Option (Message A)) → ℕ
  time_after now [] = now
  time_after now ((env, websocket, raw) ∷ rest) = time_after env.now rest

  -- Over any messages whose clock does not run backwards, every session stays under the id of its
  -- node, and no two live sessions hold one direction, where that held before.
  pub run_messages-IsValid :
      (now : ℕ) (messages : List (Environment A × ℕ × Option (Message A))) (s : Server A)
      → InOrder now messages
      → IsValid now s.session_manager
      → IsValid (time_after now messages) (run_messages messages s).session_manager
  run_messages-IsValid now [] s h v = v
  run_messages-IsValid now ((env, websocket, raw) ∷ rest) s h v =
      run_messages-IsValid env.now rest (process_message env websocket raw s).1 h.1 (
        process_message-IsValid env websocket raw s
          (later-IsValid now env.now s.session_manager h.0 v))
