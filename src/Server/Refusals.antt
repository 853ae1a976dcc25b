-- ===== src/Server/Refusals.antt =====
-- What a message of server/message_handler.py that is answered by an error leaves behind.
use mathlib.Core.Path.{subst}
use smart_traffic_management.Common.{
  Bool, Bool-cases, Option, String, ap, false, inl, inr, none, or_default, refl, some, sym, true, ℕ,
  ◌≡◌,
}
use smart_traffic_management.Common.Dict.{Dict, get}
use smart_traffic_management.Common.Equality.{beq, nat_eq, string_eq}
use smart_traffic_management.Server.{
  Environment, ErrorCode, Message, MessagePayload, MessageType, Reply, Server, current_version,
  empty_payload, failure, message_type_of, or_else, payload_of, put_session,
}
use smart_traffic_management.Server.Admission.{
  Admission, is_admitted, is_paired, register_checked_lem,
}
use smart_traffic_management.Server.Authorization.{authorized_session-some, register_checked-frames}
use smart_traffic_management.Server.Messages.{
  act_for, authenticate, authorized_session, is_mismatch, is_registration, process_message, route,
  typed, with_id,
}
use smart_traffic_management.Server.Registration.{
  handle_register_camera, is_known_direction, register_checked, requested_direction, requested_node,
}
use smart_traffic_management.Sessions.{NodeSession, get_session}
use smart_traffic_management.Signal.Types.{LaneId, lane_id_eq_inst}
use smart_traffic_management.Server.Failures.{
  IsFailure, IsHarmless, act_fails, refreshed, unchanged,
}

module _ {A : Type 0} (env : Environment A) (websocket : ℕ) (code : ErrorCode)
    (id : Option String) where
  authenticate_fails :
      (t : MessageType) (o : Option (MessagePayload A)) (msg : Message A) (s : Server A)
      → IsFailure code id (authenticate o t env websocket msg s).0
      → IsHarmless env.now s (authenticate o t env websocket msg s).1
  authenticate_fails t none msg s h = unchanged env websocket code id s
  authenticate_fails t (some p) msg s h =
      go (authorized_session env.now websocket node token s) refl h
    where
      node : Option String
      node = or_else p.node_id p.camera_id

      token : Option String
      token = or_else p.session_token msg.token

      go :
          (o : Option NodeSession)
          → authorized_session env.now websocket node token s ≡ o
          → let handled =
              act_for o t env websocket msg p (or_default node "") (or_default token "") s in
            IsFailure code id handled.0 → IsHarmless env.now s handled.1
      go none e f = unchanged env websocket code id s
      go (some session) e f =
          let known = authorized_session-some env.now websocket s node token session e in
          let fresh = record session { last_heartbeat = env.now } in
          let s' = put_session (or_default node "") fresh s in
          let harmless =
            refreshed env websocket code id (or_default node "") session s known.is_found in
          elim (Bool-cases
            (is_mismatch (or_else p.direction p.camera_direction) session.camera_direction)) [
              | inl wrong ↦ rw wrong harmless
              | inr right ↦ rw right (
                  subst (λ (x : Server A). IsHarmless env.now s x)
                    (sym (
                      act_fails env websocket code id t msg p (or_default node "")
                        (or_default token "") fresh s' (rw right at f)))
                    harmless)
            ]

  register_fails :
      (msg : Message A) (node : String) (direction : LaneId) (s : Server A)
      → IsFailure code id (with_id msg.id (register_checked env websocket msg node direction s)).0
      → IsHarmless env.now s (register_checked env websocket msg node direction s).1
  unfolding get_session
  register_fails msg node direction s h =
      go (is_admitted env websocket msg node direction s)
        (register_checked_lem env websocket msg node direction s)
    where
      result : Reply × Server A
      result = register_checked env websocket msg node direction s

      go :
          (admitted : Bool)
          → Admission env websocket admitted
              (is_paired env.now direction node (or_default msg.token "") s.session_manager)
              node
              direction
              s
              result
          → IsHarmless env.now s result.1
      go true a = cc (a.0)
      go false a = record {
        sockets = a.2;
        frames = register_checked-frames env websocket msg node direction s;
        sessions = λ k. inl (ap (λ (d : Dict String NodeSession). get k d) a.1);
      }

  handle_register_camera_fails :
      (msg : Message A) (s : Server A)
      → IsFailure code id (with_id msg.id (handle_register_camera env websocket msg s)).0
      → IsHarmless env.now s (handle_register_camera env websocket msg s).1
  unfolding handle_register_camera
  handle_register_camera_fails msg s h = elim (Bool-cases (is_known_direction direction)) [
    | inl known ↦ rw known (register_fails msg node direction s (rw known at h))
    | inr unknown ↦ rw unknown (unchanged env websocket code id s)
  ]
    where
      p : MessagePayload A
      p = or_default (payload_of msg.payload) empty_payload

      node : String
      node = requested_node msg p

      direction : LaneId
      direction = requested_direction node p

  typed_fails :
      (text : Option String) (msg : Message A) (s : Server A)
      → IsFailure code id (typed text env websocket msg s).0
      → IsHarmless env.now s (typed text env websocket msg s).1
  typed_fails none msg s h = unchanged env websocket code id s
  typed_fails (some text) msg s h =
      elim (Bool-cases (beq (or_default msg.protocol_version current_version) current_version)) [
        | inl same ↦ rw same (go (message_type_of text) (rw same at h))
        | inr differs ↦ rw differs (unchanged env websocket code id s)
      ]
    where
      go :
          (t : Option MessageType)
          → IsFailure code id (route t env websocket msg s).0
          → IsHarmless env.now s (route t env websocket msg s).1
      go none e = unchanged env websocket code id s
      go (some t) e = elim (Bool-cases (is_registration t)) [
        | inl registers ↦ rw registers (handle_register_camera_fails msg s (rw registers at e))
        | inr acts ↦ rw acts (authenticate_fails t (payload_of msg.payload) msg s (rw acts at e))
      ]

  -- A message that is answered by an error leaves every socket, every waiting frame and the counts of
  -- frames as they are, and changes of a session at most the time of its last heartbeat, to now.
  pub process_message_fails :
      (raw : Option (Message A)) (s : Server A)
      → (process_message env websocket raw s).0 ≡ some (record { body = failure code; id = id })
      → IsHarmless env.now s (process_message env websocket raw s).1
  unfolding process_message
  process_message_fails none s h = unchanged env websocket code id s
  process_message_fails (some msg) s h =
      typed_fails (or_else msg.message_type msg.type_name) msg s h
