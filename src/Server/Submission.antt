-- ===== src/Server/Submission.antt =====
-- The frames of WebRTC peers in server/message_handler.py, which come decoded.
use mathlib.Core.Path.{subst}
use smart_traffic_management.Common.{
  &&_parts, Bool, Bool-cases, Option, String, inl, inr, none, refl, some, true, ℕ, ◌&&◌, ◌≡◌,
}
use smart_traffic_management.Common.Equality.{beq, beq→eq, nat_eq, string_eq}
use smart_traffic_management.Server.{Environment, Server, get_connection, is_socket, put_session}
use smart_traffic_management.Server.Authorization.{
  IsGuarded, handle_video_frame-IsGuarded, is_socket_eq,
}
use smart_traffic_management.Server.Frames.{
  handle_video_frame, submit_decoded_frame, submit_payload, submit_to,
}
use smart_traffic_management.Sessions.{NodeSession, get_session, validate_session}
use smart_traffic_management.Signal.Types.{LaneId, lane_id_eq_inst}

module _ {A : Type 0} (env : Environment A) (websocket : ℕ) where
  -- A frame of a WebRTC peer leaves the waiting frames as they are, or its token is valid, its socket
  -- is the registered one of its node, and the session streams in the frame's direction; it then takes
  -- the slot of this direction, and no other.
  pub submit_decoded_frame-IsGuarded :
      (image : A) (direction : LaneId) (node token frame_id : String) (received_ms : ℕ)
      (s : Server A)
      → IsGuarded env.now websocket s
          (submit_decoded_frame env image direction node token websocket frame_id received_ms s)
  unfolding submit_decoded_frame
  submit_decoded_frame-IsGuarded image direction node token frame_id received_ms s =
      elim (Bool-cases may) [
        | inl good ↦
            let (known, is_owner) = &&_parts (s.system_running && valid) owner good in
            let is_valid = (&&_parts s.system_running valid known).1 in
            rw good (go is_valid is_owner (get_session node s.session_manager) refl)
        | inr bad ↦ rw bad (inl refl)
      ]
    where
      valid : Bool
      valid = validate_session env.now node token s.session_manager

      owner : Bool
      owner = is_socket websocket (get_connection node s.active_connections)

      may : Bool
      may = s.system_running && valid && owner

      go :
          valid ≡ true
          → owner ≡ true
          → (o : Option NodeSession) → get_session node s.session_manager ≡ o
          → IsGuarded env.now websocket s
              (submit_to o env image direction node token websocket frame_id received_ms s)
      go is_valid is_owner none e = inl refl
      go is_valid is_owner (some session) e =
          elim (Bool-cases (session.streaming && beq session.camera_direction direction)) [
            | inl good ↦
                let (streams, here) =
                  &&_parts session.streaming (beq session.camera_direction direction) good in
                let same = beq→eq session.camera_direction direction here in
                rw good (
                  subst
                    (λ (d : LaneId).
                      IsGuarded env.now websocket s
                        (handle_video_frame env websocket
                          (submit_payload image direction node token frame_id received_ms) token d
                          (put_session node (record session { last_heartbeat = env.now }) s)).1)
                    same
                    (handle_video_frame-IsGuarded env websocket
                      (submit_payload image direction node token frame_id received_ms) node token
                      session (record session { last_heartbeat = env.now }) s
                      (record {
                        is_valid = is_valid;
                        is_owner = is_socket_eq websocket _ is_owner;
                        is_found = e;
                      })
                      streams))
            | inr bad ↦ rw bad (inl refl)
          ]
