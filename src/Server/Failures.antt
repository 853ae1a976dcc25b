-- ===== src/Server/Failures.antt =====
-- What the handlers of server/message_handler.py leave behind where they answer an authorized message
-- by an error.
use smart_traffic_management.Common.{
  Bool, Bool-cases, Option, String, ap, false, if◌then◌else◌, inl, inr, none, refl, some, sym, true,
  ℕ, ◌∙◌, ◌≡◌, ◌⊎◌,
}
use smart_traffic_management.Common.Dict.{get, get-put}
use smart_traffic_management.Common.Equality.{beq, beq→eq, nat_eq, string_eq}
use smart_traffic_management.Server.{
  Environment, ErrorCode, Frame, Message, MessagePayload, MessageType, Reply, Response, Server,
  disconnect, error, failure, heartbeat, heartbeat_ack, heartbeat_ok, invalid_heartbeat_payload,
  put_session, register_camera, registration_ack, start_stream, stop_stream, stream_paused,
  streaming_set, system_paused, unauthorized_session, video_frame, webrtc_offer, webrtc_stop,
}
use smart_traffic_management.Server.Frames.{
  accept_frame, accepted_content, frame_state, handle_video_frame, new_frame,
}
use smart_traffic_management.Server.Messages.{
  act, framed, handle_heartbeat, set_streaming, with_id, without_id,
}
use smart_traffic_management.Sessions.{
  NodeSession, beat, get_session, update_heartbeat, validate_session,
}
use smart_traffic_management.Signal.Types.{lane_id_eq_inst}

-- A session as it was, or refreshed.
abbrev pub IsRefreshed : ℕ → Option NodeSession → Option NodeSession → Type 0
IsRefreshed now before after =
    (after ≡ before)
    ⊎ ((session : NodeSession) × (before ≡ some session)
        × (after ≡ some (record session { last_heartbeat = now })))

-- Sockets, frames and counts stay, and sessions are at most refreshed.
pub record IsHarmless {A : Type 0} (now : ℕ) (s s' : Server A) : Type 0 where
  pub sockets : s'.active_connections ≡ s.active_connections
  pub frames : frame_state s' ≡ frame_state s
  pub sessions :
      (k : String)
      → IsRefreshed now (get_session k s.session_manager) (get_session k s'.session_manager)

abbrev pub IsFailure : ErrorCode → Option String → Option Response → Type 0
IsFailure code id response = response ≡ some (record { body = failure code; id = id })

module _ {A : Type 0} (env : Environment A) (websocket : ℕ) (code : ErrorCode)
    (id : Option String) where
  pub unchanged : (s : Server A) → IsHarmless env.now s s
  unchanged s = record { sockets = refl; frames = refl; sessions = λ k. inl refl }

  pub refreshed :
      (node : String) (session : NodeSession) (s : Server A)
      → get_session node s.session_manager ≡ some session
      → IsHarmless env.now s (put_session node (record session { last_heartbeat = env.now }) s)
  unfolding get_session
  refreshed node session s found = record {
    sockets = refl;
    frames = refl;
    sessions = λ k. elim (Bool-cases (beq node k)) [
      | inl same ↦ inr (
        session,
        ap (λ (j : String). get j s.session_manager.sessions) (sym (beq→eq node k same)) ∙ found,
        rw (get-put, same) refl,
      )
      | inr apart ↦ inl (rw (get-put, apart) refl)
    ];
  }

  handle_heartbeat_fails :
      (msg : Message A) (node token : String) (s : Server A)
      → IsFailure code id (with_id msg.id (handle_heartbeat env msg node token s)).0
      → (handle_heartbeat env msg node token s).1 ≡ s
  unfolding handle_heartbeat update_heartbeat
  handle_heartbeat_fails msg node token s h =
      go (env.is_well_formed msg) (validate_session env.now node token s.session_manager) h
    where
      go :
          (formed valid : Bool)
          → let (confirmed, m) = beat env.now node valid s.session_manager in
            let handled : Reply × Server A =
              if formed
              then (
                (if confirmed then heartbeat_ok node else failure unauthorized_session),
                record s { session_manager = m },
              )
              else (failure invalid_heartbeat_payload, s) in
            IsFailure code id (with_id msg.id handled).0 → handled.1 ≡ s
      go true true e = cc
      go true false e = refl
      go false valid e = refl

  framed_fails :
      (running : Bool) (o : Option A) (frame_of : A → Frame A) (message_id : Option String)
      (s : Server A)
      → IsFailure code id (framed message_id (accept_frame running o frame_of s)).0
      → (accept_frame running o frame_of s).1 ≡ s
  framed_fails true none frame_of message_id s h = refl
  framed_fails false none frame_of message_id s h = refl
  framed_fails false (some content) frame_of message_id s h = refl
  framed_fails true (some content) frame_of message_id s h = cc

  -- A failure of an authorized message leaves the state as it found it.
  pub act_fails :
      (t : MessageType) (msg : Message A) (p : MessagePayload A) (node token : String)
      (session : NodeSession) (s : Server A)
      → IsFailure code id (act t env websocket msg p node token session s).0
      → (act t env websocket msg p node token session s).1 ≡ s
  unfolding act handle_video_frame
  act_fails webrtc_stop msg p node token session s h = refl
  act_fails webrtc_offer msg p node token session s h = refl
  act_fails start_stream msg p node token session s h = go s.system_running h
    where
      go :
          (running : Bool)
          → let handled =
              if running
              then with_id msg.id (streaming_set true, set_streaming true node session s)
              else without_id (failure system_paused, s) in
            IsFailure code id handled.0 → handled.1 ≡ s
      go true e = cc
      go false e = refl
  act_fails stop_stream msg p node token session s h = cc
  act_fails video_frame msg p node token session s h = go session.streaming h
    where
      go :
          (streams : Bool)
          → let handled =
              if streams
              then framed msg.id
                  (handle_video_frame env websocket p token session.camera_direction s)
              else without_id (failure stream_paused, s) in
            IsFailure code id handled.0 → handled.1 ≡ s
      go true e =
          framed_fails s.system_running (accepted_content p.frame)
            (new_frame env websocket p token session.camera_direction) msg.id s e
      go false e = refl
  act_fails heartbeat msg p node token session s h = handle_heartbeat_fails msg node token s h
  act_fails disconnect msg p node token session s h = cc
  act_fails register_camera msg p node token session s h = refl
  act_fails registration_ack msg p node token session s h = refl
  act_fails heartbeat_ack msg p node token session s h = refl
  act_fails error msg p node token session s h = refl
