-- ===== src/Server/Keeping.antt =====
-- The authorized messages of server/message_handler.py keep the sessions of one direction apart.
use mathlib.Core.Path.{subst}
use smart_traffic_management.Common.{
  &&_parts, Bool, Bool-cases, Option, String, ap, arith, false, inl, inr, none, not, or_default,
  refl, some, sym, true, ℕ, ◌&&◌, ◌∙◌, ◌≡◌,
}
use smart_traffic_management.Common.Dict.{IsDict, get, get-put_self, put}
use smart_traffic_management.Common.Equality.{beq, nat_eq, string_eq}
use smart_traffic_management.Server.{
  Environment, Frame, Message, MessagePayload, MessageType, Server, disconnect, error, heartbeat,
  heartbeat_ack, or_else, put_session, register_camera, registration_ack, start_stream, stop_stream,
  video_frame, webrtc_offer, webrtc_stop,
}
use smart_traffic_management.Server.Authorization.{authorized_session-some}
use smart_traffic_management.Server.Frames.{accept_frame, enqueue, handle_video_frame}
use smart_traffic_management.Server.Messages.{
  act, act_for, authenticate, authorized_session, handle_disconnect, handle_heartbeat, is_mismatch,
  set_streaming,
}
use smart_traffic_management.Sessions.{
  NodeSession, SessionManager, accepts, get_session, is_expired, validate_session,
}
use smart_traffic_management.Sessions.History.{update_heartbeat-IsValid}
use smart_traffic_management.Sessions.Uniqueness.{IsValid, put-IsValid, remove_session-IsValid}
use smart_traffic_management.Signal.Types.{lane_id_eq_inst}

pub same_sessions-IsValid :
    (now : ℕ) (m m' : SessionManager) → m'.sessions ≡ m.sessions → IsValid now m → IsValid now m'
same_sessions-IsValid now m m' e v = record {
  dict = subst IsDict (sym e) v.dict;
  keyed = λ k s g. v.keyed k s (ap (get k) (sym e) ∙ g);
  one_each =
      λ j k s t gj gk. v.one_each j k s t (ap (get j) (sym e) ∙ gj) (ap (get k) (sym e) ∙ gk);
}

-- A live session may be replaced by one of its node and direction.
pub put_live-IsValid :
    (now : ℕ) (node : String) (s s' : NodeSession) (m : SessionManager)
    → IsValid now m
    → get node m.sessions ≡ some s
    → is_expired now s ≡ false
    → s'.node_id ≡ s.node_id
    → s'.camera_direction ≡ s.camera_direction
    → IsValid now (record m { sessions = put node s' m.sessions })
put_live-IsValid now node s s' m v found alive id direction =
    put-IsValid now node s' m v (id ∙ v.keyed node s found)
      λ k t h still same. v.one_each k node t s h found still alive (same ∙ direction)

accepted_is_live :
    (now : ℕ) (token : String) (o : Option NodeSession) (s : NodeSession)
    → accepts now token o ≡ true
    → o ≡ some s
    → is_expired now s ≡ false
accepted_is_live now token none s h e = cc
accepted_is_live now token (some t) s h e =
    let alive : is_expired now t ≡ false =
      ground (arith, (&&_parts (not (is_expired now t)) (beq t.session_token token) h).0) in
    cc

pub fresh_is_live :
    (now : ℕ) (s : NodeSession) → is_expired now (record s { last_heartbeat = now }) ≡ false
unfolding is_expired
fresh_is_live now s = ground arith

module _ {A : Type 0} (env : Environment A) (websocket : ℕ) where
  abbrev pub KeepsValid : Server A → Type 0
  KeepsValid s = IsValid env.now s.session_manager

  accept_frame-IsValid :
      (running : Bool) (o : Option A) (frame_of : A → Frame A) (s : Server A)
      → KeepsValid s
      → KeepsValid (accept_frame running o frame_of s).1
  unfolding enqueue
  accept_frame-IsValid true none frame_of s v = v
  accept_frame-IsValid false none frame_of s v = v
  accept_frame-IsValid false (some content) frame_of s v = v
  accept_frame-IsValid true (some content) frame_of s v = v

  set_streaming-IsValid :
      (on : Bool) (node : String) (session : NodeSession) (s : Server A)
      → get node s.session_manager.sessions ≡ some session
      → is_expired env.now session ≡ false
      → KeepsValid s
      → KeepsValid (set_streaming on node session s)
  set_streaming-IsValid on node session s found alive v =
      put_live-IsValid env.now node session (record session { streaming = on }) s.session_manager v
        found alive refl refl

  act-IsValid :
      (t : MessageType) (msg : Message A) (p : MessagePayload A) (node token : String)
      (session : NodeSession) (s : Server A)
      → get node s.session_manager.sessions ≡ some session
      → is_expired env.now session ≡ false
      → KeepsValid s
      → KeepsValid (act t env websocket msg p node token session s).1
  unfolding act handle_video_frame handle_heartbeat handle_disconnect
  act-IsValid webrtc_stop msg p node token session s found alive v = v
  act-IsValid webrtc_offer msg p node token session s found alive v = v
  act-IsValid start_stream msg p node token session s found alive v =
      elim (Bool-cases s.system_running) [
        | inl runs ↦ rw runs (set_streaming-IsValid true node session s found alive v)
        | inr paused ↦ rw paused v
      ]
  act-IsValid stop_stream msg p node token session s found alive v =
      set_streaming-IsValid false node session s found alive v
  act-IsValid video_frame msg p node token session s found alive v =
      elim (Bool-cases session.streaming) [
        | inl streams ↦ rw streams (accept_frame-IsValid _ _ _ s v)
        | inr paused ↦ rw paused v
      ]
  act-IsValid heartbeat msg p node token session s found alive v =
      elim (Bool-cases (env.is_well_formed msg)) [
        | inl formed ↦ rw formed (update_heartbeat-IsValid env.now node token s.session_manager v)
        | inr bad ↦ rw bad v
      ]
  act-IsValid disconnect msg p node token session s found alive v =
      elim (Bool-cases
        (env.is_well_formed msg && validate_session env.now node token s.session_manager)) [
          | inl leaves ↦ rw leaves (remove_session-IsValid env.now node s.session_manager v)
          | inr stays ↦ rw stays v
        ]
  act-IsValid register_camera msg p node token session s found alive v = v
  act-IsValid registration_ack msg p node token session s found alive v = v
  act-IsValid heartbeat_ack msg p node token session s found alive v = v
  act-IsValid error msg p node token session s found alive v = v

  pub authenticate-IsValid :
      (t : MessageType) (o : Option (MessagePayload A)) (msg : Message A) (s : Server A)
      → KeepsValid s
      → KeepsValid (authenticate o t env websocket msg s).1
  unfolding validate_session get_session
  authenticate-IsValid t none msg s v = v
  authenticate-IsValid t (some p) msg s v =
      go (authorized_session env.now websocket node token s) refl
    where
      node : Option String
      node = or_else p.node_id p.camera_id

      token : Option String
      token = or_else p.session_token msg.token

      key : String
      key = or_default node ""

      go :
          (o : Option NodeSession)
          → authorized_session env.now websocket node token s ≡ o
          → KeepsValid (act_for o t env websocket msg p key (or_default token "") s).1
      go none e = v
      go (some session) e =
          let known = authorized_session-some env.now websocket s node token session e in
          let fresh = record session { last_heartbeat = env.now } in
          let alive =
            accepted_is_live env.now (or_default token "") (get key s.session_manager.sessions)
              session known.is_valid known.is_found in
          let v' =
            put_live-IsValid env.now key session fresh s.session_manager v known.is_found alive refl
              refl in
          elim (Bool-cases
            (is_mismatch (or_else p.direction p.camera_direction) session.camera_direction)) [
              | inl wrong ↦ rw wrong v'
              | inr right ↦ rw right (
                  act-IsValid t msg p key (or_default token "") fresh (put_session key fresh s)
                    (get-put_self key fresh s.session_manager.sessions)
                    (fresh_is_live env.now session) v')
            ]
