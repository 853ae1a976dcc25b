-- ===== src/Server/Admission.antt =====
-- Which registrations server/message_handler.py admits, and what they change.
use mathlib.Core.Path.{subst}
use smart_traffic_management.Common.{
  Bool, Option, String, ap, arith, false, find, none, not, or_default, refl, some, true, ℕ, ◌&&◌,
  ◌||◌, ◌∙◌, ◌≡◌,
}
use smart_traffic_management.Common.Dict.{
  Dict, get, get-pop, get-put, get-put_self, pop, put, values,
}
use smart_traffic_management.Common.Equality.{Eq, beq, beq_refl, nat_eq, string_eq}
use smart_traffic_management.Server.{
  Environment, ErrorCode, Message, Reply, Server, connect_node, direction_occupied, failure,
  get_connection, invalid_registration_payload, registered, unauthorized_pairing,
}
use smart_traffic_management.Server.Registration.{
  admit, is_occupied, is_reconnect, register, register_checked,
}
use smart_traffic_management.Sessions.{
  is_expired, NodeSession, PairingSession, SessionManager, clear_pairing_session, direction_of,
  evict, fresh_pairing, get_session, get_session_by_direction, holds, new_session,
  validate_pairing_session,
}
use smart_traffic_management.Sessions.Pairing.{judged, validate-judged}
use smart_traffic_management.Signal.Types.{LaneId, lane_id_eq_inst}

-- What an admitted registration of `node` for `direction` leaves behind.
pub record IsRegistered {A : Type 0} (env : Environment A) (websocket : ℕ) (paired : Bool)
    (node : String) (direction : LaneId) (s s' : Server A) : Type 0 where
  pub session :
      get_session node s'.session_manager
      ≡ some (record (new_session env.now env.new_token node direction s.session_manager.timeout) {
        streaming = s.system_running;
      })
  pub other_sessions :
      (k : String)
      → beq node k ≡ false
      → get_session k s'.session_manager ≡ get_session k s.session_manager
  pub socket : get_connection node s'.active_connections ≡ some websocket
  pub other_sockets :
      (k : String)
      → beq node k ≡ false
      → get_connection k s'.active_connections ≡ get_connection k s.active_connections
  pub pairing_is_used : paired ≡ true → get direction s'.session_manager.pairing_sessions ≡ none

evict_free :
    (node : String) (o : Option NodeSession) (m : SessionManager)
    → is_occupied node o ≡ false
    → evict node o m ≡ m
evict_free node none m h = refl
evict_free node (some previous) m h = ground arith

-- No other node holds the direction.
abbrev pub is_free : String → Option NodeSession → Bool
is_free node none = true
is_free node (some previous) = beq previous.node_id node

-- The node has a session for this direction, with this token, that has not expired.
abbrev pub is_back : ℕ → LaneId → String → Option NodeSession → Bool
is_back now direction token none = false
is_back now direction token (some s) =
    beq s.camera_direction direction && beq s.session_token token && not (is_expired now s)

is_reconnect-is_back :
    (now : ℕ) (direction : LaneId) (token : String) (o : Option NodeSession)
    → is_reconnect now direction token o ≡ is_back now direction token o
is_reconnect-is_back now direction token none = refl
is_reconnect-is_back now direction token (some s) = refl

not-is_occupied :
    (node : String) (o : Option NodeSession) → not (is_occupied node o) ≡ is_free node o
not-is_occupied node none = refl
not-is_occupied node (some previous) = ground arith

-- Judging a pairing leaves the sessions and the timeout alone.
pub validate_keeps :
    (now : ℕ) (direction : Option LaneId) (node token : String) (m : SessionManager)
    → let m' = (validate_pairing_session now direction node token m).1 in
      (m'.sessions ≡ m.sessions) × (m'.timeout ≡ m.timeout)
unfolding validate_pairing_session clear_pairing_session
validate_keeps now direction node token m = go (get (direction_of direction) m.pairing_sessions)
  where
    go :
        (o : Option PairingSession)
        → ((fresh_pairing now direction o m).1.sessions ≡ m.sessions)
          × ((fresh_pairing now direction o m).1.timeout ≡ m.timeout)
    go none = (refl, refl)
    go (some p) = ground arith

holder_of_same :
    (now : ℕ) (direction : LaneId) (m m' : SessionManager)
    → m'.sessions ≡ m.sessions
    → get_session_by_direction now (some direction) m'
      ≡ get_session_by_direction now (some direction) m
unfolding get_session_by_direction
holder_of_same now direction m m' e =
    ap (λ (d : Dict String NodeSession). find (holds now direction) (values d)) e

module _ {ℓ κ} {K : Type ℓ} ⦃e : Eq K⦄ {V : Type κ} where
  get-put_twice :
      (j k : K) (v w : V) (d : Dict K V) → beq j k ≡ false → get k (put j v (put j w d)) ≡ get k d
  get-put_twice j k v w d apart = rw (get-put, apart) (rw (get-put, apart) refl)

  get-put-pop :
      (j k : K) (v : V) (d : Dict K V) → beq j k ≡ false → get k (put j v (pop j d)) ≡ get k d
  get-put-pop j k v d apart = rw (get-put, apart) (rw (get-pop, apart) refl)

  get-pop_self : (k : K) (d : Dict K V) → get k (pop k d) ≡ none
  get-pop_self k d = rw (get-pop, beq_refl k) refl

-- The direction has a pairing that has not expired and has this id and token.
abbrev pub is_paired : ℕ → LaneId → String → String → SessionManager → Bool
is_paired now direction node token m = judged now node token (get direction m.pairing_sessions)

module _ {A : Type 0} (env : Environment A) (websocket : ℕ) where
  register-IsRegistered :
      (paired : Bool) (node : String) (direction : LaneId) (s : Server A)
      → is_occupied node (get_session_by_direction env.now (some direction) s.session_manager)
        ≡ false
      → IsRegistered env websocket paired node direction s
          (register env websocket paired node direction s).1
  unfolding register get_session get_connection clear_pairing_session connect_node
  register-IsRegistered true node direction s free =
      let same =
        evict_free node (get_session_by_direction env.now (some direction) s.session_manager)
          s.session_manager free in
      record {
        session = get-put_self node _ _;
        other_sessions = λ k apart.
            get-put_twice node k _ _ _ apart ∙ ap (λ (m : SessionManager). get k m.sessions) same;
        socket = get-put_self node websocket _;
        other_sockets = λ k apart. get-put-pop node k websocket s.active_connections apart;
        pairing_is_used = λ h. get-pop_self direction _;
      }
  register-IsRegistered false node direction s free =
      let same =
        evict_free node (get_session_by_direction env.now (some direction) s.session_manager)
          s.session_manager free in
      record {
        session = get-put_self node _ _;
        other_sessions = λ k apart.
            get-put_twice node k _ _ _ apart ∙ ap (λ (m : SessionManager). get k m.sessions) same;
        socket = get-put_self node websocket _;
        other_sockets = λ k apart. get-put-pop node k websocket s.active_connections apart;
        pairing_is_used = λ h. cc;
      }

  -- Whether a registration is admitted.
  abbrev pub is_admitted : Message A → String → LaneId → Server A → Bool
  is_admitted msg node direction s =
      (is_paired env.now direction node (or_default msg.token "") s.session_manager
        || is_back env.now direction (or_default msg.token "") (get_session node s.session_manager))
      && is_free node (get_session_by_direction env.now (some direction) s.session_manager)
      && env.is_well_formed msg

  -- An admitted registration is acknowledged with the fresh token and gives the node its session and
  -- its socket; a refused one is an error and changes neither sessions nor connections.
  abbrev pub Admission : Bool → Bool → String → LaneId → Server A → Reply × Server A → Type 0
  Admission true paired node direction s (reply, s') =
      (reply ≡ registered node env.new_token direction)
      × IsRegistered env websocket paired node direction s s'
  Admission false paired node direction s (reply, s') =
      ((code : ErrorCode) × (reply ≡ failure code))
      × (s'.session_manager.sessions ≡ s.session_manager.sessions)
      × (s'.active_connections ≡ s.active_connections)

  register_after :
      (paired : Bool) (node : String) (direction : LaneId) (s : Server A) (m : SessionManager)
      → m.sessions ≡ s.session_manager.sessions
      → m.timeout ≡ s.session_manager.timeout
      → is_occupied node (get_session_by_direction env.now (some direction) m) ≡ false
      → IsRegistered env websocket paired node direction s
          (register env websocket paired node direction (record s { session_manager = m })).1
  unfolding get_session
  register_after paired node direction s m same timeout free =
      let r = register-IsRegistered paired node direction (record s { session_manager = m }) free in
      record {
        session =
            r.session
            ∙ ap
                (λ (t : ℕ). some (record (new_session env.now env.new_token node direction t) {
                  streaming = s.system_running;
                }))
                timeout;
        other_sessions = λ k apart.
            r.other_sessions k apart ∙ ap (λ (d : Dict String NodeSession). get k d) same;
        socket = r.socket;
        other_sockets = r.other_sockets;
        pairing_is_used = r.pairing_is_used;
      }

  -- A registration is admitted exactly where the pairing of its direction is valid and the request
  -- has its id and token, or the node has a live session there with this token; and where no other
  -- node holds the direction and the schema accepts the message. It then gives the node a new session
  -- with the fresh token, which streams if the system runs, and its socket, uses up the pairing, and
  -- leaves every other node alone; else it is an error and leaves all sessions and sockets alone.
  pub register_checked_lem :
      (msg : Message A) (node : String) (direction : LaneId) (s : Server A)
      → Admission
          (is_admitted msg node direction s)
          (is_paired env.now direction node (or_default msg.token "") s.session_manager)
          node
          direction
          s
          (register_checked env websocket msg node direction s)
  unfolding register_checked register
  register_checked_lem msg node direction s =
      subst
        (λ (returning : Bool).
          Admission
            ((is_paired env.now direction node token s.session_manager || returning)
              && is_free node held
              && env.is_well_formed msg)
            (is_paired env.now direction node token s.session_manager) node direction s
            (register_checked env websocket msg node direction s))
        (is_reconnect-is_back env.now direction token (get_session node s.session_manager))
        (subst
          (λ (p : Bool).
            Admission ((p || back) && is_free node held && env.is_well_formed msg) p node direction
              s (register_checked env websocket msg node direction s))
          (validate-judged env.now (some direction) node token s.session_manager)
          (subst
            (λ (free : Bool).
              Admission ((paired || back) && free && env.is_well_formed msg) paired node direction s
                (register_checked env websocket msg node direction s))
            (not-is_occupied node (get_session_by_direction env.now (some direction) m)
              ∙ ap (is_free node) holder)
            (go (paired || back)
              (is_occupied node (get_session_by_direction env.now (some direction) m))
              (env.is_well_formed msg) refl)))
    where
      token : String
      token = or_default msg.token ""

      m : SessionManager
      m = (validate_pairing_session env.now (some direction) node token s.session_manager).1

      paired : Bool
      paired = (validate_pairing_session env.now (some direction) node token s.session_manager).0

      held : Option NodeSession
      held = get_session_by_direction env.now (some direction) s.session_manager

      back : Bool
      back = is_reconnect env.now direction token (get_session node s.session_manager)

      kept : (m.sessions ≡ s.session_manager.sessions) × (m.timeout ≡ s.session_manager.timeout)
      kept = validate_keeps env.now (some direction) node token s.session_manager

      holder :
          get_session_by_direction env.now (some direction) m
          ≡ get_session_by_direction env.now (some direction) s.session_manager
      holder = holder_of_same env.now direction s.session_manager m kept.0

      go :
          (may occupied valid : Bool)
          → is_occupied node (get_session_by_direction env.now (some direction) m) ≡ occupied
          → Admission (may && not occupied && valid) paired node direction s (
              admit may occupied valid env websocket paired node direction
                (record s { session_manager = m }))
      go false occupied valid e = ((unauthorized_pairing, refl), kept.0, refl)
      go true true valid e = ((direction_occupied, refl), kept.0, refl)
      go true false false e = ((invalid_registration_payload, refl), kept.0, refl)
      go true false true e = (refl, register_after paired node direction s m kept.0 kept.1 e)
