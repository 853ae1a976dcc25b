-- ===== src/Sessions.antt =====
-- server/session_manager.py: sessions of camera nodes and pairing sessions. Clocks are in
-- milliseconds; `time.time()` is the argument `now`, read once in a call, and the token that
-- `uuid.uuid4()` gives is the argument `token`. A direction is a text up to case, as `lower()` has it.
pub mod Uniqueness
pub mod History
pub mod Validity
pub mod Pairing
use smart_traffic_management.Common.{
  ℕ, ◌+◌, ◌-◌, String, Bool, true, false, not, ◌&&◌, ◌||◌, Option, none, some, List, [], ◌∷◌, ltb,
  if◌then◌else◌, or_default, find,
}
use smart_traffic_management.Common.Equality.{beq, string_eq}
use smart_traffic_management.Common.Dict.{Dict, get, put, pop, values}
use smart_traffic_management.Signal.Types.{LaneId, approach, north, lane_id_eq_inst}

-- `streaming` is set by the message handler, and True where it is not.
pub record NodeSession : Type 0 where
  pub node_id : String
  pub session_token : String
  pub camera_direction : LaneId
  pub connected_at : ℕ
  pub last_heartbeat : ℕ
  pub heartbeat_timeout : ℕ
  pub streaming : Bool

pub record PairingSession : Type 0 where
  pub session_id : String
  pub token : String
  pub expires_at : ℕ

pub record SessionManager : Type 0 where
  pub sessions : Dict String NodeSession
  pub pairing_sessions : Dict LaneId PairingSession
  pub timeout : ℕ

unfoldable pub is_expired : ℕ → NodeSession → Bool
is_expired now s = ltb s.heartbeat_timeout (now - s.last_heartbeat)

-- `(camera_direction or "north").lower()`
abbrev pub direction_of : Option LaneId → LaneId
direction_of d = or_default d (approach north)

abbrev pub holds : ℕ → LaneId → NodeSession → Bool
holds now direction s = beq s.camera_direction direction && not (is_expired now s)

unfoldable pub get_session_by_direction : ℕ → Option LaneId → SessionManager → Option NodeSession
unfolding is_expired
get_session_by_direction now direction m =
    find (holds now (direction_of direction)) (values m.sessions)

unfoldable pub get_session : String → SessionManager → Option NodeSession
get_session node m = get node m.sessions

unfoldable pub remove_session : String → SessionManager → SessionManager
remove_session node m = record m { sessions = pop node m.sessions }

-- A session of another node in this direction is evicted.
abbrev pub evict : String → Option NodeSession → SessionManager → SessionManager
evict node none m = m
evict node (some existing) m =
    if beq existing.node_id node then m else remove_session existing.node_id m

abbrev pub new_session : ℕ → String → String → LaneId → ℕ → NodeSession
new_session now token node direction timeout = record {
  node_id = node;
  session_token = token;
  camera_direction = direction;
  connected_at = now;
  last_heartbeat = now;
  heartbeat_timeout = timeout;
  streaming = true;
}

unfoldable pub create_session :
    ℕ → String → String → Option LaneId → SessionManager → NodeSession × SessionManager
unfolding get_session_by_direction remove_session
create_session now token node direction m =
    let dir = direction_of direction in
    let session = new_session now token node dir m.timeout in
    let m' = evict node (get_session_by_direction now (some dir) m) m in
    (session, record m' { sessions = put node session m'.sessions })

abbrev pub accepts : ℕ → String → Option NodeSession → Bool
accepts now token none = false
accepts now token (some s) = not (is_expired now s) && beq s.session_token token

unfoldable pub validate_session : ℕ → String → String → SessionManager → Bool
unfolding is_expired
validate_session now node token m = accepts now token (get node m.sessions)

-- `self.sessions[node_id].last_heartbeat = now`
abbrev pub touch : ℕ → String → Option NodeSession → SessionManager → SessionManager
touch now node none m = m
touch now node (some s) m = record m {
  sessions = put node (record s { last_heartbeat = now }) m.sessions;
}

abbrev pub beat : ℕ → String → Bool → SessionManager → Bool × SessionManager
beat now node false m = (false, m)
beat now node true m = (true, touch now node (get node m.sessions) m)

unfoldable pub update_heartbeat : ℕ → String → String → SessionManager → Bool × SessionManager
unfolding validate_session
update_heartbeat now node token m = beat now node (validate_session now node token m) m

unfoldable pub get_expired_sessions : ℕ → Dict String NodeSession → List String
unfolding is_expired
get_expired_sessions now [] = []
get_expired_sessions now ((node, s) ∷ rest) =
    let others = get_expired_sessions now rest in if is_expired now s then node ∷ others else others

unfoldable pub remove_all : List String → SessionManager → SessionManager
unfolding remove_session
remove_all [] m = m
remove_all (node ∷ rest) m = remove_all rest (remove_session node m)

unfoldable pub cleanup_expired_sessions : ℕ → SessionManager → List String × SessionManager
unfolding get_expired_sessions remove_all
cleanup_expired_sessions now m =
    let expired = get_expired_sessions now m.sessions in (expired, remove_all expired m)

unfoldable pub register_pairing_session :
    Option LaneId → String → String → ℕ → SessionManager → SessionManager
register_pairing_session direction session_id token expires_at m = record m {
  pairing_sessions =
      put (direction_of direction)
        (record { session_id = session_id; token = token; expires_at = expires_at })
        m.pairing_sessions;
}

unfoldable pub clear_pairing_session : Option LaneId → SessionManager → SessionManager
clear_pairing_session direction m = record m {
  pairing_sessions = pop (direction_of direction) m.pairing_sessions;
}

-- A pairing session that has expired is cleared.
abbrev pub fresh_pairing :
    ℕ
    → Option LaneId
    → Option PairingSession
    → SessionManager
    → Option PairingSession × SessionManager
fresh_pairing now direction none m = (none, m)
fresh_pairing now direction (some p) m =
    if ltb p.expires_at now then (none, clear_pairing_session direction m) else (some p, m)

unfoldable pub get_pairing_session :
    ℕ → Option LaneId → SessionManager → Option PairingSession × SessionManager
unfolding clear_pairing_session
get_pairing_session now direction m =
    fresh_pairing now direction (get (direction_of direction) m.pairing_sessions) m

abbrev pub pairing_matches : String → String → Option PairingSession → Bool
pairing_matches session_id token none = false
pairing_matches session_id token (some p) = beq p.session_id session_id && beq p.token token

unfoldable pub validate_pairing_session :
    ℕ → Option LaneId → String → String → SessionManager → Bool × SessionManager
unfolding get_pairing_session
validate_pairing_session now direction session_id token m =
    let (p, m') = get_pairing_session now direction m in (pairing_matches session_id token p, m')
