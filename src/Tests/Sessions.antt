-- ===== src/Tests/Sessions.antt =====
-- server/session_manager.py at concrete inputs. Times are in milliseconds.
use smart_traffic_management.Common.{
  List, String, [], false, leb, none, refl, some, ℕ, ◌&&◌, ◌∷◌, ◌≡◌,
}
use smart_traffic_management.Common.Equality.{beq, string_eq}
use smart_traffic_management.Sessions.{
  NodeSession, SessionManager, clear_pairing_session, create_session, is_expired, new_session,
  register_pairing_session, update_heartbeat, validate_pairing_session,
}
use smart_traffic_management.Sessions.History.{
  SessionCall, apply_call, create, heartbeat, no_sessions, one_node_per_direction, run_calls,
}
use smart_traffic_management.Sessions.Pairing.{validate-clear_pairing, validate-register_pairing}
use smart_traffic_management.Signal.Types.{approach, north}

abbrev north_camera : SessionManager
north_camera = record {
  sessions = ("cam-1", new_session 1000 "t-1" "cam-1" (approach north) 15000) ∷ [];
  pairing_sessions = [];
  timeout = 15000;
}

-- A second camera claims the direction, and the first is evicted.
abbrev calls : List (ℕ × SessionCall)
calls =
    (1000, create "t-1" "cam-1" (some (approach north)))
    ∷ (500, heartbeat "cam-1" "t-1")
    ∷ (500, create "t-2" "cam-2" (some (approach north)))
    ∷ []

abbrev second_session : NodeSession
second_session = new_session 2000 "t-2" "cam-2" (approach north) 15000

second_alone : (run_calls 0 calls (no_sessions 15000)).sessions ≡ ("cam-2", second_session) ∷ []
unfolding apply_call create_session update_heartbeat is_expired
second_alone = refl

one_node_per_direction_example :
    (◌≡◌ {A = String} "cam-2" "cam-2") × (second_session.node_id ≡ "cam-2")
unfolding apply_call create_session update_heartbeat is_expired
one_node_per_direction_example =
    one_node_per_direction 0 15000 calls "cam-2" "cam-2" second_session second_session refl refl
      refl refl refl

validate-register_pairing_example :
    (validate_pairing_session 5000
      (some (approach north))
      "CAM-1"
      "s3cret"
      (register_pairing_session none "CAM-1" "s3cret" 6000 north_camera)).0
    ≡ (leb 5000 6000 && (beq {A = String} "CAM-1" "CAM-1" && beq {A = String} "s3cret" "s3cret"))
validate-register_pairing_example =
    validate-register_pairing 5000 none (some (approach north)) north_camera "CAM-1" "s3cret"
      "CAM-1" "s3cret" 6000

validate-clear_pairing_example :
    (validate_pairing_session 5000 (some (approach north)) "CAM-1" "s3cret" (
      clear_pairing_session none
        (register_pairing_session none "CAM-1" "s3cret" 6000 north_camera))).0
    ≡ false
validate-clear_pairing_example =
    validate-clear_pairing 5000 none (some (approach north))
      (register_pairing_session none "CAM-1" "s3cret" 6000 north_camera) "CAM-1" "s3cret" refl
