-- ===== src/Sessions/History.antt =====
-- Histories of server/session_manager.py: calls at times that do not run backwards.
use smart_traffic_management.Common.{
  ℕ, ◌+◌, String, ◌≡◌, refl, ◌∙◌, true, false, not, Option, none, some, List, [], ◌∷◌, arith,
  Bool-cases, &&_parts, inl, inr,
}
use smart_traffic_management.Common.Equality.{beq, string_eq}
use smart_traffic_management.Common.Dict.{get}
use smart_traffic_management.Signal.Types.{LaneId}
use smart_traffic_management.Sessions.{
  NodeSession, SessionManager, is_expired, create_session, touch, accepts, validate_session,
  update_heartbeat, remove_session, remove_all, cleanup_expired_sessions, get_expired_sessions,
}
use smart_traffic_management.Sessions.Uniqueness.{
  IsValid, later-IsValid, remove_session-IsValid, put-IsValid, create_session-IsValid,
}

pub data SessionCall : Type 0 where
  create : String → String → Option LaneId → SessionCall
  heartbeat : String → String → SessionCall
  remove : String → SessionCall
  cleanup : SessionCall

unfoldable pub apply_call : ℕ → SessionCall → SessionManager → SessionManager
apply_call now (create token node direction) m = (create_session now token node direction m).1
apply_call now (heartbeat node token) m = (update_heartbeat now node token m).1
apply_call now (remove node) m = remove_session node m
apply_call now cleanup m = (cleanup_expired_sessions now m).1

-- Each call comes with the time that has passed since the one before.
abbrev pub run_calls : ℕ → List (ℕ × SessionCall) → SessionManager → SessionManager
run_calls now [] m = m
run_calls now ((delay, call) ∷ rest) m =
    run_calls (now + delay) rest (apply_call (now + delay) call m)

abbrev pub end_of : ℕ → List (ℕ × SessionCall) → ℕ
end_of now [] = now
end_of now ((delay, call) ∷ rest) = end_of (now + delay) rest

abbrev pub no_sessions : ℕ → SessionManager
no_sessions timeout = record { sessions = []; pairing_sessions = []; timeout = timeout }

touch-IsValid :
    (now : ℕ) (node : String) (s : NodeSession) (m : SessionManager)
    → IsValid now m
    → get node m.sessions ≡ some s
    → is_expired now s ≡ false
    → IsValid now (touch now node (some s) m)
touch-IsValid now node s m v g alive =
    put-IsValid now node (record s { last_heartbeat = now }) m v (v.keyed node s g)
      λ k t h live same. v.one_each k node t s h g live alive same

beat-IsValid :
    (now : ℕ) (node token : String) (o : Option NodeSession) (m : SessionManager)
    → IsValid now m
    → get node m.sessions ≡ o
    → accepts now token o ≡ true
    → IsValid now (touch now node o m)
beat-IsValid now node token none m v e good = v
beat-IsValid now node token (some s) m v e good =
    touch-IsValid now node s m v e
      (ground (arith, (&&_parts (not (is_expired now s)) (beq s.session_token token) good).0))

pub update_heartbeat-IsValid :
    (now : ℕ) (node token : String) (m : SessionManager)
    → IsValid now m
    → IsValid now (update_heartbeat now node token m).1
unfolding update_heartbeat validate_session
update_heartbeat-IsValid now node token m v =
    elim (Bool-cases (accepts now token (get node m.sessions))) [
      | inl good ↦ rw good (beat-IsValid now node token (get node m.sessions) m v refl good)
      | inr bad ↦ rw bad v
    ]

remove_all-IsValid :
    (now : ℕ) (nodes : List String) (m : SessionManager)
    → IsValid now m
    → IsValid now (remove_all nodes m)
unfolding remove_all
remove_all-IsValid now [] m v = v
remove_all-IsValid now (node ∷ nodes) m v =
    remove_all-IsValid now nodes (remove_session node m) (remove_session-IsValid now node m v)

apply_call-IsValid :
    (now : ℕ) (call : SessionCall) (m : SessionManager)
    → IsValid now m
    → IsValid now (apply_call now call m)
unfolding apply_call cleanup_expired_sessions
apply_call-IsValid now (create token node direction) m v =
    create_session-IsValid now token node direction m v
apply_call-IsValid now (heartbeat node token) m v = update_heartbeat-IsValid now node token m v
apply_call-IsValid now (remove node) m v = remove_session-IsValid now node m v
apply_call-IsValid now cleanup m v =
    remove_all-IsValid now (get_expired_sessions now m.sessions) m v

run_calls-IsValid :
    (now : ℕ) (calls : List (ℕ × SessionCall)) (m : SessionManager)
    → IsValid now m
    → IsValid (end_of now calls) (run_calls now calls m)
run_calls-IsValid now [] m v = v
run_calls-IsValid now ((delay, call) ∷ rest) m v =
    run_calls-IsValid (now + delay) rest (apply_call (now + delay) call m)
      (apply_call-IsValid (now + delay) call m (later-IsValid now (now + delay) m (omega arith) v))

pub no_sessions-IsValid : (now timeout : ℕ) → IsValid now (no_sessions timeout)
no_sessions-IsValid now timeout = record {
  dict = tt;
  keyed = λ k s g. cc;
  one_each = λ j k s t gj gk es et same. cc;
}

-- From a manager without sessions, after any history of calls, two sessions that are alive and hold
-- the same direction are the session of one node.
pub one_node_per_direction :
    (start timeout : ℕ) (calls : List (ℕ × SessionCall)) (j k : String) (s t : NodeSession)
    → get j (run_calls start calls (no_sessions timeout)).sessions ≡ some s
    → get k (run_calls start calls (no_sessions timeout)).sessions ≡ some t
    → is_expired (end_of start calls) s ≡ false
    → is_expired (end_of start calls) t ≡ false
    → s.camera_direction ≡ t.camera_direction
    → (j ≡ k) × (s.node_id ≡ k)
one_node_per_direction start timeout calls j k s t gj gk es et same =
    let v =
      run_calls-IsValid start calls (no_sessions timeout) (no_sessions-IsValid start timeout) in
    let e = v.one_each j k s t gj gk es et same in (e, v.keyed j s gj ∙ e)
