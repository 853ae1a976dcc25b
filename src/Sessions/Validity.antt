-- ===== src/Sessions/Validity.antt =====
-- Which sessions server/session_manager.py accepts, and which a cleanup leaves.
use smart_traffic_management.Common.{
  ℕ, ◌-◌, ◌≤◌, String, ◌≡◌, ◌↔◌, refl, sym, ◌∙◌, Bool, true, false, not, ◌&&◌, Option, none, some,
  List, [], ◌∷◌, arith, Bool-cases, &&_parts, inl, inr, leb, if◌then◌else◌, any,
}
use smart_traffic_management.Common.Equality.{beq, beq→eq, eq→beq, string_eq}
use smart_traffic_management.Common.Dict.{Dict, get, get-put_self, get-pop, IsDict}
use smart_traffic_management.Signal.Types.{LaneId}
use smart_traffic_management.Sessions.{
  NodeSession, SessionManager, is_expired, direction_of, create_session, new_session, accepts,
  validate_session, update_heartbeat, remove_session, remove_all, cleanup_expired_sessions,
  get_expired_sessions,
}

-- The outcome of `get` at the node's own key after it was put.
module _ (now : ℕ) (token node : String) (direction : Option LaneId) (m : SessionManager) where
  stored_session :
      get node (create_session now token node direction m).1.sessions
      ≡ some (new_session now token node (direction_of direction) m.timeout)
  unfolding create_session
  stored_session = get-put_self node _ _

  -- A new session is accepted with its own token, and with no other, as long as no more than the
  -- timeout has passed since it was created.
  pub validate-create_session :
      (later : ℕ) (presented : String)
      → now ≤ later
      → validate_session later node presented (create_session now token node direction m).1
        ≡ (leb (later - now) m.timeout && beq token presented)
  unfolding validate_session
  validate-create_session later presented h = rw stored_session (ground arith)

module _ (now : ℕ) (node token : String) (m : SessionManager) where
  -- A heartbeat is confirmed exactly where the session is accepted with this token. A refused
  -- heartbeat changes nothing; a confirmed one keeps the session accepted until the timeout of the
  -- session has passed anew.
  pub update_heartbeat_lem :
      (later : ℕ) (s : NodeSession)
      → now ≤ later
      → get node m.sessions ≡ some s
      → let (confirmed, m') = update_heartbeat now node token m in
        (confirmed ≡ validate_session now node token m)
        × (confirmed ≡ false → m' ≡ m)
        × (confirmed ≡ true
            → validate_session later node token m' ≡ leb (later - now) s.heartbeat_timeout)
  unfolding update_heartbeat validate_session
  update_heartbeat_lem later s h g = elim (Bool-cases (accepts now token (some s))) [
    | inl good ↦
        let kept = (&&_parts (not (is_expired now s)) (beq s.session_token token) good).1 in
        rw (g, good) (rw g (refl, λ e. cc, λ _. rw get-put_self (ground (arith, kept))))
    | inr bad ↦ rw (g, bad) (refl, λ _. refl, λ e. cc)
  ]

-- What a cleanup leaves of a session.
abbrev pub unless_expired : ℕ → Option NodeSession → Option NodeSession
unless_expired now none = none
unless_expired now (some s) = if is_expired now s then none else some s

get-remove_all :
    (k : String) (nodes : List String) (m : SessionManager)
    → get k (remove_all nodes m).sessions ≡ (if any (beq k) nodes then none else get k m.sessions)
unfolding remove_all remove_session
get-remove_all k [] m = refl
get-remove_all k (node ∷ nodes) m =
    get-remove_all k nodes (remove_session node m)
    ∙ ground (
      arith,
      get-pop node k m.sessions,
      beq→eq node k,
      eq→beq node k,
      beq→eq k node,
      eq→beq k node,
    )

abbrev pub is_overdue : ℕ → Option NodeSession → Bool
is_overdue now none = false
is_overdue now (some s) = is_expired now s

pub any-expired :
    (now : ℕ) (k : String) (d : Dict String NodeSession)
    → IsDict d
    → any (beq k) (get_expired_sessions now d) ≡ is_overdue now (get k d)
unfolding get_expired_sessions
any-expired now k [] h = refl
any-expired now k ((node, s) ∷ rest) (h, hs) = elim (Bool-cases (beq node k)) [
  | inl same ↦
      let e : node ≡ k = beq→eq node k same in
      let gone : get k rest ≡ none = rw e at h in
      rw same (ground (arith, any-expired now k rest hs, gone, eq→beq k node, sym e))
  | inr other ↦ rw other (ground (arith, any-expired now k rest hs, beq→eq k node, eq→beq node k))
]

-- A cleanup removes the sessions that have expired, keeps every other, and reports exactly the
-- nodes whose sessions it removes.
pub cleanup_expired_sessions_lem :
    (now : ℕ) (k : String) (m : SessionManager)
    → IsDict m.sessions
    → let (removed, m') = cleanup_expired_sessions now m in
      (get k m'.sessions ≡ unless_expired now (get k m.sessions))
      × ((any (beq k) removed ≡ true)
          ↔ ((s : NodeSession) × (get k m.sessions ≡ some s) × (is_expired now s ≡ true)))
unfolding cleanup_expired_sessions
cleanup_expired_sessions_lem now k m d =
    let e = any-expired now k m.sessions d in
    (
      get-remove_all k (get_expired_sessions now m.sessions) m ∙ rw e (split (get k m.sessions)),
      rw e (overdue (get k m.sessions)),
    )
  where
    split : (o : Option NodeSession) → (if is_overdue now o then none else o) ≡ unless_expired now o
    split none = refl
    split (some s) = refl

    overdue :
        (o : Option NodeSession)
        → (is_overdue now o ≡ true) ↔ ((s : NodeSession) × (o ≡ some s) × (is_expired now s ≡ true))
    overdue none = (λ h. cc, λ h. cc (h.1))
    overdue (some s) = (λ h. (s, refl, h), λ (t, e, h). ground arith)
