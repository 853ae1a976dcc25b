-- ===== src/Sessions/Pairing.antt =====
-- The pairing sessions of server/session_manager.py.
use smart_traffic_management.Common.{
  ℕ, String, ◌≡◌, refl, sym, ◌∙◌, Bool, false, ◌&&◌, Option, none, some, arith, Bool-cases, inl,
  inr, leb, if◌then◌else◌,
}
use smart_traffic_management.Common.Equality.{beq, string_eq, eq→beq}
use smart_traffic_management.Common.Dict.{get, get-put, get-pop}
use smart_traffic_management.Signal.Types.{LaneId, lane_id_eq_inst}
use smart_traffic_management.Sessions.{
  PairingSession, SessionManager, direction_of, register_pairing_session, clear_pairing_session,
  fresh_pairing, pairing_matches, validate_pairing_session,
}

-- A request against the pairing of its direction, at a time.
abbrev pub judged : ℕ → String → String → Option PairingSession → Bool
judged now id secret none = false
judged now id secret (some p) = leb now p.expires_at && (beq p.session_id id && beq p.token secret)

pub validate-judged :
    (now : ℕ) (asked : Option LaneId) (id secret : String) (m : SessionManager)
    → (validate_pairing_session now asked id secret m).0
      ≡ judged now id secret (get (direction_of asked) m.pairing_sessions)
unfolding validate_pairing_session
validate-judged now asked id secret m = go (get (direction_of asked) m.pairing_sessions)
  where
    go :
        (o : Option PairingSession)
        → pairing_matches id secret (fresh_pairing now asked o m).0 ≡ judged now id secret o
    go none = refl
    go (some p) = ground arith

module _ (now : ℕ) (direction asked : Option LaneId) (m : SessionManager) where
  -- After a pairing is registered for a direction, a request is validated for that direction exactly
  -- while the pairing has not expired and with its id and secret; requests for other directions are
  -- judged as before.
  pub validate-register_pairing :
      (session_id token id secret : String) (expires_at : ℕ)
      → (validate_pairing_session now asked id secret
          (register_pairing_session direction session_id token expires_at m)).0
        ≡ (if beq (direction_of direction) (direction_of asked)
            then leb now expires_at && (beq session_id id && beq token secret)
            else (validate_pairing_session now asked id secret m).0)
  unfolding register_pairing_session
  validate-register_pairing session_id token id secret expires_at =
      validate-judged now asked id secret _
      ∙ elim (Bool-cases (beq (direction_of direction) (direction_of asked))) [
        | inl same ↦ rw (get-put, same) refl
        | inr other ↦ rw (get-put, other) (sym (validate-judged now asked id secret m))
      ]

  -- A direction whose pairing was cleared validates no request.
  pub validate-clear_pairing :
      (id secret : String)
      → direction_of direction ≡ direction_of asked
      → (validate_pairing_session now asked id secret (clear_pairing_session direction m)).0 ≡ false
  unfolding clear_pairing_session
  validate-clear_pairing id secret same =
      validate-judged now asked id secret _
      ∙ rw (get-pop, eq→beq (direction_of direction) (direction_of asked) same) refl
