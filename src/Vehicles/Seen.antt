-- ===== src/Vehicles/Seen.antt =====
-- A vehicle that a frame of ai/state/vehicle_state_manager.py observes is tracked after it.
use mathlib.Core.Path.{subst}
use smart_traffic_management.Common.{
  Bool-cases, List, Option, [], any, any-append, ap, arith, false, inl, inr, none, or_default, refl,
  some, sym, true, ℕ, ◌∙◌, ◌∷◌, ◌≡◌, ◌⊎◌,
}
use smart_traffic_management.Common.Dict.{Dict, get, get-put, put}
use smart_traffic_management.Common.Equality.{beq, beq→eq, eq→beq, nat_eq}
use smart_traffic_management.Common.Float.{Float}
use smart_traffic_management.Signal.Types.{LaneId, other}
use smart_traffic_management.Vehicles.{
  Centroid, Detection, ObservationState, VehicleState, VehicleStateManager, observe_again,
  observe_state, observed, predicted, projected,
}
use smart_traffic_management.Vehicles.Invariant.{states-count_track}
use smart_traffic_management.Vehicles.Update.{
  current_ids, note_projection, observe_track, observed_id, purge_stale, update_track,
  update_tracks, update_vehicles,
}

module _ {F : Type 0} ⦃fl : Float F⦄ where
  -- A vehicle that is tracked, alive, and last seen at a time.
  pub record IsSeenAt (timestamp : F) (tid : ℕ) (states : Dict ℕ (VehicleState F)) : Type 0 where
    pub state : VehicleState F
    pub tracked : get tid states ≡ some state
    pub alive : state.is_alive ≡ true
    pub seen : state.last_seen_timestamp ≡ timestamp

  put-IsSeenAt :
      (timestamp : F) (tid k : ℕ) (s : VehicleState F) (states : Dict ℕ (VehicleState F))
      → (beq k tid ≡ true → (s.is_alive ≡ true) × (s.last_seen_timestamp ≡ timestamp))
      → (beq k tid ≡ false → IsSeenAt timestamp tid states)
      → IsSeenAt timestamp tid (put k s states)
  put-IsSeenAt timestamp tid k s states here there = elim (Bool-cases (beq k tid)) [
    | inl same ↦ record {
      state = s;
      tracked = get-put k tid s states ∙ rw same refl;
      alive = (here same).0;
      seen = (here same).1;
    }
    | inr apart ↦
        let before = there apart in
        record {
          state = before.state;
          tracked = get-put k tid s states ∙ rw apart before.tracked;
          alive = before.alive;
          seen = before.seen;
        }
  ]

  observe_state_now :
      (distance : Centroid → Centroid → F) (tid : ℕ) (lane : LaneId) (det : Detection F) (frame : ℕ)
      (timestamp : F) (o : Option (VehicleState F))
      → let s = observe_state distance tid lane det frame timestamp o in
        (s.is_alive ≡ true) × (s.last_seen_timestamp ≡ timestamp)
  unfolding observe_again
  observe_state_now distance tid lane det frame timestamp none = (refl, refl)
  observe_state_now distance tid lane det frame timestamp (some s) = (refl, refl)

  pub states-observe_track :
      (distance : Centroid → Centroid → F) (tid : ℕ) (det : Detection F) (frame : ℕ) (timestamp : F)
      (m : VehicleStateManager F)
      → (observe_track distance tid det frame timestamp m).1.active_states
        ≡ put tid
            (observe_state distance tid
              (or_default det.lane (other "Unknown"))
              det
              frame
              timestamp
              (get tid m.active_states))
            m.active_states
  unfolding observe_track
  states-observe_track distance tid det frame timestamp m =
      let lane = or_default det.lane (other "Unknown") in
      let s = observe_state distance tid lane det frame timestamp (get tid m.active_states) in
      states-count_track lane s (record m { active_states = put tid s m.active_states })

  observe_track-IsSeenAt :
      (distance : Centroid → Centroid → F) (k : ℕ) (det : Detection F) (frame : ℕ) (timestamp : F)
      (m : VehicleStateManager F) (tid : ℕ)
      → (beq k tid ≡ false → IsSeenAt timestamp tid m.active_states)
      → IsSeenAt timestamp tid (observe_track distance k det frame timestamp m).1.active_states
  observe_track-IsSeenAt distance k det frame timestamp m tid before =
      let lane = or_default det.lane (other "Unknown") in
      let s = observe_state distance k lane det frame timestamp (get k m.active_states) in
      subst (λ t. IsSeenAt timestamp tid t)
        (sym (states-observe_track distance k det frame timestamp m))
        (put-IsSeenAt timestamp tid k s m.active_states
          (λ same. observe_state_now distance k lane det frame timestamp (get k m.active_states))
          before)

  some_eq : {a b : VehicleState F} → some a ≡ some b → a ≡ b
  some_eq h = cc

  projection-IsSeenAt :
      (timestamp : F) (k frame : ℕ) (det : Detection F) (m : VehicleStateManager F) (tid : ℕ)
      (o : Option (VehicleState F))
      → get k m.active_states ≡ o
      → IsSeenAt timestamp tid m.active_states
      → IsSeenAt timestamp tid (note_projection k frame det o m).1.active_states
  projection-IsSeenAt timestamp k frame det m tid none e before = before
  projection-IsSeenAt timestamp k frame det m tid (some s) e before =
      put-IsSeenAt timestamp tid k (projected frame s) m.active_states
        (λ same.
          let one : s ≡ before.state =
            some_eq
              (sym e ∙ ap (λ t. get t m.active_states) (beq→eq k tid same) ∙ before.tracked) in
          (
            ap (λ t. VehicleState.is_alive t) one ∙ before.alive,
            ap (λ t. VehicleState.last_seen_timestamp t) one ∙ before.seen,
          ))
        (λ apart. before)

  update_track-IsSeenAt :
      (distance : Centroid → Centroid → F) (kind : ObservationState) (o : Option ℕ)
      (det : Detection F) (frame : ℕ) (timestamp : F) (m : VehicleStateManager F) (tid : ℕ)
      → (any (beq tid) (observed_id kind o) ≡ true) ⊎ IsSeenAt timestamp tid m.active_states
      → IsSeenAt timestamp tid (update_track distance kind o det frame timestamp m).1.active_states
  update_track-IsSeenAt distance kind none det frame timestamp m tid (inl here) = cc
  update_track-IsSeenAt distance kind none det frame timestamp m tid (inr before) = before
  update_track-IsSeenAt distance predicted (some k) det frame timestamp m tid (inl here) = cc
  update_track-IsSeenAt distance predicted (some k) det frame timestamp m tid (inr before) =
      projection-IsSeenAt timestamp k frame det m tid (get k m.active_states) refl before
  update_track-IsSeenAt distance observed (some k) det frame timestamp m tid (inr before) =
      observe_track-IsSeenAt distance k det frame timestamp m tid (λ apart. before)
  update_track-IsSeenAt distance observed (some k) det frame timestamp m tid (inl here) =
      observe_track-IsSeenAt distance k det frame timestamp m tid
        (λ apart. absurd (ground (arith, here, apart, beq→eq tid k, eq→beq k tid)))

  update_tracks-IsSeenAt :
      (distance : Centroid → Centroid → F) (dets : List (Detection F)) (frame : ℕ) (timestamp : F)
      (m : VehicleStateManager F) (tid : ℕ)
      → (any (beq tid) (current_ids dets) ≡ true) ⊎ IsSeenAt timestamp tid m.active_states
      → IsSeenAt timestamp tid (update_tracks distance dets frame timestamp m).1.active_states
  unfolding update_tracks current_ids
  update_tracks-IsSeenAt distance [] frame timestamp m tid (inl here) = cc
  update_tracks-IsSeenAt distance [] frame timestamp m tid (inr before) = before
  update_tracks-IsSeenAt distance (det ∷ dets) frame timestamp m tid when =
      update_tracks-IsSeenAt distance dets frame timestamp
        (update_track distance det.observation_type det.track_id det frame timestamp m).1 tid
        (elim when [
          | inr before ↦ inr (
              update_track-IsSeenAt distance det.observation_type det.track_id det frame timestamp m
                tid (inr before))
          | inl here ↦
              elim (Bool-cases (any (beq tid) (observed_id det.observation_type det.track_id))) [
                | inl first ↦ inr (
                    update_track-IsSeenAt distance det.observation_type det.track_id det frame
                      timestamp m tid (inl first))
                | inr later_on ↦ inl (
                    rw
                      (
                        any-append (beq tid) (observed_id det.observation_type det.track_id)
                            (current_ids dets),
                        later_on,
                      )
                      at here)
              ]
        ])

  purge_stale-get :
      (current : List ℕ) (timestamp : F) (states : Dict ℕ (VehicleState F)) (tid : ℕ)
      → any (beq tid) current ≡ true
      → get tid (purge_stale current timestamp states) ≡ get tid states
  unfolding purge_stale
  purge_stale-get current timestamp [] tid h = refl
  purge_stale-get current timestamp ((k, v) ∷ states) tid h =
      ground (arith, purge_stale-get current timestamp states tid h, beq→eq k tid, h)

  -- A vehicle that is observed in a frame is tracked after it, alive, and last seen at the time of
  -- the frame, whatever the frame projects.
  pub update_vehicles-IsSeenAt :
      (distance : Centroid → Centroid → F) (dets : List (Detection F)) (frame : ℕ) (timestamp : F)
      (m : VehicleStateManager F) (tid : ℕ)
      → any (beq tid) (current_ids dets) ≡ true
      → IsSeenAt timestamp tid (update_vehicles distance dets frame timestamp m).1.active_states
  unfolding update_vehicles
  update_vehicles-IsSeenAt distance dets frame timestamp m tid h =
      let before = update_tracks-IsSeenAt distance dets frame timestamp m tid (inl h) in
      record {
        state = before.state;
        tracked =
            purge_stale-get (current_ids dets) timestamp
              (update_tracks distance dets frame timestamp m).1.active_states tid h
            ∙ before.tracked;
        alive = before.alive;
        seen = before.seen;
      }
