-- ===== src/Vehicles/Invariant.antt =====
-- What holds of every vehicle that ai/state/vehicle_state_manager.py tracks, after any frames.
use mathlib.Core.Path.{subst}
use smart_traffic_management.Common.{
  Bool-cases, List, Option, [], any, arith, inl, inr, none, or_default, refl, some, sym, ℕ, ◌∷◌,
  ◌≡◌,
}
use smart_traffic_management.Common.Dict.{Dict, get, put}
use smart_traffic_management.Common.Equality.{beq, nat_eq}
use smart_traffic_management.Common.Float.{Float}
use smart_traffic_management.Signal.Types.{LaneId, other}
use smart_traffic_management.Vehicles.{
  Centroid, Detection, ObservationState, VehicleState, VehicleStateManager, new_manager,
  observe_state, observed, predicted, projected,
}
use smart_traffic_management.Vehicles.Counters.{
  AllSound, IsSound, get-AllSound, observe_again-IsSound, put-AllSound,
}
use smart_traffic_management.Vehicles.Update.{
  count_track, current_ids, is_stale, note_projection, observe_track, purge_stale, update_track,
  update_tracks, update_vehicles,
}

module _ {F : Type 0} ⦃fl : Float F⦄ where
  observe_state-IsSound :
      (distance : Centroid → Centroid → F) (tid : ℕ) (lane : LaneId) (det : Detection F) (frame : ℕ)
      (timestamp : F) (states : Dict ℕ (VehicleState F)) (o : Option (VehicleState F))
      → AllSound states
      → get tid states ≡ o
      → IsSound (observe_state distance tid lane det frame timestamp o)
  observe_state-IsSound distance tid lane det frame timestamp states none a g = record {
    seen = omega arith;
    confirmation = ground arith;
    low_motion = omega arith;
    queueing = ground arith;
  }
  observe_state-IsSound distance tid lane det frame timestamp states (some s) a g =
      observe_again-IsSound distance lane det frame timestamp s (get-AllSound tid s states a g)

  pub states-count_track :
      (lane : LaneId) (s : VehicleState F) (m : VehicleStateManager F)
      → (count_track lane s m).active_states ≡ m.active_states
  unfolding count_track
  states-count_track lane s m = elim (Bool-cases s.is_confirmed) [
    | inl yes_confirmed ↦ rw yes_confirmed refl
    | inr new ↦ rw new refl
  ]

  projection-AllSound :
      (tid frame : ℕ) (det : Detection F) (m : VehicleStateManager F) (o : Option (VehicleState F))
      → AllSound m.active_states
      → get tid m.active_states ≡ o
      → AllSound (note_projection tid frame det o m).1.active_states
  projection-AllSound tid frame det m none a g = a
  projection-AllSound tid frame det m (some s) a g =
      let sound = get-AllSound tid s m.active_states a g in
      put-AllSound tid (projected frame s) m.active_states
        (record {
          seen = sound.seen;
          confirmation = sound.confirmation;
          low_motion = sound.low_motion;
          queueing = sound.queueing;
        })
        a

  update_track-AllSound :
      (distance : Centroid → Centroid → F) (kind : ObservationState) (o : Option ℕ)
      (det : Detection F) (frame : ℕ) (timestamp : F) (m : VehicleStateManager F)
      → AllSound m.active_states
      → AllSound (update_track distance kind o det frame timestamp m).1.active_states
  unfolding observe_track
  update_track-AllSound distance kind none det frame timestamp m a = a
  update_track-AllSound distance predicted (some tid) det frame timestamp m a =
      projection-AllSound tid frame det m (get tid m.active_states) a refl
  update_track-AllSound distance observed (some tid) det frame timestamp m a =
      let lane = or_default det.lane (other "Unknown") in
      let s = observe_state distance tid lane det frame timestamp (get tid m.active_states) in
      subst (λ t. AllSound t)
        (sym (states-count_track lane s (record m { active_states = put tid s m.active_states })))
        (put-AllSound tid s m.active_states
          (observe_state-IsSound distance tid lane det frame timestamp m.active_states
            (get tid m.active_states) a refl)
          a)

  update_tracks-AllSound :
      (distance : Centroid → Centroid → F) (dets : List (Detection F)) (frame : ℕ) (timestamp : F)
      (m : VehicleStateManager F)
      → AllSound m.active_states
      → AllSound (update_tracks distance dets frame timestamp m).1.active_states
  unfolding update_tracks
  update_tracks-AllSound distance [] frame timestamp m a = a
  update_tracks-AllSound distance (det ∷ dets) frame timestamp m a =
      update_tracks-AllSound distance dets frame timestamp
        (update_track distance det.observation_type det.track_id det frame timestamp m).1
        (update_track-AllSound distance det.observation_type det.track_id det frame timestamp m a)

  purge_stale-AllSound :
      (current : List ℕ) (timestamp : F) (states : Dict ℕ (VehicleState F))
      → AllSound states
      → AllSound (purge_stale current timestamp states)
  unfolding purge_stale
  purge_stale-AllSound current timestamp [] a = tt
  purge_stale-AllSound current timestamp ((tid, s) ∷ states) (here, rest) =
      let there = purge_stale-AllSound current timestamp states rest in
      elim (Bool-cases (any (beq tid) current)) [
        | inl present ↦ rw present (here, there)
        | inr absent ↦ elim (Bool-cases (is_stale timestamp s)) [
          | inl stale ↦ rw (absent, stale) there
          | inr recent ↦
              rw (absent, recent)
                (
                  record {
                    seen = here.seen;
                    confirmation = here.confirmation;
                    low_motion = here.low_motion;
                    queueing = here.queueing;
                  },
                  there,
                )
        ]
      ]

  -- Frames with their numbers and timestamps, one after the other.
  abbrev pub update_all :
      (Centroid → Centroid → F)
      → List (List (Detection F) × ℕ × F)
      → VehicleStateManager F
      → VehicleStateManager F
  update_all distance [] m = m
  update_all distance ((dets, frame, timestamp) ∷ frames) m =
      update_all distance frames (update_vehicles distance dets frame timestamp m).1

  update_all-AllSound :
      (distance : Centroid → Centroid → F) (frames : List (List (Detection F) × ℕ × F))
      (m : VehicleStateManager F)
      → AllSound m.active_states
      → AllSound (update_all distance frames m).active_states
  unfolding update_vehicles
  update_all-AllSound distance [] m a = a
  update_all-AllSound distance ((dets, frame, timestamp) ∷ frames) m a =
      update_all-AllSound distance frames (update_vehicles distance dets frame timestamp m).1 (
        purge_stale-AllSound (current_ids dets) timestamp
          (update_tracks distance dets frame timestamp m).1.active_states
          (update_tracks-AllSound distance dets frame timestamp m a))

  -- After any frames, a vehicle that is tracked is confirmed exactly if it was observed twice or
  -- more often since it is tracked, and it is queued exactly if it has ten or more frames of low
  -- motion, of which there are fewer than the frames in which it was observed.
  pub update_all-IsSound :
      (distance : Centroid → Centroid → F) (frames : List (List (Detection F) × ℕ × F)) (tid : ℕ)
      (s : VehicleState F)
      → get tid (update_all distance frames new_manager).active_states ≡ some s
      → IsSound s
  update_all-IsSound distance frames tid s g =
      get-AllSound tid s (update_all distance frames new_manager).active_states
        (update_all-AllSound distance frames new_manager tt) g
