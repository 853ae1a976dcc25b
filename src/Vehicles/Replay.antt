-- ===== src/Vehicles/Replay.antt =====
-- How often and when a vehicle is observed, from the detections alone, beside the loop of
-- ai/state/vehicle_state_manager.py over them.
use mathlib.Core.Path.{subst}
use smart_traffic_management.Common.{
  Bool, Bool-cases, List, Option, [], any, ap, false, if◌then◌else◌, inl, inr, none, or_default,
  refl, some, sym, ℕ, ◌+◌, ◌∙◌, ◌||◌, ◌∷◌, ◌≡◌,
}
use smart_traffic_management.Common.Dict.{Dict, IsDict, get, get-put, put, put-IsDict}
use smart_traffic_management.Common.Equality.{beq, beq→eq, nat_eq}
use smart_traffic_management.Common.Float.{Float}
use smart_traffic_management.Signal.Types.{LaneId, other}
use smart_traffic_management.Vehicles.{
  Centroid, Detection, ObservationState, VehicleState, VehicleStateManager, in_lane, observe_again,
  observe_state, observed, predicted, projected,
}
use smart_traffic_management.Vehicles.Counters.{seen-observe_again}
use smart_traffic_management.Vehicles.Seen.{states-observe_track}
use smart_traffic_management.Vehicles.Update.{
  note_projection, observe_track, update_track, update_tracks,
}

-- A detection observes a vehicle where it has its identifier and is no projection of the tracker.
abbrev pub observes : ℕ → ObservationState → Option ℕ → Bool
observes tid observed (some k) = beq k tid
observes tid observed none = false
observes tid predicted track = false

module _ {F : Type 0} where
  abbrev pub is_sighting : ℕ → Detection F → Bool
  is_sighting tid det = observes tid det.observation_type det.track_id

  -- One more observation, of a vehicle that was observed so often, and when last, or is not tracked.
  abbrev pub once_more : F → Option (ℕ × F) → Option (ℕ × F)
  once_more timestamp none = some (1, timestamp)
  once_more timestamp (some (n, seen)) = some (n + 1, timestamp)

  abbrev pub sighted_in : ℕ → F → List (Detection F) → Option (ℕ × F) → Option (ℕ × F)
  sighted_in tid timestamp [] before = before
  sighted_in tid timestamp (det ∷ dets) before =
      sighted_in tid timestamp dets
        (if is_sighting tid det then once_more timestamp before else before)

module _ {F : Type 0} ⦃fl : Float F⦄ where
  -- A vehicle that was last seen more than 1.8 seconds ago is forgotten.
  abbrev pub forgotten : F → Option (ℕ × F) → Option (ℕ × F)
  forgotten timestamp none = none
  forgotten timestamp (some (n, seen)) =
      let away = fl.sub timestamp seen in
      if fl.lt (fl.lit 400) away || fl.lt (fl.lit 180) away then none else some (n, seen)

  -- The sightings after some frames: those of a frame are added, and in a frame without any a vehicle
  -- may be forgotten.
  abbrev pub sightings : ℕ → List (List (Detection F) × ℕ × F) → Option (ℕ × F) → Option (ℕ × F)
  sightings tid [] before = before
  sightings tid ((dets, frame, timestamp) ∷ frames) before =
      let after = sighted_in tid timestamp dets before in
      sightings tid frames (if any (is_sighting tid) dets then after else forgotten timestamp after)

  -- What the manager has of a vehicle.
  abbrev pub summary : Option (VehicleState F) → Option (ℕ × F)
  summary none = none
  summary (some s) = some (s.consecutive_seen_frames, s.last_seen_timestamp)

  summary-observe_state :
      (distance : Centroid → Centroid → F) (tid : ℕ) (lane : LaneId) (det : Detection F) (frame : ℕ)
      (timestamp : F) (o : Option (VehicleState F))
      → summary (some (observe_state distance tid lane det frame timestamp o))
        ≡ once_more timestamp (summary o)
  unfolding observe_again in_lane
  summary-observe_state distance tid lane det frame timestamp none = refl
  summary-observe_state distance tid lane det frame timestamp (some s) =
      ap (λ n. some (n, timestamp)) (seen-observe_again distance lane det frame timestamp s)

  summary-put :
      (tid k : ℕ) (s : VehicleState F) (states : Dict ℕ (VehicleState F))
      → summary (get tid (put k s states))
        ≡ (if beq k tid then summary (some s) else summary (get tid states))
  summary-put tid k s states = elim (Bool-cases (beq k tid)) [
    | inl same ↦ rw (get-put k tid s states, same) refl
    | inr apart ↦ rw (get-put k tid s states, apart) refl
  ]

  summary-observed :
      (distance : Centroid → Centroid → F) (tid k : ℕ) (det : Detection F) (frame : ℕ)
      (timestamp : F) (m : VehicleStateManager F)
      → summary (get tid (observe_track distance k det frame timestamp m).1.active_states) ≡ (
          if beq k tid
          then once_more timestamp (summary (get tid m.active_states))
          else summary (get tid m.active_states))
  summary-observed distance tid k det frame timestamp m =
      let lane = or_default det.lane (other "Unknown") in
      let o = get k m.active_states in
      let s = observe_state distance k lane det frame timestamp o in
      ap (λ d. summary (get tid d)) (states-observe_track distance k det frame timestamp m)
      ∙ summary-put tid k s m.active_states
      ∙ elim (Bool-cases (beq k tid)) [
        | inr apart ↦ rw apart refl
        | inl same ↦ rw same (
            summary-observe_state distance k lane det frame timestamp o
            ∙ ap (λ t. once_more timestamp (summary (get t m.active_states))) (beq→eq k tid same))
      ]

  summary-projected :
      (tid k frame : ℕ) (det : Detection F) (m : VehicleStateManager F)
      (o : Option (VehicleState F))
      → get k m.active_states ≡ o
      → summary (get tid (note_projection k frame det o m).1.active_states)
        ≡ summary (get tid m.active_states)
  summary-projected tid k frame det m none e = refl
  summary-projected tid k frame det m (some s) e =
      summary-put tid k (projected frame s) m.active_states ∙ elim (Bool-cases (beq k tid)) [
        | inr apart ↦ rw apart refl
        | inl same ↦
            rw same
              (ap summary (sym e) ∙ ap (λ t. summary (get t m.active_states)) (beq→eq k tid same))
      ]

  summary-update_track :
      (distance : Centroid → Centroid → F) (tid : ℕ) (kind : ObservationState) (o : Option ℕ)
      (det : Detection F) (frame : ℕ) (timestamp : F) (m : VehicleStateManager F)
      → summary (get tid (update_track distance kind o det frame timestamp m).1.active_states) ≡ (
          if observes tid kind o
          then once_more timestamp (summary (get tid m.active_states))
          else summary (get tid m.active_states))
  summary-update_track distance tid observed none det frame timestamp m = refl
  summary-update_track distance tid predicted none det frame timestamp m = refl
  summary-update_track distance tid predicted (some k) det frame timestamp m =
      summary-projected tid k frame det m (get k m.active_states) refl
  summary-update_track distance tid observed (some k) det frame timestamp m =
      summary-observed distance tid k det frame timestamp m

  pub summary-update_tracks :
      (distance : Centroid → Centroid → F) (tid : ℕ) (dets : List (Detection F)) (frame : ℕ)
      (timestamp : F) (m : VehicleStateManager F)
      → summary (get tid (update_tracks distance dets frame timestamp m).1.active_states)
        ≡ sighted_in tid timestamp dets (summary (get tid m.active_states))
  unfolding update_tracks
  summary-update_tracks distance tid [] frame timestamp m = refl
  summary-update_tracks distance tid (det ∷ dets) frame timestamp m =
      summary-update_tracks distance tid dets frame timestamp
        (update_track distance det.observation_type det.track_id det frame timestamp m).1
      ∙ ap (sighted_in tid timestamp dets) (
          summary-update_track distance tid det.observation_type det.track_id det frame timestamp m)

  pub update_tracks-IsDict :
      (distance : Centroid → Centroid → F) (dets : List (Detection F)) (frame : ℕ) (timestamp : F)
      (m : VehicleStateManager F)
      → IsDict m.active_states
      → IsDict (update_tracks distance dets frame timestamp m).1.active_states
  unfolding update_tracks
  update_tracks-IsDict distance [] frame timestamp m d = d
  update_tracks-IsDict distance (det ∷ dets) frame timestamp m d =
      update_tracks-IsDict distance dets frame timestamp
        (update_track distance det.observation_type det.track_id det frame timestamp m).1
        (go det.observation_type det.track_id)
    where
      projection :
          (k : ℕ) (o : Option (VehicleState F))
          → IsDict (note_projection k frame det o m).1.active_states
      projection k none = d
      projection k (some s) = put-IsDict k (projected frame s) m.active_states d

      go :
          (kind : ObservationState) (o : Option ℕ)
          → IsDict (update_track distance kind o det frame timestamp m).1.active_states
      go observed none = d
      go predicted none = d
      go predicted (some k) = projection k (get k m.active_states)
      go observed (some k) =
          subst (λ t. IsDict t) (sym (states-observe_track distance k det frame timestamp m))
            (put-IsDict k _ m.active_states d)
