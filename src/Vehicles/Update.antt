-- ===== src/Vehicles/Update.antt =====
-- `VehicleStateManager.update` of ai/state/vehicle_state_manager.py.
use smart_traffic_management.Common.{
  Bool, List, Option, [], any, false, if◌then◌else◌, none, or_default, some, ℕ, ◌++◌, ◌||◌, ◌∷◌,
}
use smart_traffic_management.Common.Dict.{Dict, get, put}
use smart_traffic_management.Common.Equality.{beq, nat_eq}
use smart_traffic_management.Common.Float.{Float}
use smart_traffic_management.Signal.Types.{LaneId, lane_id_eq_inst, other}
use smart_traffic_management.Vehicles.{
  Centroid, Detection, ObservationState, VehicleState, VehicleStateManager, add_track, enriched,
  observe_again, observe_state, observed, predicted, projected,
}

-- Those that are observed, apart from projections and detections without a track.
abbrev pub observed_id : ObservationState → Option ℕ → List ℕ
observed_id kind none = []
observed_id predicted (some tid) = []
observed_id observed (some tid) = tid ∷ []

module _ {F : Type 0} where
  -- The tracks that have been confirmed in a lane.
  unfoldable pub count_track :
      LaneId → VehicleState F → VehicleStateManager F → VehicleStateManager F
  count_track lane s m =
      let known = or_default (get lane m.historical_tracks_count) [] in
      if s.is_confirmed
      then record m {
        historical_tracks_count = put lane (add_track s.track_id known) m.historical_tracks_count;
      }
      else m

  -- A projection of the tracker.
  abbrev pub note_projection :
      ℕ
      → ℕ
      → Detection F
      → Option (VehicleState F)
      → VehicleStateManager F
      → Detection F × VehicleStateManager F
  note_projection tid frame det none m = (det, m)
  note_projection tid frame det (some s) m =
      (enriched s det, record m { active_states = put tid (projected frame s) m.active_states })

  unfoldable pub current_ids : List (Detection F) → List ℕ
  current_ids [] = []
  current_ids (det ∷ dets) = observed_id det.observation_type det.track_id ++ current_ids dets

module _ {F : Type 0} ⦃fl : Float F⦄ where
  -- Beyond TRACK_EXPIRATION_TIMEOUT_SEC, 4.0, or beyond TRACK_REMOVAL_GRACE_SEC, 1.8.
  abbrev pub is_stale : F → VehicleState F → Bool
  is_stale timestamp s =
      let inactive = fl.sub timestamp s.last_seen_timestamp in
      fl.lt (fl.lit 400) inactive || fl.lt (fl.lit 180) inactive

  unfoldable pub purge_stale : List ℕ → F → Dict ℕ (VehicleState F) → Dict ℕ (VehicleState F)
  purge_stale current timestamp [] = []
  purge_stale current timestamp ((tid, s) ∷ states) =
      let rest = purge_stale current timestamp states in
      if any (beq tid) current
      then (tid, s) ∷ rest
      else if is_stale timestamp s
      then rest
      else (tid, record s { is_alive = false }) ∷ rest

module _ {F : Type 0} ⦃fl : Float F⦄ (distance : Centroid → Centroid → F) where
  unfoldable pub observe_track :
      ℕ → Detection F → ℕ → F → VehicleStateManager F → Detection F × VehicleStateManager F
  unfolding observe_again count_track
  observe_track tid det frame timestamp m =
      let lane = or_default det.lane (other "Unknown") in
      let s = observe_state distance tid lane det frame timestamp (get tid m.active_states) in
      (enriched s det, count_track lane s (record m { active_states = put tid s m.active_states }))

  -- The body of the loop over the detections.
  abbrev pub update_track :
      ObservationState
      → Option ℕ
      → Detection F
      → ℕ
      → F
      → VehicleStateManager F
      → Detection F × VehicleStateManager F
  update_track kind none det frame timestamp m = (det, m)
  update_track predicted (some tid) det frame timestamp m =
      note_projection tid frame det (get tid m.active_states) m
  update_track observed (some tid) det frame timestamp m = observe_track tid det frame timestamp m

  unfoldable pub update_tracks :
      List (Detection F)
      → ℕ
      → F
      → VehicleStateManager F
      → List (Detection F) × VehicleStateManager F
  unfolding observe_track
  update_tracks [] frame timestamp m = ([], m)
  update_tracks (det ∷ dets) frame timestamp m =
      let (det', m') = update_track det.observation_type det.track_id det frame timestamp m in
      let (dets', m'') = update_tracks dets frame timestamp m' in (det' ∷ dets', m'')

  unfoldable pub update_vehicles :
      List (Detection F)
      → ℕ
      → F
      → VehicleStateManager F
      → List (Detection F) × VehicleStateManager F
  unfolding update_tracks purge_stale current_ids
  update_vehicles dets frame timestamp m =
      let (dets', m') = update_tracks dets frame timestamp m in
      (
        dets',
        record m' { active_states = purge_stale (current_ids dets) timestamp m'.active_states },
      )
