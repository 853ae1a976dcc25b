-- ===== src/Vehicles/Sightings.antt =====
-- How often and when ai/state/vehicle_state_manager.py has observed a vehicle, against a count that is
-- made from the detections alone.
use smart_traffic_management.Common.{
  Bool-cases, List, Option, [], any, any-append, ap, arith, if◌then◌else◌, inl, inr, none, refl,
  some, sym, true, ℕ, ◌∙◌, ◌||◌, ◌∷◌, ◌≡◌, ◌≤◌, ◌↔◌,
}
use smart_traffic_management.Common.Dict.{Dict, IsDict, get}
use smart_traffic_management.Common.Equality.{beq, beq→eq, eq→beq, nat_eq}
use smart_traffic_management.Common.Float.{Float}
use smart_traffic_management.Vehicles.{
  Centroid, Detection, ObservationState, VehicleState, VehicleStateManager, new_manager, observed,
  predicted,
}
use smart_traffic_management.Vehicles.Counters.{IsSound}
use smart_traffic_management.Vehicles.Invariant.{update_all, update_all-IsSound}
use smart_traffic_management.Vehicles.Update.{
  current_ids, is_stale, observed_id, purge_stale, update_tracks, update_vehicles,
}
use smart_traffic_management.Vehicles.Replay.{
  forgotten, is_sighting, observes, sightings, summary, summary-update_tracks, update_tracks-IsDict,
}

observed_ids :
    (tid : ℕ) (kind : ObservationState) (o : Option ℕ)
    → any (beq tid) (observed_id kind o) ≡ observes tid kind o
observed_ids tid observed none = refl
observed_ids tid predicted none = refl
observed_ids tid predicted (some k) = refl
observed_ids tid observed (some k) =
    ground (arith, beq→eq tid k, beq→eq k tid, eq→beq tid k, eq→beq k tid)

module _ {F : Type 0} ⦃fl : Float F⦄ where
  purge_none :
      (current : List ℕ) (timestamp : F) (states : Dict ℕ (VehicleState F)) (tid : ℕ)
      → get tid states ≡ none
      → get tid (purge_stale current timestamp states) ≡ none
  unfolding purge_stale
  purge_none current timestamp [] tid h = refl
  purge_none current timestamp ((k, s) ∷ states) tid h = elim (Bool-cases (beq k tid)) [
    | inl same ↦ cc (rw same at h)
    | inr apart ↦
        let rest = purge_none current timestamp states tid (rw apart at h) in
        elim (Bool-cases (any (beq k) current)) [
          | inl here ↦ rw (here, apart) rest
          | inr lost ↦ elim (Bool-cases (is_stale timestamp s)) [
            | inl stale ↦ rw (lost, stale) rest
            | inr recent ↦ rw (lost, recent, apart) rest
          ]
        ]
  ]

  purge-IsDict :
      (current : List ℕ) (timestamp : F) (states : Dict ℕ (VehicleState F))
      → IsDict states
      → IsDict (purge_stale current timestamp states)
  unfolding purge_stale
  purge-IsDict current timestamp [] d = tt
  purge-IsDict current timestamp ((k, s) ∷ states) (alone, d) =
      let rest = purge-IsDict current timestamp states d in
      let once = purge_none current timestamp states k alone in
      elim (Bool-cases (any (beq k) current)) [
        | inl here ↦ rw here (once, rest)
        | inr lost ↦ elim (Bool-cases (is_stale timestamp s)) [
          | inl stale ↦ rw (lost, stale) rest
          | inr recent ↦ rw (lost, recent) (once, rest)
        ]
      ]

  summary-purge :
      (current : List ℕ) (timestamp : F) (states : Dict ℕ (VehicleState F)) (tid : ℕ)
      → IsDict states
      → summary (get tid (purge_stale current timestamp states)) ≡ (
          if any (beq tid) current
          then summary (get tid states)
          else forgotten timestamp (summary (get tid states)))
  unfolding purge_stale
  summary-purge current timestamp [] tid d = ground arith
  summary-purge current timestamp ((k, s) ∷ states) tid (alone, d) = elim (Bool-cases (beq k tid)) [
    | inr apart ↦
        let rest = summary-purge current timestamp states tid d in
        elim (Bool-cases (any (beq k) current)) [
          | inl here ↦ rw (here, apart) rest
          | inr lost ↦ elim (Bool-cases (is_stale timestamp s)) [
            | inl stale ↦ rw (lost, stale, apart) rest
            | inr recent ↦ rw (lost, recent, apart) rest
          ]
        ]
    | inl same ↦
        let now : any (beq tid) current ≡ any (beq k) current =
          ap (λ t. any (beq t) current) (sym (beq→eq k tid same)) in
        elim (Bool-cases (any (beq k) current)) [
          | inl here ↦ rw (now, here, same) refl
          | inr lost ↦ elim (Bool-cases (is_stale timestamp s)) [
            | inl stale ↦
                let gone =
                  purge_none current timestamp states tid
                    (ap (λ t. get t states) (sym (beq→eq k tid same)) ∙ alone) in
                let over : forgotten timestamp (summary (some s)) ≡ none = rw stale refl in
                rw (now, lost, stale, same) (ap summary gone ∙ sym over)
            | inr recent ↦
                let keeps : forgotten timestamp (summary (some s)) ≡ summary (some s) =
                  rw recent refl in
                rw (now, lost, recent, same) (sym keeps)
          ]
        ]
  ]

  current_ids-is_sighting :
      (tid : ℕ) (dets : List (Detection F))
      → any (beq tid) (current_ids dets) ≡ any (is_sighting tid) dets
  unfolding current_ids
  current_ids-is_sighting tid [] = refl
  current_ids-is_sighting tid (det ∷ dets) =
      any-append (beq tid) (observed_id det.observation_type det.track_id) (current_ids dets)
      ∙ ap (λ b. b || any (beq tid) (current_ids dets))
          (observed_ids tid det.observation_type det.track_id)
      ∙ ap (λ b. is_sighting tid det || b) (current_ids-is_sighting tid dets)

  summary-update_all :
      (distance : Centroid → Centroid → F) (frames : List (List (Detection F) × ℕ × F))
      (m : VehicleStateManager F) (tid : ℕ)
      → IsDict m.active_states
      → summary (get tid (update_all distance frames m).active_states)
        ≡ sightings tid frames (summary (get tid m.active_states))
  unfolding update_vehicles
  summary-update_all distance [] m tid d = refl
  summary-update_all distance ((dets, frame, timestamp) ∷ frames) m tid d =
      let m' = (update_tracks distance dets frame timestamp m).1 in
      let d' = update_tracks-IsDict distance dets frame timestamp m d in
      let kept = purge_stale (current_ids dets) timestamp m'.active_states in
      summary-update_all distance frames (record m' { active_states = kept }) tid
        (purge-IsDict (current_ids dets) timestamp m'.active_states d')
      ∙ ap (sightings tid frames) (
          summary-purge (current_ids dets) timestamp m'.active_states tid d'
          ∙ ap
              (λ b.
                if b
                then summary (get tid m'.active_states)
                else forgotten timestamp (summary (get tid m'.active_states)))
              (current_ids-is_sighting tid dets)
          ∙ ap (λ o. if any (is_sighting tid) dets then o else forgotten timestamp o)
              (summary-update_tracks distance tid dets frame timestamp m))

  -- After any frames, the manager tracks a vehicle exactly if the count that is made from the
  -- detections alone has it, with as many observations and the same last one, where projections count
  -- for nothing and a vehicle is forgotten after a frame without it, if it was last seen more than 1.8
  -- seconds before; and a vehicle that is tracked is confirmed exactly if it was observed twice or more
  -- often since then.
  pub update_all-sightings :
      (distance : Centroid → Centroid → F) (frames : List (List (Detection F) × ℕ × F)) (tid : ℕ)
      → (summary (get tid (update_all distance frames new_manager).active_states)
          ≡ sightings tid frames none)
        × ((s : VehicleState F)
            → get tid (update_all distance frames new_manager).active_states ≡ some s
            → (s.is_confirmed ≡ true) ↔ (2 ≤ s.consecutive_seen_frames))
  update_all-sightings distance frames tid = (
    summary-update_all distance frames new_manager tid tt,
    λ s g. IsSound.confirmation (update_all-IsSound distance frames tid s g),
  )
