-- ===== src/Vehicles/Observed.antt =====
-- Which vehicles ai/state/vehicle_state_manager.py keeps after a frame: those observed in it, alive,
-- and those lost for a short time, not alive.
use mathlib.Core.List.{Memᴰ}
use mathlib.Core.Path.{subst}
use smart_traffic_management.Common.{
  Bool, Bool-cases, List, Option, [], any, any-append, ap, false, inl, inr, none, refl, some, sym,
  true, ℕ, ◌||◌, ◌∷◌, ◌≡◌, ◌⊎◌,
}
use smart_traffic_management.Common.Dict.{Dict, get}
use smart_traffic_management.Common.Equality.{beq, beq→eq, nat_eq}
use smart_traffic_management.Common.Float.{Float}
use smart_traffic_management.Vehicles.{
  Centroid, Detection, ObservationState, VehicleState, VehicleStateManager, observed, predicted,
}
use smart_traffic_management.Vehicles.Update.{
  current_ids, is_stale, observed_id, purge_stale, update_tracks, update_vehicles,
}

or_right : (a b : Bool) → (a || b) ≡ false → b ≡ false
or_right true b h = cc
or_right false b h = h

observed_id_parts :
    (kind : ObservationState) (o : Option ℕ) (tid : ℕ)
    → any (beq tid) (observed_id kind o) ≡ true
    → (kind ≡ observed) × (o ≡ some tid)
observed_id_parts kind none tid h = cc
observed_id_parts predicted (some k) tid h = cc
observed_id_parts observed (some k) tid h = elim (Bool-cases (beq tid k)) [
  | inl same ↦ (refl, ap (λ n. some n) (sym (beq→eq tid k same)))
  | inr apart ↦ cc (rw apart at h)
]

module _ {F : Type 0} ⦃fl : Float F⦄ where
  -- A vehicle observed in the frame, or one that is not alive and within the time of grace.
  abbrev pub IsKnown : List ℕ → F → ℕ → VehicleState F → Type 0
  IsKnown current timestamp tid s =
      (any (beq tid) current ≡ true)
      ⊎ ((s.is_alive ≡ false)
          × (fl.lt (fl.lit 180) (fl.sub timestamp s.last_seen_timestamp) ≡ false))

  purge_stale-IsKnown :
      (current : List ℕ) (timestamp : F) (states : Dict ℕ (VehicleState F)) (tid : ℕ)
      (s : VehicleState F)
      → get tid (purge_stale current timestamp states) ≡ some s
      → IsKnown current timestamp tid s
  unfolding purge_stale
  purge_stale-IsKnown current timestamp [] tid s g = cc
  purge_stale-IsKnown current timestamp ((k, v) ∷ states) tid s g =
      let there = purge_stale-IsKnown current timestamp states tid s in
      elim (Bool-cases (any (beq k) current)) [
        | inl present ↦
            kept k v present (purge_stale current timestamp states) there (rw present at g)
        | inr absent ↦ elim (Bool-cases (is_stale timestamp v)) [
          | inl stale ↦ there (rw (absent, stale) at g)
          | inr recent ↦
              lost k v recent (purge_stale current timestamp states) there
                (rw (absent, recent) at g)
        ]
      ]
    where
      kept :
          (k : ℕ) (v : VehicleState F)
          → any (beq k) current ≡ true
          → (rest : Dict ℕ (VehicleState F))
          → (get tid rest ≡ some s → IsKnown current timestamp tid s)
          → get tid ((k, v) ∷ rest) ≡ some s
          → IsKnown current timestamp tid s
      kept k v present rest there h = elim (Bool-cases (beq k tid)) [
        | inl same ↦ inl (subst (λ t. any (beq t) current ≡ true) (beq→eq k tid same) present)
        | inr apart ↦ there (rw apart at h)
      ]

      lost :
          (k : ℕ) (v : VehicleState F)
          → is_stale timestamp v ≡ false
          → (rest : Dict ℕ (VehicleState F))
          → (get tid rest ≡ some s → IsKnown current timestamp tid s)
          → get tid ((k, record v { is_alive = false }) ∷ rest) ≡ some s
          → IsKnown current timestamp tid s
      lost k v recent rest there h = elim (Bool-cases (beq k tid)) [
        | inr apart ↦ there (rw apart at h)
        | inl same ↦
            let it : some (record v { is_alive = false }) ≡ some s = rw same at h in
            let one : record v { is_alive = false } ≡ s = cc in
            inr (
              subst
                (λ t.
                  (VehicleState.is_alive t ≡ false)
                  × (fl.lt (fl.lit 180) (fl.sub timestamp (VehicleState.last_seen_timestamp t))
                      ≡ false))
                one (refl, or_right _ _ recent))
      ]

  -- A detection of the frame observes the vehicle.
  abbrev pub IsObserved : List (Detection F) → ℕ → Type 0
  IsObserved dets tid =
      (det : Detection F) × Memᴰ det dets
      × (det.observation_type ≡ observed)
      × (det.track_id ≡ some tid)

  current_ids-IsObserved :
      (dets : List (Detection F)) (tid : ℕ)
      → any (beq tid) (current_ids dets) ≡ true
      → IsObserved dets tid
  unfolding current_ids
  current_ids-IsObserved [] tid h = cc
  current_ids-IsObserved (det ∷ dets) tid h =
      elim (Bool-cases (any (beq tid) (observed_id det.observation_type det.track_id))) [
        | inl here ↦
            let (kind, track) = observed_id_parts det.observation_type det.track_id tid here in
            (det, Memᴰ.head refl, kind, track)
        | inr away ↦
            let (d, m, kind, track) = current_ids-IsObserved dets tid (
              rw
                (
                  any-append (beq tid) (observed_id det.observation_type det.track_id)
                      (current_ids dets),
                  away,
                )
                at h) in
            (d, Memᴰ.tail m, kind, track)
      ]

  -- After a frame, a vehicle that is tracked has a detection in the frame that observes it, and does
  -- not only project it, or else it is not alive and was last seen no longer than 1.8 seconds ago.
  pub update_vehicles-IsKnown :
      (distance : Centroid → Centroid → F) (dets : List (Detection F)) (frame : ℕ) (timestamp : F)
      (m : VehicleStateManager F) (tid : ℕ) (s : VehicleState F)
      → get tid (update_vehicles distance dets frame timestamp m).1.active_states ≡ some s
      → IsObserved dets tid
        ⊎ ((s.is_alive ≡ false)
            × (fl.lt (fl.lit 180) (fl.sub timestamp s.last_seen_timestamp) ≡ false))
  unfolding update_vehicles
  update_vehicles-IsKnown distance dets frame timestamp m tid s g =
      elim (purge_stale-IsKnown (current_ids dets) timestamp
        (update_tracks distance dets frame timestamp m).1.active_states tid s g) [
          | inl current ↦ inl (current_ids-IsObserved dets tid current)
          | inr lost ↦ inr lost
        ]
