-- ===== src/Vehicles/Counters.antt =====
-- The counters of one vehicle of ai/state/vehicle_state_manager.py.
use mathlib.Core.Path.{subst}
use smart_traffic_management.Common.{
  ap, All, Bool-cases, [], arith, inl, inr, leb, refl, some, sym, true, ℕ, ◌+◌, ◌<◌, ◌∙◌, ◌↔◌, ◌∷◌,
  ◌≡◌, ◌≤◌,
}
use smart_traffic_management.Common.Dict.{Dict, get, put, values}
use smart_traffic_management.Common.Equality.{beq, nat_eq}
use smart_traffic_management.Common.Float.{Float, fl_zero}
use smart_traffic_management.Signal.Types.{LaneId, lane_id_eq_inst}
use smart_traffic_management.Vehicles.{
  Centroid, Detection, VehicleState, confirmed, consecutive_queue_frames, in_lane, moved,
  observe_again, queued, refreshed, slowed,
}

module _ {F : Type 0} where
  -- A vehicle is confirmed exactly from its second observation on, it is queued only with ten frames
  -- of low motion, and these are fewer than the frames in which it was observed.
  pub record IsSound (s : VehicleState F) : Type 0 where
    pub seen : 0 < s.consecutive_seen_frames
    pub confirmation : (s.is_confirmed ≡ true) ↔ (2 ≤ s.consecutive_seen_frames)
    pub low_motion : s.consecutive_low_motion_frames < s.consecutive_seen_frames
    pub queueing : (s.is_queued ≡ true) ↔ (10 ≤ s.consecutive_low_motion_frames)

  abbrev pub AllSound : Dict ℕ (VehicleState F) → Type 0
  AllSound states = All (λ s. IsSound s) (values states)

  pub get-AllSound :
      (tid : ℕ) (s : VehicleState F) (states : Dict ℕ (VehicleState F))
      → AllSound states
      → get tid states ≡ some s
      → IsSound s
  get-AllSound tid s [] a g = cc
  get-AllSound tid s ((k, v) ∷ states) (here, rest) g = elim (Bool-cases (beq k tid)) [
    | inl same ↦
        let it : some v ≡ some s = rw same at g in
        let one : v ≡ s = cc in subst (λ t. IsSound t) one here
    | inr apart ↦ get-AllSound tid s states rest (rw apart at g)
  ]

  pub put-AllSound :
      (tid : ℕ) (s : VehicleState F) (states : Dict ℕ (VehicleState F))
      → IsSound s
      → AllSound states
      → AllSound (put tid s states)
  put-AllSound tid s [] h a = (h, tt)
  put-AllSound tid s ((k, v) ∷ states) h (here, rest) = elim (Bool-cases (beq k tid)) [
    | inl same ↦ rw same (h, rest)
    | inr apart ↦ rw apart (here, put-AllSound tid s states h rest)
  ]

module _ {F : Type 0} ⦃fl : Float F⦄ where
  -- The counters of an observation, from the low motion that is left after a change of the lane.
  low_in_lane :
      (lane : LaneId) (dt : F) (s : VehicleState F)
      → ((in_lane lane dt s).consecutive_low_motion_frames ≤ s.consecutive_low_motion_frames)
        × ((in_lane lane dt s).consecutive_seen_frames ≡ s.consecutive_seen_frames)
        × ((in_lane lane dt s).is_confirmed ≡ s.is_confirmed)
  unfolding in_lane
  low_in_lane lane dt s = elim (Bool-cases (beq s.lane lane)) [
    | inr apart ↦ rw apart (omega arith, refl, refl)
    | inl same ↦ elim (Bool-cases (fl.lt fl_zero dt)) [
      | inl later ↦ rw (same, later) (omega arith, refl, refl)
      | inr now ↦ rw (same, now) (omega arith, refl, refl)
    ]
  ]

  moved_same :
      (dist dt : F) (s : VehicleState F)
      → ((moved dist dt s).consecutive_low_motion_frames ≡ s.consecutive_low_motion_frames)
        × ((moved dist dt s).consecutive_seen_frames ≡ s.consecutive_seen_frames)
        × ((moved dist dt s).is_confirmed ≡ s.is_confirmed)
  moved_same dist dt s = elim (Bool-cases (fl.lt fl_zero dt)) [
    | inl later ↦ rw later (refl, refl, refl)
    | inr now ↦ rw now (refl, refl, refl)
  ]

  slowed_low :
      (s : VehicleState F)
      → (slowed s).consecutive_low_motion_frames ≤ s.consecutive_low_motion_frames + 1
  slowed_low s = elim (Bool-cases (fl.lt s.motion_px_sec (fl.lit 1500))) [
    | inl slow ↦ rw slow (omega arith)
    | inr fast ↦ rw fast (omega arith)
  ]

  queued_same :
      (dt : F) (s : VehicleState F)
      → ((queued dt s).consecutive_low_motion_frames ≡ s.consecutive_low_motion_frames)
        × ((queued dt s).consecutive_seen_frames ≡ s.consecutive_seen_frames)
        × ((queued dt s).is_confirmed ≡ s.is_confirmed)
        × (((queued dt s).is_queued ≡ true) ↔ (10 ≤ s.consecutive_low_motion_frames))
  queued_same dt s =
      elim (Bool-cases (leb consecutive_queue_frames s.consecutive_low_motion_frames)) [
        | inl long ↦ rw long (refl, refl, refl, ground arith)
        | inr short ↦ rw short (refl, refl, refl, ground arith)
      ]

  confirmed-IsSound :
      (s : VehicleState F)
      → 0 < s.consecutive_seen_frames
      → s.consecutive_low_motion_frames ≤ s.consecutive_seen_frames
      → ((s.is_queued ≡ true) ↔ (10 ≤ s.consecutive_low_motion_frames))
      → (centroid : Centroid) (frame : ℕ) (timestamp : F)
      → IsSound (refreshed centroid frame timestamp (confirmed s))
  confirmed-IsSound s h low q centroid frame timestamp = record {
    seen = omega arith;
    confirmation = ground arith;
    low_motion = omega (arith, low);
    queueing = q;
  }

  pub observe_again-IsSound :
      (distance : Centroid → Centroid → F) (lane : LaneId) (det : Detection F) (frame : ℕ)
      (timestamp : F) (s : VehicleState F)
      → IsSound s
      → IsSound (observe_again distance lane det frame timestamp s)
  unfolding observe_again
  observe_again-IsSound distance lane det frame timestamp s sound =
      let dt = fl.sub timestamp s.last_seen_timestamp in
      let a = in_lane lane dt s in
      let b = moved (distance det.centroid s.last_centroid) dt a in
      let (low, seen, _) = low_in_lane lane dt s in
      let (low', seen', _) = moved_same (distance det.centroid s.last_centroid) dt a in
      let low'' = slowed_low b in
      let (low''', seen''', _, q) = queued_same dt (slowed b) in
      let c = queued dt (slowed b) in
      confirmed-IsSound c (omega (arith, seen, seen', seen''', sound.seen))
        (omega (arith, low, low', low'', low''', seen, seen', seen''', sound.low_motion))
        (subst (λ n. (c.is_queued ≡ true) ↔ (10 ≤ n)) (sym low''') q) det.centroid frame timestamp

  pub seen-observe_again :
      (distance : Centroid → Centroid → F) (lane : LaneId) (det : Detection F) (frame : ℕ)
      (timestamp : F) (s : VehicleState F)
      → (observe_again distance lane det frame timestamp s).consecutive_seen_frames
        ≡ s.consecutive_seen_frames + 1
  unfolding observe_again
  seen-observe_again distance lane det frame timestamp s =
      let dt = fl.sub timestamp s.last_seen_timestamp in
      let a = in_lane lane dt s in
      let b = moved (distance det.centroid s.last_centroid) dt a in
      let (_, seen, _) = low_in_lane lane dt s in
      let (_, seen', _) = moved_same (distance det.centroid s.last_centroid) dt a in
      let (_, seen'', _, _) = queued_same dt (slowed b) in ap (λ n. n + 1) (seen'' ∙ seen' ∙ seen)
