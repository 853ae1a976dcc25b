-- ===== src/Intersection/Invariant.antt =====
-- The invariant of the simulated intersection of ai/pipeline/digital_intersection.py.
use smart_traffic_management.Common.{
  ◌<◌, ◌≡◌, ◌≢◌, Bool, true, false, List, [], ◌∷◌, ◌++◌, arith, Bool-cases, inl, inr, is_some, any,
  leb, ◌==◌, length, length-append, All,
}
use smart_traffic_management.Common.Equality.{beq, eq→beq}
use smart_traffic_management.Signal.Types.{LaneId, lane_id_eq_inst}
use smart_traffic_management.Intersection.{
  Intersection, PhaseState, all_red, CameraStatus, hold, trigger_ai_stall, trigger_camera_dropout,
  count_service,
}

-- No element occurs twice.
abbrev pub Distinct : List LaneId → Type 0
Distinct [] = Unit
Distinct (x ∷ xs) = All (λ y. y ≢ x) xs × Distinct xs

-- Whether the phase lights a lane.
abbrev pub needs_lane : PhaseState → Bool
needs_lane all_red = false
needs_lane _ = true

pub record IsValid {F : Type 0} (st : Intersection F) : Type 0 where
  pub lane_known : needs_lane st.phase_state ≡ true → is_some st.active_lane ≡ true
  pub served_few : length st.lanes_served < 4
  pub served_once : Distinct st.lanes_served
  pub cursor : st.sim_scheduler.next_cycle_index < 4

Distinct-snoc :
    (xs : List LaneId) (w : LaneId) → any (beq w) xs ≡ false → Distinct xs → Distinct (xs ++ w ∷ [])
Distinct-snoc [] w h d = (tt, tt)
Distinct-snoc (x ∷ xs) w h (a, d) = (go xs a, Distinct-snoc xs w (ground arith) d)
  where
    apart : w ≢ x
    apart e = ground (arith, eq→beq w x e, h)

    go : (ys : List LaneId) → All (λ y. y ≢ x) ys → All (λ y. y ≢ x) (ys ++ w ∷ [])
    go [] b = (apart, tt)
    go (y ∷ ys) (b, rest) = (b, go ys rest)

module _ {F : Type 0} where
  pub hold-IsValid : (st : Intersection F) → IsValid st → IsValid (hold st)
  unfolding hold
  hold-IsValid st v = record {
    lane_known = λ h. cc;
    served_few = v.served_few;
    served_once = v.served_once;
    cursor = v.cursor;
  }

  pub count_service-IsValid :
      (winner : LaneId) (st : Intersection F) → IsValid st → IsValid (count_service winner st)
  unfolding count_service
  count_service-IsValid winner st v = elim (Bool-cases (any (beq winner) st.lanes_served)) [
    | inl e ↦ rw e (record {
      lane_known = v.lane_known;
      served_few = omega arith;
      served_once = (tt, tt);
      cursor = v.cursor;
    })
    | inr e ↦
        let size : leb 4 (length st.lanes_served) ≡ false = ground (arith, v.served_few) in
        let grown = length-append st.lanes_served (winner ∷ []) in
        elim (Bool-cases (length (st.lanes_served ++ winner ∷ []) == 4)) [
          | inl four ↦
              rw (e, size, four)
                (record {
                  lane_known = v.lane_known;
                  served_few = omega arith;
                  served_once = tt;
                  cursor = v.cursor;
                })
          | inr less ↦
              rw (e, size, less)
                (record {
                  lane_known = v.lane_known;
                  served_few = ground (arith, grown, v.served_few);
                  served_once = Distinct-snoc st.lanes_served winner e v.served_once;
                  cursor = v.cursor;
                })
        ]
  ]

  served-dropout :
      (lane : LaneId) (status : CameraStatus) (st : Intersection F)
      → (trigger_camera_dropout lane status st).lanes_served ≡ st.lanes_served
  unfolding trigger_camera_dropout
  served-dropout lane status st = ground arith

  -- A dropout and a stall keep the invariant.
  pub trigger_camera_dropout-IsValid :
      (lane : LaneId) (status : CameraStatus) (st : Intersection F)
      → IsValid st
      → IsValid (trigger_camera_dropout lane status st)
  unfolding trigger_camera_dropout
  trigger_camera_dropout-IsValid lane status st v = record {
    lane_known = ground (arith, v.lane_known);
    served_few = ground (arith, v.served_few);
    served_once = rw (served-dropout lane status st) v.served_once;
    cursor = ground (arith, v.cursor);
  }

  pub trigger_ai_stall-IsValid :
      (stalled : Bool) (st : Intersection F) → IsValid st → IsValid (trigger_ai_stall stalled st)
  unfolding trigger_ai_stall
  trigger_ai_stall-IsValid true st v = record {
    lane_known = λ h. cc;
    served_few = v.served_few;
    served_once = v.served_once;
    cursor = v.cursor;
  }
  trigger_ai_stall-IsValid false st v = record {
    lane_known = v.lane_known;
    served_few = v.served_few;
    served_once = v.served_once;
    cursor = v.cursor;
  }
