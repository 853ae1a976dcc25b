-- ===== src/Intersection/Phases.antt =====
-- What the signals of ai/pipeline/digital_intersection.py show, and how that may change from one
-- event to the next.
use mathlib.Core.Path.{subst}
use smart_traffic_management.Common.{
  ℕ, ◌≡◌, refl, inl, inr, Bool, true, false, ◌&&◌, Option, none, some, List, [], ◌∷◌, arith,
  Bool-cases, leb, if◌then◌else◌,
}
use smart_traffic_management.Common.Dict.{Dict, contains}
use smart_traffic_management.Common.Float.{Float}
use smart_traffic_management.Signal.Types.{
  LaneId, PriorityScore, PriorityResult, SignalDecision, lane_id_eq_inst,
}
use smart_traffic_management.Signal.Priority.{calculate}
use smart_traffic_management.Signal.Scheduler.{Scheduler, Outcome, value_error, returned, schedule}
use smart_traffic_management.Intersection.{
  Intersection, PhaseState, green, yellow, all_red, CameraStatus, Demand, hold, trigger_ai_stall,
  trigger_camera_dropout, count_service, start_green, grant_winner, next_green, select_lane,
  progress, scored, must_hold, step_simulation, update_stats, is_active, is_green,
}

-- What drivers see: no lane lit, or one lane green or yellow.
pub data View : Type 0 where
  dark : View
  shows_green shows_yellow : LaneId → View

abbrev pub view_of : PhaseState → Option LaneId → View
view_of green (some lane) = shows_green lane
view_of yellow (some lane) = shows_yellow lane
view_of _ _ = dark

abbrev pub view : {F : Type 0} → Intersection F → View
view st = view_of st.phase_state st.active_lane

-- The lane that a view lights.
abbrev pub lit_lane : View → Option LaneId
lit_lane dark = none
lit_lane (shows_green lane) = some lane
lit_lane (shows_yellow lane) = some lane

-- One change of the signals. Green follows only on all-red, and yellow only on the same lane's green.
pub data Follows : View → View → Type 0 where
  stays : (v : View) → Follows v v
  clears : (lane : LaneId) → Follows (shows_green lane) (shows_yellow lane)
  starts : (lane : LaneId) → Follows dark (shows_green lane)
  darkens : (v : View) → Follows v dark

-- An operation on the simulated intersection.
pub data Event (F : Type 0) : Type 0 where
  step : ℕ → Dict LaneId (Demand F) → F → Event F
  dropout : LaneId → CameraStatus → Event F
  stall : Bool → Event F

Follows-eq : {v w x : View} → w ≡ x → Follows v w → Follows v x
Follows-eq {v} e f = subst (λ y. Follows v y) e f

module _ {F : Type 0} where
  view-count_service :
      (winner : LaneId) (st : Intersection F) → view (count_service winner st) ≡ view st
  unfolding count_service
  view-count_service winner st = ground arith

  view-hold : (st : Intersection F) → view (hold st) ≡ dark
  unfolding hold
  view-hold st = refl

  -- Whether a dropout ends the green phase.
  abbrev ends_green : LaneId → Intersection F → Bool
  ends_green lane st =
      contains lane st.camera_status && (is_active lane st && is_green st.phase_state)

  view-dropout :
      (lane : LaneId) (status : CameraStatus) (st : Intersection F)
      → view (trigger_camera_dropout lane status st)
        ≡ (if ends_green lane st then view_of yellow st.active_lane else view st)
  unfolding trigger_camera_dropout
  view-dropout lane status st = ground arith

  dropout-Follows :
      (lane : LaneId) (status : CameraStatus) (st : Intersection F)
      → Follows (view st) (view (trigger_camera_dropout lane status st))
  dropout-Follows lane status st = elim (Bool-cases (ends_green lane st)) [
    | inl ends ↦
        rw (view-dropout lane status st, ends) (go st.phase_state st.active_lane (ground arith))
    | inr not_now ↦ rw (view-dropout lane status st, not_now) (stays (view st))
  ]
    where
      go :
          (phase : PhaseState) (active : Option LaneId)
          → is_green phase ≡ true
          → Follows (view_of phase active) (view_of yellow active)
      go green (some l) h = clears l
      go green none h = stays dark
      go yellow active h = cc
      go all_red active h = cc

  stall-Follows :
      (stalled : Bool) (st : Intersection F)
      → Follows (view st) (view (trigger_ai_stall stalled st))
  unfolding trigger_ai_stall hold
  stall-Follows true st = darkens (view st)
  stall-Follows false st = stays (view st)

module _ {F : Type 0} ⦃fl : Float F⦄ where
  start_green-Follows :
      (winner : LaneId) (o : Outcome (SignalDecision F)) (st : Intersection F)
      → view st ≡ dark
      → Follows dark (view (start_green winner o st))
  start_green-Follows winner value_error st h = rw h (stays dark)
  start_green-Follows winner (returned d) st h = rw view-count_service (starts winner)

  next_green-Follows :
      (s : Scheduler) (o : Option (PriorityResult F)) (now : F) (st : Intersection F)
      → view st ≡ dark
      → Follows dark (view (next_green (s, o) now st))
  unfolding next_green hold
  next_green-Follows s none now st h = stays dark
  next_green-Follows s (some r) now st h = go r.highest_priority
    where
      go :
          (w : Option (PriorityScore F))
          → Follows dark
              (view (grant_winner w (schedule s (some r) 1 now) (record st { sim_scheduler = s })))
      go none = stays dark
      go (some w) =
          start_green-Follows w.lane (schedule s (some r) 1 now) (record st { sim_scheduler = s }) h

  progress-Follows :
      (phase : PhaseState) (dt : ℕ) (result : PriorityResult F) (now : F) (st : Intersection F)
      → phase ≡ st.phase_state
      → Follows (view_of phase st.active_lane) (view (progress phase dt result now st))
  unfolding progress
  progress-Follows green dt result now st e = elim (Bool-cases (leb st.remaining dt)) [
    | inl h ↦ rw h (lights st.active_lane)
    | inr h ↦ rw (h, ← e) (stays (view_of green st.active_lane))
  ]
    where
      lights : (o : Option LaneId) → Follows (view_of green o) (view_of yellow o)
      lights none = stays dark
      lights (some lane) = clears lane
  progress-Follows yellow dt result now st e = elim (Bool-cases (leb st.remaining dt)) [
    | inl h ↦ rw h (darkens (view_of yellow st.active_lane))
    | inr h ↦ rw (h, ← e) (stays (view_of yellow st.active_lane))
  ]
  progress-Follows all_red dt result now st e = elim (Bool-cases (leb st.remaining dt)) [
    | inl h ↦
        let (s, o) = select_lane result st in
        rw h (next_green-Follows s o now (record st { remaining = 0 }) (rw (← e) refl))
    | inr h ↦ rw (h, ← e) (stays dark)
  ]

  step-Follows :
      (dt : ℕ) (demands : Dict LaneId (Demand F)) (now : F) (st : Intersection F)
      → Follows (view st) (view (step_simulation dt demands now st))
  unfolding step_simulation
  step-Follows dt demands now st =
      let st' = record st { stats = update_stats demands st.stats } in
      let result = calculate st'.weights st'.stats now in
      elim (Bool-cases (must_hold st')) [
        | inl h ↦ rw h (rw (view-hold st') (darkens (view st)))
        | inr h ↦ rw h (progress-Follows st.phase_state dt result now (scored result st') refl)
      ]

  unfoldable pub apply_event : Event F → Intersection F → Intersection F
  apply_event (step dt demands now) st = step_simulation dt demands now st
  apply_event (dropout lane status) st = trigger_camera_dropout lane status st
  apply_event (stall stalled) st = trigger_ai_stall stalled st

  abbrev pub run : List (Event F) → Intersection F → Intersection F
  run [] st = st
  run (e ∷ events) st = run events (apply_event e st)

  -- Every operation changes the signals only as `Follows` allows: a lane turns green only when none
  -- is lit, yellow only from its own green, and otherwise the signals stay or all turn red.
  pub apply_event-Follows :
      (e : Event F) (st : Intersection F) → Follows (view st) (view (apply_event e st))
  unfolding apply_event
  apply_event-Follows (step dt demands now) st = step-Follows dt demands now st
  apply_event-Follows (dropout lane status) st = dropout-Follows lane status st
  apply_event-Follows (stall stalled) st = stall-Follows stalled st
