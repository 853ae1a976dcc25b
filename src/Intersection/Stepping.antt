-- ===== src/Intersection/Stepping.antt =====
-- A step of ai/pipeline/digital_intersection.py keeps what holds of a state.
use smart_traffic_management.Common.{
  ℕ, ◌*◌, ◌<◌, ◌≡◌, refl, true, Option, none, some, Bool-cases, inl, inr, is_some, leb,
}
use smart_traffic_management.Common.Dict.{Dict}
use smart_traffic_management.Common.Float.{Float}
use smart_traffic_management.Signal.Types.{LaneId, PriorityScore, PriorityResult, SignalDecision}
use smart_traffic_management.Signal.Scheduler.{Scheduler, Outcome, value_error, returned, schedule}
use smart_traffic_management.Signal.Scheduler.Selection.{select_eligible-cursor}
use smart_traffic_management.Signal.Priority.{calculate}
use smart_traffic_management.Intersection.{
  Intersection, PhaseState, green, yellow, all_red, Demand, start_green, grant_winner, next_green,
  select_lane, progress, scored, must_hold, step_simulation, active_fresh, update_stats,
}
use smart_traffic_management.Intersection.Invariant.{
  IsValid, needs_lane, hold-IsValid, count_service-IsValid,
}

module _ {F : Type 0} ⦃fl : Float F⦄ where
  start_green-IsValid :
      (winner : LaneId) (o : Outcome (SignalDecision F)) (st : Intersection F)
      → IsValid st
      → IsValid (start_green winner o st)
  start_green-IsValid winner value_error st v = v
  start_green-IsValid winner (returned d) st v =
      count_service-IsValid winner
        (record st {
          active_lane = some winner;
          phase_state = green;
          remaining = d.green_duration_sec * 1000;
        })
        (record {
          lane_known = λ h. refl;
          served_few = v.served_few;
          served_once = v.served_once;
          cursor = v.cursor;
        })

  grant_winner-IsValid :
      (w : Option (PriorityScore F)) (o : Outcome (SignalDecision F)) (st : Intersection F)
      → IsValid st
      → IsValid (grant_winner w o st)
  grant_winner-IsValid none o st v = hold-IsValid st v
  grant_winner-IsValid (some w) o st v = start_green-IsValid w.lane o st v

  moved-IsValid :
      (s : Scheduler) (st : Intersection F)
      → s.next_cycle_index < 4
      → IsValid st
      → IsValid (record st { sim_scheduler = s })
  moved-IsValid s st h v = record {
    lane_known = v.lane_known;
    served_few = v.served_few;
    served_once = v.served_once;
    cursor = h;
  }

  next_green-IsValid :
      (s : Scheduler) (o : Option (PriorityResult F)) (now : F) (st : Intersection F)
      → s.next_cycle_index < 4
      → IsValid st
      → IsValid (next_green (s, o) now st)
  unfolding next_green
  next_green-IsValid s none now st h v =
      hold-IsValid (record st { sim_scheduler = s }) (moved-IsValid s st h v)
  next_green-IsValid s (some r) now st h v =
      grant_winner-IsValid r.highest_priority (schedule s (some r) 1 now)
        (record st { sim_scheduler = s }) (moved-IsValid s st h v)

  progress-IsValid :
      (phase : PhaseState) (dt : ℕ) (result : PriorityResult F) (now : F) (st : Intersection F)
      → (needs_lane phase ≡ true → is_some st.active_lane ≡ true)
      → phase ≡ st.phase_state
      → IsValid st
      → IsValid (progress phase dt result now st)
  unfolding progress
  progress-IsValid green dt result now st k e v = elim (Bool-cases (leb st.remaining dt)) [
    | inl h ↦ rw h (record {
      lane_known = λ _. k refl;
      served_few = v.served_few;
      served_once = v.served_once;
      cursor = v.cursor;
    })
    | inr h ↦ rw h (record {
      lane_known = λ _. k refl;
      served_few = v.served_few;
      served_once = v.served_once;
      cursor = v.cursor;
    })
  ]
  progress-IsValid yellow dt result now st k e v = elim (Bool-cases (leb st.remaining dt)) [
    | inl h ↦ rw h (record {
      lane_known = λ x. cc;
      served_few = v.served_few;
      served_once = v.served_once;
      cursor = v.cursor;
    })
    | inr h ↦ rw h (record {
      lane_known = λ _. k refl;
      served_few = v.served_few;
      served_once = v.served_once;
      cursor = v.cursor;
    })
  ]
  progress-IsValid all_red dt result now st k e v = elim (Bool-cases (leb st.remaining dt)) [
    | inl h ↦
        let (s, o) = select_lane result st in
        rw h (
          next_green-IsValid s o now (record st { remaining = 0 })
            (select_eligible-cursor st.sim_scheduler result st.stats (active_fresh st.camera_status)
              v.cursor)
            (record {
              lane_known = v.lane_known;
              served_few = v.served_few;
              served_once = v.served_once;
              cursor = v.cursor;
            }))
    | inr h ↦ rw h (record {
      lane_known = v.lane_known;
      served_few = v.served_few;
      served_once = v.served_once;
      cursor = v.cursor;
    })
  ]

  -- A simulation step keeps the invariant: a lit phase has its lane, at most three different lanes
  -- are recorded as served in the open cycle, and the cursor stays within the cycle.
  pub step_simulation-IsValid :
      (dt : ℕ) (demands : Dict LaneId (Demand F)) (now : F) (st : Intersection F)
      → IsValid st
      → IsValid (step_simulation dt demands now st)
  unfolding step_simulation
  step_simulation-IsValid dt demands now st v =
      let st' = record st { stats = update_stats demands st.stats } in
      let v' : IsValid st' = record {
        lane_known = v.lane_known;
        served_few = v.served_few;
        served_once = v.served_once;
        cursor = v.cursor;
      } in
      let result = calculate st'.weights st'.stats now in
      elim (Bool-cases (must_hold st')) [
        | inl h ↦ rw h (hold-IsValid st' v')
        | inr h ↦ rw h (
            progress-IsValid st.phase_state dt result now (scored result st') v.lane_known refl
              (record {
                lane_known = v.lane_known;
                served_few = v.served_few;
                served_once = v.served_once;
                cursor = v.cursor;
              }))
      ]
