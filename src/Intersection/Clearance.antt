-- ===== src/Intersection/Clearance.antt =====
-- The clearance times of ai/pipeline/digital_intersection.py.
use smart_traffic_management.Common.{
  ℕ, ◌+◌, ◌*◌, ◌≤◌, ◌≡◌, ◌∙◌, refl, false, Option, none, some, List, [], ◌∷◌, arith, Bool-cases,
  inl, inr, leb,
}
use smart_traffic_management.Common.Dict.{Dict}
use smart_traffic_management.Common.Float.{Float}
use smart_traffic_management.Signal.Types.{LaneId, PriorityScore, PriorityResult, SignalDecision}
use smart_traffic_management.Signal.Priority.{calculate}
use smart_traffic_management.Signal.Scheduler.{Scheduler, Outcome, value_error, returned, schedule}
use smart_traffic_management.Intersection.{
  Intersection, PhaseState, green, yellow, all_red, Demand, hold, count_service, start_green,
  grant_winner, next_green, select_lane, progress, scored, must_hold, step_simulation, update_stats,
}

-- One step of a run: the time that passes, the demands, and the clock.
pub record Tick (F : Type 0) : Type 0 where
  pub dt : ℕ
  pub demands : Dict LaneId (Demand F)
  pub now : F

abbrev pub total_time : {F : Type 0} → List (Tick F) → ℕ
total_time [] = 0
total_time (t ∷ ticks) = t.dt + total_time ticks

-- The time that has to pass before a lane may turn green.
abbrev pub clearance_of : PhaseState → ℕ → ℕ → ℕ
clearance_of green remaining all_red_ms = 0
clearance_of yellow remaining all_red_ms = remaining + all_red_ms
clearance_of all_red remaining all_red_ms = remaining

abbrev pub clearance : {F : Type 0} → Intersection F → ℕ
clearance st = clearance_of st.phase_state st.remaining (st.all_red_sec * 1000)

-- What a step leaves as it is.
record Keeps {F : Type 0} (st st' : Intersection F) : Type 0 where
  all_red_kept : st'.all_red_sec ≡ st.all_red_sec
  holding_kept : must_hold st' ≡ must_hold st

module _ {F : Type 0} where
  count_service-Keeps : (winner : LaneId) (st : Intersection F) → Keeps st (count_service winner st)
  unfolding count_service
  count_service-Keeps winner st = record {
    all_red_kept = ground arith;
    holding_kept = ground arith;
  }

  phase-count_service :
      (winner : LaneId) (st : Intersection F)
      → (count_service winner st).phase_state ≡ st.phase_state
  unfolding count_service
  phase-count_service winner st = ground arith

  same : (st : Intersection F) → Keeps st st
  same st = record { all_red_kept = refl; holding_kept = refl }

  hold-Keeps : (st : Intersection F) → Keeps st (hold st)
  unfolding hold
  hold-Keeps st = record { all_red_kept = refl; holding_kept = refl }

module _ {F : Type 0} ⦃fl : Float F⦄ where
  start_green-Keeps :
      (winner : LaneId) (o : Outcome (SignalDecision F)) (st : Intersection F)
      → Keeps st (start_green winner o st)
  start_green-Keeps winner value_error st = same st
  start_green-Keeps winner (returned d) st =
      let k = count_service-Keeps winner (record st {
        active_lane = some winner;
        phase_state = green;
        remaining = d.green_duration_sec * 1000;
      }) in
      record { all_red_kept = k.all_red_kept; holding_kept = k.holding_kept }

  next_green-Keeps :
      (s : Scheduler) (o : Option (PriorityResult F)) (now : F) (st : Intersection F)
      → Keeps st (next_green (s, o) now st)
  unfolding next_green hold
  next_green-Keeps s none now st = record { all_red_kept = refl; holding_kept = refl }
  next_green-Keeps s (some r) now st = go r.highest_priority
    where
      go :
          (w : Option (PriorityScore F))
          → Keeps st (grant_winner w (schedule s (some r) 1 now) (record st { sim_scheduler = s }))
      go none = record { all_red_kept = refl; holding_kept = refl }
      go (some w) =
          let k =
            start_green-Keeps w.lane (schedule s (some r) 1 now)
              (record st { sim_scheduler = s }) in
          record { all_red_kept = k.all_red_kept; holding_kept = k.holding_kept }

  -- After a step of `dt`, at most `dt` less of the clearance is left.
  progress-Keeps :
      (phase : PhaseState) (dt : ℕ) (result : PriorityResult F) (now : F) (st : Intersection F)
      → phase ≡ st.phase_state
      → Keeps st (progress phase dt result now st)
        × (clearance_of phase st.remaining (st.all_red_sec * 1000)
            ≤ clearance (progress phase dt result now st) + dt)
  unfolding progress
  progress-Keeps green dt result now st e = elim (Bool-cases (leb st.remaining dt)) [
    | inl h ↦ rw h (record { all_red_kept = refl; holding_kept = refl }, omega arith)
    | inr h ↦ rw h (record { all_red_kept = refl; holding_kept = refl }, omega arith)
  ]
  progress-Keeps yellow dt result now st e = elim (Bool-cases (leb st.remaining dt)) [
    | inl h ↦ rw h (record { all_red_kept = refl; holding_kept = refl }, ground arith)
    | inr h ↦ rw (h, ← e) (record { all_red_kept = refl; holding_kept = refl }, omega arith)
  ]
  progress-Keeps all_red dt result now st e = elim (Bool-cases (leb st.remaining dt)) [
    | inl h ↦
        let (s, o) = select_lane result st in
        let k = next_green-Keeps s o now (record st { remaining = 0 }) in
        rw h (record { all_red_kept = k.all_red_kept; holding_kept = k.holding_kept }, ground arith)
    | inr h ↦ rw (h, ← e) (record { all_red_kept = refl; holding_kept = refl }, omega arith)
  ]

  abbrev pub run_ticks : List (Tick F) → Intersection F → Intersection F
  run_ticks [] st = st
  run_ticks (t ∷ ticks) st = run_ticks ticks (step_simulation t.dt t.demands t.now st)

  step-clearance :
      (t : Tick F) (st : Intersection F)
      → must_hold st ≡ false
      → Keeps st (step_simulation t.dt t.demands t.now st)
        × (clearance st ≤ clearance (step_simulation t.dt t.demands t.now st) + t.dt)
  unfolding step_simulation
  step-clearance t st h =
      let st' = record st { stats = update_stats t.demands st.stats } in
      let result = calculate st'.weights st'.stats t.now in
      let (k, c) = progress-Keeps st.phase_state t.dt result t.now (scored result st') refl in
      rw h (record { all_red_kept = k.all_red_kept; holding_kept = k.holding_kept }, c)

  clearance_runs_down :
      (ticks : List (Tick F)) (st : Intersection F)
      → must_hold st ≡ false
      → clearance st ≤ clearance (run_ticks ticks st) + total_time ticks
  clearance_runs_down [] st h = omega arith
  clearance_runs_down (t ∷ ticks) st h =
      let (k, c) = step-clearance t st h in
      omega (
        arith,
        c,
        clearance_runs_down ticks (step_simulation t.dt t.demands t.now st) (k.holding_kept ∙ h),
      )

  -- While perception runs and a camera is there, the next green light comes no sooner after the
  -- start of a yellow phase than the yellow and the all-red time together.
  pub clearance_before_green :
      (ticks : List (Tick F)) (st : Intersection F)
      → must_hold st ≡ false
      → st.phase_state ≡ yellow
      → st.remaining ≡ st.yellow_sec * 1000
      → (run_ticks ticks st).phase_state ≡ green
      → (st.yellow_sec + st.all_red_sec) * 1000 ≤ total_time ticks
  clearance_before_green ticks st h y r g =
      let none_left : clearance (run_ticks ticks st) ≡ 0 = rw g refl in
      let all_left : clearance st ≡ st.yellow_sec * 1000 + st.all_red_sec * 1000 = rw (y, r) refl in
      omega (arith, clearance_runs_down ticks st h)
