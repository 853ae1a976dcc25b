-- ===== src/Intersection/Service.antt =====
-- Who gets the green light of ai/pipeline/digital_intersection.py when the clearance has elapsed.
use mathlib.Core.List.{Memᴰ}
use mathlib.Core.Path.{subst}
use smart_traffic_management.Common.{
  Bool, Bool-cases, Option, any, ap, arith, false, if◌then◌else◌, inl, inr, leb, none, refl, some,
  sym, true, ℕ, ◌*◌, ◌-◌, ◌<◌, ◌∙◌, ◌≡◌, ◌≢◌, ◌≤◌,
}
use smart_traffic_management.Common.Dict.{Dict, get}
use smart_traffic_management.Common.Equality.{beq}
use smart_traffic_management.Common.Float.{Float}
use smart_traffic_management.Intersection.{
  Demand, Intersection, PhaseState, active_fresh, all_red, count_service, grant_winner, green, hold,
  must_hold, next_green, progress, scored, select_lane, start_green, step_simulation, update_stats,
  yellow,
}
use smart_traffic_management.Signal.Priority.{calculate}
use smart_traffic_management.Signal.Scheduler.{Scheduler, in_demand, returned, schedule}
use smart_traffic_management.Signal.Scheduler.Decision.{schedule-IsSafeDecision}
use smart_traffic_management.Signal.Scheduler.Selection.{
  IsGrant, in_demand_parts, max-advance_after, min-advance_after, select_eligible_winner,
}
use smart_traffic_management.Signal.Types.{
  LaneId, LaneStatistics, PriorityResult, PriorityScore, SignalDecision, lane_id_eq_inst,
}

-- A lane that has a camera and vehicles.
pub record HasDemand {F : Type 0} ⦃fl : Float F⦄ (st : Intersection F) (lane : LaneId)
    : Type 0 where
  pub fresh : any (beq lane) (active_fresh st.camera_status) ≡ true
  pub statistics : LaneStatistics F
  pub known : get lane st.stats ≡ some statistics
  pub occupied : 0 < statistics.raw_count

-- The green phase that a lane is given.
pub record GetsGreen {F : Type 0} (st st' : Intersection F) (lane : LaneId) : Type 0 where
  pub is_green : st'.phase_state ≡ green
  pub active : st'.active_lane ≡ some lane
  pub at_least : st.sim_scheduler.min_green_sec * 1000 ≤ st'.remaining
  pub at_most : st'.remaining ≤ st.sim_scheduler.max_green_sec * 1000

module _ {F : Type 0} ⦃fl : Float F⦄ where
  in_demand-HasDemand :
      (st : Intersection F) (w : PriorityScore F)
      → in_demand st.stats (active_fresh st.camera_status) w ≡ true
      → HasDemand st w.lane
  in_demand-HasDemand st w h =
      let (fresh, stats, known, occupied) =
        in_demand_parts st.stats (active_fresh st.camera_status) w h in
      record { fresh = fresh; statistics = stats; known = known; occupied = occupied }

  start_green-GetsGreen :
      (winner : LaneId) (d : SignalDecision F) (st before : Intersection F)
      → before.sim_scheduler.min_green_sec ≤ d.green_duration_sec
      → d.green_duration_sec ≤ before.sim_scheduler.max_green_sec
      → GetsGreen before (start_green winner (returned d) st) winner
  unfolding count_service
  start_green-GetsGreen winner d st before h k = record {
    is_green = ground arith;
    active = ground arith;
    at_least = ground arith;
    at_most = ground arith;
  }

  -- After a grant, `schedule` returns a decision, and the winner's lane turns green.
  grant-GetsGreen :
      (result r : PriorityResult F) (s : Scheduler) (w : PriorityScore F) (now : F)
      (st before : Intersection F)
      → before.sim_scheduler.min_green_sec ≤ before.sim_scheduler.max_green_sec
      → IsGrant before.sim_scheduler result s r w
      → Memᴰ w result.scores
      → GetsGreen before (next_green (s, some r) now st) w.lane
  unfolding next_green
  grant-GetsGreen result r s w now st before h (er, es) m =
      let low =
        ap (λ t. Scheduler.min_green_sec t) es ∙ min-advance_after w.lane before.sim_scheduler in
      let high =
        ap (λ t. Scheduler.max_green_sec t) es ∙ max-advance_after w.lane before.sim_scheduler in
      let (d, e, safe) = schedule-IsSafeDecision s r 1 now (omega (arith, low, high)) (λ none_left.
        absurd (
          elim (subst (λ l. Memᴰ w l) (ap (λ t. PriorityResult.scores t) (sym er) ∙ none_left)
            m) [ ])) in
      let top : r.highest_priority ≡ some w = ap (λ t. PriorityResult.highest_priority t) er in
      let moved = record st { sim_scheduler = s } in
      subst (λ o. GetsGreen before (grant_winner o (schedule s (some r) 1 now) moved) w.lane)
        (sym top)
        (rw e (
          start_green-GetsGreen w.lane d moved before (omega (arith, safe.at_least, low))
            (omega (arith, safe.at_most, high))))

  phase-hold : (st : Intersection F) → (hold st).phase_state ≡ all_red
  unfolding hold
  phase-hold st = refl

  chosen-GetsGreen :
      (result : PriorityResult F) (now : F) (st before : Intersection F) (s : Scheduler)
      (o : Option (PriorityResult F))
      → before.sim_scheduler.min_green_sec ≤ before.sim_scheduler.max_green_sec
      → select_lane result before ≡ (s, o)
      → (next_green (s, o) now st).phase_state ≡ green
      → (lane : LaneId) × GetsGreen before (next_green (s, o) now st) lane × HasDemand before lane
  unfolding next_green hold
  chosen-GetsGreen result now st before s none h e g = cc
  chosen-GetsGreen result now st before s (some r) h e g =
      let (w, granted, m, d) =
        select_eligible_winner before.sim_scheduler result before.stats
          (active_fresh before.camera_status) s r e in
      (
        w.lane,
        grant-GetsGreen result r s w now st before h granted m,
        in_demand-HasDemand before w d,
      )

  -- What a step that ends in green has done.
  abbrev Served : Intersection F → Intersection F → PhaseState → ℕ → Type 0
  Served st st' phase dt =
      (lane : LaneId) × GetsGreen st st' lane
      × HasDemand st lane
      × (phase ≡ all_red)
      × (st.remaining ≤ dt)

  progress-Served :
      (phase : PhaseState) (dt : ℕ) (result : PriorityResult F) (now : F) (st : Intersection F)
      → st.sim_scheduler.min_green_sec ≤ st.sim_scheduler.max_green_sec
      → phase ≢ green
      → phase ≡ st.phase_state
      → (progress phase dt result now st).phase_state ≡ green
      → Served st (progress phase dt result now st) phase dt
  unfolding progress
  progress-Served green dt result now st h ne e g = absurd (ne refl)
  progress-Served yellow dt result now st h ne e g = cc (ends_otherwise (leb st.remaining dt) g)
    where
      ends_otherwise :
          (b : Bool)
          → (if b
              then record st { phase_state = all_red; remaining = st.all_red_sec * 1000 }
              else record st { remaining = st.remaining - dt }).phase_state
            ≡ green
          → st.phase_state ≡ green
      ends_otherwise true g' = cc
      ends_otherwise false g' = g'
  progress-Served all_red dt result now st h ne e g = elim (Bool-cases (leb st.remaining dt)) [
    | inr over ↦ cc (
        subst
          (λ b.
            (if b
              then next_green (select_lane result st) now (record st { remaining = 0 })
              else record st { remaining = st.remaining - dt }).phase_state
            ≡ green)
          over g)
    | inl elapsed ↦
        let (s, o) = select_lane result st in
        let (lane, gets, demand) =
          chosen-GetsGreen result now (record st { remaining = 0 }) st s o h refl
            (subst
              (λ b.
                (if b
                  then next_green (select_lane result st) now (record st { remaining = 0 })
                  else record st { remaining = st.remaining - dt }).phase_state
                ≡ green)
              elapsed g) in
        rw elapsed (lane, gets, demand, refl, ground arith)
  ]

  -- A lane turns green only in a step that ends the clearance, and it is then the active lane, its
  -- camera is not offline, it has vehicles, and its green time lies within the scheduler's bounds.
  pub green_is_served :
      (dt : ℕ) (demands : Dict LaneId (Demand F)) (now : F) (st : Intersection F)
      → st.sim_scheduler.min_green_sec ≤ st.sim_scheduler.max_green_sec
      → st.phase_state ≢ green
      → (step_simulation dt demands now st).phase_state ≡ green
      → (lane : LaneId) × GetsGreen st (step_simulation dt demands now st) lane
        × HasDemand (record st { stats = update_stats demands st.stats }) lane
        × (st.phase_state ≡ all_red)
        × (st.remaining ≤ dt)
  unfolding step_simulation hold
  green_is_served dt demands now st h ne g =
      let st' = record st { stats = update_stats demands st.stats } in
      let result = calculate st'.weights st'.stats now in
      elim (Bool-cases (must_hold st)) [
        | inl held ↦
            let dark : all_red ≡ green =
              subst
                (λ b.
                  (if b
                    then hold st'
                    else progress st.phase_state dt result now (scored result st')).phase_state
                  ≡ green)
                held g in
            cc
        | inr runs ↦
            let (lane, gets, demand, dark_phase, time) =
              progress-Served st.phase_state dt result now (scored result st') h ne refl (
                subst
                  (λ b.
                    (if b
                      then hold st'
                      else progress st.phase_state dt result now (scored result st')).phase_state
                    ≡ green)
                  runs g) in
            rw runs (
              lane,
              record {
                is_green = gets.is_green;
                active = gets.active;
                at_least = gets.at_least;
                at_most = gets.at_most;
              },
              record {
                fresh = demand.fresh;
                statistics = demand.statistics;
                known = demand.known;
                occupied = demand.occupied;
              },
              dark_phase,
              time,
            )
      ]
