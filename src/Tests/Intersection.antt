-- ===== src/Tests/Intersection.antt =====
-- ai/pipeline/digital_intersection.py at concrete inputs, over floats that are hundredths.
use smart_traffic_management.Common.{
  List, [], arith, false, none, refl, some, true, ℕ, ◌*◌, ◌++◌, ◌+◌, ◌∷◌, ◌≡◌, ◌≤◌,
}
use smart_traffic_management.Common.Dict.{Dict}
use smart_traffic_management.Common.Float.{hundredths}
use smart_traffic_management.Intersection.{
  Demand, Intersection, active_fresh, all_cameras_offline, all_red, count_service, degraded, hold,
  new_intersection, next_green, note_scores, offline, progress, step_simulation,
  trigger_camera_dropout, update_stats,
}
use smart_traffic_management.Intersection.Clearance.{Tick, clearance_before_green, total_time}
use smart_traffic_management.Intersection.Invariant.{IsValid}
use smart_traffic_management.Intersection.Phases.{
  Event, Follows, apply_event, apply_event-Follows, dark, dropout, lit_lane, run, step, view,
}
use smart_traffic_management.Intersection.Service.{GetsGreen, HasDemand, green_is_served}
use smart_traffic_management.Intersection.Snapshot.{build_sim_snapshot}
use smart_traffic_management.Intersection.Snapshot.Live.{LiveContext, get_live_snapshot}
use smart_traffic_management.Intersection.Snapshot.Exclusion.{
  IsExclusive, live_snapshot-IsExclusive, sim_snapshot-IsExclusive,
}
use smart_traffic_management.Intersection.Trace.{dark_between, run-new_intersection-IsValid}
use smart_traffic_management.Signal.Priority.{calculate}
use smart_traffic_management.Signal.Scheduler.{
  advance_after, by_lane, first_candidate, in_demand, is_emergency, schedule, select_eligible,
}
use smart_traffic_management.Signal.Types.{Lane, LaneId, approach, north, south}

abbrev start : Intersection ℕ
start = new_intersection 10 60 3 2

abbrev vehicles_on : Lane → ℕ → LaneId × Demand ℕ
vehicles_on lane count = (
  approach lane,
  record { vehicles = some count; queue = none; pce = some (count * 100); has_priority = none },
)

abbrev demand : Dict LaneId (Demand ℕ)
demand = vehicles_on north 4 ∷ vehicles_on south 2 ∷ []

-- North turns green, its time runs out, and south follows after the clearance.
abbrev second : ℕ → Event ℕ
second dt = step dt demand 100

abbrev to_south : List (Event ℕ)
to_south = second 20000 ∷ second 3000 ∷ second 2000 ∷ []

abbrev north_green : Intersection ℕ
north_green = run (second 1000 ∷ []) start

-- All that a run computes with.
runs : Unit {0}
unfolding new_intersection apply_event step_simulation update_stats calculate progress next_green
    select_eligible schedule count_service note_scores all_cameras_offline active_fresh in_demand
    is_emergency by_lane first_candidate advance_after hold trigger_camera_dropout
runs = tt

north_is_lit : lit_lane (view north_green) ≡ some (approach north)
unfolding runs
north_is_lit = refl

south_is_lit : lit_lane (view (run to_south north_green)) ≡ some (approach south)
unfolding runs
south_is_lit = refl

dark_between_example :
    (before after : List (Event ℕ)) × (to_south ≡ before ++ after)
    × (view (run before north_green) ≡ dark)
unfolding runs
dark_between_example =
    dark_between to_south north_green (approach north) (approach south) north_is_lit south_is_lit
      (λ e. ground arith)

apply_event-Follows_example :
    Follows (view north_green) (view (apply_event (dropout (approach north) offline) north_green))
apply_event-Follows_example = apply_event-Follows (dropout (approach north) offline) north_green

run-new_intersection-IsValid_example : IsValid (run to_south start)
run-new_intersection-IsValid_example = run-new_intersection-IsValid 10 60 3 2 to_south

green_is_served_example :
    (lane : LaneId) × GetsGreen start (step_simulation 1000 demand 100 start) lane
    × HasDemand (record start { stats = update_stats demand start.stats }) lane
    × (start.phase_state ≡ all_red)
    × (start.remaining ≤ 1000)
unfolding runs
green_is_served_example = green_is_served 1000 demand 100 start (omega arith) (λ e. cc) refl

-- North's camera drops out: a yellow phase starts.
abbrev yellow_now : Intersection ℕ
yellow_now = trigger_camera_dropout (approach north) degraded north_green

abbrev ticks : List (Tick ℕ)
ticks =
    record { dt = 3000; demands = []; now = 100 }
    ∷ record { dt = 2000; demands = []; now = 100 }
    ∷ []

clearance_before_green_example : (3 + 2) * 1000 ≤ total_time ticks
unfolding runs
clearance_before_green_example = clearance_before_green ticks yellow_now refl refl refl refl

sim_snapshot-IsExclusive_example : IsExclusive (build_sim_snapshot north_green)
sim_snapshot-IsExclusive_example = sim_snapshot-IsExclusive north_green

abbrev stalled_context : LiveContext ℕ
stalled_context = record {
  now_mono = 100000;
  pipeline_running = true;
  active_decision = none;
  phase_start = 90000;
  lane_last_seen = (approach north, 99000) ∷ [];
  is_pipeline_stalled = false;
  last_frame_monotonic = 91000;
  any_frame_updated = true;
  last_priority_result = none;
  lane_stats_history = [];
  phase_counter = 4;
}

live_snapshot-IsExclusive_example : IsExclusive (get_live_snapshot 2 stalled_context)
live_snapshot-IsExclusive_example = live_snapshot-IsExclusive 2 stalled_context
