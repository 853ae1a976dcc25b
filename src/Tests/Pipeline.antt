-- ===== src/Tests/Pipeline.antt =====
-- ai/pipeline/traffic_pipeline.py at concrete inputs, over floats that are hundredths.
use smart_traffic_management.Common.{
  All, Bool, List, Option, [], arith, false, none, or_default, refl, some, true, ℕ, ◌*◌, ◌<◌, ◌∷◌,
  ◌≡◌, ◌≤◌, ◌⊎◌,
}
use smart_traffic_management.Common.Dict.{Dict, contains, get}
use smart_traffic_management.Common.Float.{hundredths}
use smart_traffic_management.Pipeline.{Clocks, Payload, Pipeline, PipelineResult, new_pipeline}
use smart_traffic_management.Pipeline.Cadence.{
  IsProjected, SameCounts, last_known, observe_projected,
}
use smart_traffic_management.Pipeline.Decide.{
  activate, change_phase, final_priority, fresh_lanes, has_emergency, is_no_emergency, must_change,
  phase_elapsed, phase_ms, release_empty, select_next,
}
use smart_traffic_management.Pipeline.Emergency.{HasAlarm, StartsEmergency}
use smart_traffic_management.Pipeline.Gather.{
  detector_is_due, gather, merge_lanes, note_seen, observe, perceive, perceive_lane, take_in,
}
use smart_traffic_management.Pipeline.Keeping.{KeepsPhase, process_step_keeps}
use smart_traffic_management.Pipeline.Outcomes.{
  Announces, SignalOutcome, deciding, process_step_returns,
}
use smart_traffic_management.Pipeline.Preemption.{process_step_emergency}
use smart_traffic_management.Pipeline.Step.{no_result, process_step, result_of, signal_step}
use smart_traffic_management.Signal.Scheduler.{
  Outcome, advance_after, by_lane, first_candidate, in_demand, is_emergency, returned, schedule,
  select_eligible, value_error,
}
use smart_traffic_management.Signal.Types.{
  Lane, LaneId, SignalDecision, Stats, approach, east, lane_id_eq_inst, no_statistics, normal,
  north, south, west,
}
use smart_traffic_management.Stabilizer.{smooth_lane, stabilize}

abbrev fresh_start : Pipeline ℕ
fresh_start = new_pipeline 10 60 3 40 10 100000

abbrev at : ℕ → Clocks ℕ
at ms = record { now_mono = ms; current_mono_time = ms; time = ms }

-- A frame of a lane with so many vehicles, and with or without an emergency vehicle.
abbrev frame_of : Lane → ℕ → ℕ → Bool → LaneId × Payload ℕ
frame_of lane timestamp count alarm = (
  approach lane,
  record {
    connected = true;
    timestamp = timestamp;
    observation = record (no_statistics (approach lane)) {
      live_count = count;
      raw_count = count;
      pce_score = count * 100;
      has_priority_vehicle = alarm;
    };
  },
)

abbrev as_given : List LaneId → List LaneId
as_given lanes = lanes

abbrev north_busy : Dict LaneId (Payload ℕ)
north_busy = frame_of north 500 4 false ∷ frame_of south 500 2 false ∷ []

abbrev south_alarm : Dict LaneId (Payload ℕ)
south_alarm = frame_of north 900 4 false ∷ frame_of south 900 2 true ∷ []

-- All that a step computes with.
steps : Unit {0}
unfolding new_pipeline process_step gather observe take_in perceive perceive_lane note_seen
    merge_lanes stabilize smooth_lane signal_step change_phase select_next schedule fresh_lanes
    final_priority activate select_eligible in_demand is_emergency by_lane first_candidate
    advance_after release_empty must_change result_of
steps = tt

-- North is given 19 seconds of green.
abbrev north_decision : SignalDecision ℕ
north_decision = record {
  phase_id = 1;
  green_lane = approach north;
  green_duration_sec = 19;
  yellow_duration_sec = 3;
  red_lanes = approach south ∷ approach east ∷ approach west ∷ [];
  priority_score = 180;
  reason = normal;
  timestamp = 1000;
}

abbrev north_running : Pipeline ℕ
north_running = record fresh_start {
  active_decision = some north_decision;
  phase_start_time = 1000;
  phase_counter = 1;
}

configured :
    (fresh_start.signal_scheduler.min_green_sec ≡ 10)
    × (fresh_start.signal_scheduler.max_green_sec ≡ 60)
unfolding new_pipeline
configured = (refl, refl)

abbrev in_bounds :
    fresh_start.signal_scheduler.min_green_sec ≤ fresh_start.signal_scheduler.max_green_sec
in_bounds = omega (arith, configured.0, configured.1)

abbrev above_zero : 0 < fresh_start.signal_scheduler.min_green_sec
above_zero = omega (arith, configured.0)

abbrev first_stats : Stats ℕ
first_stats = (gather 500 as_given 1000 north_busy fresh_start).0

abbrev running_step :
    (r : PipelineResult ℕ) × (q : Pipeline ℕ) × (process_step 500 as_given
        (at 2000)
        north_busy
        north_running
      ≡ returned (r, q))
    × (((r ≡ no_result) × (q ≡ north_running))
        ⊎ SignalOutcome
            (at 2000)
            north_busy
            (gather 500 as_given 2000 north_busy north_running).0
            (gather 500 as_given 2000 north_busy north_running).1
            r
            q)
running_step =
    process_step_returns 500 as_given (at 2000) north_busy north_running in_bounds above_zero

process_step_keeps_example :
    KeepsPhase 2000 north_running north_decision running_step.0 running_step.1
    ⊎ (phase_ms north_decision ≤ phase_elapsed 2000 north_running)
    ⊎ ((has_emergency (gather 500 as_given 2000 north_busy north_running).0 ≡ true)
        × (is_no_emergency north_decision.reason ≡ true))
process_step_keeps_example =
    process_step_keeps 500 as_given (at 2000) north_busy north_running running_step.1 north_decision
      running_step.0 refl running_step.2

abbrev gathered : Stats ℕ × Pipeline ℕ
gathered = gather 500 as_given 2000 south_alarm north_running

south_calls :
    HasAlarm
      (at 2000)
      gathered.0
      (deciding (at 2000) south_alarm gathered.0 gathered.1)
      (approach south)
unfolding steps
south_calls = record {
  statistics = or_default (get (approach south) gathered.0) (no_statistics (approach south));
  known = refl;
  urgent = refl;
  occupied = omega arith;
  fresh = refl;
}

process_step_emergency_example :
    (r : PipelineResult ℕ) × (q : Pipeline ℕ) × (process_step 500 as_given
        (at 2000)
        south_alarm
        north_running
      ≡ returned (r, q))
    × (begun : StartsEmergency
        (at 2000)
        gathered.0
        (deciding (at 2000) south_alarm gathered.0 gathered.1)
        q)
    × Announces q begun.phase.decision r
process_step_emergency_example =
    process_step_emergency 500 as_given (at 2000) south_alarm north_running north_decision
      (approach south) in_bounds above_zero refl refl south_calls

-- The first step gives the green to north.
abbrev lane_of : Option (SignalDecision ℕ) → Option LaneId
lane_of none = none
lane_of (some d) = some d.green_lane

abbrev lane_after : Outcome (PipelineResult ℕ × Pipeline ℕ) → Option LaneId
lane_after value_error = none
lane_after (returned (r, q)) = lane_of r.signal_decision

north_goes_first :
    lane_after (process_step 500 as_given (at 1000) north_busy fresh_start) ≡ some (approach north)
unfolding steps
north_goes_first = refl

-- The detector has just read north, and reads it once a second.
abbrev just_read : Pipeline ℕ
just_read = record fresh_start { last_detection_ts = (approach north, 480) ∷ [] }

abbrev north_again : Dict LaneId (Payload ℕ)
north_again = frame_of north 500 4 false ∷ []

too_early : All (λ frame. IsProjected 100 just_read.last_detection_ts frame) north_again
unfolding detector_is_due
too_early = ((refl, refl), tt)

observe_projected_example :
    SameCounts just_read (observe 100 1000 north_again just_read).1
    × ((lane : LaneId)
        → contains lane north_again ≡ true
        → get lane (observe 100 1000 north_again just_read).0
          ≡ some (last_known just_read.last_authoritative_stats lane))
observe_projected_example = observe_projected 100 1000 north_again just_read too_early
