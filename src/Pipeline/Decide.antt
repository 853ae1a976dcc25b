-- ===== src/Pipeline/Decide.antt =====
-- The second half of a step of ai/pipeline/traffic_pipeline.py: the early release of an empty lane,
-- the end of a phase, the next decision and its hardware command.
use smart_traffic_management.Common.{
  Bool, List, Option, any, false, filter, if◌then◌else◌, leb, ltb, none, not, some, true, ℕ, ◌&&◌,
  ◌*◌, ◌+◌, ◌-◌, ◌/◌, ◌==◌, ◌||◌,
}
use smart_traffic_management.Common.Dict.{Dict, contains, get, keys, values}
use smart_traffic_management.Common.Float.{Float}
use smart_traffic_management.Pipeline.{Clocks, Payload, Pipeline, all_red_ms, empty_lane_release_ms}
use smart_traffic_management.Pipeline.Gather.{unseen_ms}
use smart_traffic_management.Signal.Controller.{generate_command}
use smart_traffic_management.Signal.Emergency.{check_and_override}
use smart_traffic_management.Signal.Priority.{calculate}
use smart_traffic_management.Signal.Scheduler.{
  Outcome, Scheduler, returned, schedule, select_eligible, value_error,
}
use smart_traffic_management.Signal.Types.{
  DecisionReason, LaneId, LaneStatistics, PriorityResult, SignalDecision, Stats, emergency,
  lane_id_eq_inst,
}
use smart_traffic_management.Stabilizer.{update_decision_stability}

abbrev pub is_no_emergency : DecisionReason → Bool
is_no_emergency emergency = false
is_no_emergency _ = true

-- `max(1, int(math.floor(elapsed_sec)))`
abbrev pub floor_seconds : ℕ → ℕ
floor_seconds ms = let n = ms / 1000 in if ltb n 1 then 1 else n

module _ {F : Type 0} ⦃fl : Float F⦄ where
  -- 999 seconds where no phase has started.
  unfoldable pub phase_elapsed : ℕ → Pipeline F → ℕ
  phase_elapsed now p = if ltb 0 p.phase_start_time then now - p.phase_start_time else 999000

  unfoldable pub has_emergency : Stats F → Bool
  has_emergency lane_stats = any (λ s. LaneStatistics.has_priority_vehicle s) (values lane_stats)

  -- The active lane is empty since some time: its green ends now.
  abbrev pub release_after : ℕ → ℕ → SignalDecision F → Option ℕ → Pipeline F → Pipeline F
  release_after now elapsed d none p = record p { active_empty_since = some now }
  release_after now elapsed d (some since) p =
      if leb empty_lane_release_ms (now - since) && ltb elapsed (d.green_duration_sec * 1000)
      then record p {
        active_decision = some (record d { green_duration_sec = floor_seconds elapsed });
      }
      else p

  abbrev pub is_empty_lane : Option (LaneStatistics F) → Bool
  is_empty_lane none = false
  is_empty_lane (some stats) = stats.raw_count == 0

  abbrev pub release_active :
      ℕ → Dict LaneId (Payload F) → Stats F → Option (SignalDecision F) → Pipeline F → Pipeline F
  release_active now frames lane_stats none p = p
  release_active now frames lane_stats (some d) p =
      if not (contains d.green_lane frames)
      then p
      else if is_empty_lane (get d.green_lane lane_stats)
      then release_after now (phase_elapsed now p) d p.active_empty_since p
      else record p { active_empty_since = none }

  unfoldable pub release_empty : ℕ → Dict LaneId (Payload F) → Stats F → Pipeline F → Pipeline F
  unfolding phase_elapsed
  release_empty now frames lane_stats p = release_active now frames lane_stats p.active_decision p

  -- Green, yellow and all-red.
  abbrev pub phase_ms : SignalDecision F → ℕ
  phase_ms d = (d.green_duration_sec + d.yellow_duration_sec) * 1000 + all_red_ms

  abbrev pub decision_must_change : ℕ → Bool → Option (SignalDecision F) → Bool
  decision_must_change elapsed alarm none = true
  decision_must_change elapsed alarm (some d) =
      leb (phase_ms d) elapsed || alarm && is_no_emergency d.reason

  unfoldable pub must_change : ℕ → Stats F → Pipeline F → Bool
  unfolding phase_elapsed has_emergency
  must_change now lane_stats p =
      decision_must_change (phase_elapsed now p) (has_emergency lane_stats) p.active_decision

  -- Less than three seconds old.
  unfoldable pub fresh_lanes : ℕ → Stats F → Pipeline F → List LaneId
  fresh_lanes now_mono lane_stats p =
      filter (λ lane. ltb (unseen_ms now_mono lane p) 3000) (keys lane_stats)

  abbrev pub no_demand : Pipeline F → Pipeline F
  no_demand p = record p { active_decision = none; active_hardware_cmd = none }

  -- The emergency as the reason, where the selected lane has a priority vehicle.
  abbrev pub reasoned : LaneStatistics F → SignalDecision F → SignalDecision F
  reasoned stats d = if stats.has_priority_vehicle then record d { reason = emergency } else d

  -- A decision is made: the phase starts, and the command is generated.
  unfoldable pub activate :
      ℕ → PriorityResult F → LaneStatistics F → SignalDecision F → Pipeline F → Pipeline F
  unfolding update_decision_stability generate_command
  activate now result stats decided p =
      let d = reasoned stats decided in
      let (cmd, controller) = generate_command d p.signal_controller in
      record p {
        active_decision = some d;
        last_priority_result = some result;
        phase_start_time = now;
        active_empty_since = none;
        metrics = (update_decision_stability d.green_lane p.metrics).1;
        active_hardware_cmd = some cmd;
        signal_controller = controller;
      }

  -- A lane that has no statistics is a `KeyError`, here an error as the `ValueError` is.
  abbrev pub activate_known :
      ℕ
      → PriorityResult F
      → Option (LaneStatistics F)
      → SignalDecision F
      → Pipeline F
      → Outcome (Pipeline F)
  activate_known now result none d p = value_error
  activate_known now result (some stats) d p = returned (activate now result stats d p)

  abbrev pub activate_outcome :
      ℕ
      → Stats F
      → PriorityResult F
      → Outcome (SignalDecision F)
      → Pipeline F
      → Outcome (Pipeline F)
  activate_outcome now lane_stats result value_error p = value_error
  activate_outcome now lane_stats result (returned d) p =
      activate_known now result (get d.green_lane lane_stats) d p

  abbrev pub start_phase :
      Clocks F → Stats F → Scheduler × Option (PriorityResult F) → Pipeline F → Outcome (Pipeline F)
  start_phase clocks lane_stats (scheduler, none) p =
      returned (no_demand (record p { signal_scheduler = scheduler }))
  start_phase clocks lane_stats (scheduler, some result) p =
      activate_outcome clocks.current_mono_time lane_stats result
        (schedule scheduler (some result) p.phase_counter clocks.time)
        (record p { signal_scheduler = scheduler })

  -- The calculated priorities, with the emergency override.
  unfoldable pub final_priority : Clocks F → Stats F → Pipeline F → PriorityResult F
  unfolding calculate check_and_override
  final_priority clocks lane_stats p =
      check_and_override p.boost (calculate p.weights lane_stats clocks.time) lane_stats clocks.time

  -- Which lane is next, and the scheduler's cursor.
  unfoldable pub select_next :
      Clocks F → Stats F → Pipeline F → Scheduler × Option (PriorityResult F)
  unfolding final_priority select_eligible fresh_lanes
  select_next clocks lane_stats p =
      select_eligible p.signal_scheduler (final_priority clocks lane_stats p) lane_stats
        (fresh_lanes clocks.now_mono lane_stats p)

  unfoldable pub change_phase : Clocks F → Stats F → Pipeline F → Outcome (Pipeline F)
  unfolding select_next schedule activate
  change_phase clocks lane_stats p =
      start_phase clocks lane_stats (select_next clocks lane_stats p)
        (record p { phase_counter = p.phase_counter + 1 })
