-- ===== src/Tests/Runtime.antt =====
-- server/runtime.py, server/frame_coordinator.py and config/deployment.py at concrete inputs. Floats
-- are hundredths; a frame, its image and its detections are numbers of vehicles.
use smart_traffic_management.Common.{
  All, List, [], arith, false, filter, if◌then◌else◌, length, map, none, refl, some, suc, take,
  true, ℕ, ◌*◌, ◌<◌, ◌==◌, ◌∷◌, ◌≡◌, ◌≤◌, ◌⊎◌, any, length-map,
}
use smart_traffic_management.Common.Dict.{get, contains}
use smart_traffic_management.Common.Equality.{nat_eq, string_eq}
use smart_traffic_management.Common.Float.{hundredths}
use smart_traffic_management.Deployment.{
  Builtins, DeploymentProfile, batch_for, bounded_float, bounded_int, defaults_of, hardware_key,
  laptop, load_deployment_profile, measured_local_software, profile_key, simulated,
}
use smart_traffic_management.Deployment.Bounds.{IsBounded, load_deployment_profile-IsBounded}
use smart_traffic_management.Hardware.{new_interface, no_pyserial, raised}
use smart_traffic_management.Hardware.Control.{process_result}
use smart_traffic_management.Pipeline.{new_pipeline}
use smart_traffic_management.Pipeline.Decide.{
  activate, change_phase, final_priority, fresh_lanes, must_change, release_empty, select_next,
}
use smart_traffic_management.Pipeline.Gather.{
  gather, merge_lanes, note_seen, observe, perceive, perceive_lane, take_in,
}
use smart_traffic_management.Pipeline.Step.{process_step, result_of, signal_step}
use smart_traffic_management.Runtime.{Context, control}
use smart_traffic_management.Runtime.Batching.{batches_lem, computed_detections_due, concat, is_of}
use smart_traffic_management.Runtime.Commands.{
  configure, disconnect_direction, handle_command, set_system, stop,
}
use smart_traffic_management.Runtime.Coordinator.{
  batches, computed_detections, coordinate, detect_all, is_due, prepare, process_batch,
  process_ready, publish, publish_all,
}
use smart_traffic_management.Runtime.Expiry.{run_runtime_iteration_expires}
use smart_traffic_management.Runtime.History.{
  RuntimeEvent, apply_runtime_event, command, coordinator_round, iteration, message, run_runtime,
  run_runtime-IsSteady,
}
use smart_traffic_management.Runtime.Iteration.{
  apply_signal, empty_snapshot, expire_all, expire_sessions, guard_phase, lane_status,
  publish_snapshot, run_runtime_iteration, runtime_snapshot,
}
use smart_traffic_management.Runtime.Operation.{Switches, handle_command-Switches}
use smart_traffic_management.Runtime.Processing.{
  Moment, Settings, Vision, lane_view, process_frame, snapshot_of,
}
use smart_traffic_management.Runtime.Shown.{IsLive, IsWithdrawn, runtime_snapshot-IsLive}
use smart_traffic_management.Runtime.Steady.{IsSteady}
use smart_traffic_management.Server.{Frame, new_server}
use smart_traffic_management.Sessions.{get_expired_sessions}
use smart_traffic_management.Sessions.Validity.{unless_expired}
use smart_traffic_management.Signal.Scheduler.{
  advance_after, by_lane, first_candidate, in_demand, is_emergency, schedule, select_eligible,
}
use smart_traffic_management.Signal.Types.{
  LaneId, approach, east, lane_id_eq_inst, no_statistics, north, west,
}
use smart_traffic_management.Stabilizer.{smooth_lane, stabilize}
use smart_traffic_management.Tests.Server.{env_at, frame_message, handling, north_frame, one_camera}

abbrev builtins : Builtins ℕ
builtins = record { strip = λ s. s; lower = λ s. s; int_of = λ s. none; float_of = λ s. none }

abbrev laptop_profile : DeploymentProfile ℕ
laptop_profile = record {
  name = laptop;
  validation_status = measured_local_software;
  hardware_mode = simulated;
  serial_port = none;
  serial_baudrate = 115200;
  capture_fps = 400;
  webrtc_sample_fps = 400;
  detector_fps = 200;
  input_size = 576;
  batch_size = 4;
  cpu_threads = 4;
  preview_fps = 400;
}

loading : Unit {0}
unfolding load_deployment_profile profile_key hardware_key defaults_of bounded_int bounded_float
    batch_for
loading = tt

load_deployment_profile-IsBounded_example : IsBounded laptop_profile
unfolding loading
load_deployment_profile-IsBounded_example =
    load_deployment_profile-IsBounded builtins [] laptop_profile refl

-- The hardware without a port is refused.
no_port : load_deployment_profile builtins (("HARDWARE", "esp32") ∷ []) ≡ none
unfolding loading
no_port = refl

abbrev vision : Vision ℕ ℕ ℕ ℕ
vision = record {
  decode = λ a. if a == 0 then none else some a;
  detect_batch = λ images numbers times. (map suc images, 30);
  observe_image =
      λ lane image d. record (no_statistics lane) { live_count = image; pce_score = image * 100 };
}

abbrev settings : Settings ℕ
settings = record {
  detector_fps = 200;
  order = λ lanes. lanes;
  profile = laptop_profile;
  fresh = new_pipeline 10 60 3 40 10 100000;
  batch_size = 2;
}

abbrev moment_at : ℕ → Moment ℕ
moment_at ms = record {
  now = ms;
  clocks = record { now_mono = ms; current_mono_time = ms; time = ms };
  opening = no_pyserial;
  sending = raised "unused";
}

-- The runtime after its start, with a camera for north.
abbrev started : Context ℕ ℕ
started = record {
  server = one_camera;
  pipeline = some (new_pipeline 10 60 3 40 10 100000);
  esp32_interface = some (new_interface none true no_pyserial);
  confidence = 8;
  frame_updated_at = [];
  latest_snapshot = none;
  frame_processing_errors = 0;
  frame_count = 0;
}

abbrev history : List (RuntimeEvent ℕ ℕ)
history =
    message (env_at 2000) 7 (some frame_message)
    ∷ coordinator_round 2020 (λ frame. moment_at 2020) 2100 2100
    ∷ iteration (moment_at 2500) 2500
    ∷ command 3000 (configure 50 15 45)
    ∷ command 3000 stop
    ∷ []

running : Unit {0}
unfolding handling new_pipeline process_step gather observe take_in perceive perceive_lane note_seen
    merge_lanes stabilize smooth_lane signal_step change_phase select_next schedule fresh_lanes
    final_priority activate select_eligible in_demand is_emergency by_lane first_candidate
    advance_after release_empty must_change result_of apply_runtime_event coordinate process_batch
    prepare process_ready process_frame computed_detections detect_all publish_all publish control
    process_result snapshot_of lane_view run_runtime_iteration expire_sessions expire_all
    get_expired_sessions publish_snapshot runtime_snapshot guard_phase lane_status apply_signal
    handle_command set_system new_interface disconnect_direction
running = tt

-- The frame of north is published in the first round.
north_is_shown :
    (run_runtime vision settings (take 2 history) started).frame_updated_at
    ≡ (approach north, 2100) ∷ []
unfolding running
north_is_shown = refl

run_runtime-IsSteady_example : IsSteady started (run_runtime vision settings history started)
unfolding new_pipeline
run_runtime-IsSteady_example =
    run_runtime-IsSteady vision settings (omega arith) history started
      (record { bounds = omega arith; controlled = refl })

handle_command-Switches_example : Switches false started (handle_command 3000 stop started)
handle_command-Switches_example = handle_command-Switches 3000 stop false started refl

run_runtime_iteration_expires_example :
    get "cam-1"
      (run_runtime_iteration settings
        (moment_at 20000)
        20000
        started).1.server.session_manager.sessions
    ≡ unless_expired 20000 (get "cam-1" one_camera.session_manager.sessions)
unfolding new_server
run_runtime_iteration_expires_example =
    (run_runtime_iteration_expires settings (moment_at 20000) 20000 started "cam-1" (refl, tt)).0

-- A snapshot of a green for north, with a camera that is live.
abbrev seen_north : Context ℕ ℕ
seen_north = record started {
  frame_updated_at = (approach north, 2100) ∷ [];
  latest_snapshot = some (record empty_snapshot { active_phase = some (approach north) });
}

runtime_snapshot-IsLive_example :
    IsWithdrawn (runtime_snapshot 2500 2500 seen_north)
    ⊎ ((lane : LaneId) × ((runtime_snapshot 2500 2500 seen_north).active_phase ≡ some lane)
        × IsLive 2500 2500 lane seen_north)
runtime_snapshot-IsLive_example =
    runtime_snapshot-IsLive 2500 2500 seen_north
      (record { lanes = tt; phase = λ lane e. ground arith })

abbrev ready_frames : List (Frame ℕ × ℕ)
ready_frames =
    (north_frame, 42)
    ∷ (record north_frame { direction = approach east }, 3)
    ∷ (record north_frame { direction = approach west }, 5)
    ∷ []

computed_detections_due_example :
    contains (approach north) (computed_detections vision settings 0 [] ready_frames)
    ≡ any (is_of (approach north)) (filter (is_due vision settings []) ready_frames)
computed_detections_due_example =
    computed_detections_due vision (λ xs numbers times. length-map suc xs) settings 0 []
      ready_frames (approach north) (omega arith)

abbrev three : List ℕ
three = 1 ∷ 2 ∷ 3 ∷ []

batches_lem_example :
    (concat (batches 3 2 three) ≡ three)
    × All (λ group. (0 < length group) × (length group ≤ 2)) (batches 3 2 three)
batches_lem_example = batches_lem 2 three (omega arith)
