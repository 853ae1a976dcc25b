-- ===== src/Lib.antt =====
-- Verification of the adaptive traffic signal control of the Smart Traffic Management system, the
-- Python program of this repository. Four cameras watch the approaches of an intersection; a
-- pipeline counts the vehicles, chooses the approach that gets the green light, and sends commands
-- to the signal hardware. A server takes the frames from the camera nodes. A simulated intersection
-- runs the same scheduler without cameras.
--
-- How the parts interact, and which file models which:
--   * Vehicles (ai/state/vehicle_state_manager.py, ai/detection/detection_types.py) follows the tracked
--     vehicles of one camera: `update` is `update_vehicles`, its loop `update_tracks`, with
--     `observe_again` for a known vehicle, and `_purge_stale_tracks` is `purge_stale`.
--     Vehicles/Replay counts the observations from the detections alone.
--   * Analytics (ai/analytics/) makes the statistics of a lane from the confirmed vehicles:
--     `generate_stats`, `analyze_occupancy`, `analyze_congestion`.
--   * Stabilizer (ai/state/count_stabilizer.py) smooths the counts: `stabilize`, and records how
--     stable the decisions are: `update_decision_stability`.
--   * Signal (ai/signal/) decides: Signal/Priority and Signal/Ranking score and rank the lanes
--     (`calculate`), Signal/Fairness adds a bonus for waiting lanes (`apply_fairness`),
--     Signal/Emergency lifts lanes with priority vehicles (`check_and_override`), Signal/Scheduler
--     chooses a lane (`select_eligible`) and its green time (`schedule`), and Signal/Controller makes
--     the command (`generate_command`). The records stand in Signal/Types.
--   * Pipeline (ai/pipeline/traffic_pipeline.py) runs all that once for each set of frames.
--     `_process_step_unlocked` is `process_step` in Pipeline/Step: Pipeline/Gather reads the frames and
--     merges the lanes, Pipeline/Decide ends a phase and starts the next. What the vision models,
--     the tracker and the analytics find in a frame comes in with the frame, as an `observation`.
--   * Hardware (ai/hardware/esp32_interface.py, ai/controller/control_manager.py) sends the command
--     and fails closed: `send_command`, `reconnect`, `process_result`.
--   * Intersection (ai/pipeline/digital_intersection.py) is the simulated intersection:
--     `step_simulation`, `trigger_camera_dropout`, `trigger_ai_stall`, and in Intersection/Snapshot
--     the views that the clients see, simulated (`build_sim_snapshot`) and, in its
--     child Live, live (`get_live_snapshot`).
--     Intersection/Phases states the signal changes that are allowed as a step relation.
--   * Sessions (server/session_manager.py) keeps the sessions and the pairings of the camera nodes.
--   * Server (server/message_handler.py, server/connection_manager.py) answers the messages of the
--     nodes: `process_message` in Server/Messages, `_handle_register_camera` is
--     `handle_register_camera` in Server/Registration, and `_handle_video_frame` and
--     `submit_decoded_frame` stand in Server/Frames. A frame that is accepted waits in the slot of
--     its direction (`latest_frames`) until the coordinator takes it.
--   * Runtime (server/frame_coordinator.py, server/runtime.py, core/application_context.py) joins the
--     server, the pipeline and the hardware. `run_coordinator` is `coordinate` in Runtime/Coordinator:
--     it takes the frames that wait, has them detected in batches and gives each to
--     `_process_frame_locked`, `process_frame` in Runtime/Processing, which runs the pipeline and the
--     control manager and makes the snapshot. `handle_command` is in Runtime/Commands,
--     `run_runtime_iteration` and `runtime_snapshot` in Runtime/Iteration, and Runtime/History runs
--     histories of all of these.
--   * Deployment (config/deployment.py) reads the profile from the environment:
--     `load_deployment_profile`.
--   * Common has the lists, the dicts, the decidable equality, the floats, the texts and the stable
--     sort;
--     Tests has runs at concrete inputs, and every theorem at an input that meets its hypotheses.
--
-- How the code is modelled:
--   * Objects are records, and a method that changes its object returns the new record. A dict is an
--     association list in insertion order; a set of lanes is a list, and where Python's order of a
--     set matters, in the merging of the lanes, the order is an argument.
--   * A lane identifier stands for its text up to case (`LaneId`), since the code folds case wherever
--     it compares lanes, by `lower()` and `capitalize()`.
--   * Floats are an abstract carrier with the operations that the program uses (`Float`), and the
--     laws of the order of finite floats where a theorem needs them (`FloatOrder`). The tests run on
--     hundredths. Literals are written in hundredths.
--   * Clocks and durations of the phases are natural numbers of milliseconds; each call is given
--     its readings of the clocks, and a monotonic clock does not run backwards. Green times are in
--     seconds, as in the code.
--   * An exception is a value: `Outcome` has `value_error`. The answers of the serial port are
--     arguments of the calls that reach it.
--   * Every loop of the modelled code runs over a list or over the four lanes of the cycle, but that
--     over the batches (`batches`), which has as fuel the number of the frames; with a positive size
--     of the batches that is enough (Runtime/Batching).
--   * The lock of the pipeline makes a step atomic, so histories are sequences of whole calls. A
--     message, a command, a round of the coordinator and an iteration of the ticker are one step each.
--   * Sockets are numbers, and `is` compares them. What the schemas accept, the answers of WebRTC, the
--     fresh tokens and the clock of a message stand in `Environment`; the decoding of frames, the
--     detector and the trackers in `Vision`; and the readings of the clocks around one frame, with the
--     answers of the serial port, in `Moment`. `Vision` raises no exception; the code counts one as an
--     error of the processing. The detector takes the images of a batch, their frame numbers and their
--     timestamps, and all of a batch share the time it took.
--   * A lane of the pipeline is one of the four approaches, as the analytics count vehicles on no other.
--     Where the code gives the green to another lane it raises an AttributeError, and the model returns.
--   * The upper case of a text and the search in it are those of ASCII (Common/Text). A negative green
--     time is out of range in the code, as 0 is in the model.
--
-- What is not modelled: the detector, the tracker and the model files (YOLO and ByteTrack), image
-- geometry and drawing, cameras, WebRTC and local video sources, the endpoint of the sockets, the start
-- and stop of the tasks, log and report files, the evaluation tools, and the web applications. Of the
-- modelled classes, serialisation (`to_dict`, `to_json`), explanatory texts, telemetry, the list of the
-- nodes in a snapshot with its lookup of their lanes, the health report and wall-clock stamps of
-- snapshots are left out. `math.hypot`, `str.lower`, the parsing of numbers and the identity of tokens
-- are arguments.
pub mod Common
pub mod Signal
pub mod Intersection
pub mod Sessions
pub mod Pipeline
pub mod Stabilizer
pub mod Vehicles
pub mod Analytics
pub mod Hardware
pub mod Server
pub mod Deployment
pub mod Runtime
mod Tests
