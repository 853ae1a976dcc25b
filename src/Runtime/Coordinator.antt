-- ===== src/Runtime/Coordinator.antt =====
-- server/frame_coordinator.py: the frames that wait are decoded, detected in batches, processed one by
-- one, and published if their node is still there.
use smart_traffic_management.Common.{
  Bool, List, Option, String, [], drop, false, filter, if◌then◌else◌, length, ltb, none, not,
  or_default, some, suc, take, true, zero, ℕ, ◌&&◌, ◌+◌, ◌-◌, ◌||◌, ◌∷◌,
}
use smart_traffic_management.Common.Dict.{Dict, get, put}
use smart_traffic_management.Common.Equality.{nat_eq, string_eq}
use smart_traffic_management.Common.Float.{Float}
use smart_traffic_management.Pipeline.Gather.{detector_is_due}
use smart_traffic_management.Runtime.{Context, Snapshot, tally}
use smart_traffic_management.Runtime.Processing.{Moment, Settings, Vision, process_frame, seconds}
use smart_traffic_management.Server.{
  Frame, Server, StageCounters, count_dropped, get_connection, is_socket,
}
use smart_traffic_management.Server.Frames.{take_packets}
use smart_traffic_management.Sessions.{validate_session}
use smart_traffic_management.Signal.Scheduler.{Outcome, returned, value_error}
use smart_traffic_management.Signal.Types.{LaneId, lane_id_eq_inst}

-- `xs[i : i + size] for i in range(0, len(xs), size)`, on fuel for the number of batches.
abbrev pub batches {ℓ} : {A : Type ℓ} → ℕ → ℕ → List A → List (List A)
batches zero size xs = []
batches (suc fuel) size [] = []
batches (suc fuel) size (x ∷ xs) = take size (x ∷ xs) ∷ batches fuel size (drop size (x ∷ xs))

abbrev pub count_decode_failed : StageCounters → StageCounters
count_decode_failed c = record c { decode_failed = c.decode_failed + 1 }

abbrev pub count_processed : StageCounters → StageCounters
count_processed c = record c { processed = c.processed + 1 }

module _ {A I D E : Type 0} where
  -- The detections of one batch, by direction, each with the time that the batch took.
  abbrev pub store : List (Frame A × I) → List D → E → Dict LaneId (D × E) → Dict LaneId (D × E)
  store [] detections elapsed acc = acc
  store (x ∷ xs) [] elapsed acc = acc
  store ((frame, image) ∷ xs) (d ∷ detections) elapsed acc =
      store xs detections elapsed (put frame.direction (d, elapsed) acc)

module _ {A I : Type 0} where
  abbrev pub images : List (Frame A × I) → List I
  images [] = []
  images ((frame, image) ∷ xs) = image ∷ images xs

  -- The numbers of the frames of a batch, after `count` frames.
  abbrev pub frame_numbers : ℕ → List (Frame A × I) → List ℕ
  frame_numbers count [] = []
  frame_numbers count (x ∷ xs) = (count + 1) ∷ frame_numbers (count + 1) xs

module _ {A I F : Type 0} ⦃fl : Float F⦄ where
  abbrev pub timestamps : List (Frame A × I) → List F
  timestamps [] = []
  timestamps ((frame, image) ∷ xs) = seconds frame.backend_receive_monotonic ∷ timestamps xs

module _ {A I D F : Type 0} (v : Vision A I D F) where
  -- A frame is dropped where the system is paused or the frame is older than 2.5 seconds, and is
  -- counted where it cannot be decoded.
  abbrev pub prepare_one :
      Bool
      → Frame A
      → Option I
      → List (Frame A × I) × Context A F
      → List (Frame A × I) × Context A F
  prepare_one true frame image (ready, c) = (ready, tally count_dropped c)
  prepare_one false frame none (ready, c) = (ready, tally count_decode_failed c)
  prepare_one false frame (some image) (ready, c) = ((frame, image) ∷ ready, c)

  abbrev pub is_left : ℕ → Bool → Frame A → Bool
  is_left now running frame = not running || ltb 2500 (now - frame.backend_receive_timestamp)

  unfoldable pub prepare : ℕ → List (Frame A) → Context A F → List (Frame A × I) × Context A F
  prepare now [] c = ([], c)
  prepare now (frame ∷ frames) c =
      prepare_one (is_left now c.server.system_running frame) frame (v.decode frame.content)
        (prepare now frames c)
  -- The batches go to the detector one after the other.

module _ {A I D F : Type 0} ⦃fl : Float F⦄ (v : Vision A I D F) (st : Settings F) where
  abbrev pub is_due : Dict LaneId F → Frame A × I → Bool
  is_due detected_at (frame, image) =
      detector_is_due (get frame.direction detected_at) (seconds frame.backend_receive_monotonic)
        st.detector_fps

  -- `computed`: the detections of the frames that are due.
  -- Every batch is numbered from the same count of frames.
  unfoldable pub detect_all :
      ℕ → List (List (Frame A × I)) → Dict LaneId (D × F) → Dict LaneId (D × F)
  detect_all count [] acc = acc
  detect_all count (group ∷ groups) acc =
      let (boxes, elapsed) =
        v.detect_batch (images group) (frame_numbers count group) (timestamps group) in
      detect_all count groups (store group boxes elapsed acc)

  unfoldable pub computed_detections : ℕ → Dict LaneId F → List (Frame A × I) → Dict LaneId (D × F)
  unfolding detector_is_due detect_all
  computed_detections count detected_at ready =
      let due = filter (is_due detected_at) ready in
      detect_all count (batches (length due) st.batch_size due) []

  abbrev pub keep_result :
      Frame A
      → Option (Snapshot F)
      → Outcome (List (Frame A × Snapshot F)) × Context A F
      → Outcome (List (Frame A × Snapshot F)) × Context A F
  keep_result frame none rest = rest
  keep_result frame (some snapshot) (value_error, c) = (value_error, c)
  keep_result frame (some snapshot) (returned results, c) =
      (returned ((frame, snapshot) ∷ results), c)

  abbrev pub process_next :
      Frame A
      → (Context A F → Outcome (List (Frame A × Snapshot F)) × Context A F)
      → Outcome (Option (Snapshot F)) × Context A F
      → Outcome (List (Frame A × Snapshot F)) × Context A F
  process_next frame rest (value_error, c) = (value_error, c)
  process_next frame rest (returned shown, c) = keep_result frame shown (rest c)

  -- Every frame goes through the pipeline, in order; an exception ends the batch.
  unfoldable pub process_ready :
      (Frame A → Moment F)
      → Dict LaneId (D × F)
      → List (Frame A × I)
      → Context A F
      → Outcome (List (Frame A × Snapshot F)) × Context A F
  unfolding process_frame
  process_ready moment computed [] c = (returned [], c)
  process_ready moment computed ((frame, image) ∷ ready) c =
      process_next frame (process_ready moment computed ready)
        (process_frame v st (moment frame) frame image (get frame.direction computed) c)

  abbrev pub with_pipeline : Context A F → Context A F
  with_pipeline c = record c { pipeline = some (or_default c.pipeline st.fresh) }

  abbrev pub process_prepared :
      (Frame A → Moment F)
      → List (Frame A × I) × Context A F
      → Outcome (List (Frame A × Snapshot F)) × Context A F
  process_prepared moment ([], c) = (returned [], c)
  process_prepared moment (x ∷ ready, c) =
      let p = or_default c.pipeline st.fresh in
      process_ready moment (computed_detections c.frame_count p.last_detection_ts (x ∷ ready))
        (x ∷ ready) (with_pipeline c)

  unfoldable pub process_batch :
      ℕ
      → (Frame A → Moment F)
      → List (Frame A)
      → Context A F
      → Outcome (List (Frame A × Snapshot F)) × Context A F
  unfolding prepare computed_detections process_ready
  process_batch now moment frames c = process_prepared moment (prepare v now frames c)

module _ {A : Type 0} where
  -- The node of a frame is still registered with its token and its socket.
  abbrev pub is_current : ℕ → Frame A → Option String → Server A → Bool
  is_current now frame none s = false
  is_current now frame (some node) s =
      validate_session now node frame.session_token s.session_manager
      && is_socket frame.owner_socket (get_connection node s.active_connections)

module _ {A F : Type 0} where
  abbrev pub published : ℕ → Frame A → Snapshot F → Context A F → Context A F
  published now_mono frame snapshot c = record (tally count_processed c) {
    frame_updated_at = put frame.direction now_mono c.frame_updated_at;
    latest_snapshot = some snapshot;
  }

  unfoldable pub publish : ℕ → ℕ → Frame A → Snapshot F → Context A F → Context A F
  unfolding validate_session get_connection
  publish now now_mono frame snapshot c =
      if c.server.system_running && is_current now frame frame.node_id c.server
      then published now_mono frame snapshot c
      else tally count_dropped c

  unfoldable pub publish_all : ℕ → ℕ → List (Frame A × Snapshot F) → Context A F → Context A F
  unfolding publish
  publish_all now now_mono [] c = c
  publish_all now now_mono ((frame, snapshot) ∷ results) c =
      publish_all now now_mono results (publish now now_mono frame snapshot c)

  abbrev pub finish_batch :
      ℕ → ℕ → Outcome (List (Frame A × Snapshot F)) × Context A F → Context A F
  finish_batch now now_mono (value_error, c) = record c {
    frame_processing_errors = c.frame_processing_errors + 1;
  }
  finish_batch now now_mono (returned results, c) = publish_all now now_mono results c

module _ {A I D F : Type 0} ⦃fl : Float F⦄ (v : Vision A I D F) (st : Settings F) where
  -- One round of `run_coordinator`. The clocks are read before and after the processing.
  unfoldable pub coordinate : ℕ → (Frame A → Moment F) → ℕ → ℕ → Context A F → Context A F
  unfolding take_packets process_batch publish_all
  coordinate now moment later later_mono c =
      let (frames, s) = take_packets c.server in
      finish_batch later later_mono (process_batch v st now moment frames (record c { server = s }))
