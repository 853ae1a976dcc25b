-- ===== src/Server/Slots.antt =====
-- The slots of server/message_handler.py over a history of frames that arrive and of takes by the
-- coordinator, against a function from directions to frames.
use mathlib.Core.Path.{fun_ext}
use smart_traffic_management.Common.{
  List, Option, [], ap, arith, if◌then◌else◌, length, none, refl, some, suc, ℕ, ◌+◌, ◌-◌, ◌∙◌, ◌∷◌,
  ◌≡◌, ◌≤◌,
}
use smart_traffic_management.Common.Dict.{Dict, contains, get, get-put, put, values}
use smart_traffic_management.Common.Equality.{beq, nat_eq, string_eq}
use smart_traffic_management.Server.{Frame, Server}
use smart_traffic_management.Server.Frames.{enqueue, take_packets}
use smart_traffic_management.Signal.Types.{LaneId, lane_id_eq_inst}

pub data FrameEvent (A : Type 0) : Type 0 where
  arrives : Frame A → FrameEvent A
  taken : FrameEvent A

module _ {A : Type 0} where
  unfoldable pub apply_frame_event : FrameEvent A → Server A → Server A
  unfolding enqueue take_packets
  apply_frame_event (arrives frame) s = enqueue frame s
  apply_frame_event taken s = (take_packets s).1

  abbrev pub run_events : List (FrameEvent A) → Server A → Server A
  run_events [] s = s
  run_events (e ∷ events) s = run_events events (apply_frame_event e s)

  -- What a direction should have: its newest frame since the last take.
  abbrev pub newest : List (FrameEvent A) → (LaneId → Option (Frame A)) → LaneId → Option (Frame A)
  newest [] slots = slots
  newest (arrives frame ∷ events) slots =
      newest events (λ d. if beq frame.direction d then some frame else slots d)
  newest (taken ∷ events) slots = newest events (λ d. none)

  -- The frames that wait at the takes of a history.
  abbrev pub handed_over : List (FrameEvent A) → Server A → ℕ
  handed_over [] s = 0
  handed_over (arrives frame ∷ events) s = handed_over events (apply_frame_event (arrives frame) s)
  handed_over (taken ∷ events) s =
      length (take_packets s).0 + handed_over events (apply_frame_event taken s)

  abbrev pub arrivals : List (FrameEvent A) → ℕ
  arrivals [] = 0
  arrivals (arrives frame ∷ events) = suc (arrivals events)
  arrivals (taken ∷ events) = arrivals events

  -- The frame that waits for a direction.
  abbrev pub waiting_frame : Server A → LaneId → Option (Frame A)
  waiting_frame s d = get d s.latest_frames

  length-put :
      (d : LaneId) (frame : Frame A) (slots : Dict LaneId (Frame A))
      → length (values (put d frame slots))
        ≡ length (values slots) + (if contains d slots then 0 else 1)
  length-put d frame [] = omega arith
  length-put d frame ((k, f) ∷ slots) = ground (arith, length-put d frame slots)

  get-enqueue :
      (frame : Frame A) (s : Server A)
      → waiting_frame (enqueue frame s)
        ≡ (λ d. if beq frame.direction d then some frame else waiting_frame s d)
  unfolding enqueue
  get-enqueue frame s = fun_ext λ d. get-put frame.direction d frame s.latest_frames

  -- The slots hold, for each direction, the newest frame that arrived since the last take, and no
  -- other frame.
  pub run_events_refines :
      (events : List (FrameEvent A)) (s : Server A)
      → (λ d. get d (run_events events s).latest_frames)
        ≡ newest events (λ d. get d s.latest_frames)
  unfolding apply_frame_event take_packets
  run_events_refines [] s = refl
  run_events_refines (arrives frame ∷ events) s =
      run_events_refines events (enqueue frame s) ∙ ap (newest events) (get-enqueue frame s)
  run_events_refines (taken ∷ events) s = run_events_refines events (take_packets s).1

  -- Every frame that arrives is counted, and it waits, was handed over, or was dropped for a newer
  -- one, which both counters of dropped frames count.
  pub run_events-IsCounted :
      (events : List (FrameEvent A)) (s : Server A)
      → let s' = run_events events s in
        let dropped_now = s'.dropped_frames_count - s.dropped_frames_count in
        (s'.stage_counters.received ≡ s.stage_counters.received + arrivals events)
        × (s.dropped_frames_count ≤ s'.dropped_frames_count)
        × (s'.stage_counters.dropped ≡ s.stage_counters.dropped + dropped_now)
        × (length (values s.latest_frames) + arrivals events
            ≡ length (values s'.latest_frames) + handed_over events s + dropped_now)
  unfolding apply_frame_event take_packets enqueue
  run_events-IsCounted [] s = omega arith
  run_events-IsCounted (arrives frame ∷ events) s = ground (
    arith,
    run_events-IsCounted events (enqueue frame s),
    length-put frame.direction frame s.latest_frames,
  )
  run_events-IsCounted (taken ∷ events) s =
      ground (arith, run_events-IsCounted events (take_packets s).1)
