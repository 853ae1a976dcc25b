-- ===== src/Runtime/History.antt =====
-- Histories of the whole server: messages of the camera nodes, frames of peers, commands of the
-- operator, rounds of the coordinator and iterations of the ticker, in any order.
use mathlib.Core.Path.{subst}
use smart_traffic_management.Common.{
  Bool, Bool-cases, List, Option, String, [], ap, false, if◌then◌else◌, inl, inr, is_some, none,
  refl, some, true, ℕ, ◌&&◌, ◌∙◌, ◌∷◌, ◌≡◌,
}
use smart_traffic_management.Common.Dict.{values}
use smart_traffic_management.Common.Equality.{nat_eq, string_eq}
use smart_traffic_management.Common.Float.{Float}
use smart_traffic_management.Hardware.{Esp32Interface}
use smart_traffic_management.Pipeline.{Pipeline, PipelineResult}
use smart_traffic_management.Runtime.{Context, Snapshot, control, tally}
use smart_traffic_management.Runtime.Commands.{
  Command, apply_configuration, configure, disconnect_camera, disconnect_direction, handle_command,
  is_in_range, out_of_range, refused_with, restart, set_system, start, start_system, stop,
  unsupported,
}
use smart_traffic_management.Runtime.Coordinator.{
  coordinate, finish_batch, is_current, process_batch, publish, publish_all, published,
}
use smart_traffic_management.Runtime.Iteration.{
  after_tick, expire_sessions, publish_snapshot, run_runtime_iteration, tick,
}
use smart_traffic_management.Runtime.Operation.{HasBounds, handle_command-HasBounds}
use smart_traffic_management.Runtime.Processing.{Moment, Settings, Vision}
use smart_traffic_management.Runtime.Steady.{
  IsReady, IsSteady, Returns, process_batch-Returns, process_step_steady,
}
use smart_traffic_management.Server.{Environment, Frame, Message, count_dropped}
use smart_traffic_management.Server.Frames.{submit_decoded_frame, take_packets}
use smart_traffic_management.Server.Messages.{process_message}
use smart_traffic_management.Signal.Scheduler.{Outcome, returned, value_error}
use smart_traffic_management.Signal.Types.{LaneId, lane_id_eq_inst}

pub data RuntimeEvent (A F : Type 0) : Type 0 where
  message : Environment A → ℕ → Option (Message A) → RuntimeEvent A F
  peer_frame : Environment A → A → LaneId → String → String → ℕ → String → ℕ → RuntimeEvent A F
  command : ℕ → Command F → RuntimeEvent A F
  coordinator_round : ℕ → (Frame A → Moment F) → ℕ → ℕ → RuntimeEvent A F
  iteration : Moment F → ℕ → RuntimeEvent A F

module _ {A F : Type 0} ⦃fl : Float F⦄ where
  publish_all-IsSteady :
      (now now_mono : ℕ) (results : List (Frame A × Snapshot F)) (c : Context A F)
      → IsReady c
      → IsSteady c (publish_all now now_mono results c)
  unfolding publish_all
  publish_all-IsSteady now now_mono [] c r = (r, refl)
  publish_all-IsSteady now now_mono ((frame, snapshot) ∷ results) c r =
      let s = one (c.server.system_running && is_current now frame frame.node_id c.server) in
      let (r', e) =
        publish_all-IsSteady now now_mono results (publish now now_mono frame snapshot c) s.0 in
      (r', e ∙ s.1)
    where
      one :
          (may : Bool)
          → IsSteady c (if may then published now_mono frame snapshot c else tally count_dropped c)
      one true = (record { bounds = r.bounds; controlled = r.controlled }, refl)
      one false = (record { bounds = r.bounds; controlled = r.controlled }, refl)

  -- The control manager and the count of errors are the same.
  abbrev SameControl : Context A F → Context A F → Type 0
  SameControl c c' =
      (c'.esp32_interface ≡ c.esp32_interface)
      × (c'.frame_processing_errors ≡ c.frame_processing_errors)

  start_system-SameControl :
      (safe resets : Bool) (c : Context A F) → SameControl c (start_system safe resets c).1
  unfolding set_system
  start_system-SameControl false resets c = (refl, refl)
  start_system-SameControl true false c = (refl, refl)
  start_system-SameControl true true c = (refl, refl)

  handle_command-SameControl :
      (now : ℕ) (order : Command F) (c : Context A F) → SameControl c (handle_command now order c).1
  unfolding handle_command disconnect_direction set_system
  handle_command-SameControl now (disconnect_camera direction) c = (refl, refl)
  handle_command-SameControl now (configure confidence minimum maximum) c =
      go (is_in_range confidence minimum maximum) c.pipeline
    where
      go :
          (good : Bool) (o : Option (Pipeline F))
          → SameControl c
              (if good
                then apply_configuration confidence minimum maximum o c
                else (refused_with out_of_range, c)).1
      go true none = (refl, refl)
      go true (some p) = (refl, refl)
      go false o = (refl, refl)
  handle_command-SameControl now start c = start_system-SameControl _ false c
  handle_command-SameControl now restart c = start_system-SameControl _ true c
  handle_command-SameControl now stop c = (refl, refl)
  handle_command-SameControl now unsupported c = (refl, refl)

  handle_command-IsSteady :
      (now : ℕ) (order : Command F) (c : Context A F)
      → IsReady c
      → IsSteady c (handle_command now order c).1
  handle_command-IsSteady now order c r =
      let (control_same, errors_same) = handle_command-SameControl now order c in
      (
        record {
          bounds = handle_command-HasBounds now order c r.bounds;
          controlled = ap is_some control_same ∙ r.controlled;
        },
        errors_same,
      )

module _ {A I D F : Type 0} ⦃fl : Float F⦄ (v : Vision A I D F) (st : Settings F) where
  unfoldable pub apply_runtime_event : RuntimeEvent A F → Context A F → Context A F
  apply_runtime_event (message env websocket raw) c = record c {
    server = (process_message env websocket raw c.server).1;
  }
  apply_runtime_event (peer_frame env image direction node token websocket frame_id received_ms) c =
      record c {
        server =
            submit_decoded_frame env image direction node token websocket frame_id received_ms
              c.server;
      }
  apply_runtime_event (command now order) c = (handle_command now order c).1
  apply_runtime_event (coordinator_round now moment later later_mono) c =
      coordinate v st now moment later later_mono c
  apply_runtime_event (iteration m now_mono) c = (run_runtime_iteration st m now_mono c).1

  abbrev pub run_runtime : List (RuntimeEvent A F) → Context A F → Context A F
  run_runtime [] c = c
  run_runtime (e ∷ events) c = run_runtime events (apply_runtime_event e c)

  module _ (fresh : HasBounds (some st.fresh)) where
    coordinate-IsSteady :
        (now : ℕ) (moment : Frame A → Moment F) (later later_mono : ℕ) (c : Context A F)
        → IsReady c
        → IsSteady c (coordinate v st now moment later later_mono c)
    unfolding coordinate take_packets
    coordinate-IsSteady now moment later later_mono c r =
        go (process_batch v st now moment (values c.server.latest_frames) c') (
          process_batch-Returns v st fresh now moment (values c.server.latest_frames) c'
            (record { bounds = r.bounds; controlled = r.controlled }))
      where
        c' : Context A F
        c' = record c { server = (take_packets c.server).1 }

        go :
            (x : Outcome (List (Frame A × Snapshot F)) × Context A F)
            → Returns c' x
            → IsSteady c (finish_batch later later_mono x)
        go (value_error, d) ((y, e), s) = cc
        go (returned results, d) (y, s) =
            let (r', e) = publish_all-IsSteady later later_mono results d s.0 in (r', e ∙ s.1)

    tick-IsSteady :
        (m : Moment F) (now_mono : ℕ) (o : Option (Pipeline F)) (c : Context A F)
        → IsReady c
        → c.pipeline ≡ o
        → ((tick st m now_mono o c).0 ≡ true) × IsSteady c (tick st m now_mono o c).1
    unfolding publish_snapshot control
    tick-IsSteady m now_mono none c r e =
        (refl, (record { bounds = r.bounds; controlled = r.controlled }, refl))
    tick-IsSteady m now_mono (some p) c r e =
        elim (Bool-cases (c.server.system_running && is_some p.active_decision)) [
          | inr rests ↦
              rw rests (refl, (record { bounds = r.bounds; controlled = r.controlled }, refl))
          | inl steps ↦
              let (x, q, runs, h) =
                process_step_steady st.detector_fps st.order m.clocks [] p
                  (subst HasBounds e r.bounds) in
              rw (steps, runs) (go c.esp32_interface r.controlled x q h)
        ]
      where
        go :
            (o : Option (Esp32Interface F))
            → is_some o ≡ true
            → (x : PipelineResult F) (q : Pipeline F) → HasBounds (some q)
            → ((after_tick m now_mono o (returned (x, q)) c).0 ≡ true)
              × IsSteady c (after_tick m now_mono o (returned (x, q)) c).1
        go none s x q h = cc
        go (some i) s x q h = (refl, (record { bounds = h; controlled = refl }, refl))

    -- Where the pipeline, and a new one, have green bounds 5 ≤ min ≤ max ≤ 120 and there is a control
    -- manager, an iteration reports success and counts no error, and these stay so.
    pub run_runtime_iteration_succeeds :
        (m : Moment F) (now_mono : ℕ) (c : Context A F)
        → IsReady c
        → ((run_runtime_iteration st m now_mono c).0 ≡ true)
          × IsSteady c (run_runtime_iteration st m now_mono c).1
    unfolding run_runtime_iteration expire_sessions
    run_runtime_iteration_succeeds m now_mono c r =
        tick-IsSteady m now_mono c.pipeline (expire_sessions m.now c)
          (record { bounds = r.bounds; controlled = r.controlled }) refl

    apply_runtime_event-IsSteady :
        (event : RuntimeEvent A F) (c : Context A F)
        → IsReady c
        → IsSteady c (apply_runtime_event event c)
    unfolding apply_runtime_event
    apply_runtime_event-IsSteady (message env websocket raw) c r =
        (record { bounds = r.bounds; controlled = r.controlled }, refl)
    apply_runtime_event-IsSteady
          (peer_frame env image direction node token websocket frame_id received_ms) c r =
        (record { bounds = r.bounds; controlled = r.controlled }, refl)
    apply_runtime_event-IsSteady (command now order) c r = handle_command-IsSteady now order c r
    apply_runtime_event-IsSteady (coordinator_round now moment later later_mono) c r =
        coordinate-IsSteady now moment later later_mono c r
    apply_runtime_event-IsSteady (iteration m now_mono) c r =
        (run_runtime_iteration_succeeds m now_mono c r).1

    -- Where the pipeline, and a new one, have green bounds 5 ≤ min ≤ max ≤ 120 and there is a control
    -- manager, these stay so, and no error of the processing is counted, over any history of messages,
    -- frames, commands, rounds of the coordinator and iterations of the ticker, with vision models that
    -- raise no exception.
    pub run_runtime-IsSteady :
        (events : List (RuntimeEvent A F)) (c : Context A F)
        → IsReady c
        → IsSteady c (run_runtime events c)
    run_runtime-IsSteady [] c r = (r, refl)
    run_runtime-IsSteady (e ∷ events) c r =
        let (r', same) = apply_runtime_event-IsSteady e c r in
        let (r'', rest) = run_runtime-IsSteady events (apply_runtime_event e c) r' in
        (r'', rest ∙ same)
