-- ===== src/Runtime/Steady.antt =====
-- Nothing that the runtime does with the pipeline raises, as long as the bounds of the green time are
-- in order and the control manager is there.
use mathlib.Core.Path.{subst}
use smart_traffic_management.Common.{
  Bool, Bool-cases, List, Option, [], all, ap, arith, false, inl, inr, is_some, ltb, none, not,
  or_default, refl, some, sym, true, ℕ, ◌&&◌, ◌-◌, ◌∙◌, ◌∷◌, ◌≡◌, ◌≤◌, ◌+◌,
}
use smart_traffic_management.Common.Dict.{Dict, get}
use smart_traffic_management.Common.Equality.{nat_eq, string_eq}
use smart_traffic_management.Common.Float.{Float}
use smart_traffic_management.Hardware.{Esp32Interface}
use smart_traffic_management.Pipeline.{Clocks, Payload, Pipeline, PipelineResult}
use smart_traffic_management.Pipeline.Bounds.{bounds_of, process_step-bounds}
use smart_traffic_management.Pipeline.Outcomes.{process_step_returns}
use smart_traffic_management.Pipeline.Step.{process_step}
use smart_traffic_management.Runtime.{Context, Snapshot, control, tally}
use smart_traffic_management.Runtime.Coordinator.{
  computed_detections, is_left, keep_result, prepare, prepare_one, process_batch, process_next,
  process_prepared, process_ready, with_pipeline,
}
use smart_traffic_management.Runtime.Operation.{HasBounds}
use smart_traffic_management.Runtime.Processing.{
  Moment, Settings, Vision, after_step, count_decoded, frame_payload, process_frame, shown_by,
  snapshot_of, with_control,
}
use smart_traffic_management.Server.{Frame}
use smart_traffic_management.Signal.Scheduler.{Outcome, returned, value_error}
use smart_traffic_management.Signal.Types.{LaneId, lane_id_eq_inst}

-- The bounds are in order, and there is a control manager.
pub record IsReady {A F : Type 0} ⦃fl : Float F⦄ (c : Context A F) : Type 0 where
  pub bounds : HasBounds c.pipeline
  pub controlled : is_some c.esp32_interface ≡ true

-- Ready, with as many errors as before.
abbrev pub IsSteady : {A F : Type 0} ⦃fl : Float F⦄ → Context A F → Context A F → Type 0
IsSteady c c' = IsReady c' × (c'.frame_processing_errors ≡ c.frame_processing_errors)

module _ {A F : Type 0} ⦃fl : Float F⦄ where
  IsSteady-trans : (c d e : Context A F) → IsSteady c d → IsSteady d e → IsSteady c e
  IsSteady-trans c d e (r, p) (r', q) = (r', q ∙ p)

  -- The result was returned, in a ready state.
  abbrev pub Returns : {R : Type 0} → Context A F → Outcome R × Context A F → Type 0
  Returns {R} c result = ((x : R) × (result.0 ≡ returned x)) × IsSteady c result.1

module _ {F : Type 0} ⦃fl : Float F⦄ where
  HasBounds-eq :
      (p q : Pipeline F)
      → bounds_of q.signal_scheduler ≡ bounds_of p.signal_scheduler
      → HasBounds (some p)
      → HasBounds (some q)
  HasBounds-eq p q e h = subst (λ (b : ℕ × ℕ). (5 ≤ b.0) × (b.0 ≤ b.1) × (b.1 ≤ 120)) (sym e) h

  -- The step of a pipeline in bounds returns, in bounds.
  pub process_step_steady :
      (fps : F) (order : List LaneId → List LaneId) (clocks : Clocks F)
      (frames : Dict LaneId (Payload F)) (p : Pipeline F)
      → HasBounds (some p)
      → (r : PipelineResult F) × (q : Pipeline F) × (process_step fps order clocks frames p
          ≡ returned (r, q))
        × HasBounds (some q)
  process_step_steady fps order clocks frames p h =
      let (r, q, e, outcome) =
        process_step_returns fps order clocks frames p h.1 (omega (arith, h.0)) in
      (r, q, e, HasBounds-eq p q (process_step-bounds fps order clocks frames p r q e) h)

module _ {A I D F : Type 0} ⦃fl : Float F⦄ (v : Vision A I D F) (st : Settings F)
    (fresh : HasBounds (some st.fresh)) where
  or_fresh-HasBounds :
      (o : Option (Pipeline F)) → HasBounds o → HasBounds (some (or_default o st.fresh))
  or_fresh-HasBounds none h = fresh
  or_fresh-HasBounds (some p) h = h

  after_step-Returns :
      (m : Moment F) (frame : Frame A) (c : Context A F) (r : PipelineResult F) (q : Pipeline F)
      → is_some c.esp32_interface ≡ true
      → HasBounds (some q)
      → Returns c (after_step v st m frame c (returned (r, q)))
  unfolding control
  after_step-Returns m frame c r q controlled h = go c.esp32_interface controlled
    where
      go :
          (o : Option (Esp32Interface F))
          → is_some o ≡ true
          → let shown = shown_by v st m r o (record c { pipeline = some q }) in
            ((x : Option (Snapshot F)) × (returned
                  (some (snapshot_of frame.frame_id frame.direction shown.0))
                ≡ returned x))
            × IsSteady c shown.1
      go none e = cc
      go (some i) e = ((_, refl), (record { bounds = h; controlled = refl }, refl))

  process_frame-Returns :
      (m : Moment F) (frame : Frame A) (image : I) (detection : Option (D × F)) (c : Context A F)
      → IsReady c
      → Returns c (process_frame v st m frame image detection c)
  unfolding process_frame
  process_frame-Returns m frame image detection c ready =
      elim (Bool-cases
        (not (is_some detection) && ltb 2500 (m.now - frame.backend_receive_timestamp))) [
          | inl late ↦ rw late ((none, refl), (ready, refl))
          | inr timely ↦
              let p = or_default c.pipeline st.fresh in
              let (r, q, e, h) =
                process_step_steady st.detector_fps st.order m.clocks
                  ((frame.direction, frame_payload v st m frame image detection) ∷ []) p
                  (or_fresh-HasBounds c.pipeline ready.bounds) in
              rw (timely, e) (go c.esp32_interface refl ready.controlled r q h)
        ]
    where
      p0 : Pipeline F
      p0 = or_default c.pipeline st.fresh

      go :
          (o : Option (Esp32Interface F))
          → c.esp32_interface ≡ o
          → is_some o ≡ true
          → (r : PipelineResult F) (q : Pipeline F) → HasBounds (some q)
          → Returns c (
              after_step v st m frame
                (record (with_control v st m.opening o (tally count_decoded c)) {
                  pipeline = some p0;
                  frame_count =
                      (with_control v st m.opening o (tally count_decoded c)).frame_count + 1;
                })
                (returned (r, q)))
      go none e s r q h = cc
      go (some i) e s r q h =
          after_step-Returns m frame
            (record (tally count_decoded c) { pipeline = some p0; frame_count = c.frame_count + 1 })
            r q (ap is_some e) h

  process_next-Returns :
      (frame : Frame A) (c : Context A F)
      (rest : Context A F → Outcome (List (Frame A × Snapshot F)) × Context A F)
      → ((d : Context A F) → IsReady d → Returns d (rest d))
      → (r : Outcome (Option (Snapshot F)) × Context A F) → Returns c r
      → Returns c (process_next v st frame rest r)
  process_next-Returns frame c rest all (value_error, d) ((x, e), s) = cc
  process_next-Returns frame c rest all (returned none, d) (x, s) =
      let (y, t) = all d s.0 in (y, IsSteady-trans c d (rest d).1 s t)
  process_next-Returns frame c rest all (returned (some snapshot), d) (x, s) =
      let ((y, e), t) = all d s.0 in go (rest d) y e (IsSteady-trans c d (rest d).1 s t)
    where
      go :
          (r : Outcome (List (Frame A × Snapshot F)) × Context A F)
          (y : List (Frame A × Snapshot F))
          → r.0 ≡ returned y
          → IsSteady c r.1
          → Returns c (keep_result v st frame (some snapshot) r)
      go (value_error, f) y e t = cc
      go (returned results, f) y e t = ((_, refl), t)

  process_ready-Returns :
      (moment : Frame A → Moment F) (computed : Dict LaneId (D × F)) (ready : List (Frame A × I))
      (c : Context A F)
      → IsReady c
      → Returns c (process_ready v st moment computed ready c)
  unfolding process_ready
  process_ready-Returns moment computed [] c r = ((_, refl), (r, refl))
  process_ready-Returns moment computed ((frame, image) ∷ ready) c r =
      process_next-Returns frame c (process_ready v st moment computed ready)
        (process_ready-Returns moment computed ready)
        (process_frame v st (moment frame) frame image (get frame.direction computed) c)
        (process_frame-Returns (moment frame) frame image (get frame.direction computed) c r)

  prepare-IsSteady :
      (now : ℕ) (frames : List (Frame A)) (c : Context A F)
      → IsReady c
      → IsSteady c (prepare v now frames c).1
  unfolding prepare
  prepare-IsSteady now [] c r = (r, refl)
  prepare-IsSteady now (frame ∷ frames) c r =
      go (is_left v now c.server.system_running frame) (v.decode frame.content)
        (prepare v now frames c) (prepare-IsSteady now frames c r)
    where
      go :
          (left : Bool) (image : Option I) (x : List (Frame A × I) × Context A F)
          → IsSteady c x.1
          → IsSteady c (prepare_one v left frame image x).1
      go true image (ready, d) s =
          (record { bounds = s.0.bounds; controlled = s.0.controlled }, s.1)
      go false none (ready, d) s =
          (record { bounds = s.0.bounds; controlled = s.0.controlled }, s.1)
      go false (some image) (ready, d) s = s

  pub process_batch-Returns :
      (now : ℕ) (moment : Frame A → Moment F) (frames : List (Frame A)) (c : Context A F)
      → IsReady c
      → Returns c (process_batch v st now moment frames c)
  unfolding process_batch
  process_batch-Returns now moment frames c r =
      go (prepare v now frames c) (prepare-IsSteady now frames c r)
    where
      go :
          (x : List (Frame A × I) × Context A F)
          → IsSteady c x.1
          → Returns c (process_prepared v st moment x)
      go ([], d) s = ((_, refl), s)
      go (y ∷ ready, d) s =
          let d' = with_pipeline v st d in
          let ready' : IsReady d' = record {
            bounds = or_fresh-HasBounds d.pipeline s.0.bounds;
            controlled = s.0.controlled;
          } in
          let p = or_default d.pipeline st.fresh in
          let (x, t) =
            process_ready-Returns moment
              (computed_detections v st d.frame_count p.last_detection_ts (y ∷ ready)) (y ∷ ready)
              d' ready' in
          (x, (t.0, t.1 ∙ s.1))
