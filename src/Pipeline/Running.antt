-- ===== src/Pipeline/Running.antt =====
-- When ai/pipeline/traffic_pipeline.py keeps its phase, and when it may change it.
use smart_traffic_management.Common.{
  Bool-cases, List, Option, [], inl, inr, ltb, none, refl, some, ℕ, ◌∙◌, ◌∷◌, ◌≡◌,
}
use smart_traffic_management.Common.Dict.{Dict, get, put}
use smart_traffic_management.Common.Float.{Float}
use smart_traffic_management.Pipeline.{Payload, Pipeline}
use smart_traffic_management.Pipeline.Gather.{
  Perceived, gather, known_lanes, merge_lane, merge_lanes, note_seen, observe, perceive, recalled,
  take_in, unseen_ms,
}
use smart_traffic_management.Signal.Types.{LaneId, LaneStatistics, Stats, lane_id_eq_inst}

module _ {F : Type 0} ⦃fl : Float F⦄ where
  -- Two states whose running phase is the same.
  pub record SamePhase (p q : Pipeline F) : Type 0 where
    pub decision : q.active_decision ≡ p.active_decision
    pub start : q.phase_start_time ≡ p.phase_start_time
    pub command : q.active_hardware_cmd ≡ p.active_hardware_cmd
    pub counter : q.phase_counter ≡ p.phase_counter
    pub scheduler : q.signal_scheduler ≡ p.signal_scheduler

  same_phase : (p : Pipeline F) → SamePhase p p
  same_phase p = record {
    decision = refl;
    start = refl;
    command = refl;
    counter = refl;
    scheduler = refl;
  }

  then_same : (p q r : Pipeline F) → SamePhase p q → SamePhase q r → SamePhase p r
  then_same p q r a b = record {
    decision = b.decision ∙ a.decision;
    start = b.start ∙ a.start;
    command = b.command ∙ a.command;
    counter = b.counter ∙ a.counter;
    scheduler = b.scheduler ∙ a.scheduler;
  }

  note_seen-SamePhase :
      (now : ℕ) (lane_stats : Stats F) (p : Pipeline F) → SamePhase p (note_seen now lane_stats p)
  unfolding note_seen
  note_seen-SamePhase now [] p = same_phase p
  note_seen-SamePhase now ((lane, stats) ∷ rest) p =
      let p' : Pipeline F = record p {
        lane_stats_history = put lane stats p.lane_stats_history;
        lane_last_seen = put lane now p.lane_last_seen;
      } in
      let same = note_seen-SamePhase now rest p' in
      record {
        decision = same.decision;
        start = same.start;
        command = same.command;
        counter = same.counter;
        scheduler = same.scheduler;
      }

  recalled-SamePhase :
      (now : ℕ) (lane : LaneId) (o : Option (LaneStatistics F)) (p : Pipeline F)
      → SamePhase p (recalled now lane o p).1
  recalled-SamePhase now lane none p = same_phase p
  recalled-SamePhase now lane (some hist) p = elim (Bool-cases (ltb 3000 (unseen_ms now lane p))) [
    | inl old ↦
        rw old (record {
          decision = refl;
          start = refl;
          command = refl;
          counter = refl;
          scheduler = refl;
        })
    | inr recent ↦ rw recent (same_phase p)
  ]

  merge_lane-SamePhase :
      (now : ℕ) (lane : LaneId) (o : Option (LaneStatistics F)) (p : Pipeline F)
      → SamePhase p (merge_lane now lane o p).1
  merge_lane-SamePhase now lane (some stats) p = same_phase p
  merge_lane-SamePhase now lane none p =
      recalled-SamePhase now lane (get lane p.lane_stats_history) p

  merge_lanes-SamePhase :
      (now : ℕ) (lane_stats : Stats F) (lanes : List LaneId) (acc : Stats F) (p : Pipeline F)
      → SamePhase p (merge_lanes now lane_stats lanes acc p).1
  unfolding merge_lanes
  merge_lanes-SamePhase now lane_stats [] acc p = same_phase p
  merge_lanes-SamePhase now lane_stats (lane ∷ lanes) acc p =
      let (stats, p') = merge_lane now lane (get lane lane_stats) p in
      then_same p p' (merge_lanes now lane_stats lanes (put lane stats acc) p').1
        (merge_lane-SamePhase now lane (get lane lane_stats) p)
        (merge_lanes-SamePhase now lane_stats lanes (put lane stats acc) p')

  take_in-SamePhase : (seen : Perceived F) (p : Pipeline F) → SamePhase p (take_in seen p).1
  unfolding take_in
  take_in-SamePhase seen p = record {
    decision = refl;
    start = refl;
    command = refl;
    counter = refl;
    scheduler = refl;
  }

  observe-SamePhase :
      (fps : F) (now : ℕ) (frames : Dict LaneId (Payload F)) (p : Pipeline F)
      → SamePhase p (observe fps now frames p).1
  unfolding observe
  observe-SamePhase fps now frames p =
      let start : Perceived F = record {
        lane_stats = [];
        observed = [];
        detected_at = p.last_detection_ts;
      } in
      let seen = perceive fps p.last_authoritative_stats frames start in
      let (lane_stats, p') = take_in seen p in
      then_same p p' (note_seen now lane_stats p') (take_in-SamePhase seen p)
        (note_seen-SamePhase now lane_stats p')

  -- Reading the frames leaves the running phase as it is.
  pub gather-SamePhase :
      (fps : F) (order : List LaneId → List LaneId) (now : ℕ) (frames : Dict LaneId (Payload F))
      (p : Pipeline F)
      → SamePhase p (gather fps order now frames p).1
  unfolding gather
  gather-SamePhase fps order now frames p =
      let (lane_stats, p') = observe fps now frames p in
      then_same p p' (gather fps order now frames p).1 (observe-SamePhase fps now frames p)
        (merge_lanes-SamePhase now lane_stats (order (known_lanes lane_stats p')) [] p')
