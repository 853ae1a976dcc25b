-- ===== src/Pipeline/Cadence.antt =====
-- Frames between two detections in ai/pipeline/traffic_pipeline.py, into which the tracker projects.
use mathlib.Core.Path.{subst}
use smart_traffic_management.Common.{
  All, Bool-cases, [], ap, false, inl, inr, or_default, refl, some, sym, true, ℕ, ◌∙◌, ◌∷◌, ◌≡◌,
  ◌⊎◌,
}
use smart_traffic_management.Common.Dict.{Dict, contains, get, get-put, put, update}
use smart_traffic_management.Common.Equality.{beq, beq→eq}
use smart_traffic_management.Common.Float.{Float}
use smart_traffic_management.Pipeline.{Payload, Pipeline}
use smart_traffic_management.Pipeline.Gather.{
  Perceived, detector_is_due, note_seen, observe, perceive, perceive_lane, take_in,
}
use smart_traffic_management.Signal.Types.{
  LaneId, LaneStatistics, Stats, lane_id_eq_inst, no_statistics,
}
use smart_traffic_management.Stabilizer.{stabilize}

module _ {F : Type 0} ⦃fl : Float F⦄ where
  -- A frame that the detector does not read: there is none, or its time has not come.
  abbrev pub IsUnread : F → Dict LaneId F → LaneId × Payload F → Type 0
  IsUnread fps detected_at (lane, payload) =
      (payload.connected ≡ false)
      ⊎ (detector_is_due (get lane detected_at) payload.timestamp fps ≡ false)

  -- What the loop keeps of its state.
  abbrev KeepsSeen : Perceived F → Perceived F → Type 0
  KeepsSeen acc acc' = (acc'.observed ≡ acc.observed) × (acc'.detected_at ≡ acc.detected_at)

  perceive_lane-KeepsSeen :
      (fps : F) (authoritative : Stats F) (lane : LaneId) (payload : Payload F) (acc : Perceived F)
      → IsUnread fps acc.detected_at (lane, payload)
      → KeepsSeen acc (perceive_lane fps authoritative lane payload acc)
  unfolding perceive_lane
  perceive_lane-KeepsSeen fps authoritative lane payload acc (inl absent) = rw absent (refl, refl)
  perceive_lane-KeepsSeen fps authoritative lane payload acc (inr early) =
      elim (Bool-cases payload.connected) [
        | inl there ↦ rw (there, early) (refl, refl)
        | inr absent ↦ rw absent (refl, refl)
      ]

  perceive-KeepsSeen :
      (fps : F) (authoritative : Stats F) (frames : Dict LaneId (Payload F)) (acc : Perceived F)
      → All (λ frame. IsUnread fps acc.detected_at frame) frames
      → KeepsSeen acc (perceive fps authoritative frames acc)
  unfolding perceive
  perceive-KeepsSeen fps authoritative [] acc h = (refl, refl)
  perceive-KeepsSeen fps authoritative ((lane, payload) ∷ frames) acc (here, rest) =
      let acc' = perceive_lane fps authoritative lane payload acc in
      let (observed', detected) = perceive_lane-KeepsSeen fps authoritative lane payload acc here in
      let (observed'', detected') =
        perceive-KeepsSeen fps authoritative frames acc'
          (subst (λ d. All (λ frame. IsUnread fps d frame) frames) (sym detected) rest) in
      (observed'' ∙ observed', detected' ∙ detected)

  -- What detections leave behind.
  pub record SameCounts (p q : Pipeline F) : Type 0 where
    pub stabilizer : q.count_stabilizer ≡ p.count_stabilizer
    pub authoritative : q.last_authoritative_stats ≡ p.last_authoritative_stats
    pub detections : q.last_detection_ts ≡ p.last_detection_ts

  take_in-SameCounts :
      (seen : Perceived F) (p : Pipeline F)
      → seen.observed ≡ []
      → seen.detected_at ≡ p.last_detection_ts
      → SameCounts p (take_in seen p).1
  unfolding take_in stabilize
  take_in-SameCounts seen p none_read same = record {
    stabilizer = ap (λ o. (stabilize o p.count_stabilizer).1) none_read;
    authoritative =
        ap (λ o. update (stabilize o p.count_stabilizer).0 p.last_authoritative_stats) none_read;
    detections = same;
  }

  note_seen-SameCounts :
      (now : ℕ) (lane_stats : Stats F) (p q : Pipeline F)
      → SameCounts p q
      → SameCounts p (note_seen now lane_stats q)
  unfolding note_seen
  note_seen-SameCounts now [] p q h = h
  note_seen-SameCounts now ((lane, stats) ∷ rest) p q h =
      note_seen-SameCounts now rest p
        (record q {
          lane_stats_history = put lane stats q.lane_stats_history;
          lane_last_seen = put lane now q.lane_last_seen;
        })
        (record {
          stabilizer = h.stabilizer;
          authoritative = h.authoritative;
          detections = h.detections;
        })

  -- If the detector reads none of the frames, then the smoothed counts and their histories, the last
  -- statistics from a detection, and the times of the detections stay as they are.
  pub observe-SameCounts :
      (fps : F) (now : ℕ) (frames : Dict LaneId (Payload F)) (p : Pipeline F)
      → All (λ frame. IsUnread fps p.last_detection_ts frame) frames
      → SameCounts p (observe fps now frames p).1
  unfolding observe
  observe-SameCounts fps now frames p h =
      let start : Perceived F = record {
        lane_stats = [];
        observed = [];
        detected_at = p.last_detection_ts;
      } in
      let seen = perceive fps p.last_authoritative_stats frames start in
      let (unread, same) = perceive-KeepsSeen fps p.last_authoritative_stats frames start h in
      let (lane_stats, p') = take_in seen p in
      note_seen-SameCounts now lane_stats p p' (take_in-SameCounts seen p unread same)

  -- A frame of a camera that is connected, whose time has not come: the tracker projects into it.
  abbrev pub IsProjected : F → Dict LaneId F → LaneId × Payload F → Type 0
  IsProjected fps detected_at (lane, payload) =
      (payload.connected ≡ true)
      × (detector_is_due (get lane detected_at) payload.timestamp fps ≡ false)

  projected-IsUnread :
      (fps : F) (detected_at : Dict LaneId F) (frames : Dict LaneId (Payload F))
      → All (λ frame. IsProjected fps detected_at frame) frames
      → All (λ frame. IsUnread fps detected_at frame) frames
  projected-IsUnread fps detected_at [] h = tt
  projected-IsUnread fps detected_at (frame ∷ frames) (here, rest) =
      (inr here.1, projected-IsUnread fps detected_at frames rest)

  -- The last statistics of a lane that a detection stands behind.
  abbrev pub last_known : Stats F → LaneId → LaneStatistics F
  last_known authoritative lane = or_default (get lane authoritative) (no_statistics lane)

  perceive_lane_projected :
      (fps : F) (authoritative : Stats F) (lane : LaneId) (payload : Payload F) (acc : Perceived F)
      → IsProjected fps acc.detected_at (lane, payload)
      → perceive_lane fps authoritative lane payload acc
        ≡ record acc { lane_stats = put lane (last_known authoritative lane) acc.lane_stats }
  unfolding perceive_lane
  perceive_lane_projected fps authoritative lane payload acc (there, early) = rw (there, early) refl

  perceive-last_known :
      (fps : F) (authoritative : Stats F) (frames : Dict LaneId (Payload F)) (acc : Perceived F)
      (lane : LaneId)
      → All (λ frame. IsProjected fps acc.detected_at frame) frames
      → (contains lane frames ≡ true)
        ⊎ (get lane acc.lane_stats ≡ some (last_known authoritative lane))
      → get lane (perceive fps authoritative frames acc).lane_stats
        ≡ some (last_known authoritative lane)
  unfolding perceive
  perceive-last_known fps authoritative [] acc lane h (inl here) = cc
  perceive-last_known fps authoritative [] acc lane h (inr before) = before
  perceive-last_known fps authoritative ((k, payload) ∷ frames) acc lane (projects, rest) e =
      let v = last_known authoritative k in
      subst
        (λ a.
          get lane (perceive fps authoritative frames a).lane_stats
          ≡ some (last_known authoritative lane))
        (sym (perceive_lane_projected fps authoritative k payload acc projects))
        (perceive-last_known fps authoritative frames
          (record acc { lane_stats = put k v acc.lane_stats }) lane rest
          (elim (Bool-cases (beq k lane)) [
            | inl same ↦ inr (
                get-put k lane v acc.lane_stats
                ∙ rw same (ap (λ l. some (last_known authoritative l)) (beq→eq k lane same)))
            | inr apart ↦ elim e [
              | inl here ↦ inl (rw apart at here)
              | inr before ↦ inr (get-put k lane v acc.lane_stats ∙ rw apart before)
            ]
          ]))

  -- If all frames are of connected cameras and the detector is due for none of them, then the
  -- smoothed counts and their histories, the last statistics from a detection, and the times of the
  -- detections stay as they are, and each lane of the frames is decided by the last statistics from
  -- a detection of it, or by those of an empty lane if there are none.
  pub observe_projected :
      (fps : F) (now : ℕ) (frames : Dict LaneId (Payload F)) (p : Pipeline F)
      → All (λ frame. IsProjected fps p.last_detection_ts frame) frames
      → SameCounts p (observe fps now frames p).1
        × ((lane : LaneId)
            → contains lane frames ≡ true
            → get lane (observe fps now frames p).0
              ≡ some (last_known p.last_authoritative_stats lane))
  unfolding observe take_in stabilize
  observe_projected fps now frames p h =
      let start : Perceived F = record {
        lane_stats = [];
        observed = [];
        detected_at = p.last_detection_ts;
      } in
      let unread = projected-IsUnread fps p.last_detection_ts frames h in
      let seen = perceive fps p.last_authoritative_stats frames start in
      let (none_read, _) = perceive-KeepsSeen fps p.last_authoritative_stats frames start unread in
      (
        observe-SameCounts fps now frames p unread,
        λ lane there.
            ap (λ o. get lane (update (stabilize o p.count_stabilizer).0 seen.lane_stats)) none_read
            ∙ perceive-last_known fps p.last_authoritative_stats frames start lane h (inl there),
      )
