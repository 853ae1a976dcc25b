-- ===== src/Pipeline/Gather.antt =====
-- The first half of a step of ai/pipeline/traffic_pipeline.py: which frames the detector reads, and
-- the statistics of all lanes that the signal decision sees.
use smart_traffic_management.Common.{
  Bool, List, Option, [], if◌then◌else◌, ltb, none, not, or_default, some, true, ℕ, ◌++◌, ◌-◌, ◌||◌,
  ◌∷◌,
}
use smart_traffic_management.Common.Dict.{Dict, get, keys, put, update}
use smart_traffic_management.Common.Float.{Float}
use smart_traffic_management.Intersection.{approach_names}
use smart_traffic_management.Pipeline.{Payload, Pipeline}
use smart_traffic_management.Signal.Types.{
  LaneId, LaneStatistics, Stats, lane_id_eq_inst, no_statistics,
}
use smart_traffic_management.Stabilizer.{stabilize}

-- `lane_stats_map`, `observed_stats_map` and `_last_detection_ts` while the frames are read.
pub record Perceived (F : Type 0) : Type 0 where
  pub lane_stats : Stats F
  pub observed : Stats F
  pub detected_at : Dict LaneId F

module _ {F : Type 0} ⦃fl : Float F⦄ where
  -- The time since the last detection is at least 1 / fps, or the clock went back.
  unfoldable pub detector_is_due : Option F → F → F → Bool
  detector_is_due none frame_ts detector_fps = true
  detector_is_due (some last) frame_ts detector_fps =
      fl.lt frame_ts last || not (fl.lt (fl.sub frame_ts last) (fl.div (fl.lit 100) detector_fps))

  -- The body of the loop over the frames.
  unfoldable pub perceive_lane : F → Stats F → LaneId → Payload F → Perceived F → Perceived F
  unfolding detector_is_due
  perceive_lane detector_fps authoritative lane payload acc =
      let due = detector_is_due (get lane acc.detected_at) payload.timestamp detector_fps in
      if not payload.connected
      then record acc { lane_stats = put lane (no_statistics lane) acc.lane_stats }
      else if due
      then record acc {
        lane_stats = put lane payload.observation acc.lane_stats;
        observed = put lane payload.observation acc.observed;
        detected_at = put lane payload.timestamp acc.detected_at;
      }
      else record acc {
        lane_stats =
            put lane (or_default (get lane authoritative) (no_statistics lane)) acc.lane_stats;
      }

  unfoldable pub perceive : F → Stats F → Dict LaneId (Payload F) → Perceived F → Perceived F
  perceive detector_fps authoritative [] acc = acc
  perceive detector_fps authoritative ((lane, payload) ∷ frames) acc =
      perceive detector_fps authoritative frames
        (perceive_lane detector_fps authoritative lane payload acc)

  -- Every lane of this step is seen now.
  unfoldable pub note_seen : ℕ → Stats F → Pipeline F → Pipeline F
  note_seen now_mono [] p = p
  note_seen now_mono ((lane, stats) ∷ rest) p = note_seen now_mono rest (record p {
    lane_stats_history = put lane stats p.lane_stats_history;
    lane_last_seen = put lane now_mono p.lane_last_seen;
  })

  -- What the detector observed is stabilised, and authoritative from now on.
  unfoldable pub take_in : Perceived F → Pipeline F → Stats F × Pipeline F
  unfolding stabilize
  take_in seen p =
      let (stabilized, c) = stabilize seen.observed p.count_stabilizer in
      (
        update stabilized seen.lane_stats,
        record p {
          count_stabilizer = c;
          last_detection_ts = seen.detected_at;
          last_authoritative_stats = update stabilized p.last_authoritative_stats;
        },
      )

  unfoldable pub observe : F → ℕ → Dict LaneId (Payload F) → Pipeline F → Stats F × Pipeline F
  unfolding perceive take_in note_seen
  observe detector_fps now_mono frames p =
      let start : Perceived F = record {
        lane_stats = [];
        observed = [];
        detected_at = p.last_detection_ts;
      } in
      let seen = perceive detector_fps p.last_authoritative_stats frames start in
      let (lane_stats, p') = take_in seen p in (lane_stats, note_seen now_mono lane_stats p')

  -- The time since a lane was last seen; a lane that never was counts as seen at 0.
  abbrev pub unseen_ms : ℕ → LaneId → Pipeline F → ℕ
  unseen_ms now_mono lane p = now_mono - or_default (get lane p.lane_last_seen) 0

  -- A lane that is not in the frames: what it was, or nothing after three seconds.
  abbrev pub recalled :
      ℕ → LaneId → Option (LaneStatistics F) → Pipeline F → LaneStatistics F × Pipeline F
  recalled now_mono lane none p = (no_statistics lane, p)
  recalled now_mono lane (some hist) p =
      let decayed = no_statistics hist.lane_name in
      if ltb 3000 (unseen_ms now_mono lane p)
      then (decayed, record p { lane_stats_history = put lane decayed p.lane_stats_history })
      else (hist, p)

  abbrev pub merge_lane :
      ℕ → LaneId → Option (LaneStatistics F) → Pipeline F → LaneStatistics F × Pipeline F
  merge_lane now_mono lane (some stats) p = (stats, p)
  merge_lane now_mono lane none p = recalled now_mono lane (get lane p.lane_stats_history) p

  -- The loop over `all_known_lanes`, which builds `all_intersection_lanes`.
  unfoldable pub merge_lanes :
      ℕ → Stats F → List LaneId → Stats F → Pipeline F → Stats F × Pipeline F
  merge_lanes now_mono lane_stats [] acc p = (acc, p)
  merge_lanes now_mono lane_stats (lane ∷ lanes) acc p =
      let (stats, p') = merge_lane now_mono lane (get lane lane_stats) p in
      merge_lanes now_mono lane_stats lanes (put lane stats acc) p'

  abbrev pub known_lanes : Stats F → Pipeline F → List LaneId
  known_lanes lane_stats p = keys lane_stats ++ keys p.lane_stats_history ++ approach_names

  -- `order` lists the elements of a set in the order in which Python goes through it.
  unfoldable pub gather :
      F
      → (List LaneId → List LaneId)
      → ℕ
      → Dict LaneId (Payload F)
      → Pipeline F
      → Stats F × Pipeline F
  unfolding observe merge_lanes
  gather detector_fps order now_mono frames p =
      let (lane_stats, p') = observe detector_fps now_mono frames p in
      merge_lanes now_mono lane_stats (order (known_lanes lane_stats p')) [] p'
