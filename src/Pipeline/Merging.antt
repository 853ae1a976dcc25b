-- ===== src/Pipeline/Merging.antt =====
-- Where the statistics that ai/pipeline/traffic_pipeline.py decides on come from.
use smart_traffic_management.Common.{Option, false, none, some, ℕ, ◌<◌, ◌≡◌, ◌≤◌, ◌⊎◌}
use smart_traffic_management.Common.Dict.{Dict, get}
use smart_traffic_management.Common.Float.{Float}
use smart_traffic_management.Pipeline.{Pipeline}
use smart_traffic_management.Pipeline.Gather.{unseen_ms}
use smart_traffic_management.Signal.Types.{LaneId, LaneStatistics, lane_id_eq_inst}

module _ {F : Type 0} ⦃fl : Float F⦄ where
  -- Statistics of no vehicles.
  pub record IsVacant (stats : LaneStatistics F) : Type 0 where
    pub no_live : stats.live_count ≡ 0
    pub no_raw : stats.raw_count ≡ 0
    pub no_priority : stats.has_priority_vehicle ≡ false

  -- Where the statistics of a lane come from.
  abbrev pub IsMerged :
      ℕ → LaneId → Option (LaneStatistics F) → Pipeline F → LaneStatistics F → Type 0
  IsMerged now lane observed p stats =
      (observed ≡ some stats)
      ⊎ ((observed ≡ none)
          × (get lane p.lane_stats_history ≡ some stats)
          × (unseen_ms now lane p ≤ 3000))
      ⊎ ((observed ≡ none)
          × ((get lane p.lane_stats_history ≡ none) ⊎ (3000 < unseen_ms now lane p))
          × IsVacant stats)
