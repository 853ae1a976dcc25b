-- ===== src/Tests/Stabilizer.antt =====
-- ai/state/count_stabilizer.py at concrete inputs, over floats that are hundredths.
use smart_traffic_management.Common.{List, [], refl, ℕ, ◌∷◌, ◌≡◌}
use smart_traffic_management.Common.Dict.{Dict}
use smart_traffic_management.Common.Float.{hundredths}
use smart_traffic_management.Intersection.{approach_names}
use smart_traffic_management.Signal.Types.{
  Lane, LaneId, LaneStatistics, approach, lane_id_eq_inst, no_statistics, north, south,
}
use smart_traffic_management.Stabilizer.{CountStabilizer, bounded, history_of, new_stabilizer}
use smart_traffic_management.Stabilizer.History.{counts_of, history-stabilize_all, stabilize_all}

abbrev count_frame : Lane → ℕ → Dict LaneId (LaneStatistics ℕ)
count_frame lane count =
    (approach lane, record (no_statistics (approach lane)) { live_count = count }) ∷ []

abbrev three_frames : List (Dict LaneId (LaneStatistics ℕ))
three_frames = count_frame north 4 ∷ count_frame south 7 ∷ count_frame north 9 ∷ []

abbrev stabilizer : CountStabilizer LaneId ℕ
stabilizer = new_stabilizer approach_names 40 1

history-stabilize_all_example :
    history_of (stabilize_all three_frames stabilizer) (approach north)
    ≡ bounded 1 (counts_of (approach north) three_frames)
history-stabilize_all_example =
    history-stabilize_all (approach north) approach_names 40 1 three_frames
      ((refl, tt), ((refl, tt), ((refl, tt), tt)))

last_count_is_kept : counts_of (approach north) three_frames ≡ 4 ∷ 9 ∷ []
last_count_is_kept = refl

abbrev decided : List LaneId
decided = approach north ∷ approach north ∷ approach south ∷ []
