-- ===== src/Analytics.antt =====
-- ai/analytics/: the statistics of the lanes from the confirmed vehicles. `str.lower` is the
-- argument `lower`.
use smart_traffic_management.Common.{
  Bool, List, Option, String, [], any, false, if◌then◌else◌, length, map, none, or_default, some, ℕ,
  ◌&&◌, ◌+◌, ◌||◌, ◌∷◌,
}
use smart_traffic_management.Common.Dict.{Dict, get, put}
use smart_traffic_management.Common.Equality.{string_eq}
use smart_traffic_management.Common.Float.{Float, fl_zero, of_ℕ, sum_from}
use smart_traffic_management.Signal.Types.{
  Density, LaneId, LaneStatistics, Stats, approach, congested, east, high, lane_id_eq_inst, low,
  medium, north, south, west,
}
use smart_traffic_management.Vehicles.{VehicleState, VehicleStateManager}
use smart_traffic_management.Vehicles.Grouping.{get_confirmed_vehicles_by_lane, grouped_under}
pub mod Counting
pub mod Levels

-- The result of `OccupancyAnalyzer.analyze`.
pub record Occupancy (F : Type 0) : Type 0 where
  pub counts : Dict String ℕ
  pub total_live : ℕ
  pub pce_score : F

-- The result of `CongestionAnalyzer.analyze`.
pub record Congestion (F : Type 0) : Type 0 where
  pub stopped_count : ℕ
  pub total_queue_time_sec : F
  pub max_queue_time_sec : F
  pub avg_motion_px_sec : F
  pub congestion_index : F
  pub density : Density
  pub has_priority_vehicle : Bool

-- What the analyzers are configured with.
pub record AnalyticsConfig (F : Type 0) : Type 0 where
  pub lower : String → String
  pub pce_weights : Dict String F
  pub congestion_weights : Dict String F
  pub density_thresholds : Dict String F

abbrev pub no_counts : Dict String ℕ
no_counts = ("car", 0) ∷ ("bus", 0) ∷ ("truck", 0) ∷ ("motorcycle", 0) ∷ ("bicycle", 0) ∷ []

-- `counts[category] += 1`, from 1 where it is missing
abbrev pub count_one : String → Option ℕ → Dict String ℕ → Dict String ℕ
count_one category none counts = put category 1 counts
count_one category (some n) counts = put category (n + 1) counts

unfoldable pub count_all : List String → Dict String ℕ → Dict String ℕ
count_all [] counts = counts
count_all (category ∷ rest) counts =
    count_all rest (count_one category (get category counts) counts)

-- `all_lanes`
abbrev pub all_lanes : List LaneId
all_lanes = approach north ∷ approach south ∷ approach east ∷ approach west ∷ []

module _ {F : Type 0} ⦃fl : Float F⦄ where
  abbrev pub categories : (String → String) → List (VehicleState F) → List String
  categories lower vehicles = map (λ s. lower (VehicleState.class_name s)) vehicles

  unfoldable pub analyze_occupancy : AnalyticsConfig F → List (VehicleState F) → Occupancy F
  unfolding count_all
  analyze_occupancy config vehicles =
      let names = categories config.lower vehicles in
      record {
        counts = count_all names no_counts;
        total_live = length vehicles;
        pce_score = fl.round2 (
            sum_from fl_zero
              (map (λ name. or_default (get name config.pce_weights) (fl.lit 100)) names));
      }

  abbrev pub is_stopped : VehicleState F → Bool
  is_stopped s = s.is_queued || fl.lt fl_zero s.queue_time_sec

  -- `stopped_count`, `total_queue_time`, `max_queue_time` in the loop over the vehicles
  unfoldable pub count_stopped : List (VehicleState F) → ℕ
  count_stopped [] = 0
  count_stopped (s ∷ rest) =
      let others = count_stopped rest in if is_stopped s then others + 1 else others

  unfoldable pub sum_queue_time : F → List (VehicleState F) → F
  sum_queue_time total [] = total
  sum_queue_time total (s ∷ rest) =
      sum_queue_time (if is_stopped s then fl.add total s.queue_time_sec else total) rest

  unfoldable pub longest_queue_time : F → List (VehicleState F) → F
  longest_queue_time longest [] = longest
  longest_queue_time longest (s ∷ rest) =
      longest_queue_time
        (if is_stopped s && fl.lt longest s.queue_time_sec then s.queue_time_sec else longest) rest

  unfoldable pub classify_density : Dict String F → F → Density
  classify_density thresholds index =
      if fl.lt index (or_default (get "LOW" thresholds) (fl.lit 800))
      then low
      else if fl.lt index (or_default (get "MEDIUM" thresholds) (fl.lit 1800))
      then medium
      else if fl.lt index (or_default (get "HIGH" thresholds) (fl.lit 3000))
      then high
      else congested

  unfoldable pub congestion_index : Dict String F → F → F → ℕ → F
  congestion_index weights pce_score total_queue_time stopped =
      fl.add
        (fl.add (fl.mul (or_default (get "pce" weights) (fl.lit 100)) pce_score)
          (fl.mul (or_default (get "queue_time" weights) (fl.lit 20)) total_queue_time))
        (fl.mul (or_default (get "stopped" weights) (fl.lit 500)) (of_ℕ stopped))

  abbrev pub no_congestion : Congestion F
  no_congestion = record {
    stopped_count = 0;
    total_queue_time_sec = fl_zero;
    max_queue_time_sec = fl_zero;
    avg_motion_px_sec = fl_zero;
    congestion_index = fl_zero;
    density = low;
    has_priority_vehicle = false;
  }

  unfoldable pub analyze_congestion : AnalyticsConfig F → List (VehicleState F) → F → Congestion F
  unfolding count_stopped sum_queue_time longest_queue_time classify_density congestion_index
  analyze_congestion config [] pce_score = no_congestion
  analyze_congestion config (s ∷ rest) pce_score =
      let vehicles = s ∷ rest in
      let stopped = count_stopped vehicles in
      let total_queue_time = sum_queue_time fl_zero vehicles in
      let index = congestion_index config.congestion_weights pce_score total_queue_time stopped in
      let motion = sum_from fl_zero (map (λ v. VehicleState.motion_px_sec v) vehicles) in
      record {
        stopped_count = stopped;
        total_queue_time_sec = fl.round1 total_queue_time;
        max_queue_time_sec = fl.round1 (longest_queue_time fl_zero vehicles);
        avg_motion_px_sec = fl.round2 (fl.div motion (of_ℕ (length vehicles)));
        congestion_index = fl.round2 index;
        density = classify_density config.density_thresholds index;
        has_priority_vehicle = any (λ v. VehicleState.is_priority v) vehicles;
      }

  -- One lane, from its vehicles and the tracks that were ever confirmed in it.
  unfoldable pub lane_statistics :
      AnalyticsConfig F → LaneId → List (VehicleState F) → ℕ → LaneStatistics F
  unfolding analyze_occupancy analyze_congestion
  lane_statistics config lane vehicles historical =
      let occ = analyze_occupancy config vehicles in
      let cong = analyze_congestion config vehicles occ.pce_score in
      record {
        lane_name = lane;
        live_count = occ.total_live;
        pce_score = occ.pce_score;
        stopped_count = cong.stopped_count;
        total_queue_time_sec = cong.total_queue_time_sec;
        max_queue_time_sec = cong.max_queue_time_sec;
        avg_motion_px_sec = cong.avg_motion_px_sec;
        congestion_index = cong.congestion_index;
        density = cong.density;
        historical_count = historical;
        has_priority_vehicle = cong.has_priority_vehicle;
        vehicle_breakdown = occ.counts;
        raw_count = occ.total_live;
        smoothed_count = fl_zero;
      }

  abbrev pub stats_of_lane : AnalyticsConfig F → VehicleStateManager F → LaneId → LaneStatistics F
  stats_of_lane config m lane =
      lane_statistics config lane (grouped_under lane (get_confirmed_vehicles_by_lane m))
        (length (or_default (get lane m.historical_tracks_count) []))

  unfoldable pub generate_stats : AnalyticsConfig F → VehicleStateManager F → Stats F
  unfolding lane_statistics get_confirmed_vehicles_by_lane
  generate_stats config m = map (λ lane. (lane, stats_of_lane config m lane)) all_lanes
