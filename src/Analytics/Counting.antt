-- ===== src/Analytics/Counting.antt =====
-- The counts of the statistics of ai/analytics/analytics_exporter.py.
use mathlib.Core.Path.{subst}
use smart_traffic_management.Analytics.{
  AnalyticsConfig, analyze_congestion, analyze_occupancy, categories, count_all, count_one,
  count_stopped, generate_stats, lane_statistics, no_counts, stats_of_lane,
}
use smart_traffic_management.Common.{
  Bool-cases, List, Option, String, [], any, arith, filter, inl, inr, length, length-map, none,
  or_default, refl, some, ℕ, ◌+◌, ◌∷◌, ◌≡◌, ◌≤◌,
}
use smart_traffic_management.Common.Dict.{Dict, get, put, values}
use smart_traffic_management.Common.Equality.{beq, string_eq}
use smart_traffic_management.Common.Float.{Float}
use smart_traffic_management.Signal.Types.{
  Lane, LaneId, LaneStatistics, approach, east, lane_id_eq_inst, north, south, west,
}
use smart_traffic_management.Vehicles.{VehicleState, VehicleStateManager}
use smart_traffic_management.Vehicles.Grouping.{
  get_confirmed_vehicles_by_lane, grouped_under, is_evident, stands_in, vehicles_by_lane,
}

abbrev pub sum_counts : Dict String ℕ → ℕ
sum_counts [] = 0
sum_counts ((k, n) ∷ d) = n + sum_counts d

sum_counts-put :
    (k : String) (n : ℕ) (d : Dict String ℕ)
    → sum_counts (put k n d) + or_default (get k d) 0 ≡ sum_counts d + n
sum_counts-put k n [] = omega arith
sum_counts-put k n ((j, m) ∷ d) = elim (Bool-cases (beq j k)) [
  | inl same ↦ rw same (omega arith)
  | inr apart ↦ rw apart (omega (arith, sum_counts-put k n d))
]

sum_counts-count_one :
    (k : String) (o : Option ℕ) (d : Dict String ℕ)
    → get k d ≡ o
    → sum_counts (count_one k o d) ≡ sum_counts d + 1
sum_counts-count_one k none d g = let t = sum_counts-put k 1 d in omega (arith, rw g at t)
sum_counts-count_one k (some n) d g = let t = sum_counts-put k (n + 1) d in omega (arith, rw g at t)

sum_counts-count_all :
    (names : List String) (d : Dict String ℕ)
    → sum_counts (count_all names d) ≡ sum_counts d + length names
unfolding count_all
sum_counts-count_all [] d = omega arith
sum_counts-count_all (k ∷ names) d = omega (
  arith,
  sum_counts-count_all names (count_one k (get k d) d),
  sum_counts-count_one k (get k d) d refl,
)

module _ {F : Type 0} ⦃fl : Float F⦄ where
  count_stopped_le : (vehicles : List (VehicleState F)) → count_stopped vehicles ≤ length vehicles
  unfolding count_stopped
  count_stopped_le [] = omega arith
  count_stopped_le (s ∷ rest) = ground (arith, count_stopped_le rest)

  -- The statistics that describe a list of vehicles.
  pub record Describes (stats : LaneStatistics F) (vehicles : List (VehicleState F)) : Type 0 where
    pub live : stats.live_count ≡ length vehicles
    pub raw : stats.raw_count ≡ length vehicles
    pub stopped : stats.stopped_count ≤ length vehicles
    pub breakdown : sum_counts stats.vehicle_breakdown ≡ length vehicles
    pub priority : stats.has_priority_vehicle ≡ any (λ s. VehicleState.is_priority s) vehicles

  stopped-analyze_congestion :
      (config : AnalyticsConfig F) (vehicles : List (VehicleState F)) (pce : F)
      → ((analyze_congestion config vehicles pce).stopped_count ≤ length vehicles)
        × ((analyze_congestion config vehicles pce).has_priority_vehicle
            ≡ any (λ s. VehicleState.is_priority s) vehicles)
  unfolding analyze_congestion
  stopped-analyze_congestion config [] pce = (omega arith, refl)
  stopped-analyze_congestion config (s ∷ rest) pce = (count_stopped_le (s ∷ rest), refl)

  lane_statistics-Describes :
      (config : AnalyticsConfig F) (lane : LaneId) (vehicles : List (VehicleState F)) (n : ℕ)
      → Describes (lane_statistics config lane vehicles n) vehicles
  unfolding lane_statistics analyze_occupancy
  lane_statistics-Describes config lane vehicles n =
      let names = categories config.lower vehicles in
      let (few, urgent_there) =
        stopped-analyze_congestion config vehicles (analyze_occupancy config vehicles).pce_score in
      record {
        live = refl;
        raw = refl;
        stopped = few;
        breakdown = omega (
          arith,
          sum_counts-count_all names no_counts,
          length-map (λ s. config.lower (VehicleState.class_name s)) vehicles,
        );
        priority = urgent_there;
      }

  -- The statistics of each of the four lanes count exactly the vehicles of the lane that are alive
  -- and confirmed: they are the live and the raw count, the breakdown by class adds up to them, the
  -- stopped ones are no more, and there is a priority vehicle exactly if one of them is one.
  pub generate_stats-Describes :
      (config : AnalyticsConfig F) (m : VehicleStateManager F) (lane : Lane)
      → (stats : LaneStatistics F) × (get (approach lane) (generate_stats config m) ≡ some stats)
        × Describes stats (filter (stands_in is_evident (approach lane)) (values m.active_states))
  unfolding generate_stats
  generate_stats-Describes config m lane = (
    stats_of_lane config m (approach lane),
    listed lane,
    subst (λ l. Describes (stats_of_lane config m (approach lane)) l)
        (vehicles_by_lane m (approach lane)).1
        (lane_statistics-Describes config (approach lane)
          (grouped_under (approach lane) (get_confirmed_vehicles_by_lane m))
          (length (or_default (get (approach lane) m.historical_tracks_count) []))),
  )
    where
      listed :
          (l : Lane)
          → get (approach l) (generate_stats config m) ≡ some (stats_of_lane config m (approach l))
      listed north = refl
      listed south = refl
      listed east = refl
      listed west = refl
