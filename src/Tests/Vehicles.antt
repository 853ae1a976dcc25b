-- ===== src/Tests/Vehicles.antt =====
-- ai/state/vehicle_state_manager.py and ai/analytics/ at concrete inputs, over floats that are
-- hundredths.
use smart_traffic_management.Analytics.{AnalyticsConfig, generate_stats, lane_statistics}
use smart_traffic_management.Analytics.Counting.{Describes, generate_stats-Describes}
use smart_traffic_management.Common.{
  Bool, List, Option, [], any, false, filter, none, not, or_default, refl, some, true, ℕ, ◌&&◌, ◌∷◌,
  ◌≡◌, ◌≤◌, ◌↔◌, ◌⊎◌,
}
use smart_traffic_management.Common.Dict.{get, values}
use smart_traffic_management.Common.Equality.{beq, nat_eq}
use smart_traffic_management.Common.Float.{hundredths, pos}
use smart_traffic_management.Signal.Types.{LaneStatistics, approach, lane_id_eq_inst, north}
use smart_traffic_management.Vehicles.{
  Centroid, Detection, ObservationState, VehicleState, VehicleStateManager, in_lane, new_manager,
  new_state, observe_again, observed, predicted,
}
use smart_traffic_management.Vehicles.Grouping.{
  get_active_vehicles_by_lane, get_confirmed_vehicles_by_lane, group_vehicles, grouped_under,
  is_evident, is_present, stands_in, vehicles_by_lane,
}
use smart_traffic_management.Vehicles.Invariant.{update_all}
use smart_traffic_management.Vehicles.Observed.{IsObserved, update_vehicles-IsKnown}
use smart_traffic_management.Vehicles.Replay.{sightings, summary}
use smart_traffic_management.Vehicles.Sightings.{update_all-sightings}
use smart_traffic_management.Vehicles.Update.{
  count_track, current_ids, observe_track, purge_stale, update_tracks, update_vehicles,
}

abbrev no_distance : Centroid → Centroid → ℕ
no_distance a b = 0

abbrev car : ℕ → ObservationState → Detection ℕ
car tid kind = record {
  track_id = some tid;
  class_name = "car";
  lane = some (approach north);
  centroid = (pos 10, pos 20);
  observation_type = kind;
  motion_px_sec = 0;
  time_in_lane_sec = 0;
  queue_time_sec = 0;
  is_priority = false;
}

-- Car 7 is observed twice and then projected; car 8 is observed once.
abbrev three_frames : List (List (Detection ℕ) × ℕ × ℕ)
three_frames =
    (car 7 observed ∷ [], 1, 100)
    ∷ (car 7 observed ∷ car 8 observed ∷ [], 2, 150)
    ∷ (car 7 predicted ∷ [], 3, 200)
    ∷ []

abbrev after_three : VehicleStateManager ℕ
after_three = update_all no_distance three_frames new_manager

updates : Unit {0}
unfolding update_vehicles update_tracks observe_track observe_again in_lane purge_stale current_ids
    count_track generate_stats lane_statistics get_confirmed_vehicles_by_lane group_vehicles
updates = tt

abbrev confirmed_of : Option (VehicleState ℕ) → Bool
confirmed_of none = false
confirmed_of (some s) = s.is_confirmed && not s.is_alive

seven_is_confirmed_and_lost : confirmed_of (get 7 after_three.active_states) ≡ true
unfolding updates
seven_is_confirmed_and_lost = refl

seven_state : (s : VehicleState ℕ) × (get 7 after_three.active_states ≡ some s)
unfolding updates
seven_state = (
  or_default (get 7 after_three.active_states)
      (new_state 7 (approach north) (car 7 observed) 1 100),
  refl,
)

update_all-sightings_example :
    (summary (get 7 (update_all no_distance three_frames new_manager).active_states)
      ≡ sightings 7 three_frames none)
    × ((s : VehicleState ℕ)
        → get 7 (update_all no_distance three_frames new_manager).active_states ≡ some s
        → (s.is_confirmed ≡ true) ↔ (2 ≤ s.consecutive_seen_frames))
update_all-sightings_example = update_all-sightings no_distance three_frames 7

abbrev fourth : List (Detection ℕ)
fourth = car 9 observed ∷ car 7 predicted ∷ []

nine_is_current : any (beq 9) (current_ids fourth) ≡ true
unfolding updates
nine_is_current = refl

eight_state :
    (s : VehicleState ℕ) × (get 8
        (update_vehicles no_distance fourth 4 210 after_three).1.active_states
      ≡ some s)
unfolding updates
eight_state = (
  or_default (get 8 (update_vehicles no_distance fourth 4 210 after_three).1.active_states)
      (new_state 8 (approach north) (car 8 observed) 1 100),
  refl,
)

update_vehicles-IsKnown_example :
    IsObserved fourth 8
    ⊎ ((eight_state.0.is_alive ≡ false)
        × (hundredths.lt 180 (hundredths.sub 210 eight_state.0.last_seen_timestamp) ≡ false))
update_vehicles-IsKnown_example =
    update_vehicles-IsKnown no_distance fourth 4 210 after_three 8 eight_state.0 eight_state.1

vehicles_by_lane_example :
    (grouped_under (approach north) (get_active_vehicles_by_lane after_three)
      ≡ filter (stands_in is_present (approach north)) (values after_three.active_states))
    × (grouped_under (approach north) (get_confirmed_vehicles_by_lane after_three)
        ≡ filter (stands_in is_evident (approach north)) (values after_three.active_states))
vehicles_by_lane_example = vehicles_by_lane after_three (approach north)

abbrev analytics : AnalyticsConfig ℕ
analytics = record {
  lower = λ s. s;
  pce_weights = ("car", 100) ∷ ("bus", 150) ∷ [];
  congestion_weights = [];
  density_thresholds = [];
}

abbrev two_confirmed : VehicleStateManager ℕ
two_confirmed =
    update_all no_distance
      ((car 7 observed ∷ car 8 observed ∷ [], 1, 100)
        ∷ (car 7 observed ∷ car 8 observed ∷ [], 2, 150)
        ∷ [])
      new_manager

abbrev live_of : Option (LaneStatistics ℕ) → ℕ
live_of none = 0
live_of (some stats) = stats.live_count

two_are_live : live_of (get (approach north) (generate_stats analytics two_confirmed)) ≡ 2
unfolding updates
two_are_live = refl

generate_stats-Describes_example :
    (stats : LaneStatistics ℕ) × (get (approach north) (generate_stats analytics two_confirmed)
      ≡ some stats)
    × Describes stats
        (filter (stands_in is_evident (approach north)) (values two_confirmed.active_states))
generate_stats-Describes_example = generate_stats-Describes analytics two_confirmed north
