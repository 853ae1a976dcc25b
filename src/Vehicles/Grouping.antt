-- ===== src/Vehicles/Grouping.antt =====
-- The vehicles of ai/state/vehicle_state_manager.py by lane: all that are alive, and the confirmed.
use mathlib.Core.List.{append-nil, append_assoc}
use smart_traffic_management.Common.{
  Bool, Bool-cases, List, [], ap, false, filter, if◌then◌else◌, inl, inr, or_default, refl, some,
  sym, true, ◌&&◌, ◌++◌, ◌∙◌, ◌∷◌, ◌≡◌, ◌⊎◌,
}
use smart_traffic_management.Common.Dict.{Dict, get, get-put, put, values}
use smart_traffic_management.Common.Equality.{beq, beq→eq}
use smart_traffic_management.Signal.Types.{LaneId, lane_id_eq_inst}
use smart_traffic_management.Vehicles.{VehicleState, VehicleStateManager}

module _ {F : Type 0} where
  abbrev pub is_present : VehicleState F → Bool
  is_present s = s.is_alive

  abbrev pub is_evident : VehicleState F → Bool
  is_evident s = s.is_alive && s.is_confirmed

  -- `grouped[lane].append(state)`, with an empty list for a new lane
  abbrev pub append_state :
      VehicleState F → Dict LaneId (List (VehicleState F)) → Dict LaneId (List (VehicleState F))
  append_state s grouped = put s.lane (or_default (get s.lane grouped) [] ++ s ∷ []) grouped

  unfoldable pub group_vehicles :
      (VehicleState F → Bool)
      → List (VehicleState F)
      → Dict LaneId (List (VehicleState F))
      → Dict LaneId (List (VehicleState F))
  group_vehicles keep [] grouped = grouped
  group_vehicles keep (s ∷ rest) grouped =
      group_vehicles keep rest (if keep s then append_state s grouped else grouped)

  unfoldable pub get_active_vehicles_by_lane :
      VehicleStateManager F → Dict LaneId (List (VehicleState F))
  unfolding group_vehicles
  get_active_vehicles_by_lane m = group_vehicles is_present (values m.active_states) []

  unfoldable pub get_confirmed_vehicles_by_lane :
      VehicleStateManager F → Dict LaneId (List (VehicleState F))
  unfolding group_vehicles
  get_confirmed_vehicles_by_lane m = group_vehicles is_evident (values m.active_states) []

  -- The list of a lane, empty where there is none.
  abbrev pub grouped_under : LaneId → Dict LaneId (List (VehicleState F)) → List (VehicleState F)
  grouped_under lane grouped = or_default (get lane grouped) []

  abbrev pub stands_in : (VehicleState F → Bool) → LaneId → VehicleState F → Bool
  stands_in keep lane s = keep s && beq s.lane lane

  under_append :
      (lane : LaneId) (s : VehicleState F) (grouped : Dict LaneId (List (VehicleState F)))
      → grouped_under lane (append_state s grouped) ≡ (
          if beq s.lane lane
          then grouped_under lane grouped ++ s ∷ []
          else grouped_under lane grouped)
  under_append lane s grouped =
      ap (λ o. or_default o [])
        (get-put s.lane lane (or_default (get s.lane grouped) [] ++ s ∷ []) grouped)
      ∙ by_cases (Bool-cases (beq s.lane lane))
    where
      by_cases :
          (beq s.lane lane ≡ true) ⊎ (beq s.lane lane ≡ false)
          → or_default
              (if beq s.lane lane
                then some (or_default (get s.lane grouped) [] ++ s ∷ [])
                else get lane grouped)
              []
            ≡ (if beq s.lane lane
                then grouped_under lane grouped ++ s ∷ []
                else grouped_under lane grouped)
      by_cases (inl same) =
          let key : s.lane ≡ lane = beq→eq s.lane lane same in
          rw same (ap (λ k. or_default (get k grouped) [] ++ s ∷ []) key)
      by_cases (inr apart) = rw apart refl

  group_vehicles-filter :
      (keep : VehicleState F → Bool) (lane : LaneId) (states : List (VehicleState F))
      (grouped : Dict LaneId (List (VehicleState F)))
      → grouped_under lane (group_vehicles keep states grouped)
        ≡ grouped_under lane grouped ++ filter (stands_in keep lane) states
  unfolding group_vehicles
  group_vehicles-filter keep lane [] grouped = sym (append-nil (grouped_under lane grouped))
  group_vehicles-filter keep lane (s ∷ rest) grouped = elim (Bool-cases (keep s)) [
    | inr dropped ↦ rw dropped (group_vehicles-filter keep lane rest grouped)
    | inl kept ↦ elim (Bool-cases (beq s.lane lane)) [
      | inl same ↦
          rw (kept, same)
            (group_vehicles-filter keep lane rest (append_state s grouped)
              ∙ ap (λ l. l ++ filter (stands_in keep lane) rest)
                  (under_append lane s grouped ∙ rw same refl)
              ∙ append_assoc (grouped_under lane grouped) (s ∷ [])
                  (filter (stands_in keep lane) rest))
      | inr apart ↦
          rw (kept, apart)
            (group_vehicles-filter keep lane rest (append_state s grouped)
              ∙ ap (λ l. l ++ filter (stands_in keep lane) rest)
                  (under_append lane s grouped ∙ rw apart refl))
    ]
  ]

  -- The groups hold exactly the vehicles that are alive, and of these exactly the confirmed ones,
  -- each under its lane, in the order in which they are tracked.
  pub vehicles_by_lane :
      (m : VehicleStateManager F) (lane : LaneId)
      → (grouped_under lane (get_active_vehicles_by_lane m)
          ≡ filter (stands_in is_present lane) (values m.active_states))
        × (grouped_under lane (get_confirmed_vehicles_by_lane m)
            ≡ filter (stands_in is_evident lane) (values m.active_states))
  unfolding get_active_vehicles_by_lane get_confirmed_vehicles_by_lane
  vehicles_by_lane m lane = (
    group_vehicles-filter is_present lane (values m.active_states) [],
    group_vehicles-filter is_evident lane (values m.active_states) [],
  )
