-- ===== src/Signal/Controller.antt =====
-- ai/signal/signal_controller.py: hardware commands with their own phase numbers. `str()` of a
-- member of `LaneName` is no lane's name, so `green_lane` and `red_lanes` come through as they are.
use smart_traffic_management.Common.{ℕ, ◌+◌, ◌≡◌, refl, ap, List, [], ◌∷◌, map}
use smart_traffic_management.Signal.Types.{SignalDecision, HardwareCommand}

pub record SignalController : Type 0 where
  pub phase_counter : ℕ

module _ {F : Type 0} where
  -- A decision of None raises `ValueError`; the callers always have one.
  unfoldable pub generate_command :
      SignalDecision F → SignalController → HardwareCommand F × SignalController
  generate_command decision c =
      let phase = c.phase_counter + 1 in
      (
        record {
          phase_id = phase;
          green_lane = decision.green_lane;
          green_duration_sec = decision.green_duration_sec;
          yellow_duration_sec = decision.yellow_duration_sec;
          red_lanes = decision.red_lanes;
          priority_score = decision.priority_score;
          reason = decision.reason;
          timestamp = decision.timestamp;
        },
        record c { phase_counter = phase },
      )

  -- The commands for successive decisions.
  pub generate_all : List (SignalDecision F) → SignalController → List (HardwareCommand F)
  generate_all [] c = []
  generate_all (d ∷ ds) c = let (cmd, c') = generate_command d c in cmd ∷ generate_all ds c'

  abbrev pub numbers_from : ℕ → List (SignalDecision F) → List ℕ
  numbers_from n [] = []
  numbers_from n (d ∷ ds) = n ∷ numbers_from (n + 1) ds

  -- The commands of one controller are numbered one after the other, and each lights the lanes of
  -- its decision for the decision's durations.
  pub generate_all_numbered :
      (ds : List (SignalDecision F)) (c : SignalController)
      → (map (λ x. HardwareCommand.phase_id x) (generate_all ds c)
          ≡ numbers_from (c.phase_counter + 1) ds)
        × (map (λ x. HardwareCommand.green_lane x) (generate_all ds c)
            ≡ map (λ x. SignalDecision.green_lane x) ds)
        × (map (λ x. HardwareCommand.red_lanes x) (generate_all ds c)
            ≡ map (λ x. SignalDecision.red_lanes x) ds)
        × (map (λ x. HardwareCommand.green_duration_sec x) (generate_all ds c)
            ≡ map (λ x. SignalDecision.green_duration_sec x) ds)
  unfolding generate_all generate_command
  generate_all_numbered [] c = (refl, refl, refl, refl)
  generate_all_numbered (d ∷ ds) c =
      let (ids, green, red, time) =
        generate_all_numbered ds (record c { phase_counter = c.phase_counter + 1 }) in
      (
        ap (◌∷◌ (c.phase_counter + 1)) ids,
        ap (◌∷◌ d.green_lane) green,
        ap (◌∷◌ d.red_lanes) red,
        ap (◌∷◌ d.green_duration_sec) time,
      )
