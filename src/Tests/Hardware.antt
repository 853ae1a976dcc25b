-- ===== src/Tests/Hardware.antt =====
-- ai/hardware/esp32_interface.py and ai/controller/control_manager.py at concrete inputs.
use smart_traffic_management.Common.{List, [], false, none, refl, some, true, ℕ, ◌∷◌, ◌≡◌}
use smart_traffic_management.Hardware.{
  Esp32Interface, answered, close, connect, hardware_is_safe_to_run, new_interface, opened, raised,
  reconnect, refused, send_command,
}
use smart_traffic_management.Hardware.Control.{
  ControlState, IsSafeReport, process_result, process_result-IsSafeReport,
}
use smart_traffic_management.Hardware.Connecting.{IsHonest}
use smart_traffic_management.Hardware.History.{
  Call, perform_all, perform_all-new_interface-IsHonest, reconnects, sends,
}
use smart_traffic_management.Intersection.{green}
use smart_traffic_management.Pipeline.{PipelineResult}
use smart_traffic_management.Signal.Controller.{generate_command}
use smart_traffic_management.Signal.Types.{SignalDecision, approach, normal, north}

abbrev real_port : Esp32Interface ℕ
real_port = new_interface (some "COM3") false (opened true)

hardware_calls : Unit {0}
unfolding new_interface connect reconnect send_command close process_result hardware_is_safe_to_run
hardware_calls = tt

-- A write that raises.
cable_pulled : (send_command (raised "unplugged") 100 real_port).0 ≡ false
unfolding hardware_calls
cable_pulled = refl

port_is_usable : hardware_is_safe_to_run real_port.status ≡ true
unfolding hardware_calls
port_is_usable = refl

abbrev some_calls : List (Call ℕ)
some_calls =
    sends (raised "unplugged") 100 ∷ reconnects (opened true) ∷ sends (answered "OK") 200 ∷ []

perform_all-new_interface-IsHonest_example :
    IsHonest (perform_all some_calls (new_interface (some "COM3") false (refused "busy")))
perform_all-new_interface-IsHonest_example =
    perform_all-new_interface-IsHonest (some "COM3") false (refused "busy") some_calls

abbrev decided_north : SignalDecision ℕ
decided_north = record {
  phase_id = 1;
  green_lane = approach north;
  green_duration_sec = 19;
  yellow_duration_sec = 3;
  red_lanes = [];
  priority_score = 180;
  reason = normal;
  timestamp = 1000;
}

abbrev green_result : PipelineResult ℕ
green_result = record {
  has_frame = true;
  lane_stats = [];
  priority_result = none;
  signal_decision = some decided_north;
  hardware_command = some (generate_command decided_north (record { phase_counter = 0 })).0;
  remaining_green_sec = 19;
  signal_state = green;
  is_phase_change = true;
}

abbrev running_control : ControlState ℕ
running_control = record { esp32_interface = real_port; system_running = true }

process_result-IsSafeReport_example :
    IsSafeReport
      (raised "unplugged")
      green_result
      running_control
      (process_result (raised "unplugged") 100 green_result running_control)
process_result-IsSafeReport_example =
    process_result-IsSafeReport (raised "unplugged") 100 green_result running_control refl
