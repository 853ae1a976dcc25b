-- ===== src/Hardware/Control.antt =====
-- `ControlManager.process_result` of ai/controller/control_manager.py. The logs and the dashboard are
-- left out.
use mathlib.Core.Path.{subst}
use smart_traffic_management.Common.{
  Bool, false, inl, inr, is_some, refl, sym, true, ◌&&◌, ◌≡◌, ◌⊎◌,
}
use smart_traffic_management.Hardware.{Esp32Interface, SendReply, send_command}
use smart_traffic_management.Hardware.Sending.{IsClosed, IsSent, send_command_fails-IsClosed}
use smart_traffic_management.Intersection.{all_red}
use smart_traffic_management.Pipeline.{PipelineResult}

-- The control manager with `system_running` of the application context.
pub record ControlState (F : Type 0) : Type 0 where
  pub esp32_interface : Esp32Interface F
  pub system_running : Bool

module _ {F : Type 0} where
  -- A command that was not transmitted stops the runtime, and the result says all red.
  abbrev pub after_sending :
      Bool × Esp32Interface F
      → PipelineResult F
      → ControlState F
      → PipelineResult F × ControlState F
  after_sending (true, i) result c = (result, record c { esp32_interface = i })
  after_sending (false, i) result c = (
    record result { signal_state = all_red },
    record c { esp32_interface = i; system_running = false },
  )

  -- A change of the phase with its decision and its command.
  abbrev pub is_new_phase : PipelineResult F → Bool
  is_new_phase result =
      result.is_phase_change && is_some result.signal_decision && is_some result.hardware_command

  abbrev pub deliver :
      Bool → SendReply → F → PipelineResult F → ControlState F → PipelineResult F × ControlState F
  deliver true reply now result c =
      after_sending (send_command reply now c.esp32_interface) result c
  deliver false reply now result c = (result, c)

  unfoldable pub process_result :
      SendReply → F → PipelineResult F → ControlState F → PipelineResult F × ControlState F
  unfolding send_command
  process_result reply now result c =
      deliver (result.has_frame && is_new_phase result) reply now result c

  -- The result goes out as it came, and its command was sent; or it says all red, the runtime is
  -- stopped, and the output is not safe to run.
  abbrev pub IsSafeReport :
      SendReply → PipelineResult F → ControlState F → PipelineResult F × ControlState F → Type 0
  IsSafeReport reply result c (shown, c') =
      ((shown ≡ result) × (c'.system_running ≡ c.system_running) × IsSent reply c.esp32_interface)
      ⊎ ((shown.signal_state ≡ all_red) × (c'.system_running ≡ false) × IsClosed c'.esp32_interface)

  after_sending-IsSafeReport :
      (reply : SendReply) (result : PipelineResult F) (c : ControlState F)
      (sent : Bool × Esp32Interface F)
      → ((sent.0 ≡ true) × IsSent reply c.esp32_interface) ⊎ ((sent.0 ≡ false) × IsClosed sent.1)
      → IsSafeReport reply result c (after_sending sent result c)
  after_sending-IsSafeReport reply result c (true, i) (inl (well, how)) = inl (refl, refl, how)
  after_sending-IsSafeReport reply result c (true, i) (inr (failed, closed)) = cc
  after_sending-IsSafeReport reply result c (false, i) (inl (well, how)) = cc
  after_sending-IsSafeReport reply result c (false, i) (inr (failed, closed)) =
      inr (refl, refl, closed)

  -- Whatever the port does with the command of a new phase: the result is shown as it is, only where
  -- the command was simulated, or there was a connection and writing the command and reading the
  -- acknowledgement, which may be empty, raised nothing; else it says all red, the
  -- runtime is stopped, and the output is not connected and not safe to run.
  pub process_result-IsSafeReport :
      (reply : SendReply) (now : F) (result : PipelineResult F) (c : ControlState F)
      → (result.has_frame && is_new_phase result) ≡ true
      → IsSafeReport reply result c (process_result reply now result c)
  unfolding process_result
  process_result-IsSafeReport reply now result c h =
      subst (λ b. IsSafeReport reply result c (deliver b reply now result c)) (sym h)
        (after_sending-IsSafeReport reply result c (send_command reply now c.esp32_interface)
          (send_command_fails-IsClosed reply now c.esp32_interface))
