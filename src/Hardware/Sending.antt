-- ===== src/Hardware/Sending.antt =====
-- A command of ai/hardware/esp32_interface.py is reported as sent, or the output is not usable.
use smart_traffic_management.Common.{
  Bool, Bool-cases, Option, String, arith, false, if◌then◌else◌, inl, inr, none, refl, some, true,
  ◌+◌, ◌≡◌, ◌⊎◌,
}
use smart_traffic_management.Common.Equality.{beq, string_eq}
use smart_traffic_management.Hardware.{
  Esp32Interface, HardwareConnectionState, SendReply, answered, dispatch, hardware_is_safe_to_run,
  is_blank, is_usable, lost_state, not_open, raised, rejected, send_command, transmit,
}

-- The command was written and reading its acknowledgement raised nothing. The line that was read may
-- be empty, where the time for it ran out.
abbrev pub is_written : SendReply → Bool
is_written (answered ack) = true
is_written _ = false

lost_state_unusable : (s : HardwareConnectionState) → is_usable (lost_state s) ≡ false
lost_state_unusable s = ground arith

module _ {F : Type 0} where
  -- Sent: simulated, or written to the serial port.
  abbrev pub IsSent : SendReply → Esp32Interface F → Type 0
  IsSent reply i =
      (i.status.simulation_mode ≡ true) ⊎ ((i.has_serial ≡ true) × (is_written reply ≡ true))

  -- The output is not to be used, and there is an error to show.
  pub record IsClosed (i : Esp32Interface F) : Type 0 where
    pub not_connected : i.status.is_connected ≡ false
    pub unsafe : hardware_is_safe_to_run i.status ≡ false
    pub message : String
    pub shown : i.status.last_error ≡ some message

  rejected-IsClosed : (i : Esp32Interface F) → IsClosed (rejected i).1
  unfolding hardware_is_safe_to_run
  rejected-IsClosed i = record {
    not_connected = refl;
    unsafe = lost_state_unusable i.status.connection_state;
    message = (named i.status.last_error).0;
    shown = (named i.status.last_error).1;
  }
    where
      shown_as : Option String → Option String
      shown_as o = if is_blank o then some "ESP32 serial connection is unavailable" else o

      named : (o : Option String) → (m : String) × (shown_as o ≡ some m)
      named none = ("ESP32 serial connection is unavailable", refl)
      named (some s) = elim (Bool-cases (beq s "")) [
        | inl blank ↦ ("ESP32 serial connection is unavailable", rw blank refl)
        | inr text ↦ (s, rw text refl)
      ]

  transmit-fails :
      (reply : SendReply) (now : F) (i : Esp32Interface F)
      → (((transmit reply now i).0 ≡ true) × (is_written reply ≡ true))
        ⊎ (((transmit reply now i).0 ≡ false) × IsClosed (transmit reply now i).1)
  unfolding hardware_is_safe_to_run
  transmit-fails not_open now i = inr (refl, rejected-IsClosed i)
  transmit-fails (raised message) now i =
      inr (refl, record { not_connected = refl; unsafe = refl; message = message; shown = refl })
  transmit-fails (answered ack) now i = inl (refl, refl)

  dispatch-fails :
      (sim conn : Bool) (reply : SendReply) (now : F) (i : Esp32Interface F)
      → (((dispatch sim conn reply now i).0 ≡ true)
          × ((sim ≡ true) ⊎ ((conn ≡ true) × (is_written reply ≡ true))))
        ⊎ (((dispatch sim conn reply now i).0 ≡ false) × IsClosed (dispatch sim conn reply now i).1)
  dispatch-fails true conn reply now i = inl (refl, inl refl)
  dispatch-fails false false reply now i = inr (refl, rejected-IsClosed i)
  dispatch-fails false true reply now i = elim (transmit-fails reply now i) [
    | inl (sent, answer) ↦ inl (sent, inr (refl, answer))
    | inr closed ↦ inr closed
  ]

  -- Whatever the port does, a call returns True only where the command was simulated or went over a
  -- connection that answered; else it returns False, and the output is then not connected and not
  -- safe to run, with an error to show.
  pub send_command_fails-IsClosed :
      (reply : SendReply) (now : F) (i : Esp32Interface F)
      → (((send_command reply now i).0 ≡ true) × IsSent reply i)
        ⊎ (((send_command reply now i).0 ≡ false) × IsClosed (send_command reply now i).1)
  unfolding send_command
  send_command_fails-IsClosed reply now i =
      dispatch-fails i.status.simulation_mode i.has_serial reply now (record i {
        status = record i.status { total_commands_sent = i.status.total_commands_sent + 1 };
      })
