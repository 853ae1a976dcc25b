-- ===== src/Hardware/Connecting.antt =====
-- Opening the port in ai/hardware/esp32_interface.py leaves a status that says what is there.
use mathlib.Core.Path.{subst}
use smart_traffic_management.Common.{
  Bool, Bool-cases, false, if◌then◌else◌, inl, inr, none, refl, sym, true, ◌∙◌, ◌≡◌, ◌≢◌, ◌⊎◌,
}
use smart_traffic_management.Hardware.{
  Esp32Interface, OpenReply, connect, connect_port, connected, connecting, failed_to_open, is_blank,
  no_pyserial, open_port, opened, refused, simulation,
}

module _ {F : Type 0} where
  -- The interface simulates as it was configured; it says that it is connected only in the state
  -- CONNECTED, which it has only with a connection; and only a simulation has the state of one.
  pub record IsHonest (i : Esp32Interface F) : Type 0 where
    pub mode : i.status.simulation_mode ≡ i.simulation_mode
    pub flag : (i.status.is_connected ≡ false) ⊎ (i.status.connection_state ≡ connected)
    pub serial : (i.status.connection_state ≢ connected) ⊎ (i.has_serial ≡ true)
    pub simulated : (i.status.connection_state ≢ simulation) ⊎ (i.simulation_mode ≡ true)

  -- While a real port is being opened.
  record IsTrying (i : Esp32Interface F) : Type 0 where
    real : i.simulation_mode ≡ false
    mode : i.status.simulation_mode ≡ false
    flag : i.status.is_connected ≡ false
    state : i.status.connection_state ≡ connecting

  open_port-IsHonest :
      (reply : OpenReply) (i : Esp32Interface F) → IsTrying i → IsHonest (open_port reply i).1
  open_port-IsHonest no_pyserial i t = record {
    mode = t.mode ∙ sym t.real;
    flag = inl refl;
    serial = inl (λ e. cc);
    simulated = inl (λ e. cc);
  }
  open_port-IsHonest (refused message) i t = record {
    mode = sym t.real;
    flag = inl refl;
    serial = inl (λ e. cc);
    simulated = inl (λ e. cc);
  }
  open_port-IsHonest (opened true) i t = record {
    mode = sym t.real;
    flag = inr refl;
    serial = inr refl;
    simulated = inl (λ e. cc);
  }
  open_port-IsHonest (opened false) i t =
      let state = t.state in
      record {
        mode = t.mode ∙ sym t.real;
        flag = inl t.flag;
        serial = inr refl;
        simulated = inl (λ e. cc);
      }

  unset-IsHonest :
      (i : Esp32Interface F)
      → IsTrying i
      → IsHonest
          (record i { status = failed_to_open "ESP32 serial port is not configured" i.status })
  unset-IsHonest i t = record {
    mode = t.mode ∙ sym t.real;
    flag = inl refl;
    serial = inl (λ e. cc);
    simulated = inl (λ e. cc);
  }

  connect_port-IsHonest :
      (blank : Bool) (reply : OpenReply) (i : Esp32Interface F)
      → IsTrying i
      → IsHonest (connect_port blank reply i).1
  connect_port-IsHonest false reply i t = open_port-IsHonest reply i t
  connect_port-IsHonest true no_pyserial i t = open_port-IsHonest no_pyserial i t
  connect_port-IsHonest true (refused message) i t = unset-IsHonest i t
  connect_port-IsHonest true (opened b) i t = unset-IsHonest i t

  pub connect-IsHonest :
      (reply : OpenReply) (i : Esp32Interface F)
      → i.status.simulation_mode ≡ i.simulation_mode
      → i.status.is_connected ≡ false
      → IsHonest (connect reply i).1
  unfolding connect
  connect-IsHonest reply i mode flag =
      let trying = record i {
        status = record i.status { connection_state = connecting; last_error = none };
      } in
      elim (Bool-cases i.simulation_mode) [
        | inl sim ↦
            subst
              (λ b.
                IsHonest
                  (if b
                    then (
                      false,
                      record i { status = record i.status { connection_state = simulation } },
                    )
                    else connect_port (is_blank i.port) reply trying).1)
              (sym sim)
              (record { mode = mode; flag = inl flag; serial = inl (λ e. cc); simulated = inr sim })
        | inr real ↦
            subst
              (λ b.
                IsHonest
                  (if b
                    then (
                      false,
                      record i { status = record i.status { connection_state = simulation } },
                    )
                    else connect_port (is_blank i.port) reply trying).1)
              (sym real)
              (connect_port-IsHonest (is_blank i.port) reply trying
                (record { real = real; mode = mode ∙ real; flag = flag; state = refl }))
      ]
