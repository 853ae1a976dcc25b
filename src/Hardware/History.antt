-- ===== src/Hardware/History.antt =====
-- What the status of ai/hardware/esp32_interface.py says after any history of calls.
use smart_traffic_management.Hardware.Connecting.{IsHonest, connect-IsHonest}
use smart_traffic_management.Common.{
  Bool, List, Option, String, [], false, inl, inr, refl, true, ◌+◌, ◌∷◌, ◌≡◌, ◌≢◌,
}
use smart_traffic_management.Common.Equality.{beq, string_eq}
use smart_traffic_management.Hardware.{
  Esp32Interface, HardwareConnectionState, OpenReply, SendReply, acknowledged, answered, close,
  connected, connecting, disconnected, dispatch, error, lost_state, new_interface, not_open, raised,
  reconnect, rejected, send_command, simulation, unconnected, without_serial,
}

-- The calls on an interface, each with the reply of the port.
pub data Call (F : Type 0) : Type 0 where
  sends : SendReply → F → Call F
  reconnects : OpenReply → Call F
  closes : Call F

lost_state_dead :
    (s : HardwareConnectionState) → (lost_state s ≢ connected) × (lost_state s ≢ simulation)
lost_state_dead error = (λ e. cc, λ e. cc)
lost_state_dead simulation = (λ e. cc, λ e. cc)
lost_state_dead connecting = (λ e. cc, λ e. cc)
lost_state_dead connected = (λ e. cc, λ e. cc)
lost_state_dead disconnected = (λ e. cc, λ e. cc)

module _ {F : Type 0} where
  abbrev pub perform : Call F → Esp32Interface F → Esp32Interface F
  perform (sends reply now) i = (send_command reply now i).1
  perform (reconnects reply) i = (reconnect reply i).1
  perform closes i = close i

  abbrev pub perform_all : List (Call F) → Esp32Interface F → Esp32Interface F
  perform_all [] i = i
  perform_all (call ∷ calls) i = perform_all calls (perform call i)

  rejected-IsHonest :
      (i : Esp32Interface F)
      → i.status.simulation_mode ≡ i.simulation_mode
      → IsHonest (rejected i).1
  rejected-IsHonest i mode = record {
    mode = mode;
    flag = inl refl;
    serial = inl (lost_state_dead i.status.connection_state).0;
    simulated = inl (lost_state_dead i.status.connection_state).1;
  }

  acknowledged-IsHonest :
      (blank : Bool) (ack : String) (now : F) (i : Esp32Interface F)
      → i.has_serial ≡ true
      → IsHonest i
      → IsHonest (acknowledged blank ack now i)
  acknowledged-IsHonest true ack now i there h = h
  acknowledged-IsHonest false ack now i there h = record {
    mode = h.mode;
    flag = inr refl;
    serial = inr there;
    simulated = inl (λ e. cc);
  }

  dispatch-IsHonest :
      (sim conn : Bool) (reply : SendReply) (now : F) (i : Esp32Interface F)
      → i.has_serial ≡ conn
      → IsHonest i
      → IsHonest (dispatch sim conn reply now i).1
  dispatch-IsHonest true conn reply now i there h = h
  dispatch-IsHonest false false reply now i there h = rejected-IsHonest i h.mode
  dispatch-IsHonest false true not_open now i there h = rejected-IsHonest i h.mode
  dispatch-IsHonest false true (raised message) now i there h = record {
    mode = h.mode;
    flag = inl refl;
    serial = inl (λ e. cc);
    simulated = inl (λ e. cc);
  }
  dispatch-IsHonest false true (answered ack) now i there h =
      acknowledged-IsHonest (beq ack "") ack now i there h

  perform-IsHonest : (call : Call F) (i : Esp32Interface F) → IsHonest i → IsHonest (perform call i)
  unfolding send_command reconnect close
  perform-IsHonest (sends reply now) i h =
      dispatch-IsHonest i.status.simulation_mode i.has_serial reply now
        (record i {
          status = record i.status { total_commands_sent = i.status.total_commands_sent + 1 };
        })
        refl (record { mode = h.mode; flag = h.flag; serial = h.serial; simulated = h.simulated })
  perform-IsHonest (reconnects reply) i h = connect-IsHonest reply (without_serial i) h.mode refl
  perform-IsHonest closes i h = record {
    mode = h.mode;
    flag = inl refl;
    serial = inl (λ e. cc);
    simulated = inl (λ e. cc);
  }

  perform_all-IsHonest :
      (calls : List (Call F)) (i : Esp32Interface F) → IsHonest i → IsHonest (perform_all calls i)
  perform_all-IsHonest [] i h = h
  perform_all-IsHonest (call ∷ calls) i h =
      perform_all-IsHonest calls (perform call i) (perform-IsHonest call i h)

  new_interface-IsHonest :
      (port : Option String) (sim : Bool) (reply : OpenReply)
      → IsHonest (new_interface {F = F} port sim reply)
  unfolding new_interface
  new_interface-IsHonest port true reply = record {
    mode = refl;
    flag = inl refl;
    serial = inl (λ e. cc);
    simulated = inr refl;
  }
  new_interface-IsHonest port false reply =
      connect-IsHonest reply (unconnected port false) refl refl

  -- From a new interface, after any history of commands, reconnections and a close, and whatever the
  -- port replies: the interface simulates as it was configured, it says that it is connected only in
  -- the state CONNECTED, it has that state only with a connection, and the state SIMULATION only
  -- where it was configured to simulate.
  pub perform_all-new_interface-IsHonest :
      (port : Option String) (sim : Bool) (reply : OpenReply) (calls : List (Call F))
      → IsHonest (perform_all calls (new_interface port sim reply))
  perform_all-new_interface-IsHonest port sim reply calls =
      perform_all-IsHonest calls (new_interface port sim reply)
        (new_interface-IsHonest port sim reply)
