-- ===== src/Hardware.antt =====
-- ai/hardware/esp32_interface.py and ai/controller/control_manager.py: the commands that go to the
-- signal hardware. What the serial port answers is an argument of each call. The packets are left
-- out, since only the port reads them.
use smart_traffic_management.Common.{
  Bool, Option, String, false, if◌then◌else◌, none, not, some, true, ℕ, ◌+◌,
}
use smart_traffic_management.Common.Equality.{beq, string_eq}
pub mod Sending
pub mod Connecting
pub mod History
pub mod Control

pub data HardwareConnectionState : Type 0 where
  simulation connecting connected disconnected error : HardwareConnectionState

pub record HardwareStatus (F : Type 0) : Type 0 where
  pub is_connected : Bool
  pub simulation_mode : Bool
  pub connection_state : HardwareConnectionState
  pub last_ack_time : Option F
  pub last_ack : Option String
  pub last_error : Option String
  pub total_commands_sent : ℕ

-- `ESP32Interface`; `has_serial` says whether `serial_conn` is there.
pub record Esp32Interface (F : Type 0) : Type 0 where
  pub port : Option String
  pub simulation_mode : Bool
  pub has_serial : Bool
  pub status : HardwareStatus F

-- Opening the port: PySerial is not installed; the port cannot be opened; the connection is there,
-- open or not.
pub data OpenReply : Type 0 where
  no_pyserial : OpenReply
  refused : String → OpenReply
  opened : Bool → OpenReply

-- Sending over a connection: it is not open; writing or reading raises; or the line that is read,
-- which may be empty.
pub data SendReply : Type 0 where
  not_open : SendReply
  raised : String → SendReply
  answered : String → SendReply

abbrev pub is_blank : Option String → Bool
is_blank none = true
is_blank (some s) = beq s ""

-- `HardwareConnectionState.ERROR` stays, any other state becomes `DISCONNECTED`.
abbrev pub lost_state : HardwareConnectionState → HardwareConnectionState
lost_state error = error
lost_state _ = disconnected

abbrev pub is_usable : HardwareConnectionState → Bool
is_usable simulation = true
is_usable connected = true
is_usable _ = false

module _ {F : Type 0} where
  unfoldable pub hardware_is_safe_to_run : HardwareStatus F → Bool
  hardware_is_safe_to_run status = is_usable status.connection_state

  abbrev pub failed_to_open : String → HardwareStatus F → HardwareStatus F
  failed_to_open message status = record status {
    is_connected = false;
    connection_state = error;
    last_error = some message;
  }

  -- Opening the configured port.
  abbrev pub open_port : OpenReply → Esp32Interface F → Bool × Esp32Interface F
  open_port no_pyserial i =
      (false, record i { status = failed_to_open "PySerial is unavailable" i.status })
  open_port (refused message) i = (
    false,
    record i { status = record (failed_to_open message i.status) { simulation_mode = false } },
  )
  open_port (opened false) i = (false, record i { has_serial = true })
  open_port (opened true) i = (
    true,
    record i {
      has_serial = true;
      status = record i.status {
        is_connected = true;
        simulation_mode = false;
        connection_state = connected;
        last_error = none;
      };
    },
  )

  abbrev pub connect_port : Bool → OpenReply → Esp32Interface F → Bool × Esp32Interface F
  connect_port true no_pyserial i = open_port no_pyserial i
  connect_port true (refused message) i =
      (false, record i { status = failed_to_open "ESP32 serial port is not configured" i.status })
  connect_port true (opened b) i =
      (false, record i { status = failed_to_open "ESP32 serial port is not configured" i.status })
  connect_port false reply i = open_port reply i

  unfoldable pub connect : OpenReply → Esp32Interface F → Bool × Esp32Interface F
  connect reply i =
      let trying = record i {
        status = record i.status { connection_state = connecting; last_error = none };
      } in
      if i.simulation_mode
      then (false, record i { status = record i.status { connection_state = simulation } })
      else connect_port (is_blank i.port) reply trying

  -- `__init__` up to the connection.
  abbrev pub unconnected : Option String → Bool → Esp32Interface F
  unconnected port simulation_mode = record {
    port = port;
    simulation_mode = simulation_mode;
    has_serial = false;
    status = record {
      is_connected = false;
      simulation_mode = simulation_mode;
      connection_state = if simulation_mode then simulation else disconnected;
      last_ack_time = none;
      last_ack = none;
      last_error = none;
      total_commands_sent = 0;
    };
  }

  unfoldable pub new_interface : Option String → Bool → OpenReply → Esp32Interface F
  unfolding connect
  new_interface port simulation_mode reply =
      let start = unconnected port simulation_mode in
      if simulation_mode then start else (connect reply start).1

  -- The stale connection is closed, whether that raises or not.
  abbrev pub without_serial : Esp32Interface F → Esp32Interface F
  without_serial i = record i {
    has_serial = false;
    status = record i.status { is_connected = false };
  }

  unfoldable pub reconnect : OpenReply → Esp32Interface F → Bool × Esp32Interface F
  unfolding connect
  reconnect reply i = connect reply (without_serial i)

  unfoldable pub close : Esp32Interface F → Esp32Interface F
  close i = record i {
    has_serial = false;
    status = record i.status { is_connected = false; connection_state = disconnected };
  }

  -- No connection, or none that is open.
  abbrev pub rejected : Esp32Interface F → Bool × Esp32Interface F
  rejected i = (
    false,
    record i {
      status = record i.status {
        is_connected = false;
        connection_state = lost_state i.status.connection_state;
        last_error =
            if is_blank i.status.last_error
            then some "ESP32 serial connection is unavailable"
            else i.status.last_error;
      };
    },
  )

  abbrev pub acknowledged : Bool → String → F → Esp32Interface F → Esp32Interface F
  acknowledged true ack now i = i
  acknowledged false ack now i = record i {
    status = record i.status {
      last_ack_time = some now;
      last_ack = some ack;
      is_connected = true;
      connection_state = connected;
    };
  }

  -- Over a connection that is there.
  abbrev pub transmit : SendReply → F → Esp32Interface F → Bool × Esp32Interface F
  transmit not_open now i = rejected i
  transmit (raised message) now i = (
    false,
    record i {
      status = record i.status {
        last_error = some message;
        is_connected = false;
        connection_state = error;
      };
    },
  )
  transmit (answered ack) now i = (true, acknowledged (beq ack "") ack now i)

  -- Simulated; over a connection; or without one.
  abbrev pub dispatch : Bool → Bool → SendReply → F → Esp32Interface F → Bool × Esp32Interface F
  dispatch true has_serial reply now i = (true, i)
  dispatch false true reply now i = transmit reply now i
  dispatch false false reply now i = rejected i

  unfoldable pub send_command : SendReply → F → Esp32Interface F → Bool × Esp32Interface F
  send_command reply now i = dispatch i.status.simulation_mode i.has_serial reply now (record i {
    status = record i.status { total_commands_sent = i.status.total_commands_sent + 1 };
  })
