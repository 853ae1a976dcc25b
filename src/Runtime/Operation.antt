-- ===== src/Runtime/Operation.antt =====
-- What the commands of server/runtime.py achieve.
use smart_traffic_management.Common.{
  Bool, Bool-cases, List, Option, String, [], arith, false, inl, inr, none, refl, some, true, ℕ,
  ◌∷◌, ◌≡◌, ◌≤◌, ◌⊎◌,
}
use smart_traffic_management.Common.Dict.{Dict, get}
use smart_traffic_management.Common.Equality.{beq, nat_eq, string_eq}
use smart_traffic_management.Common.Float.{Float}
use smart_traffic_management.Pipeline.{Pipeline}
use smart_traffic_management.Runtime.{Context, is_safe, set_running}
use smart_traffic_management.Runtime.Commands.{
  Command, CommandReply, apply_configuration, configure, disconnect_camera, disconnect_direction,
  handle_command, is_in_range, refused_with, restart, set_system, start, start_system, stop,
  stream_all, success, unsafe_hardware, unsupported, without_phase,
}
use smart_traffic_management.Sessions.{NodeSession}
use smart_traffic_management.Signal.Types.{lane_id_eq_inst}

-- START, RESTART and STOP, with the state of the system that they ask for.
abbrev pub asks_for : {F : Type 0} → Command F → Option Bool
asks_for start = some true
asks_for restart = some true
asks_for stop = some false
asks_for (disconnect_camera direction) = none
asks_for (configure confidence minimum maximum) = none
asks_for unsupported = none

abbrev pub with_streaming : Bool → Option NodeSession → Option NodeSession
with_streaming on none = none
with_streaming on (some s) = some (record s { streaming = on })

-- The system runs or not, every session streams accordingly and is otherwise as it was, and no socket
-- is touched.
pub record IsSwitched {A F : Type 0} (on : Bool) (c c' : Context A F) : Type 0 where
  pub system : c'.server.system_running ≡ on
  pub sessions :
      (k : String)
      → get k c'.server.session_manager.sessions
        ≡ with_streaming on (get k c.server.session_manager.sessions)
  pub sockets : c'.server.active_connections ≡ c.server.active_connections

get-stream_all :
    (on : Bool) (k : String) (d : Dict String NodeSession)
    → get k (stream_all on d) ≡ with_streaming on (get k d)
get-stream_all on k [] = refl
get-stream_all on k ((node, s) ∷ d) = elim (Bool-cases (beq node k)) [
  | inl same ↦ rw same refl
  | inr apart ↦ rw apart (get-stream_all on k d)
]

module _ {A F : Type 0} where
  set_system-IsSwitched :
      (on resets : Bool) (c : Context A F) → IsSwitched on c (set_system on resets c)
  unfolding set_system
  set_system-IsSwitched on true c = record {
    system = refl;
    sessions = λ k. get-stream_all on k c.server.session_manager.sessions;
    sockets = refl;
  }
  set_system-IsSwitched on false c = record {
    system = refl;
    sessions = λ k. get-stream_all on k c.server.session_manager.sessions;
    sockets = refl;
  }

  -- What a command that asks for a state of the system gives.
  abbrev pub Switches : Bool → Context A F → CommandReply × Context A F → Type 0
  Switches on c (reply, c') =
      ((reply ≡ success) × IsSwitched on c c' × ((on ≡ false) ⊎ (is_safe c.esp32_interface ≡ true)))
      ⊎ ((reply ≡ refused_with unsafe_hardware)
          × (on ≡ true)
          × (is_safe c.esp32_interface ≡ false)
          × (c' ≡ set_running false c))

  start_system-Switches :
      (safe resets : Bool) (c : Context A F)
      → is_safe c.esp32_interface ≡ safe
      → Switches true c (start_system safe resets c)
  start_system-Switches true resets c e = inl (refl, set_system-IsSwitched true resets c, inr e)
  start_system-Switches false resets c e = inr (refl, refl, e, refl)

module _ {F : Type 0} where
  -- The bounds of the green time that the scheduler works with.
  abbrev pub HasBounds : Option (Pipeline F) → Type 0
  HasBounds none = Unit
  HasBounds (some p) =
      (5 ≤ p.signal_scheduler.min_green_sec)
      × (p.signal_scheduler.min_green_sec ≤ p.signal_scheduler.max_green_sec)
      × (p.signal_scheduler.max_green_sec ≤ 120)

  reset-HasBounds : (o : Option (Pipeline F)) → HasBounds o → HasBounds (without_phase o)
  reset-HasBounds none h = h
  reset-HasBounds (some p) h = h

module _ {A F : Type 0} ⦃fl : Float F⦄ where
  -- START, RESTART and STOP switch the system, and every session with it; START and RESTART do so
  -- only where there is no control manager or its hardware is safe to run, and are else refused, which
  -- stops the system and changes nothing else.
  pub handle_command-Switches :
      (now : ℕ) (command : Command F) (on : Bool) (c : Context A F)
      → asks_for command ≡ some on
      → Switches on c (handle_command now command c)
  unfolding handle_command
  handle_command-Switches now start true c h = start_system-Switches _ false c refl
  handle_command-Switches now start false c h = cc
  handle_command-Switches now restart true c h = start_system-Switches _ true c refl
  handle_command-Switches now restart false c h = cc
  handle_command-Switches now stop true c h = cc
  handle_command-Switches now stop false c h =
      inl (refl, set_system-IsSwitched false true c, inl refl)
  handle_command-Switches now (disconnect_camera direction) on c h = cc
  handle_command-Switches now (configure confidence minimum maximum) on c h = cc
  handle_command-Switches now unsupported on c h = cc

  abbrev pub run_commands : List (ℕ × Command F) → Context A F → Context A F
  run_commands [] c = c
  run_commands ((now, command) ∷ rest) c = run_commands rest (handle_command now command c).1

  apply_configuration-HasBounds :
      (confidence : F) (minimum maximum : ℕ) (o : Option (Pipeline F)) (c : Context A F)
      → (5 ≤ minimum) × (minimum ≤ maximum) × (maximum ≤ 120)
      → HasBounds c.pipeline
      → HasBounds (apply_configuration confidence minimum maximum o c).1.pipeline
  apply_configuration-HasBounds confidence minimum maximum none c b h = h
  apply_configuration-HasBounds confidence minimum maximum (some p) c b h = b

  start_system-HasBounds :
      (safe resets : Bool) (c : Context A F)
      → HasBounds c.pipeline
      → HasBounds (start_system safe resets c).1.pipeline
  unfolding set_system
  start_system-HasBounds false resets c h = h
  start_system-HasBounds true false c h = h
  start_system-HasBounds true true c h = reset-HasBounds c.pipeline h

  pub handle_command-HasBounds :
      (now : ℕ) (command : Command F) (c : Context A F)
      → HasBounds c.pipeline
      → HasBounds (handle_command now command c).1.pipeline
  unfolding handle_command disconnect_direction set_system
  handle_command-HasBounds now (disconnect_camera direction) c h = h
  handle_command-HasBounds now (configure confidence minimum maximum) c h =
      elim (Bool-cases (is_in_range confidence minimum maximum)) [
        | inl good ↦
            rw good (
              apply_configuration-HasBounds confidence minimum maximum c.pipeline c (ground arith)
                h)
        | inr bad ↦ rw bad h
      ]
  handle_command-HasBounds now start c h = start_system-HasBounds _ false c h
  handle_command-HasBounds now restart c h = start_system-HasBounds _ true c h
  handle_command-HasBounds now stop c h = reset-HasBounds c.pipeline h
  handle_command-HasBounds now unsupported c h = h

  -- After any commands, whatever they ask for, the scheduler works with 5 ≤ min ≤ max ≤ 120, where it
  -- did so before.
  pub run_commands-HasBounds :
      (commands : List (ℕ × Command F)) (c : Context A F)
      → HasBounds c.pipeline
      → HasBounds (run_commands commands c).pipeline
  run_commands-HasBounds [] c h = h
  run_commands-HasBounds ((now, command) ∷ rest) c h =
      run_commands-HasBounds rest (handle_command now command c).1
        (handle_command-HasBounds now command c h)
