-- ===== src/Runtime/Expiry.antt =====
-- What an iteration of server/runtime.py leaves of sessions and connections.
use smart_traffic_management.Common.{
  Bool, Bool-cases, List, Option, String, [], any, ap, arith, false, if◌then◌else◌, inl, inr,
  is_some, none, refl, some, true, ℕ, ◌&&◌, ◌+◌, ◌||◌, ◌∙◌, ◌∷◌, ◌≡◌,
}
use smart_traffic_management.Common.Dict.{Dict, IsDict, get, get-pop}
use smart_traffic_management.Common.Equality.{beq, beq→eq, eq→beq, nat_eq, string_eq}
use smart_traffic_management.Common.Float.{Float}
use smart_traffic_management.Hardware.{Esp32Interface}
use smart_traffic_management.Pipeline.{Pipeline, PipelineResult}
use smart_traffic_management.Pipeline.Step.{process_step}
use smart_traffic_management.Runtime.{Context, control, is_safe, set_running}
use smart_traffic_management.Runtime.Iteration.{
  after_tick, contain_fault, expire_all, expire_sessions, publish_snapshot, run_runtime_iteration,
  tick,
}
use smart_traffic_management.Runtime.Processing.{Moment, Settings}
use smart_traffic_management.Server.{Server, disconnect_node}
use smart_traffic_management.Sessions.{
  NodeSession, SessionManager, get_expired_sessions, remove_session,
}
use smart_traffic_management.Sessions.Validity.{any-expired, is_overdue, unless_expired}
use smart_traffic_management.Signal.Scheduler.{Outcome, returned, value_error}
use smart_traffic_management.Signal.Types.{lane_id_eq_inst}

without_both :
    {V : Type 0} (node k : String) (nodes : List String) (before after : Option V)
    → after ≡ (if beq node k then none else before)
    → (if any (beq k) nodes then none else after)
      ≡ (if beq k node || any (beq k) nodes then none else before)
without_both node k nodes before after e =
    ground (arith, e, beq→eq node k, eq→beq node k, beq→eq k node, eq→beq k node)

module _ {A : Type 0} where
  get-expire_all :
      (k : String) (nodes : List String) (s : Server A)
      → let s' = expire_all nodes s in
        (get k s'.session_manager.sessions
          ≡ (if any (beq k) nodes then none else get k s.session_manager.sessions))
        × (get k s'.active_connections
            ≡ (if any (beq k) nodes then none else get k s.active_connections))
  unfolding expire_all remove_session disconnect_node
  get-expire_all k [] s = (refl, refl)
  get-expire_all k (node ∷ nodes) s =
      let (sessions, sockets) = get-expire_all k nodes (record s {
        session_manager = remove_session node s.session_manager;
        active_connections = disconnect_node node s.active_connections;
      }) in
      (
        sessions ∙ without_both node k nodes _ _ (get-pop node k s.session_manager.sessions),
        sockets ∙ without_both node k nodes _ _ (get-pop node k s.active_connections),
      )

module _ {A F : Type 0} where
  -- Sessions and connections are the same.
  abbrev pub SameNodes : Context A F → Context A F → Type 0
  SameNodes c c' =
      (c'.server.session_manager ≡ c.server.session_manager)
      × (c'.server.active_connections ≡ c.server.active_connections)

  contain_fault-SameNodes : (c : Context A F) → SameNodes c (contain_fault c)
  unfolding contain_fault
  contain_fault-SameNodes c = go (is_safe c.esp32_interface)
    where
      go :
          (safe : Bool)
          → let c' = record c { frame_processing_errors = c.frame_processing_errors + 1 } in
            SameNodes c (if safe then c' else set_running false c')
      go true = (refl, refl)
      go false = (refl, refl)

module _ {A F : Type 0} ⦃fl : Float F⦄ (st : Settings F) (m : Moment F) (now_mono : ℕ) where
  after_tick-SameNodes :
      (o : Option (Esp32Interface F)) (r : Outcome (PipelineResult F × Pipeline F))
      (c : Context A F)
      → SameNodes c (after_tick m now_mono o r c).1
  unfolding publish_snapshot control
  after_tick-SameNodes o value_error c = contain_fault-SameNodes c
  after_tick-SameNodes none (returned (result, p)) c =
      contain_fault-SameNodes (record c { pipeline = some p })
  after_tick-SameNodes (some i) (returned (result, p)) c = (refl, refl)

  tick-SameNodes :
      (o : Option (Pipeline F)) (c : Context A F) → SameNodes c (tick st m now_mono o c).1
  unfolding publish_snapshot
  tick-SameNodes none c = (refl, refl)
  tick-SameNodes (some p) c =
      elim (Bool-cases (c.server.system_running && is_some p.active_decision)) [
        | inl steps ↦ rw steps (
            after_tick-SameNodes c.esp32_interface
              (process_step st.detector_fps st.order m.clocks [] p) c)
        | inr rests ↦ rw rests (refl, refl)
      ]

  -- Where the sessions have each node once, an iteration removes exactly the sessions that have
  -- expired, each with the connection of its node,
  -- and keeps every other session and connection, whether its step succeeds or raises.
  pub run_runtime_iteration_expires :
      (c : Context A F) (k : String)
      → IsDict c.server.session_manager.sessions
      → let s = c.server in
        let s' = (run_runtime_iteration st m now_mono c).1.server in
        (get k s'.session_manager.sessions
          ≡ unless_expired m.now (get k s.session_manager.sessions))
        × (get k s'.active_connections ≡ (
            if is_overdue m.now (get k s.session_manager.sessions)
            then none
            else get k s.active_connections))
  unfolding run_runtime_iteration expire_sessions
  run_runtime_iteration_expires c k d =
      let s = c.server in
      let c1 = expire_sessions m.now c in
      let nodes = get_expired_sessions m.now s.session_manager.sessions in
      let same = tick-SameNodes c1.pipeline c1 in
      let gone = get-expire_all k nodes s in
      let overdue = any-expired m.now k s.session_manager.sessions d in
      (
        ap (λ (n : SessionManager). get k n.sessions) same.0
            ∙ gone.0
            ∙ ap (λ b. if b then none else get k s.session_manager.sessions) overdue
            ∙ split (get k s.session_manager.sessions),
        ap (λ (n : Dict String ℕ). get k n) same.1
            ∙ gone.1
            ∙ ap (λ b. if b then none else get k s.active_connections) overdue,
      )
    where
      split :
          (o : Option NodeSession)
          → (if is_overdue m.now o then none else o) ≡ unless_expired m.now o
      split none = refl
      split (some s) = refl
