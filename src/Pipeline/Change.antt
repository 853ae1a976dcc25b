-- ===== src/Pipeline/Change.antt =====
-- What the change of the phase in ai/pipeline/traffic_pipeline.py does: it never raises, and it
-- leaves either no decision or one for a lane in demand, with its command.
use mathlib.Core.List.{Memᴰ}
use mathlib.Core.Path.{subst}
use smart_traffic_management.Common.{
  Bool-cases, List, Option, [], any, ap, arith, if◌then◌else◌, inl, inr, none, refl, some, sym,
  true, ℕ, ◌+◌, ◌<◌, ◌∙◌, ◌∷◌, ◌≡◌, ◌≤◌, ◌⊎◌,
}
use smart_traffic_management.Common.Dict.{get}
use smart_traffic_management.Common.Equality.{beq}
use smart_traffic_management.Common.Float.{Float}
use smart_traffic_management.Pipeline.{Clocks, Pipeline}
use smart_traffic_management.Pipeline.Decide.{
  activate, activate_known, activate_outcome, change_phase, final_priority, fresh_lanes, no_demand,
  reasoned, select_next, start_phase,
}
use smart_traffic_management.Pipeline.Demand.{
  IsRecent, NoneDemands, fresh_lanes-IsRecent, select_next-NoneDemands,
}
use smart_traffic_management.Signal.Controller.{generate_command}
use smart_traffic_management.Signal.Scheduler.{
  Scheduler, build_decision, calculate_green_time, in_demand, returned, schedule, schedule_scores,
  select_green_lane,
}
use smart_traffic_management.Signal.Scheduler.Decision.{schedule-IsSafeDecision}
use smart_traffic_management.Signal.Scheduler.Selection.{
  IsGrant, in_demand_parts, max-advance_after, min-advance_after, select_eligible_winner,
}
use smart_traffic_management.Signal.Types.{
  HardwareCommand, LaneStatistics, PriorityResult, PriorityScore, SignalDecision, Stats, emergency,
  lane_id_eq_inst, normal,
}

module _ {F : Type 0} ⦃fl : Float F⦄ where
  -- A command lights the lanes of a decision, for its durations and its reason.
  pub record Mirrors (cmd : HardwareCommand F) (d : SignalDecision F) : Type 0 where
    pub same_green : cmd.green_lane ≡ d.green_lane
    pub same_red : cmd.red_lanes ≡ d.red_lanes
    pub same_green_sec : cmd.green_duration_sec ≡ d.green_duration_sec
    pub same_yellow_sec : cmd.yellow_duration_sec ≡ d.yellow_duration_sec
    pub same_reason : cmd.reason ≡ d.reason

  -- The phase that a change starts.
  pub record StartsPhase (clocks : Clocks F) (lane_stats : Stats F) (p q : Pipeline F)
      : Type 0 where
    pub decision : SignalDecision F
    pub active : q.active_decision ≡ some decision
    pub command : HardwareCommand F
    pub sent : q.active_hardware_cmd ≡ some command
    pub mirrors : Mirrors command decision
    pub started : q.phase_start_time ≡ clocks.current_mono_time
    pub numbered : decision.phase_id ≡ p.phase_counter + 1
    pub at_least : p.signal_scheduler.min_green_sec ≤ decision.green_duration_sec
    pub at_most : decision.green_duration_sec ≤ p.signal_scheduler.max_green_sec
    pub statistics : LaneStatistics F
    pub known : get decision.green_lane lane_stats ≡ some statistics
    pub occupied : 0 < statistics.raw_count
    pub fresh : any (beq decision.green_lane) (fresh_lanes clocks.now_mono lane_stats p) ≡ true
    pub recent : IsRecent clocks.now_mono decision.green_lane p
    pub reasoned_by :
        decision.reason ≡ (if statistics.has_priority_vehicle then emergency else normal)

  -- `schedule` gives the green to the highest priority.
  schedule-green_lane :
      (s : Scheduler) (r : PriorityResult F) (phase : ℕ) (now : F) (w : PriorityScore F)
      (d : SignalDecision F)
      → r.highest_priority ≡ some w
      → schedule s (some r) phase now ≡ returned d
      → (d.green_lane ≡ w.lane) × (d.reason ≡ normal)
  unfolding schedule build_decision select_green_lane
  schedule-green_lane s r phase now w d top e = go r.scores e
    where
      go :
          (scores : List (PriorityScore F))
          → schedule_scores s r scores phase now ≡ returned d
          → (d.green_lane ≡ w.lane) × (d.reason ≡ normal)
      go [] h = cc
      go (first ∷ rest) h =
          let built : build_decision s (select_green_lane r.highest_priority first)
                (calculate_green_time s (select_green_lane r.highest_priority first) r) r phase now
              ≡ d =
            cc in
          (
            sym (ap (λ t. SignalDecision.green_lane t) built)
                ∙ ap (λ o. PriorityScore.lane (select_green_lane o first)) top,
            sym (ap (λ t. SignalDecision.reason t) built),
          )

  reasoned-reason :
      (stats : LaneStatistics F) (d : SignalDecision F)
      → d.reason ≡ normal
      → (reasoned stats d).reason ≡ (if stats.has_priority_vehicle then emergency else normal)
  reasoned-reason stats d h = elim (Bool-cases stats.has_priority_vehicle) [
    | inl urgent ↦ rw urgent refl
    | inr calm ↦ rw calm h
  ]

  -- The reason is all that changes.
  reasoned_rest :
      (stats : LaneStatistics F) (d : SignalDecision F)
      → ((reasoned stats d).green_lane ≡ d.green_lane)
        × ((reasoned stats d).phase_id ≡ d.phase_id)
        × ((reasoned stats d).green_duration_sec ≡ d.green_duration_sec)
  reasoned_rest stats d = elim (Bool-cases stats.has_priority_vehicle) [
    | inl urgent ↦ rw urgent (refl, refl, refl)
    | inr calm ↦ rw calm (refl, refl, refl)
  ]

  -- What it takes to start a phase: the grant of the scheduler, and the winner's demand.
  pub start-StartsPhase :
      (clocks : Clocks F) (lane_stats : Stats F) (p : Pipeline F) (s : Scheduler)
      (given r : PriorityResult F) (w : PriorityScore F)
      → p.signal_scheduler.min_green_sec ≤ p.signal_scheduler.max_green_sec
      → IsGrant p.signal_scheduler given s r w
      → Memᴰ w given.scores
      → in_demand lane_stats (fresh_lanes clocks.now_mono lane_stats p) w ≡ true
      → (q : Pipeline F) × (start_phase clocks lane_stats
            (s, some r)
            (record p { phase_counter = p.phase_counter + 1 })
          ≡ returned q)
        × (begun : StartsPhase clocks lane_stats p q) × (begun.decision.green_lane ≡ w.lane)
  unfolding activate generate_command
  start-StartsPhase clocks lane_stats p s given r w h (er, es) m wanted =
      let low =
        ap (λ t. Scheduler.min_green_sec t) es ∙ min-advance_after w.lane p.signal_scheduler in
      let high =
        ap (λ t. Scheduler.max_green_sec t) es ∙ max-advance_after w.lane p.signal_scheduler in
      let (d, e, safe) =
        schedule-IsSafeDecision s r (p.phase_counter + 1) clocks.time (omega (arith, h, low, high))
          (λ none_left. absurd (
            elim (subst (λ l. Memᴰ w l) (ap (λ t. PriorityResult.scores t) (sym er) ∙ none_left)
              m) [ ])) in
      let top : r.highest_priority ≡ some w = ap (λ t. PriorityResult.highest_priority t) er in
      let (same, plain) = schedule-green_lane s r (p.phase_counter + 1) clocks.time w d top e in
      let (recent, stats, found, busy) =
        in_demand_parts lane_stats (fresh_lanes clocks.now_mono lane_stats p) w wanted in
      let here : get d.green_lane lane_stats ≡ some stats =
        ap (λ k. get k lane_stats) same ∙ found in
      let q =
        activate clocks.current_mono_time r stats d
          (record p { phase_counter = p.phase_counter + 1; signal_scheduler = s }) in
      let (lane, number, time) = reasoned_rest stats d in
      let is_fresh =
        ap (λ k. any (beq k) (fresh_lanes clocks.now_mono lane_stats p)) (lane ∙ same) ∙ recent in
      (
        q,
        subst
            (λ o.
              activate_outcome clocks.current_mono_time lane_stats r o
                (record p { phase_counter = p.phase_counter + 1; signal_scheduler = s })
              ≡ returned q)
            (sym e)
            (subst
              (λ o.
                activate_known clocks.current_mono_time r o d
                  (record p { phase_counter = p.phase_counter + 1; signal_scheduler = s })
                ≡ returned q)
              (sym here) refl),
        record {
          decision = reasoned stats d;
          active = refl;
          command = (generate_command (reasoned stats d) p.signal_controller).0;
          sent = refl;
          mirrors = record {
            same_green = refl;
            same_red = refl;
            same_green_sec = refl;
            same_yellow_sec = refl;
            same_reason = refl;
          };
          started = refl;
          numbered = number ∙ safe.numbered;
          at_least = omega (arith, safe.at_least, low, time);
          at_most = omega (arith, safe.at_most, high, time);
          statistics = stats;
          known = ap (λ k. get k lane_stats) lane ∙ here;
          occupied = busy;
          fresh = is_fresh;
          recent =
              fresh_lanes-IsRecent clocks.now_mono (reasoned stats d).green_lane lane_stats p
                is_fresh;
          reasoned_by = reasoned-reason stats d plain;
        },
        lane ∙ same,
      )

  -- No decision and no command.
  abbrev pub NoPhase : Pipeline F → Type 0
  NoPhase q = (q.active_decision ≡ none) × (q.active_hardware_cmd ≡ none)

  -- The change of the phase returns, if the minimum green time is not above the maximum. It leaves
  -- no decision and no command, where no approach that was seen in the last three seconds has
  -- vehicles, or it starts a phase of a fresh lane with vehicles.
  pub change_phase_starts :
      (clocks : Clocks F) (lane_stats : Stats F) (p : Pipeline F)
      → p.signal_scheduler.min_green_sec ≤ p.signal_scheduler.max_green_sec
      → (q : Pipeline F) × (change_phase clocks lane_stats p ≡ returned q)
        × ((NoPhase q × NoneDemands clocks lane_stats p) ⊎ StartsPhase clocks lane_stats p q)
  unfolding change_phase select_next
  change_phase_starts clocks lane_stats p h = go (select_next clocks lane_stats p) refl
    where
      given : PriorityResult F
      given = final_priority clocks lane_stats p

      go :
          (chosen : Scheduler × Option (PriorityResult F))
          → select_next clocks lane_stats p ≡ chosen
          → (q : Pipeline F) × (start_phase clocks lane_stats chosen
                (record p { phase_counter = p.phase_counter + 1 })
              ≡ returned q)
            × ((NoPhase q × NoneDemands clocks lane_stats p) ⊎ StartsPhase clocks lane_stats p q)
      go (s, none) e = (
        no_demand (record p { phase_counter = p.phase_counter + 1; signal_scheduler = s }),
        refl,
        inl ((refl, refl), select_next-NoneDemands clocks lane_stats p s e),
      )
      go (s, some r) e =
          let (w, granted, m, wanted) =
            select_eligible_winner p.signal_scheduler given lane_stats
              (fresh_lanes clocks.now_mono lane_stats p) s r e in
          let (q, runs, begun, _) =
            start-StartsPhase clocks lane_stats p s given r w h granted m wanted in
          (q, runs, inr begun)
