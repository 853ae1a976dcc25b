-- ===== src/Intersection/Snapshot/Exclusion.antt =====
-- No two approaches of a snapshot of ai/pipeline/digital_intersection.py are lit at once.
use mathlib.Core.List.{Memᴰ}
use mathlib.Core.List.Memᴰ
use smart_traffic_management.Common.{
  ℕ, ◌+◌, ◌*◌, ◌≡◌, ◌⊎◌, refl, sym, ap, ◌∙◌, true, Option, none, some, map, arith, Bool-cases, inl,
  inr, if◌then◌else◌, ltb,
}
use smart_traffic_management.Common.Equality.{beq→eq}
use smart_traffic_management.Common.Dict.{get}
use smart_traffic_management.Common.Float.{Float}
use smart_traffic_management.Signal.Types.{LaneId, SignalDecision, LaneStatistics, lane_id_eq_inst}
use smart_traffic_management.Intersection.{approach_names, Intersection, PhaseState, CameraStatus}
use smart_traffic_management.Intersection.Snapshot.{
  SignalColor, yellow, green, ApproachState, IntersectionSnapshot, color_of, approach_state,
  build_sim_snapshot, lit_green, lit_yellow, all_red_hold, sim_approach,
}
use smart_traffic_management.Intersection.Snapshot.Live.{
  LiveContext, decision_view, live_stalled, elapsed_ms, get_live_snapshot, live_view, hold_approach,
  live_approach,
}

-- Two lit approaches are one, and it is the lane that the snapshot names.
pub record IsExclusive {F : Type 0} (s : IntersectionSnapshot F) : Type 0 where
  pub lit_green_named :
      (lane : LaneId) (a : ApproachState F)
      → Memᴰ (lane, a) s.approaches
      → a.signal ≡ green
      → s.current_green_lane ≡ some lane
  pub lit_yellow_named :
      (lane : LaneId) (a : ApproachState F)
      → Memᴰ (lane, a) s.approaches
      → a.signal ≡ yellow
      → s.current_yellow_lane ≡ some lane
  pub one_only : (s.current_green_lane ≡ none) ⊎ (s.current_yellow_lane ≡ none)

color-green : (g y : Option LaneId) (lane : LaneId) → color_of g y lane ≡ green → g ≡ some lane
color-green (some l) y lane h = ground (arith, beq→eq l lane)
color-green none (some l) lane h = ground arith
color-green none none lane h = cc

color-yellow : (g y : Option LaneId) (lane : LaneId) → color_of g y lane ≡ yellow → y ≡ some lane
color-yellow g (some l) lane h = ground (arith, beq→eq l lane)
color-yellow (some l) none lane h = ground arith
color-yellow none none lane h = cc

module _ {F : Type 0} ⦃fl : Float F⦄ where
  signal-approach_state :
      (o : Option (LaneStatistics F)) (p : F) (c : CameraStatus) (col : SignalColor)
      → (approach_state o p c col).signal ≡ col
  unfolding approach_state
  signal-approach_state none p c col = refl
  signal-approach_state (some s) p c col = refl

module _ {F : Type 0} ⦃fl : Float F⦄ where
  signal-sim_approach :
      (st : Intersection F) (l : LaneId)
      → (sim_approach st l).signal
        ≡ color_of
            (lit_green st.phase_state st.active_lane)
            (lit_yellow st.phase_state st.active_lane)
            l
  signal-sim_approach st l = signal-approach_state (get l st.stats) _ _ _

  signal-hold_approach :
      (ctx : LiveContext F) (l : LaneId) → (hold_approach ctx l).signal ≡ color_of none none l
  unfolding approach_state
  signal-hold_approach ctx l = refl

  signal-live_approach :
      (all_red_sec : ℕ) (ctx : LiveContext F) (l : LaneId)
      → (live_approach all_red_sec ctx l).signal
        ≡ color_of (live_view all_red_sec ctx).green_now (live_view all_red_sec ctx).yellow_now l
  signal-live_approach all_red_sec ctx l =
      signal-approach_state (get l ctx.lane_stats_history) _ _ _

-- The approaches of a snapshot, when each has the signal that the lit lanes give it.
module _ {F : Type 0} (g y : Option LaneId) (f : LaneId → ApproachState F)
    (colored : (l : LaneId) → (f l).signal ≡ color_of g y l) where
  abbrev entry : LaneId → LaneId × ApproachState F
  entry l = (l, f l)

  signal_of :
      (lane : LaneId) (a : ApproachState F)
      → Memᴰ (lane, a) (map entry approach_names)
      → color_of g y lane ≡ a.signal
  signal_of lane a m =
      let (l, _, e) = Memᴰ.of_map entry approach_names m in
      let here : l ≡ lane = ap (λ t. t.0) e in
      ap (λ k. color_of g y k) (sym here) ∙ sym (colored l) ∙ ap (λ t. ApproachState.signal t.1) e

  entries_green :
      (lane : LaneId) (a : ApproachState F)
      → Memᴰ (lane, a) (map entry approach_names)
      → a.signal ≡ green
      → g ≡ some lane
  entries_green lane a m h = color-green g y lane (signal_of lane a m ∙ h)

  entries_yellow :
      (lane : LaneId) (a : ApproachState F)
      → Memᴰ (lane, a) (map entry approach_names)
      → a.signal ≡ yellow
      → y ≡ some lane
  entries_yellow lane a m h = color-yellow g y lane (signal_of lane a m ∙ h)

one_lit :
    (phase : PhaseState) (o : Option LaneId)
    → (lit_green phase o ≡ none) ⊎ (lit_yellow phase o ≡ none)
one_lit PhaseState.green o = inr refl
one_lit PhaseState.yellow o = inl refl
one_lit PhaseState.all_red o = inl refl

module _ {F : Type 0} ⦃fl : Float F⦄ where
  one_shown :
      (all_red elapsed : ℕ) (o : Option (SignalDecision F))
      → ((decision_view all_red elapsed o).green_now ≡ none)
        ⊎ ((decision_view all_red elapsed o).yellow_now ≡ none)
  unfolding decision_view
  one_shown all_red elapsed none = inl refl
  one_shown all_red elapsed (some d) =
      elim (Bool-cases (ltb elapsed (d.green_duration_sec * 1000))) [
        | inl h ↦ rw h (inr refl)
        | inr h ↦
            elim (Bool-cases
              (ltb elapsed (d.green_duration_sec * 1000 + d.yellow_duration_sec * 1000))) [
                | inl k ↦ rw (h, k) (inl refl)
                | inr k ↦ rw (h, k) (inl refl)
              ]
      ]

  -- In a simulated snapshot an approach is green or yellow only if the snapshot names it as its one
  -- green or yellow lane.
  pub sim_snapshot-IsExclusive : (st : Intersection F) → IsExclusive (build_sim_snapshot st)
  unfolding build_sim_snapshot
  sim_snapshot-IsExclusive st =
      let g = lit_green st.phase_state st.active_lane in
      let y = lit_yellow st.phase_state st.active_lane in
      record {
        lit_green_named =
            λ lane a m h. entries_green g y (sim_approach st) (signal-sim_approach st) lane a m h;
        lit_yellow_named =
            λ lane a m h. entries_yellow g y (sim_approach st) (signal-sim_approach st) lane a m h;
        one_only = one_lit st.phase_state st.active_lane;
      }

  -- The same of a live snapshot, whether the pipeline runs or not.
  pub live_snapshot-IsExclusive :
      (all_red_sec : ℕ) (ctx : LiveContext F) → IsExclusive (get_live_snapshot all_red_sec ctx)
  unfolding get_live_snapshot
  live_snapshot-IsExclusive all_red_sec ctx = elim (Bool-cases (ctx.pipeline_running)) [
    | inr stopped ↦ rw stopped (record {
      lit_green_named = λ lane a m h.
          entries_green none none (hold_approach ctx) (signal-hold_approach ctx) lane a m h;
      lit_yellow_named = λ lane a m h.
          entries_yellow none none (hold_approach ctx) (signal-hold_approach ctx) lane a m h;
      one_only = inl refl;
    })
    | inl runs ↦
        let v = live_view all_red_sec ctx in
        rw runs (record {
          lit_green_named = λ lane a m h.
              entries_green v.green_now v.yellow_now (live_approach all_red_sec ctx)
                (signal-live_approach all_red_sec ctx) lane a m h;
          lit_yellow_named = λ lane a m h.
              entries_yellow v.green_now v.yellow_now (live_approach all_red_sec ctx)
                (signal-live_approach all_red_sec ctx) lane a m h;
          one_only =
              one_shown all_red_sec (elapsed_ms ctx)
                (if live_stalled ctx then none else ctx.active_decision);
        })
  ]

  -- While perception is stalled, a live snapshot of a running pipeline names no lane as green or
  -- yellow, and its status is ALL_RED_HOLD.
  pub live_stall_is_dark :
      (all_red_sec : ℕ) (ctx : LiveContext F)
      → ctx.pipeline_running ≡ true
      → live_stalled ctx ≡ true
      → ((get_live_snapshot all_red_sec ctx).current_green_lane ≡ none)
        × ((get_live_snapshot all_red_sec ctx).current_yellow_lane ≡ none)
        × ((get_live_snapshot all_red_sec ctx).safety_status ≡ all_red_hold)
  unfolding get_live_snapshot
  live_stall_is_dark all_red_sec ctx runs stalled = (ground arith, ground arith, ground arith)
