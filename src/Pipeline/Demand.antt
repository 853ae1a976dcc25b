-- ===== src/Pipeline/Demand.antt =====
-- Which lanes ai/pipeline/traffic_pipeline.py counts as fresh, and what it means that it selects none.
use smart_traffic_management.Common.{
  Bool-cases, List, [], any, ap, inl, inr, ltb, lt→ltb, ltb→lt, none, or_default, refl, some, sym,
  true, ℕ, ◌-◌, ◌<◌, ◌∙◌, ◌∷◌, ◌≡◌,
}
use smart_traffic_management.Common.Dict.{get}
use smart_traffic_management.Common.Equality.{beq, beq→eq, eq→beq}
use smart_traffic_management.Common.Float.{Float}
use smart_traffic_management.Pipeline.{Clocks, Pipeline}
use smart_traffic_management.Pipeline.Decide.{final_priority, fresh_lanes, select_next}
use smart_traffic_management.Pipeline.Emergency.Scores.{final_priority-HasLane}
use smart_traffic_management.Signal.Scheduler.{Scheduler, in_demand}
use smart_traffic_management.Signal.Scheduler.Rotation.{select_eligible-none}
use smart_traffic_management.Signal.Types.{
  Lane, LaneId, LaneStatistics, PriorityScore, Stats, approach, lane_id_eq_inst,
}

module _ {F : Type 0} where
  -- The lane was seen less than three seconds ago.
  abbrev pub IsRecent : ℕ → LaneId → Pipeline F → Type 0
  IsRecent now_mono lane p = now_mono - or_default (get lane p.lane_last_seen) 0 < 3000

module _ {F : Type 0} ⦃fl : Float F⦄ where
  pub fresh_lanes-IsRecent :
      (now_mono : ℕ) (lane : LaneId) (lane_stats : Stats F) (p : Pipeline F)
      → any (beq lane) (fresh_lanes now_mono lane_stats p) ≡ true
      → IsRecent now_mono lane p
  unfolding fresh_lanes
  fresh_lanes-IsRecent now_mono lane [] p h = cc
  fresh_lanes-IsRecent now_mono lane ((k, stats) ∷ rest) p h =
      elim (Bool-cases (ltb (now_mono - or_default (get k p.lane_last_seen) 0) 3000)) [
        | inr old ↦ fresh_lanes-IsRecent now_mono lane rest p (rw old at h)
        | inl recent ↦ elim (Bool-cases (beq lane k)) [
          | inl same ↦ ltb→lt _ _ (
              ap (λ l. ltb (now_mono - or_default (get l p.lane_last_seen) 0) 3000)
                (beq→eq lane k same)
              ∙ recent)
          | inr apart ↦ fresh_lanes-IsRecent now_mono lane rest p (rw (recent, apart) at h)
        ]
      ]

  IsRecent-fresh_lanes :
      (now_mono : ℕ) (lane : LaneId) (lane_stats : Stats F) (p : Pipeline F)
      (stats : LaneStatistics F)
      → get lane lane_stats ≡ some stats
      → IsRecent now_mono lane p
      → any (beq lane) (fresh_lanes now_mono lane_stats p) ≡ true
  unfolding fresh_lanes
  IsRecent-fresh_lanes now_mono lane [] p stats g recent = cc
  IsRecent-fresh_lanes now_mono lane ((k, s) ∷ rest) p stats g recent =
      elim (Bool-cases (beq k lane)) [
        | inl same ↦
            let late : ltb (now_mono - or_default (get k p.lane_last_seen) 0) 3000 ≡ true =
              ap (λ l. ltb (now_mono - or_default (get l p.lane_last_seen) 0) 3000)
                (beq→eq k lane same)
              ∙ lt→ltb _ _ recent in
            rw (late, eq→beq lane k (sym (beq→eq k lane same))) refl
        | inr apart ↦
            let after = IsRecent-fresh_lanes now_mono lane rest p stats (rw apart at g) recent in
            elim (Bool-cases (ltb (now_mono - or_default (get k p.lane_last_seen) 0) 3000)) [
              | inr old ↦ rw old after
              | inl late ↦ elim (Bool-cases (beq lane k)) [
                | inl here ↦ rw (late, here) refl
                | inr away ↦ rw (late, away) after
              ]
            ]
      ]

  -- No approach has vehicles and was seen less than three seconds ago.
  abbrev pub NoneDemands : Clocks F → Stats F → Pipeline F → Type 0
  NoneDemands clocks lane_stats p =
      (lane : Lane) (stats : LaneStatistics F)
      → get (approach lane) lane_stats ≡ some stats
      → 0 < stats.raw_count
      → IsRecent clocks.now_mono (approach lane) p
      → ⊥

  fresh_and_busy :
      (lane_stats : Stats F) (fresh : List LaneId) (x : PriorityScore F) (stats : LaneStatistics F)
      → any (beq x.lane) fresh ≡ true
      → get x.lane lane_stats ≡ some stats
      → 0 < stats.raw_count
      → in_demand lane_stats fresh x ≡ true
  unfolding in_demand
  fresh_and_busy lane_stats fresh x stats is_fresh found busy =
      rw (is_fresh, found) (lt→ltb 0 stats.raw_count busy)

  pub select_next-NoneDemands :
      (clocks : Clocks F) (lane_stats : Stats F) (p : Pipeline F) (s : Scheduler)
      → select_next clocks lane_stats p ≡ (s, none)
      → NoneDemands clocks lane_stats p
  unfolding select_next
  select_next-NoneDemands clocks lane_stats p s chosen lane stats found busy recent =
      let (x, scored, of_lane) =
        final_priority-HasLane clocks lane_stats p (approach lane) stats found in
      let fresh = fresh_lanes clocks.now_mono lane_stats p in
      let is_fresh =
        IsRecent-fresh_lanes clocks.now_mono (approach lane) lane_stats p stats found recent in
      let demanded =
        fresh_and_busy lane_stats fresh x stats (ap (λ k. any (beq k) fresh) of_lane ∙ is_fresh)
          (ap (λ k. get k lane_stats) of_lane ∙ found) busy in
      select_eligible-none p.signal_scheduler s lane (final_priority clocks lane_stats p) lane_stats
        fresh x chosen scored of_lane demanded
