-- ===== src/Pipeline/Lanes.antt =====
-- The statistics of all lanes that ai/pipeline/traffic_pipeline.py decides on: those of the frames,
-- and for three seconds those that it remembers.
use mathlib.Core.Path.{subst}
use smart_traffic_management.Common.{
  Bool, Bool-cases, List, Option, [], any, ap, arith, if◌then◌else◌, inl, inr, ltb, none,
  or_default, refl, some, sym, true, ℕ, ◌-◌, ◌∙◌, ◌∷◌, ◌≡◌, ◌⊎◌,
}
use smart_traffic_management.Common.Dict.{get, get-put, put}
use smart_traffic_management.Common.Equality.{beq, beq→eq, eq→beq}
use smart_traffic_management.Common.Float.{Float}
use smart_traffic_management.Pipeline.{Pipeline}
use smart_traffic_management.Pipeline.Gather.{merge_lane, merge_lanes, recalled, unseen_ms}
use smart_traffic_management.Signal.Types.{
  LaneId, LaneStatistics, Stats, lane_id_eq_inst, no_statistics,
}

module _ {F : Type 0} ⦃fl : Float F⦄ where
  abbrev pub forgotten : LaneStatistics F → LaneStatistics F
  forgotten hist = no_statistics hist.lane_name

  -- A lane that is not in the frames, from its time and what is remembered of it.
  abbrev pub recall : Bool → LaneId → Option (LaneStatistics F) → LaneStatistics F
  recall old lane none = no_statistics lane
  recall old lane (some hist) = if old then forgotten hist else hist

  recalled-recall :
      (now : ℕ) (lane : LaneId) (o : Option (LaneStatistics F)) (p : Pipeline F)
      → (recalled now lane o p).0 ≡ recall (ltb 3000 (unseen_ms now lane p)) lane o
  recalled-recall now lane none p = refl
  recalled-recall now lane (some hist) p = elim (Bool-cases (ltb 3000 (unseen_ms now lane p))) [
    | inl old ↦ rw old refl
    | inr recent ↦ rw recent refl
  ]

  recall_again :
      (old : Bool) (lane : LaneId) (o : Option (LaneStatistics F)) (hist : LaneStatistics F)
      → o ≡ some hist
      → old ≡ true
      → recall old lane (some (forgotten hist)) ≡ recall old lane o
  recall_again old lane o hist e h = rw (e, h) refl

  -- Another visit of the loop leaves what is recalled of a lane.
  recalled_later :
      (now : ℕ) (k lane : LaneId) (o : Option (LaneStatistics F)) (p : Pipeline F)
      → get k p.lane_stats_history ≡ o
      → let p' = (recalled now k o p).1 in
        (p'.lane_last_seen ≡ p.lane_last_seen)
        × (recall (ltb 3000 (unseen_ms now lane p)) lane (get lane p'.lane_stats_history)
            ≡ recall (ltb 3000 (unseen_ms now lane p)) lane (get lane p.lane_stats_history))
  recalled_later now k lane none p e = (refl, refl)
  recalled_later now k lane (some hist) p e = elim (Bool-cases (ltb 3000 (unseen_ms now k p))) [
    | inr recent ↦ rw recent (refl, refl)
    | inl old ↦ rw old (
      refl,
      ap (recall (ltb 3000 (unseen_ms now lane p)) lane)
            (get-put k lane (forgotten hist) p.lane_stats_history)
          ∙ elim (Bool-cases (beq k lane)) [
            | inr apart ↦ rw apart refl
            | inl same ↦
                let key : k ≡ lane = beq→eq k lane same in
                rw same (
                  recall_again (ltb 3000 (unseen_ms now lane p)) lane
                    (get lane p.lane_stats_history) hist
                    (subst (λ t. get t p.lane_stats_history ≡ some hist) key e)
                    (subst (λ t. ltb 3000 (unseen_ms now t p) ≡ true) key old))
          ],
    )
  ]

  merge_lane_later :
      (now : ℕ) (lane_stats : Stats F) (k lane : LaneId) (o : Option (LaneStatistics F))
      (p : Pipeline F)
      → let p' = (merge_lane now k o p).1 in
        (p'.lane_last_seen ≡ p.lane_last_seen)
        × (recall (ltb 3000 (unseen_ms now lane p)) lane (get lane p'.lane_stats_history)
            ≡ recall (ltb 3000 (unseen_ms now lane p)) lane (get lane p.lane_stats_history))
  merge_lane_later now lane_stats k lane (some stats) p = (refl, refl)
  merge_lane_later now lane_stats k lane none p =
      recalled_later now k lane (get k p.lane_stats_history) p refl

  -- What is merged for a lane, from what the frames have of it.
  abbrev pub merge_value : ℕ → LaneId → Option (LaneStatistics F) → Pipeline F → LaneStatistics F
  merge_value now lane (some stats) p = stats
  merge_value now lane none p =
      recall (ltb 3000 (unseen_ms now lane p)) lane (get lane p.lane_stats_history)

  merge_lane-value :
      (now : ℕ) (lane : LaneId) (o : Option (LaneStatistics F)) (p : Pipeline F)
      → (merge_lane now lane o p).0 ≡ merge_value now lane o p
  merge_lane-value now lane (some stats) p = refl
  merge_lane-value now lane none p = recalled-recall now lane (get lane p.lane_stats_history) p

  value_later :
      (now : ℕ) (lane_stats : Stats F) (k lane : LaneId) (o o' : Option (LaneStatistics F))
      (p : Pipeline F)
      → merge_value now lane o (merge_lane now k o' p).1 ≡ merge_value now lane o p
  value_later now lane_stats k lane (some stats) o' p = refl
  value_later now lane_stats k lane none o' p =
      let (seen, same) = merge_lane_later now lane_stats k lane o' p in
      let p' = (merge_lane now k o' p).1 in
      ap
        (λ d.
          recall (ltb 3000 (now - or_default (get lane d) 0)) lane (get lane p'.lane_stats_history))
        seen
      ∙ same

  pub merge_lanes-get :
      (now : ℕ) (lane_stats : Stats F) (lanes : List LaneId) (lane : LaneId) (acc : Stats F)
      (p : Pipeline F)
      → (any (beq lane) lanes ≡ true)
        ⊎ (get lane acc ≡ some (merge_value now lane (get lane lane_stats) p))
      → get lane (merge_lanes now lane_stats lanes acc p).0
        ≡ some (merge_value now lane (get lane lane_stats) p)
  unfolding merge_lanes
  merge_lanes-get now lane_stats [] lane acc p (inl here) = cc
  merge_lanes-get now lane_stats [] lane acc p (inr before) = before
  merge_lanes-get now lane_stats (k ∷ lanes) lane acc p when =
      let o = get k lane_stats in
      let later = value_later now lane_stats k lane (get lane lane_stats) o p in
      merge_lanes-get now lane_stats lanes lane (put k (merge_lane now k o p).0 acc)
        (merge_lane now k o p).1
        (elim (Bool-cases (beq k lane)) [
          | inl same ↦
              let key : k ≡ lane = beq→eq k lane same in
              inr (
                get-put k lane (merge_lane now k o p).0 acc
                ∙ rw same (
                    ap some (
                      merge_lane-value now k o p
                      ∙ ap (λ t. merge_value now t (get t lane_stats) p) key
                      ∙ sym later)))
          | inr apart ↦ elim when [
            | inl here ↦ inl (ground (arith, here, apart, beq→eq lane k, eq→beq k lane))
            | inr before ↦ inr (
                get-put k lane (merge_lane now k o p).0 acc
                ∙ rw apart (before ∙ ap some (sym later)))
          ]
        ])
      ∙ ap some later
