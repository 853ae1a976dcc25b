-- ===== src/Stabilizer.antt =====
-- ai/state/count_stabilizer.py: smoothed vehicle counts for the scheduler, and the record of how
-- stable its decisions are. Lanes are keys of any type: the code keeps the text as it is given. The
-- report entries, which only the log file shows, are left out.
use smart_traffic_management.Common.{
  Bool, List, Option, [], drop, false, if◌then◌else◌, length, ltb, map, none, not, or_default, some,
  true, ℕ, ◌&&◌, ◌++◌, ◌+◌, ◌-◌, ◌==◌, ◌∷◌,
}
use smart_traffic_management.Common.Dict.{Dict, get, put}
use smart_traffic_management.Common.Equality.{Eq, beq}
use smart_traffic_management.Common.Float.{Float, fl_max, fl_zero, negsuc, of_ℕ, pos, ℤ}
use smart_traffic_management.Signal.Types.{LaneStatistics}
pub mod History
pub mod Metrics

-- `ema`, `history`: one entry for each lane that was ever seen.
pub record CountStabilizer (K F : Type 0) : Type 0 where
  pub alpha : F
  pub history_size : ℕ
  pub count_history : Dict K (List ℕ)
  pub ema : Dict K F
  pub max_raw_smoothed_delta : F

-- `deque(maxlen=n)`: the last n elements.
abbrev pub bounded {ℓ} : {A : Type ℓ} → ℕ → List A → List A
bounded n xs = drop (length xs - n) xs

-- `int(n)` of a count, which is not negative.
abbrev pub count_of : ℤ → ℕ
count_of (pos n) = n
count_of (negsuc n) = 0

module _ {F : Type 0} ⦃fl : Float F⦄ where
  -- The first count of a lane is taken as it is.
  unfoldable pub next_ema : F → List ℕ → ℕ → F → F
  next_ema alpha history raw_count prev_ema =
      if length history == 1
      then of_ℕ raw_count
      else fl.add (fl.mul alpha (of_ℕ raw_count)) (fl.mul (fl.sub (fl.lit 100) alpha) prev_ema)

  -- The copy of the statistics that the scheduler reads.
  unfoldable pub smoothed : LaneStatistics F → F → LaneStatistics F
  smoothed stats new_ema =
      let live = count_of (fl.round new_ema) in
      record stats {
        smoothed_count = fl.round2 new_ema;
        raw_count = stats.live_count;
        live_count = live;
        pce_score =
            if ltb 0 stats.live_count && not (live == stats.live_count)
            then fl.round2 (fl.mul stats.pce_score (fl.div (of_ℕ live) (of_ℕ stats.live_count)))
            else stats.pce_score;
      }

  abbrev fl_abs : F → F
  fl_abs x = if fl.lt x fl_zero then fl.sub fl_zero x else x

module _ {K F : Type 0} ⦃e : Eq K⦄ ⦃fl : Float F⦄ where
  -- `_count_history.get(lane)`, with an empty one where there is none
  abbrev pub history_of : CountStabilizer K F → K → List ℕ
  history_of c lane = or_default (get lane c.count_history) []

  abbrev pub ema_of : CountStabilizer K F → K → F
  ema_of c lane = or_default (get lane c.ema) fl_zero

  -- `__init__`, whose lanes are the four names.
  unfoldable pub new_stabilizer : List K → F → ℕ → CountStabilizer K F
  new_stabilizer lanes alpha history_size = record {
    alpha = alpha;
    history_size = history_size;
    count_history = map (λ lane. (lane, [])) lanes;
    ema = map (λ lane. (lane, fl_zero)) lanes;
    max_raw_smoothed_delta = fl_zero;
  }

  -- The body of the loop: one lane.
  unfoldable pub smooth_lane :
      K → LaneStatistics F → CountStabilizer K F → LaneStatistics F × CountStabilizer K F
  unfolding next_ema smoothed
  smooth_lane lane stats c =
      let history = bounded c.history_size (history_of c lane ++ stats.live_count ∷ []) in
      let new_ema = next_ema c.alpha history stats.live_count (ema_of c lane) in
      (
        smoothed stats new_ema,
        record c {
          count_history = put lane history c.count_history;
          ema = put lane new_ema c.ema;
          max_raw_smoothed_delta =
              fl_max c.max_raw_smoothed_delta (fl_abs (fl.sub (of_ℕ stats.live_count) new_ema));
        },
      )

  unfoldable pub stabilize :
      Dict K (LaneStatistics F)
      → CountStabilizer K F
      → Dict K (LaneStatistics F) × CountStabilizer K F
  stabilize [] c = ([], c)
  stabilize ((lane, stats) ∷ rest) c =
      let (stable, c') = smooth_lane lane stats c in
      let (others, c'') = stabilize rest c' in ((lane, stable) ∷ others, c'')

-- `StabilityMetrics`, less the largest delta, which stands in the stabilizer.
pub record StabilityMetrics (K : Type 0) : Type 0 where
  pub total_decisions : ℕ
  pub stable_decisions : ℕ
  pub flipped_decisions : ℕ
  pub last_decision_lane : Option K
  pub consecutive_stable_frames : ℕ

module _ {K : Type 0} where
  abbrev pub no_metrics : StabilityMetrics K
  no_metrics = record {
    total_decisions = 0;
    stable_decisions = 0;
    flipped_decisions = 0;
    last_decision_lane = none;
    consecutive_stable_frames = 0;
  }

module _ {K : Type 0} ⦃e : Eq K⦄ where
  abbrev pub is_last : Option K → K → Bool
  is_last none lane = false
  is_last (some last) lane = beq last lane

  -- Whether the decision is the same as before, and the new metrics.
  unfoldable pub update_decision_stability : K → StabilityMetrics K → Bool × StabilityMetrics K
  update_decision_stability lane m =
      if is_last m.last_decision_lane lane
      then (
        true,
        record m {
          total_decisions = m.total_decisions + 1;
          stable_decisions = m.stable_decisions + 1;
          consecutive_stable_frames = m.consecutive_stable_frames + 1;
        },
      )
      else (
        false,
        record m {
          total_decisions = m.total_decisions + 1;
          flipped_decisions = m.flipped_decisions + 1;
          consecutive_stable_frames = 0;
          last_decision_lane = some lane;
        },
      )
