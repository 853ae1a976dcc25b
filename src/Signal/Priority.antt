-- ===== src/Signal/Priority.antt =====
-- ai/signal/priority_calculator.py: weighted base scores of the lanes, ranked.
use mathlib.Core.Path.{subst}
use smart_traffic_management.Common.{
  String, ap, map, ◌≡◌, refl, not, Option, none, some, List, [], ◌∷◌, or_default, if◌then◌else◌,
}
use smart_traffic_management.Common.Equality.{string_eq}
use smart_traffic_management.Common.Dict.{Dict, get, values}
use smart_traffic_management.Common.Float.{Float, FloatOrder, fl_zero, sum_from}
use smart_traffic_management.Signal.Types.{
  LaneId, PriorityScore, PriorityResult, LaneStatistics, Stats,
}
use smart_traffic_management.Signal.Ranking.{rank_scores, IsRanked, rank_scores-IsRanked}

module _ {F : Type 0} ⦃fl : Float F⦄ where
  -- `PRIORITY_WEIGHTS`, which are the defaults of the normalisation too
  abbrev pub default_weights : Dict String F
  default_weights = ("pce", fl.lit 45) ∷ ("queue", fl.lit 35) ∷ ("congestion", fl.lit 20) ∷ []

  -- `{k: round(v / total, 4) for k, v in weights.items()}`
  unfoldable pub scale_weights : F → Dict String F → Dict String F
  scale_weights total [] = []
  scale_weights total ((k, v) ∷ rest) = (k, fl.round4 (fl.div v total)) ∷ scale_weights total rest

  unfoldable pub normalize_weights : Dict String F → Dict String F
  unfolding scale_weights
  normalize_weights weights =
      let total = sum_from fl_zero (values weights) in
      if not (fl.lt fl_zero total) then default_weights else scale_weights total weights

  -- `weights or PRIORITY_WEIGHTS`
  unfoldable pub init_weights : Option (Dict String F) → Dict String F
  unfolding normalize_weights
  init_weights none = normalize_weights default_weights
  init_weights (some []) = normalize_weights default_weights
  init_weights (some (w ∷ weights)) = normalize_weights (w ∷ weights)

  unfoldable pub base_score : Dict String F → LaneId → LaneStatistics F → PriorityScore F
  base_score weights lane stats =
      let pce_contrib = fl.mul (or_default (get "pce" weights) (fl.lit 45)) stats.pce_score in
      let queue_contrib =
        fl.mul (or_default (get "queue" weights) (fl.lit 35)) stats.total_queue_time_sec in
      let congestion_contrib =
        fl.mul (or_default (get "congestion" weights) (fl.lit 20)) stats.congestion_index in
      record {
        lane = lane;
        score = fl.round2 (fl.add (fl.add pce_contrib queue_contrib) congestion_contrib);
        rank = 0;
        breakdown = record {
          pce = fl.round2 pce_contrib;
          queue = fl.round2 queue_contrib;
          congestion = fl.round2 congestion_contrib;
          fairness_bonus = fl_zero;
          raw_pce = stats.pce_score;
          raw_queue_sec = stats.total_queue_time_sec;
          raw_congestion_index = stats.congestion_index;
        };
      }

  unfoldable pub base_scores : Dict String F → Stats F → List (PriorityScore F)
  unfolding base_score
  base_scores weights [] = []
  base_scores weights ((lane, stats) ∷ rest) =
      base_score weights lane stats ∷ base_scores weights rest

  unfoldable pub calculate : Dict String F → Stats F → F → PriorityResult F
  unfolding base_scores rank_scores
  calculate weights lane_stats now = rank_scores (base_scores weights lane_stats) now

  -- The base score of a lane, from its statistics: the weighted sum of its vehicle equivalents, its
  -- queue time and its congestion, rounded, and each term rounded.
  abbrev pub weighed : Dict String F → LaneId × LaneStatistics F → PriorityScore F
  weighed weights (lane, stats) =
      let w_pce = or_default (get "pce" weights) (fl.lit 45) in
      let w_queue = or_default (get "queue" weights) (fl.lit 35) in
      let w_congestion = or_default (get "congestion" weights) (fl.lit 20) in
      record {
        lane = lane;
        score = fl.round2 (
            fl.add
              (fl.add (fl.mul w_pce stats.pce_score) (fl.mul w_queue stats.total_queue_time_sec))
              (fl.mul w_congestion stats.congestion_index));
        rank = 0;
        breakdown = record {
          pce = fl.round2 (fl.mul w_pce stats.pce_score);
          queue = fl.round2 (fl.mul w_queue stats.total_queue_time_sec);
          congestion = fl.round2 (fl.mul w_congestion stats.congestion_index);
          fairness_bonus = fl_zero;
          raw_pce = stats.pce_score;
          raw_queue_sec = stats.total_queue_time_sec;
          raw_congestion_index = stats.congestion_index;
        };
      }

  base_scores-weighed :
      (weights : Dict String F) (lane_stats : Stats F)
      → base_scores weights lane_stats ≡ map (weighed weights) lane_stats
  unfolding base_scores base_score
  base_scores-weighed weights [] = refl
  base_scores-weighed weights ((lane, stats) ∷ rest) =
      ap (λ scores. weighed weights (lane, stats) ∷ scores) (base_scores-weighed weights rest)

  -- The calculated result holds, for each lane of the statistics, the weighted sum of its vehicle
  -- equivalents, its queue time and its congestion, with the weights 0.45, 0.35 and 0.20 where none
  -- are set, in descending order, ranked from 1, with the first as the highest.
  pub calculate-IsRanked :
      FloatOrder F
      → (weights : Dict String F) (lane_stats : Stats F) (now : F)
      → IsRanked (map (weighed weights) lane_stats) (calculate weights lane_stats now)
  unfolding calculate
  calculate-IsRanked order weights lane_stats now =
      subst (λ given. IsRanked given (calculate weights lane_stats now))
        (base_scores-weighed weights lane_stats)
        (rank_scores-IsRanked order (base_scores weights lane_stats) now)
