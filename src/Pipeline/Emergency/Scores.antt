-- ===== src/Pipeline/Emergency/Scores.antt =====
-- Every lane that ai/pipeline/traffic_pipeline.py has statistics of is among the final scores.
use mathlib.Core.List.Memᴰ
use mathlib.Core.List.{Memᴰ}
use mathlib.Core.Path.{subst}
use smart_traffic_management.Common.{
  Bool-cases, List, String, [], ap, if◌then◌else◌, inl, inr, refl, some, sym, ℕ, ◌+◌, ◌∙◌, ◌∷◌, ◌≡◌,
}
use smart_traffic_management.Common.Dict.{Dict, get}
use smart_traffic_management.Common.Equality.{beq, beq→eq}
use smart_traffic_management.Common.Float.{Float}
use smart_traffic_management.Common.Sort.{insert_desc, sort_desc}
use smart_traffic_management.Pipeline.{Clocks, Pipeline}
use smart_traffic_management.Pipeline.Decide.{final_priority}
use smart_traffic_management.Signal.Emergency.{
  boosted, check_and_override, emergency_lanes, is_listed, overridden, override,
}
use smart_traffic_management.Signal.Priority.{base_score, base_scores, calculate}
use smart_traffic_management.Signal.Ranking.{assign_ranks, rank_scores, score_of}
use smart_traffic_management.Signal.Types.{
  LaneId, LaneStatistics, PriorityResult, PriorityScore, Stats, lane_id_eq_inst, or_now,
}

module _ {F : Type 0} ⦃fl : Float F⦄ where
  -- A lane is among the scores that rest on given ones, whatever their order, score and rank.
  abbrev pub HasLane : LaneId → List (PriorityScore F) → Type 0
  HasLane lane scores = (x : PriorityScore F) × Memᴰ x scores × (x.lane ≡ lane)

  later :
      {lane : LaneId} {y : PriorityScore F} {scores : List (PriorityScore F)}
      → HasLane lane scores
      → HasLane lane (y ∷ scores)
  later (x, m, e) = (x, Memᴰ.tail m, e)

  insert_desc-HasLane_self :
      (x : PriorityScore F) (ys : List (PriorityScore F))
      → HasLane x.lane (insert_desc score_of x ys)
  insert_desc-HasLane_self x [] = (x, Memᴰ.head refl, refl)
  insert_desc-HasLane_self x (y ∷ ys) = elim (Bool-cases (fl.lt x.score y.score)) [
    | inl below ↦ rw below (later (insert_desc-HasLane_self x ys))
    | inr above ↦ rw above (x, Memᴰ.head refl, refl)
  ]

  insert_desc-HasLane :
      (lane : LaneId) (x : PriorityScore F) (ys : List (PriorityScore F))
      → HasLane lane ys
      → HasLane lane (insert_desc score_of x ys)
  insert_desc-HasLane lane x [] has = absurd (elim has.1 [ ])
  insert_desc-HasLane lane x (y ∷ ys) (z, m, e) = elim (Bool-cases (fl.lt x.score y.score)) [
    | inr above ↦ rw above (z, Memᴰ.tail m, e)
    | inl below ↦ rw below (elim (Memᴰ.cases_cons m) [
      | inl here ↦ (y, Memᴰ.head refl, sym (ap (λ t. PriorityScore.lane t) here) ∙ e)
      | inr there ↦ later (insert_desc-HasLane lane x ys (z, there, e))
    ])
  ]

  sort_desc-HasLane :
      (lane : LaneId) (xs : List (PriorityScore F))
      → HasLane lane xs
      → HasLane lane (sort_desc score_of xs)
  sort_desc-HasLane lane [] has = has
  sort_desc-HasLane lane (x ∷ xs) (z, m, e) = elim (Memᴰ.cases_cons m) [
    | inl here ↦
        subst (λ l. HasLane l (sort_desc score_of (x ∷ xs)))
          (sym (ap (λ t. PriorityScore.lane t) here) ∙ e)
          (insert_desc-HasLane_self x (sort_desc score_of xs))
    | inr there ↦
        insert_desc-HasLane lane x (sort_desc score_of xs) (sort_desc-HasLane lane xs (z, there, e))
  ]

  assign_ranks-HasLane :
      (lane : LaneId) (n : ℕ) (xs : List (PriorityScore F))
      → HasLane lane xs
      → HasLane lane (assign_ranks n xs)
  unfolding assign_ranks
  assign_ranks-HasLane lane n [] has = has
  assign_ranks-HasLane lane n (x ∷ xs) (z, m, e) = elim (Memᴰ.cases_cons m) [
    | inl here ↦
        (record x { rank = n }, Memᴰ.head refl, sym (ap (λ t. PriorityScore.lane t) here) ∙ e)
    | inr there ↦ later (assign_ranks-HasLane lane (n + 1) xs (z, there, e))
  ]

  rank_scores-HasLane :
      (lane : LaneId) (scores : List (PriorityScore F)) (timestamp : F)
      → HasLane lane scores
      → HasLane lane (rank_scores scores timestamp).scores
  unfolding rank_scores
  rank_scores-HasLane lane scores timestamp has =
      assign_ranks-HasLane lane 1 (sort_desc score_of scores) (sort_desc-HasLane lane scores has)

  base_scores-HasLane :
      (weights : Dict String F) (lane : LaneId) (stats : LaneStatistics F) (lane_stats : Stats F)
      → get lane lane_stats ≡ some stats
      → HasLane lane (base_scores weights lane_stats)
  unfolding base_scores base_score
  base_scores-HasLane weights lane stats [] found = cc
  base_scores-HasLane weights lane stats ((k, s) ∷ rest) found = elim (Bool-cases (beq k lane)) [
    | inl same ↦ (base_score weights k s, Memᴰ.head refl, beq→eq k lane same)
    | inr apart ↦ later (base_scores-HasLane weights lane stats rest (rw apart at found))
  ]

  overridden-HasLane :
      (boost : F) (lanes : List LaneId) (lane : LaneId) (scores : List (PriorityScore F))
      → HasLane lane scores
      → HasLane lane (overridden boost lanes scores)
  unfolding overridden boosted
  overridden-HasLane boost lanes lane [] has = has
  overridden-HasLane boost lanes lane (x ∷ xs) (z, m, e) = elim (Memᴰ.cases_cons m) [
    | inr there ↦ later (overridden-HasLane boost lanes lane xs (z, there, e))
    | inl here ↦ (
      if is_listed lanes x then boosted boost x else x,
      Memᴰ.head refl,
      elim (Bool-cases (is_listed lanes x)) [
        | inl listed ↦ rw listed (sym (ap (λ t. PriorityScore.lane t) here) ∙ e)
        | inr plain ↦ rw plain (sym (ap (λ t. PriorityScore.lane t) here) ∙ e)
      ],
    )
  ]

  check_and_override-HasLane :
      (boost : F) (lane : LaneId) (result : PriorityResult F) (lane_stats : Stats F) (now : F)
      → HasLane lane result.scores
      → HasLane lane (check_and_override boost result lane_stats now).scores
  unfolding check_and_override
  check_and_override-HasLane boost lane result lane_stats now has =
      go result.scores (emergency_lanes lane_stats) has
    where
      go :
          (scores : List (PriorityScore F)) (lanes : List LaneId)
          → HasLane lane scores
          → HasLane lane (override boost result scores lanes now).scores
      go [] lanes none_there = absurd (elim none_there.1 [ ])
      go (s ∷ scores) [] h = has
      go (s ∷ scores) (l ∷ lanes) h =
          rank_scores-HasLane lane (overridden boost (l ∷ lanes) (s ∷ scores))
            (or_now result.timestamp now) (overridden-HasLane boost (l ∷ lanes) lane (s ∷ scores) h)

  -- Every lane of the statistics is among the final scores.
  pub final_priority-HasLane :
      (clocks : Clocks F) (lane_stats : Stats F) (p : Pipeline F) (lane : LaneId)
      (stats : LaneStatistics F)
      → get lane lane_stats ≡ some stats
      → HasLane lane (final_priority clocks lane_stats p).scores
  unfolding final_priority calculate
  final_priority-HasLane clocks lane_stats p lane stats found =
      check_and_override-HasLane p.boost lane (calculate p.weights lane_stats clocks.time)
        lane_stats clocks.time
        (rank_scores-HasLane lane (base_scores p.weights lane_stats) clocks.time
          (base_scores-HasLane p.weights lane stats lane_stats found))
