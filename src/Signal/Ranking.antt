-- ===== src/Signal/Ranking.antt =====
-- The ranking that ai/signal/priority_calculator.py, fairness_manager.py and emergency_override.py
-- end with: sort by descending score, number the ranks from 1, and take the first as the highest.
use mathlib.Core.List.{Perm}
use mathlib.Core.List.Perm
use smart_traffic_management.Common.{ℕ, ◌+◌, ◌≡◌, refl, ap, false, List, [], ◌∷◌, map, head?, All}
use smart_traffic_management.Common.Float.{Float, FloatOrder}
use smart_traffic_management.Common.Sort.{
  sort_desc, sort_desc-perm, sort_desc-IsDescending, IsDescending,
}
use smart_traffic_management.Signal.Types.{PriorityScore, PriorityResult}

module _ {F : Type 0} where
  abbrev pub score_of : PriorityScore F → F
  score_of s = s.score

  -- `for rank_idx, s in enumerate(scores, start=n): s.rank = rank_idx`
  unfoldable pub assign_ranks : ℕ → List (PriorityScore F) → List (PriorityScore F)
  assign_ranks n [] = []
  assign_ranks n (s ∷ rest) = record s { rank = n } ∷ assign_ranks (n + 1) rest

  -- A score without its rank.
  abbrev pub unranked : PriorityScore F → PriorityScore F
  unranked s = record s { rank = 0 }

  abbrev pub count_from : ℕ → List (PriorityScore F) → List ℕ
  count_from n [] = []
  count_from n (s ∷ rest) = n ∷ count_from (n + 1) rest

module _ {F : Type 0} ⦃fl : Float F⦄ where
  unfoldable pub rank_scores : List (PriorityScore F) → F → PriorityResult F
  unfolding assign_ranks
  rank_scores scores timestamp =
      let ranked = assign_ranks 1 (sort_desc score_of scores) in
      record { scores = ranked; highest_priority = head? ranked; timestamp = timestamp }

  -- The result holds the given scores, apart from their ranks, in descending order; the ranks are
  -- 1, 2, 3 and so on, and the first score is the highest.
  pub record IsRanked (given : List (PriorityScore F)) (r : PriorityResult F) : Type 0 where
    pub same_scores : Perm (map unranked r.scores) (map unranked given)
    pub descending : IsDescending score_of r.scores
    pub numbered : map (λ s. PriorityScore.rank s) r.scores ≡ count_from 1 r.scores
    pub highest : r.highest_priority ≡ head? r.scores

  unranked-assign_ranks :
      (n : ℕ) (xs : List (PriorityScore F)) → map unranked (assign_ranks n xs) ≡ map unranked xs
  unfolding assign_ranks
  unranked-assign_ranks n [] = refl
  unranked-assign_ranks n (x ∷ xs) = ap (◌∷◌ (unranked x)) (unranked-assign_ranks (n + 1) xs)

  ranks-assign_ranks :
      (n : ℕ) (xs : List (PriorityScore F))
      → map (λ s. PriorityScore.rank s) (assign_ranks n xs) ≡ count_from n (assign_ranks n xs)
  unfolding assign_ranks
  ranks-assign_ranks n [] = refl
  ranks-assign_ranks n (x ∷ xs) = ap (◌∷◌ n) (ranks-assign_ranks (n + 1) xs)

  All-assign_ranks :
      (n : ℕ) (a : F) (xs : List (PriorityScore F))
      → All (λ y. fl.lt a (score_of y) ≡ false) xs
      → All (λ y. fl.lt a (score_of y) ≡ false) (assign_ranks n xs)
  unfolding assign_ranks
  All-assign_ranks n a [] h = tt
  All-assign_ranks n a (x ∷ xs) (h, rest) = (h, All-assign_ranks (n + 1) a xs rest)

  assign_ranks-IsDescending :
      (n : ℕ) (xs : List (PriorityScore F))
      → IsDescending score_of xs
      → IsDescending score_of (assign_ranks n xs)
  unfolding assign_ranks
  assign_ranks-IsDescending n [] d = tt
  assign_ranks-IsDescending n (x ∷ xs) (a, d) =
      (All-assign_ranks (n + 1) x.score xs a, assign_ranks-IsDescending (n + 1) xs d)

  pub rank_scores-IsRanked :
      FloatOrder F
      → (given : List (PriorityScore F)) (timestamp : F)
      → IsRanked given (rank_scores given timestamp)
  unfolding rank_scores
  rank_scores-IsRanked order given timestamp = record {
    same_scores =
        rw (unranked-assign_ranks 1 (sort_desc score_of given))
          (Perm.map unranked (sort_desc-perm score_of given));
    descending =
        assign_ranks-IsDescending 1 (sort_desc score_of given)
          (sort_desc-IsDescending order score_of given);
    numbered = ranks-assign_ranks 1 (sort_desc score_of given);
    highest = refl;
  }
