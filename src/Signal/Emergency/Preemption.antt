-- ===== src/Signal/Emergency/Preemption.antt =====
-- The override of ai/signal/emergency_override.py puts a lane with a priority vehicle first.
use mathlib.Core.List.{Memᴰ, Perm}
use mathlib.Core.List.Memᴰ
use mathlib.Core.List.Perm
use mathlib.Core.Logic.{∥∥₁_elim}
use mathlib.Core.HLevel.{⊥_prop}
use mathlib.Core.Path.{subst}
use mathlib.Core.Bool.{false≢true}
use smart_traffic_management.Common.{
  ◌≡◌, refl, sym, ap, ◌∙◌, inl, inr, true, false, some, List, [], ◌∷◌, map, Bool-cases, head?, any,
  All, All-Memᴰ, if◌then◌else◌,
}
use smart_traffic_management.Common.Equality.{beq, beq→eq, eq→beq}
use smart_traffic_management.Common.Float.{Float, FloatOrder}
use smart_traffic_management.Signal.Types.{
  LaneId, LaneStatistics, PriorityScore, PriorityResult, Stats, lane_id_eq_inst,
}
use smart_traffic_management.Signal.Ranking.{IsRanked, rank_scores-IsRanked, unranked, score_of}
use smart_traffic_management.Common.Sort.{IsDescending}
use smart_traffic_management.Signal.Emergency.{
  emergency_lanes, is_listed, boosted, overridden, override, check_and_override,
}

module _ {F : Type 0} ⦃fl : Float F⦄ (boost : F) (lanes : List LaneId) where
  -- What `overridden` makes of one score.
  abbrev after : PriorityScore F → PriorityScore F
  after s = if is_listed lanes s then boosted boost s else s

  after_listed : (s : PriorityScore F) → is_listed lanes s ≡ true → after s ≡ boosted boost s
  after_listed s h = rw h

  after_plain : (s : PriorityScore F) → is_listed lanes s ≡ false → after s ≡ s
  after_plain s h = rw h

  overridden-Memᴰ :
      (scores : List (PriorityScore F)) {s : PriorityScore F}
      → Memᴰ s scores
      → Memᴰ (after s) (overridden boost lanes scores)
  unfolding overridden
  overridden-Memᴰ [] m = elim m [ ]
  overridden-Memᴰ (x ∷ xs) (Memᴰ.head e) = Memᴰ.head (ap (λ t. after t) e)
  overridden-Memᴰ (x ∷ xs) (Memᴰ.tail t) = Memᴰ.tail (overridden-Memᴰ xs t)

  Memᴰ-overridden :
      (scores : List (PriorityScore F)) (w : PriorityScore F)
      → Memᴰ w (overridden boost lanes scores)
      → (s : PriorityScore F) × Memᴰ s scores × (w ≡ after s)
  unfolding overridden
  Memᴰ-overridden [] w m = elim m [ ]
  Memᴰ-overridden (x ∷ xs) w (Memᴰ.head e) = (x, Memᴰ.head refl, e)
  Memᴰ-overridden (x ∷ xs) w (Memᴰ.tail t) =
      let (s, m, e) = Memᴰ-overridden xs w t in (s, Memᴰ.tail m, e)

  -- Every listed score with the boost is above every score that is not listed.
  abbrev pub BoostPrevails : List (PriorityScore F) → Type 0
  BoostPrevails scores =
      (x y : PriorityScore F)
      → Memᴰ x scores
      → Memᴰ y scores
      → is_listed lanes x ≡ true
      → is_listed lanes y ≡ false
      → fl.lt y.score (boosted boost x).score ≡ true

  -- Where the first of the ranked scores stands.
  first_is_listed :
      FloatOrder F
      → (scores : List (PriorityScore F)) (x w : PriorityScore F) (ws : List (PriorityScore F))
      → BoostPrevails scores
      → Memᴰ x scores
      → is_listed lanes x ≡ true
      → Perm (map unranked (w ∷ ws)) (map unranked (overridden boost lanes scores))
      → All (λ y. fl.lt w.score (PriorityScore.score y) ≡ false) ws
      → is_listed lanes w ≡ false
      → ⊥
  unfolding boosted
  first_is_listed order scores x w ws prevails m listed perm desc calm =
      ∥∥₁_elim ((Perm.mem_iff perm).0 ∣ Memᴰ.head refl ∣₁) ⊥_prop λ here.
        let (o, o_in, same) = Memᴰ.of_map unranked (overridden boost lanes scores) here in
        let (y, y_in, made) = Memᴰ-overridden scores o o_in in
        elim (Bool-cases (is_listed lanes y)) [
          | inl l ↦
              let lane : y.lane ≡ w.lane =
                sym (ap (λ t. PriorityScore.lane t) (made ∙ after_listed y l))
                ∙ ap (λ t. PriorityScore.lane t) same in
              cc (ap (λ k. any (beq k) lanes) lane)
          | inr n ↦
              let score : y.score ≡ w.score =
                sym (ap (λ t. PriorityScore.score t) (made ∙ after_plain y n))
                ∙ ap (λ t. PriorityScore.score t) same in
              let above : fl.lt w.score (boosted boost x).score ≡ true =
                rw (← score) (prevails x y m y_in listed n) in
              ∥∥₁_elim ((Perm.mem_iff perm).1 ∣ Memᴰ.map unranked (overridden-Memᴰ scores m) ∣₁)
                ⊥_prop
                λ there.
                  let (v, v_in, same') = Memᴰ.of_map unranked (w ∷ ws) there in
                  let top : v.score ≡ (boosted boost x).score =
                    ap (λ t. PriorityScore.score t)
                      (same' ∙ ap (λ t. unranked t) (after_listed x listed)) in
                  elim (Memᴰ.cases_cons v_in) [
                    | inl e ↦
                        let self : fl.lt w.score w.score ≡ true =
                          subst (λ t. fl.lt w.score t ≡ true)
                            (sym (ap (λ t. PriorityScore.score t) (sym e) ∙ top)) above in
                        cc (order.lt_asymm w.score w.score self)
                    | inr t ↦
                        let below : fl.lt w.score v.score ≡ false =
                          All-Memᴰ (λ y. fl.lt w.score (PriorityScore.score y) ≡ false) ws desc t in
                        cc
                  ]
        ]

module _ {F : Type 0} ⦃fl : Float F⦄ (boost : F) (result : PriorityResult F)
    (lane_stats : Stats F) where
  -- Without a priority vehicle in the statistics, the result is handed back unchanged.
  pub check_and_override_calm :
      (now : F)
      → emergency_lanes lane_stats ≡ []
      → check_and_override boost result lane_stats now ≡ result
  unfolding check_and_override
  check_and_override_calm now calm = rw calm (go result.scores)
    where
      go : (scores : List (PriorityScore F)) → override boost result scores [] now ≡ result
      go [] = refl
      go (s ∷ rest) = refl

  override-IsRanked :
      FloatOrder F
      → (now : F) (x : PriorityScore F) → Memᴰ x result.scores
      → is_listed (emergency_lanes lane_stats) x ≡ true
      → IsRanked
          (overridden boost (emergency_lanes lane_stats) result.scores)
          (check_and_override boost result lane_stats now)
  unfolding check_and_override
  override-IsRanked order now x m listed = go result.scores (emergency_lanes lane_stats) m listed
    where
      go :
          (scores : List (PriorityScore F)) (lanes : List LaneId)
          → Memᴰ x scores
          → is_listed lanes x ≡ true
          → IsRanked (overridden boost lanes scores) (override boost result scores lanes now)
      go [] lanes n l = elim n [ ]
      go (s ∷ rest) [] n l = cc
      go (s ∷ rest) (k ∷ lanes) n l =
          rank_scores-IsRanked order (overridden boost (k ∷ lanes) (s ∷ rest)) _

  -- The same in terms of the lanes that the override lists.
  listed_ranks_first :
      FloatOrder F
      → (now : F) (x : PriorityScore F) → Memᴰ x result.scores
      → is_listed (emergency_lanes lane_stats) x ≡ true
      → BoostPrevails boost (emergency_lanes lane_stats) result.scores
      → (w : PriorityScore F) × ((check_and_override boost result lane_stats now).highest_priority
          ≡ some w)
        × (is_listed (emergency_lanes lane_stats) w ≡ true)
  listed_ranks_first order now x m listed prevails =
      let r = check_and_override boost result lane_stats now in
      let ranked = override-IsRanked order now x m listed in
      go r.scores ranked.highest ranked.same_scores ranked.descending
    where
      go :
          (scores : List (PriorityScore F))
          → (check_and_override boost result lane_stats now).highest_priority ≡ head? scores
          → Perm
              (map unranked scores)
              (map unranked (overridden boost (emergency_lanes lane_stats) result.scores))
          → IsDescending score_of scores
          → (w : PriorityScore F) × ((check_and_override boost result lane_stats
                now).highest_priority
              ≡ some w)
            × (is_listed (emergency_lanes lane_stats) w ≡ true)
      go [] top perm desc = absurd (
          ∥∥₁_elim
            ((Perm.mem_iff perm).1
              ∣ Memᴰ.map unranked
                (overridden-Memᴰ boost (emergency_lanes lane_stats) result.scores m) ∣₁)
            ⊥_prop (λ t. elim t [ ]))
      go (w ∷ ws) top perm (desc, _) =
          elim (Bool-cases (is_listed (emergency_lanes lane_stats) w)) [
            | inl l ↦ (w, top, l)
            | inr n ↦ absurd (
                first_is_listed boost (emergency_lanes lane_stats) order result.scores x w ws
                  prevails m listed perm desc n)
          ]

module _ {F : Type 0} where
  -- The statistics have a priority vehicle on the lane.
  abbrev pub HasPriority : Stats F → LaneId → Type 0
  HasPriority lane_stats lane =
      (stats : LaneStatistics F) × Memᴰ (lane, stats) lane_stats
      × (stats.has_priority_vehicle ≡ true)

  HasPriority-later :
      (entry : LaneId × LaneStatistics F) (rest : Stats F) (lane : LaneId)
      → HasPriority rest lane
      → HasPriority (entry ∷ rest) lane
  HasPriority-later entry rest lane (stats, m, urgent) = (stats, Memᴰ.tail m, urgent)

  emergency_lanes-HasPriority :
      (lane_stats : Stats F) (lane : LaneId)
      → any (beq lane) (emergency_lanes lane_stats) ≡ true
      → HasPriority lane_stats lane
  unfolding emergency_lanes
  emergency_lanes-HasPriority [] lane h = cc
  emergency_lanes-HasPriority ((k, stats) ∷ rest) lane h =
      elim (Bool-cases stats.has_priority_vehicle) [
        | inr calm ↦
            HasPriority-later (k, stats) rest lane
              (emergency_lanes-HasPriority rest lane (rw calm at h))
        | inl urgent ↦ elim (Bool-cases (beq lane k)) [
          | inl same ↦ (stats, Memᴰ.head (ap (λ l. (l, stats)) (beq→eq lane k same)), urgent)
          | inr apart ↦
              HasPriority-later (k, stats) rest lane
                (emergency_lanes-HasPriority rest lane (rw (urgent, apart) at h))
        ]
      ]

  HasPriority-emergency_lanes :
      (lane_stats : Stats F) (lane : LaneId)
      → HasPriority lane_stats lane
      → any (beq lane) (emergency_lanes lane_stats) ≡ true
  unfolding emergency_lanes
  HasPriority-emergency_lanes [] lane (stats, m, urgent) = elim m [ ]
  HasPriority-emergency_lanes ((k, s) ∷ rest) lane (stats, m, urgent) = elim (Memᴰ.cases_cons m) [
    | inl here ↦
        let same : lane ≡ k = ap (λ (e : LaneId × LaneStatistics F). e.0) here in
        let flagged : s.has_priority_vehicle ≡ true =
          ap (λ (e : LaneId × LaneStatistics F). LaneStatistics.has_priority_vehicle e.1) (sym here)
          ∙ urgent in
        rw (flagged, eq→beq lane k same) refl
    | inr there ↦
        let after = HasPriority-emergency_lanes rest lane (stats, there, urgent) in
        elim (Bool-cases s.has_priority_vehicle) [
          | inr calm ↦ rw calm after
          | inl flagged ↦ elim (Bool-cases (beq lane k)) [
            | inl same ↦ rw (flagged, same) refl
            | inr apart ↦ rw (flagged, apart) after
          ]
        ]
  ]

module _ {F : Type 0} ⦃fl : Float F⦄ (boost : F) (result : PriorityResult F)
    (lane_stats : Stats F) where
  -- The score of every lane with a priority vehicle, plus the boost and rounded, is above the score of
  -- every lane without one.
  abbrev pub BoostLifts : Type 0
  BoostLifts =
      (x y : PriorityScore F)
      → Memᴰ x result.scores
      → Memᴰ y result.scores
      → HasPriority lane_stats x.lane
      → (HasPriority lane_stats y.lane → ⊥)
      → fl.lt y.score (fl.round2 (fl.add x.score boost)) ≡ true

  -- If the statistics have a priority vehicle on a scored lane, and the score of each such lane, plus
  -- the boost and rounded, is above the score of every lane without one, then the highest priority is
  -- that of a lane with a priority vehicle.
  pub emergency_ranks_first :
      FloatOrder F
      → (now : F) (x : PriorityScore F) → Memᴰ x result.scores
      → HasPriority lane_stats x.lane
      → BoostLifts
      → (w : PriorityScore F) × ((check_and_override boost result lane_stats now).highest_priority
          ≡ some w)
        × HasPriority lane_stats w.lane
  unfolding boosted
  emergency_ranks_first order now x m urgent lifts =
      let (w, top, listed) =
        listed_ranks_first boost result lane_stats order now x m
          (HasPriority-emergency_lanes lane_stats x.lane urgent)
          (λ a b a_in b_in a_listed b_plain.
            lifts a b a_in b_in (emergency_lanes-HasPriority lane_stats a.lane a_listed) (λ has.
              false≢true (sym b_plain ∙ HasPriority-emergency_lanes lane_stats b.lane has))) in
      (w, top, emergency_lanes-HasPriority lane_stats w.lane listed)
