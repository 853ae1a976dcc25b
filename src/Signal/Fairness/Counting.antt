-- ===== src/Signal/Fairness/Counting.antt =====
-- The waiting counters of ai/signal/fairness_manager.py count the phases since a lane was served.
use mathlib.Core.Path.{subst}
use smart_traffic_management.Common.{
  ℕ, ◌+◌, ◌≡◌, ◌≢◌, refl, sym, ap, map, ◌∙◌, ◌++◌, All, length, false, Option, none, some, List, [],
  ◌∷◌, arith, Bool-cases, inl, inr, is_some, or_default, if◌then◌else◌,
}
use smart_traffic_management.Common.Equality.{beq, beq_refl, beq→eq, beq_ne}
use smart_traffic_management.Common.Dict.{Dict, get, put, contains, get-put}
use smart_traffic_management.Common.Float.{Float, FloatOrder, of_ℕ}
use smart_traffic_management.Signal.Types.{LaneId, lane_id_eq_inst, PriorityResult, PriorityScore}
use smart_traffic_management.Signal.Ranking.{IsRanked, rank_scores-IsRanked}
use smart_traffic_management.Signal.Fairness.{
  FairnessManager, recount, with_counter, update_served, adjusted, adjusted_scores, apply_fairness,
  fairness_bonus_of,
}

-- The counter of a lane, as `cycles_since_served.get(lane, 0)` reads it.
abbrev pub waiting : {F : Type 0} → FairnessManager F → LaneId → ℕ
waiting m lane = or_default (get lane m.cycles_since_served) 0

get-recount :
    (green lane : LaneId) (d : Dict LaneId ℕ) (n : ℕ)
    → get lane d ≡ some n
    → get lane (recount green d) ≡ some (if beq lane green then 0 else n + 1)
unfolding recount
get-recount green lane [] n h = cc
get-recount green lane ((k, v) ∷ d) n h = elim (Bool-cases (beq k lane)) [
  | inl e ↦ rw e (ground (arith, beq→eq k lane e, h, e))
  | inr e ↦ rw e (get-recount green lane d n (rw e at h))
]

get-with_counter :
    (green : LaneId) (d : Dict LaneId ℕ) → (n : ℕ) × (get green (with_counter green d) ≡ some n)
unfolding with_counter
get-with_counter green d = go (get green d) refl
  where
    go :
        (o : Option ℕ)
        → get green d ≡ o
        → (n : ℕ) × (get green (if is_some o then d else put green 0 d) ≡ some n)
    go none e = (0, rw (get-put green green 0 d, beq_refl green))
    go (some n) e = (n, e)

-- A counter that is there stays when another lane gets one.
with_counter_keeps :
    (green lane : LaneId) (d : Dict LaneId ℕ) (n : ℕ)
    → beq green lane ≡ false
    → get lane d ≡ some n
    → get lane (with_counter green d) ≡ some n
unfolding with_counter
with_counter_keeps green lane d n ne h = elim (Bool-cases (contains green d)) [
  | inl e ↦ rw e h
  | inr e ↦ rw (e, get-put green lane 0 d, ne) h
]

-- The lane is not served in any of the phases.
abbrev pub NotServed : LaneId → List LaneId → Type 0
NotServed lane later = All (λ green. green ≢ lane) later

module _ {F : Type 0} where
  served_resets :
      (lane : LaneId) (m : FairnessManager F)
      → get lane (update_served lane m).cycles_since_served ≡ some 0
  unfolding update_served
  served_resets lane m =
      let (n, e) = get-with_counter lane m.cycles_since_served in
      rw (get-recount lane lane (with_counter lane m.cycles_since_served) n e, beq_refl lane)

  other_waits :
      (green lane : LaneId) (m : FairnessManager F) (n : ℕ)
      → beq green lane ≡ false
      → beq lane green ≡ false
      → get lane m.cycles_since_served ≡ some n
      → get lane (update_served green m).cycles_since_served ≡ some (n + 1)
  unfolding update_served
  other_waits green lane m n ne en h = rw (
    get-recount green lane (with_counter green m.cycles_since_served) n
        (with_counter_keeps green lane m.cycles_since_served n ne h),
    en,
  )

  -- The phases of a list of green lanes, in their order.
  abbrev pub serve_all : List LaneId → FairnessManager F → FairnessManager F
  serve_all [] m = m
  serve_all (green ∷ rest) m = serve_all rest (update_served green m)

  waits_on :
      (lane : LaneId) (later : List LaneId) (m : FairnessManager F) (n : ℕ)
      → NotServed lane later
      → get lane m.cycles_since_served ≡ some n
      → waiting (serve_all later m) lane ≡ n + length later
  waits_on lane [] m n a h = rw h (omega arith)
  waits_on lane (green ∷ later) m n (ne, a) h =
      waits_on lane later (update_served green m) (n + 1) a
        (other_waits green lane m n (beq_ne green lane ne) (beq_ne lane green (λ e. ne (sym e))) h)
      ∙ omega arith

  -- The counter of a lane is the number of phases since it was last served: whatever came before,
  -- after a phase of the lane and then phases of other lanes it is the number of the latter.
  pub waiting-serve_all :
      (lane : LaneId) (before later : List LaneId) (m : FairnessManager F)
      → NotServed lane later
      → waiting (serve_all (before ++ lane ∷ later) m) lane ≡ length later
  waiting-serve_all lane [] later m a =
      waits_on lane later (update_served lane m) 0 a (served_resets lane m) ∙ omega arith
  waiting-serve_all lane (green ∷ before) later m a =
      waiting-serve_all lane before later (update_served green m) a

module _ {F : Type 0} ⦃fl : Float F⦄ where
  -- The bonus of a lane: that of one phase for each phase it has waited, but not above the cap.
  abbrev pub bonus : FairnessManager F → LaneId → F
  bonus m lane =
      let earned = fl.mul (of_ℕ (waiting m lane)) m.bonus_per_cycle in
      if fl.lt m.max_fairness_bonus earned then m.max_fairness_bonus else earned

  -- A score with the bonus of its lane.
  abbrev pub with_bonus : FairnessManager F → PriorityScore F → PriorityScore F
  with_bonus m s = record s {
    score = fl.round2 (fl.add s.score (bonus m s.lane));
    rank = 0;
    breakdown = record s.breakdown { fairness_bonus = fl.round2 (bonus m s.lane) };
  }

  adjusted_scores-with_bonus :
      (m : FairnessManager F) (scores : List (PriorityScore F))
      → adjusted_scores m scores ≡ map (with_bonus m) scores
  unfolding adjusted_scores adjusted fairness_bonus_of
  adjusted_scores-with_bonus m [] = refl
  adjusted_scores-with_bonus m (s ∷ rest) =
      ap (λ scores. with_bonus m s ∷ scores) (adjusted_scores-with_bonus m rest)

  -- With scores, the adjusted result holds each given score plus the bonus of its lane, which is the
  -- number of phases that the lane has waited times the bonus of a phase, but not above the cap; in
  -- descending order, ranked from 1, with the first as the highest.
  pub apply_fairness-IsRanked :
      FloatOrder F
      → (m : FairnessManager F) (result : PriorityResult F) (now : F) → result.scores ≢ []
      → IsRanked (map (with_bonus m) result.scores) (apply_fairness m result now)
  unfolding apply_fairness
  apply_fairness-IsRanked order m result now ne =
      subst (λ given. IsRanked given (apply_fairness m result now))
        (adjusted_scores-with_bonus m result.scores) (go result.scores refl)
    where
      go :
          (scores : List (PriorityScore F))
          → result.scores ≡ scores
          → IsRanked (adjusted_scores m result.scores) (apply_fairness m result now)
      go [] e = absurd (ne e)
      go (s ∷ rest) e = rw e (rank_scores-IsRanked order (adjusted_scores m (s ∷ rest)) _)
