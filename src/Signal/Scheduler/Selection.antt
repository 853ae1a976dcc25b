-- ===== src/Signal/Scheduler/Selection.antt =====
-- What the scheduler of ai/signal/signal_scheduler.py may select.
use mathlib.Core.List.Memᴰ
use mathlib.Core.List.{Memᴰ}
use smart_traffic_management.Common.{
  Bool-cases, List, Memᴰ-filter, Option, [], any, ap, arith, false, filter, filter-Memᴰ, inl, inr,
  ltb, none, refl, some, suc, sym, true, zero, ℕ, ◌%◌, ◌+◌, ◌<◌, ◌∙◌, ◌∷◌, ◌≡◌, ◌⊎◌,
}
use smart_traffic_management.Common.Dict.{Dict, get, get-put, put}
use smart_traffic_management.Common.Equality.{beq, beq→eq}
use smart_traffic_management.Common.Float.{Float}
use smart_traffic_management.Signal.Scheduler.{
  Scheduler, advance_after, by_lane, choose, first_candidate, grant, grant_next, in_demand,
  is_emergency, lane_at, max_score, position, select_eligible,
}
use smart_traffic_management.Signal.Types.{
  LaneId, LaneStatistics, PriorityResult, PriorityScore, Stats, approach, east, lane_id_eq_inst,
  north, other, south, west,
}

pub min-advance_after :
    (lane : LaneId) (s : Scheduler) → (advance_after lane s).min_green_sec ≡ s.min_green_sec
unfolding advance_after
min-advance_after (approach lane) s = refl
min-advance_after (other name) s = refl

pub max-advance_after :
    (lane : LaneId) (s : Scheduler) → (advance_after lane s).max_green_sec ≡ s.max_green_sec
unfolding advance_after
max-advance_after (approach lane) s = refl
max-advance_after (other name) s = refl

module _ {F : Type 0} ⦃fl : Float F⦄ where
  pub in_demand_parts :
      (lane_stats : Stats F) (fresh : List LaneId) (w : PriorityScore F)
      → in_demand lane_stats fresh w ≡ true
      → (any (beq w.lane) fresh ≡ true)
        × (stats : LaneStatistics F) × (get w.lane lane_stats ≡ some stats)
        × (0 < stats.raw_count)
  unfolding in_demand
  in_demand_parts lane_stats fresh w h =
      go (get w.lane lane_stats) refl (ground arith) (ground arith)
    where
      go :
          (o : Option (LaneStatistics F))
          → get w.lane lane_stats ≡ o
          → any (beq w.lane) fresh ≡ true
          → (elim o [ none ↦ false | some stats ↦ ltb 0 stats.raw_count ]) ≡ true
          → (any (beq w.lane) fresh ≡ true)
            × (stats : LaneStatistics F) × (get w.lane lane_stats ≡ some stats)
            × (0 < stats.raw_count)
      go none e f d = cc
      go (some stats) e f d = (f, stats, e, ground arith)

  max_score-Memᴰ :
      (best : PriorityScore F) (xs : List (PriorityScore F)) → Memᴰ (max_score best xs) (best ∷ xs)
  unfolding max_score
  max_score-Memᴰ best [] = Memᴰ.head refl
  max_score-Memᴰ best (x ∷ xs) = elim (Bool-cases (fl.lt best.score x.score)) [
    | inl h ↦ rw h (Memᴰ.tail (max_score-Memᴰ x xs))
    | inr h ↦ rw h (elim (Memᴰ.cases_cons (max_score-Memᴰ best xs)) [
      | inl e ↦ Memᴰ.head e
      | inr t ↦ Memᴰ.tail (Memᴰ.tail t)
    ])
  ]

  -- A score found under a lane is one of the scores, and of that lane.
  pub get-by_lane :
      (k : LaneId) (c : PriorityScore F) (d : Dict LaneId (PriorityScore F))
      (xs : List (PriorityScore F))
      → get k (by_lane d xs) ≡ some c
      → (Memᴰ c xs × (c.lane ≡ k)) ⊎ (get k d ≡ some c)
  unfolding by_lane
  get-by_lane k c d [] h = inr h
  get-by_lane k c d (x ∷ xs) h = elim (get-by_lane k c (put x.lane x d) xs h) [
    | inl m ↦ inl (Memᴰ.tail m.0, m.1)
    | inr g ↦ elim (Bool-cases (beq x.lane k)) [
      | inl e ↦
          let found : some x ≡ some c = rw (get-put x.lane k x d, e) at g in
          let same : x ≡ c = cc in
          inl (Memᴰ.head (sym same), sym (ap (λ t. PriorityScore.lane t) same) ∙ beq→eq x.lane k e)
      | inr e ↦ inr (rw (get-put x.lane k x d, e) at g)
    ]
  ]

  first_candidate-get :
      (d : Dict LaneId (PriorityScore F)) (next left offset : ℕ) (c : PriorityScore F)
      → first_candidate d next left offset ≡ some c
      → (k : LaneId) × (get k d ≡ some c)
  unfolding first_candidate
  first_candidate-get d next zero offset c h = cc
  first_candidate-get d next (suc left) offset c h =
      go (first_candidate-get d next left (offset + 1) c)
        (get (approach (lane_at ((next + offset) % 4))) d) refl h
    where
      go :
          (first_candidate d next left (offset + 1) ≡ some c → (k : LaneId) × (get k d ≡ some c))
          → (o : Option (PriorityScore F)) → get (approach (lane_at ((next + offset) % 4))) d ≡ o
          → (elim o [
            | some candidate ↦ some candidate
            | none ↦ first_candidate d next left (offset + 1)
          ])
            ≡ some c
          → (k : LaneId) × (get k d ≡ some c)
      go ih none e g = ih g
      go ih (some a) e g = (approach (lane_at ((next + offset) % 4)), e ∙ g)

module _ {F : Type 0} ⦃fl : Float F⦄ (s : Scheduler) (result : PriorityResult F) where
  -- What a grant looks like: the winner recorded, and the cursor behind its lane.
  abbrev pub IsGrant : Scheduler → PriorityResult F → PriorityScore F → Type 0
  IsGrant s' r w = (r ≡ record result { highest_priority = some w }) × (s' ≡ advance_after w.lane s)

  granted :
      (w : PriorityScore F) {s' : Scheduler} {r : PriorityResult F}
      → grant s result w ≡ (s', some r)
      → IsGrant s' r w
  granted w h = (cc, cc)

  choose_sound :
      (demand urgent : List (PriorityScore F)) (s' : Scheduler) (r : PriorityResult F)
      → ((x : PriorityScore F) → Memᴰ x urgent → Memᴰ x demand)
      → choose s result demand urgent ≡ (s', some r)
      → (w : PriorityScore F) × IsGrant s' r w × Memᴰ w demand
  choose_sound [] urgent s' r sub h = cc
  choose_sound (d ∷ demand) (e ∷ rest) s' r sub h = (
    max_score e rest,
    granted (max_score e rest) h,
    sub (max_score e rest) (max_score-Memᴰ e rest),
  )
  choose_sound (d ∷ demand) [] s' r sub h =
      go (first_candidate (by_lane [] (d ∷ demand)) s.next_cycle_index 4 0) refl h
    where
      go :
          (o : Option (PriorityScore F))
          → first_candidate (by_lane [] (d ∷ demand)) s.next_cycle_index 4 0 ≡ o
          → grant_next s result o ≡ (s', some r)
          → (w : PriorityScore F) × IsGrant s' r w × Memᴰ w (d ∷ demand)
      go none e g = cc
      go (some w) e g =
          let (k, found) =
            first_candidate-get (by_lane [] (d ∷ demand)) s.next_cycle_index 4 0 w e in
          elim (get-by_lane k w [] (d ∷ demand) found) [
            | inl m ↦ (w, granted w g, m.0)
            | inr f ↦ cc
          ]

  -- Whatever is selected is one of the scores, and its lane is in demand.
  pub select_eligible_winner :
      (lane_stats : Stats F) (fresh : List LaneId) (s' : Scheduler) (r : PriorityResult F)
      → select_eligible s result lane_stats fresh ≡ (s', some r)
      → (w : PriorityScore F) × IsGrant s' r w
        × Memᴰ w result.scores
        × (in_demand lane_stats fresh w ≡ true)
  unfolding select_eligible
  select_eligible_winner lane_stats fresh s' r h =
      let demand = filter (in_demand lane_stats fresh) result.scores in
      let (w, g, m) =
        choose_sound demand (filter (is_emergency lane_stats) demand) s' r
          (λ x t. (Memᴰ-filter (is_emergency lane_stats) x demand t).0) h in
      let (m', q) = Memᴰ-filter (in_demand lane_stats fresh) w result.scores m in (w, g, m', q)

  -- The place in the clockwise cycle north, east, south, west that comes after a lane.
  abbrev pub next_place : LaneId → ℕ → ℕ
  next_place (approach north) old = 1
  next_place (approach east) old = 2
  next_place (approach south) old = 3
  next_place (approach west) old = 0
  next_place (other name) old = old

  advance_after-next_place :
      (lane : LaneId)
      → advance_after lane s ≡ record s { next_cycle_index = next_place lane s.next_cycle_index }
  unfolding advance_after position
  advance_after-next_place (approach north) = refl
  advance_after-next_place (approach east) = refl
  advance_after-next_place (approach south) = refl
  advance_after-next_place (approach west) = refl
  advance_after-next_place (other name) = refl

  -- A choice of the scheduler: the winner, why it may win, and what changes with it.
  pub record IsChoice (lane_stats : Stats F) (fresh : List LaneId) (s' : Scheduler)
      (r : PriorityResult F) : Type 0 where
    pub winner : PriorityScore F
    pub is_scored : Memᴰ winner result.scores
    pub is_fresh : any (beq winner.lane) fresh ≡ true
    pub statistics : LaneStatistics F
    pub known : get winner.lane lane_stats ≡ some statistics
    pub occupied : 0 < statistics.raw_count
    pub recorded : r ≡ record result { highest_priority = some winner }
    pub moved : s' ≡ record s { next_cycle_index = next_place winner.lane s.next_cycle_index }

  -- Whatever is selected is one of the scores, its lane is one of the fresh ones and has vehicles in
  -- its statistics, the result differs from the one given only in its winner, and of the scheduler
  -- only the cursor moves, to the place after the winner's lane in the order north, east, south,
  -- west.
  pub select_eligible_sound :
      (lane_stats : Stats F) (fresh : List LaneId) (s' : Scheduler) (r : PriorityResult F)
      → select_eligible s result lane_stats fresh ≡ (s', some r)
      → IsChoice lane_stats fresh s' r
  select_eligible_sound lane_stats fresh s' r h =
      let (w, granted_to, m, wanted) = select_eligible_winner lane_stats fresh s' r h in
      let (recent, stats, found, busy) = in_demand_parts lane_stats fresh w wanted in
      record {
        winner = w;
        is_scored = m;
        is_fresh = recent;
        statistics = stats;
        known = found;
        occupied = busy;
        recorded = granted_to.0;
        moved = granted_to.1 ∙ advance_after-next_place w.lane;
      }

  -- While a lane in demand reports an emergency vehicle, the winner is such a lane.
  pub select_eligible_emergency :
      (lane_stats : Stats F) (fresh : List LaneId) (x : PriorityScore F)
      → Memᴰ x result.scores
      → in_demand lane_stats fresh x ≡ true
      → is_emergency lane_stats x ≡ true
      → (w : PriorityScore F) × (select_eligible s result lane_stats fresh ≡ grant s result w)
        × (is_emergency lane_stats w ≡ true)
  unfolding select_eligible
  select_eligible_emergency lane_stats fresh x m d e =
      let demand = filter (in_demand lane_stats fresh) result.scores in
      go demand (filter (is_emergency lane_stats) demand) (filter-Memᴰ _ result.scores m d)
        (filter-Memᴰ _ demand (filter-Memᴰ _ result.scores m d) e)
        (λ w t. (Memᴰ-filter (is_emergency lane_stats) w demand t).1)
    where
      go :
          (ds es : List (PriorityScore F))
          → Memᴰ x ds
          → Memᴰ x es
          → ((w : PriorityScore F) → Memᴰ w es → is_emergency lane_stats w ≡ true)
          → (w : PriorityScore F) × (choose s result ds es ≡ grant s result w)
            × (is_emergency lane_stats w ≡ true)
      go [] es m n k = elim m [ ]
      go (y ∷ ds) [] m n k = elim n [ ]
      go (y ∷ ds) (z ∷ es) m n k = (max_score z es, refl, k _ (max_score-Memᴰ z es))

module _ {F : Type 0} ⦃fl : Float F⦄ (s : Scheduler) (result : PriorityResult F) where
  -- The cursor stays within the cycle.
  advance_after-cursor :
      (lane : LaneId) → s.next_cycle_index < 4 → (advance_after lane s).next_cycle_index < 4
  unfolding advance_after
  advance_after-cursor (approach lane) h = omega arith
  advance_after-cursor (other name) h = h

  pub select_eligible-cursor :
      (lane_stats : Stats F) (fresh : List LaneId)
      → s.next_cycle_index < 4
      → (select_eligible s result lane_stats fresh).0.next_cycle_index < 4
  unfolding select_eligible
  select_eligible-cursor lane_stats fresh h =
      let demand = filter (in_demand lane_stats fresh) result.scores in
      go demand (filter (is_emergency lane_stats) demand)
    where
      next : (o : Option (PriorityScore F)) → (grant_next s result o).0.next_cycle_index < 4
      next none = h
      next (some w) = advance_after-cursor w.lane h

      go : (ds es : List (PriorityScore F)) → (choose s result ds es).0.next_cycle_index < 4
      go [] es = h
      go (d ∷ ds) (e ∷ es) = advance_after-cursor (max_score e es).lane h
      go (d ∷ ds) [] = next (first_candidate (by_lane [] (d ∷ ds)) s.next_cycle_index 4 0)
