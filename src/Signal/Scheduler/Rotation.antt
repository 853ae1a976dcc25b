-- ===== src/Signal/Scheduler/Rotation.antt =====
-- The clockwise cycle of ai/signal/signal_scheduler.py starves no lane: a lane that stays in demand
-- is selected within four selections.
use mathlib.Core.List.{Memᴰ}
use native.Mathlib.Decide.{dec_lt}
use smart_traffic_management.Common.{
  ℕ, zero, suc, ◌+◌, ◌-◌, ◌%◌, ◌≤◌, ◌<◌, ◌≡◌, refl, sym, ap, ◌∙◌, ◌⊎◌, inl, inr, Option, none, some,
  List, [], ◌∷◌, true, arith, filter, filter-Memᴰ,
}
use smart_traffic_management.Common.Dict.{Dict, get, put, get-put_self, get-put}
use smart_traffic_management.Common.Float.{Float}
use smart_traffic_management.Signal.Types.{
  Lane, north, south, east, west, LaneId, approach, PriorityScore, PriorityResult, Stats,
  lane_id_eq_inst,
}
use smart_traffic_management.Signal.Scheduler.{
  Scheduler, lane_at, position, advance_after, in_demand, is_emergency, by_lane, first_candidate,
  choose, grant, grant_next, select_eligible,
}
use smart_traffic_management.Signal.Scheduler.Selection.{get-by_lane}

position-lt : (lane : Lane) → position lane < 4
unfolding position
position-lt north = omega arith
position-lt east = omega arith
position-lt south = omega arith
position-lt west = omega arith

lane_at-position : (lane : Lane) → lane_at (position lane) ≡ lane
unfolding lane_at position
lane_at-position north = refl
lane_at-position east = refl
lane_at-position south = refl
lane_at-position west = refl

position-lane_at : (n : ℕ) → n < 4 → position (lane_at n) ≡ n
unfolding lane_at position
position-lane_at zero h = refl
position-lane_at (suc zero) h = refl
position-lane_at (suc (suc zero)) h = refl
position-lane_at (suc (suc (suc n))) h = omega arith

-- How many approaches the cursor passes before it reaches the lane.
abbrev pub turns : ℕ → Lane → ℕ
turns next lane = (position lane + 4 - next) % 4

-- The lane `j` places on from the cursor, where `j` is the number of turns, is the lane.
lane_at-turns : (next : ℕ) (lane : Lane) → next < 4 → lane_at ((next + turns next lane) % 4) ≡ lane
lane_at-turns next lane h =
    let e : (next + turns next lane) % 4 ≡ position lane = omega (arith, position-lt lane) in
    rw e (lane_at-position lane)

advance-lane_at :
    (s : Scheduler) (n : ℕ)
    → n < 4
    → (advance_after (approach (lane_at n)) s).next_cycle_index ≡ (n + 1) % 4
unfolding advance_after
advance-lane_at s n h = rw (position-lane_at n h)

-- The place of an approach in the cycle is within four places of any cursor.
reachable : (next : ℕ) (lane : Lane) → (j : ℕ) × (j < 4) × (lane_at ((next + j) % 4) ≡ lane)
reachable next lane =
    let j = (position lane + 4 - next % 4) % 4 in
    let e : (next + j) % 4 ≡ position lane = omega (arith, position-lt lane) in
    (j, omega arith, rw e (lane_at-position lane))

module _ {F : Type 0} ⦃fl : Float F⦄ where
  first_candidate-reaches :
      (d : Dict LaneId (PriorityScore F)) (next left offset j : ℕ) (c : PriorityScore F)
      → offset ≤ j
      → j < offset + left
      → get (approach (lane_at ((next + j) % 4))) d ≡ some c
      → (i : ℕ) × (w : PriorityScore F) × (first_candidate d next left offset ≡ some w)
        × (get (approach (lane_at ((next + i) % 4))) d ≡ some w)
        × (i ≤ j)
  unfolding first_candidate
  first_candidate-reaches d next zero offset j c h k g = absurd (omega arith)
  first_candidate-reaches d next (suc left) offset j c h k g =
      go (get (approach (lane_at ((next + offset) % 4))) d) refl
        (λ lt. first_candidate-reaches d next left (offset + 1) j c (omega arith) (omega arith) g)
    where
      go :
          (o : Option (PriorityScore F))
          → get (approach (lane_at ((next + offset) % 4))) d ≡ o
          → (offset < j
              → (i : ℕ) × (w : PriorityScore F) × (first_candidate d next left (offset + 1)
                  ≡ some w)
                × (get (approach (lane_at ((next + i) % 4))) d ≡ some w)
                × (i ≤ j))
          → (i : ℕ) × (w : PriorityScore F) × (elim o [
            | some candidate ↦ some candidate
            | none ↦ first_candidate d next left (offset + 1)
          ]
              ≡ some w)
            × (get (approach (lane_at ((next + i) % 4))) d ≡ some w)
            × (i ≤ j)
      go (some w) e ih = (offset, w, refl, e, h)
      go none e ih = elim (dec_lt offset j) [
        | yes lt ↦ ih lt
        | no ge ↦
            let same : offset ≡ j = omega arith in
            absurd (cc (ap (λ t. get (approach (lane_at ((next + t) % 4))) d) same))
      ]

  -- A lane with a score has one under its key.
  by_lane_keeps :
      (k : LaneId) (d : Dict LaneId (PriorityScore F)) (xs : List (PriorityScore F))
      (c : PriorityScore F)
      → get k d ≡ some c
      → (c' : PriorityScore F) × (get k (by_lane d xs) ≡ some c')
  unfolding by_lane
  by_lane_keeps k d [] c h = (c, h)
  by_lane_keeps k d (x ∷ xs) c h =
      go (get k (put x.lane x d)) refl (λ a. by_lane_keeps k (put x.lane x d) xs a)
    where
      go :
          (o : Option (PriorityScore F))
          → get k (put x.lane x d) ≡ o
          → ((a : PriorityScore F)
              → get k (put x.lane x d) ≡ some a
              → (c' : PriorityScore F) × (get k (by_lane (put x.lane x d) xs) ≡ some c'))
          → (c' : PriorityScore F) × (get k (by_lane (put x.lane x d) xs) ≡ some c')
      go (some a) e ih = ih a e
      go none e ih = ground (arith, get-put x.lane k x d)

  by_lane_finds :
      (d : Dict LaneId (PriorityScore F)) (xs : List (PriorityScore F)) (x : PriorityScore F)
      → Memᴰ x xs
      → (c : PriorityScore F) × (get x.lane (by_lane d xs) ≡ some c)
  unfolding by_lane
  by_lane_finds d [] x m = elim m [ ]
  by_lane_finds d (y ∷ ys) x (Memᴰ.head e) =
      rw e (by_lane_keeps y.lane (put y.lane y d) ys y (get-put_self y.lane y d))
  by_lane_finds d (y ∷ ys) x (Memᴰ.tail t) = by_lane_finds (put y.lane y d) ys x t

  -- The lane is in demand, and no lane in demand has an emergency vehicle.
  pub record Waits (lane : Lane) (result : PriorityResult F) (lane_stats : Stats F)
      (fresh : List LaneId) : Type 0 where
    pub score : PriorityScore F
    pub scored : Memᴰ score result.scores
    pub of_lane : score.lane ≡ approach lane
    pub demanded : in_demand lane_stats fresh score ≡ true
    pub calm :
        filter (is_emergency lane_stats) (filter (in_demand lane_stats fresh) result.scores) ≡ []

  -- One selection while a lane waits: the lane is selected, or the cursor comes nearer to it.
  pub record Nearer (s : Scheduler) (lane : Lane) (result : PriorityResult F) (lane_stats : Stats F)
      (fresh : List LaneId) : Type 0 where
    pub winner : PriorityScore F
    pub selected : select_eligible s result lane_stats fresh ≡ grant s result winner
    pub in_range : (advance_after winner.lane s).next_cycle_index < 4
    pub progress :
        (winner.lane ≡ approach lane)
        ⊎ (turns (advance_after winner.lane s).next_cycle_index lane
            < turns s.next_cycle_index lane)

  candidate-Nearer :
      (s : Scheduler) (lane : Lane) (w : PriorityScore F) (i : ℕ)
      → s.next_cycle_index < 4
      → i ≤ turns s.next_cycle_index lane
      → w.lane ≡ approach (lane_at ((s.next_cycle_index + i) % 4))
      → ((advance_after w.lane s).next_cycle_index < 4)
        × ((w.lane ≡ approach lane)
            ⊎ (turns (advance_after w.lane s).next_cycle_index lane
                < turns s.next_cycle_index lane))
  candidate-Nearer s lane w i h k e =
      let after : (advance_after w.lane s).next_cycle_index
          ≡ ((s.next_cycle_index + i) % 4 + 1) % 4 =
        rw e (advance-lane_at s ((s.next_cycle_index + i) % 4) (omega arith)) in
      (
        omega arith,
        elim (dec_lt i (turns s.next_cycle_index lane)) [
          | yes lt ↦ inr (omega (arith, position-lt lane))
          | no ge ↦
              let here : i ≡ turns s.next_cycle_index lane = omega arith in
              inl (
                e
                ∙ ap (λ t. approach (lane_at ((s.next_cycle_index + t) % 4))) here
                ∙ ap (λ l. approach l) (lane_at-turns s.next_cycle_index lane h))
        ],
      )

  -- A waiting lane is selected, or comes nearer to its turn.
  pub select_eligible-Nearer :
      (s : Scheduler) (lane : Lane) (result : PriorityResult F) (lane_stats : Stats F)
      (fresh : List LaneId)
      → s.next_cycle_index < 4
      → Waits lane result lane_stats fresh
      → Nearer s lane result lane_stats fresh
  unfolding select_eligible
  select_eligible-Nearer s lane result lane_stats fresh h waits =
      go (filter (in_demand lane_stats fresh) result.scores) refl
        (filter-Memᴰ (in_demand lane_stats fresh) result.scores waits.scored waits.demanded)
    where
      go :
          (ds : List (PriorityScore F))
          → filter (in_demand lane_stats fresh) result.scores ≡ ds
          → Memᴰ waits.score ds
          → Nearer s lane result lane_stats fresh
      go [] e m = elim m [ ]
      go (d ∷ ds) e m =
          let (c, found) = by_lane_finds [] (d ∷ ds) waits.score m in
          let here = lane_at-turns s.next_cycle_index lane h in
          let key : approach (lane_at ((s.next_cycle_index + turns s.next_cycle_index lane) % 4))
              ≡ waits.score.lane =
            ap (λ l. approach l) here ∙ sym waits.of_lane in
          let (i, w, first, g, near) =
            first_candidate-reaches (by_lane [] (d ∷ ds)) s.next_cycle_index 4 0
              (turns s.next_cycle_index lane) c (omega arith) (omega arith)
              (ap (λ k. get k (by_lane [] (d ∷ ds))) key ∙ found) in
          let (range, closer) =
            candidate-Nearer s lane w i h near
              (elim (get-by_lane (approach (lane_at ((s.next_cycle_index + i) % 4))) w [] (d ∷ ds)
                g) [ inl p ↦ p.1 | inr p ↦ cc ]) in
          record {
            winner = w;
            selected = rw (waits.calm, e) (ap (λ o. grant_next s result o) first);
            in_range = range;
            progress = closer;
          }

  -- Where nothing is selected, no scored approach is in demand.
  pub select_eligible-none :
      (s s' : Scheduler) (lane : Lane) (result : PriorityResult F) (lane_stats : Stats F)
      (fresh : List LaneId) (x : PriorityScore F)
      → select_eligible s result lane_stats fresh ≡ (s', none)
      → Memᴰ x result.scores
      → x.lane ≡ approach lane
      → in_demand lane_stats fresh x ≡ true
      → ⊥
  unfolding select_eligible
  select_eligible-none s s' lane result lane_stats fresh x chosen scored of_lane demanded =
      let demand = filter (in_demand lane_stats fresh) result.scores in
      go demand (filter (is_emergency lane_stats) demand)
        (filter-Memᴰ (in_demand lane_stats fresh) result.scores scored demanded) chosen
    where
      go : (ds es : List (PriorityScore F)) → Memᴰ x ds → choose s result ds es ≡ (s', none) → ⊥
      go [] es m e = elim m [ ]
      go (d ∷ ds) (u ∷ es) m e = cc e
      go (d ∷ ds) [] m e =
          let (c, found) = by_lane_finds [] (d ∷ ds) x m in
          let (j, near, here) = reachable s.next_cycle_index lane in
          let key : approach (lane_at ((s.next_cycle_index + j) % 4)) ≡ x.lane =
            ap (λ l. approach l) here ∙ sym of_lane in
          let (i, w, first, _, _) =
            first_candidate-reaches (by_lane [] (d ∷ ds)) s.next_cycle_index 4 0 j c (omega arith)
              (omega arith) (ap (λ k. get k (by_lane [] (d ∷ ds))) key ∙ found) in
          absurd (cc (rw first at e))
