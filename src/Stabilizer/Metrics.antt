-- ===== src/Stabilizer/Metrics.antt =====
-- The stability metrics of ai/state/count_stabilizer.py.
use smart_traffic_management.Common.{
  Bool-cases, List, Option, [], ap, arith, inl, inr, length, none, refl, some, suc, true, zero, ℕ,
  ◌+◌, ◌∙◌, ◌∷◌, ◌≡◌, ◌≢◌,
}
use smart_traffic_management.Common.Equality.{Eq, beq_refl, beq→eq}
use smart_traffic_management.Intersection.Phases.{run}
use smart_traffic_management.Stabilizer.{StabilityMetrics, is_last, update_decision_stability}

module _ {K : Type 0} ⦃e : Eq K⦄ where
  abbrev pub decide_all : List K → StabilityMetrics K → StabilityMetrics K
  decide_all [] m = m
  decide_all (lane ∷ lanes) m = decide_all lanes (update_decision_stability lane m).1

  abbrev pub repeated : ℕ → K → List K
  repeated zero lane = []
  repeated (suc n) lane = lane ∷ repeated n lane

  abbrev pub IsAccounted : StabilityMetrics K → Type 0
  IsAccounted m = m.total_decisions ≡ m.stable_decisions + m.flipped_decisions

  update-IsAccounted :
      (lane : K) (m : StabilityMetrics K)
      → IsAccounted m
      → IsAccounted (update_decision_stability lane m).1
        × ((update_decision_stability lane m).1.total_decisions ≡ m.total_decisions + 1)
  unfolding update_decision_stability
  update-IsAccounted lane m h = elim (Bool-cases (is_last m.last_decision_lane lane)) [
    | inl same ↦ rw same (omega (arith, h), refl)
    | inr apart ↦ rw apart (omega (arith, h), refl)
  ]

  -- Every decision is accounted for once, as stable or as flipped, from metrics in which that holds.
  pub decide_all-IsAccounted :
      (lanes : List K) (m : StabilityMetrics K)
      → IsAccounted m
      → IsAccounted (decide_all lanes m)
        × ((decide_all lanes m).total_decisions ≡ m.total_decisions + length lanes)
  decide_all-IsAccounted [] m h = (h, omega arith)
  decide_all-IsAccounted (lane ∷ lanes) m h =
      let (kept, one) = update-IsAccounted lane m h in
      let (sums, total) = decide_all-IsAccounted lanes (update_decision_stability lane m).1 kept in
      (sums, omega (arith, total, one))

  -- The same lane again.
  update_same :
      (lane : K) (m : StabilityMetrics K)
      → m.last_decision_lane ≡ some lane
      → ((update_decision_stability lane m).1.last_decision_lane ≡ some lane)
        × ((update_decision_stability lane m).1.consecutive_stable_frames
            ≡ m.consecutive_stable_frames + 1)
        × ((update_decision_stability lane m).1.flipped_decisions ≡ m.flipped_decisions)
  unfolding update_decision_stability
  update_same lane m h =
      let same : is_last m.last_decision_lane lane ≡ true = rw (h, beq_refl lane) refl in
      rw same (h, refl, refl)

  is_last_sound : (o : Option K) (lane : K) → is_last o lane ≡ true → o ≡ some lane
  is_last_sound none lane h = cc
  is_last_sound (some l) lane h = ap some (beq→eq l lane h)

  update_apart :
      (lane : K) (m : StabilityMetrics K)
      → m.last_decision_lane ≢ some lane
      → ((update_decision_stability lane m).1.last_decision_lane ≡ some lane)
        × ((update_decision_stability lane m).1.consecutive_stable_frames ≡ 0)
        × ((update_decision_stability lane m).1.flipped_decisions ≡ m.flipped_decisions + 1)
  unfolding update_decision_stability
  update_apart lane m h = elim (Bool-cases (is_last m.last_decision_lane lane)) [
    | inl same ↦ absurd (h (is_last_sound m.last_decision_lane lane same))
    | inr apart ↦ rw apart (refl, refl, refl)
  ]

  decide_repeated :
      (n : ℕ) (lane : K) (m : StabilityMetrics K)
      → m.last_decision_lane ≡ some lane
      → ((decide_all (repeated n lane) m).last_decision_lane ≡ some lane)
        × ((decide_all (repeated n lane) m).consecutive_stable_frames
            ≡ m.consecutive_stable_frames + n)
        × ((decide_all (repeated n lane) m).flipped_decisions ≡ m.flipped_decisions)
  decide_repeated zero lane m h = (h, omega arith, refl)
  decide_repeated (suc n) lane m h =
      let (last, run, flips) = update_same lane m h in
      let (last', run', flips') =
        decide_repeated n lane (update_decision_stability lane m).1 last in
      (last', omega (arith, run, run'), flips' ∙ flips)

  -- Once the decision turns to another lane, and stays there for further decisions, the flip is
  -- counted once and the run is as long as the number of the further decisions.
  pub decide_all-run :
      (n : ℕ) (lane : K) (m : StabilityMetrics K)
      → m.last_decision_lane ≢ some lane
      → ((decide_all (repeated (suc n) lane) m).last_decision_lane ≡ some lane)
        × ((decide_all (repeated (suc n) lane) m).consecutive_stable_frames ≡ n)
        × ((decide_all (repeated (suc n) lane) m).flipped_decisions ≡ m.flipped_decisions + 1)
  decide_all-run n lane m h =
      let (last, run, flips) = update_apart lane m h in
      let (last', run', flips') =
        decide_repeated n lane (update_decision_stability lane m).1 last in
      (last', omega (arith, run, run'), flips' ∙ flips)
