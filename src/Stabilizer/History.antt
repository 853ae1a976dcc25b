-- ===== src/Stabilizer/History.antt =====
-- The rolling histories of ai/state/count_stabilizer.py.
use mathlib.Core.List.{append-nil, append_assoc}
use smart_traffic_management.Common.{
  Option, All, Bool-cases, List, [], ap, arith, drop, if◌then◌else◌, inl, inr, length,
  length-append, map, none, or_default, refl, some, suc, sym, zero, ℕ, ◌++◌, ◌+◌, ◌-◌, ◌∙◌, ◌∷◌,
  ◌≡◌, ◌≤◌,
}
use smart_traffic_management.Common.Dict.{Dict, IsDict, get, get-put}
use smart_traffic_management.Common.Equality.{Eq, beq, beq→eq}
use smart_traffic_management.Common.Float.{Float}
use smart_traffic_management.Signal.Types.{LaneStatistics}
use smart_traffic_management.Stabilizer.{
  CountStabilizer, bounded, history_of, new_stabilizer, smooth_lane, stabilize,
}

module _ {ℓ} {A : Type ℓ} where
  length-drop : (n : ℕ) (xs : List A) → length (drop n xs) ≡ length xs - n
  length-drop zero xs = omega arith
  length-drop (suc n) [] = omega arith
  length-drop (suc n) (x ∷ xs) = omega (arith, length-drop n xs)

  drop-append : (n : ℕ) (xs ys : List A) → n ≤ length xs → drop n (xs ++ ys) ≡ drop n xs ++ ys
  drop-append zero xs ys h = refl
  drop-append (suc n) [] ys h = elim h [ ]
  drop-append (suc n) (x ∷ xs) ys h = drop-append n xs ys (omega arith)

  drop-drop : (m n k : ℕ) (xs : List A) → n + m ≡ k → drop m (drop n xs) ≡ drop k xs
  drop-drop m zero k xs h = let e : m ≡ k = omega arith in rw e
  drop-drop m (suc n) zero xs h = absurd (omega arith)
  drop-drop zero (suc n) (suc k) [] h = refl
  drop-drop (suc m) (suc n) (suc k) [] h = refl
  drop-drop m (suc n) (suc k) (x ∷ xs) h = drop-drop m n k xs (omega arith)

  bounded-bounded : (n : ℕ) (xs ys : List A) → bounded n (bounded n xs ++ ys) ≡ bounded n (xs ++ ys)
  bounded-bounded n xs ys =
      let few = length xs - n in
      rw (← drop-append few xs ys (omega arith)) (
        drop-drop _ few _ (xs ++ ys)
          (omega (arith, length-drop few (xs ++ ys), length-append xs ys)))

  bounded_few : (n : ℕ) (xs : List A) → length xs ≤ n → bounded n xs ≡ xs
  bounded_few n xs h = let none_over : length xs - n ≡ 0 = omega arith in rw none_over refl

  length-bounded : (n : ℕ) (xs : List A) → length (bounded n xs) ≤ n
  length-bounded n xs = omega (arith, length-drop (length xs - n) xs)

module _ {F : Type 0} where
  abbrev live_of : Option (LaneStatistics F) → List ℕ
  live_of none = []
  live_of (some stats) = stats.live_count ∷ []

module _ {K F : Type 0} ⦃e : Eq K⦄ ⦃fl : Float F⦄ where
  history-smooth_lane :
      (lane k : K) (stats : LaneStatistics F) (c : CountStabilizer K F)
      → history_of (smooth_lane lane stats c).1 k ≡ (
          if beq lane k
          then bounded c.history_size (history_of c lane ++ stats.live_count ∷ [])
          else history_of c k)
  unfolding smooth_lane
  history-smooth_lane lane k stats c = rw get-put (ground arith)

  -- The count of a lane in a frame, if it has one.
  abbrev pub count_in : K → Dict K (LaneStatistics F) → List ℕ
  count_in k frame = live_of (get k frame)

  -- The counts of a lane in successive frames.
  abbrev pub counts_of : K → List (Dict K (LaneStatistics F)) → List ℕ
  counts_of k [] = []
  counts_of k (frame ∷ frames) = count_in k frame ++ counts_of k frames

  abbrev pub stabilize_all :
      List (Dict K (LaneStatistics F)) → CountStabilizer K F → CountStabilizer K F
  stabilize_all [] c = c
  stabilize_all (frame ∷ frames) c = stabilize_all frames (stabilize frame c).1

  size-smooth_lane :
      (lane : K) (stats : LaneStatistics F) (c : CountStabilizer K F)
      → (smooth_lane lane stats c).1.history_size ≡ c.history_size
  unfolding smooth_lane
  size-smooth_lane lane stats c = refl

  size-stabilize :
      (frame : Dict K (LaneStatistics F)) (c : CountStabilizer K F)
      → (stabilize frame c).1.history_size ≡ c.history_size
  unfolding stabilize smooth_lane
  size-stabilize [] c = refl
  size-stabilize ((lane, stats) ∷ rest) c = size-stabilize rest (smooth_lane lane stats c).1

  -- A lane that is not in the frame keeps its history.
  history-stabilize_other :
      (k : K) (frame : Dict K (LaneStatistics F)) (c : CountStabilizer K F)
      → get k frame ≡ none
      → history_of (stabilize frame c).1 k ≡ history_of c k
  unfolding stabilize
  history-stabilize_other k [] c h = refl
  history-stabilize_other k ((lane, stats) ∷ rest) c h = elim (Bool-cases (beq lane k)) [
    | inl same ↦ cc (rw same at h)
    | inr apart ↦
        history-stabilize_other k rest (smooth_lane lane stats c).1 (rw apart at h)
        ∙ history-smooth_lane lane k stats c
        ∙ rw apart refl
  ]

  history-stabilize :
      (k : K) (frame : Dict K (LaneStatistics F)) (c : CountStabilizer K F)
      → IsDict frame
      → length (history_of c k) ≤ c.history_size
      → history_of (stabilize frame c).1 k
        ≡ bounded c.history_size (history_of c k ++ count_in k frame)
  unfolding stabilize
  history-stabilize k [] c d h = rw append-nil (sym (bounded_few c.history_size (history_of c k) h))
  history-stabilize k ((lane, stats) ∷ rest) c (d, ds) h = elim (Bool-cases (beq lane k)) [
    | inl same ↦
        let key : lane ≡ k = beq→eq lane k same in
        let gone : get k rest ≡ none = rw key at d in
        history-stabilize_other k rest (smooth_lane lane stats c).1 gone
        ∙ history-smooth_lane lane k stats c
        ∙ rw (same, key) refl
    | inr apart ↦
        let kept = history-smooth_lane lane k stats c ∙ rw apart refl in
        rw apart
          (history-stabilize k rest (smooth_lane lane stats c).1 ds (smaller kept) ∙ resized kept)
  ]
    where
      smaller :
          history_of (smooth_lane lane stats c).1 k ≡ history_of c k
          → length (history_of (smooth_lane lane stats c).1 k)
            ≤ (smooth_lane lane stats c).1.history_size
      smaller kept = rw (kept, size-smooth_lane lane stats c) h

      resized :
          history_of (smooth_lane lane stats c).1 k ≡ history_of c k
          → bounded
              (smooth_lane lane stats c).1.history_size
              (history_of (smooth_lane lane stats c).1 k ++ count_in k rest)
            ≡ bounded c.history_size (history_of c k ++ count_in k rest)
      resized kept = rw (kept, size-smooth_lane lane stats c) refl

  stabilize_all-history :
      (k : K) (frames : List (Dict K (LaneStatistics F))) (c : CountStabilizer K F)
      → All IsDict frames
      → length (history_of c k) ≤ c.history_size
      → history_of (stabilize_all frames c) k
        ≡ bounded c.history_size (history_of c k ++ counts_of k frames)
  stabilize_all-history k [] c d h =
      rw append-nil (sym (bounded_few c.history_size (history_of c k) h))
  stabilize_all-history k (frame ∷ frames) c (d, ds) h =
      let n = c.history_size in
      let step = history-stabilize k frame c d h in
      let size = size-stabilize frame c in
      stabilize_all-history k frames (stabilize frame c).1 ds
        (rw (step, size) (length-bounded n (history_of c k ++ count_in k frame)))
      ∙ rw (step, size)
          (bounded-bounded n (history_of c k ++ count_in k frame) (counts_of k frames)
            ∙ ap (bounded n)
                (append_assoc (history_of c k) (count_in k frame) (counts_of k frames)))

  history-new :
      (k : K) (lanes : List K) (alpha : F) (n : ℕ)
      → history_of (new_stabilizer lanes alpha n) k ≡ []
  unfolding new_stabilizer
  history-new k lanes alpha n = go lanes
    where
      go : (ls : List K) → or_default {A = List ℕ} (get k (map (λ lane. (lane, [])) ls)) [] ≡ []
      go [] = refl
      go (l ∷ ls) = ground (arith, go ls)

  -- The history of a lane holds the last counts of the lane, as many as the history's size, after
  -- any frames in which no lane stands twice, whatever the other lanes are.
  pub history-stabilize_all :
      (k : K) (lanes : List K) (alpha : F) (n : ℕ) (frames : List (Dict K (LaneStatistics F)))
      → All IsDict frames
      → history_of (stabilize_all frames (new_stabilizer lanes alpha n)) k
        ≡ bounded n (counts_of k frames)
  unfolding new_stabilizer
  history-stabilize_all k lanes alpha n frames d =
      let start = history-new k lanes alpha n in
      stabilize_all-history k frames (new_stabilizer lanes alpha n) d (rw start (omega arith))
      ∙ rw start refl
