-- ===== src/Runtime/Batching.antt =====
-- The batches of server/frame_coordinator.py.
use smart_traffic_management.Common.{
  All, Bool, Bool-cases, any, any-append, false, true, inl, inr, ◌||◌, List, [], ap, arith, drop,
  filter, length, refl, suc, sym, take, zero, ℕ, ◌++◌, ◌-◌, ◌<◌, ◌∙◌, ◌∷◌, ◌≡◌, ◌≤◌,
}
use smart_traffic_management.Common.Dict.{Dict, contains, get-put, put}
use smart_traffic_management.Common.Equality.{beq, nat_eq, string_eq}
use smart_traffic_management.Common.Float.{Float}
use smart_traffic_management.Runtime.Coordinator.{
  batches, computed_detections, detect_all, frame_numbers, images, is_due, store, timestamps,
}
use smart_traffic_management.Runtime.Processing.{Settings, Vision}
use smart_traffic_management.Server.{Frame}
use smart_traffic_management.Signal.Types.{LaneId, lane_id_eq_inst}

module _ {ℓ} {A : Type ℓ} where
  abbrev pub concat : List (List A) → List A
  concat [] = []
  concat (group ∷ groups) = group ++ concat groups

  take-append-drop : (n : ℕ) (xs : List A) → take n xs ++ drop n xs ≡ xs
  take-append-drop zero xs = refl
  take-append-drop (suc n) [] = refl
  take-append-drop (suc n) (x ∷ xs) = ap (λ ys. x ∷ ys) (take-append-drop n xs)

  length-take : (n : ℕ) (xs : List A) → length (take n xs) ≤ n
  length-take zero xs = omega arith
  length-take (suc n) [] = omega arith
  length-take (suc n) (x ∷ xs) = omega (arith, length-take n xs)

  length-drop : (n : ℕ) (xs : List A) → length (drop n xs) ≤ length xs - n
  length-drop zero xs = omega arith
  length-drop (suc n) [] = omega arith
  length-drop (suc n) (x ∷ xs) = omega (arith, length-drop n xs)

  concat-batches :
      (fuel size : ℕ) (xs : List A)
      → 0 < size
      → length xs ≤ fuel
      → concat (batches fuel size xs) ≡ xs
  concat-batches zero size [] h e = refl
  concat-batches zero size (x ∷ xs) h e = absurd (omega arith)
  concat-batches (suc fuel) size [] h e = refl
  concat-batches (suc fuel) size (x ∷ xs) h e =
      let rest : length (drop size (x ∷ xs)) ≤ fuel = omega (arith, length-drop size (x ∷ xs)) in
      ap (λ ys. take size (x ∷ xs) ++ ys) (concat-batches fuel size (drop size (x ∷ xs)) h rest)
      ∙ take-append-drop size (x ∷ xs)

  batches_sizes :
      (fuel size : ℕ) (xs : List A)
      → 0 < size
      → All (λ group. (0 < length group) × (length group ≤ size)) (batches fuel size xs)
  batches_sizes zero size xs h = tt
  batches_sizes (suc fuel) size [] h = tt
  batches_sizes (suc fuel) zero (x ∷ xs) h = absurd (omega arith)
  batches_sizes (suc fuel) (suc size) (x ∷ xs) h = (
    (omega arith, omega (arith, length-take size xs)),
    batches_sizes fuel (suc size) (drop (suc size) (x ∷ xs)) h,
  )

  -- With a positive size, as many rounds as there are elements are enough: the batches put together
  -- give the list back, none is empty, and none is larger than the size.
  pub batches_lem :
      (size : ℕ) (xs : List A)
      → 0 < size
      → (concat (batches (length xs) size xs) ≡ xs)
        × All (λ group. (0 < length group) × (length group ≤ size)) (batches (length xs) size xs)
  batches_lem size xs h =
      (concat-batches (length xs) size xs h (omega arith), batches_sizes (length xs) size xs h)

any-or : (a b c : Bool) → (b || (a || c)) ≡ ((a || b) || c)
any-or true b c = ground arith
any-or false b c = refl

or_false : (b : Bool) → (b || false) ≡ b
or_false true = refl
or_false false = refl

contains-put :
    {V : Type 0} (k : LaneId) (x : V) (d : Dict LaneId V) (lane : LaneId)
    → contains lane (put k x d) ≡ (beq k lane || contains lane d)
contains-put k x d lane = elim (Bool-cases (beq k lane)) [
  | inl same ↦ rw (get-put k lane x d, same) refl
  | inr apart ↦ rw (get-put k lane x d, apart) refl
]

module _ {A I : Type 0} where
  -- A frame of the lane.
  abbrev pub is_of : LaneId → Frame A × I → Bool
  is_of lane (frame, image) = beq frame.direction lane

  length-images : (xs : List (Frame A × I)) → length (images xs) ≡ length xs
  length-images [] = refl
  length-images (x ∷ xs) = ap suc (length-images xs)

  contains-store :
      {D E : Type 0} (xs : List (Frame A × I)) (ds : List D) (elapsed : E)
      (acc : Dict LaneId (D × E)) (lane : LaneId)
      → length ds ≡ length xs
      → contains lane (store xs ds elapsed acc) ≡ (any (is_of lane) xs || contains lane acc)
  contains-store [] ds elapsed acc lane h = refl
  contains-store (x ∷ xs) [] elapsed acc lane h = absurd (omega (arith, h))
  contains-store (x ∷ xs) (d ∷ ds) elapsed acc lane h =
      contains-store xs ds elapsed (put x.0.direction (d, elapsed) acc) lane (omega (arith, h))
      ∙ ap (λ b. any (is_of lane) xs || b) (contains-put x.0.direction (d, elapsed) acc lane)
      ∙ any-or (is_of lane x) (any (is_of lane) xs) (contains lane acc)

module _ {A I D F : Type 0} ⦃fl : Float F⦄ (v : Vision A I D F)
    (complete : (xs : List I) (numbers : List ℕ) (times : List F)
      → length (v.detect_batch xs numbers times).0 ≡ length xs) where
  contains-detect_all :
      (count : ℕ) (st : Settings F) (groups : List (List (Frame A × I))) (acc : Dict LaneId (D × F))
      (lane : LaneId)
      → contains lane (detect_all v st count groups acc)
        ≡ (any (is_of lane) (concat groups) || contains lane acc)
  unfolding detect_all
  contains-detect_all count st [] acc lane = refl
  contains-detect_all count st (group ∷ groups) acc lane =
      let (boxes, elapsed) =
        v.detect_batch (images group) (frame_numbers count group) (timestamps group) in
      contains-detect_all count st groups (store group boxes elapsed acc) lane
      ∙ ap (λ b. any (is_of lane) (concat groups) || b)
          (contains-store group boxes elapsed acc lane (
            complete (images group) (frame_numbers count group) (timestamps group)
            ∙ length-images group))
      ∙ any-or (any (is_of lane) group) (any (is_of lane) (concat groups)) (contains lane acc)
      ∙ ap (λ b. b || contains lane acc) (sym (any-append (is_of lane) group (concat groups)))

  -- Where the detector answers for each image of a batch and the size of the batches is positive,
  -- there are detections for a direction exactly if the detector is due for a frame of it, whatever
  -- the size of the batches is.
  pub computed_detections_due :
      (st : Settings F) (count : ℕ) (detected_at : Dict LaneId F) (ready : List (Frame A × I))
      (lane : LaneId)
      → 0 < st.batch_size
      → contains lane (computed_detections v st count detected_at ready)
        ≡ any (is_of lane) (filter (is_due v st detected_at) ready)
  unfolding computed_detections
  computed_detections_due st count detected_at ready lane h =
      let due = filter (is_due v st detected_at) ready in
      contains-detect_all count st (batches (length due) st.batch_size due) [] lane
      ∙ ap (λ xs. any (is_of lane) xs || false) (batches_lem st.batch_size due h).0
      ∙ or_false (any (is_of lane) due)
