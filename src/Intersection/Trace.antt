-- ===== src/Intersection/Trace.antt =====
-- Histories of the simulated intersection of ai/pipeline/digital_intersection.py.
use smart_traffic_management.Common.{
  arith, ℕ, ◌≡◌, ◌≢◌, refl, ap, ◌⊎◌, inl, inr, some, List, [], ◌∷◌, ◌++◌,
}
use smart_traffic_management.Common.Float.{Float}
use smart_traffic_management.Signal.Types.{LaneId}
use smart_traffic_management.Intersection.{Intersection, new_intersection}
use smart_traffic_management.Intersection.Invariant.{
  IsValid, trigger_camera_dropout-IsValid, trigger_ai_stall-IsValid,
}
use smart_traffic_management.Intersection.Stepping.{step_simulation-IsValid}
use smart_traffic_management.Intersection.Phases.{
  View, step, dropout, stall, dark, lit_lane, view, Follows, stays, clears, starts, darkens, Event,
  apply_event, run, apply_event-Follows,
}

lit-Follows :
    {v w : View} (a : LaneId)
    → Follows v w
    → lit_lane v ≡ some a
    → (lit_lane w ≡ some a) ⊎ (w ≡ dark)
lit-Follows a (stays v) h = inl h
lit-Follows a (clears lane) h = inl h
lit-Follows a (starts lane) h = cc
lit-Follows a (darkens v) h = inr refl

module _ {F : Type 0} ⦃fl : Float F⦄ where
  -- Between a moment at which one lane is lit and a later one at which another lane is lit, whatever
  -- steps, dropouts and stalls lie between, there is a moment at which no lane is lit.
  pub dark_between :
      (events : List (Event F)) (st : Intersection F) (a b : LaneId)
      → lit_lane (view st) ≡ some a
      → lit_lane (view (run events st)) ≡ some b
      → a ≢ b
      → (before after : List (Event F)) × (events ≡ before ++ after) × (view (run before st) ≡ dark)
  dark_between [] st a b h k ne = absurd (ne cc)
  dark_between (e ∷ events) st a b h k ne = elim (lit-Follows a (apply_event-Follows e st) h) [
    | inl still ↦
        let (before, after, split, d) = dark_between events (apply_event e st) a b still k ne in
        (e ∷ before, after, ap (◌∷◌ e) split, d)
    | inr d ↦ (e ∷ [], events, refl, d)
  ]

module _ {F : Type 0} ⦃fl : Float F⦄ where
  apply_event-IsValid :
      (e : Event F) (st : Intersection F) → IsValid st → IsValid (apply_event e st)
  unfolding apply_event
  apply_event-IsValid (step dt demands now) st v = step_simulation-IsValid dt demands now st v
  apply_event-IsValid (dropout lane status) st v = trigger_camera_dropout-IsValid lane status st v
  apply_event-IsValid (stall stalled) st v = trigger_ai_stall-IsValid stalled st v

  run-IsValid :
      (events : List (Event F)) (st : Intersection F) → IsValid st → IsValid (run events st)
  run-IsValid [] st v = v
  run-IsValid (e ∷ events) st v = run-IsValid events (apply_event e st) (apply_event-IsValid e st v)

  -- From a new intersection, after any history of steps, dropouts and stalls: a lit phase has its
  -- lane, the lanes served in the open cycle are at most three and all different, and the
  -- scheduler's cursor is below four.
  pub run-new_intersection-IsValid :
      (min_green max_green yellow_sec all_red_sec : ℕ) (events : List (Event F))
      → IsValid (run events (new_intersection min_green max_green yellow_sec all_red_sec))
  unfolding new_intersection
  run-new_intersection-IsValid min_green max_green yellow_sec all_red_sec events =
      run-IsValid events _ (record {
        lane_known = λ h. cc;
        served_few = omega arith;
        served_once = tt;
        cursor = omega arith;
      })
