-- ===== src/Analytics/Levels.antt =====
-- The density of ai/analytics/congestion_analyzer.py grows with the congestion index.
use smart_traffic_management.Analytics.{classify_density}
use smart_traffic_management.Common.{
  Bool, String, arith, false, if◌then◌else◌, or_default, ℕ, ◌≡◌, ◌≤◌,
}
use smart_traffic_management.Common.Dict.{Dict, get}
use smart_traffic_management.Common.Equality.{string_eq}
use smart_traffic_management.Common.Float.{Float, FloatOrder}
use smart_traffic_management.Signal.Types.{Density, congested, high, low, medium}

abbrev pub level : Density → ℕ
level low = 0
level medium = 1
level high = 2
level congested = 3

module _ {F : Type 0} ⦃fl : Float F⦄ where
  -- A greater congestion index never has a lower density, whatever the thresholds are.
  pub classify_density-monotone :
      FloatOrder F
      → (thresholds : Dict String F) (a b : F) → fl.lt b a ≡ false
      → level (classify_density thresholds a) ≤ level (classify_density thresholds b)
  unfolding classify_density
  classify_density-monotone order thresholds a b h =
      let t1 = or_default (get "LOW" thresholds) (fl.lit 800) in
      let t2 = or_default (get "MEDIUM" thresholds) (fl.lit 1800) in
      let t3 = or_default (get "HIGH" thresholds) (fl.lit 3000) in
      go (fl.lt a t1) (fl.lt a t2) (fl.lt a t3) (fl.lt b t1) (fl.lt b t2) (fl.lt b t3)
        (order.ge_trans b a t1 h) (order.ge_trans b a t2 h) (order.ge_trans b a t3 h)
    where
      rank : Bool → Bool → Bool → Density
      rank x y z = if x then low else if y then medium else if z then high else congested

      go :
          (x y z x' y' z' : Bool)
          → (x ≡ false → x' ≡ false)
          → (y ≡ false → y' ≡ false)
          → (z ≡ false → z' ≡ false)
          → level (rank x y z) ≤ level (rank x' y' z')
      go x y z x' y' z' f g k = ground arith
