-- ===== src/Common/Sort.antt =====
-- `list.sort(key=..., reverse=True)`: the stable sort by descending key.
use smart_traffic_management.Common.Tests.{if◌then◌else◌, Bool-cases}
use smart_traffic_management.Common.Lists.{All}
use smart_traffic_management.Common.Float.{Float, FloatOrder}
use mathlib.Core.Path.{◌≡◌}
use mathlib.Core.Logic.{inl, inr}
use mathlib.Core.Bool.{false}
use mathlib.Core.List.{List, [], ◌∷◌, Perm}
use mathlib.Core.List.Perm

module _ {A F : Type 0} ⦃fl : Float F⦄ (key : A → F) where
  -- Before the first element whose key is smaller or equal: equal keys keep their order.
  abbrev pub insert_desc : A → List A → List A
  insert_desc x [] = x ∷ []
  insert_desc x (y ∷ ys) =
      let rest = insert_desc x ys in if fl.lt (key x) (key y) then y ∷ rest else x ∷ y ∷ ys

  abbrev pub sort_desc : List A → List A
  sort_desc [] = []
  sort_desc (x ∷ xs) = insert_desc x (sort_desc xs)

  -- No key is smaller than one after it.
  abbrev pub IsDescending : List A → Type 0
  IsDescending [] = Unit
  IsDescending (x ∷ xs) = All (λ y. fl.lt (key x) (key y) ≡ false) xs × IsDescending xs

  insert_desc-perm : (x : A) (ys : List A) → Perm (insert_desc x ys) (x ∷ ys)
  insert_desc-perm x [] = Perm.refl (x ∷ [])
  insert_desc-perm x (y ∷ ys) = elim (Bool-cases (fl.lt (key x) (key y))) [
    | inl h ↦ rw h (Perm.trans (Perm.cons y (insert_desc-perm x ys)) (Perm.swap x y ys))
    | inr h ↦ rw h (Perm.refl (x ∷ y ∷ ys))
  ]

  pub sort_desc-perm : (xs : List A) → Perm (sort_desc xs) xs
  sort_desc-perm [] = Perm.refl []
  sort_desc-perm (x ∷ xs) =
      Perm.trans (insert_desc-perm x (sort_desc xs)) (Perm.cons x (sort_desc-perm xs))

module _ {A F : Type 0} ⦃fl : Float F⦄ (order : FloatOrder F) (key : A → F) where
  -- Below one key, below a greater one.
  All-ge_trans :
      (x y : A) (ys : List A)
      → fl.lt (key x) (key y) ≡ false
      → All (λ z. fl.lt (key y) (key z) ≡ false) ys
      → All (λ z. fl.lt (key x) (key z) ≡ false) ys
  All-ge_trans x y [] h a = tt
  All-ge_trans x y (z ∷ zs) h (a, rest) =
      (order.ge_trans (key x) (key y) (key z) h a, All-ge_trans x y zs h rest)

  All-insert_desc :
      (m x : A) (ys : List A)
      → fl.lt (key m) (key x) ≡ false
      → All (λ z. fl.lt (key m) (key z) ≡ false) ys
      → All (λ z. fl.lt (key m) (key z) ≡ false) (insert_desc key x ys)
  All-insert_desc m x [] h a = (h, tt)
  All-insert_desc m x (y ∷ ys) h (a, rest) = elim (Bool-cases (fl.lt (key x) (key y))) [
    | inl e ↦ rw e (a, All-insert_desc m x ys h rest)
    | inr e ↦ rw e (h, (a, rest))
  ]

  insert_desc-IsDescending :
      (x : A) (ys : List A) → IsDescending key ys → IsDescending key (insert_desc key x ys)
  insert_desc-IsDescending x [] d = (tt, tt)
  insert_desc-IsDescending x (y ∷ ys) (a, d) = elim (Bool-cases (fl.lt (key x) (key y))) [
    | inl e ↦ rw e (
      All-insert_desc y x ys (order.lt_asymm (key x) (key y) e) a,
      insert_desc-IsDescending x ys d,
    )
    | inr e ↦ rw e ((e, All-ge_trans x y ys e a), (a, d))
  ]

  pub sort_desc-IsDescending : (xs : List A) → IsDescending key (sort_desc key xs)
  sort_desc-IsDescending [] = tt
  sort_desc-IsDescending (x ∷ xs) =
      insert_desc-IsDescending x (sort_desc key xs) (sort_desc-IsDescending xs)
