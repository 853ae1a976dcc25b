-- ===== src/Common/Dict.antt =====
-- Python's `dict`: an association list in insertion order, with the keys' equality as an instance.
use smart_traffic_management.Common.Tests.{if◌then◌else◌, is_some, Bool-cases}
use smart_traffic_management.Common.Lists.{find}
use mathlib.Core.Logic.{inl, inr}
use smart_traffic_management.Common.Equality.{Eq, beq, beq_refl, beq→eq, eq→beq}
use mathlib.Core.Path.{◌≡◌, refl}
use mathlib.Core.Bool.{Bool, true, false}
use mathlib.Core.Option.{Option, none, some}
use mathlib.Core.List.{List, [], ◌∷◌}
use native.Mathlib.Omega.{arith}

abbrev pub Dict {ℓ κ} : Type ℓ → Type κ → Type (ℓ ⊔ κ)
Dict K V = List (K × V)

module _ {ℓ κ} {K : Type ℓ} {V : Type κ} where
  -- `d.values()`, `d.keys()`
  abbrev pub values : Dict K V → List V
  values [] = []
  values ((k, v) ∷ d) = v ∷ values d

  abbrev pub keys : Dict K V → List K
  keys [] = []
  keys ((k, v) ∷ d) = k ∷ keys d

module _ {ℓ κ} {K : Type ℓ} ⦃e : Eq K⦄ {V : Type κ} where
  -- `d.get(k)`
  abbrev pub get : K → Dict K V → Option V
  get k [] = none
  get k ((j, v) ∷ d) = if beq j k then some v else get k d

  -- `k in d`
  abbrev pub contains : K → Dict K V → Bool
  contains k d = is_some (get k d)

  -- `d[k] = v`: in place where the key is there, else at the end
  abbrev pub put : K → V → Dict K V → Dict K V
  put k v [] = (k, v) ∷ []
  put k v ((j, w) ∷ d) = if beq j k then (j, v) ∷ d else (j, w) ∷ put k v d

  -- `d.update(e)`
  abbrev pub update : Dict K V → Dict K V → Dict K V
  update [] d = d
  update ((k, v) ∷ e) d = update e (put k v d)

  -- `del d[k]`, `d.pop(k, None)`
  abbrev pub pop : K → Dict K V → Dict K V
  pop k [] = []
  pop k ((j, w) ∷ d) = let rest = pop k d in if beq j k then rest else (j, w) ∷ rest

  pub get-put :
      (k j : K) (v : V) (d : Dict K V) → get j (put k v d) ≡ (if beq k j then some v else get j d)
  get-put k j v [] = refl
  get-put k j v ((i, w) ∷ d) = ground (
    arith,
    get-put k j v d,
    beq→eq i k,
    beq→eq i j,
    beq→eq k j,
    eq→beq k j,
    eq→beq i j,
    eq→beq i k,
  )

  pub get-pop : (k j : K) (d : Dict K V) → get j (pop k d) ≡ (if beq k j then none else get j d)
  get-pop k j [] = ground arith
  get-pop k j ((i, w) ∷ d) =
      ground (
        arith,
        get-pop k j d,
        beq→eq i k,
        beq→eq i j,
        beq→eq k j,
        eq→beq k j,
        eq→beq i j,
        eq→beq i k,
      )

  pub get-put_self : (k : K) (v : V) (d : Dict K V) → get k (put k v d) ≡ some v
  get-put_self k v d = simp (get-put k k v d, beq_refl k)

module _ {ℓ κ} {K : Type ℓ} ⦃e : Eq K⦄ {V : Type κ} where
  -- No key stands twice, as in every Python dict.
  abbrev pub IsDict : Dict K V → Type κ
  IsDict [] = Unit
  IsDict ((k, v) ∷ d) = (get k d ≡ none) × IsDict d

  pub put-IsDict : (k : K) (v : V) (d : Dict K V) → IsDict d → IsDict (put k v d)
  put-IsDict k v [] h = (refl, tt)
  put-IsDict k v ((j, w) ∷ d) (h, rest) = elim (Bool-cases (beq j k)) [
    | inl same ↦ rw same (h, rest)
    | inr other ↦ rw other (
      rw (get-put k j v d) (ground (arith, beq→eq j k, beq→eq k j, eq→beq j k, h, other)),
      put-IsDict k v d rest,
    )
  ]

  pub pop-IsDict : (k : K) (d : Dict K V) → IsDict d → IsDict (pop k d)
  pop-IsDict k [] h = tt
  pop-IsDict k ((j, w) ∷ d) (h, rest) = elim (Bool-cases (beq j k)) [
    | inl same ↦ rw same (pop-IsDict k d rest)
    | inr other ↦ rw other (rw (get-pop k j d) (ground (arith, h)), pop-IsDict k d rest)
  ]

  -- A value that a search over `d.values()` finds is the value of a key, and passes the test.
  pub find-values :
      (p : V → Bool) (d : Dict K V) (v : V)
      → IsDict d
      → find p (values d) ≡ some v
      → (k : K) × (get k d ≡ some v) × (p v ≡ true)
  find-values p [] v h f = cc
  find-values p ((j, w) ∷ d) v (h, rest) f = elim (Bool-cases (p w)) [
    | inl here ↦
        let same : some w ≡ some v = rw here at f in
        (j, rw (beq_refl j) same, ground (arith, here, same))
    | inr there ↦
        let (k, found, passes) = find-values p d v rest (rw there at f) in
        (k, ground (arith, beq→eq j k, h, found), passes)
  ]

  -- A search that finds nothing has no value that passes the test.
  pub find-values-none :
      (p : V → Bool) (d : Dict K V) (k : K) (v : V)
      → find p (values d) ≡ none
      → get k d ≡ some v
      → p v ≡ false
  find-values-none p [] k v f g = cc
  find-values-none p ((j, w) ∷ d) k v f g = elim (Bool-cases (p w)) [
    | inl here ↦ cc (rw here at f)
    | inr there ↦ elim (Bool-cases (beq j k)) [
      | inl same ↦ ground (arith, there, same, g)
      | inr other ↦ find-values-none p d k v (rw there at f) (rw other at g)
    ]
  ]
