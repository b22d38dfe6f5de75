-- ===== src/Base/OrderedMaps.antt =====
-- `std::map`: the entries in the order of their keys. A lookup goes by the equivalence of keys.
use mathlib.Core.Path.{◌≡◌, refl}
use mathlib.Core.List.{List, [], ◌∷◌}
use mathlib.Core.Option.{Option, none, some}
use mathlib.Core.Bool.{true}
use native.Mathlib.Omega.{arith}
use hpcore.Base.Tests.{if◌then◌else◌, Bool-cases}
use mathlib.Core.Logic.{inl, inr}
use hpcore.Base.Keys.{Ordered, ordered_keyed, equivalent}
use hpcore.Base.Maps.{find, put, Distinct}

module _ {ℓ κ} {K : Type ℓ} {V : Type κ} (o : Ordered K) where
  -- `m.find(q)`.
  abbrev pub map_find : K → List (K × V) → Option V
  map_find = find ⦃k = ordered_keyed o⦄

  -- `m[q] = v` for a key that is there.
  abbrev pub map_put : K → V → List (K × V) → List (K × V)
  map_put = put ⦃k = ordered_keyed o⦄

  -- `m.try_emplace(q, v)`.
  unfoldable pub map_emplace : K → V → List (K × V) → List (K × V)
  map_emplace q v [] = (q, v) ∷ []
  map_emplace q v ((j, w) ∷ m) =
      let rest = (j, w) ∷ map_emplace q v m in
      if o.lt q j then (q, v) ∷ (j, w) ∷ m else if o.lt j q then rest else (j, w) ∷ m

  -- The keys ascend, so no two of them are equivalent.
  abbrev pub Above : K → List (K × V) → Type 0
  Above q [] = Unit
  Above q ((j, w) ∷ m) = o.lt q j ≡ true

  abbrev pub Ascending : List (K × V) → Type 0
  Ascending [] = Unit
  Ascending ((j, w) ∷ m) = Above j m × Ascending m

  pub Above-all : (q p : K) (m : List (K × V)) → o.lt q p ≡ true → Above p m → Above q m
  Above-all q p [] h a = tt
  Above-all q p ((j, w) ∷ m) h a = o.lt_trans q p j h a

  pub map_find_below : (q : K) (m : List (K × V)) → Above q m → Ascending m → map_find q m ≡ none
  unfolding find
  map_find_below q [] a s = refl
  map_find_below q ((j, w) ∷ m) a s =
      ground (arith, Above-all q j m, map_find_below q m (Above-all q j m a s.0) s.1)

  pub find-map_emplace :
      (q p : K) (v : V) (m : List (K × V))
      → Ascending m
      → map_find q m ≡ none
      → map_find p (map_emplace q v m) ≡ (if equivalent o q p then some v else map_find p m)
  unfolding find map_emplace
  find-map_emplace q p v [] s h = refl
  find-map_emplace q p v ((j, w) ∷ m) s h = ground (
    arith,
    (ordered_keyed o).same_cong j p q,
    (ordered_keyed o).same_cong q p j,
    find-map_emplace q p v m,
  )

  map_emplace-Above :
      (p q : K) (v : V) (m : List (K × V))
      → o.lt p q ≡ true
      → Above p m
      → Above p (map_emplace q v m)
  unfolding map_emplace
  map_emplace-Above p q v [] h a = h
  map_emplace-Above p q v ((j, w) ∷ m) h a = ground arith

  pub map_emplace-Ascending :
      (q : K) (v : V) (m : List (K × V)) → Ascending m → Ascending (map_emplace q v m)
  unfolding map_emplace
  map_emplace-Ascending q v [] s = (tt, tt)
  map_emplace-Ascending q v ((j, w) ∷ m) s = elim (Bool-cases (o.lt q j)) [
    | inl below ↦ rw below (below, s)
    | inr other ↦ elim (Bool-cases (o.lt j q)) [
      | inl above ↦
          rw (other, above) (map_emplace-Above j q v m above s.0, map_emplace-Ascending q v m s.1)
      | inr same ↦ rw (other, same) s
    ]
  ]

  map_put-Above :
      (p q : K) (v x : V) (m : List (K × V))
      → map_find q m ≡ some x
      → Above p m
      → Above p (map_put q v m)
  unfolding put find
  map_put-Above p q v x [] h a = cc
  map_put-Above p q v x ((j, w) ∷ m) h a = ground arith

  pub map_put-Ascending :
      (q : K) (v x : V) (m : List (K × V))
      → map_find q m ≡ some x
      → Ascending m
      → Ascending (map_put q v m)
  unfolding put find
  map_put-Ascending q v x [] h s = cc
  map_put-Ascending q v x ((j, w) ∷ m) h s = elim (Bool-cases (equivalent o j q)) [
    | inl same ↦ rw same s
    | inr other ↦
        let h' : map_find q m ≡ some x = rw other at h in
        rw other (map_put-Above j q v x m h' s.0, map_put-Ascending q v x m h' s.1)
  ]

  pub Ascending-Distinct : (m : List (K × V)) → Ascending m → Distinct ⦃k = ordered_keyed o⦄ m
  Ascending-Distinct [] s = tt
  Ascending-Distinct ((j, w) ∷ m) s = (map_find_below j m s.0 s.1, Ascending-Distinct m s.1)
