-- ===== src/Base/Sets.antt =====
-- Sets of keys as lists: membership and removal by the sameness of keys, and the insertion of a
-- `std::set`, which keeps its members in order.
use mathlib.Core.Path.{◌≡◌, refl}
use mathlib.Core.List.{List, [], ◌∷◌, ◌++◌}
use mathlib.Core.Bool.{Bool, true, false, ◌||◌}
use native.Mathlib.Omega.{arith}
use hpcore.Base.Tests.{if◌then◌else◌, Bool-cases}
use mathlib.Core.Logic.{inl, inr}
use hpcore.Base.Lists.{All}
use hpcore.Base.Keys.{Keyed, same_sym, Ordered}

module _ {ℓ} {K : Type ℓ} ⦃k : Keyed K⦄ where
  unfoldable pub elem : K → List K → Bool
  elem q [] = false
  elem q (x ∷ xs) = if k.same x q then true else elem q xs

  unfoldable pub discard : K → List K → List K
  discard q [] = []
  discard q (x ∷ xs) = let rest = discard q xs in if k.same x q then rest else x ∷ rest

  -- No member occurs twice.
  abbrev pub NoDup : List K → Type 0
  NoDup [] = Unit
  NoDup (x ∷ xs) = (elem x xs ≡ false) × NoDup xs

  pub elem-cong : (p q : K) (xs : List K) → k.same p q ≡ true → elem p xs ≡ elem q xs
  unfolding elem
  elem-cong p q [] h = refl
  elem-cong p q (x ∷ xs) h =
      ground
        (arith, k.same_cong p q x, same_sym ⦃k = k⦄ p x, same_sym ⦃k = k⦄ q x, elem-cong p q xs h)

  pub elem-append : (q : K) (xs ys : List K) → elem q (xs ++ ys) ≡ (elem q xs || elem q ys)
  unfolding elem
  elem-append q [] ys = refl
  elem-append q (x ∷ xs) ys = ground (arith, elem-append q xs ys)

  pub elem-discard :
      (q p : K) (xs : List K) → elem p (discard q xs) ≡ (if k.same q p then false else elem p xs)
  unfolding elem discard
  elem-discard q p [] = ground arith
  elem-discard q p (x ∷ xs) =
      ground
        (arith, k.same_cong x q p, k.same_cong x p q, same_sym ⦃k = k⦄ p q, elem-discard q p xs)

  pub NoDup-snoc : (xs : List K) (q : K) → elem q xs ≡ false → NoDup xs → NoDup (xs ++ q ∷ [])
  unfolding elem
  NoDup-snoc [] q h d = (refl, tt)
  NoDup-snoc (x ∷ xs) q h d =
      ground (arith, elem-append x xs (q ∷ []), same_sym ⦃k = k⦄ x q, NoDup-snoc xs q)

module _ {ℓ} {K : Type ℓ} (o : Ordered K) where
  -- `std::set::insert`: an equivalent member that is there stays.
  unfoldable pub set_insert : K → List K → List K
  set_insert q [] = q ∷ []
  set_insert q (x ∷ xs) =
      let rest = set_insert q xs in
      if o.lt q x then q ∷ x ∷ xs else if o.lt x q then x ∷ rest else x ∷ xs

  pub All-set_insert {κ} :
      (P : K → Type κ) (q : K) (xs : List K) → P q → All P xs → All P (set_insert q xs)
  unfolding set_insert
  All-set_insert P q [] h hs = (h, tt)
  All-set_insert P q (x ∷ xs) h hs = elim (Bool-cases (o.lt q x)) [
    | inl below ↦ rw below (h, hs)
    | inr other ↦ elim (Bool-cases (o.lt x q)) [
      | inl above ↦ rw (other, above) (hs.0, All-set_insert P q xs h hs.1)
      | inr same ↦ rw (other, same) hs
    ]
  ]
