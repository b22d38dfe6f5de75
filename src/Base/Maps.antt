-- ===== src/Base/Maps.antt =====
-- Key maps as lists of entries: `std::unordered_map`, and the reading side of `std::map`.
-- The order in which an unordered map is walked is not specified; here it is the order in which
-- the keys were first put in.
use Prim.Native.Nat.{suc, ◌≤◌}
use mathlib.Core.Path.{◌≡◌, refl}
use mathlib.Core.Logic.{◌⊎◌, inl, inr}
use mathlib.Core.List.{List, [], ◌∷◌}
use mathlib.Core.Option.{Option, none, some}
use mathlib.Core.Bool.{Bool, true, false}
use native.Mathlib.Omega.{arith}
use hpcore.Base.Tests.{if◌then◌else◌, Bool-cases}
use hpcore.Base.Lists.{length, All}
use hpcore.Base.Keys.{Keyed, same_sym}

-- `map[key]` of a map of lists, with the empty list where there is none.
abbrev pub or_empty {ℓ} : {A : Type ℓ} → Option (List A) → List A
or_empty none = []
or_empty (some xs) = xs

module _ {ℓ κ} {K : Type ℓ} {V : Type κ} ⦃k : Keyed K⦄ where
  unfoldable pub find : K → List (K × V) → Option V
  find q [] = none
  find q ((j, v) ∷ m) = if k.same j q then some v else find q m

  -- `m[q] = v`: the key of an entry that is there stays.
  unfoldable pub put : K → V → List (K × V) → List (K × V)
  put q v [] = (q, v) ∷ []
  put q v ((j, w) ∷ m) = if k.same j q then (j, v) ∷ m else (j, w) ∷ put q v m

  -- `m.erase(q)`.
  unfoldable pub erase : K → List (K × V) → List (K × V)
  erase q [] = []
  erase q ((j, w) ∷ m) = let rest = erase q m in if k.same j q then rest else (j, w) ∷ rest

  unfoldable pub contains : K → List (K × V) → Bool
  contains q [] = false
  contains q ((j, w) ∷ m) = if k.same j q then true else contains q m

  pub find-put :
      (q p : K) (v : V) (m : List (K × V))
      → find p (put q v m) ≡ (if k.same q p then some v else find p m)
  unfolding find put
  find-put q p v [] = refl
  find-put q p v ((j, w) ∷ m) =
      ground (arith, k.same_cong j q p, k.same_cong j p q, same_sym ⦃k = k⦄ p q, find-put q p v m)

  pub find-erase :
      (q p : K) (m : List (K × V)) → find p (erase q m) ≡ (if k.same q p then none else find p m)
  unfolding find erase
  find-erase q p [] = ground arith
  find-erase q p ((j, w) ∷ m) =
      ground (arith, k.same_cong j q p, k.same_cong j p q, same_sym ⦃k = k⦄ p q, find-erase q p m)

  pub length-erase-le : (q : K) (m : List (K × V)) → length (erase q m) ≤ length m
  unfolding erase
  length-erase-le q [] = omega arith
  length-erase-le q ((j, w) ∷ m) = ground (arith, length-erase-le q m)

  pub length-put-le : (q : K) (v : V) (m : List (K × V)) → length (put q v m) ≤ suc (length m)
  unfolding put
  length-put-le q v [] = omega arith
  length-put-le q v ((j, w) ∷ m) = ground (arith, length-put-le q v m)

  pub length-put_new :
      (q : K) (v : V) (m : List (K × V)) → find q m ≡ none → length (put q v m) ≡ suc (length m)
  unfolding put find
  length-put_new q v [] h = refl
  length-put_new q v ((j, w) ∷ m) h = ground (arith, length-put_new q v m)

  module _ {ι} (P : V → Type ι) where
    pub All-put :
        (q : K) (v : V) (m : List (K × V)) → P v → All (λ e. P e.1) m → All (λ e. P e.1) (put q v m)
    unfolding put
    All-put q v [] h hs = (h, tt)
    All-put q v ((j, w) ∷ m) h hs = ground (arith, All-put q v m h hs.1)

    pub All-erase : (q : K) (m : List (K × V)) → All (λ e. P e.1) m → All (λ e. P e.1) (erase q m)
    unfolding erase
    All-erase q [] hs = tt
    All-erase q ((j, w) ∷ m) hs = ground (arith, All-erase q m hs.1)

    pub All-find : (q : K) (v : V) (m : List (K × V)) → All (λ e. P e.1) m → find q m ≡ some v → P v
    unfolding find
    All-find q v [] hs h = cc
    All-find q v ((j, w) ∷ m) hs h = ground (arith, All-find q v m hs.1)

  -- Some entry of the map has a key that is the same as `q`.
  abbrev pub HasKey : K → List (K × V) → Type 0
  HasKey q [] = ⊥
  HasKey q ((j, w) ∷ m) = (k.same j q ≡ true) ⊎ HasKey q m

module _ {ℓ κ} {K : Type ℓ} {V : Type κ} where
  abbrev pub keys : List (K × V) → List K
  keys [] = []
  keys ((j, w) ∷ m) = j ∷ keys m

  -- `m.erase_if`, written in the source as a loop over iterators.
  unfoldable pub remove_if : (V → Bool) → List (K × V) → List (K × V)
  remove_if p [] = []
  remove_if p ((j, w) ∷ m) = let rest = remove_if p m in if p w then rest else (j, w) ∷ rest

-- What a lookup gives after the entries with a property are removed.
abbrev pub find_unless {κ} : {V : Type κ} → (V → Bool) → Option V → Option V
find_unless p none = none
find_unless p (some v) = if p v then none else some v

module _ {ℓ κ} {K : Type ℓ} {V : Type κ} ⦃k : Keyed K⦄ where
  -- No two entries have the same key.
  abbrev pub Distinct : List (K × V) → Type κ
  Distinct [] = Unit
  Distinct ((j, w) ∷ m) = (find j m ≡ none) × Distinct m

  pub find-cong : (i j : K) (m : List (K × V)) → k.same i j ≡ true → find i m ≡ find j m
  unfolding find
  find-cong i j [] h = refl
  find-cong i j ((l, w) ∷ m) h =
      ground
        (arith, k.same_cong i j l, same_sym ⦃k = k⦄ i l, same_sym ⦃k = k⦄ j l, find-cong i j m h)

  remove_if_absent :
      (p : V → Bool) (q : K) (m : List (K × V)) → find q m ≡ none → find q (remove_if p m) ≡ none
  unfolding find remove_if
  remove_if_absent p q [] h = refl
  remove_if_absent p q ((j, w) ∷ m) h = ground (arith, remove_if_absent p q m)

  pub find-remove_if :
      (p : V → Bool) (q : K) (m : List (K × V))
      → Distinct m
      → find q (remove_if p m) ≡ find_unless p (find q m)
  unfolding find remove_if
  find-remove_if p q [] d = refl
  find-remove_if p q ((j, w) ∷ m) d =
      ground (arith, find-cong j q m, remove_if_absent p q m, find-remove_if p q m d.1)

  pub put-Distinct : (q : K) (v : V) (m : List (K × V)) → Distinct m → Distinct (put q v m)
  unfolding put find
  put-Distinct q v [] d = (refl, tt)
  put-Distinct q v ((j, w) ∷ m) d =
      ground (arith, find-put q j v m, same_sym ⦃k = k⦄ q j, put-Distinct q v m d.1)

  pub erase-Distinct : (q : K) (m : List (K × V)) → Distinct m → Distinct (erase q m)
  unfolding erase
  erase-Distinct q [] d = tt
  erase-Distinct q ((j, w) ∷ m) d = ground (arith, find-erase q j m, erase-Distinct q m d.1)

  pub remove_if-Distinct : (p : V → Bool) (m : List (K × V)) → Distinct m → Distinct (remove_if p m)
  unfolding remove_if
  remove_if-Distinct p [] d = tt
  remove_if-Distinct p ((j, w) ∷ m) d =
      ground (arith, remove_if_absent p j m, remove_if-Distinct p m d.1)

module _ {ℓ κ} {K : Type ℓ} {V : Type κ} where
  pub remove_if-All :
      (p : V → Bool) (m : List (K × V)) → All (λ e. p e.1 ≡ true) m → remove_if p m ≡ []
  unfolding remove_if
  remove_if-All p [] h = refl
  remove_if-All p ((j, w) ∷ m) h = ground (arith, remove_if-All p m h.1)

  -- What holds of the values that stay, given that they stay.
  pub All-remove_if {ι ο} :
      (P : V → Type ι) (Q : V → Type ο) (p : V → Bool) (m : List (K × V))
      → ((v : V) → P v → p v ≡ false → Q v)
      → All (λ e. P e.1) m
      → All (λ e. Q e.1) (remove_if p m)
  unfolding remove_if
  All-remove_if P Q p [] f h = tt
  All-remove_if P Q p ((j, w) ∷ m) f h = elim (Bool-cases (p w)) [
    | inl goes ↦ rw goes (All-remove_if P Q p m f h.1)
    | inr stays ↦ rw stays (f w h.0 stays, All-remove_if P Q p m f h.1)
  ]
