-- ===== src/Consensus/Votes/Quorum.antt =====
-- Two quorums of the same list of nodes meet: the fact on which agreement between nodes rests.
use hpcore.Base.{
  ℕ, ◌+◌, ◌<◌, ◌≤◌, ◌≡◌, refl, Bool, true, false, ◌&&◌, List, [], ◌∷◌, Option, none, some, Bytes,
  bytes_eq, bytes_keyed, find, find-cong, elem, Distinct, count, length, arith, Bool-cases, inl,
  inr,
}

-- Whether a member has an entry that passes a test.
abbrev holds {ℓ} : {V : Type ℓ} → (V → Bool) → Option V → Bool
holds p none = false
holds p (some v) = p v

abbrev bit : Bool → ℕ
bit true = 1
bit false = 0

count-add :
    (f g h : Bytes → Bool) (ms : List Bytes)
    → ((u : Bytes) → bit (h u) ≡ bit (f u) + bit (g u))
    → count h ms ≡ count f ms + count g ms
count-add f g h [] e = refl
count-add f g h (u ∷ ms) e = ground (arith, e u, count-add f g h ms e)

count-elem : (k : Bytes) (ms : List Bytes) → elem k ms ≡ true → 1 ≤ count (λ u. bytes_eq k u) ms
unfolding elem
count-elem k [] h = cc
count-elem k (u ∷ ms) h =
    ground (arith, bytes_keyed.same_cong u k u, bytes_keyed.same_refl u, count-elem k ms)

count-and-le :
    (b : Bool) (k : Bytes) (ms : List Bytes)
    → elem k ms ≡ true
    → bit b ≤ count (λ u. bytes_eq k u && b) ms
count-and-le false k ms h = omega arith
count-and-le true k ms h = omega (arith, count-elem k ms h, count-true k ms)
  where
    count-true :
        (q : Bytes) (l : List Bytes)
        → count (λ u. bytes_eq q u && true) l ≡ count (λ u. bytes_eq q u) l
    count-true q [] = refl
    count-true q (u ∷ l) = ground (arith, count-true q l)

module _ {ℓ} {V : Type ℓ} where
  abbrev pub Within : List Bytes → List (Bytes × V) → Type 0
  Within ms [] = Unit
  Within ms ((k, v) ∷ a) = (elem k ms ≡ true) × Within ms a

  -- The entries of a map over the members are no more than the members that have one.
  count-members :
      (p : V → Bool) (a : List (Bytes × V)) (ms : List Bytes)
      → Distinct a
      → Within ms a
      → count (λ e. p e.1) a ≤ count (λ u. holds p (find u a)) ms
  count-members p [] ms d w = omega arith
  count-members p ((k, v) ∷ a) ms d w = omega (
    arith,
    count-members p a ms d.1 w.1,
    count-and-le (p v) k ms w.0,
    count-add (λ u. bytes_eq k u && p v) (λ u. holds p (find u a))
        (λ u. holds p (find u ((k, v) ∷ a))) ms (λ u. split u (find-cong k u a)),
    head,
  )
    where
      split :
          (u : Bytes)
          → (bytes_eq k u ≡ true → find k a ≡ find u a)
          → bit (holds p (find u ((k, v) ∷ a)))
            ≡ bit (bytes_eq k u && p v) + bit (holds p (find u a))
      split u c = unfold find in ground (arith, d.0)

      head : count (λ e. p e.1) ((k, v) ∷ a) ≡ bit (p v) + count (λ e. p e.1) a
      head = ground arith

meet :
    (f g : Bytes → Bool) (ms : List Bytes)
    → length ms < count f ms + count g ms
    → (u : Bytes) × (f u ≡ true) × (g u ≡ true)
meet f g [] h = absurd (omega arith)
meet f g (u ∷ ms) h = elim (Bool-cases (f u && g u)) [
  | inl both ↦ (u, ground arith, ground arith)
  | inr either ↦ meet f g ms (ground arith)
]

holds-some {ℓ} :
    {V : Type ℓ} (p : V → Bool) (o : Option V)
    → holds p o ≡ true
    → (v : V) × (o ≡ some v) × (p v ≡ true)
holds-some p none h = cc
holds-some p (some v) h = (v, refl, h)

-- Two maps from members to entries: if the entries of one that pass a test and the entries of the
-- other that pass another are together more than the members, some member has both.
pub quorums_meet {ℓ} :
    {V : Type ℓ} (p q : V → Bool) (a b : List (Bytes × V)) (ms : List Bytes)
    → Distinct a
    → Within ms a
    → Distinct b
    → Within ms b
    → length ms < count (λ e. p e.1) a + count (λ e. q e.1) b
    → (u : Bytes) × (v : V) × (w : V) × ((find u a ≡ some v) × (p v ≡ true))
      × ((find u b ≡ some w) × (q w ≡ true))
quorums_meet p q a b ms da wa db wb many =
    let (u, in_a, in_b) =
      meet (λ u. holds p (find u a)) (λ u. holds q (find u b)) ms
        (omega (arith, count-members p a ms da wa, count-members q b ms db wb)) in
    let (v, found_a, ok_a) = holds-some p (find u a) in_a in
    let (w, found_b, ok_b) = holds-some q (find u b) in_b in
    (u, v, w, (found_a, ok_a), (found_b, ok_b))
