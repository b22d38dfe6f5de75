-- ===== src/Consensus/Votes/Tally.antt =====
-- What a voting table holds after the votes are counted, and who is elected.
use hpcore.Base.{
  ℕ, ◌+◌, ◌^◌, ◌<◌, ◌≤◌, ◌≡◌, refl, ◌⊎◌, inl, inr, true, false, List, [], ◌∷◌, Option, none, some,
  ltb, if◌then◌else◌, wrap32, Ordered, ordered_keyed, equivalent, map_find, find, find-put,
  find-map_emplace, Ascending, map_emplace-Ascending, map_put-Ascending, map_find_below, ap, subst,
  sym, find-cong, count, length, arith, Bool-cases, Option-cases,
}
use hpcore.Consensus.Votes.{Table, increment, count_votes, elect}

abbrev pub or_zero : Option ℕ → ℕ
or_zero none = 0
or_zero (some n) = n

module _ {ℓ} {K : Type ℓ} (o : Ordered K) where
  -- The votes of a candidate in a table.
  abbrev pub votes : K → Table K → ℕ
  votes q counter = or_zero (map_find o q counter)

  increment-Ascending :
      (c : K) (counter : Table K) → Ascending o counter → Ascending o (increment o c counter)
  unfolding increment
  increment-Ascending c counter s = elim (Option-cases (map_find o c counter)) [
    | inl absent ↦ rw absent (map_emplace-Ascending o c 1 counter s)
    | inr (n, present) ↦ rw present (map_put-Ascending o c (wrap32 (n + 1)) n counter present s)
  ]

  -- A vote adds one to the candidates that are the same key, and to no other.
  votes-increment :
      (c q : K) (counter : Table K)
      → Ascending o counter
      → votes c counter + 1 < 2 ^ 32
      → votes q (increment o c counter)
        ≡ (if equivalent o c q then votes q counter + 1 else votes q counter)
  unfolding increment
  votes-increment c q counter s small = elim (Option-cases (map_find o c counter)) [
    | inl absent ↦
        rw (absent, find-map_emplace o c q 1 counter s absent)
          (ground (arith, find-cong ⦃k = ordered_keyed o⦄ c q counter))
    | inr (n, present) ↦
        rw (present, find-put ⦃k = ordered_keyed o⦄ c q (wrap32 (n + 1)) counter)
          (ground (arith, find-cong ⦃k = ordered_keyed o⦄ c q counter))
  ]

  pub count_votes-Ascending :
      (ks : List K) (counter : Table K)
      → Ascending o counter
      → Ascending o (count_votes o ks counter)
  unfolding count_votes
  count_votes-Ascending [] counter s = s
  count_votes-Ascending (k ∷ ks) counter s =
      count_votes-Ascending ks (increment o k counter) (increment-Ascending k counter s)

  -- The votes cast for a candidate or an equivalent key.
  abbrev pub cast_for : K → List K → ℕ
  cast_for q = count (λ k. equivalent o k q)

  votes-count_votes :
      (q : K) (ks : List K) (counter : Table K)
      → Ascending o counter
      → ((p : K) → votes p counter + length ks < 2 ^ 32)
      → votes q (count_votes o ks counter) ≡ votes q counter + cast_for q ks
  unfolding count_votes
  votes-count_votes q [] counter s small = omega arith
  votes-count_votes q (k ∷ ks) counter s small =
      let one : votes k counter + 1 < 2 ^ 32 = omega (arith, small k) in
      let next =
        votes-count_votes q ks (increment o k counter) (increment-Ascending k counter s)
          (λ p. ground (arith, votes-increment k p counter s one, small p)) in
      ground (arith, next, votes-increment k q counter s one)

  -- After the votes are counted, every candidate has as many as were cast for it.
  pub tally_lem :
      (q : K) (ks : List K) → length ks < 2 ^ 32 → votes q (count_votes o ks []) ≡ cast_for q ks
  unfolding find
  tally_lem q ks small = omega (arith, votes-count_votes q ks [] tt (λ p. omega arith))

  -- No entry has more votes than the election loop returns.
  pub elect_max :
      (m : Table K) (d : K) (n : ℕ) (q : K) → (n ≤ (elect m d n).1) × (votes q m ≤ (elect m d n).1)
  unfolding elect find
  elect_max [] d n q = (omega arith, omega arith)
  elect_max ((k, v) ∷ m) d n q = ground (arith, elect_max m k v q, elect_max m d n q)

  elect-more :
      (k : K) (v : ℕ) (m : Table K) (d : K) (n : ℕ)
      → ltb n v ≡ true
      → elect ((k, v) ∷ m) d n ≡ elect m k v
  unfolding elect
  elect-more k v m d n h = rw h

  elect-fewer :
      (k : K) (v : ℕ) (m : Table K) (d : K) (n : ℕ)
      → ltb n v ≡ false
      → elect ((k, v) ∷ m) d n ≡ elect m d n
  unfolding elect
  elect-fewer k v m d n h = rw h

  abbrev pub Won : Table K → K → ℕ → K × ℕ → Type ℓ
  Won m d n w = (w ≡ (d, n)) ⊎ (map_find o w.0 m ≡ some w.1)

  -- The winner is the starting value, or has the votes that the loop returns.
  pub elect_votes : (m : Table K) (d : K) (n : ℕ) → Ascending o m → Won m d n (elect m d n)
  unfolding find
  elect_votes [] d n s = inl (unfold elect in refl)
  elect_votes ((k, v) ∷ m) d n s = elim (Bool-cases (ltb n v)) [
    | inl more ↦
        subst (Won ((k, v) ∷ m) d n) (sym (elect-more k v m d n more))
          (still (elect m k v) (elect_votes m k v s.1))
    | inr fewer ↦
        subst (Won ((k, v) ∷ m) d n) (sym (elect-fewer k v m d n fewer))
          (passed (elect m d n) (elect_votes m d n s.1))
  ]
    where
      later : (w : K × ℕ) → map_find o w.0 m ≡ some w.1 → map_find o w.0 ((k, v) ∷ m) ≡ some w.1
      later w found =
          ground
            (arith, found, find-cong ⦃k = ordered_keyed o⦄ k w.0 m, map_find_below o k m s.0 s.1)

      still :
          (w : K × ℕ)
          → (w ≡ (k, v)) ⊎ (map_find o w.0 m ≡ some w.1)
          → (w ≡ (d, n)) ⊎ (map_find o w.0 ((k, v) ∷ m) ≡ some w.1)
      still w (inl e) = inr (rw e (rw ((ordered_keyed o).same_refl k)))
      still w (inr found) = inr (later w found)

      passed :
          (w : K × ℕ)
          → (w ≡ (d, n)) ⊎ (map_find o w.0 m ≡ some w.1)
          → (w ≡ (d, n)) ⊎ (map_find o w.0 ((k, v) ∷ m) ≡ some w.1)
      passed w (inl e) = inl e
      passed w (inr found) = inr (later w found)

  -- The election over the votes that were cast: the votes returned are those cast for the winner,
  -- and nobody has more; with no vote at all the loop returns what it started with.
  pub elect-count_votes :
      (ks : List K) (d : K)
      → length ks < 2 ^ 32
      → let (winner, winning_votes) = elect (count_votes o ks []) d 0 in
        ((q : K) → cast_for q ks ≤ winning_votes)
        × ((winning_votes ≡ cast_for winner ks) ⊎ ((winner ≡ d) × (winning_votes ≡ 0)))
  elect-count_votes ks d small =
      let m = count_votes o ks [] in
      (
        λ q. omega (arith, (elect_max m d 0 q).1, tally_lem q ks small),
        elim (elect_votes m d 0 (count_votes-Ascending ks [] tt)) [
          | inl e ↦ inr (ap (λ (w : K × ℕ). w.0) e, ap (λ (w : K × ℕ). w.1) e)
          | inr found ↦ inl (ground (arith, found, tally_lem (elect m d 0).0 ks small))
        ],
      )
