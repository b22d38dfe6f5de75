-- ===== src/P2p/Messages/Recipients.antt =====
-- The peer that a message goes to at random, and the messages that are collected.
use hpcore.Base.{
  ℕ, zero, suc, ◌-◌, ◌%◌, ◌≤◌, ◌<◌, ◌≡◌, refl, sym, ◌∙◌, Bool, true, false, ◌++◌, List, [], ◌∷◌,
  some, arith, length, length-append, select, drop, ◌==◌, Bool-cases, inl, inr, append_assoc,
  append-nil, All,
}
use hpcore.P2p.Types.{PeerSession, PeerNetwork}
use hpcore.P2p.Messages.{
  connected, first_of, pick, send_message_to_random_peer, handle_proposal_message,
  proposal_list_cap,
}

-- The messages that arrive, in turn.
unfoldable pub handle_all {ℓ} : {A : Type ℓ} → List A → List A → List A
handle_all [] proposals = proposals
handle_all (p ∷ ps) proposals = handle_all ps (handle_proposal_message p proposals)

abbrev pub take {ℓ} : {A : Type ℓ} → ℕ → List A → List A
take zero xs = []
take (suc n) [] = []
take (suc n) (x ∷ xs) = x ∷ take n xs

-- Of the messages that arrive, the first 255 are collected in the order of their arrival, counting
-- those that are there already, and the others are dropped. At most 255 are there.
pub collected_first {ℓ} :
    {A : Type ℓ} (ps xs : List A)
    → length xs ≤ proposal_list_cap
    → handle_all ps xs ≡ xs ++ take (proposal_list_cap - length xs) ps
unfolding handle_all handle_proposal_message
collected_first [] xs fits = sym (none_taken (proposal_list_cap - length xs))
  where
    none_taken : (n : ℕ) → xs ++ take n [] ≡ xs
    none_taken zero = append-nil xs
    none_taken (suc n) = append-nil xs
collected_first (p ∷ ps) xs fits = elim (Bool-cases (length xs == proposal_list_cap)) [
  | inl full ↦
      let none_left : proposal_list_cap - length xs ≡ 0 = ground (arith, full) in
      rw full (collected_first ps xs fits ∙ rw (none_left) refl)
  | inr room ↦
      let left = proposal_list_cap - suc (length xs) in
      let one_left : proposal_list_cap - length xs ≡ suc left = ground (arith, room, fits) in
      let grown : length (xs ++ p ∷ []) ≡ suc (length xs) =
        omega (arith, length-append xs (p ∷ [])) in
      let fits' : length (xs ++ p ∷ []) ≤ proposal_list_cap = ground (arith, room, fits, grown) in
      rw (room, one_left)
        (collected_first ps (xs ++ p ∷ []) fits'
          ∙ rw grown (append_assoc xs (p ∷ []) (take left ps)))
]

-- The chosen entry is one of the list, and there is one whenever the list is not empty.
pick_nonempty {ℓ} :
    {A : Type ℓ} (P : A → Type 0) (random : ℕ) (xs : List A)
    → 0 < length xs
    → All P xs
    → (x : A) × (pick random xs ≡ some x) × P x
pick_nonempty {A = A} P random xs some_entry all =
    let nonempty : (length xs == 0) ≡ false = ground (arith, some_entry) in
    rw nonempty (at_index (random % length xs) xs (grind (arith, some_entry)) all)
  where
    at_index :
        (n : ℕ) (ys : List A)
        → n < length ys
        → All P ys
        → (x : A) × (first_of (drop n ys) ≡ some x) × P x
    at_index n [] h hs = absurd (omega (arith, h))
    at_index zero (y ∷ ys) h hs = (y, refl, hs.0)
    at_index (suc n) (y ∷ ys) h hs = at_index n ys (omega (arith, h)) hs.1

passing {ℓ} : {A : Type ℓ} (p : A → Bool) (xs : List A) → All (λ x. p x ≡ true) (select p xs)
passing p [] = tt
passing p (x ∷ xs) = elim (Bool-cases (p x)) [
  | inl passed ↦ rw passed (passed, passing p xs)
  | inr failed ↦ rw failed (passing p xs)
]

-- Whatever number `rand` gives, a message for a full history node goes to one when some connected node
-- is one.
pub full_history_peer :
    (random : ℕ) (net : PeerNetwork)
    → 0 < length (select (λ e. e.1.is_full_history) (connected net.peer_connections net.sessions))
    → (x : ℕ × PeerSession) × (send_message_to_random_peer random true net ≡ some x)
      × (x.1.is_full_history ≡ true)
unfolding send_message_to_random_peer
full_history_peer random net some_peer =
    let sessions = connected net.peer_connections net.sessions in
    pick_nonempty (λ (e : ℕ × PeerSession). e.1.is_full_history ≡ true) random
      (select (λ e. e.1.is_full_history) sessions) some_peer
      (passing (λ e. e.1.is_full_history) sessions)
