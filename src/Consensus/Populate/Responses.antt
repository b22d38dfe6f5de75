-- ===== src/Consensus/Populate/Responses.antt =====
-- The responses to a user's inputs, the candidates under a key, and the sorted inputs.
use hpcore.Base.{
  or_empty, ◌≡◌, ◌⊎◌, inl, inr, Bool-cases, ◌++◌, List, [], ◌∷◌, some, Bytes, arith, All, find, put,
  find-put, find-cong, map_find, map_emplace, Ordered, equivalent, equivalent_refl, bytes_ordered,
  bytes_keyed, bytes_eq, if◌then◌else◌, append_assoc, append-nil,
}
use hpcore.Usr.Submission.{ExtractedUserInput, Reason}
use hpcore.Usr.Inputs.{InputStatusResponse, insert_by_nonce, sort_inputs, push_all}
use hpcore.Consensus.Types.{CandidateUserInput}
use hpcore.Consensus.Inputs.{Inputs}

-- A rejection of the input of that hash is in the list.
abbrev pub HasRejection : Bytes → List InputStatusResponse → Type 0
HasRejection hash [] = ⊥
HasRejection hash (r ∷ rs) =
    ((r.input_hash ≡ hash) × (reason : Reason) × (r.reject_reason ≡ some reason))
    ⊎ HasRejection hash rs

-- A candidate is held under the key.
abbrev pub IsHeld : Bytes → Inputs → Type 0
IsHeld key candidates =
    (ci : CandidateUserInput) × (map_find bytes_ordered key candidates ≡ some ci)

pub HasRejection-append :
    (hash : Bytes) (rs ss : List InputStatusResponse)
    → HasRejection hash rs ⊎ HasRejection hash ss
    → HasRejection hash (rs ++ ss)
HasRejection-append hash [] ss (inl h) = elim h [ ]
HasRejection-append hash [] ss (inr h) = h
HasRejection-append hash (r ∷ rs) ss (inl (inl e)) = inl e
HasRejection-append hash (r ∷ rs) ss (inl (inr h)) = inr (HasRejection-append hash rs ss (inl h))
HasRejection-append hash (r ∷ rs) ss (inr h) = inr (HasRejection-append hash rs ss (inr h))

or_empty-put :
    (pubkey q : Bytes) (rs : List InputStatusResponse) (m : List (Bytes × List InputStatusResponse))
    → or_empty (find q (put pubkey rs m)) ≡ (if bytes_eq pubkey q then rs else or_empty (find q m))
or_empty-put pubkey q rs m = rw (find-put pubkey q rs m) (ground arith)

-- The responses of each user after some are added to those of one.
pub push_all_at :
    (pubkey q : Bytes) (rs : List InputStatusResponse) (m : List (Bytes × List InputStatusResponse))
    → or_empty (find q (push_all pubkey rs m))
      ≡ (if bytes_eq pubkey q then or_empty (find pubkey m) ++ rs else or_empty (find q m))
unfolding push_all
push_all_at pubkey q [] m = elim (Bool-cases (bytes_eq pubkey q)) [
  | inl same ↦ rw (same, append-nil, find-cong pubkey q m same)
  | inr other ↦ rw other
]
push_all_at pubkey q (r ∷ rs) m =
    let m' = put pubkey (or_empty (find pubkey m) ++ r ∷ []) m in
    let at = or_empty-put pubkey pubkey (or_empty (find pubkey m) ++ r ∷ []) m in
    let elsewhere = or_empty-put pubkey q (or_empty (find pubkey m) ++ r ∷ []) m in
    elim (Bool-cases (bytes_eq pubkey q)) [
      | inl same ↦
          rw (push_all_at pubkey q rs m', same, at, bytes_keyed.same_refl pubkey, append_assoc)
      | inr other ↦ rw (push_all_at pubkey q rs m', other, elsewhere, other)
    ]

pub push_all_lem :
    (pubkey : Bytes) (rs : List InputStatusResponse) (m : List (Bytes × List InputStatusResponse))
    → or_empty (find pubkey (push_all pubkey rs m)) ≡ or_empty (find pubkey m) ++ rs
push_all_lem pubkey rs m = rw (push_all_at pubkey pubkey rs m, bytes_keyed.same_refl pubkey)

All-insert_by_nonce :
    (P : ExtractedUserInput → Type 0) (e : ExtractedUserInput) (es : List ExtractedUserInput)
    → All P (insert_by_nonce e es)
    → P e × All P es
unfolding insert_by_nonce
All-insert_by_nonce P e [] h = h
All-insert_by_nonce P e (y ∷ ys) h = ground (arith, All-insert_by_nonce P e ys)

pub All-sort_inputs :
    (P : ExtractedUserInput → Type 0) (es : List ExtractedUserInput)
    → All P (sort_inputs es)
    → All P es
unfolding sort_inputs
All-sort_inputs P [] h = tt
All-sort_inputs P (e ∷ es) h =
    let (first, others) = All-insert_by_nonce P e (sort_inputs es) h in
    (first, All-sort_inputs P es others)

module _ {ℓ κ} {K : Type ℓ} {V : Type κ} (o : Ordered K) where
  pub map_emplace_held :
      (q : K) (v : V) (m : List (K × V)) → (w : V) × (map_find o q (map_emplace o q v m) ≡ some w)
  unfolding find map_emplace
  map_emplace_held q v [] = (v, rw (equivalent_refl o q))
  map_emplace_held q v ((j, w) ∷ m) = elim (Bool-cases (o.lt q j)) [
    | inl below ↦ (v, rw (below, equivalent_refl o q))
    | inr other ↦ elim (Bool-cases (o.lt j q)) [
      | inl above ↦ let (u, h) = map_emplace_held q v m in (u, rw (other, above, other, above) h)
      | inr fits ↦ (w, rw (other, fits, other, fits))
    ]
  ]

  held_cons :
      (p j : K) (u w : V) (m : List (K × V))
      → map_find o p m ≡ some u
      → (z : V) × (map_find o p ((j, w) ∷ m) ≡ some z)
  unfolding find
  held_cons p j u w m h = elim (Bool-cases (equivalent o j p)) [
    | inl here ↦ (w, rw here)
    | inr further ↦ (u, rw further h)
  ]

  pub held-map_emplace :
      (p q : K) (u v : V) (m : List (K × V))
      → map_find o p m ≡ some u
      → (w : V) × (map_find o p (map_emplace o q v m) ≡ some w)
  unfolding map_emplace
  held-map_emplace p q u v [] h = absurd (unfold find in cc)
  held-map_emplace p q u v ((j, w) ∷ m) h = elim (Bool-cases (o.lt q j)) [
    | inl below ↦ rw below (held_cons p q u v ((j, w) ∷ m) h)
    | inr other ↦ elim (Bool-cases (o.lt j q)) [
      | inl above ↦
          rw (other, above)
            (elim (Bool-cases (equivalent o j p)) [
              | inl here ↦ (w, unfold find in rw here)
              | inr further ↦
                  let h' : map_find o p m ≡ some u = unfold find in (rw further at h) in
                  let (z, e) = held-map_emplace p q u v m h' in
                  held_cons p j z w (map_emplace o q v m) e
            ])
      | inr fits ↦ rw (other, fits) (u, h)
    ]
  ]
