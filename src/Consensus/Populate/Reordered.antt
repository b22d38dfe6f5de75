-- ===== src/Consensus/Populate/Reordered.antt =====
-- The order in which a user's inputs come in does not matter to what is made of them.
use hpcore.Base.{
  ◌++◌, or_empty, find, bytes_keyed, bytes_eq, Bool-cases, inl, inr, ℕ, ◌≡◌, ◌≢◌, refl, sym, ap,
  ◌∙◌, List, [], ◌∷◌, Bytes, arith, All, bytes_ordered,
}
use hpcore.Usr.Submission.{ExtractedUserInput, InputLimits}
use hpcore.Usr.Inputs.{
  SubmittedUserInput, Formats, Extracted, refused, extracted, extract_submitted_input,
  insert_by_nonce, sort_inputs, push_all, InputStatusResponse,
}
use hpcore.Consensus.Populate.{
  Environment, Walked, Extraction, sort_out, extract_inputs, populate_user, rejected,
  validate_inputs,
}
use hpcore.Consensus.Populate.Responses.{push_all_lem, push_all_at}

-- One list is the other in another order.
pub data Reordered {ℓ} {A : Type ℓ} : List A → List A → Type ℓ where
  same : {xs : List A} → Reordered xs xs
  swapped : (a b : A) {xs : List A} → Reordered (a ∷ b ∷ xs) (b ∷ a ∷ xs)
  kept : (a : A) {xs ys : List A} → Reordered xs ys → Reordered (a ∷ xs) (a ∷ ys)
  then_so : {xs ys zs : List A} → Reordered xs ys → Reordered ys zs → Reordered xs zs

abbrev pub DistinctNonces : List ExtractedUserInput → Type 0
DistinctNonces [] = Unit
DistinctNonces (e ∷ es) = All (λ y. e.nonce ≢ y.nonce) es × DistinctNonces es

All-Reordered {ℓ ι} :
    {A : Type ℓ} (P : A → Type ι) {xs ys : List A} → Reordered xs ys → All P xs → All P ys
All-Reordered P same h = h
All-Reordered P (swapped a b) h = (h.1.0, (h.0, h.1.1))
All-Reordered P (kept a r) h = (h.0, All-Reordered P r h.1)
All-Reordered P (then_so r s) h = All-Reordered P s (All-Reordered P r h)

Reordered-DistinctNonces :
    {xs ys : List ExtractedUserInput} → Reordered xs ys → DistinctNonces xs → DistinctNonces ys
Reordered-DistinctNonces same h = h
Reordered-DistinctNonces (swapped a b) h = ((λ e. h.0.0 (sym e), h.1.0), (h.0.1, h.1.1))
Reordered-DistinctNonces (kept a r) h =
    (All-Reordered (λ y. a.nonce ≢ y.nonce) r h.0, Reordered-DistinctNonces r h.1)
Reordered-DistinctNonces (then_so r s) h = Reordered-DistinctNonces s (Reordered-DistinctNonces r h)

insert_comm :
    (a b : ExtractedUserInput) (es : List ExtractedUserInput)
    → a.nonce ≢ b.nonce
    → insert_by_nonce a (insert_by_nonce b es) ≡ insert_by_nonce b (insert_by_nonce a es)
unfolding insert_by_nonce
insert_comm a b [] h = ground arith
insert_comm a b (y ∷ ys) h = ground (arith, insert_comm a b ys h)

sort-Reordered :
    {xs ys : List ExtractedUserInput}
    → Reordered xs ys
    → DistinctNonces xs
    → sort_inputs xs ≡ sort_inputs ys
unfolding sort_inputs
sort-Reordered same h = refl
sort-Reordered (swapped a b {xs}) h = insert_comm a b (sort_inputs xs) h.0.0
sort-Reordered (kept a r) h = ap (insert_by_nonce a) (sort-Reordered r h.1)
sort-Reordered (then_so r s) h =
    sort-Reordered r h ∙ sort-Reordered s (Reordered-DistinctNonces r h)

Reordered-after {ℓ} :
    {A : Type ℓ} (before : List A) {xs ys : List A}
    → Reordered xs ys
    → Reordered (before ++ xs) (before ++ ys)
Reordered-after [] r = r
Reordered-after (a ∷ before) r = kept a (Reordered-after before r)

Reordered-before {ℓ} :
    {A : Type ℓ} (rest : List A) {xs ys : List A}
    → Reordered xs ys
    → Reordered (xs ++ rest) (ys ++ rest)
Reordered-before rest same = same
Reordered-before rest (swapped a b) = swapped a b
Reordered-before rest (kept a r) = kept a (Reordered-before rest r)
Reordered-before rest (then_so r s) = then_so (Reordered-before rest r) (Reordered-before rest s)

-- Both the inputs that can be extracted and the responses for the others are the same in another order.
abbrev AreReordered : Extraction → Extraction → Type 0
AreReordered p q = Reordered p.0 q.0 × Reordered p.1 q.1

module _ (x : Formats) where
  sort_out-AreReordered :
      (s : SubmittedUserInput) (t : Extracted) (p q : Extraction)
      → AreReordered p q
      → AreReordered (sort_out x s t p) (sort_out x s t q)
  sort_out-AreReordered s (refused reason) p q (r, r') =
      (r, kept (rejected (x.get_hash s.sig) reason) r')
  sort_out-AreReordered s (extracted e) p q (r, r') = (kept e r, r')

  sort_out_swap :
      (s s' : SubmittedUserInput) (t t' : Extracted) (p : Extraction)
      → AreReordered (sort_out x s t (sort_out x s' t' p)) (sort_out x s' t' (sort_out x s t p))
  sort_out_swap s s' (refused r) (refused r') p =
      (same, swapped (rejected (x.get_hash s.sig) r) (rejected (x.get_hash s'.sig) r'))
  sort_out_swap s s' (refused r) (extracted e') p = (same, same)
  sort_out_swap s s' (extracted e) (refused r') p = (same, same)
  sort_out_swap s s' (extracted e) (extracted e') p = (swapped e e', same)

  extract_inputs-AreReordered :
      (pubkey : Bytes) {xs ys : List SubmittedUserInput}
      → Reordered xs ys
      → AreReordered (extract_inputs x pubkey xs) (extract_inputs x pubkey ys)
  unfolding extract_inputs
  extract_inputs-AreReordered pubkey same = (same, same)
  extract_inputs-AreReordered pubkey (swapped a b {xs}) =
      sort_out_swap a b (extract_submitted_input x pubkey a) (extract_submitted_input x pubkey b)
        (extract_inputs x pubkey xs)
  extract_inputs-AreReordered pubkey (kept a {xs} {ys} r) =
      sort_out-AreReordered a (extract_submitted_input x pubkey a) (extract_inputs x pubkey xs)
        (extract_inputs x pubkey ys) (extract_inputs-AreReordered pubkey r)
  extract_inputs-AreReordered pubkey (then_so r s) =
      let (a, a') = extract_inputs-AreReordered pubkey r in
      let (b, b') = extract_inputs-AreReordered pubkey s in (then_so a b, then_so a' b')

  pushed-Reordered :
      (pubkey q : Bytes) (rs rs' responses : List InputStatusResponse)
      (m : List (Bytes × List InputStatusResponse))
      → Reordered rs rs'
      → Reordered
          (or_empty (find q (push_all pubkey responses (push_all pubkey rs m))))
          (or_empty (find q (push_all pubkey responses (push_all pubkey rs' m))))
  pushed-Reordered pubkey q rs rs' responses m r =
      let outer = push_all_at pubkey q responses in
      elim (Bool-cases (bytes_eq pubkey q)) [
        | inl user ↦
            rw
              (
                outer (push_all pubkey rs m),
                outer (push_all pubkey rs' m),
                user,
                push_all_lem pubkey rs m,
                push_all_lem pubkey rs' m,
              )
              (Reordered-before responses (Reordered-after (or_empty (find pubkey m)) r))
        | inr other ↦
            rw
              (
                outer (push_all pubkey rs m),
                outer (push_all pubkey rs' m),
                other,
                push_all_at pubkey q rs m,
                push_all_at pubkey q rs' m,
                other,
              )
              Reordered.same
      ]

  -- If a user's inputs come in in another order, and no two of those that can be extracted have one
  -- nonce, then the candidates, the nonces, the store and the candidate users come out the same, and
  -- every user gets the same rejections, perhaps in another order.
  pub populate_user_any_order :
      (env : Environment) (limits : InputLimits) (lcl_seq_no : ℕ) (pubkey : Bytes)
      {xs ys : List SubmittedUserInput} (w : Walked)
      → Reordered xs ys
      → DistinctNonces (extract_inputs x pubkey xs).0
      → let a = populate_user x env limits lcl_seq_no pubkey xs w in
        let b = populate_user x env limits lcl_seq_no pubkey ys w in
        (a.population ≡ b.population)
        × (a.users ≡ b.users)
        × ((q : Bytes)
            → Reordered (or_empty (find q a.rejections)) (or_empty (find q b.rejections)))
  unfolding populate_user
  populate_user_any_order env limits lcl_seq_no pubkey {xs} {ys} w r distinct =
      let (r', refusals) = extract_inputs-AreReordered pubkey r in
      let sorted = sort-Reordered r' distinct in
      (
        rw sorted,
        refl,
        λ q. rw sorted (
            pushed-Reordered pubkey q (extract_inputs x pubkey xs).1 (extract_inputs x pubkey ys).1
              (validate_inputs x env limits lcl_seq_no pubkey
                (sort_inputs (extract_inputs x pubkey ys).0)
                (record w.population { total_input_size = 0; responses = [] })).responses
              w.rejections refusals),
      )
