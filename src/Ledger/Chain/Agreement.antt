-- ===== src/Ledger/Chain/Agreement.antt =====
-- The id of the last ledger fixes all ledgers before it.
use hpcore.Base.{
  ℕ, ◌<◌, ◌^◌, ◌≡◌, refl, sym, ap, subst, ◌∙◌, map, ◌++◌, append-nil, List, [], ◌∷◌, Bytes, arith,
  All, length,
}
use hpcore.Util.Integers.{uint64_to_bytes, uint64_from_bytes, uint64_from_bytes-uint64_to_bytes}
use hpcore.Util.SequenceHash.{H32, SequenceHash}
use hpcore.Consensus.Types.{Proposal}
use hpcore.Consensus.Proposing.{to_string_view}
use hpcore.Consensus.Inputs.{hash_suffix}
use hpcore.Ledger.Chain.{
  concat, get_list_hash, Hashes, data_of, data_hash_of, new_lcl_id, ledger_record, lcl_id_after,
  ledgers, user_hash_of, input_hash_of,
}

-- Hashes have 32 bytes, and no two inputs that differ have one hash.
pub record IsCollisionFree (c : Hashes) : Type 0 where
  pub sized : (s : Bytes) → length (c.blake3 s) ≡ 32
  pub of_strings : (s t : Bytes) → c.blake3 s ≡ c.blake3 t → s ≡ t
  pub of_pairs : (h k : H32) (s t : Bytes) → c.get_hash h s ≡ c.get_hash k t → (h ≡ k) × (s ≡ t)

append_inj : (a b s t : Bytes) → length a ≡ length b → a ++ s ≡ b ++ t → (a ≡ b) × (s ≡ t)
append_inj [] [] s t n e = (refl, e)
append_inj [] (y ∷ b) s t n e = absurd (omega (arith, n))
append_inj (x ∷ a) [] s t n e = absurd (omega arith)
append_inj (x ∷ a) (y ∷ b) s t n e = ground (arith, append_inj a b s t)

abbrev pub TimesFit : List Proposal → Type 0
TimesFit = All (λ p. p.time < 2 ^ 64)

seq_no_after :
    (c : Hashes) (ps : List Proposal) → length ps < 2 ^ 64 → (lcl_id_after c ps).seq_no ≡ length ps
unfolding lcl_id_after new_lcl_id
seq_no_after c [] h = refl
seq_no_after c (p ∷ ps) h = omega (arith, seq_no_after c ps (omega arith))

same_id : (a b : SequenceHash) → a.seq_no ≡ b.seq_no → a.hash ≡ b.hash → a ≡ b
same_id a b s h = λ i. record { seq_no = s i; hash = h i }

time_of_bytes : (a b : ℕ) → a < 2 ^ 64 → b < 2 ^ 64 → uint64_to_bytes a ≡ uint64_to_bytes b → a ≡ b
time_of_bytes a b ha hb e =
    let ra = uint64_from_bytes-uint64_to_bytes a [] ha in
    let rb = uint64_from_bytes-uint64_to_bytes b [] hb in
    cc (ap (λ s. uint64_from_bytes (s ++ [])) e)

module _ (c : Hashes) (free : IsCollisionFree c) where
  list_hash_sized : (ss : List Bytes) → length (get_list_hash c ss) ≡ 32
  list_hash_sized [] = refl
  list_hash_sized (s ∷ ss) = free.sized (concat (s ∷ ss))

  -- One ledger id and the same ledger before it: the ledgers are the same.
  same_record :
      (id : SequenceHash) (p q : Proposal)
      → p.time < 2 ^ 64
      → q.time < 2 ^ 64
      → data_hash_of c id p ≡ data_hash_of c id q
      → ledger_record c id p ≡ ledger_record c id q
  unfolding ledger_record
  same_record id p q hp hq e =
      let joined : concat (data_of c id p) ≡ concat (data_of c id q) =
        free.of_strings (concat (data_of c id p)) (concat (data_of c id q)) e in
      let (seq, after_seq) =
        append_inj (uint64_to_bytes id.seq_no) (uint64_to_bytes id.seq_no) _ _ refl joined in
      let (times, after_time) =
        append_inj (uint64_to_bytes p.time) (uint64_to_bytes q.time) _ _
          (unfold uint64_to_bytes in refl) after_seq in
      let (states, after_state) =
        append_inj (to_string_view p.state_hash) (to_string_view q.state_hash) _ _ refl
          after_time in
      let (patches, after_patch) =
        append_inj (to_string_view p.patch_hash) (to_string_view q.patch_hash) _ _ refl
          after_state in
      let (nonces, after_nonce) =
        append_inj (to_string_view p.group_nonce) (to_string_view q.group_nonce) _ _ refl
          after_patch in
      let (users, after_users) =
        append_inj (user_hash_of c p) (user_hash_of c q) _ _
          (list_hash_sized p.users ∙ sym (list_hash_sized q.users)) after_nonce in
      let (inputs, after_inputs) =
        append_inj (input_hash_of c p) (input_hash_of c q) _ _
          (list_hash_sized (map hash_suffix p.input_ordered_hashes)
            ∙ sym (list_hash_sized (map hash_suffix q.input_ordered_hashes)))
          after_users in
      let outputs : p.output_hash ≡ q.output_hash =
        sym (append-nil p.output_hash) ∙ (after_inputs ∙ append-nil q.output_hash) in
      let same_time : p.time ≡ q.time = time_of_bytes p.time q.time hp hq times in cc

  -- If hashes do not collide, times fit in 64 bits and there are fewer than 2^64 ledgers, then two
  -- histories that end in ledgers of one id are the same: ledger by ledger, with the times, the states,
  -- the users, the inputs and the outputs that are in the ledgers.
  pub same_history :
      (ps qs : List Proposal)
      → TimesFit ps
      → TimesFit qs
      → length ps < 2 ^ 64
      → length qs < 2 ^ 64
      → lcl_id_after c ps ≡ lcl_id_after c qs
      → ledgers c ps ≡ ledgers c qs
  unfolding ledgers
  same_history [] [] tp tq np nq e = refl
  same_history [] (q ∷ qs) tp tq np nq e =
      absurd
        (omega (arith, ap (λ id. id.seq_no) e, seq_no_after c [] np, seq_no_after c (q ∷ qs) nq))
  same_history (p ∷ ps) [] tp tq np nq e =
      absurd
        (omega (arith, ap (λ id. id.seq_no) e, seq_no_after c (p ∷ ps) np, seq_no_after c [] nq))
  same_history (p ∷ ps) (q ∷ qs) tp tq np nq e =
      let ip = lcl_id_after c ps in
      let iq = lcl_id_after c qs in
      let (hashes, datas) =
        free.of_pairs ip.hash iq.hash (data_hash_of c ip p) (data_hash_of c iq q)
          (unfold lcl_id_after new_lcl_id in ap (λ id. id.hash) e) in
      let same_length : length ps ≡ length qs =
        omega
          (arith, ap (λ id. id.seq_no) e, seq_no_after c (p ∷ ps) np, seq_no_after c (q ∷ qs) nq) in
      let ids : ip ≡ iq =
        same_id ip iq
          (omega (arith, seq_no_after c ps (omega arith), seq_no_after c qs (omega arith)))
          hashes in
      let datas' : data_hash_of c ip p ≡ data_hash_of c ip q =
        subst (λ id. data_hash_of c ip p ≡ data_hash_of c id q) (sym ids) datas in
      let rest : ledgers c ps ≡ ledgers c qs =
        same_history ps qs tp.1 tq.1 (omega arith) (omega arith) ids in
      let record' : ledger_record c ip p ≡ ledger_record c iq q =
        same_record ip p q tp.0 tq.0 datas' ∙ ap (λ id. ledger_record c id q) ids in
      cc
