-- ===== src/Ledger/Shards/Placement.antt =====
-- Where the last ledger is: in a shard that is kept.
use hpcore.Base.{
  ℕ, suc, ◌+◌, ◌-◌, ◌/◌, ◌%◌, ◌^◌, ◌≤◌, ◌<◌, ◌≡◌, refl, sym, subst, ◌∙◌, inl, inr, Bool-cases, Bool,
  true, false, ◌&&◌, ◌∷◌, some, arith, ltb, ◌==◌, elem, nat_keyed, sub64,
}
use hpcore.Util.SequenceHash.{H32, SequenceHash}
use hpcore.Consensus.Types.{Proposal}
use hpcore.Ledger.Records.{primary_shard_size}
use hpcore.Ledger.Chain.{Hashes, new_lcl_id}
use hpcore.Ledger.Shards.{
  custom, HistoryConfig, Shards, remove_old_shards, ShardCalls, prepare_shard, LedgerState,
  with_primary, tidy_primary, record_primary, insert_primary, update_primary_ledger,
}
use hpcore.Ledger.Shards.Retention.{IsContiguous, kept_exactly}

-- The shard of a ledger.
abbrev pub shard_of : ℕ → ℕ
shard_of seq_no = (seq_no - 1) / primary_shard_size

-- The last shard is there, no later one is, at most so many are kept, and none is missing in between.
pub record IsRetained (max_shards last : ℕ) (shards : Shards) : Type 0 where
  pub is_there : elem last shards ≡ true
  pub is_kept : (k : ℕ) → elem k shards ≡ true → (k ≤ last) × (last < k + max_shards)
  pub contiguous : IsContiguous (suc last) shards

-- The last shard is that of the last ledger, and the shards are retained.
pub record IsPlaced (max_shards : ℕ) (s : LedgerState) : Type 0 where
  pub last_shard : s.last_primary_shard_id.seq_no ≡ shard_of s.lcl_id.seq_no
  pub retained : IsRetained max_shards (shard_of s.lcl_id.seq_no) s.primary_shards

-- Every call succeeds.
pub record AllSucceed (calls : ShardCalls) : Type 0 where
  pub dir : calls.dir_made ≡ true
  pub made : calls.shard_made ≡ true
  pub opened : calls.db_opened ≡ true
  pub inserts : calls.inserted ≡ true
  pub hashed : (k : ℕ) → (h : H32) × (calls.shard_hash k ≡ some h)
  pub removes : (k : ℕ) → calls.removable k ≡ true

-- A shard is added at the end, and then the old ones are removed.
module _ (max_shards last : ℕ) (shards kept : Shards) (positive : 0 < max_shards)
    (r : IsRetained max_shards last shards)
    (left : (k : ℕ)
      → elem k kept ≡ (elem k (suc last ∷ shards) && ltb (suc last) (k + max_shards))) where
  grown-IsContiguous : IsContiguous (suc (suc last)) kept
  unfolding elem
  grown-IsContiguous i lt gone =
      ground (arith, left i, left (suc i), r.contiguous i, r.is_there, r.is_kept (suc last))

  grown-IsRetained : IsRetained max_shards (suc last) kept
  unfolding elem
  grown-IsRetained = record {
    is_there = ground (arith, left (suc last));
    is_kept = λ k there. ground (arith, left k, r.is_kept k);
    contiguous = grown-IsContiguous;
  }

added-IsContiguous :
    (max_shards last : ℕ) (shards : Shards)
    → IsRetained max_shards last shards
    → IsContiguous (suc (suc last)) (suc last ∷ shards)
unfolding elem
added-IsContiguous max_shards last shards r i lt gone = ground (arith, r.contiguous i, r.is_there)

module _ (c : Hashes) (cfg : HistoryConfig) (calls : ShardCalls) (p : Proposal) (s : LedgerState)
    (is_custom : cfg.history ≡ custom) (succeed : AllSucceed calls) where
  abbrev pub new_seq_no : ℕ
  new_seq_no = s.lcl_id.seq_no + 1

  abbrev pub Outcome : Bool × LedgerState → Type 0
  Outcome r =
      (r.0 ≡ true) × IsPlaced cfg.max_primary_shards r.1 × (r.1.lcl_id ≡ new_lcl_id c s.lcl_id p)

  insert_lem :
      (id : SequenceHash) (n : ℕ) (created : Bool) (t : LedgerState)
      → (h : H32) × (insert_primary cfg calls id n (some created) t ≡ (
        true,
        tidy_primary cfg calls created
            (record t { lcl_id = id; last_primary_shard_id = (record { seq_no = n; hash = h }) }),
      ))
  unfolding insert_primary record_primary
  insert_lem id n created t =
      let (h, e) = succeed.hashed n in (h, rw (succeed.inserts, e, is_custom))

  abbrev left_of : ℕ → Shards → Shards
  left_of seq_no shards =
      remove_old_shards cfg.history calls.removable seq_no primary_shard_size cfg.max_primary_shards
        shards

  left_lem :
      (seq_no last : ℕ) (shards : Shards)
      → shard_of seq_no ≡ suc last
      → 0 < seq_no
      → seq_no < 2 ^ 64
      → suc last < 2 ^ 31
      → 0 < cfg.max_primary_shards
      → IsRetained cfg.max_primary_shards last shards
      → (k : ℕ)
      → elem k (left_of seq_no (suc last ∷ shards))
        ≡ (elem k (suc last ∷ shards) && ltb (suc last) (k + cfg.max_primary_shards))
  left_lem seq_no last shards e started fits few pos r k =
      let grown = suc last ∷ shards in
      rw is_custom (
        subst
          (λ m.
            elem k (
              remove_old_shards custom calls.removable seq_no primary_shard_size
                cfg.max_primary_shards grown)
            ≡ (elem k grown && ltb m (k + cfg.max_primary_shards)))
          e
          (kept_exactly calls.removable seq_no primary_shard_size cfg.max_primary_shards grown
            succeed.removes started fits (omega arith)
            (subst (λ m. IsContiguous (suc m) grown) (sym e)
              (added-IsContiguous cfg.max_primary_shards last shards r))
            k))

  prepared_first :
      (seq_no : ℕ) (shards : Shards)
      → sub64 seq_no 1 ≡ s.lcl_id.seq_no
      → (s.lcl_id.seq_no % primary_shard_size == 0) ≡ true
      → prepare_shard calls true seq_no primary_shard_size shards ≡ (
        s.lcl_id.seq_no / primary_shard_size,
        some true,
        s.lcl_id.seq_no / primary_shard_size ∷ shards,
      )
  unfolding prepare_shard
  prepared_first seq_no shards e first = rw (e, first, succeed.dir, succeed.made)

  prepared_later :
      (seq_no : ℕ) (shards : Shards)
      → sub64 seq_no 1 ≡ s.lcl_id.seq_no
      → (s.lcl_id.seq_no % primary_shard_size == 0) ≡ false
      → prepare_shard calls true seq_no primary_shard_size shards
        ≡ (s.lcl_id.seq_no / primary_shard_size, some false, shards)
  unfolding prepare_shard
  prepared_later seq_no shards e later = rw (e, later, succeed.opened)

  -- In a custom history, if all calls succeed, the limit is at least one shard, the last ledger is not the
  -- genesis, the next number fits in 64 bits and its shard in 31, and the state is placed (the last shard
  -- is there and is that of the last ledger, and the shards that are there are within the limit behind it,
  -- without a gap), then the update of the primary ledger succeeds, with the next ledger id, in a state
  -- that is placed again.
  pub update_primary-IsPlaced :
      0 < cfg.max_primary_shards
      → 0 < s.lcl_id.seq_no
      → new_seq_no < 2 ^ 64
      → shard_of new_seq_no < 2 ^ 31
      → IsPlaced cfg.max_primary_shards s
      → Outcome (update_primary_ledger c cfg calls p s)
  unfolding update_primary_ledger
  update_primary-IsPlaced pos started fits few placed =
      let id = new_lcl_id c s.lcl_id p in
      let seq : id.seq_no ≡ new_seq_no = unfold new_lcl_id in omega arith in
      let before : sub64 id.seq_no 1 ≡ s.lcl_id.seq_no = omega arith in
      let n = s.lcl_id.seq_no / primary_shard_size in
      let r = placed.retained in
      let at : shard_of id.seq_no ≡ n = omega arith in
      elim (Bool-cases (s.lcl_id.seq_no % primary_shard_size == 0)) [
        | inl first ↦
            let next : n ≡ suc (shard_of s.lcl_id.seq_no) = ground arith in
            let (h, e) = insert_lem id n true (with_primary (n ∷ s.primary_shards) s) in
            let retained' : IsRetained cfg.max_primary_shards n
                (left_of id.seq_no (n ∷ s.primary_shards)) =
              subst
                (λ m.
                  IsRetained cfg.max_primary_shards m (left_of id.seq_no (m ∷ s.primary_shards)))
                (sym next)
                (grown-IsRetained cfg.max_primary_shards (shard_of s.lcl_id.seq_no) s.primary_shards
                  (left_of id.seq_no (suc (shard_of s.lcl_id.seq_no) ∷ s.primary_shards)) pos r
                  (left_lem id.seq_no (shard_of s.lcl_id.seq_no) s.primary_shards (at ∙ next)
                    (omega arith) (omega arith) (omega arith) pos r)) in
            rw (prepared_first id.seq_no s.primary_shards before first, e)
              (
                refl,
                record {
                  last_shard = sym at;
                  retained =
                      subst
                        (λ m.
                          IsRetained cfg.max_primary_shards m
                            (left_of id.seq_no (n ∷ s.primary_shards)))
                        (sym at) retained';
                },
                refl,
              )
        | inr later ↦
            let same : shard_of s.lcl_id.seq_no ≡ n = ground arith in
            let (h, e) = insert_lem id n false s in
            rw (prepared_later id.seq_no s.primary_shards before later, e)
              (
                refl,
                record {
                  last_shard = sym at;
                  retained =
                      subst (λ m. IsRetained cfg.max_primary_shards m s.primary_shards)
                        (same ∙ sym at) r;
                },
                refl,
              )
      ]
