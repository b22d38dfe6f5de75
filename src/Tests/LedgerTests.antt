-- ===== src/Tests/LedgerTests.antt =====
-- Runs of the ledger and of the status, and the theorems on them at concrete inputs.
use hpcore.Base.{
  ℕ, zero, suc, ◌+◌, ◌*◌, ◌-◌, ◌/◌, ◌<◌, ◌≡◌, ap, refl, true, ◌&&◌, List, [], ◌∷◌, none, some,
  Bytes, arith, elem, discard, nat_keyed, ltb,
}
use hpcore.Util.SequenceHash.{H32}
use hpcore.Consensus.Types.{Proposal}
use hpcore.Ledger.Chain.{Hashes, new_lcl_id, lcl_id_after, ledgers}
use hpcore.Ledger.Chain.Agreement.{IsCollisionFree, same_history}
use hpcore.Ledger.Shards.{
  custom, HistoryConfig, ShardCalls, LedgerState, remove_old_shards, remove_down,
  update_primary_ledger,
}
use hpcore.Ledger.Shards.Retention.{IsContiguous, kept_exactly}
use hpcore.Ledger.Shards.Placement.{AllSucceed, IsRetained, Outcome, update_primary-IsPlaced}
use hpcore.Status.{Status, HealthConfig, no_latency, health_of}
use hpcore.Consensus.VoteStatus.{synced}
use hpcore.Tests.ConsensusTests.{hash_a, shard, node_a, node_b, proposal}

-- An injective pairing.
pair : ℕ → ℕ → ℕ
pair zero b = 2 * b + 1
pair (suc a) b = 2 * pair a b

pair_pos : (a b : ℕ) → 0 < pair a b
unfolding pair
pair_pos zero b = omega arith
pair_pos (suc a) b = omega (arith, pair_pos a b)

pair_inj : (a b c d : ℕ) → pair a b ≡ pair c d → (a ≡ c) × (b ≡ d)
unfolding pair
pair_inj zero b zero d e = (refl, omega arith)
pair_inj zero b (suc c) d e = absurd (omega arith)
pair_inj (suc a) b zero d e = absurd (omega arith)
pair_inj (suc a) b (suc c) d e = let (x, y) = pair_inj a b c d (omega arith) in (omega arith, y)

code : Bytes → ℕ
code [] = 0
code (x ∷ xs) = pair x (code xs)

code_inj : (s t : Bytes) → code s ≡ code t → s ≡ t
unfolding code
code_inj [] [] e = refl
code_inj [] (y ∷ t) e = absurd (omega (arith, pair_pos y (code t)))
code_inj (x ∷ s) [] e = absurd (omega (arith, pair_pos x (code s)))
code_inj (x ∷ s) (y ∷ t) e =
    let (h, k) = pair_inj x (code s) y (code t) e in let same = code_inj s t k in cc

abbrev hashes : Hashes
hashes = record {
  blake3 = λ s.
      code s
      ∷ 0
      ∷ 0
      ∷ 0
      ∷ 0
      ∷ 0
      ∷ 0
      ∷ 0
      ∷ 0
      ∷ 0
      ∷ 0
      ∷ 0
      ∷ 0
      ∷ 0
      ∷ 0
      ∷ 0
      ∷ 0
      ∷ 0
      ∷ 0
      ∷ 0
      ∷ 0
      ∷ 0
      ∷ 0
      ∷ 0
      ∷ 0
      ∷ 0
      ∷ 0
      ∷ 0
      ∷ 0
      ∷ 0
      ∷ 0
      ∷ 0
      ∷ [];
  get_hash = λ h s. record {
    word0 = code (h.word0 ∷ h.word1 ∷ h.word2 ∷ h.word3 ∷ s);
    word1 = 0;
    word2 = 0;
    word3 = 0;
  };
}

abbrev head_or_zero : Bytes → ℕ
head_or_zero [] = 0
head_or_zero (b ∷ s) = b

same_pair :
    (h k : H32) (s t : Bytes)
    → (h.word0 ∷ h.word1 ∷ h.word2 ∷ h.word3 ∷ s) ≡ (k.word0 ∷ k.word1 ∷ k.word2 ∷ k.word3 ∷ t)
    → (h ≡ k) × (s ≡ t)
same_pair h k s t e =
    let a : h.word0 ≡ k.word0 = cc in
    let b : h.word1 ≡ k.word1 = cc in
    let c : h.word2 ≡ k.word2 = cc in
    let d : h.word3 ≡ k.word3 = cc in
    (λ i. record { word0 = a i; word1 = b i; word2 = c i; word3 = d i }, cc)

hashes-IsCollisionFree : IsCollisionFree hashes
hashes-IsCollisionFree = record {
  sized = λ s. refl;
  of_strings = λ s t e. code_inj s t (ap head_or_zero e);
  of_pairs = λ h k s t e. same_pair h k s t (code_inj _ _ (ap (λ x. x.word0) e));
}

-- Two nodes hold their own proposals of one ledger.
abbrev by_a : List Proposal
by_a = proposal node_a 5000 3 hash_a ∷ []

abbrev by_b : List Proposal
by_b = proposal node_b 5000 3 hash_a ∷ []

same_history_example : ledgers hashes by_a ≡ ledgers hashes by_b
unfolding lcl_id_after new_lcl_id
same_history_example =
    same_history hashes hashes-IsCollisionFree by_a by_b (omega arith, tt) (omega arith, tt)
      (omega arith) (omega arith) refl

abbrev four : List ℕ
four = 3 ∷ 2 ∷ 1 ∷ 0 ∷ []

four_kept : remove_old_shards custom (λ i. true) 35 10 2 four ≡ 3 ∷ 2 ∷ []
unfolding remove_old_shards remove_down elem discard
four_kept = refl

four-IsContiguous : IsContiguous (suc ((35 - 1) / 10)) four
unfolding elem
four-IsContiguous i lt gone = ground arith

kept_exactly_example :
    elem 1 (remove_old_shards custom (λ i. true) 35 10 2 four)
    ≡ (elem 1 four && ltb ((35 - 1) / 10) (1 + 2))
kept_exactly_example =
    kept_exactly (λ i. true) 35 10 2 four (λ i. refl) (omega arith) (omega arith) (omega arith)
      four-IsContiguous 1

abbrev pub history : HistoryConfig
history = record { history = custom; max_primary_shards = 2; max_raw_shards = 2 }

abbrev pub calls : ShardCalls
calls = record {
  dir_made = true;
  shard_made = true;
  db_opened = true;
  inserted = true;
  shard_hash = λ k. some hash_a;
  index_updated = true;
  removable = λ k. true;
}

-- The last ledger fills its shard.
abbrev pub filled : LedgerState
filled = record {
  lcl_id = record { seq_no = 262144; hash = hash_a };
  last_primary_shard_id = record { seq_no = 0; hash = hash_a };
  last_raw_shard_id = shard;
  primary_shards = 0 ∷ [];
  raw_shards = [];
}

filled-IsRetained : IsRetained 2 0 (0 ∷ [])
unfolding elem
filled-IsRetained = record {
  is_there = refl;
  is_kept = λ k there. ground arith;
  contiguous = λ i lt gone. ground arith;
}

all_succeed : AllSucceed calls
all_succeed = record {
  dir = refl;
  made = refl;
  opened = refl;
  inserts = refl;
  hashed = λ k. (hash_a, refl);
  removes = λ k. refl;
}

update_primary-IsPlaced_example :
    Outcome hashes history calls
      (proposal node_a 5000 3 hash_a)
      filled
      refl
      all_succeed
      (update_primary_ledger hashes history calls (proposal node_a 5000 3 hash_a) filled)
update_primary-IsPlaced_example =
    update_primary-IsPlaced hashes history calls (proposal node_a 5000 3 hash_a) filled refl
      all_succeed (omega arith) (omega arith) (omega arith) (omega arith)
      (record { last_shard = refl; retained = filled-IsRetained })

abbrev health : HealthConfig
health = record { proposal_stats = true; connectivity_stats = true }

abbrev status : Status
status = record {
  lcl_id = shard;
  last_ledger = record {
    seq_no = 0;
    timestamp = 0;
    ledger_hash = [];
    prev_ledger_hash = [];
    data_hash = [];
    state_hash = [];
    config_hash = [];
    nonce = [];
    user_hash = [];
    input_hash = [];
    output_hash = [];
    inputs = none;
    outputs = none;
  };
  vote_status = synced;
  unl = [];
  peers = [];
  peer_count = 0;
  weakly_connected = true;
  available_mesh_capacity = 0;
  phealth = record (health_of no_latency no_latency 1) { batch_size = 0 };
  event_queue = [];
}

abbrev timed : ℕ → ℕ → Proposal
timed sent recv = record (proposal node_a 5000 0 hash_a) {
  sent_timestamp = sent;
  recv_timestamp = recv;
}
