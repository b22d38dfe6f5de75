-- ===== src/Tests/RoundTests.antt =====
-- Runs of the vote checks, the proposals and the joining of inputs, and their theorems at concrete
-- inputs.
use hpcore.Base.{
  ℕ, ◌+◌, ◌*◌, ◌<◌, ◌≤◌, ◌≡◌, ◌⊎◌, refl, true, false, List, [], ◌∷◌, some, none, Bytes, bytes_eq,
  find, put, arith, elem, Distinct, bytes_keyed, bytes_ordered, if◌then◌else◌, map_emplace,
}
use hpcore.Util.SequenceHash.{H32, h32_empty, h32_lt, h32_ne, seq_lt, seq_ne}
use hpcore.Util.SequenceHash.Keys.{h32_ordered, seq_ordered}
use hpcore.Util.MerkleHashTree.{empty_hash}
use hpcore.Consensus.Types.{Proposal, Context, CandidateUserInput}
use hpcore.Consensus.Candidates.{Proposals}
use hpcore.Consensus.Votes.{count_votes, elect, increment}
use hpcore.Consensus.Votes.Tally.{cast_for}
use hpcore.Consensus.VoteStatus.{
  NodeView, check_vote_status, check_last_primary_shard_hash_votes, check_last_raw_shard_hash_votes,
  check_state_votes, check_patch_votes, synced, desync, reset, reported,
}
use hpcore.Consensus.VoteStatus.InSync.{
  shards, raw_shards, states, patches, IsMostVoted, synced_with_majority,
}
use hpcore.Consensus.VoteStatus.Agreement.{synced_agreement}
use hpcore.Consensus.Proposing.{OwnState, create_stage123_proposal}
use hpcore.Consensus.Proposing.Outputs.{proposed_output}
use hpcore.Consensus.Proposing.Times.{proposed_time}
use hpcore.Consensus.Inputs.{prepare_consensed_users}
use hpcore.Consensus.Inputs.UserMap.{inputs_of}
use hpcore.Consensus.Inputs.Joining.{owned, prepared_inputs}
use hpcore.Tests.ConsensusTests.{
  hash_a, hash_b, shard, node_a, node_b, node_c, proposal, cfg, context, unl,
}

abbrev node_view : H32 → NodeView
node_view state = record {
  last_primary_shard_id = shard;
  last_raw_shard_id = shard;
  state_hash = state;
  patch_hash = hash_a;
  root_name_hash = h32_empty;
  lcl_seq_no = 12;
  full_history = false;
  max_raw_shards = 4;
  is_last_primary_shard_syncing = false;
  is_last_raw_shard_syncing = false;
  is_syncing = false;
  primary_shards_persisted = true;
  raw_shards_persisted = true;
  acquires_rw_session = true;
  is_patch_update_pending = false;
}

abbrev entry : Bytes → Bytes × Proposal
entry k = (
  k,
  record (proposal k 5000 1 hash_a) {
    users = node_c ∷ [];
    input_ordered_hashes = (7 ∷ []) ∷ [];
    output_hash = 5 ∷ [];
  },
)

abbrev three : Proposals
three = entry node_a ∷ entry node_b ∷ entry node_c ∷ []

abbrev two : Proposals
two = entry node_a ∷ entry node_b ∷ []

is_synced : (check_vote_status 2 (node_view hash_a) three reset).status ≡ synced
unfolding check_vote_status check_last_primary_shard_hash_votes check_last_raw_shard_hash_votes
    check_state_votes check_patch_votes count_votes increment elect find put map_emplace h32_lt
    seq_lt seq_ne h32_ne
is_synced = refl

is_synced_too : (check_vote_status 2 (node_view hash_a) two reset).status ≡ synced
unfolding check_vote_status check_last_primary_shard_hash_votes check_last_raw_shard_hash_votes
    check_state_votes check_patch_votes count_votes increment elect find put map_emplace h32_lt
    seq_lt seq_ne h32_ne
is_synced_too = refl

is_desync : (check_vote_status 2 (node_view hash_b) three reset).status ≡ desync
unfolding check_vote_status check_last_primary_shard_hash_votes check_last_raw_shard_hash_votes
    check_state_votes check_patch_votes count_votes increment elect find put map_emplace h32_lt
    seq_lt seq_ne h32_ne
is_desync = refl

synced_with_majority_example :
    (2 ≤ cast_for seq_ordered shard (shards three))
    × IsMostVoted seq_ordered shard (shards three)
    × IsMostVoted h32_ordered hash_a (states three)
    × IsMostVoted h32_ordered hash_a (patches three)
    × (0 < 4 → IsMostVoted seq_ordered shard (raw_shards three))
synced_with_majority_example =
    synced_with_majority 2 (node_view hash_a) three (omega arith) (omega arith) is_synced

three-Distinct : Distinct three
unfolding find bytes_eq
three-Distinct = (refl, (refl, (refl, tt)))

pair-Distinct : Distinct two
unfolding find bytes_eq
pair-Distinct = (refl, (refl, tt))

one_shard :
    (u : Bytes) (v w : Proposal)
    → find u three ≡ some v
    → find u two ≡ some w
    → v.last_primary_shard_id ≡ w.last_primary_shard_id
unfolding find
one_shard u v w found_v found_w = ground arith

synced_agreement_example : ◌≡◌ {A = ℕ} 3 3 × ◌≡◌ {A = ℕ} 1 1
unfolding elem bytes_eq
synced_agreement_example =
    synced_agreement 2 2 (node_view hash_a) (node_view hash_a) unl three two (omega arith)
      (omega arith) (omega arith) (omega arith) (omega arith) three-Distinct
      (refl, (refl, (refl, tt))) pair-Distinct (refl, (refl, tt)) one_shard is_synced is_synced_too

abbrev own : OwnState
own = record {
  state_hash = hash_a;
  patch_hash = hash_a;
  last_primary_shard_id = shard;
  last_raw_shard_id = shard;
}

abbrev first_word : List Bytes → H32
first_word nonces = h32_empty

abbrev input_of : Bytes → CandidateUserInput
input_of k = record {
  user_pubkey = k;
  input = record { offset = 4096; size = 3 };
  max_ledger_seq_no = 20;
}

abbrev with_inputs : Context
with_inputs = record (context 2 three) {
  candidate_user_inputs = (7 ∷ [], input_of node_c) ∷ (8 ∷ [], input_of node_a) ∷ [];
  sync_ongoing = true;
}

proposed_output_example :
    let p = (create_stage123_proposal first_word 5300 2 3 own cfg with_inputs reset).0 in
    ((p.output_hash ≡ empty_hash)
      × ((q : Bytes) → cast_for bytes_ordered q (reported (λ cp. cp.output_hash) three) < 3))
    ⊎ ((3 ≤ cast_for bytes_ordered p.output_hash (reported (λ cp. cp.output_hash) three))
        × ((q : Bytes)
            → cast_for bytes_ordered q (reported (λ cp. cp.output_hash) three)
              ≤ cast_for bytes_ordered p.output_hash (reported (λ cp. cp.output_hash) three)))
proposed_output_example =
    proposed_output first_word 5300 2 3 own cfg with_inputs reset refl (omega arith) (omega arith)

proposed_time_example :
    let p = (create_stage123_proposal first_word 5300 2 3 own cfg with_inputs reset).0 in
    (p.time ≡ 5000) ⊎ ((p.time < 5300) × (5300 ≤ p.time + 1000 * 2))
proposed_time_example =
    proposed_time first_word 5300 2 3 own cfg with_inputs reset refl (omega arith)

abbrev closing : Proposal
closing = record (proposal node_a 5000 3 hash_a) {
  users = node_c ∷ [];
  input_ordered_hashes = (7 ∷ []) ∷ (9 ∷ []) ∷ [];
}

prepared_inputs_example :
    let (ok, users, after) = prepare_consensed_users closing [] with_inputs in
    ((u : Bytes)
      → inputs_of u users ≡ owned u ((7 ∷ []) ∷ (9 ∷ []) ∷ []) with_inputs.candidate_user_inputs)
    × ((q : Bytes)
        → find q after.candidate_user_inputs ≡ (
            if elem q ((7 ∷ []) ∷ (9 ∷ []) ∷ [])
            then none
            else find q with_inputs.candidate_user_inputs))
unfolding elem bytes_eq
prepared_inputs_example = prepared_inputs closing with_inputs (refl, (refl, tt))
