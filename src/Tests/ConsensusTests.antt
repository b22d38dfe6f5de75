-- ===== src/Tests/ConsensusTests.antt =====
-- Runs of the consensus steps, and their theorems at concrete inputs.
use hpcore.Base.{
  ◌↔◌, count, ℕ, ◌≤◌, ◌≡◌, refl, true, false, List, [], ◌∷◌, some, Bytes, bytes_eq, arith, find,
  put, erase, remove_if, bytes_keyed, map_emplace, Distinct, elem, nat_ordered,
}
use hpcore.Util.SequenceHash.{H32, SequenceHash, h32_empty, h32_lt}
use hpcore.Util.MerkleHashTree.{empty_tree}
use hpcore.Consensus.Types.{Proposal, Context, ConsensusConfig}
use hpcore.Consensus.Votes.{elect}
use hpcore.Consensus.Timing.{wait_and_proceed_stage}
use hpcore.Consensus.Timing.Windows.{same_round}
use hpcore.Consensus.Timing.Stages.{IsSensible}
use hpcore.Consensus.Candidates.{
  Proposals, move_collected, keep_candidate, revise_candidate_proposals,
}
use hpcore.Consensus.Candidates.Freshness.{
  latest, IsUsable, revised_exactly, NotBefore, never_goes_back,
}
use hpcore.Consensus.Closing.{stage3_proposals, decide_close, close_with, push, group_all}
use hpcore.Consensus.Closing.Agreement.{IsAmong, supports, quorum_closes, close_agreement}

abbrev pub hash_a : H32
hash_a = record { word0 = 1; word1 = 2; word2 = 3; word3 = 4 }

abbrev pub hash_b : H32
hash_b = record { word0 = 5; word1 = 6; word2 = 7; word3 = 8 }

abbrev pub shard : SequenceHash
shard = record { seq_no = 3; hash = hash_a }

abbrev pub node_a : Bytes
node_a = 1 ∷ []

abbrev pub node_b : Bytes
node_b = 2 ∷ []

abbrev pub node_c : Bytes
node_c = 3 ∷ []

abbrev pub proposal : Bytes → ℕ → ℕ → H32 → Proposal
proposal pubkey time stage root_hash = record {
  pubkey = pubkey;
  root_hash = root_hash;
  from_self = false;
  sent_timestamp = 0;
  recv_timestamp = 0;
  time = time;
  stage = stage;
  time_config = 100025;
  node_nonce = h32_empty;
  group_nonce = h32_empty;
  last_primary_shard_id = shard;
  last_raw_shard_id = shard;
  state_hash = hash_a;
  patch_hash = hash_a;
  users = [];
  input_ordered_hashes = [];
  output_hash = [];
  output_sig = [];
}

abbrev pub cfg : ConsensusConfig
cfg = record { roundtime = 1000; stage_slice = 25; threshold = 80 }

abbrev pub context : ℕ → Proposals → Context
context stage candidates = record {
  candidate_proposals = candidates;
  candidate_users = [];
  candidate_user_inputs = [];
  generated_user_outputs = [];
  user_outputs_hashtree = empty_tree 16;
  user_outputs_our_sig = [];
  user_outputs_unl_sig = [];
  stage = stage;
  round_start_time = 5000;
  stage0_duration = 250;
  stage123_duration = 250;
  stage_reset_wait_threshold = 100;
  round_boundry_offset = 0;
  unreliable_votes_attempts = 0;
  round_nonce = h32_empty;
  sync_ongoing = false;
  is_shutting_down = false;
}

abbrev vote : Bytes → H32 → Bytes × Proposal
vote node h = (node, proposal node 5000 3 h)

abbrev pub unl : List Bytes
unl = node_a ∷ node_b ∷ node_c ∷ []

abbrev votes_one : Proposals
votes_one = vote node_a hash_a ∷ vote node_b hash_a ∷ vote node_c hash_b ∷ []

abbrev votes_two : Proposals
votes_two = vote node_a hash_a ∷ vote node_b hash_a ∷ []

closes_one : decide_close 60 3 votes_one ≡ close_with (proposal node_a 5000 3 hash_a)
unfolding decide_close group_all push map_emplace put find elect h32_lt
closes_one = refl

closes_two : decide_close 60 3 votes_two ≡ close_with (proposal node_a 5000 3 hash_a)
unfolding decide_close group_all push map_emplace put find elect h32_lt
closes_two = refl

quorum_closes_example :
    (p : Proposal) × (decide_close 60 3 votes_one ≡ close_with p)
    × IsAmong (stage3_proposals votes_one) p
    × ((h : H32)
        → count (λ e. supports h e.1) votes_one ≤ count (λ e. supports p.root_hash e.1) votes_one)
unfolding h32_lt
quorum_closes_example = quorum_closes 60 3 votes_one hash_a (omega arith) (omega arith)

one-Distinct : Distinct votes_one
unfolding find bytes_eq
one-Distinct = (refl, (refl, (refl, tt)))

two-Distinct : Distinct votes_two
unfolding find bytes_eq
two-Distinct = (refl, (refl, tt))

-- The nodes in both sets vote for the same hash in both.
two_honest :
    (u : Bytes) (v w : Proposal)
    → find u votes_one ≡ some v
    → find u votes_two ≡ some w
    → v.stage ≡ 3
    → w.stage ≡ 3
    → v.root_hash ≡ w.root_hash
unfolding find
two_honest u v w found_v found_w s t = ground arith

close_agreement_example : ◌≡◌ {A = ℕ} 1 1
unfolding elem bytes_eq
close_agreement_example =
    close_agreement 60 unl votes_one votes_two (proposal node_a 5000 3 hash_a)
      (proposal node_a 5000 3 hash_a) (omega arith) (omega arith) one-Distinct
      (refl, (refl, (refl, tt))) two-Distinct (refl, (refl, tt)) two_honest closes_one closes_two

abbrev old_vote : Proposals
old_vote = (node_a, proposal node_a 5000 1 hash_a) ∷ []

abbrev arrived : List Proposal
arrived = proposal node_a 5000 0 hash_b ∷ proposal node_b 5000 1 hash_b ∷ []

abbrev revised : Context
revised = revise_candidate_proposals true cfg arrived (context 2 old_vote)

old-Distinct : Distinct old_vote
unfolding find bytes_eq
old-Distinct = (refl, tt)

keeps_newer : find node_a revised.candidate_proposals ≡ some (proposal node_a 5000 1 hash_a)
unfolding revise_candidate_proposals keep_candidate move_collected find erase remove_if bytes_eq
keeps_newer = refl

never_goes_back_example : NotBefore (proposal node_a 5000 1 hash_a) (proposal node_a 5000 1 hash_a)
unfolding find bytes_eq
never_goes_back_example =
    never_goes_back node_a (proposal node_a 5000 1 hash_a) (proposal node_a 5000 1 hash_a) true cfg
      arrived (context 2 old_vote) old-Distinct refl keeps_newer

revised_exactly_example :
    (find node_a
        (revise_candidate_proposals true cfg arrived (context 2 old_vote)).candidate_proposals
      ≡ some (proposal node_a 5000 1 hash_a))
    ↔ ((latest node_a (find node_a old_vote) arrived (find node_a old_vote)
          ≡ some (proposal node_a 5000 1 hash_a))
        × IsUsable true cfg (context 2 old_vote) (proposal node_a 5000 1 hash_a))
revised_exactly_example =
    revised_exactly node_a (proposal node_a 5000 1 hash_a) true cfg arrived (context 2 old_vote)
      old-Distinct

same_round_example :
    (wait_and_proceed_stage 7900 cfg (context 0 [])).ctx.round_start_time
    ≡ (wait_and_proceed_stage 7300 cfg (context 0 [])).ctx.round_start_time
unfolding wait_and_proceed_stage
same_round_example =
    same_round 7300 7900 cfg (context 0 []) (context 0 []) refl refl refl (omega arith)
      (omega arith) (omega arith) (omega arith) (omega arith)

cfg-IsSensible : IsSensible cfg
cfg-IsSensible = record { positive = omega arith; an_hour = omega arith; a_third = omega arith }
