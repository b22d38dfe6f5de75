-- ===== src/Consensus/Types.antt =====
-- src/consensus.hpp, the proposal of src/p2p/p2p.hpp and the configuration that consensus reads
-- (src/conf.hpp): the data of a consensus round.
use hpcore.Base.{ℕ, Bool, List, Bytes}
use hpcore.Util.SequenceHash.{H32, SequenceHash}
use hpcore.Util.BufferStore.{BufferView}
use hpcore.Util.MerkleHashTree.{MerkleHashTree}

-- A proposal of one node for one stage of one round.
pub record Proposal : Type 0 where
  pub pubkey : Bytes
  pub root_hash : H32
  pub from_self : Bool
  pub sent_timestamp : ℕ
  pub recv_timestamp : ℕ
  pub time : ℕ
  pub stage : ℕ
  pub time_config : ℕ
  pub node_nonce : H32
  pub group_nonce : H32
  pub last_primary_shard_id : SequenceHash
  pub last_raw_shard_id : SequenceHash
  pub state_hash : H32
  pub patch_hash : H32
  pub users : List Bytes
  pub input_ordered_hashes : List Bytes
  pub output_hash : Bytes
  pub output_sig : Bytes

pub record CandidateUserInput : Type 0 where
  pub user_pubkey : Bytes
  pub input : BufferView
  pub max_ledger_seq_no : ℕ

pub record ConsensedUserInput : Type 0 where
  pub ordered_hash : Bytes
  pub input : BufferView

pub record ConsensedUserOutput : Type 0 where
  pub hash : Bytes
  pub outputs : List Bytes

pub record ConsensedUser : Type 0 where
  pub consensed_inputs : List ConsensedUserInput
  pub consensed_outputs : ConsensedUserOutput

-- The outputs of a user are the messages of its contract outputs.
pub record GeneratedUserOutput : Type 0 where
  pub user_pubkey : Bytes
  pub outputs : List Bytes

-- The part of the configuration that consensus uses and changes.
pub record ConsensusConfig : Type 0 where
  pub roundtime : ℕ
  pub stage_slice : ℕ
  pub threshold : ℕ

pub record Context : Type 0 where
  pub candidate_proposals : List (Bytes × Proposal)
  pub candidate_users : List Bytes
  pub candidate_user_inputs : List (Bytes × CandidateUserInput)
  pub generated_user_outputs : List (Bytes × GeneratedUserOutput)
  pub user_outputs_hashtree : MerkleHashTree
  pub user_outputs_our_sig : Bytes
  pub user_outputs_unl_sig : List (Bytes × Bytes)
  pub stage : ℕ
  pub round_start_time : ℕ
  pub stage0_duration : ℕ
  pub stage123_duration : ℕ
  pub stage_reset_wait_threshold : ℕ
  pub round_boundry_offset : ℕ
  pub unreliable_votes_attempts : ℕ
  pub round_nonce : H32
  pub sync_ongoing : Bool
  pub is_shutting_down : Bool
