-- ===== src/Consensus/Proposing.antt =====
-- src/consensus.cpp: `create_stage0_proposal` and `create_stage123_proposal`. The round nonce, which
-- is the hash of random bytes, the hash of a list of strings (crypto.hpp, over BLAKE3) and the votes
-- that the ratio of the stage asks for, which the source computes in floating point, are arguments.
pub mod Elected
pub mod Outputs
pub mod Times
use hpcore.Base.{
  ℕ, zero, suc, ◌+◌, ◌-◌, ◌*◌, ◌/◌, ◌%◌, Bool, true, false, not, ◌&&◌, ◌||◌, ◌++◌, List, [], ◌∷◌,
  Bytes, bytes_eq, length, ltb, leb, ◌==◌, if◌then◌else◌, wrap32, select, keys, contains,
  set_insert, bytes_keyed, bytes_ordered, nat_ordered,
}
use hpcore.Util.SequenceHash.{H32, SequenceHash, h32_empty}
use hpcore.Util.MerkleHashTree.{root_hash, empty_hash}
use hpcore.Consensus.Types.{Proposal, Context, ConsensusConfig}
use hpcore.Consensus.Candidates.{Proposals}
use hpcore.Consensus.Timing.{current_time_config}
use hpcore.Consensus.Votes.{Table, increment, count_votes, elect}
use hpcore.Consensus.VoteStatus.{VoteCounter}

-- `h32::to_string_view`: the four words, each with its lowest byte first.
abbrev word_bytes : ℕ → ℕ → Bytes
word_bytes zero w = []
word_bytes (suc n) w = (w % 256) ∷ word_bytes n (w / 256)

abbrev pub to_string_view : H32 → Bytes
to_string_view h =
    word_bytes 8 h.word0 ++ word_bytes 8 h.word1 ++ word_bytes 8 h.word2 ++ word_bytes 8 h.word3

-- What this node reports of itself in every proposal.
pub record OwnState : Type 0 where
  pub state_hash : H32
  pub patch_hash : H32
  pub last_primary_shard_id : SequenceHash
  pub last_raw_shard_id : SequenceHash

abbrev pub set_of : List Bytes → List Bytes → List Bytes
set_of [] set = set
set_of (k ∷ ks) set = set_of ks (set_insert bytes_ordered k set)

abbrev pub own_proposal : OwnState → ConsensusConfig → ℕ → H32 → Proposal
own_proposal own cfg stage nonce = record {
  pubkey = [];
  root_hash = h32_empty;
  from_self = false;
  sent_timestamp = 0;
  recv_timestamp = 0;
  time = 0;
  stage = stage;
  time_config = current_time_config cfg;
  node_nonce = nonce;
  group_nonce = h32_empty;
  last_primary_shard_id = own.last_primary_shard_id;
  last_raw_shard_id = own.last_raw_shard_id;
  state_hash = own.state_hash;
  patch_hash = own.patch_hash;
  users = [];
  input_ordered_hashes = [];
  output_hash = [];
  output_sig = [];
}

-- The candidate users are swapped with the empty set of the new proposal.
unfoldable pub create_stage0_proposal :
    H32 → OwnState → ConsensusConfig → Context → Proposal × Context
create_stage0_proposal nonce own cfg ctx = (
  record (own_proposal own cfg 0 nonce) {
    time = ctx.round_start_time;
    users = ctx.candidate_users;
    input_ordered_hashes = set_of (keys ctx.candidate_user_inputs) [];
    output_hash = root_hash ctx.user_outputs_hashtree;
    output_sig = ctx.user_outputs_our_sig;
  },
  record ctx { round_nonce = nonce; candidate_users = [] },
)

-- Whether a candidate's time may be voted for.
abbrev pub votable_time : ℕ → ConsensusConfig → ℕ → Bool
votable_time now cfg time = ltb time now && leb (now - time) (wrap32 (cfg.roundtime * 2))

-- The inputs of a candidate that are in our own set.
abbrev pub known_inputs : Context → Proposal → List Bytes
known_inputs ctx cp =
    select (λ ordered_hash. contains ordered_hash ctx.candidate_user_inputs) cp.input_ordered_hashes

vote_time : Bool → ℕ → Table ℕ → Table ℕ
vote_time true time table = increment nat_ordered time table
vote_time false time table = table

unfoldable pub vote_for : ℕ → ConsensusConfig → Context → Proposal → VoteCounter → VoteCounter
unfolding vote_time
vote_for now cfg ctx cp votes = record votes {
  time = vote_time (votable_time now cfg cp.time) cp.time votes.time;
  users = count_votes bytes_ordered cp.users votes.users;
  inputs = count_votes bytes_ordered (known_inputs ctx cp) votes.inputs;
  output_hash = increment bytes_ordered cp.output_hash votes.output_hash;
}

unfoldable pub vote_for_all : ℕ → ConsensusConfig → Context → Proposals → VoteCounter → VoteCounter
vote_for_all now cfg ctx [] votes = votes
vote_for_all now cfg ctx ((pubkey, cp) ∷ rest) votes =
    vote_for_all now cfg ctx rest (vote_for now cfg ctx cp votes)

abbrev pub node_nonces : Proposals → List Bytes → List Bytes
node_nonces [] set = set
node_nonces ((pubkey, cp) ∷ rest) set =
    node_nonces rest (set_insert bytes_ordered (to_string_view cp.node_nonce) set)

-- Whether an entry with so many votes goes into the proposal of the stage.
unfoldable pub passes : ℕ → ℕ → ℕ → Bool
passes required stage numvotes = leb required numvotes || ((stage == 1) && ltb 0 numvotes)

unfoldable pub elected_members : ℕ → ℕ → Table Bytes → List Bytes → List Bytes
elected_members required stage [] set = set
elected_members required stage ((k, numvotes) ∷ table) set =
    if passes required stage numvotes
    then elected_members required stage table (set_insert bytes_ordered k set)
    else elected_members required stage table set

unfoldable pub elect_output : ℕ → Table Bytes → Bytes → ℕ → Bytes
elect_output required [] output_hash highest = output_hash
elect_output required ((hash, numvotes) ∷ table) output_hash highest =
    if leb required numvotes && ltb highest numvotes
    then elect_output required table hash numvotes
    else elect_output required table output_hash highest

-- The output signatures of the candidates that report the elected output hash.
abbrev pub unl_signatures : Bytes → Proposals → List (Bytes × Bytes)
unl_signatures output_hash [] = []
unl_signatures output_hash ((pubkey, cp) ∷ rest) =
    let others = unl_signatures output_hash rest in
    if bytes_eq cp.output_hash output_hash then (cp.pubkey, cp.output_sig) ∷ others else others

-- The time with most votes, or the start of the round if there is none.
abbrev pub elect_time : Table ℕ → ℕ → ℕ
elect_time table round_start_time =
    let (time, highest) = elect table 0 0 in if time == 0 then round_start_time else time

unfoldable pub create_stage123_proposal :
    (List Bytes → H32)
    → ℕ
    → ℕ
    → ℕ
    → OwnState
    → ConsensusConfig
    → Context
    → VoteCounter
    → Proposal × Context × VoteCounter
create_stage123_proposal get_list_hash now stage_votes majority_votes own cfg ctx votes =
    let counted = vote_for_all now cfg ctx ctx.candidate_proposals votes in
    let output_hash = elect_output majority_votes counted.output_hash empty_hash 0 in
    let ours = bytes_eq output_hash (root_hash ctx.user_outputs_hashtree) in
    (
      record (own_proposal own cfg ctx.stage ctx.round_nonce) {
        group_nonce =
            (if ctx.stage == 3
              then get_list_hash (node_nonces ctx.candidate_proposals [])
              else h32_empty);
        users = elected_members stage_votes ctx.stage counted.users [];
        input_ordered_hashes = elected_members stage_votes ctx.stage counted.inputs [];
        output_hash = output_hash;
        output_sig = (if ltb ctx.stage 3 && ours then ctx.user_outputs_our_sig else []);
        time = elect_time counted.time ctx.round_start_time;
      },
      record ctx {
        user_outputs_unl_sig =
            (if ltb ctx.stage 3
              then ctx.user_outputs_unl_sig
              else ctx.user_outputs_unl_sig ++ unl_signatures output_hash ctx.candidate_proposals);
      },
      counted,
    )
