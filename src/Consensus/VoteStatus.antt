-- ===== src/Consensus/VoteStatus.antt =====
-- src/consensus.cpp: `check_vote_status` and the four vote checks it calls. What the checks read of
-- other parts of the node (the ledger context, the hpfs hashes, the history configuration, whether
-- the sync worker is busy, whether the ledger file system could be locked) is a record, and the
-- targets given to the sync workers come back as requests in the order in which they are made.
pub mod InSync
pub mod Agreement
pub mod Desync
use hpcore.Base.{
  ℕ, ◌+◌, Bool, true, false, not, ◌&&◌, ◌||◌, ◌++◌, List, [], ◌∷◌, map, Bytes, length, ltb,
  if◌then◌else◌,
}
use hpcore.Util.SequenceHash.{H32, SequenceHash, h32_empty, h32_ne, seq_ne, h32_xor}
use hpcore.Util.SequenceHash.Keys.{h32_ordered, seq_ordered}
use hpcore.Consensus.Types.{Proposal}
use hpcore.Consensus.Candidates.{Proposals}
use hpcore.Consensus.Votes.{Table, count_votes, elect}

-- `vote_counter`. The table named lcl is never written.
pub record VoteCounter : Type 0 where
  pub time : Table ℕ
  pub users : Table Bytes
  pub inputs : Table Bytes
  pub output_hash : Table Bytes
  pub state_hash : Table H32
  pub patch_hash : Table H32
  pub last_ledger_primary_shard : Table SequenceHash
  pub last_ledger_raw_shard : Table SequenceHash

abbrev pub reset : VoteCounter
reset = record {
  time = [];
  users = [];
  inputs = [];
  output_hash = [];
  state_hash = [];
  patch_hash = [];
  last_ledger_primary_shard = [];
  last_ledger_raw_shard = [];
}

pub data VoteStatus : Type 0 where
  unknown unreliable desync synced : VoteStatus

-- What this node has, and how it is configured.
pub record NodeView : Type 0 where
  pub last_primary_shard_id : SequenceHash
  pub last_raw_shard_id : SequenceHash
  pub state_hash : H32
  pub patch_hash : H32
  pub root_name_hash : H32
  pub lcl_seq_no : ℕ
  pub full_history : Bool
  pub max_raw_shards : ℕ
  pub is_last_primary_shard_syncing : Bool
  pub is_last_raw_shard_syncing : Bool
  pub is_syncing : Bool
  pub primary_shards_persisted : Bool
  pub raw_shards_persisted : Bool
  pub acquires_rw_session : Bool
  pub is_patch_update_pending : Bool

-- What the sync workers and the shard history are asked for.
pub data SyncRequest : Type 0 where
  primary_shard raw_shard : SequenceHash → SyncRequest
  patch_file state_dir : H32 → SyncRequest
  hpfs_log : ℕ → H32 → SyncRequest
  persist_primary persist_raw : ℕ → SyncRequest

abbrev pub shard_none : SequenceHash
shard_none = record { seq_no = 0; hash = h32_empty }

-- What the proposals report.
module _ {ℓ} {K : Type ℓ} (field : Proposal → K) where
  abbrev pub reported : Proposals → List K
  reported [] = []
  reported ((pubkey, cp) ∷ rest) = field cp ∷ reported rest

-- Whether the shard could be told reliably, whether ours is another one, the shard, and the votes.
pub record PrimaryCheck : Type 0 where
  pub reliable : Bool
  pub is_desync : Bool
  pub majority : SequenceHash
  pub votes : Table SequenceHash

-- The votes required are the threshold's share of the UNL, which the source computes in floating
-- point.
unfoldable pub check_last_primary_shard_hash_votes :
    ℕ → SequenceHash → Proposals → Table SequenceHash → PrimaryCheck
check_last_primary_shard_hash_votes required own candidates table =
    let counter =
      count_votes seq_ordered (reported (λ cp. cp.last_primary_shard_id) candidates) table in
    let (winner, winning_votes) = elect counter shard_none 0 in
    if ltb (length candidates) required
    then record { reliable = false; is_desync = false; majority = shard_none; votes = counter }
    else if ltb winning_votes required
    then record { reliable = false; is_desync = false; majority = winner; votes = counter }
    else if seq_ne own winner
    then record { reliable = true; is_desync = true; majority = winner; votes = counter }
    else record { reliable = true; is_desync = false; majority = winner; votes = counter }

unfoldable pub check_last_raw_shard_hash_votes :
    ℕ → SequenceHash → Proposals → Table SequenceHash → Bool × SequenceHash × Table SequenceHash
check_last_raw_shard_hash_votes max_raw_shards own candidates table =
    let counter =
      count_votes seq_ordered (reported (λ cp. cp.last_raw_shard_id) candidates) table in
    let (winner, winning_votes) = elect counter shard_none 0 in
    (ltb 0 max_raw_shards && seq_ne own winner, winner, counter)

unfoldable pub check_state_votes : H32 → Proposals → Table H32 → Bool × H32 × Table H32
check_state_votes own candidates table =
    let counter = count_votes h32_ordered (reported (λ cp. cp.state_hash) candidates) table in
    let (winner, winning_votes) = elect counter h32_empty 0 in (h32_ne own winner, winner, counter)

unfoldable pub check_patch_votes : H32 → Proposals → Table H32 → Bool × H32 × Table H32
check_patch_votes own candidates table =
    let counter = count_votes h32_ordered (reported (λ cp. cp.patch_hash) candidates) table in
    let (winner, winning_votes) = elect counter h32_empty 0 in (h32_ne own winner, winner, counter)

-- `hpfs::get_root_hash` of two children.
abbrev pub get_root_hash : H32 → H32 → H32 → H32
get_root_hash name_hash child_one child_two = h32_xor (h32_xor name_hash child_one) child_two

-- The hpfs targets: the log sync of a full history node, or the patch file and then the state.
unfoldable pub hpfs_requests : NodeView → Bool → H32 → Bool → H32 → List SyncRequest
hpfs_requests node is_patch_desync patch is_state_desync state =
    let patch_request = if is_patch_desync then patch_file patch ∷ [] else [] in
    let state_request = if is_state_desync then state_dir state ∷ [] else [] in
    if not (is_state_desync || is_patch_desync)
    then []
    else if not node.full_history
    then patch_request ++ state_request
    else if node.is_last_primary_shard_syncing
    then []
    else hpfs_log (node.lcl_seq_no + 1) (get_root_hash node.root_name_hash patch state) ∷ []

unfoldable pub persist_requests : NodeView → ℕ → ℕ → List SyncRequest
persist_requests node primary_seq_no raw_seq_no =
    let primary_request =
      if node.primary_shards_persisted then [] else persist_primary primary_seq_no ∷ [] in
    let raw_request = if node.raw_shards_persisted then [] else persist_raw raw_seq_no ∷ [] in
    if not node.is_syncing
      && (not node.primary_shards_persisted || not node.raw_shards_persisted)
      && node.acquires_rw_session
    then primary_request ++ raw_request
    else []

pub record StatusCheck : Type 0 where
  pub status : VoteStatus
  pub votes : VoteCounter
  pub node : NodeView
  pub requests : List SyncRequest

abbrev pub mark_primary_syncing : Bool → NodeView → NodeView
mark_primary_syncing true node = record node { is_last_primary_shard_syncing = true }
mark_primary_syncing false node = node

abbrev pub mark_raw_syncing : Bool → NodeView → NodeView
mark_raw_syncing true node = record node { is_last_raw_shard_syncing = true }
mark_raw_syncing false node = node

abbrev pub stop_patch_update : Bool → NodeView → NodeView
stop_patch_update true node = record node { is_patch_update_pending = false }
stop_patch_update false node = node

unfoldable pub check_vote_status : ℕ → NodeView → Proposals → VoteCounter → StatusCheck
check_vote_status required node candidates votes =
    let primary =
      check_last_primary_shard_hash_votes required node.last_primary_shard_id candidates
        votes.last_ledger_primary_shard in
    let (is_raw_desync, raw, raw_votes) =
      check_last_raw_shard_hash_votes node.max_raw_shards node.last_raw_shard_id candidates
        votes.last_ledger_raw_shard in
    let (is_patch_desync, patch, patch_votes) =
      check_patch_votes node.patch_hash candidates votes.patch_hash in
    let (is_state_desync, state, state_votes) =
      check_state_votes node.state_hash candidates votes.state_hash in
    let node1 = mark_primary_syncing primary.is_desync node in
    let node2 = stop_patch_update is_patch_desync node1 in
    let node3 = mark_raw_syncing is_raw_desync node2 in
    if not primary.reliable
    then record {
      status = unreliable;
      votes = record votes { last_ledger_primary_shard = primary.votes };
      node = node;
      requests = [];
    }
    else record {
      status =
          (if not primary.is_desync
              && not is_raw_desync
              && not is_state_desync
              && not is_patch_desync
            then synced
            else desync);
      votes = record votes {
        last_ledger_primary_shard = primary.votes;
        last_ledger_raw_shard = raw_votes;
        patch_hash = patch_votes;
        state_hash = state_votes;
      };
      node = node3;
      requests =
          (if primary.is_desync then primary_shard primary.majority ∷ [] else [])
          ++ hpfs_requests node2 is_patch_desync patch is_state_desync state
          ++ (if is_raw_desync then raw_shard raw ∷ [] else [])
          ++ persist_requests node3 primary.majority.seq_no raw.seq_no;
    }
