-- ===== src/Tests/MemberTests.antt =====
-- The list of the UNL, the stages of a round and the functions on texts at concrete inputs.
use hpcore.Base.{
  ◌⊎◌, ◌≡◌, refl, true, false, [], ◌∷◌, ◌++◌, none, some, Bytes, arith, bytes_lt, bytes_ordered,
  nat_ordered, nat_keyed, map_find, Ascending, if◌then◌else◌, All,
}
use hpcore.Util.SequenceHash.{h32_empty}
use hpcore.Util.Integers.{uint64_to_bytes, uint64_from_bytes, uint64_from_bytes-uint64_to_bytes}
use hpcore.Consensus.Types.{Proposal}
use hpcore.Consensus.Proposing.{OwnState}
use hpcore.Consensus.Round.{Round, Visit, run_stage123, is_synced}
use hpcore.Consensus.Round.Stages.{progress, moved, visit_moves}
use hpcore.Consensus.Round.Pruned.{IsProper, IsMadeFrom, considered, proposes_in_sync}
use hpcore.Consensus.VoteStatus.{NodeView, unknown}
use hpcore.P2p.Types.{has_value}
use hpcore.Unl.{UnlList, Unl, new_stat, configured, merge_latest_unl_config, prepare_json_list}
use hpcore.Unl.Merging.{or_new, merged_exactly}
use hpcore.Tests.ConsensusTests.{hash_a, shard, node_a, node_b, proposal, cfg, context}

abbrev to_hex : Bytes → Bytes
to_hex b = b ++ b

abbrev members : UnlList
members = (node_a, record { time_config = 100025; active_on = 40 }) ∷ (node_b, new_stat) ∷ []

abbrev state : Unl
state = record { list = members; json_list = prepare_json_list to_hex members; is_unl = true }

members-Ascending : Ascending bytes_ordered members
unfolding bytes_lt
members-Ascending = (refl, (tt, tt))

merged_exactly_example :
    let list = (merge_latest_unl_config to_hex (node_b ∷ []) node_a state).0.list in
    Ascending bytes_ordered list
    × (map_find bytes_ordered node_b list ≡ (
        if configured node_b (node_b ∷ [])
        then some (or_new (map_find bytes_ordered node_b members))
        else none))
merged_exactly_example = merged_exactly to_hex (node_b ∷ []) node_a state node_b members-Ascending

abbrev own : OwnState
own = record {
  state_hash = hash_a;
  patch_hash = hash_a;
  last_primary_shard_id = shard;
  last_raw_shard_id = shard;
}

abbrev view : NodeView
view = record {
  last_primary_shard_id = shard;
  last_raw_shard_id = shard;
  state_hash = hash_a;
  patch_hash = hash_a;
  root_name_hash = h32_empty;
  lcl_seq_no = 12;
  full_history = false;
  max_raw_shards = 4;
  is_last_primary_shard_syncing = false;
  is_last_raw_shard_syncing = false;
  is_syncing = false;
  primary_shards_persisted = true;
  raw_shards_persisted = true;
  acquires_rw_session = true;
  is_patch_update_pending = false;
}

abbrev round : Round
round = record { cfg = cfg; ctx = context 1 []; node = view; vote_status = unknown; unl = state }

abbrev met : Visit
met = record {
  collected = proposal node_a 5000 0 hash_a ∷ proposal node_b 5000 0 hash_a ∷ [];
  collected_again = [];
  required = 2;
  stage_votes = 1;
  majority_votes = 2;
  now = 5300;
  own = own;
  get_list_hash = λ hashes. h32_empty;
  in_ledger = λ hash. false;
  reported_time_config = λ q. none;
  contract_id_hash = 77;
}

visit_moves_example :
    let r = (run_stage123 met round).1 in progress r.ctx ≡ moved r.vote_status (progress round.ctx)
visit_moves_example = visit_moves met round (omega arith)

proposes_in_sync_example :
    let ((p, requests), r) = run_stage123 met round in
    ((is_synced r.vote_status ≡ false) × (has_value p ≡ false))
    ⊎ ((is_synced r.vote_status ≡ true)
        × IsMadeFrom met round p
        × All (λ (e : Bytes × Proposal). IsProper cfg round.ctx e.1) (considered met round)
        × (r.ctx.candidate_proposals ≡ considered met round))
proposes_in_sync_example = proposes_in_sync met round

uint64_from_bytes-uint64_to_bytes_example :
    uint64_from_bytes (uint64_to_bytes 4294967297 ++ 5 ∷ []) ≡ some 4294967297
uint64_from_bytes-uint64_to_bytes_example =
    uint64_from_bytes-uint64_to_bytes 4294967297 (5 ∷ []) (omega arith)
