-- ===== src/Consensus/VoteStatus/Desync.antt =====
-- Unreliable votes, and what a node that is out of sync asks for.
use hpcore.Base.{
  ℕ, ◌^◌, ◌<◌, ◌≤◌, ◌≡◌, ◌↔◌, ◌⊎◌, inl, inr, false, ◌&&◌, [], length, count-le-length, arith,
  equivalent, bytes_keyed,
}
use hpcore.Util.SequenceHash.{SequenceHash}
use hpcore.Util.SequenceHash.Keys.{h32_ordered, seq_ordered}
use hpcore.Consensus.Candidates.{Proposals}
use hpcore.Consensus.Votes.{count_votes, elect}
use hpcore.Consensus.Votes.Tally.{cast_for, elect-count_votes}
use hpcore.Consensus.VoteStatus.{
  NodeView, unreliable, desync, reset, shard_none, check_vote_status,
  check_last_primary_shard_hash_votes, hpfs_requests,
}
use hpcore.Consensus.VoteStatus.InSync.{shards, status_of, length-reported}

-- The status is unreliable if there are too few candidates or votes, and only then.
unreliable_parts :
    (required : ℕ) (node : NodeView) (a : Proposals)
    → let w = elect (count_votes seq_ordered (shards a) []) shard_none 0 in
      (status_of required node a ≡ unreliable → (length a < required) ⊎ (w.1 < required))
      × ((length a < required) ⊎ (w.1 < required) → status_of required node a ≡ unreliable)
unfolding check_vote_status check_last_primary_shard_hash_votes
unreliable_parts required node a = (λ h. ground arith, λ h. ground arith)

unreliable_idle :
    (required : ℕ) (node : NodeView) (a : Proposals)
    → status_of required node a ≡ unreliable
    → ((check_vote_status required node a reset).requests ≡ [])
      × ((check_vote_status required node a reset).node ≡ node)
unfolding check_vote_status
unreliable_idle required node a h = (ground arith, ground arith)

-- The votes are unreliable exactly when no shard is reported by the required number of candidates,
-- which is so too when there are too few candidates; nothing is then requested and the node is left
-- as it is. The votes are counted from empty tables.
pub unreliable_lem :
    (required : ℕ) (node : NodeView) (a : Proposals)
    → 0 < required
    → length a < 2 ^ 32
    → ((status_of required node a ≡ unreliable)
        ↔ ((q : SequenceHash) → cast_for seq_ordered q (shards a) < required))
      × (status_of required node a ≡ unreliable
          → ((check_vote_status required node a reset).requests ≡ [])
            × ((check_vote_status required node a reset).node ≡ node))
unreliable_lem required node a pos small = (
  (
    λ h. few ((unreliable_parts required node a).0 h),
    λ h. (unreliable_parts required node a).1 (lacking h tally.1),
  ),
  unreliable_idle required node a,
)
  where
    w : SequenceHash × ℕ
    w = elect (count_votes seq_ordered (shards a) []) shard_none 0

    tally :
        ((q : SequenceHash) → cast_for seq_ordered q (shards a) ≤ w.1)
        × ((w.1 ≡ cast_for seq_ordered w.0 (shards a)) ⊎ ((w.0 ≡ shard_none) × (w.1 ≡ 0)))
    tally =
        elect-count_votes seq_ordered (shards a) shard_none
          (omega (arith, small, length-reported (λ cp. cp.last_primary_shard_id) a))

    few :
        (length a < required) ⊎ (w.1 < required)
        → (q : SequenceHash) → cast_for seq_ordered q (shards a) < required
    few (inl short) q = omega (
      arith,
      short,
      count-le-length (λ k. equivalent seq_ordered k q) (shards a),
      length-reported (λ cp. cp.last_primary_shard_id) a,
    )
    few (inr short) q = omega (arith, short, tally.0 q)

    lacking :
        ((q : SequenceHash) → cast_for seq_ordered q (shards a) < required)
        → (w.1 ≡ cast_for seq_ordered w.0 (shards a)) ⊎ ((w.0 ≡ shard_none) × (w.1 ≡ 0))
        → (length a < required) ⊎ (w.1 < required)
    lacking h (inl cast) = inr (omega (arith, cast, h w.0))
    lacking h (inr (start, none_cast)) = inr (omega (arith, none_cast, pos))

-- A node that is out of sync asks for what it lacks: some request is made, unless it keeps the full
-- history and is still syncing its last primary shard.
pub desync_asks :
    (required : ℕ) (node : NodeView) (a : Proposals)
    → (node.full_history && node.is_last_primary_shard_syncing) ≡ false
    → status_of required node a ≡ desync
    → 0 < length (check_vote_status required node a reset).requests
unfolding check_vote_status hpfs_requests
desync_asks required node a idle h = ground arith
