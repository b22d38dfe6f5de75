-- ===== src/Consensus/VoteStatus/Agreement.antt =====
-- Nodes in sync are on the same last primary shard.
use hpcore.Base.{
  ℕ, ◌+◌, ◌^◌, ◌<◌, ◌≡◌, refl, true, List, [], ◌∷◌, Bytes, some, length, count, arith, equivalent,
  find, Distinct, bytes_keyed,
}
use hpcore.Util.SequenceHash.{SequenceHash}
use hpcore.Util.SequenceHash.Keys.{h32_ordered, seq_ordered, equivalent-seq_ordered}
use hpcore.Consensus.Types.{Proposal}
use hpcore.Consensus.Candidates.{Proposals}
use hpcore.Consensus.Votes.Tally.{cast_for}
use hpcore.Consensus.Votes.Quorum.{Within, quorums_meet}
use hpcore.Consensus.VoteStatus.{NodeView, synced}
use hpcore.Consensus.VoteStatus.InSync.{shards, status_of, synced_with_majority}

cast-reported :
    (own : SequenceHash) (a : Proposals)
    → cast_for seq_ordered own (shards a)
      ≡ count (λ e. equivalent seq_ordered (e.1).last_primary_shard_id own) a
cast-reported own [] = refl
cast-reported own ((k, cp) ∷ a) = ground (arith, cast-reported own a)

-- Two nodes with the same UNL that are both in sync, and whose quorums together are more than the
-- UNL, are on last primary shards that are the same key (number and first eight bytes of the hash),
-- if no member reports different shards to the two.
pub synced_agreement :
    (required_a required_b : ℕ) (node_a node_b : NodeView) (unl : List Bytes) (a b : Proposals)
    → 0 < required_a
    → 0 < required_b
    → length unl < required_a + required_b
    → length a < 2 ^ 32
    → length b < 2 ^ 32
    → Distinct a
    → Within unl a
    → Distinct b
    → Within unl b
    → ((u : Bytes) (v w : Proposal)
        → find u a ≡ some v
        → find u b ≡ some w
        → v.last_primary_shard_id ≡ w.last_primary_shard_id)
    → status_of required_a node_a a ≡ synced
    → status_of required_b node_b b ≡ synced
    → (node_a.last_primary_shard_id.seq_no ≡ node_b.last_primary_shard_id.seq_no)
      × (node_a.last_primary_shard_id.hash.word0 ≡ node_b.last_primary_shard_id.hash.word0)
synced_agreement required_a required_b node_a node_b unl a b pos_a pos_b many small_a small_b da wa
      db wb honest ha hb =
    let own_a = node_a.last_primary_shard_id in
    let own_b = node_b.last_primary_shard_id in
    let (u, v, w, (found_a, for_a), (found_b, for_b)) =
      quorums_meet (λ cp. equivalent seq_ordered cp.last_primary_shard_id own_a)
        (λ cp. equivalent seq_ordered cp.last_primary_shard_id own_b) a b unl da wa db wb
        (omega (
          arith,
          many,
          (synced_with_majority required_a node_a a pos_a small_a ha).0,
          (synced_with_majority required_b node_b b pos_b small_b hb).0,
          cast-reported own_a a,
          cast-reported own_b b,
        )) in
    keys v w own_a own_b (honest u v w found_a found_b) for_a for_b
  where
    keys :
        (v w : Proposal) (x y : SequenceHash)
        → v.last_primary_shard_id ≡ w.last_primary_shard_id
        → equivalent seq_ordered v.last_primary_shard_id x ≡ true
        → equivalent seq_ordered w.last_primary_shard_id y ≡ true
        → (x.seq_no ≡ y.seq_no) × (x.hash.word0 ≡ y.hash.word0)
    keys v w x y same p q =
        let (to_x, from_x) = equivalent-seq_ordered v.last_primary_shard_id x in
        let (to_y, from_y) = equivalent-seq_ordered w.last_primary_shard_id y in
        (ground (arith, to_x p, to_y q, same), ground (arith, to_x p, to_y q, same))
