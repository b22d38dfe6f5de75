-- ===== src/Consensus/VoteStatus/InSync.antt =====
-- When a node is in sync with the votes of its peers, and what nodes in sync have in common.
use hpcore.Base.{
  ℕ, suc, ◌^◌, ◌<◌, ◌≤◌, ◌≡◌, ◌⊎◌, inl, inr, refl, ap, true, false, List, [], ◌∷◌, length, arith,
  Ordered, bytes_keyed,
}
use hpcore.Util.SequenceHash.{H32, SequenceHash, h32_empty, h32_ne, seq_ne}
use hpcore.Util.SequenceHash.Keys.{h32_ordered, seq_ordered}
use hpcore.Consensus.Types.{Proposal}
use hpcore.Consensus.Candidates.{Proposals}
use hpcore.Consensus.Votes.{count_votes, elect}
use hpcore.Consensus.Votes.Tally.{cast_for, elect-count_votes}
use hpcore.Consensus.VoteStatus.{
  NodeView, VoteStatus, synced, reset, reported, shard_none, check_vote_status,
  check_last_primary_shard_hash_votes, check_last_raw_shard_hash_votes, check_state_votes,
  check_patch_votes,
}

abbrev pub shards : Proposals → List SequenceHash
shards = reported (λ cp. cp.last_primary_shard_id)

abbrev pub raw_shards : Proposals → List SequenceHash
raw_shards = reported (λ cp. cp.last_raw_shard_id)

abbrev pub states : Proposals → List H32
states = reported (λ cp. cp.state_hash)

abbrev pub patches : Proposals → List H32
patches = reported (λ cp. cp.patch_hash)

pub length-reported {ℓ} :
    {K : Type ℓ} (field : Proposal → K) (a : Proposals) → length (reported field a) ≡ length a
length-reported field [] = refl
length-reported field ((k, cp) ∷ a) = ap suc (length-reported field a)

seq_ne-false : (a b : SequenceHash) → seq_ne a b ≡ false → a ≡ b
unfolding seq_ne h32_ne
seq_ne-false a b h = ground arith

h32_ne-false : (a b : H32) → h32_ne a b ≡ false → a ≡ b
unfolding h32_ne
h32_ne-false a b h = ground arith

module _ {ℓ} {K : Type ℓ} (o : Ordered K) where
  -- No candidate has more votes than this one.
  abbrev pub IsMostVoted : K → List K → Type ℓ
  IsMostVoted own ks = (q : K) → cast_for o q ks ≤ cast_for o own ks

  elected-IsMostVoted :
      (ks : List K) (d own : K)
      → length ks < 2 ^ 32
      → own ≡ (elect (count_votes o ks []) d 0).0
      → IsMostVoted own ks
  elected-IsMostVoted ks d own small e q =
      let (most, known) = elect-count_votes o ks d small in
      elim known [
        | inl cast ↦ omega (arith, most q, cast, ap (λ w. cast_for o w ks) e)
        | inr (start, zero_votes) ↦ omega (arith, most q, zero_votes)
      ]

-- A check that finds no difference, taken apart.
primary_in_sync :
    (required : ℕ) (own : SequenceHash) (a : Proposals)
    → let c = check_last_primary_shard_hash_votes required own a [] in
      c.reliable ≡ true
      → c.is_desync ≡ false
      → let w = elect (count_votes seq_ordered (shards a) []) shard_none 0 in
        (own ≡ w.0) × (required ≤ w.1)
unfolding check_last_primary_shard_hash_votes
primary_in_sync required own a r d =
    let w = elect (count_votes seq_ordered (shards a) []) shard_none 0 in
    ground (arith, seq_ne-false own w.0)

abbrev pub status_of : ℕ → NodeView → Proposals → VoteStatus
status_of required node a = (check_vote_status required node a reset).status

synced_parts :
    (required : ℕ) (node : NodeView) (a : Proposals)
    → status_of required node a ≡ synced
    → let c = check_last_primary_shard_hash_votes required node.last_primary_shard_id a [] in
      (c.reliable ≡ true)
      × (c.is_desync ≡ false)
      × ((check_last_raw_shard_hash_votes node.max_raw_shards node.last_raw_shard_id a []).0
          ≡ false)
      × ((check_state_votes node.state_hash a []).0 ≡ false)
      × ((check_patch_votes node.patch_hash a []).0 ≡ false)
unfolding check_vote_status
synced_parts required node a h = ground arith

-- A node that is in sync is on the majority's side in everything it compares: the required number of
-- candidates report its last primary shard, and no shard, state hash or patch hash is reported by
-- more candidates than its own; the same holds of the raw shard of a node that keeps raw shards. The
-- votes are counted from empty tables, and there are fewer than 2^32 candidates.
pub synced_with_majority :
    (required : ℕ) (node : NodeView) (a : Proposals)
    → 0 < required
    → length a < 2 ^ 32
    → status_of required node a ≡ synced
    → (required ≤ cast_for seq_ordered node.last_primary_shard_id (shards a))
      × IsMostVoted seq_ordered node.last_primary_shard_id (shards a)
      × IsMostVoted h32_ordered node.state_hash (states a)
      × IsMostVoted h32_ordered node.patch_hash (patches a)
      × (0 < node.max_raw_shards → IsMostVoted seq_ordered node.last_raw_shard_id (raw_shards a))
synced_with_majority required node a pos small h =
    let (reliable, same, raw, state, patch) = synced_parts required node a h in
    let (own, enough) = primary_in_sync required node.last_primary_shard_id a reliable same in
    (
      quorum own enough
          (elect-count_votes seq_ordered (shards a) shard_none
            (fits (λ cp. cp.last_primary_shard_id))).1,
      elected-IsMostVoted seq_ordered (shards a) shard_none node.last_primary_shard_id
          (fits (λ cp. cp.last_primary_shard_id)) own,
      elected-IsMostVoted h32_ordered (states a) h32_empty node.state_hash
          (fits (λ cp. cp.state_hash)) (state_own state),
      elected-IsMostVoted h32_ordered (patches a) h32_empty node.patch_hash
          (fits (λ cp. cp.patch_hash)) (patch_own patch),
      λ keeps.
          elected-IsMostVoted seq_ordered (raw_shards a) shard_none node.last_raw_shard_id
            (fits (λ cp. cp.last_raw_shard_id)) (raw_own keeps raw),
    )
  where
    fits : {K : Type 0} (field : Proposal → K) → length (reported field a) < 2 ^ 32
    fits field = omega (arith, length-reported field a, small)

    winner : SequenceHash × ℕ
    winner = elect (count_votes seq_ordered (shards a) []) shard_none 0

    quorum :
        node.last_primary_shard_id ≡ winner.0
        → required ≤ winner.1
        → (winner.1 ≡ cast_for seq_ordered winner.0 (shards a))
          ⊎ ((winner.0 ≡ shard_none) × (winner.1 ≡ 0))
        → required ≤ cast_for seq_ordered node.last_primary_shard_id (shards a)
    quorum own enough (inl cast) =
        omega (arith, enough, cast, ap (λ w. cast_for seq_ordered w (shards a)) own)
    quorum own enough (inr (start, zero_votes)) = absurd (omega arith)

    state_own :
        (check_state_votes node.state_hash a []).0 ≡ false
        → node.state_hash ≡ (elect (count_votes h32_ordered (states a) []) h32_empty 0).0
    state_own e =
        h32_ne-false node.state_hash (elect (count_votes h32_ordered (states a) []) h32_empty 0).0
          (unfold check_state_votes in e)

    patch_own :
        (check_patch_votes node.patch_hash a []).0 ≡ false
        → node.patch_hash ≡ (elect (count_votes h32_ordered (patches a) []) h32_empty 0).0
    patch_own e =
        h32_ne-false node.patch_hash (elect (count_votes h32_ordered (patches a) []) h32_empty 0).0
          (unfold check_patch_votes in e)

    raw_own :
        0 < node.max_raw_shards
        → (check_last_raw_shard_hash_votes node.max_raw_shards node.last_raw_shard_id a []).0
          ≡ false
        → node.last_raw_shard_id
          ≡ (elect (count_votes seq_ordered (raw_shards a) []) shard_none 0).0
    raw_own keeps e =
        seq_ne-false node.last_raw_shard_id
          (elect (count_votes seq_ordered (raw_shards a) []) shard_none 0).0
          (unfold check_last_raw_shard_hash_votes in ground arith)
