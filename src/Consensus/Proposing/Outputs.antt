-- ===== src/Consensus/Proposing/Outputs.antt =====
-- The output hash of the proposal of stages 1 to 3.
use hpcore.Base.{
  ℕ, ◌-◌, ◌^◌, ◌<◌, ◌≤◌, ◌≡◌, ◌⊎◌, inl, inr, refl, ap, ◌&&◌, List, [], ◌∷◌, Bytes, length, arith,
  bytes_keyed, bytes_ordered, nat_ordered, Bool-cases, ltb, leb,
}
use hpcore.Util.SequenceHash.{H32}
use hpcore.Util.MerkleHashTree.{empty_hash}
use hpcore.Consensus.Types.{Context, ConsensusConfig}
use hpcore.Consensus.Votes.{Table, count_votes, elect}
use hpcore.Consensus.Votes.Tally.{
  cast_for, votes, tally_lem, count_votes-Ascending, elect_max, elect_votes, Won,
}
use hpcore.Consensus.VoteStatus.{VoteCounter, reported}
use hpcore.Consensus.VoteStatus.InSync.{length-reported}
use hpcore.Consensus.Proposing.{OwnState, elect_output, create_stage123_proposal}
use hpcore.Consensus.Proposing.Elected.{voted_outputs}

-- The election of an output hash is an election that starts just below the votes required.
elect_output_lem :
    (required : ℕ) (m : Table Bytes) (d : Bytes) (n from : ℕ)
    → ((v : ℕ) → (leb required v && ltb n v) ≡ ltb from v)
    → elect_output required m d n ≡ (elect m d from).0
unfolding elect_output elect
elect_output_lem required [] d n from h = refl
elect_output_lem required ((k, v) ∷ m) d n from h = elim (Bool-cases (ltb from v)) [
  | inl more ↦ rw (h v, more) (elect_output_lem required m k v v (λ x. ground (arith, h v, h x)))
  | inr fewer ↦ rw (h v, fewer) (elect_output_lem required m d n from h)
]

elect_from : {K : Type 0} (m : Table K) (d : K) (n : ℕ) → n ≤ (elect m d n).1
unfolding elect
elect_from [] d n = omega arith
elect_from ((k, v) ∷ m) d n = ground (arith, elect_from m k v, elect_from m d n)

elect_more :
    {K : Type 0} (m : Table K) (d : K) (n : ℕ) → (elect m d n ≡ (d, n)) ⊎ (n < (elect m d n).1)
unfolding elect
elect_more [] d n = inl refl
elect_more ((k, v) ∷ m) d n = elim (Bool-cases (ltb n v)) [
  | inl more ↦ inr (rw more (ground (arith, elect_from m k v)))
  | inr fewer ↦ rw fewer (elect_more m d n)
]

-- The output hash of the proposal of stages 1 to 3 is the empty hash if no output hash of the
-- candidates has the majority's votes; else it has them, and no other has more. The table starts
-- empty, the majority is at least one vote, and there are fewer than 2^32 candidates.
pub proposed_output :
    (get_list_hash : List Bytes → H32) (now stage_votes majority_votes : ℕ) (own : OwnState)
    (cfg : ConsensusConfig) (ctx : Context) (v : VoteCounter)
    → v.output_hash ≡ []
    → 0 < majority_votes
    → length ctx.candidate_proposals < 2 ^ 32
    → let p =
        (create_stage123_proposal get_list_hash now stage_votes majority_votes own cfg ctx v).0 in
      let cast = λ (q : Bytes).
        cast_for bytes_ordered q (reported (λ cp. cp.output_hash) ctx.candidate_proposals) in
      ((p.output_hash ≡ empty_hash) × ((q : Bytes) → cast q < majority_votes))
      ⊎ ((majority_votes ≤ cast p.output_hash) × ((q : Bytes) → cast q ≤ cast p.output_hash))
unfolding create_stage123_proposal
proposed_output get_list_hash now stage_votes majority_votes own cfg ctx v fresh pos few =
    let a = ctx.candidate_proposals in
    rw (voted_outputs now cfg ctx a v, fresh)
      (rw
        (elect_output_lem majority_votes table empty_hash 0 (majority_votes - 1)
          (λ x. ground arith))
        (decide (elect_more table empty_hash (majority_votes - 1)) (
          elect_votes bytes_ordered table empty_hash (majority_votes - 1)
            (count_votes-Ascending bytes_ordered outs [] tt))))
  where
    outs : List Bytes
    outs = reported (λ cp. cp.output_hash) ctx.candidate_proposals

    table : Table Bytes
    table = count_votes bytes_ordered outs []

    w : Bytes × ℕ
    w = elect table empty_hash (majority_votes - 1)

    tally : (q : Bytes) → votes bytes_ordered q table ≡ cast_for bytes_ordered q outs
    tally q =
        tally_lem bytes_ordered q outs
          (omega (arith, few, length-reported (λ cp. cp.output_hash) ctx.candidate_proposals))

    at_most : (q : Bytes) → cast_for bytes_ordered q outs ≤ w.1
    at_most q =
        omega (arith, tally q, (elect_max bytes_ordered table empty_hash (majority_votes - 1) q).1)

    decide :
        (w ≡ (empty_hash, majority_votes - 1)) ⊎ (majority_votes - 1 < w.1)
        → Won bytes_ordered table empty_hash (majority_votes - 1) w
        → ((w.0 ≡ empty_hash) × ((q : Bytes) → cast_for bytes_ordered q outs < majority_votes))
          ⊎ ((majority_votes ≤ cast_for bytes_ordered w.0 outs)
              × ((q : Bytes) → cast_for bytes_ordered q outs ≤ cast_for bytes_ordered w.0 outs))
    decide (inl e) known = inl (
      ap (λ (x : Bytes × ℕ). x.0) e,
      λ q. omega (arith, at_most q, ap (λ (x : Bytes × ℕ). x.1) e, pos),
    )
    decide (inr more) (inl e) = absurd (omega (arith, more, ap (λ (x : Bytes × ℕ). x.1) e))
    decide (inr more) (inr found) =
        inr
          (ground (arith, found, tally w.0, more), λ q. ground (arith, found, tally w.0, at_most q))
