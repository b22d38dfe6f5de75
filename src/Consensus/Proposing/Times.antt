-- ===== src/Consensus/Proposing/Times.antt =====
-- The time of the proposal of stages 1 to 3.
use hpcore.Base.{
  map_emplace, map_put, put, Option-cases, wrap32, ◌*◌, ℕ, ◌+◌, ◌^◌, ◌<◌, ◌≤◌, ◌≡◌, ◌⊎◌, inl, inr,
  refl, true, List, [], ◌∷◌, Bytes, arith, equivalent, bytes_keyed, bytes_ordered, nat_ordered,
  map_find, Bool-cases, ltb,
}
use hpcore.Util.SequenceHash.{H32}
use hpcore.Consensus.Types.{Context, ConsensusConfig}
use hpcore.Consensus.Candidates.{Proposals}
use hpcore.Consensus.Votes.{Table, increment, elect}
use hpcore.Consensus.VoteStatus.{VoteCounter}
use hpcore.Consensus.Proposing.{
  OwnState, votable_time, vote_for, vote_for_all, create_stage123_proposal,
}

-- Every time in a table may be voted for.
abbrev AllVotable : ℕ → ConsensusConfig → Table ℕ → Type 0
AllVotable now cfg [] = Unit
AllVotable now cfg ((time, n) ∷ table) =
    (votable_time now cfg time ≡ true) × AllVotable now cfg table

module _ (now : ℕ) (cfg : ConsensusConfig) where
  emplace-AllVotable :
      (time n : ℕ) (t : Table ℕ)
      → votable_time now cfg time ≡ true
      → AllVotable now cfg t
      → AllVotable now cfg (map_emplace nat_ordered time n t)
  unfolding map_emplace
  emplace-AllVotable time n [] h a = (h, tt)
  emplace-AllVotable time n ((k, v) ∷ t) h a = elim (Bool-cases (ltb time k)) [
    | inl below ↦ rw below (h, a)
    | inr other ↦ elim (Bool-cases (ltb k time)) [
      | inl above ↦ rw (other, above) (a.0, emplace-AllVotable time n t h a.1)
      | inr same ↦ rw (other, same) a
    ]
  ]

  put-AllVotable :
      (time n : ℕ) (t : Table ℕ)
      → votable_time now cfg time ≡ true
      → AllVotable now cfg t
      → AllVotable now cfg (map_put nat_ordered time n t)
  unfolding put
  put-AllVotable time n [] h a = (h, tt)
  put-AllVotable time n ((k, v) ∷ t) h a = elim (Bool-cases (equivalent nat_ordered k time)) [
    | inl same ↦ rw same a
    | inr other ↦ rw other (a.0, put-AllVotable time n t h a.1)
  ]

  increment-AllVotable :
      (time : ℕ) (t : Table ℕ)
      → votable_time now cfg time ≡ true
      → AllVotable now cfg t
      → AllVotable now cfg (increment nat_ordered time t)
  unfolding increment
  increment-AllVotable time t h a = elim (Option-cases (map_find nat_ordered time t)) [
    | inl absent ↦ rw absent (emplace-AllVotable time 1 t h a)
    | inr (n, present) ↦ rw present (put-AllVotable time (wrap32 (n + 1)) t h a)
  ]

  vote_for_all-AllVotable :
      (ctx : Context) (a : Proposals) (v : VoteCounter)
      → AllVotable now cfg v.time
      → AllVotable now cfg (vote_for_all now cfg ctx a v).time
  unfolding vote_for_all vote_for
  vote_for_all-AllVotable ctx [] v h = h
  vote_for_all-AllVotable ctx ((k, cp) ∷ a) v h = elim (Bool-cases (votable_time now cfg cp.time)) [
    | inl fits ↦
        vote_for_all-AllVotable ctx a (vote_for now cfg ctx cp v)
          (rw fits (increment-AllVotable cp.time v.time fits h))
    | inr late ↦ vote_for_all-AllVotable ctx a (vote_for now cfg ctx cp v) (rw late h)
  ]

  elect-AllVotable :
      (t : Table ℕ) (d n : ℕ)
      → AllVotable now cfg t
      → ((elect t d n).0 ≡ d) ⊎ (votable_time now cfg (elect t d n).0 ≡ true)
  unfolding elect
  elect-AllVotable [] d n a = inl refl
  elect-AllVotable ((k, v) ∷ t) d n a =
      ground (arith, a.0, elect-AllVotable t k v a.1, elect-AllVotable t d n a.1)

-- The time of the proposal of stages 1 to 3 is the start of the round, or a time in the past that is
-- no more than two round times ago. The table of times starts empty.
pub proposed_time :
    (get_list_hash : List Bytes → H32) (now stage_votes majority_votes : ℕ) (own : OwnState)
    (cfg : ConsensusConfig) (ctx : Context) (v : VoteCounter)
    → v.time ≡ []
    → cfg.roundtime < 2 ^ 31
    → let p =
        (create_stage123_proposal get_list_hash now stage_votes majority_votes own cfg ctx v).0 in
      (p.time ≡ ctx.round_start_time) ⊎ ((p.time < now) × (now ≤ p.time + cfg.roundtime * 2))
unfolding create_stage123_proposal
proposed_time get_list_hash now stage_votes majority_votes own cfg ctx v fresh short =
    let t = (vote_for_all now cfg ctx ctx.candidate_proposals v).time in
    let start : AllVotable now cfg v.time = rw fresh tt in
    ground (
      arith,
      elect-AllVotable now cfg t 0 0
          (vote_for_all-AllVotable now cfg ctx ctx.candidate_proposals v start),
    )
