-- ===== src/Consensus/Candidates.antt =====
-- src/consensus.cpp: `revise_candidate_proposals`, which moves the proposals that have arrived into
-- the candidate set and drops those that are out of date. Reporting the batch and the statistics of
-- the UNL, which read the same collected proposals, are not part of the candidate set.
pub mod Freshness
use hpcore.Base.{
  ℕ, ◌-◌, Bool, true, false, not, ◌&&◌, ◌||◌, ◌++◌, List, [], ◌∷◌, Option, none, some, Bytes, find,
  put, erase, remove_if, select, ltb, leb, ◌==◌, if◌then◌else◌, bytes_keyed, sub64,
}
use hpcore.Consensus.Types.{Proposal, Context, ConsensusConfig}

abbrev pub Proposals : Type 0
Proposals = List (Bytes × Proposal)

-- The existing proposal of the node is of a later stage of the same round, or of a later round.
is_older : Proposal → Option Proposal → Bool
is_older p none = false
is_older p (some existing) =
    ((p.time == existing.time) && ltb p.stage existing.stage) || ltb p.time existing.time

-- The collected proposals without those that are older than the candidate of their node.
unfoldable pub prune_collected : Proposals → List Proposal → List Proposal
unfolding is_older
prune_collected candidates collected =
    select (λ p. not (is_older p (find p.pubkey candidates))) collected

-- `erase` and `emplace` for each collected proposal, in the order of arrival.
unfoldable pub move_collected : List Proposal → Proposals → Proposals
move_collected [] candidates = candidates
move_collected (p ∷ ps) candidates =
    move_collected ps (erase p.pubkey candidates ++ (p.pubkey, p) ∷ [])

-- Whether a candidate may be used at the current stage.
unfoldable pub keep_candidate : Bool → ConsensusConfig → Context → Proposal → Bool
keep_candidate in_sync cfg ctx cp =
    leb cp.time ctx.round_start_time
    && leb (ctx.round_start_time - cp.time) cfg.roundtime
    && (not in_sync
        || (if ctx.round_start_time == cp.time
            then leb cp.stage ctx.stage && leb (ctx.stage - cp.stage) 1
            else (ctx.stage == 0) && (cp.stage == 3)))

unfoldable pub revise_candidate_proposals :
    Bool → ConsensusConfig → List Proposal → Context → Context
unfolding prune_collected
revise_candidate_proposals in_sync cfg collected ctx =
    let moved =
      move_collected (prune_collected ctx.candidate_proposals collected) ctx.candidate_proposals in
    record ctx {
      candidate_proposals = remove_if (λ cp. not (keep_candidate in_sync cfg ctx cp)) moved;
    }
