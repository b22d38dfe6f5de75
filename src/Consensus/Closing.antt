-- ===== src/Consensus/Closing.antt =====
-- src/consensus.cpp: how `attempt_ledger_close` decides whether the ledger is closed, and with which
-- proposal. What is done with that proposal is not part of this module.
pub mod Grouping
pub mod Agreement
use hpcore.Base.{
  ℕ, ◌+◌, ◌*◌, ◌/◌, ◌++◌, List, [], ◌∷◌, Option, none, some, Bytes, select, length, ltb, ◌==◌,
  if◌then◌else◌, map_find, map_put, map_emplace,
}
use hpcore.Util.SequenceHash.{H32, h32_empty}
use hpcore.Util.SequenceHash.Keys.{h32_ordered}
use hpcore.Consensus.Types.{Proposal}
use hpcore.Consensus.Candidates.{Proposals}
use hpcore.Consensus.Votes.{Table, elect}

abbrev pub Groups : Type 0
Groups = List (H32 × List Proposal)

push_at : H32 → Proposal → Option (List Proposal) → Groups → Groups
push_at hash p none groups = map_emplace h32_ordered hash (p ∷ []) groups
push_at hash p (some ps) groups = map_put h32_ordered hash (ps ++ p ∷ []) groups

-- `proposal_groups[p.root_hash].push_back(p)`.
unfoldable pub push : Proposal → Groups → Groups
unfolding push_at
push p groups = push_at p.root_hash p (map_find h32_ordered p.root_hash groups) groups

-- The stage 3 proposals among the candidates, in the order in which they are walked.
abbrev pub stage3_proposals : Proposals → List Proposal
stage3_proposals [] = []
stage3_proposals ((pubkey, cp) ∷ rest) =
    let others = stage3_proposals rest in if cp.stage == 3 then cp ∷ others else others

unfoldable pub group_all : List Proposal → Groups → Groups
group_all [] groups = groups
group_all (p ∷ ps) groups = group_all ps (push p groups)

abbrev pub sizes : Groups → Table H32
sizes [] = []
sizes ((hash, ps) ∷ groups) = (hash, length ps) ∷ sizes groups

-- `ceil((threshold * unl_count) / 100.0)`, which is exact: the product is far below 2^53.
abbrev pub min_votes_required : ℕ → ℕ → ℕ
min_votes_required threshold unl_count = (threshold * unl_count + 99) / 100

-- Not enough stage 3 proposals, no majority among them, or the proposal to close the ledger with.
-- The last is the front of an empty group, which exists if no vote is required.
pub data Decision : Type 0 where
  not_enough fork : Decision
  close_with : Proposal → Decision
  empty_group : Decision

front : Option (List Proposal) → Decision
front none = empty_group
front (some []) = empty_group
front (some (p ∷ ps)) = close_with p

unfoldable pub decide_close : ℕ → ℕ → Proposals → Decision
unfolding front
decide_close threshold unl_count candidates =
    let stage3 = stage3_proposals candidates in
    let groups = group_all stage3 [] in
    let required = min_votes_required threshold unl_count in
    let (winning_hash, winning_votes) = elect (sizes groups) h32_empty 0 in
    if ltb (length stage3) required
    then not_enough
    else if ltb winning_votes required
    then fork
    else front (map_find h32_ordered winning_hash groups)
