-- ===== src/Consensus/Round.antt =====
-- src/consensus.cpp: stages 1, 2 and 3 of `consensus`, and `dispatch_synced_ledger_input_statuses`. A
-- visit revises the candidates, checks whether the node is in sync, and proposes when it is. The
-- proposals that have arrived, the votes that are asked for, the clock and what the ledger holds are
-- arguments. Stage 0, which closes the ledger, is not part of this module.
pub mod Stages
pub mod Pruned
use hpcore.Base.{
  ℕ, suc, ◌+◌, ◌%◌, ◌^◌, Bool, true, false, not, ◌&&◌, ◌++◌, List, [], ◌∷◌, Option, none, some,
  Bytes, ltb, leb, ◌==◌, if◌then◌else◌, select,
}
use hpcore.Util.SequenceHash.{H32}
use hpcore.Consensus.Types.{Proposal, Context, ConsensusConfig, CandidateUserInput}
use hpcore.Consensus.Timing.{refresh_time_config}
use hpcore.Consensus.Candidates.{revise_candidate_proposals}
use hpcore.Consensus.VoteStatus.{
  VoteStatus, unknown, unreliable, desync, synced, VoteCounter, reset, NodeView, StatusCheck,
  SyncRequest, check_vote_status,
}
use hpcore.Consensus.Proposing.{OwnState, create_stage123_proposal}
use hpcore.Consensus.Inputs.{hash_suffix, cleanup_output_collections}
use hpcore.Unl.{Unl, get_majority_time_config}

-- The state of the node that a visit reads and changes.
pub record Round : Type 0 where
  pub cfg : ConsensusConfig
  pub ctx : Context
  pub node : NodeView
  pub vote_status : VoteStatus
  pub unl : Unl

-- What a visit meets: the proposals that have arrived, those that arrive before a second check, the
-- votes required for the check, for the stage and for a majority, the clock, what the node proposes of
-- itself, the hash of a list, the inputs in the synced ledger, what peers report of the time
-- configuration, and the hash of the contract id.
pub record Visit : Type 0 where
  pub collected : List Proposal
  pub collected_again : List Proposal
  pub required : ℕ
  pub stage_votes : ℕ
  pub majority_votes : ℕ
  pub now : ℕ
  pub own : OwnState
  pub get_list_hash : List Bytes → H32
  pub in_ledger : Bytes → Bool
  pub reported_time_config : Bytes → Option ℕ
  pub contract_id_hash : ℕ

abbrev pub is_synced : VoteStatus → Bool
is_synced unknown = false
is_synced unreliable = false
is_synced desync = false
is_synced synced = true

abbrev pub is_desync : VoteStatus → Bool
is_desync unknown = false
is_desync unreliable = false
is_desync desync = true
is_desync synced = false

-- What the check of the votes leaves.
pub record Checked : Type 0 where
  pub status : VoteStatus
  pub votes : VoteCounter
  pub node : NodeView
  pub requests : List SyncRequest
  pub ctx : Context

abbrev pub checked : List SyncRequest → StatusCheck → Context → Checked
checked before k ctx = record {
  status = k.status;
  votes = k.votes;
  node = k.node;
  requests = before ++ k.requests;
  ctx = ctx;
}

-- The check, and a second one after a proper pruning when the node has just got in sync.
unfoldable pub check_votes : Bool → Visit → ConsensusConfig → NodeView → Context → Checked
check_votes was_in_sync v cfg node ctx =
    let k = check_vote_status v.required node ctx.candidate_proposals reset in
    let pruned = revise_candidate_proposals true cfg v.collected_again ctx in
    let again = check_vote_status v.required k.node pruned.candidate_proposals reset in
    if not was_in_sync && is_synced k.status
    then checked k.requests again pruned
    else checked [] k ctx

-- The inputs that have got into the ledger while we were syncing are held no more. Their users are told.
unfoldable pub dispatch_synced_ledger_input_statuses : (Bytes → Bool) → Context → Context
dispatch_synced_ledger_input_statuses in_ledger ctx = record ctx {
  candidate_user_inputs = select (λ e. not (in_ledger (hash_suffix e.0))) ctx.candidate_user_inputs;
}

-- A sync cycle starts when the node finds itself out of sync.
abbrev pub start_sync_cycle : VoteStatus → Context → Context
start_sync_cycle status ctx =
    if is_desync status && not ctx.sync_ongoing
    then record (cleanup_output_collections ctx) { sync_ongoing = true }
    else ctx

abbrev pub restore_context : Bool → (Bytes → Bool) → VoteStatus → Context → Context
restore_context was_in_sync in_ledger status ctx =
    if not was_in_sync && is_synced status && ctx.sync_ongoing
    then dispatch_synced_ledger_input_statuses in_ledger ctx
    else ctx

abbrev pub max_unreliable_votes_attempts : ℕ
max_unreliable_votes_attempts = 5

-- After too many unreliable votes in a row the time configuration of the majority is taken.
unfoldable pub count_unreliable : Visit → Round → Round
count_unreliable v r =
    let attempts = (r.ctx.unreliable_votes_attempts + 1) % 2 ^ 16 in
    let ctx = record r.ctx { stage = 0; unreliable_votes_attempts = attempts } in
    let (majority, unl) = get_majority_time_config v.reported_time_config r.unl in
    let (cfg, ctx') = refresh_time_config true majority v.contract_id_hash (r.cfg, ctx) in
    if leb max_unreliable_votes_attempts attempts
    then record r { cfg = cfg; ctx = record ctx' { unreliable_votes_attempts = 0 }; unl = unl }
    else record r { ctx = ctx }

-- A sync cycle ends at stage 1.
abbrev pub end_sync_cycle : Context → Context
end_sync_cycle ctx =
    if (ctx.stage == 1) && ctx.sync_ongoing then record ctx { sync_ongoing = false } else ctx

unfoldable pub propose : Visit → VoteCounter → Round → Option Proposal × Round
propose v votes r =
    let (p, ctx, counted) =
      create_stage123_proposal v.get_list_hash v.now v.stage_votes v.majority_votes v.own r.cfg
        r.ctx votes in
    (some p, record r { ctx = end_sync_cycle ctx })

abbrev pub clear_attempts : Round → Round
clear_attempts r = record r { ctx = record r.ctx { unreliable_votes_attempts = 0 } }

unfoldable pub act : VoteStatus → Visit → VoteCounter → Round → Option Proposal × Round
act unreliable v votes r = (none, count_unreliable v r)
act synced v votes r = propose v votes (clear_attempts r)
act desync v votes r = (none, clear_attempts r)
act unknown v votes r = (none, clear_attempts r)

abbrev pub next_stage : Round → Round
next_stage r = record r { ctx = record r.ctx { stage = (r.ctx.stage + 1) % 4 } }

-- The round once the votes are checked and the new status is set.
abbrev pub settle : Bool → Visit → Checked → Round → Round
settle was_in_sync v k r = record r {
  ctx = restore_context was_in_sync v.in_ledger k.status (start_sync_cycle k.status k.ctx);
  node = k.node;
  vote_status = k.status;
}

-- Stages 1, 2 and 3 of `consensus`, once the candidates are revised: the proposal that is broadcast, the
-- requests for the sync workers, and the round.
unfoldable pub finish_stage123 : Bool → Visit → Round → (Option Proposal × List SyncRequest) × Round
finish_stage123 was_in_sync v r =
    let k = check_votes was_in_sync v r.cfg r.node r.ctx in
    let (p, r') = act k.status v k.votes (settle was_in_sync v k r) in
    ((p, k.requests), next_stage r')

-- The candidates are revised by the rules for a node that was or was not in sync.
unfoldable pub run_stage123 : Visit → Round → (Option Proposal × List SyncRequest) × Round
run_stage123 v r =
    let was_in_sync = is_synced r.vote_status in
    let revised = revise_candidate_proposals was_in_sync r.cfg v.collected r.ctx in
    finish_stage123 was_in_sync v (record r { ctx = revised })
