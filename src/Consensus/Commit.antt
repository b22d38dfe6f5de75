-- ===== src/Consensus/Commit.antt =====
-- src/consensus.cpp: `commit_consensus_results` and `attempt_ledger_close`. The ledger is that of
-- Ledger.Shards. Reading the patch file is an argument. The update of the UNL that follows a patch is a
-- result.
pub mod Results
use hpcore.Base.{
  ℕ, ◌+◌, Bool, true, false, not, ◌&&◌, ◌||◌, ◌++◌, List, [], ◌∷◌, Option, none, some, Bytes,
  is_nil, length, if◌then◌else◌, find, keys, map, map_emplace, bytes_keyed, bytes_ordered,
}
use hpcore.Util.SequenceHash.{H32, SequenceHash, h32_empty, h32_eq}
use hpcore.Util.BufferStore.{BufferView}
use hpcore.Util.MerkleHashTree.{Node, MerkleHashTree, populate, root_hash, collapse}
use hpcore.Usr.Inputs.{InputStatusResponse}
use hpcore.Usr.Users.{ConnectedUser}
use hpcore.Consensus.Types.{
  Proposal, Context, ConsensusConfig, ConsensedUser, ConsensedUserInput, GeneratedUserOutput,
}
use hpcore.Consensus.Timing.{refresh_time_config}
use hpcore.Consensus.Proposing.{to_string_view}
use hpcore.Consensus.Inputs.{
  Users, Expiry, hash_suffix, expire_candidate_inputs, cleanup_consensed_user_inputs,
  cleanup_output_collections, prepare_consensed_users,
}
use hpcore.Consensus.Closing.{Decision, close_with, decide_close}
use hpcore.Ledger.Chain.{Hashes, get_list_hash}
use hpcore.Ledger.Shards.{HistoryConfig, ShardCalls, LedgerState, update_ledger}
use hpcore.Consensus.Execution.{
  ContractBufs, BufMap, view_of, feed_user_inputs, extract_user_outputs, or_else, sign_outputs, Run,
  Executor, finish_run, execute_contract,
}
use hpcore.Consensus.Dispatch.{
  accepted, consensed_responses, OutputMessage, output_to, consensed_outputs,
}

-- What the calls for the patch file answer, and the configuration that it holds.
pub record PatchCalls : Type 0 where
  pub session_started : Bool
  pub config_applied : Bool
  pub session_stopped : Bool
  pub patched : ConsensusConfig
  pub contract_id_hash : ℕ

-- The part of the node that a commit changes. The patch is pending or not.
pub record NodeState : Type 0 where
  pub cfg : ConsensusConfig
  pub ctx : Context
  pub ledger : LedgerState
  pub state_hash : H32
  pub patch_hash : H32
  pub is_patch_update_pending : Bool

-- With the new configuration the UNL is updated too, which is told by the second result.
unfoldable pub apply_consensed_patch_file_changes :
    PatchCalls → H32 → NodeState → Bool × Bool × NodeState
apply_consensed_patch_file_changes calls prop_patch_hash n =
    let (cfg, ctx) = refresh_time_config false 0 calls.contract_id_hash (calls.patched, n.ctx) in
    let applied = record n { cfg = cfg; ctx = ctx; is_patch_update_pending = false } in
    if not (n.is_patch_update_pending && h32_eq n.patch_hash prop_patch_hash)
    then (true, false, n)
    else if not calls.session_started
    then (calls.session_stopped, false, n)
    else if not calls.config_applied
    then (false, false, n)
    else (calls.session_stopped, true, applied)

pub record CommitCalls : Type 0 where
  pub hashes : Hashes
  pub history : HistoryConfig
  pub ledger_session : Bool × Bool
  pub primary : ShardCalls
  pub raw : ShardCalls
  pub patch : PatchCalls
  pub executor : Executor
  pub connected : List (Bytes × ConnectedUser)

-- What goes out: the rejections of expired inputs, the acceptances, the outputs, and whether the UNL is
-- to be updated.
pub record Announced : Type 0 where
  pub expired : List (Bytes × List Bytes)
  pub responses : List (Bytes × List InputStatusResponse)
  pub messages : List OutputMessage
  pub unl_update : Bool

abbrev pub silence : Announced
silence = record { expired = []; responses = []; messages = []; unl_update = false }

-- From the patch on: nothing is executed if it failed.
unfoldable pub finish_commit :
    CommitCalls → Proposal → Users → Announced → NodeState → Bool × Announced × NodeState
finish_commit k p consensed_users said n =
    let (ok, unl_update, n') = apply_consensed_patch_file_changes k.patch p.patch_hash n in
    let said' = record said { unl_update = unl_update } in
    let (ran, state_hash, ctx) =
      execute_contract k.hashes k.executor p.time consensed_users n'.ledger.lcl_id
        (n'.state_hash, n'.ctx) in
    if ok
    then (ran, said', record n' { ctx = ctx; state_hash = state_hash })
    else (false, said', n')

-- Whether it succeeded, what goes out, and the node.
unfoldable pub commit_consensus_results :
    CommitCalls → Proposal → Users → NodeState → Bool × Announced × NodeState
commit_consensus_results k p consensed_users n =
    let (written, ledger) =
      update_ledger k.hashes k.history k.ledger_session k.primary k.raw p consensed_users
        n.ledger in
    let lcl_id = ledger.lcl_id in
    let (expiry, ctx) = expire_candidate_inputs lcl_id.seq_no n.ctx in
    let said : Announced = record {
      expired = expiry.rejections;
      responses = consensed_responses consensed_users;
      messages = consensed_outputs lcl_id ctx k.connected consensed_users;
      unl_update = false;
    } in
    let finished =
      finish_commit k p consensed_users said
        (record n { ctx = cleanup_output_collections ctx; ledger = ledger }) in
    if written then finished else (false, silence, record n { ledger = ledger })

-- After a failure the outputs of the round are forgotten, and the inputs' buffers released.
abbrev pub close_with_users :
    CommitCalls → Proposal → Bool × Users × Context → NodeState → Announced × NodeState
close_with_users k p (prepared, users, ctx) n =
    let n' = record n { ctx = ctx } in
    let (ok, said, n'') = commit_consensus_results k p users n' in
    if not prepared
    then (silence, record n' { ctx = cleanup_output_collections ctx })
    else if ok
    then (said, n'')
    else (said, record n'' { ctx = cleanup_output_collections n''.ctx })

-- The source takes the front of the winning group. Of an empty one that is undefined; here nothing is done.
abbrev pub close_by : CommitCalls → Decision → NodeState → Announced × NodeState
close_by k (close_with p) n = close_with_users k p (prepare_consensed_users p [] n.ctx) n
close_by k Decision.not_enough n = (silence, n)
close_by k Decision.fork n = (silence, n)
close_by k Decision.empty_group n = (silence, n)

unfoldable pub attempt_ledger_close : CommitCalls → ℕ → ℕ → NodeState → Announced × NodeState
attempt_ledger_close k threshold unl_count n =
    close_by k (decide_close threshold unl_count n.ctx.candidate_proposals) n
