-- ===== src/Tests/CommitTests.antt =====
-- A run of a commit, and the theorem on it at a concrete input.
use hpcore.Base.{◌≡◌, refl, true, [], ◌∷◌, some, arith, All}
use hpcore.Consensus.Types.{Proposal}
use hpcore.Consensus.Inputs.{Users}
use hpcore.Ledger.Chain.{Hashes, new_lcl_id}
use hpcore.Ledger.Shards.{
  prepare_shard, record_primary, insert_primary, update_primary_ledger, insert_raw,
  update_ledger_raw_data, update_ledger,
}
use hpcore.Consensus.Execution.{
  BufMap, feed_user_inputs, extract_user_outputs, execute_contract, Executor,
}
use hpcore.Consensus.Commit.{
  apply_consensed_patch_file_changes, finish_commit, PatchCalls, NodeState, Announced, CommitCalls,
  commit_consensus_results,
}
use hpcore.Consensus.Execution.Signed.{AreSigned}
use hpcore.Consensus.Commit.Results.{IsAhead, commit_lem}
use hpcore.Tests.ConsensusTests.{hash_a, hash_b, node_a, proposal, cfg, context}
use hpcore.Tests.LedgerTests.{history, calls, filled}

abbrev hashes : Hashes
hashes = record { blake3 = λ s. s; get_hash = λ h s. hash_b }

-- A contract that answers the user of a key of 7, and signs with a key of 9.
abbrev executor : Executor
executor = record {
  execute = true;
  run = λ time lcl_id bufmap.
      some ((7 ∷ [], record { inputs = []; outputs = (1 ∷ []) ∷ [] }) ∷ [], hash_b);
  sign = λ m. 9 ∷ m;
}

abbrev patch_calls : PatchCalls
patch_calls = record {
  session_started = true;
  config_applied = true;
  session_stopped = true;
  patched = cfg;
  contract_id_hash = 5;
}

abbrev commit_calls : CommitCalls
commit_calls = record {
  hashes = hashes;
  history = history;
  ledger_session = (true, true);
  primary = calls;
  raw = calls;
  patch = patch_calls;
  executor = executor;
  connected = [];
}

abbrev node_state : NodeState
node_state = record {
  cfg = cfg;
  ctx = context 0 [];
  ledger = filled;
  state_hash = hash_a;
  patch_hash = hash_a;
  is_patch_update_pending = true;
}

abbrev closing : Proposal
closing = proposal node_a 5000 3 hash_a

abbrev users : Users
users =
    (
      7 ∷ [],
      record { consensed_inputs = []; consensed_outputs = record { hash = []; outputs = [] } },
    )
    ∷ []

ledger_updated :
    (update_ledger hashes history (true, true) calls calls closing users filled).0 ≡ true
unfolding update_ledger update_primary_ledger prepare_shard insert_primary record_primary
    update_ledger_raw_data insert_raw new_lcl_id
ledger_updated = refl

finish_succeeds :
    (said : Announced) (n : NodeState) → (finish_commit commit_calls closing users said n).0 ≡ true
unfolding finish_commit apply_consensed_patch_file_changes execute_contract
finish_succeeds said n = ground arith

commit_succeeds : (commit_consensus_results commit_calls closing users node_state).0 ≡ true
unfolding commit_consensus_results
commit_succeeds = rw (ledger_updated, finish_succeeds)

commit_lem_example :
    let n' = (commit_consensus_results commit_calls closing users node_state).2 in
    ((bufmap : BufMap) × (executor.run 5000 n'.ledger.lcl_id (feed_user_inputs users [])
        ≡ some (bufmap, n'.state_hash))
      × (n'.ctx.generated_user_outputs ≡ extract_user_outputs hashes bufmap [])
      × AreSigned hashes executor.sign n'.state_hash n'.ctx)
    × All (IsAhead n'.ledger.lcl_id.seq_no) n'.ctx.candidate_user_inputs
commit_lem_example =
    commit_lem commit_calls closing users node_state commit_succeeds refl refl (omega arith)
