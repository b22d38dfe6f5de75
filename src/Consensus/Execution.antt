-- ===== src/Consensus/Execution.antt =====
-- src/consensus.cpp: `execute_contract` with what it feeds to the contract and takes from it. Running
-- the contract (src/sc/sc.cpp) and signing are arguments. That the buffers of the consensed inputs are
-- released (`cleanup_consensed_user_inputs`) is a call whose result is not looked at.
pub mod Signed
use hpcore.Base.{
  ℕ, ◌+◌, Bool, true, false, not, ◌&&◌, ◌||◌, ◌++◌, List, [], ◌∷◌, Option, none, some, Bytes,
  is_nil, length, if◌then◌else◌, find, keys, map, map_emplace, bytes_keyed, bytes_ordered,
}
use hpcore.Util.SequenceHash.{H32, SequenceHash, h32_empty, h32_eq}
use hpcore.Util.BufferStore.{BufferView}
use hpcore.Util.MerkleHashTree.{Node, MerkleHashTree, populate, root_hash, collapse}
use hpcore.Usr.Inputs.{InputStatusResponse}
use hpcore.Usr.Users.{ConnectedUser}
use hpcore.Consensus.Types.{
  Proposal, Context, ConsensusConfig, ConsensedUser, ConsensedUserInput, GeneratedUserOutput,
}
use hpcore.Consensus.Timing.{refresh_time_config}
use hpcore.Consensus.Proposing.{to_string_view}
use hpcore.Consensus.Inputs.{
  Users, Expiry, hash_suffix, expire_candidate_inputs, cleanup_consensed_user_inputs,
  cleanup_output_collections, prepare_consensed_users,
}
use hpcore.Consensus.Closing.{Decision, close_with, decide_close}
use hpcore.Ledger.Chain.{Hashes, get_list_hash}
use hpcore.Ledger.Shards.{HistoryConfig, ShardCalls, LedgerState, update_ledger}

-- What the contract reads and writes for a user: `contract_iobufs`.
pub record ContractBufs : Type 0 where
  pub inputs : List BufferView
  pub outputs : List Bytes

abbrev pub BufMap : Type 0
BufMap = List (Bytes × ContractBufs)

abbrev pub view_of : ConsensedUserInput → BufferView
view_of ci = ci.input

-- Each consensed user has an entry, with or without inputs.
unfoldable pub feed_user_inputs : Users → BufMap → BufMap
feed_user_inputs [] bufmap = bufmap
feed_user_inputs ((pubkey, user) ∷ rest) bufmap = feed_user_inputs rest (
    map_emplace bytes_ordered pubkey
      (record { inputs = map view_of user.consensed_inputs; outputs = [] }) bufmap)

-- The outputs of each user that has any, under their hash with the user's key.
unfoldable pub extract_user_outputs :
    Hashes → BufMap → List (Bytes × GeneratedUserOutput) → List (Bytes × GeneratedUserOutput)
extract_user_outputs c [] generated = generated
extract_user_outputs c ((pubkey, bufs) ∷ rest) generated = extract_user_outputs c rest (
    if is_nil bufs.outputs
    then generated
    else map_emplace bytes_ordered (get_list_hash c (pubkey ∷ bufs.outputs))
        (record { user_pubkey = pubkey; outputs = bufs.outputs }) generated)

abbrev pub or_else {ℓ} : {A : Type ℓ} → A → Option A → A
or_else d none = d
or_else d (some a) = a

-- The rounds of grouping are at most as many as the hashes.
abbrev pub sign_outputs : Hashes → (Bytes → Bytes) → H32 → Context → Context
sign_outputs c sign new_state_hash ctx =
    let hashes = keys ctx.generated_user_outputs ++ to_string_view new_state_hash ∷ [] in
    let tree =
      or_else ctx.user_outputs_hashtree
        (populate (get_list_hash c) (length hashes) hashes ctx.user_outputs_hashtree) in
    if is_nil ctx.generated_user_outputs
    then ctx
    else record ctx { user_outputs_hashtree = tree; user_outputs_our_sig = sign (root_hash tree) }

-- A run of the contract: the buffers and the hash of the state after it, unless it failed.
abbrev pub Run : Type 0
Run = Option (BufMap × H32)

pub record Executor : Type 0 where
  pub execute : Bool
  pub run : ℕ → SequenceHash → BufMap → Run
  pub sign : Bytes → Bytes

-- The state hash is that of the contract's file system.
abbrev pub finish_run : Hashes → Executor → Run → H32 × Context → Bool × H32 × Context
finish_run c x none (state_hash, ctx) = (false, state_hash, ctx)
finish_run c x (some (bufmap, new_state_hash)) (state_hash, ctx) = (
  true,
  new_state_hash,
  sign_outputs c x.sign new_state_hash (record ctx {
    generated_user_outputs = extract_user_outputs c bufmap ctx.generated_user_outputs;
  }),
)

unfoldable pub execute_contract :
    Hashes → Executor → ℕ → Users → SequenceHash → H32 × Context → Bool × H32 × Context
execute_contract c x time consensed_users lcl_id (state_hash, ctx) =
    if not x.execute || ctx.is_shutting_down
    then (true, state_hash, ctx)
    else finish_run c x (x.run time lcl_id (feed_user_inputs consensed_users [])) (state_hash, ctx)
