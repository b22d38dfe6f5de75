-- ===== src/Consensus/Dispatch.antt =====
-- src/consensus.cpp: what users are sent when a ledger is closed,
-- `dispatch_consensed_user_input_responses` and `dispatch_consensed_user_outputs`. The outputs are
-- cleaned up after that, which is part of Consensus.Commit.
use hpcore.Base.{
  ℕ, ◌++◌, List, [], ◌∷◌, Option, none, some, Bytes, is_nil, if◌then◌else◌, find, map, bytes_keyed,
  bytes_ordered,
}
use hpcore.Util.SequenceHash.{SequenceHash, h32_empty}
use hpcore.Util.MerkleHashTree.{Node, collapse}
use hpcore.Usr.Inputs.{InputStatusResponse}
use hpcore.Usr.Users.{ConnectedUser}
use hpcore.Consensus.Types.{Context, ConsensedUser, ConsensedUserInput}
use hpcore.Consensus.Inputs.{Users, hash_suffix}

abbrev pub accepted : ConsensedUserInput → InputStatusResponse
accepted ci = record {
  input_hash = hash_suffix ci.ordered_hash;
  reject_reason = none;
  ledger_seq_no = 0;
  ledger_hash = h32_empty;
}

-- The acceptances of the inputs, for each user that has any.
unfoldable pub consensed_responses : Users → List (Bytes × List InputStatusResponse)
consensed_responses [] = []
consensed_responses ((pubkey, user) ∷ rest) =
    let others = consensed_responses rest in
    if is_nil user.consensed_inputs
    then others
    else (pubkey, map accepted user.consensed_inputs) ∷ others

-- What a connected user gets for its outputs: their hash, the outputs, the tree that proves the hash, and
-- the signatures of the members.
pub record OutputMessage : Type 0 where
  pub session : ℕ
  pub hash : Bytes
  pub outputs : List Bytes
  pub hash_root : Node
  pub unl_sig : List (Bytes × Bytes)
  pub lcl_id : SequenceHash

abbrev pub output_to :
    SequenceHash → Context → ConsensedUser → Option ConnectedUser → List OutputMessage
output_to lcl_id ctx cu none = []
output_to lcl_id ctx cu (some user) =
    record {
      session = user.session;
      hash = cu.consensed_outputs.hash;
      outputs = cu.consensed_outputs.outputs;
      hash_root = collapse cu.consensed_outputs.hash ctx.user_outputs_hashtree;
      unl_sig = ctx.user_outputs_unl_sig;
      lcl_id = lcl_id;
    }
    ∷ []

unfoldable pub consensed_outputs :
    SequenceHash → Context → List (Bytes × ConnectedUser) → Users → List OutputMessage
consensed_outputs lcl_id ctx connected [] = []
consensed_outputs lcl_id ctx connected ((pubkey, cu) ∷ rest) =
    let others = consensed_outputs lcl_id ctx connected rest in
    if is_nil cu.consensed_outputs.outputs
    then others
    else output_to lcl_id ctx cu (find pubkey connected) ++ others
