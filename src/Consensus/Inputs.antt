-- ===== src/Consensus/Inputs.antt =====
-- src/consensus.cpp: the users, inputs and outputs that a closed ledger takes
-- (`prepare_consensed_users`), the expiry of candidate inputs, and the cleanups. Releasing a buffer
-- of the input store is a call of the operating system: the buffers come back in a list, and for
-- `cleanup_consensed_user_inputs`, which looks at the result, the call is an argument.
pub mod UserMap
pub mod Joining
use hpcore.Base.{
  or_empty, ℕ, Bool, true, false, not, ◌&&◌, ◌||◌, ◌++◌, List, [], ◌∷◌, Option, none, some, Bytes,
  bytes_eq, leb, if◌then◌else◌, find, erase, put, drop, length, ◌-◌, map_find, map_put, map_emplace,
  bytes_keyed, bytes_ordered,
}
use hpcore.Util.BufferStore.{BufferView}
use hpcore.Util.MerkleHashTree.{root_hash, clear}
use hpcore.Consensus.Types.{
  Proposal, Context, CandidateUserInput, ConsensedUserInput, ConsensedUserOutput, ConsensedUser,
  GeneratedUserOutput,
}

abbrev pub Users : Type 0
Users = List (Bytes × ConsensedUser)

abbrev pub Inputs : Type 0
Inputs = List (Bytes × CandidateUserInput)

abbrev pub new_user : ConsensedUser
new_user = record { consensed_inputs = []; consensed_outputs = record { hash = []; outputs = [] } }

-- A change to `consensed_users[pubkey]`, which makes the user if there is none.
unfoldable pub change_user :
    (ConsensedUser → ConsensedUser) → Bytes → Option ConsensedUser → Users → Users
change_user f pubkey none users = map_emplace bytes_ordered pubkey (f new_user) users
change_user f pubkey (some user) users = map_put bytes_ordered pubkey (f user) users

abbrev pub at_user : (ConsensedUser → ConsensedUser) → Bytes → Users → Users
at_user f pubkey users = change_user f pubkey (map_find bytes_ordered pubkey users) users

unfoldable pub populate_users : List Bytes → Users → Users
populate_users [] users = users
populate_users (pubkey ∷ pubkeys) users =
    populate_users pubkeys (map_emplace bytes_ordered pubkey new_user users)

abbrev pub add_input : Bytes → CandidateUserInput → ConsensedUser → ConsensedUser
add_input ordered_hash ci user = record user {
  consensed_inputs =
      user.consensed_inputs ++ record { ordered_hash = ordered_hash; input = ci.input } ∷ [];
}

-- The map of users, the candidate inputs that are left, and whether every input was there.
pub record Joined : Type 0 where
  pub complete : Bool
  pub users : Users
  pub inputs : Inputs

unfoldable pub join_input : Bytes → Option CandidateUserInput → Joined → Joined
join_input ordered_hash none s = record s { complete = false }
join_input ordered_hash (some ci) s = record s {
  users = at_user (add_input ordered_hash ci) ci.user_pubkey s.users;
  inputs = erase ordered_hash s.inputs;
}

unfoldable pub join_inputs : List Bytes → Joined → Joined
join_inputs [] s = s
join_inputs (ordered_hash ∷ rest) s =
    join_inputs rest (join_input ordered_hash (find ordered_hash s.inputs) s)

abbrev pub add_outputs : Bytes → GeneratedUserOutput → ConsensedUser → ConsensedUser
add_outputs hash gen_output user = record user {
  consensed_outputs = record {
    hash = hash;
    outputs = user.consensed_outputs.outputs ++ gen_output.outputs;
  };
}

unfoldable pub move_outputs : List (Bytes × GeneratedUserOutput) → Users → Users
move_outputs [] users = users
move_outputs ((hash, gen_output) ∷ rest) users =
    move_outputs rest (at_user (add_outputs hash gen_output) gen_output.user_pubkey users)

-- Whether all of it succeeded (the source returns 0 or -1), the users, and the context.
unfoldable pub prepare_consensed_users : Proposal → Users → Context → Bool × Users × Context
prepare_consensed_users cons_prop consensed_users ctx =
    let joined = join_inputs cons_prop.input_ordered_hashes (record {
      complete = true;
      users = populate_users cons_prop.users consensed_users;
      inputs = ctx.candidate_user_inputs;
    }) in
    let ctx' = record ctx { candidate_user_inputs = joined.inputs } in
    if ctx.sync_ongoing || bytes_eq cons_prop.output_hash (root_hash ctx.user_outputs_hashtree)
    then (joined.complete, move_outputs ctx.generated_user_outputs joined.users, ctx')
    else (false, joined.users, ctx')

-- The last 32 bytes: `util::get_string_suffix(..., BLAKE3_OUT_LEN)`.
abbrev pub hash_suffix : Bytes → Bytes
hash_suffix bytes = drop (length bytes - 32) bytes

-- The candidate inputs that are left, the rejections by user, and the buffers released, in order.
pub record Expiry : Type 0 where
  pub kept : Inputs
  pub rejections : List (Bytes × List Bytes)
  pub purged : List BufferView

abbrev pub reject :
    Bytes → CandidateUserInput → List (Bytes × List Bytes) → List (Bytes × List Bytes)
reject ordered_hash ci rejections =
    put ci.user_pubkey (or_empty (find ci.user_pubkey rejections) ++ hash_suffix ordered_hash ∷ [])
      rejections

unfoldable pub expire_from : ℕ → Inputs → Expiry → Expiry
expire_from lcl_seq_no [] e = e
expire_from lcl_seq_no ((ordered_hash, ci) ∷ rest) e =
    if leb ci.max_ledger_seq_no lcl_seq_no
    then expire_from lcl_seq_no rest (record e {
      rejections = reject ordered_hash ci e.rejections;
      purged = e.purged ++ ci.input ∷ [];
    })
    else expire_from lcl_seq_no rest (record e { kept = e.kept ++ (ordered_hash, ci) ∷ [] })

unfoldable pub expire_candidate_inputs : ℕ → Context → Expiry × Context
expire_candidate_inputs lcl_seq_no ctx =
    let e =
      expire_from lcl_seq_no ctx.candidate_user_inputs
        (record { kept = []; rejections = []; purged = [] }) in
    (e, record ctx { candidate_user_inputs = e.kept })

-- The clean-up goes on after a buffer that could not be released, and reports it at the end.
abbrev pub purge_inputs : (BufferView → Bool) → List ConsensedUserInput → Bool → Bool
purge_inputs purge [] ok = ok
purge_inputs purge (ci ∷ rest) ok = purge_inputs purge rest (ok && purge ci.input)

abbrev pub cleanup_consensed_user_inputs : (BufferView → Bool) → Users → Bool → Bool
cleanup_consensed_user_inputs purge [] ok = ok
cleanup_consensed_user_inputs purge ((pubkey, user) ∷ users) ok =
    cleanup_consensed_user_inputs purge users (purge_inputs purge user.consensed_inputs ok)

unfoldable pub cleanup_output_collections : Context → Context
cleanup_output_collections ctx = record ctx {
  user_outputs_our_sig = [];
  generated_user_outputs = [];
  user_outputs_hashtree = clear ctx.user_outputs_hashtree;
  user_outputs_unl_sig = [];
}
