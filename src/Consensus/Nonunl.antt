-- ===== src/Consensus/Nonunl.antt =====
-- src/consensus.cpp: `broadcast_nonunl_proposal`, which takes over the inputs that the local users have
-- submitted, the guard of `broadcast_proposal`, and stage 0 of `consensus`. The map of users is walked in
-- the order of its list. Sending is I/O: what is sent is a result.
pub mod Takeover
use hpcore.Base.{
  ℕ, Bool, true, false, not, ◌&&◌, ◌||◌, List, [], ◌∷◌, Option, none, some, Bytes, bytes_eq,
  if◌then◌else◌, is_nil,
}
use hpcore.Util.SequenceHash.{H32}
use hpcore.Util.BufferStore.{BufferStore}
use hpcore.Usr.NonceMap.{NonceMap}
use hpcore.Usr.Submission.{InputLimits}
use hpcore.Usr.Inputs.{SubmittedUserInput, Formats, InputStatusResponse}
use hpcore.Usr.Users.{ConnectedUser, Users}
use hpcore.Consensus.Types.{Proposal, Context}
use hpcore.Consensus.Candidates.{revise_candidate_proposals}
use hpcore.Consensus.VoteStatus.{VoteStatus}
use hpcore.Consensus.Proposing.{OwnState, create_stage0_proposal}
use hpcore.Consensus.Populate.{
  InputGroups, NonunlProposal, Environment, verify_and_populate_candidate_user_inputs,
}
use hpcore.Consensus.Commit.{NodeState, CommitCalls, Announced, silence, attempt_ledger_close}
use hpcore.Consensus.Round.{is_synced}

-- `try_emplace`: an entry that is there stays.
unfoldable pub emplace_inputs : Bytes → List SubmittedUserInput → InputGroups → InputGroups
emplace_inputs pubkey inputs [] = (pubkey, inputs) ∷ []
emplace_inputs pubkey inputs ((q, others) ∷ rest) =
    if bytes_eq q pubkey
    then (q, others) ∷ rest
    else (q, others) ∷ emplace_inputs pubkey inputs rest

unfoldable pub take_inputs : Users → InputGroups → InputGroups
take_inputs [] groups = groups
take_inputs ((q, user) ∷ rest) groups =
    take_inputs rest (emplace_inputs user.pubkey user.submitted_inputs groups)

abbrev pub without_inputs : ConnectedUser → ConnectedUser
without_inputs user = record user { submitted_inputs = []; collected_input_size = 0 }

unfoldable pub clear_inputs : Users → Users
clear_inputs [] = []
clear_inputs ((q, user) ∷ rest) = (q, without_inputs user) ∷ clear_inputs rest

-- The proposal that is sent, if there are users, and the users.
unfoldable pub broadcast_nonunl_proposal : Users → Option NonunlProposal × Users
broadcast_nonunl_proposal users =
    if is_nil users
    then (none, users)
    else (some (record { user_inputs = take_inputs users [] }), clear_inputs users)

-- Whether a proposal is sent: not by an observer, and only by a member of the UNL.
abbrev pub broadcasts_proposal : Bool → Bool → Bool
broadcasts_proposal is_observer is_unl = not (is_observer || not is_unl)

-- The node at stage 0, with its users and the inputs that have come in.
pub record Stage0 : Type 0 where
  pub node : NodeState
  pub vote_status : VoteStatus
  pub users : Users
  pub nonce_map : NonceMap
  pub input_store : BufferStore

-- What the visit meets: the proposals that have arrived and the non-unl proposals that have come in, the
-- threshold and the members, the random nonce, the last shards, and what the calls answer.
pub record Visit0 : Type 0 where
  pub collected : List Proposal
  pub nonunl : List NonunlProposal
  pub threshold : ℕ
  pub unl_count : ℕ
  pub round_nonce : H32
  pub formats : Formats
  pub environment : Environment
  pub limits : InputLimits
  pub calls : CommitCalls

-- What goes out: of the closed ledger, the non-unl proposal, the rejections, and the proposal.
pub record Sent0 : Type 0 where
  pub announced : Announced
  pub nonunl_proposal : Option NonunlProposal
  pub rejections : List (Bytes × List InputStatusResponse)
  pub proposal : Proposal

abbrev pub own_state : NodeState → OwnState
own_state n = record {
  state_hash = n.state_hash;
  patch_hash = n.patch_hash;
  last_primary_shard_id = n.ledger.last_primary_shard_id;
  last_raw_shard_id = n.ledger.last_raw_shard_id;
}

abbrev pub close_if : Bool → Visit0 → NodeState → Announced × NodeState
close_if was_in_sync v n =
    if was_in_sync then attempt_ledger_close v.calls v.threshold v.unl_count n else (silence, n)

-- Stage 0: the ledger is closed if the node was in sync, and then inputs are exchanged and the first
-- proposal of the round is made.
unfoldable pub run_stage0 : Visit0 → Stage0 → Sent0 × Stage0
run_stage0 v s =
    let was_in_sync = is_synced s.vote_status in
    let revised = record s.node {
      ctx = revise_candidate_proposals was_in_sync s.node.cfg v.collected s.node.ctx;
    } in
    let (announced, n) = close_if was_in_sync v revised in
    let (nup, users) = broadcast_nonunl_proposal s.users in
    let ((rejections, nonce_map, input_store), ctx) =
      verify_and_populate_candidate_user_inputs v.formats v.environment v.limits
        n.ledger.lcl_id.seq_no v.nonunl s.nonce_map s.input_store n.ctx in
    let (p, ctx') = create_stage0_proposal v.round_nonce (own_state n) n.cfg ctx in
    (
      record {
        announced = announced;
        nonunl_proposal = nup;
        rejections = rejections;
        proposal = p;
      },
      record s {
        node = record n { ctx = record ctx' { stage = 1 } };
        users = users;
        nonce_map = nonce_map;
        input_store = input_store;
      },
    )
