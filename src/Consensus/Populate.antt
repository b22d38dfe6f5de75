-- ===== src/Consensus/Populate.antt =====
-- src/consensus.cpp: `verify_and_populate_candidate_user_inputs`, which makes consensus candidates of
-- the inputs that have come in with non-unl proposals. A hash map is walked in the order of its list.
-- The clock is read, and the input store written, once for each input that is validated: both are
-- functions of the number of validations before. Sending the responses to users is I/O.
pub mod Authentic
mod Responses
mod Settled
pub mod Told
pub mod Answered
pub mod Reordered
use hpcore.Base.{
  or_empty, ℕ, suc, ◌+◌, Bool, true, false, not, ◌&&◌, ◌++◌, List, [], ◌∷◌, Option, none, some,
  Bytes, ◌==◌, if◌then◌else◌, find, put, map_emplace, set_insert, bytes_keyed, bytes_ordered,
}
use hpcore.Util.SequenceHash.{h32_empty}
use hpcore.Util.BufferStore.{BufferView, BufferStore}
use hpcore.Usr.NonceMap.{NonceMap}
use hpcore.Usr.Submission.{
  ExtractedUserInput, InputLimits, Reason, Validation, validate_user_input_submission,
}
use hpcore.Usr.Inputs.{
  SubmittedUserInput, Formats, InputStatusResponse, Extracted, refused, extracted,
  extract_submitted_input, sort_inputs, push_all,
}
use hpcore.Consensus.Types.{Context, CandidateUserInput}
use hpcore.Consensus.Inputs.{Inputs, hash_suffix}

abbrev pub InputGroups : Type 0
InputGroups = List (Bytes × List SubmittedUserInput)

pub record NonunlProposal : Type 0 where
  pub user_inputs : InputGroups

unfoldable pub group_proposal : InputGroups → InputGroups → InputGroups
group_proposal [] groups = groups
group_proposal ((pubkey, inputs) ∷ rest) groups =
    group_proposal rest (put pubkey (or_empty (find pubkey groups) ++ inputs) groups)

unfoldable pub group_inputs : List NonunlProposal → InputGroups → InputGroups
group_inputs [] groups = groups
group_inputs (p ∷ ps) groups = group_inputs ps (group_proposal p.user_inputs groups)

abbrev pub rejected : Bytes → Reason → InputStatusResponse
rejected input_hash reason = record {
  input_hash = input_hash;
  reject_reason = some reason;
  ledger_seq_no = 0;
  ledger_hash = h32_empty;
}

-- The inputs that could be extracted, and the responses for the others.
abbrev pub Extraction : Type 0
Extraction = List ExtractedUserInput × List InputStatusResponse

abbrev pub sort_out : Formats → SubmittedUserInput → Extracted → Extraction → Extraction
sort_out x s (refused reason) (es, rs) = (es, rejected (x.get_hash s.sig) reason ∷ rs)
sort_out x s (extracted e) (es, rs) = (e ∷ es, rs)

unfoldable pub extract_inputs : Formats → Bytes → List SubmittedUserInput → Extraction
extract_inputs x pubkey [] = ([], [])
extract_inputs x pubkey (s ∷ rest) =
    sort_out x s (extract_submitted_input x pubkey s) (extract_inputs x pubkey rest)

-- What the environment does at the validation of that number.
pub record Environment : Type 0 where
  pub times : ℕ → ℕ
  pub pwrite : ℕ → Bytes → Bool

-- What the validation of a user's inputs changes. The responses are those of the current user.
pub record Population : Type 0 where
  pub nonce_map : NonceMap
  pub input_store : BufferStore
  pub total_input_size : ℕ
  pub validations : ℕ
  pub candidates : Inputs
  pub responses : List InputStatusResponse

abbrev pub is_null : BufferView → Bool
is_null view = (view.offset == 0) && (view.size == 0)

-- A candidate is made if there is no reason against it and the input is stored.
abbrev pub offer : Bytes → ExtractedUserInput → Validation → Inputs → Inputs
offer pubkey e v candidates =
    if is_null v.input
    then candidates
    else map_emplace bytes_ordered v.ordered_hash
        (record { user_pubkey = pubkey; input = v.input; max_ledger_seq_no = e.max_ledger_seq_no })
        candidates

unfoldable pub settle_input :
    Option Reason → Bytes → ExtractedUserInput → Validation → Population → Population
settle_input none pubkey e v p = record p {
  nonce_map = v.state.nonce_map;
  input_store = v.state.input_store;
  total_input_size = v.state.total_input_size;
  validations = p.validations + 1;
  candidates = offer pubkey e v p.candidates;
}
settle_input (some reason) pubkey e v p = record p {
  nonce_map = v.state.nonce_map;
  input_store = v.state.input_store;
  total_input_size = v.state.total_input_size;
  validations = p.validations + 1;
  responses = p.responses ++ rejected (hash_suffix v.ordered_hash) reason ∷ [];
}

module _ (x : Formats) (env : Environment) (limits : InputLimits) (lcl_seq_no : ℕ) where
  abbrev pub validated : Bytes → ExtractedUserInput → Population → Validation
  validated pubkey e p =
      validate_user_input_submission x.get_hash (env.pwrite p.validations) limits pubkey e
        lcl_seq_no (env.times p.validations)
        (record {
          nonce_map = p.nonce_map;
          input_store = p.input_store;
          total_input_size = p.total_input_size;
        })

  unfoldable pub validate_input : Bytes → ExtractedUserInput → Population → Population
  validate_input pubkey e p = let v = validated pubkey e p in settle_input v.reason pubkey e v p

  unfoldable pub validate_inputs : Bytes → List ExtractedUserInput → Population → Population
  validate_inputs pubkey [] p = p
  validate_inputs pubkey (e ∷ es) p = validate_inputs pubkey es (validate_input pubkey e p)

-- The whole walk: the candidate users, what validation changes, and the responses by user.
pub record Walked : Type 0 where
  pub users : List Bytes
  pub population : Population
  pub rejections : List (Bytes × List InputStatusResponse)

module _ (x : Formats) (env : Environment) (limits : InputLimits) (lcl_seq_no : ℕ) where
  unfoldable pub populate_user : Bytes → List SubmittedUserInput → Walked → Walked
  populate_user pubkey submitted w =
      let (es, refusals) = extract_inputs x pubkey submitted in
      let p =
        validate_inputs x env limits lcl_seq_no pubkey (sort_inputs es)
          (record w.population { total_input_size = 0; responses = [] }) in
      record {
        users = set_insert bytes_ordered pubkey w.users;
        population = p;
        rejections = push_all pubkey p.responses (push_all pubkey refusals w.rejections);
      }

  unfoldable pub populate_users : InputGroups → Walked → Walked
  populate_users [] w = w
  populate_users ((pubkey, submitted) ∷ rest) w =
      populate_users rest (populate_user pubkey submitted w)

  -- The collected proposals are taken over, so none is left. The responses are sent to the users.
  unfoldable pub verify_and_populate_candidate_user_inputs :
      List NonunlProposal
      → NonceMap
      → BufferStore
      → Context
      → (List (Bytes × List InputStatusResponse) × NonceMap × BufferStore) × Context
  verify_and_populate_candidate_user_inputs collected nonce_map input_store ctx =
      let w = populate_users (group_inputs collected []) (record {
        users = ctx.candidate_users;
        population = (record {
          nonce_map = nonce_map;
          input_store = input_store;
          total_input_size = 0;
          validations = 0;
          candidates = ctx.candidate_user_inputs;
          responses = [];
        });
        rejections = [];
      }) in
      let p = w.population in
      (
        (w.rejections, p.nonce_map, p.input_store),
        record ctx { candidate_users = w.users; candidate_user_inputs = p.candidates },
      )
