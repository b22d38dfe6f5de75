-- ===== src/Usr/Users/Requests.antt =====
-- src/usr/usr.cpp: `handle_authed_user_message`, which serves the message of a user. The parser of the
-- messages (src/msg), the execution of ledger queries and the queue of read requests are arguments.
mod Taking
pub mod Tally
pub mod Refusals
pub mod Identity
use hpcore.Base.{
  ℕ, ◌+◌, Bool, true, false, not, ◌&&◌, ◌||◌, ◌++◌, List, [], ◌∷◌, Option, none, some, Bytes,
  length, ltb, leb, ◌==◌, if◌then◌else◌, wrap64,
}
use hpcore.Util.SequenceHash.{H32, h32_empty}
use hpcore.Usr.NonceMap.{NonceMap, check}
use hpcore.Usr.Submission.{
  InputLimits, Reason, max_ledger_offset_exceeded, max_ledger_expired, round_inputs_overflow,
  bad_msg_format, invalid_msg_type, nonce_reason,
}
use hpcore.Usr.Inputs.{Protocol, SubmittedUserInput, InputContainer, Formats}
use hpcore.Usr.Users.{Channel, unl_change, ledger_event, health_stat, ConnectedUser}

pub data MsgType : Type 0 where
  contract_read_request contract_input stat lcl subscription ledger_query other_type : MsgType

-- `usrmsg_parser`: what it extracts from a message in a protocol. An input is a container and its
-- signature, a read request an id and its content, and a ledger query an id and the query.
pub record Parser : Type 0 where
  pub parse : Protocol → Bytes → Bool
  pub extract_type : Protocol → Bytes → MsgType
  pub extract_read_request : Protocol → Bytes → Option (Bytes × Bytes)
  pub extract_signed_input_container : Protocol → Bytes → Option (Bytes × Bytes)
  pub extract_subscription_request : Protocol → Bytes → Option (Channel × Bool)
  pub extract_ledger_query : Protocol → Bytes → Option (Bytes × Bytes)

pub record ServeConfig : Type 0 where
  pub execute : Bool
  pub concurrent_read_requests : ℕ
  pub limits : InputLimits

-- What is sent to the session of the user. The status of an input is rejected if there is a reason.
pub data Outgoing : Type 0 where
  input_status : Option Reason → Bytes → ℕ → H32 → Outgoing
  status_response lcl_response : Outgoing
  ledger_query_response : Bytes → Bytes → Outgoing

-- Whether the source returns 0, what is sent, the read requests that are passed on (an id and the
-- content), the user, and the nonces.
pub record Served : Type 0 where
  pub ok : Bool
  pub sent : List Outgoing
  pub reads : List (Bytes × Bytes)
  pub user : ConnectedUser
  pub nonce_map : NonceMap

abbrev pub answer : List Outgoing → ConnectedUser → NonceMap → Served
answer sent user nonce_map = record {
  ok = true;
  sent = sent;
  reads = [];
  user = user;
  nonce_map = nonce_map;
}

abbrev pub reject : Reason → Bytes → ConnectedUser → NonceMap → Served
reject reason hash user nonce_map = record {
  ok = false;
  sent = input_status (some reason) hash 0 h32_empty ∷ [];
  reads = [];
  user = user;
  nonce_map = nonce_map;
}

abbrev pub fail : ConnectedUser → NonceMap → Served
fail user nonce_map = record {
  ok = false;
  sent = [];
  reads = [];
  user = user;
  nonce_map = nonce_map;
}

abbrev pub same_channel : Channel → Channel → Bool
same_channel unl_change unl_change = true
same_channel ledger_event ledger_event = true
same_channel health_stat health_stat = true
same_channel _ _ = false

abbrev pub subscribe : Channel → Bool → ConnectedUser → ConnectedUser
subscribe channel enabled user = record user {
  subscriptions = λ other. if same_channel channel other then enabled else user.subscriptions other;
}

abbrev pub collect : Bytes → Bytes → InputContainer → ConnectedUser → ConnectedUser
collect container sig c user = record user {
  submitted_inputs =
      user.submitted_inputs
      ++ record { input_container = container; sig = sig; protocol = user.protocol } ∷ [];
  collected_input_size = wrap64 (user.collected_input_size + length c.input);
}

abbrev pub take_read : Option (Bytes × Bytes) → ConnectedUser → NonceMap → Served
take_read none user nonce_map = reject bad_msg_format [] user nonce_map
take_read (some request) user nonce_map = record (answer [] user nonce_map) { reads = request ∷ [] }

abbrev pub take_subscription : Option (Channel × Bool) → ConnectedUser → NonceMap → Served
take_subscription none user nonce_map = fail user nonce_map
take_subscription (some (channel, enabled)) user nonce_map =
    answer [] (subscribe channel enabled user) nonce_map

abbrev pub take_query : Option (Bytes × Bytes) → ConnectedUser → NonceMap → Served
take_query none user nonce_map = fail user nonce_map
take_query (some (id, query)) user nonce_map =
    answer (ledger_query_response id query ∷ []) user nonce_map

-- The message is served at the sequence number of the last ledger and the time.
module _ (x : Formats) (parser : Parser) (cfg : ServeConfig) (lcl_seq_no now : ℕ) where
  unfoldable pub take_input :
      Bytes → Bytes → Option InputContainer → ConnectedUser → NonceMap → Served
  take_input container sig none user nonce_map =
      reject bad_msg_format (x.get_hash sig) user nonce_map
  take_input container sig (some c) user nonce_map =
      let hash = x.get_hash sig in
      let (status, nonces) =
        check user.pubkey c.nonce sig c.max_ledger_seq_no true lcl_seq_no now nonce_map in
      if not (cfg.limits.max_input_ledger_offset == 0)
        && ltb (wrap64 (lcl_seq_no + cfg.limits.max_input_ledger_offset)) c.max_ledger_seq_no
      then reject max_ledger_offset_exceeded hash user nonce_map
      else if leb c.max_ledger_seq_no lcl_seq_no
      then reject max_ledger_expired hash user nonce_map
      else if ltb 0 cfg.limits.user_input_bytes
          && ltb cfg.limits.user_input_bytes (wrap64 (user.collected_input_size + length c.input))
      then reject round_inputs_overflow hash user nonce_map
      else if status == 0
      then answer [] (collect container sig c user) nonces
      else reject (nonce_reason status) hash user nonces

  unfoldable pub take_signed : Option (Bytes × Bytes) → ConnectedUser → NonceMap → Served
  take_signed none user nonce_map = reject bad_msg_format (x.get_hash []) user nonce_map
  take_signed (some (container, sig)) user nonce_map =
      take_input container sig (x.extract_input_container user.protocol container) user nonce_map

  unfoldable pub dispatch : MsgType → Bytes → ConnectedUser → NonceMap → Served
  dispatch contract_read_request message user nonce_map =
      if not cfg.execute || (cfg.concurrent_read_requests == 0)
      then answer [] user nonce_map
      else take_read (parser.extract_read_request user.protocol message) user nonce_map
  dispatch contract_input message user nonce_map =
      take_signed (parser.extract_signed_input_container user.protocol message) user nonce_map
  dispatch stat message user nonce_map = answer (status_response ∷ []) user nonce_map
  dispatch lcl message user nonce_map = answer (lcl_response ∷ []) user nonce_map
  dispatch subscription message user nonce_map =
      take_subscription (parser.extract_subscription_request user.protocol message) user nonce_map
  dispatch ledger_query message user nonce_map =
      take_query (parser.extract_ledger_query user.protocol message) user nonce_map
  dispatch other_type message user nonce_map = reject invalid_msg_type [] user nonce_map

  unfoldable pub handle_authed_user_message : Bytes → ConnectedUser → NonceMap → Served
  handle_authed_user_message message user nonce_map =
      let type = parser.extract_type user.protocol message in
      if parser.parse user.protocol message
      then dispatch type message user nonce_map
      else reject bad_msg_format [] user nonce_map
