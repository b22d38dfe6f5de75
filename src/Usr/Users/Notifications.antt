-- ===== src/Usr/Users/Notifications.antt =====
-- What users are told: `dispatch_change_events` and `send_input_status_responses` of src/usr/usr.cpp. The
-- texts of the messages (src/msg) are arguments. A hash map is walked in the order of its list.
pub mod Cached
use hpcore.Base.{
  ℕ, Bool, true, false, not, ◌&&◌, ◌++◌, List, [], ◌∷◌, Option, none, some, Bytes, is_nil, ◌==◌,
  if◌then◌else◌, find, map_emplace, bytes_keyed,
}
use hpcore.Util.SequenceHash.{H32, h32_empty, h32_eq}
use hpcore.Usr.Submission.{Reason, already_submitted}
use hpcore.Usr.Inputs.{Protocol, json, bson, SubmittedUserInput, InputStatusResponse}
use hpcore.Usr.Users.{Channel, unl_change, ledger_event, health_stat, ConnectedUser, Users}
use hpcore.Usr.Users.Requests.{Outgoing, input_status}
use hpcore.Status.{
  ChangeEvent, ledger_created_event, vote_status_change, proposal_health, connectivity_health,
}

-- What is sent, by the number of the session.
abbrev pub Sent : Type 0
Sent = List (ℕ × Outgoing)

abbrev pub is_already_submitted : Option Reason → Bool
is_already_submitted (some already_submitted) = true
is_already_submitted _ = false

-- The response's own ledger goes before that of the call.
abbrev pub status_of : ℕ → H32 → InputStatusResponse → Outgoing
status_of ledger_seq_no ledger_hash resp =
    input_status resp.reject_reason resp.input_hash
      (if resp.ledger_seq_no == 0 then ledger_seq_no else resp.ledger_seq_no)
      (if h32_eq resp.ledger_hash h32_empty then ledger_hash else resp.ledger_hash)

unfoldable pub send_to_user : ℕ → H32 → ℕ → List InputStatusResponse → Sent
send_to_user ledger_seq_no ledger_hash session [] = []
send_to_user ledger_seq_no ledger_hash session (resp ∷ rest) =
    let others = send_to_user ledger_seq_no ledger_hash session rest in
    if is_already_submitted resp.reject_reason
    then others
    else (session, status_of ledger_seq_no ledger_hash resp) ∷ others

abbrev pub send_found : ℕ → H32 → List InputStatusResponse → Option ConnectedUser → Sent
send_found ledger_seq_no ledger_hash responses none = []
send_found ledger_seq_no ledger_hash responses (some user) =
    send_to_user ledger_seq_no ledger_hash user.session responses

unfoldable pub send_input_status_responses :
    ℕ → H32 → List (Bytes × List InputStatusResponse) → Users → Sent
send_input_status_responses ledger_seq_no ledger_hash [] users = []
send_input_status_responses ledger_seq_no ledger_hash ((pubkey, responses) ∷ rest) users =
    send_found ledger_seq_no ledger_hash responses (find pubkey users)
    ++ send_input_status_responses ledger_seq_no ledger_hash rest users

-- The channel on which users subscribe to an event.
abbrev pub channel_of : ChangeEvent → Channel
channel_of (ChangeEvent.unl_change unl) = unl_change
channel_of (ledger_created_event ledger) = ledger_event
channel_of (vote_status_change status) = ledger_event
channel_of (proposal_health h) = health_stat
channel_of (connectivity_health h) = health_stat

-- `protocol_msgs`: the message of each protocol, empty if it is not made yet.
pub record Messages : Type 0 where
  pub json_msg : Bytes
  pub bson_msg : Bytes

abbrev pub message_in : Protocol → Messages → Bytes
message_in json c = c.json_msg
message_in bson c = c.bson_msg

abbrev pub store_message : Protocol → Bytes → Messages → Messages
store_message json msg c = record c { json_msg = msg }
store_message bson msg c = record c { bson_msg = msg }

module _ (create_notification : Protocol → ChangeEvent → Bytes) where
  -- The message is made when it is first needed.
  abbrev pub made : Protocol → ChangeEvent → Messages → Messages
  made protocol ev c =
      if is_nil (message_in protocol c)
      then store_message protocol (create_notification protocol ev) c
      else c

  unfoldable pub notify_users : ChangeEvent → Users → Messages → List (ℕ × Bytes)
  notify_users ev [] c = []
  notify_users ev ((pubkey, user) ∷ rest) c =
      let wanted = user.subscriptions (channel_of ev) in
      let c' = made user.protocol ev c in
      let others = notify_users ev rest (if wanted then c' else c) in
      if wanted then (user.session, message_in user.protocol c') ∷ others else others

  unfoldable pub dispatch_change_events : List ChangeEvent → Users → List (ℕ × Bytes)
  dispatch_change_events [] users = []
  dispatch_change_events (ev ∷ events) users =
      notify_users ev users (record { json_msg = []; bson_msg = [] })
      ++ dispatch_change_events events users
