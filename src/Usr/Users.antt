-- ===== src/Usr/Users.antt =====
-- src/usr/usr.cpp, usr.hpp and user_comm_session.cpp: the users that are connected to the node, how a
-- session becomes that of a user, and how it ceases to be. A user refers to its session by the
-- session's number. Checking the answer to a challenge (src/msg/json/usrmsg_json.cpp) and the
-- conversion from hex are arguments, and so is the challenge that is made for a session.
pub mod Logins
pub mod Validity
pub mod Reachable
pub mod Requests
pub mod Notifications
use hpcore.Base.{
  ℕ, Bool, true, false, not, ◌&&◌, ◌||◌, List, [], ◌∷◌, Option, none, some, Bytes, bytes_eq, is_nil,
  length, ltb, ◌==◌, if◌then◌else◌, find, put, erase, bytes_keyed, nat_keyed,
}
use hpcore.Util.SequenceHash.{H32}
use hpcore.Usr.Submission.{Reason}
use hpcore.Usr.Inputs.{Protocol, json, bson, SubmittedUserInput}
use hpcore.Comm.Session.{ChallengeStatus, not_issued, challenge_issued, challenge_verified}

pub data Channel : Type 0 where
  unl_change ledger_event health_stat : Channel

-- The part of a session that the handshake is about.
pub record UserSession : Type 0 where
  pub challenge_status : ChallengeStatus
  pub issued_challenge : Bytes
  pub uniqueid : Bytes
  pub pubkey : Bytes

pub record ConnectedUser : Type 0 where
  pub pubkey : Bytes
  pub submitted_inputs : List SubmittedUserInput
  pub collected_input_size : ℕ
  pub subscriptions : Channel → Bool
  pub session : ℕ
  pub protocol : Protocol

abbrev pub Users : Type 0
Users = List (Bytes × ConnectedUser)

abbrev pub max_user_count : ℕ
max_user_count = 64

-- The connected users and the open sessions by their numbers.
pub record UserContext : Type 0 where
  pub users : Users
  pub sessions : List (ℕ × UserSession)

abbrev pub new_session : UserSession
new_session = record {
  challenge_status = not_issued;
  issued_challenge = [];
  uniqueid = [];
  pubkey = [];
}

abbrev pub new_user : Bytes → Protocol → ℕ → ConnectedUser
new_user pubkey protocol session = record {
  pubkey = pubkey;
  submitted_inputs = [];
  collected_input_size = 0;
  subscriptions = λ _. false;
  session = session;
  protocol = protocol;
}

-- The text "json".
abbrev pub json_code : Bytes
json_code = 106 ∷ 115 ∷ 111 ∷ 110 ∷ []

abbrev pub protocol_of : Bytes → Protocol
protocol_of code = if bytes_eq code json_code then json else bson

-- What the answer to a challenge says, if it is valid.
pub record ChallengeAnswer : Type 0 where
  pub pubkey_hex : Bytes
  pub protocol_code : Bytes
  pub server_challenge : Bytes

pub record Handshake : Type 0 where
  pub to_bin : Bytes → Bytes
  pub verify_user_challenge : Bytes → Bytes → Option ChallengeAnswer
  pub max_connections : ℕ

abbrev pub with_session : ℕ → UserSession → UserContext → UserContext
with_session id session ctx = record ctx { sessions = put id session ctx.sessions }

-- The session becomes that of the user, if there is room and no other session is.
unfoldable pub add_user :
    Handshake → ℕ → UserSession → Bytes → Bytes → UserContext → Bool × UserContext
add_user n id session pubkey_hex protocol_code ctx =
    let pubkey = n.to_bin pubkey_hex in
    let verified : UserSession = record {
      challenge_status = challenge_verified;
      issued_challenge = [];
      uniqueid = pubkey_hex;
      pubkey = pubkey;
    } in
    let joined : UserContext = record {
      users = put pubkey (new_user pubkey (protocol_of protocol_code) id) ctx.users;
      sessions = put id verified ctx.sessions;
    } in
    let found = find pubkey ctx.users in
    if length ctx.users == max_user_count
    then (false, ctx)
    else (true, elim found [ none ↦ joined | some _ ↦ ctx ])

unfoldable pub remove_user : Bytes → UserContext → UserContext
remove_user pubkey ctx = record ctx { users = erase pubkey ctx.users }

-- Whether the challenge was met. The result of `add_user` is not looked at.
unfoldable pub admit :
    Handshake → ℕ → UserSession → Option ChallengeAnswer → UserContext → Bool × UserContext
admit n id session none ctx = (false, ctx)
admit n id session (some a) ctx = (true, (add_user n id session a.pubkey_hex a.protocol_code ctx).1)

unfoldable pub verify_challenge :
    Handshake → Bytes → ℕ → UserSession → UserContext → Bool × UserContext
verify_challenge n message id session ctx =
    if is_nil session.issued_challenge
    then (false, ctx)
    else admit n id session (n.verify_user_challenge message session.issued_challenge) ctx

-- Whether the connection is kept: `handle_connect`.
unfoldable pub handle_connect : Handshake → Bytes → ℕ → UserContext → Bool × UserContext
handle_connect n challenge id ctx =
    let issued : UserSession = record new_session {
      challenge_status = challenge_issued;
      issued_challenge = challenge;
    } in
    if (n.max_connections == 0) || ltb (length ctx.users) n.max_connections
    then (true, with_session id issued ctx)
    else (false, with_session id new_session ctx)

-- What the message does to the user of the session's key, if there is one.
abbrev pub serve_found :
    (ConnectedUser → ConnectedUser) → Bytes → Option ConnectedUser → UserContext → UserContext
serve_found serve pubkey none ctx = ctx
serve_found serve pubkey (some user) ctx = record ctx { users = put pubkey (serve user) ctx.users }

-- Whether the connection is kept. What an authenticated user's message does to the user is `serve`.
unfoldable pub receive :
    Handshake
    → (ConnectedUser → ConnectedUser)
    → Bytes
    → ℕ
    → UserSession
    → ChallengeStatus
    → UserContext
    → Bool × UserContext
receive n serve message id session challenge_issued ctx = verify_challenge n message id session ctx
receive n serve message id session challenge_verified ctx =
    (true, serve_found serve session.pubkey (find session.pubkey ctx.users) ctx)
receive n serve message id session not_issued ctx = (false, ctx)

abbrev pub handle_message :
    Handshake
    → (ConnectedUser → ConnectedUser)
    → Bytes
    → ℕ
    → UserSession
    → UserContext
    → Bool × UserContext
handle_message n serve message id session ctx =
    receive n serve message id session session.challenge_status ctx

abbrev pub is_verified : ChallengeStatus → Bool
is_verified challenge_verified = true
is_verified challenge_issued = false
is_verified not_issued = false

-- The session goes, and its user with it.
unfoldable pub handle_close : ℕ → UserSession → UserContext → UserContext
handle_close id session ctx =
    let ctx' = record ctx { sessions = erase id ctx.sessions } in
    if is_verified session.challenge_status then remove_user session.pubkey ctx' else ctx'
