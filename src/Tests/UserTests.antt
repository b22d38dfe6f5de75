-- ===== src/Tests/UserTests.antt =====
-- Runs of the users' sessions and messages, and the theorems on them at concrete inputs.
use hpcore.Base.{
  or_empty, ℕ, ◌+◌, ◌<◌, ◌≤◌, ◌^◌, ◌≡◌, refl, true, false, List, [], ◌∷◌, ◌++◌, none, some, Option,
  Bytes, arith, find, put, bytes_keyed, nat_keyed, All, bytes_eq, length, if◌then◌else◌,
}
use hpcore.Comm.Session.{challenge_issued, challenge_verified}
use hpcore.Usr.Submission.{InputLimits}
use hpcore.Usr.Inputs.{
  Protocol, json, bson, Formats, InputContainer, SubmittedUserInput, extract_submitted_input,
}
use hpcore.Usr.Users.{
  Handshake, UserSession, ConnectedUser, UserContext, Users, ledger_event, new_user, max_user_count,
  add_user, admit, verify_challenge, handle_connect, receive, handle_message,
}
use hpcore.Usr.Users.Logins.{IsConsistent}
use hpcore.Usr.Users.Reachable.{
  Reachable, start, next, connected, received, one_session_per_user, no_users, Serving, serve,
}
use hpcore.Usr.Users.Requests.{
  contract_input, stat, Parser, ServeConfig, handle_authed_user_message, subscribe, dispatch,
  take_signed, take_input,
}
use hpcore.Usr.Users.Requests.Tally.{size_of, IsTallied, message-IsTallied}
use hpcore.Usr.Users.Requests.Refusals.{IsRefusal, refused_changes_nothing}
use hpcore.Usr.Users.Notifications.{notify_users, dispatch_change_events}
use hpcore.Usr.Users.Notifications.Cached.{all_subscribers, dispatched_exactly}
use hpcore.Status.{ChangeEvent, vote_status_change, connectivity_health}
use hpcore.Consensus.VoteStatus.{synced}
use hpcore.Consensus.Populate.{
  Environment, Walked, extract_inputs, populate_user, verify_and_populate_candidate_user_inputs,
}
use hpcore.Consensus.Populate.Authentic.{HasOrigin, candidates-IsAuthentic}
use hpcore.Consensus.Populate.Reordered.{Reordered, swapped, populate_user_any_order}
use hpcore.Tests.ConsensusTests.{context}

-- A hash of 32 bytes.
abbrev digest : Bytes → Bytes
digest s =
    length s
    ∷ 0
    ∷ 0
    ∷ 0
    ∷ 0
    ∷ 0
    ∷ 0
    ∷ 0
    ∷ 0
    ∷ 0
    ∷ 0
    ∷ 0
    ∷ 0
    ∷ 0
    ∷ 0
    ∷ 0
    ∷ 0
    ∷ 0
    ∷ 0
    ∷ 0
    ∷ 0
    ∷ 0
    ∷ 0
    ∷ 0
    ∷ 0
    ∷ 0
    ∷ 0
    ∷ 0
    ∷ 0
    ∷ 0
    ∷ 0
    ∷ 0
    ∷ []

abbrev container_of : Bytes → Option InputContainer
container_of (i ∷ n ∷ l ∷ []) = some (record { input = i ∷ []; nonce = n; max_ledger_seq_no = l })
container_of _ = none

-- A signature is the key and the message.
abbrev pub formats : Formats
formats = record {
  get_hash = digest;
  verify = λ container sig key. bytes_eq sig (key ++ container);
  extract_input_container = λ p c. container_of c;
}

abbrev pub limits : InputLimits
limits = record { max_input_ledger_offset = 10; user_input_bytes = 100 }

abbrev pub key : Bytes
key = 7 ∷ []

abbrev pub submit : Bytes → SubmittedUserInput
submit container = record { input_container = container; sig = 7 ∷ container; protocol = json }

-- A handshake in which the answer is the user's key.
abbrev handshake : Handshake
handshake = record {
  to_bin = λ hex. hex;
  verify_user_challenge = λ message challenge.
      some (record { pubkey_hex = message; protocol_code = []; server_challenge = [] });
  max_connections = 10;
}

abbrev issued : UserSession
issued = record {
  challenge_status = challenge_issued;
  issued_challenge = 5 ∷ [];
  uniqueid = [];
  pubkey = [];
}

abbrev opened : UserContext
opened = (handle_connect handshake (5 ∷ []) 1 no_users).1

-- A message is an input container after its kind.
abbrev parser : Parser
parser = record {
  parse = λ p m. true;
  extract_type = λ p m. if bytes_eq m [] then stat else contract_input;
  extract_read_request = λ p m. none;
  extract_signed_input_container = λ p m. some (m, 7 ∷ m);
  extract_subscription_request = λ p m. none;
  extract_ledger_query = λ p m. none;
}

abbrev serve_config : ServeConfig
serve_config = record { execute = true; concurrent_read_requests = 2; limits = limits }

abbrev serving : Serving
serving = record {
  formats = formats;
  parser = parser;
  cfg = serve_config;
  lcl_seq_no = 12;
  now = 1000;
  nonce_map = [];
}

abbrev logged_in : UserContext
logged_in = (handle_message handshake (serve serving key) key 1 issued opened).1

logged_in_users : length logged_in.users ≡ 1
unfolding handle_connect receive verify_challenge admit add_user find put
logged_in_users = refl

login : Reachable handshake logged_in
unfolding handle_connect find put
login =
    next (next start (connected no_users (5 ∷ []) 1 refl))
      (received opened serving key 1 issued refl)

one_session_per_user_example :
    IsConsistent logged_in
    × (length logged_in.users ≤ max_user_count)
    × ((i j : ℕ) (s t : UserSession)
        → find i logged_in.sessions ≡ some s
        → find j logged_in.sessions ≡ some t
        → s.challenge_status ≡ challenge_verified
        → t.challenge_status ≡ challenge_verified
        → s.pubkey ≡ t.pubkey
        → i ≡ j)
one_session_per_user_example = one_session_per_user handshake login

abbrev user : ConnectedUser
user = new_user key json 1

container_of_small :
    (p : Protocol) (c : Bytes) → size_of (formats.extract_input_container p c) < 2 ^ 63
container_of_small p [] = omega arith
container_of_small p (i ∷ []) = omega arith
container_of_small p (i ∷ n ∷ []) = omega arith
container_of_small p (i ∷ n ∷ l ∷ []) = omega arith
container_of_small p (i ∷ n ∷ l ∷ m ∷ c) = omega arith

message-IsTallied_example :
    IsTallied formats 100
      (handle_authed_user_message formats parser serve_config 12 1000
        (4 ∷ 3 ∷ 15 ∷ [])
        user
        []).user
message-IsTallied_example =
    message-IsTallied formats parser serve_config 12 1000 (4 ∷ 3 ∷ 15 ∷ []) user []
      container_of_small (omega arith) (omega arith)
      (record { counted = refl; limited = omega arith })

-- The input has expired.
refused_changes_nothing_example :
    IsRefusal user
      (handle_authed_user_message formats parser serve_config 12 1000 (4 ∷ 3 ∷ 11 ∷ []) user [])
unfolding handle_authed_user_message dispatch take_signed take_input bytes_eq
refused_changes_nothing_example =
    refused_changes_nothing formats parser serve_config 12 1000 (4 ∷ 3 ∷ 11 ∷ []) user [] refl

abbrev subscribed : Users
subscribed =
    (key, subscribe ledger_event true user)
    ∷ (8 ∷ [], subscribe ledger_event true (new_user (8 ∷ []) bson 2))
    ∷ (9 ∷ [], new_user (9 ∷ []) bson 3)
    ∷ []

abbrev events : List ChangeEvent
events =
    vote_status_change synced
    ∷ connectivity_health (record { peer_count = 2; is_weakly_connected = false })
    ∷ []

abbrev notification : Protocol → ChangeEvent → Bytes
notification json ev = 1 ∷ []
notification bson ev = 2 ∷ []

dispatched_two :
    dispatch_change_events notification events subscribed ≡ (1, 1 ∷ []) ∷ (2, 2 ∷ []) ∷ []
unfolding dispatch_change_events notify_users
dispatched_two = refl

dispatched_exactly_example :
    dispatch_change_events notification events subscribed
    ≡ all_subscribers notification events subscribed
dispatched_exactly_example = dispatched_exactly notification events subscribed

abbrev submitting : Users
submitting = (key, record user { submitted_inputs = submit (4 ∷ 3 ∷ 15 ∷ []) ∷ [] }) ∷ []

-- An input with a nonce of 3, one with a nonce of 2, and one that is not signed.
abbrev arrived : List SubmittedUserInput
arrived =
    submit (4 ∷ 3 ∷ 15 ∷ [])
    ∷ submit (6 ∷ 2 ∷ 15 ∷ [])
    ∷ record { input_container = 1 ∷ []; sig = []; protocol = json }
    ∷ []

abbrev arrived_so : List SubmittedUserInput
arrived_so =
    submit (6 ∷ 2 ∷ 15 ∷ [])
    ∷ submit (4 ∷ 3 ∷ 15 ∷ [])
    ∷ record { input_container = 1 ∷ []; sig = []; protocol = json }
    ∷ []

abbrev environment : Environment
environment = record { times = λ n. 1000 + n; pwrite = λ n input. true }

abbrev walked : Walked
walked = record {
  users = [];
  population = record {
    nonce_map = [];
    input_store = record { next_write_pos = 1 };
    total_input_size = 0;
    validations = 0;
    candidates = [];
    responses = [];
  };
  rejections = [];
}

populate_user_any_order_example :
    let a = populate_user formats environment limits 12 key arrived walked in
    let b = populate_user formats environment limits 12 key arrived_so walked in
    (a.population ≡ b.population)
    × (a.users ≡ b.users)
    × ((q : Bytes) → Reordered (or_empty (find q a.rejections)) (or_empty (find q b.rejections)))
unfolding extract_inputs extract_submitted_input bytes_eq
populate_user_any_order_example =
    populate_user_any_order formats environment limits 12 key {xs = arrived} {ys = arrived_so}
      walked (swapped (submit (4 ∷ 3 ∷ 15 ∷ [])) (submit (6 ∷ 2 ∷ 15 ∷ [])))
      (((λ e. omega arith, tt)), ((tt, tt)))

candidates-IsAuthentic_example :
    All
      (HasOrigin formats 12 [])
      (verify_and_populate_candidate_user_inputs formats environment limits 12
        (record { user_inputs = (key, arrived) ∷ [] } ∷ [])
        []
        (record { next_write_pos = 1 })
        (context 0 [])).1.candidate_user_inputs
candidates-IsAuthentic_example =
    candidates-IsAuthentic formats 12 environment limits
      (record { user_inputs = (key, arrived) ∷ [] } ∷ []) [] (record { next_write_pos = 1 })
      (context 0 [])
