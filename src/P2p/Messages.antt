-- ===== src/P2p/Messages.antt =====
-- src/p2p/p2p.cpp: who gets a message, what is collected of the messages that arrive, the capacity that
-- a node announces, and the members of the UNL among the connections. The number that `rand` gives is
-- an argument.
pub mod Capacity
pub mod Members
pub mod Recipients
use hpcore.Base.{
  ℕ, ◌+◌, ◌-◌, ◌*◌, ◌%◌, ◌^◌, Bool, true, false, not, ◌&&◌, ◌||◌, ◌++◌, List, [], ◌∷◌, Option, none,
  some, Bytes, ltb, ◌==◌, if◌then◌else◌, length, select, find, put, nat_keyed, sub64, drop,
}
use hpcore.P2p.Types.{PeerSession, PeerNetwork}
use hpcore.Unl.{Unl, listed, merge_latest_unl_config}

-- The sessions of the connections, with their numbers.
abbrev pub with_session : ℕ → Option PeerSession → List (ℕ × PeerSession) → List (ℕ × PeerSession)
with_session i none rest = rest
with_session i (some s) rest = (i, s) ∷ rest

unfoldable pub connected : List (Bytes × ℕ) → List (ℕ × PeerSession) → List (ℕ × PeerSession)
connected [] sessions = []
connected ((pubkey, i) ∷ rest) sessions = with_session i (find i sessions) (connected rest sessions)

abbrev pub is_session : Option ℕ → ℕ → Bool
is_session none i = false
is_session (some skipping) i = skipping == i

abbrev pub is_recipient : Option ℕ → Bool → Bool → ℕ × PeerSession → Bool
is_recipient skipping_session is_msg_forwarding unl_only (i, session) = not (
    is_session skipping_session i
    || (is_msg_forwarding && not session.need_consensus_msg_forwarding)
    || (unl_only && not session.is_unl))

-- The sessions that the message is sent to, in turn.
unfoldable pub broadcast_message : Option ℕ → Bool → Bool → PeerNetwork → List (ℕ × PeerSession)
broadcast_message skipping_session is_msg_forwarding unl_only net =
    select (is_recipient skipping_session is_msg_forwarding unl_only)
      (connected net.peer_connections net.sessions)

abbrev pub first_of {ℓ} : {A : Type ℓ} → List A → Option A
first_of [] = none
first_of (x ∷ xs) = some x

-- The entry at the random number's remainder; a list without entries gives none.
abbrev pub pick {ℓ} : {A : Type ℓ} → ℕ → List A → Option A
pick random xs = if length xs == 0 then none else first_of (drop (random % length xs) xs)

unfoldable pub send_message_to_random_peer : ℕ → Bool → PeerNetwork → Option (ℕ × PeerSession)
send_message_to_random_peer random full_history_only net =
    let sessions = connected net.peer_connections net.sessions in
    if full_history_only
    then pick random (select (λ e. e.1.is_full_history) sessions)
    else pick random sessions

abbrev pub proposal_list_cap : ℕ
proposal_list_cap = 255

-- `handle_proposal_message` and `handle_nonunl_proposal_message`: what is over the cap is dropped.
unfoldable pub handle_proposal_message {ℓ} : {A : Type ℓ} → A → List A → List A
handle_proposal_message p proposals =
    if length proposals == proposal_list_cap then proposals else proposals ++ p ∷ []

-- The types of messages that are forwarded, and the others.
pub data MsgType : Type 0 where
  proposal_msg nonunl_proposal_msg npl_msg other_msg : MsgType

abbrev pub is_forwarded : MsgType → Bool
is_forwarded proposal_msg = true
is_forwarded nonunl_proposal_msg = true
is_forwarded npl_msg = true
is_forwarded other_msg = false

unfoldable pub validate_for_peer_msg_forwarding : Bool → ℕ → ℕ → MsgType → ℕ → Bool
validate_for_peer_msg_forwarding msg_forwarding roundtime now msg_type originated_on =
    msg_forwarding
    && is_forwarded msg_type
    && not (ltb originated_on (sub64 now (roundtime * 3 % 2 ^ 32)))

-- The sum of 64-bit numbers that is cut to 16 bits, as a bit pattern.
abbrev pub cut16 : ℕ → ℕ → ℕ
cut16 plus minus = sub64 plus minus % 2 ^ 16

unfoldable pub calculate_available_capacity : ℕ → ℕ → ℕ → ℕ → ℕ
calculate_available_capacity max_connections max_known_connections connections known_remote_count =
    if not (max_connections == 0) && not (max_known_connections == 0)
    then (if not (max_connections == max_known_connections)
        then cut16 (max_connections + known_remote_count) (max_known_connections + connections)
        else 0)
    else if not (max_connections == 0)
    then cut16 max_connections connections
    else 2 ^ 16 - 1

-- What a peer makes of the capacity: a negative number of 16 bits is no limit.
abbrev pub announced_capacity : ℕ → Option ℕ
announced_capacity w = if ltb w (2 ^ 15) then some w else none

abbrev pub set_unl :
    (Bytes → Bool) → ℕ → Option PeerSession → List (ℕ × PeerSession) → List (ℕ × PeerSession)
set_unl exists i none sessions = sessions
set_unl exists i (some s) sessions = put i (record s { is_unl = exists s.pubkey }) sessions

unfoldable pub update_unl_sessions :
    (Bytes → Bool) → List (Bytes × ℕ) → List (ℕ × PeerSession) → List (ℕ × PeerSession)
update_unl_sessions exists [] sessions = sessions
update_unl_sessions exists ((pubkey, i) ∷ rest) sessions =
    update_unl_sessions exists rest (set_unl exists i (find i sessions) sessions)

unfoldable pub update_unl_connections : (Bytes → Bool) → PeerNetwork → PeerNetwork
update_unl_connections exists net = record net {
  sessions = update_unl_sessions exists net.peer_connections net.sessions;
}

-- src/unl.cpp: the connections follow a change of the UNL.
unfoldable pub update_unl_changes_from_patch :
    (Bytes → Bytes) → List Bytes → Bytes → Unl → PeerNetwork → Unl × PeerNetwork
update_unl_changes_from_patch to_hex unl public_key s net =
    let (s', is_unl_list_changed) = merge_latest_unl_config to_hex unl public_key s in
    if is_unl_list_changed
    then (s', update_unl_connections (λ q. listed q s'.list) net)
    else (s', net)
