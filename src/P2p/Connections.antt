-- ===== src/P2p/Connections.antt =====
-- src/p2p/p2p.cpp: `resolve_peer_challenge`, which decides whether a session whose peer has answered
-- the challenge becomes the connection to that peer. The signature check, the conversion to hex and
-- the UNL are arguments.
pub mod Direction
use hpcore.Base.{
  ℕ, Bool, true, false, not, ◌&&◌, ◌||◌, List, [], ◌∷◌, Option, none, some, Bytes, bytes_eq,
  bytes_lt, if◌then◌else◌, find, put, erase, select, length, bytes_keyed, nat_keyed,
}
use hpcore.P2p.Types.{PeerSession, PeerNetwork, PeerProperties, PeerIpPort, is_ip_port, has_value}

pub record ChallengeResponse : Type 0 where
  pub challenge : Bytes
  pub signature : Bytes
  pub pubkey : Bytes

-- What the node calls: `crypto::verify`, `util::to_hex`, `unl::exists`, and its own public key.
pub record Node : Type 0 where
  pub verify : Bytes → Bytes → Bytes → Bool
  pub to_hex : Bytes → Bytes
  pub exists : Bytes → Bool
  pub public_key : Bytes

-- What the session takes from the response once it is accepted.
abbrev pub verified : Node → Bytes → PeerSession → PeerSession
verified n pubkey s = record s {
  uniqueid = n.to_hex pubkey;
  pubkey = pubkey;
  is_unl = n.exists pubkey;
  is_verified = true;
}

-- A connection to ourselves: the address we know it by is ours, and it is no known peer.
unfoldable pub forget_self : Option PeerIpPort → PeerNetwork → PeerNetwork
forget_self none net = net
forget_self (some ip_port) net =
    let rest =
      select (λ peer. not (is_ip_port (some ip_port) peer.ip_port)) net.req_known_remotes in
    record net {
      self_ip_port = some ip_port;
      req_known_remotes = rest;
      known_remote_count = length rest;
    }

-- `session.known_ipport.swap(...)` where the session has none.
abbrev pub taken_ipport : Option PeerIpPort → Option PeerIpPort → Option PeerIpPort
taken_ipport none known = known
taken_ipport (some ip_port) known = some ip_port

abbrev pub left_ipport : Option PeerIpPort → Option PeerIpPort → Option PeerIpPort
left_ipport none known = none
left_ipport (some ip_port) known = known

-- The new session takes the place of the existing one, which is marked for closure.
unfoldable pub replace_session :
    Node → Bytes → ℕ → PeerSession → ℕ → PeerSession → PeerNetwork → PeerNetwork
replace_session n pubkey id session ex_id ex net =
    let new = record (verified n pubkey session) {
      known_ipport = taken_ipport session.known_ipport ex.known_ipport;
      need_consensus_msg_forwarding = ex.need_consensus_msg_forwarding;
    } in
    let old = record ex {
      known_ipport = left_ipport session.known_ipport ex.known_ipport;
      must_close = true;
    } in
    record net {
      sessions = put id new (put ex_id old net.sessions);
      peer_connections = put pubkey id (erase pubkey net.peer_connections);
    }

-- The two sessions swap what they know of the address.
unfoldable pub merge_session : ℕ → PeerSession → ℕ → PeerSession → PeerNetwork → PeerNetwork
merge_session id session ex_id ex net =
    let ex_known = ex.known_ipport in
    let known = session.known_ipport in
    record net {
      sessions =
          put id (record session { known_ipport = ex_known })
            (put ex_id (record ex { known_ipport = known }) net.sessions);
    }

-- `res` of the comparison of the peer's key with ours: which of two connections is kept.
abbrev pub replace_needed : Bytes → Bytes → Bool → Bool
replace_needed pubkey own ex_is_inbound =
    (bytes_lt pubkey own && not ex_is_inbound) || (bytes_lt own pubkey && ex_is_inbound)

unfoldable pub meet_existing :
    Node → Bytes → ℕ → PeerSession → ℕ → PeerSession → PeerNetwork → Bool × PeerNetwork
unfolding replace_session merge_session
meet_existing n pubkey id session ex_id ex net =
    let opposite = if ex.is_inbound then not session.is_inbound else session.is_inbound in
    if not opposite
    then (false, net)
    else if replace_needed pubkey n.public_key ex.is_inbound
    then (true, replace_session n pubkey id session ex_id ex net)
    else if not (has_value ex.known_ipport) || has_value session.known_ipport
    then (false, merge_session id session ex_id ex net)
    else (false, net)

-- The first connection to a peer is taken as it is.
abbrev pub add_session : Node → Bytes → ℕ → PeerSession → PeerNetwork → PeerNetwork
add_session n pubkey id session net = record net {
  sessions = put id (verified n pubkey session) net.sessions;
  peer_connections = put pubkey id net.peer_connections;
}

-- The existing connection of the peer, with its session.
abbrev pub with_id : ℕ → Option PeerSession → Option (ℕ × PeerSession)
with_id i none = none
with_id i (some ex) = some (i, ex)

abbrev pub existing_session : Option ℕ → PeerNetwork → Option (ℕ × PeerSession)
existing_session none net = none
existing_session (some ex_id) net = with_id ex_id (find ex_id net.sessions)

abbrev pub connect :
    Node → Bytes → ℕ → PeerSession → Option (ℕ × PeerSession) → PeerNetwork → Bool × PeerNetwork
connect n pubkey id session none net = (true, add_session n pubkey id session net)
connect n pubkey id session (some (ex_id, ex)) net = meet_existing n pubkey id session ex_id ex net

-- Whether the session is accepted (the source returns 0 or -1), and the network.
unfoldable pub resolve_peer_challenge :
    Node → ChallengeResponse → ℕ → PeerSession → PeerNetwork → Bool × PeerNetwork
unfolding meet_existing forget_self
resolve_peer_challenge n resp id session net =
    if not (bytes_eq session.issued_challenge resp.challenge)
    then (false, net)
    else if not (n.verify resp.challenge resp.signature resp.pubkey)
    then (false, net)
    else if bytes_eq resp.pubkey n.public_key
    then (false, forget_self session.known_ipport net)
    else connect n resp.pubkey id session
        (existing_session (find resp.pubkey net.peer_connections) net) net
