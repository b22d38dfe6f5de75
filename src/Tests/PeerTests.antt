-- ===== src/Tests/PeerTests.antt =====
-- Two nodes that connect to each other, and lists of known peers, at concrete inputs.
use hpcore.Base.{
  contains, ℕ, ◌≡◌, refl, Bool, true, false, not, List, [], ◌∷◌, none, some, Bytes, bytes_eq, find,
  arith,
}
use hpcore.Util.TtlSet
use hpcore.P2p.Types.{PeerIpPort, PeerSession, PeerProperties, PeerNetwork, ip_port_eq}
use hpcore.P2p.Connections.{Node, forget_self}
use hpcore.P2p.Connections.Direction.{Link, resolve_both, direction, links_agree}
use hpcore.P2p.Messages.{update_unl_changes_from_patch}
use hpcore.P2p.Messages.Members.{IsFlagged, update_unl_changes-IsFlagged}
use hpcore.Unl.{Unl, listed, prepare_json_list}
use hpcore.P2p.KnownPeers.{Known, merge, update_peer_list}
use hpcore.P2p.KnownPeers.Order.{IsSorted}
use hpcore.P2p.KnownPeers.Remotes.{IsValidNet, update_peer_list-IsValid}

abbrev node : Bytes → Node
node key = record {
  verify = λ challenge signature pubkey. true;
  to_hex = λ b. b;
  exists = λ b. true;
  public_key = key;
}

abbrev key_a : Bytes
key_a = 1 ∷ []

abbrev key_b : Bytes
key_b = 2 ∷ []

abbrev session : Bool → PeerSession
session is_inbound = record {
  uniqueid = [];
  pubkey = [];
  issued_challenge = 9 ∷ [];
  is_inbound = is_inbound;
  is_unl = false;
  is_full_history = false;
  need_consensus_msg_forwarding = false;
  known_ipport = none;
  is_verified = false;
  must_close = false;
}

abbrev link : ℕ → Bool → Bytes → Link
link id is_inbound peer = record {
  id = id;
  session = session is_inbound;
  response = record { challenge = 9 ∷ []; signature = []; pubkey = peer };
}

abbrev network : List PeerProperties → PeerNetwork
network peers = record {
  sessions = [];
  peer_connections = [];
  req_known_remotes = peers;
  known_remote_count = 0;
  self_ip_port = none;
}

links_agree_example :
    (inbound : Bool) × (direction key_b
        (resolve_both (node key_a) (link 0 true key_b) (link 1 false key_b) (network []))
      ≡ some inbound)
    × (direction key_a
          (resolve_both (node key_b) (link 0 true key_a) (link 1 false key_a) (network []))
        ≡ some (not inbound))
unfolding bytes_eq find
links_agree_example =
    links_agree (node key_a) (node key_b) (link 0 true key_b) (link 1 false key_b)
      (link 0 true key_a) (link 1 false key_a) (network []) (network []) ((refl, refl, refl), refl)
      ((refl, refl, refl), refl) ((refl, refl, refl), refl) ((refl, refl, refl), refl) refl refl
      refl refl refl refl

abbrev address : ℕ → PeerIpPort
address port = record { host_address = 97 ∷ []; port = port }

abbrev peer : ℕ → ℕ → PeerProperties
peer port capacity = record {
  ip_port = address port;
  available_capacity = some capacity;
  timestamp = 500;
  weight = none;
  failed_attempts = 0;
  has_suppressed_us = false;
}

abbrev known : Known
known = record { net = network []; dead_known_peers = TtlSet.empty }

abbrev announced : List PeerProperties
announced = peer 22860 3 ∷ peer 22861 7 ∷ peer 22860 4 ∷ []

none_known : IsValidNet (network [])
none_known = record {
  once = λ a. omega arith;
  not_self = λ a h. refl;
  named = refl;
  capped = omega arith;
}

update_peer_list-IsValid_example :
    IsValidNet (update_peer_list merge 1000 announced (peer 22861 7 ∷ []) known).net
    × IsSorted
        (update_peer_list merge 1000 announced (peer 22861 7 ∷ []) known).net.req_known_remotes
update_peer_list-IsValid_example =
    update_peer_list-IsValid merge 1000 announced (peer 22861 7 ∷ []) known none_known

one_known : IsValidNet (network (peer 22860 3 ∷ []))
one_known = record {
  once = λ a. ground arith;
  not_self = λ a h. cc;
  named = refl;
  capped = omega arith;
}

forgets : (forget_self (some (address 22860)) (network (peer 22860 3 ∷ []))).req_known_remotes ≡ []
unfolding forget_self ip_port_eq bytes_eq
forgets = refl

abbrev unl : Unl
unl = record { list = []; json_list = prepare_json_list (λ b. b) []; is_unl = false }

abbrev one_connected : PeerNetwork
one_connected = record (network []) {
  sessions = (3, record (session true) { pubkey = key_b }) ∷ [];
  peer_connections = (key_b, 3) ∷ [];
}

update_unl_changes-IsFlagged_example :
    let (s', net') = update_unl_changes_from_patch (λ b. b) (key_b ∷ []) key_a unl one_connected in
    IsFlagged (λ q. listed q s'.list) net'
unfolding find contains
update_unl_changes-IsFlagged_example =
    update_unl_changes-IsFlagged (λ b. b) (key_b ∷ []) key_a unl one_connected (refl, refl)
      (refl, tt)

abbrev arrived : List ℕ
arrived = 1 ∷ 2 ∷ []

abbrev there : List ℕ
there = 0 ∷ []
