-- ===== src/P2p/Types.antt =====
-- The state of the peer to peer layer (src/p2p/p2p.hpp, src/p2p/peer_comm_session.hpp) and the
-- address of a peer (src/conf.hpp). Sessions are objects that the connection table points to: the
-- table holds their numbers, and the sessions are found by number.
use hpcore.Base.{
  ℕ, Bool, true, false, ◌&&◌, List, Option, none, some, Bytes, bytes_eq, ◌==◌, ◌≡◌, arith, Keyed,
  bytes_eq_iff, nat_keyed,
}

pub record PeerIpPort : Type 0 where
  pub host_address : Bytes
  pub port : ℕ

unfoldable pub ip_port_eq : PeerIpPort → PeerIpPort → Bool
ip_port_eq a b = bytes_eq a.host_address b.host_address && (a.port == b.port)

pub ip_port_eq_refl : (a : PeerIpPort) → ip_port_eq a a ≡ true
unfolding ip_port_eq
ip_port_eq_refl a = ground (arith, bytes_eq_iff a.host_address a.host_address)

pub ip_port_eq_cong : (a b c : PeerIpPort) → ip_port_eq a b ≡ true → ip_port_eq a c ≡ ip_port_eq b c
unfolding ip_port_eq
ip_port_eq_cong a b c h = ground (
  arith,
  bytes_eq_iff a.host_address b.host_address,
  bytes_eq_iff a.host_address c.host_address,
  bytes_eq_iff b.host_address c.host_address,
)

instance abbrev pub ip_port_keyed : Keyed PeerIpPort
ip_port_keyed = record {
  same = ip_port_eq;
  same_refl = ip_port_eq_refl;
  same_cong = ip_port_eq_cong;
}

-- `std::optional` compared with a value.
abbrev pub is_ip_port : Option PeerIpPort → PeerIpPort → Bool
is_ip_port none b = false
is_ip_port (some a) b = ip_port_eq a b

abbrev pub has_value {ℓ} : {A : Type ℓ} → Option A → Bool
has_value none = false
has_value (some a) = true

-- The part of a session that the connection table deals with.
pub record PeerSession : Type 0 where
  pub uniqueid : Bytes
  pub pubkey : Bytes
  pub issued_challenge : Bytes
  pub is_inbound : Bool
  pub is_unl : Bool
  pub is_full_history : Bool
  pub need_consensus_msg_forwarding : Bool
  pub known_ipport : Option PeerIpPort
  pub is_verified : Bool
  pub must_close : Bool

-- The capacity of a peer is negative when it is unlimited: `none`.
pub record PeerProperties : Type 0 where
  pub ip_port : PeerIpPort
  pub available_capacity : Option ℕ
  pub timestamp : ℕ
  pub weight : Option ℕ
  pub failed_attempts : ℕ
  pub has_suppressed_us : Bool

pub record PeerNetwork : Type 0 where
  pub sessions : List (ℕ × PeerSession)
  pub peer_connections : List (Bytes × ℕ)
  pub req_known_remotes : List PeerProperties
  pub known_remote_count : ℕ
  pub self_ip_port : Option PeerIpPort
