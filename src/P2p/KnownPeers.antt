-- ===== src/P2p/KnownPeers.antt =====
-- src/p2p/p2p.cpp: the list of known peers, which is updated by announcements of other nodes and by
-- the contract (`update_peer_list`), and kept in the order of the weights. Sessions of peers that are
-- dropped are marked for closure. The clock is an argument.
pub mod Order
pub mod Remotes
use hpcore.Base.{
  ℕ, zero, suc, ◌+◌, ◌-◌, ◌*◌, ◌/◌, ◌%◌, Bool, true, false, not, ◌&&◌, ◌||◌, ◌++◌, List, [], ◌∷◌,
  Option, none, some, Bytes, if◌then◌else◌, find, put, length, ltb, leb, ◌==◌, bytes_keyed,
  nat_keyed, digits,
}
use hpcore.Util.TtlSet.{TtlSet}
use hpcore.Util.TtlSet
use hpcore.P2p.Types.{PeerSession, PeerNetwork, PeerProperties, PeerIpPort, ip_port_eq, is_ip_port}

abbrev pub peer_list_cap : ℕ
peer_list_cap = 256

-- `peer_ip_port::to_string`: the address, a colon and the port.
unfoldable pub to_string : PeerIpPort → Bytes
to_string p = p.host_address ++ 58 ∷ digits 5 p.port []

abbrev pub is_blank : Bytes → Bool
is_blank [] = true
is_blank (b ∷ bs) = false

unfoldable pub knows : PeerIpPort → List PeerProperties → Bool
knows ip_port [] = false
knows ip_port (p ∷ ps) = if ip_port_eq p.ip_port ip_port then true else knows ip_port ps

abbrev pub fresher : PeerProperties → PeerProperties → PeerProperties
fresher peer p =
    if ltb p.timestamp peer.timestamp
    then record p { available_capacity = peer.available_capacity; timestamp = peer.timestamp }
    else p

-- A change to the first entry with an address.
unfoldable pub update_first :
    (PeerProperties → PeerProperties) → PeerIpPort → List PeerProperties → List PeerProperties
update_first f ip_port [] = []
update_first f ip_port (p ∷ ps) =
    let rest = update_first f ip_port ps in
    if ip_port_eq p.ip_port ip_port then f p ∷ ps else p ∷ rest

unfoldable pub erase_first : PeerIpPort → List PeerProperties → List PeerProperties
erase_first ip_port [] = []
erase_first ip_port (p ∷ ps) =
    let rest = erase_first ip_port ps in if ip_port_eq p.ip_port ip_port then ps else p ∷ rest

-- A new peer goes to the end while there is room; a newer announcement replaces an older one.
unfoldable pub merge_remote : PeerProperties → List PeerProperties → List PeerProperties
merge_remote peer remotes =
    if knows peer.ip_port remotes
    then update_first (fresher peer) peer.ip_port remotes
    else if ltb (length remotes) peer_list_cap
    then remotes ++ peer ∷ []
    else remotes

abbrev pub weigh : Option ℕ → ℕ → Option ℕ
weigh none time_diff = none
weigh (some capacity) time_diff = some (capacity * 1000 * 60 / time_diff)

abbrev pub weight_of : ℕ → PeerProperties → Option ℕ
weight_of now peer =
    weigh peer.available_capacity (if ltb peer.timestamp now then now - peer.timestamp else 1)

-- Greater weights come first, and a peer of unlimited capacity, whose weight is -1, comes last.
abbrev pub heavier : Option ℕ → Option ℕ → Bool
heavier none w = false
heavier (some v) none = true
heavier (some v) (some w) = ltb w v

unfoldable pub insert_remote : PeerProperties → List PeerProperties → List PeerProperties
insert_remote p [] = p ∷ []
insert_remote p (q ∷ qs) =
    let rest = insert_remote p qs in if heavier p.weight q.weight then p ∷ q ∷ qs else q ∷ rest

-- `std::sort` by the weight; peers of one weight stand in the order in which they stood.
unfoldable pub sort_remotes : List PeerProperties → List PeerProperties → List PeerProperties
sort_remotes [] sorted = sorted
sort_remotes (p ∷ ps) sorted = sort_remotes ps (insert_remote p sorted)

unfoldable pub weigh_all : ℕ → List PeerProperties → List PeerProperties
weigh_all now [] = []
weigh_all now (p ∷ ps) = record p { weight = weight_of now p } ∷ weigh_all now ps

unfoldable pub sort_known_remotes : ℕ → PeerNetwork → PeerNetwork
sort_known_remotes now net = record net {
  req_known_remotes = sort_remotes (weigh_all now net.req_known_remotes) [];
}

-- The session of the first connection that is known by an address.
abbrev pub known_by : PeerIpPort → ℕ → Option PeerSession → Option ℕ → Option ℕ
known_by ip_port i none later = later
known_by ip_port i (some s) later = if is_ip_port s.known_ipport ip_port then some i else later

unfoldable pub connection_to : PeerIpPort → List (Bytes × ℕ) → List (ℕ × PeerSession) → Option ℕ
connection_to ip_port [] sessions = none
connection_to ip_port ((pubkey, i) ∷ rest) sessions =
    known_by ip_port i (find i sessions) (connection_to ip_port rest sessions)

abbrev pub close_at :
    Option ℕ → Option PeerSession → List (ℕ × PeerSession) → List (ℕ × PeerSession)
close_at none s sessions = sessions
close_at (some i) none sessions = sessions
close_at (some i) (some s) sessions = put i (record s { must_close = true }) sessions

abbrev pub found_session : Option ℕ → List (ℕ × PeerSession) → Option PeerSession
found_session none sessions = none
found_session (some i) sessions = find i sessions

unfoldable pub close_connection : PeerIpPort → PeerNetwork → PeerNetwork
close_connection ip_port net =
    let target = connection_to ip_port net.peer_connections net.sessions in
    record net { sessions = close_at target (found_session target net.sessions) net.sessions }

unfoldable pub close_all : List PeerProperties → PeerNetwork → PeerNetwork
close_all [] net = net
close_all (p ∷ ps) net = close_all ps (close_connection p.ip_port net)

pub data UpdateMode : Type 0 where
  merge force overwrite : UpdateMode

-- The network with the peers that are remembered as unavailable.
pub record Known : Type 0 where
  pub net : PeerNetwork
  pub dead_known_peers : TtlSet

abbrev pub with_remotes : List PeerProperties → PeerNetwork → PeerNetwork
with_remotes remotes net = record net { req_known_remotes = remotes }

-- In a merge, a peer that was removed for being unavailable is not taken back for some time.
unfoldable pub admits : UpdateMode → ℕ → Bytes → TtlSet → Bool × TtlSet
admits merge now name dead =
    let (is_dead, dead') = TtlSet.exists name now dead in (not is_dead, dead')
admits force now name dead = (true, TtlSet.erase_key name dead)
admits overwrite now name dead = (true, TtlSet.erase_key name dead)

unfoldable pub add_peer : UpdateMode → ℕ → PeerProperties → Known → Known
add_peer mode now peer k =
    let (admitted, dead) = admits mode now (to_string peer.ip_port) k.dead_known_peers in
    if is_blank peer.ip_port.host_address
    then k
    else if is_ip_port k.net.self_ip_port peer.ip_port
    then k
    else if admitted
    then record {
      net = with_remotes (merge_remote peer k.net.req_known_remotes) k.net;
      dead_known_peers = dead;
    }
    else record k { dead_known_peers = dead }

unfoldable pub add_peers : UpdateMode → ℕ → List PeerProperties → Known → Known
add_peers mode now [] k = k
add_peers mode now (p ∷ ps) k = add_peers mode now ps (add_peer mode now p k)

unfoldable pub remove_peer : PeerIpPort → PeerNetwork → PeerNetwork
remove_peer ip_port net =
    let closed = close_connection ip_port net in
    if knows ip_port net.req_known_remotes
    then with_remotes (erase_first ip_port net.req_known_remotes) closed
    else net

unfoldable pub remove_peers : List PeerProperties → PeerNetwork → PeerNetwork
remove_peers [] net = net
remove_peers (p ∷ ps) net = remove_peers ps (remove_peer p.ip_port net)

-- What is done before the peers are added, and which are removed after it.
unfoldable pub start_update : UpdateMode → PeerNetwork → PeerNetwork
start_update overwrite net = with_remotes [] (close_all net.req_known_remotes net)
start_update merge net = net
start_update force net = net

abbrev pub removed_in : UpdateMode → List PeerProperties → List PeerProperties
removed_in overwrite removed = []
removed_in merge removed = removed
removed_in force removed = removed

-- A list that a caller does not give is empty here; every caller gives the peers to add.
unfoldable pub update_peer_list :
    UpdateMode → ℕ → List PeerProperties → List PeerProperties → Known → Known
update_peer_list mode now added removed k =
    let k' = add_peers mode now added (record k { net = start_update mode k.net }) in
    record k' { net = sort_known_remotes now (remove_peers (removed_in mode removed) k'.net) }

abbrev pub announce : Option ℕ → ℕ → PeerProperties → PeerProperties
announce capacity timestamp p = record p { available_capacity = capacity; timestamp = timestamp }

unfoldable pub update_known_peer_available_capacity :
    PeerIpPort → Option ℕ → ℕ → ℕ → PeerNetwork → PeerNetwork
update_known_peer_available_capacity ip_port capacity timestamp now net =
    let remotes = update_first (announce capacity timestamp) ip_port net.req_known_remotes in
    if knows ip_port net.req_known_remotes
    then sort_known_remotes now (with_remotes remotes net)
    else net

-- A peer that belongs to another contract has asked not to be connected to.
unfoldable pub handle_suppress_message : Bool → Option PeerIpPort → PeerNetwork → PeerNetwork
handle_suppress_message contract_mismatch none net = net
handle_suppress_message contract_mismatch (some ip_port) net =
    let remotes =
      update_first (λ p. record p { has_suppressed_us = true }) ip_port net.req_known_remotes in
    if contract_mismatch then with_remotes remotes net else net
