-- ===== src/P2p/KnownPeers/Remotes.antt =====
-- What holds of the list of known peers whatever is announced, removed or forgotten.
use hpcore.Base.{
  ℕ, ◌≤◌, ◌≡◌, refl, Bool, true, false, not, List, [], ◌∷◌, Option, none, some, arith, select,
  same_sym, Bool-cases, inl, inr,
}
use hpcore.P2p.Types.{
  PeerIpPort, PeerProperties, PeerNetwork, ip_port_eq, ip_port_keyed, is_ip_port,
}
use hpcore.P2p.Connections.{forget_self}
use hpcore.P2p.KnownPeers.{
  is_blank, erase_first, merge_remote, sort_remotes, weigh_all, peer_list_cap, close_connection,
  close_all, UpdateMode, merge, force, overwrite, Known, admits, to_string, add_peer, add_peers,
  remove_peer, remove_peers, removed_in, start_update, sort_known_remotes, update_peer_list, knows,
}
use hpcore.P2p.KnownPeers.Order.{
  tally, at, tally-erase_first, tally-sort_remotes, tally-weigh_all, tally-merge_remote,
  once-merge_remote, capped-merge_remote, IsSorted, sort_remotes-IsSorted,
}

abbrev nameless : PeerIpPort → Bool
nameless q = is_blank q.host_address

-- No address is known twice, none of them is our own or blank, and the list is within its cap.
pub record IsValid (self : Option PeerIpPort) (ps : List PeerProperties) : Type 0 where
  pub once : (a : PeerIpPort) → tally (at a) ps ≤ 1
  pub not_self : (a : PeerIpPort) → is_ip_port self a ≡ true → tally (at a) ps ≡ 0
  pub named : tally nameless ps ≡ 0
  pub capped : tally (λ q. true) ps ≤ peer_list_cap

abbrev pub IsValidNet : PeerNetwork → Type 0
IsValidNet net = IsValid net.self_ip_port net.req_known_remotes

-- A list with no more peers of any kind stays valid.
fewer-IsValid :
    (self : Option PeerIpPort) (ps qs : List PeerProperties)
    → ((f : PeerIpPort → Bool) → tally f qs ≤ tally f ps)
    → IsValid self ps
    → IsValid self qs
fewer-IsValid self ps qs le v = record {
  once = λ a. omega (arith, le (at a), v.once a);
  not_self = λ a h. omega (arith, le (at a), v.not_self a h);
  named = omega (arith, le nameless, v.named);
  capped = omega (arith, le (λ q. true), v.capped);
}

empty-IsValid : (self : Option PeerIpPort) → IsValid self []
empty-IsValid self = record {
  once = λ a. omega arith;
  not_self = λ a h. refl;
  named = refl;
  capped = omega arith;
}

-- Whether our own address is that of a peer.
is_self :
    (self : Option PeerIpPort) (a b : PeerIpPort)
    → is_ip_port self a ≡ true
    → is_ip_port self b ≡ false
    → ip_port_eq b a ≡ false
is_self none a b h k = cc
is_self (some s) a b h k =
    ground (arith, ip_port_keyed.same_cong s a b, same_sym ⦃k = ip_port_keyed⦄ a b)

merge_remote-IsValid :
    (self : Option PeerIpPort) (p : PeerProperties) (ps : List PeerProperties)
    → is_blank p.ip_port.host_address ≡ false
    → is_ip_port self p.ip_port ≡ false
    → IsValid self ps
    → IsValid self (merge_remote p ps)
merge_remote-IsValid self p ps full other v = record {
  once = λ a. once-merge_remote a p ps (v.once a);
  not_self = λ a h.
      ground
        (arith, tally-merge_remote (at a) p ps, v.not_self a h, is_self self a p.ip_port h other);
  named = ground (arith, tally-merge_remote nameless p ps, v.named);
  capped = capped-merge_remote p ps v.capped;
}

add_peer-IsValid :
    (mode : UpdateMode) (now : ℕ) (p : PeerProperties) (k : Known)
    → IsValidNet k.net
    → IsValidNet (add_peer mode now p k).net
unfolding add_peer
add_peer-IsValid mode now p k v = elim (Bool-cases (is_blank p.ip_port.host_address)) [
  | inl blank ↦ rw blank v
  | inr full ↦ elim (Bool-cases (is_ip_port k.net.self_ip_port p.ip_port)) [
    | inl ours ↦ rw (full, ours) v
    | inr other ↦ elim (Bool-cases (admits mode now (to_string p.ip_port) k.dead_known_peers).0) [
      | inl admitted ↦
          rw (full, other, admitted)
            (merge_remote-IsValid k.net.self_ip_port p k.net.req_known_remotes full other v)
      | inr dead ↦ rw (full, other, dead) v
    ]
  ]
]

add_peers-IsValid :
    (mode : UpdateMode) (now : ℕ) (ps : List PeerProperties) (k : Known)
    → IsValidNet k.net
    → IsValidNet (add_peers mode now ps k).net
unfolding add_peers
add_peers-IsValid mode now [] k v = v
add_peers-IsValid mode now (p ∷ ps) k v =
    add_peers-IsValid mode now ps (add_peer mode now p k) (add_peer-IsValid mode now p k v)

close_connection-IsValid :
    (a : PeerIpPort) (net : PeerNetwork) → IsValidNet net → IsValidNet (close_connection a net)
unfolding close_connection
close_connection-IsValid a net v = v

close_all-IsValid :
    (ps : List PeerProperties) (net : PeerNetwork) → IsValidNet net → IsValidNet (close_all ps net)
unfolding close_all
close_all-IsValid [] net v = v
close_all-IsValid (p ∷ ps) net v =
    close_all-IsValid ps (close_connection p.ip_port net) (close_connection-IsValid p.ip_port net v)

remove_peer-IsValid :
    (a : PeerIpPort) (net : PeerNetwork) → IsValidNet net → IsValidNet (remove_peer a net)
unfolding remove_peer close_connection
remove_peer-IsValid a net v = elim (Bool-cases (knows a net.req_known_remotes)) [
  | inl known ↦ rw known (
      fewer-IsValid net.self_ip_port net.req_known_remotes (erase_first a net.req_known_remotes)
        (λ f. tally-erase_first f a net.req_known_remotes) v)
  | inr unknown ↦ rw unknown v
]

remove_peers-IsValid :
    (ps : List PeerProperties) (net : PeerNetwork)
    → IsValidNet net
    → IsValidNet (remove_peers ps net)
unfolding remove_peers
remove_peers-IsValid [] net v = v
remove_peers-IsValid (p ∷ ps) net v =
    remove_peers-IsValid ps (remove_peer p.ip_port net) (remove_peer-IsValid p.ip_port net v)

start_update-IsValid :
    (mode : UpdateMode) (net : PeerNetwork) → IsValidNet net → IsValidNet (start_update mode net)
unfolding start_update
start_update-IsValid merge net v = v
start_update-IsValid force net v = v
start_update-IsValid overwrite net v =
    empty-IsValid (close_all net.req_known_remotes net).self_ip_port

sort_known_remotes-IsValid :
    (now : ℕ) (net : PeerNetwork) → IsValidNet net → IsValidNet (sort_known_remotes now net)
unfolding sort_known_remotes
sort_known_remotes-IsValid now net v =
    let ps = net.req_known_remotes in
    fewer-IsValid net.self_ip_port ps (sort_remotes (weigh_all now ps) [])
      (λ f. omega (arith, tally-sort_remotes f (weigh_all now ps) [], tally-weigh_all f now ps)) v

-- An update of the known peers in any mode, with any peers to add and to remove, leaves a list that
-- holds no address twice, neither our own address nor a blank one, at most 256 peers, and that
-- stands in the order of the weights. The list was valid before.
pub update_peer_list-IsValid :
    (mode : UpdateMode) (now : ℕ) (added removed : List PeerProperties) (k : Known)
    → IsValidNet k.net
    → IsValidNet (update_peer_list mode now added removed k).net
      × IsSorted (update_peer_list mode now added removed k).net.req_known_remotes
unfolding update_peer_list sort_known_remotes
update_peer_list-IsValid mode now added removed k v =
    let k1 : Known = record k { net = start_update mode k.net } in
    let k2 = add_peers mode now added k1 in
    let net = remove_peers (removed_in mode removed) k2.net in
    (
      sort_known_remotes-IsValid now net (
          remove_peers-IsValid (removed_in mode removed) k2.net
            (add_peers-IsValid mode now added k1 (start_update-IsValid mode k.net v))),
      sort_remotes-IsSorted (weigh_all now net.req_known_remotes) [] tt,
    )

count-select :
    (f keep : PeerIpPort → Bool) (ps : List PeerProperties)
    → tally f (select (λ p. keep p.ip_port) ps) ≤ tally f ps
count-select f keep [] = omega arith
count-select f keep (p ∷ ps) = ground (arith, count-select f keep ps)

-- None of the peers that pass a test is one that the test refuses.
count-select_refused :
    (f keep : PeerIpPort → Bool) (ps : List PeerProperties)
    → ((q : PeerIpPort) → f q ≡ true → keep q ≡ false)
    → tally f (select (λ p. keep p.ip_port) ps) ≡ 0
count-select_refused f keep [] apart = refl
count-select_refused f keep (p ∷ ps) apart =
    ground (arith, apart p.ip_port, count-select_refused f keep ps apart)

-- When a node finds that a connection leads to itself, its own address leaves the known peers.
pub forget_self-IsValid :
    (known : Option PeerIpPort) (net : PeerNetwork)
    → IsValidNet net
    → IsValidNet (forget_self known net)
unfolding forget_self
forget_self-IsValid none net v = v
forget_self-IsValid (some s) net v =
    let keep = λ (q : PeerIpPort). not (ip_port_eq s q) in
    let ps = net.req_known_remotes in
    let le = λ (f : PeerIpPort → Bool). count-select f keep ps in
    record {
      once = λ a. omega (arith, le (at a), v.once a);
      not_self = λ a h. count-select_refused (at a) keep ps (λ q same.
          ground (arith, ip_port_keyed.same_cong s a q, same_sym ⦃k = ip_port_keyed⦄ a q));
      named = omega (arith, le nameless, v.named);
      capped = omega (arith, le (λ q. true), v.capped);
    }
