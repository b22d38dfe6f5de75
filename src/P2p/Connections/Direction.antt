-- ===== src/P2p/Connections/Direction.antt =====
-- Two nodes that connect to each other at once keep the same one of the two connections.
use hpcore.Base.{
  ℕ, ◌≡◌, refl, subst, sym, ap, ◌∙◌, inl, inr, Bool, true, false, not, ◌||◌, Option, none, some,
  Bytes, bytes_eq, bytes_lt, arith, ◌==◌, if◌then◌else◌, find, put, erase, find-put, bytes_keyed,
  nat_keyed, Bool-cases, bytes_trichotomy,
}
use hpcore.P2p.Types.{PeerSession, PeerNetwork, has_value}
use hpcore.P2p.Connections.{
  Node, ChallengeResponse, resolve_peer_challenge, existing_session, verified, connect,
  meet_existing, taken_ipport, left_ipport, replace_session, merge_session, replace_needed,
  add_session,
}

abbrev inbound_of : Option PeerSession → Option Bool
inbound_of none = none
inbound_of (some s) = some s.is_inbound

abbrev session_at : Option ℕ → PeerNetwork → Option PeerSession
session_at none net = none
session_at (some i) net = find i net.sessions

-- Whether the connection to a peer, if there is one, was opened by the peer.
abbrev pub direction : Bytes → PeerNetwork → Option Bool
direction pubkey net = inbound_of (session_at (find pubkey net.peer_connections) net)

-- The response answers the session's challenge and is signed, and its key is not our own.
abbrev pub Answers : Node → PeerSession → ChallengeResponse → Type 0
Answers n s resp =
    (bytes_eq s.issued_challenge resp.challenge ≡ true)
    × (n.verify resp.challenge resp.signature resp.pubkey ≡ true)
    × (bytes_eq resp.pubkey n.public_key ≡ false)

answered :
    (n : Node) (resp : ChallengeResponse) (i : ℕ) (s : PeerSession) (net : PeerNetwork)
    → Answers n s resp
    → resolve_peer_challenge n resp i s net
      ≡ connect n resp.pubkey i s (existing_session (find resp.pubkey net.peer_connections) net) net
unfolding resolve_peer_challenge
answered n resp i s net (asked, signed, other) = rw (asked, signed, other) refl

module _ (n : Node) (pubkey : Bytes) (i : ℕ) (s : PeerSession) (j : ℕ) (ex : PeerSession)
    (net : PeerNetwork) (conn : find pubkey net.peer_connections ≡ some j)
    (sess : find j net.sessions ≡ some ex) (apart : (i == j) ≡ false) where
  replaced_direction : direction pubkey (replace_session n pubkey i s j ex net) ≡ some s.is_inbound
  unfolding replace_session
  replaced_direction =
      let new : PeerSession = record (verified n pubkey s) {
        known_ipport = taken_ipport s.known_ipport ex.known_ipport;
        need_consensus_msg_forwarding = ex.need_consensus_msg_forwarding;
      } in
      let old : PeerSession = record ex {
        known_ipport = left_ipport s.known_ipport ex.known_ipport;
        must_close = true;
      } in
      rw
        (
          find-put pubkey pubkey i (erase pubkey net.peer_connections),
          bytes_keyed.same_refl pubkey,
          find-put i i new (put j old net.sessions),
          nat_keyed.same_refl i,
        )
        refl

  merged_direction : direction pubkey (merge_session i s j ex net) ≡ some ex.is_inbound
  unfolding merge_session
  merged_direction =
      let mine : PeerSession = record s { known_ipport = ex.known_ipport } in
      let old : PeerSession = record ex { known_ipport = s.known_ipport } in
      rw
        (
          conn,
          find-put i j mine (put j old net.sessions),
          apart,
          find-put j j old net.sessions,
          nat_keyed.same_refl j,
        )
        refl

  kept_direction : direction pubkey net ≡ some ex.is_inbound
  kept_direction = rw (conn, sess) refl

  -- Of two opposite connections the comparison of the keys decides.
  met_direction :
      ex.is_inbound ≡ not s.is_inbound
      → bytes_eq pubkey n.public_key ≡ false
      → direction pubkey (meet_existing n pubkey i s j ex net).1
        ≡ some (bytes_lt pubkey n.public_key)
  unfolding meet_existing
  met_direction opposite other =
      let facing : (if ex.is_inbound then not s.is_inbound else s.is_inbound) ≡ true =
        ground arith in
      elim (Bool-cases (replace_needed pubkey n.public_key ex.is_inbound)) [
        | inl new ↦ rw (facing, new) (replaced_direction ∙ ap some (wins new))
        | inr old ↦
            elim (Bool-cases (not (has_value ex.known_ipport) || has_value s.known_ipport)) [
              | inl merged ↦ rw (facing, old, merged) (merged_direction ∙ ap some (stays old))
              | inr alone ↦ rw (facing, old, alone) (kept_direction ∙ ap some (stays old))
            ]
      ]
    where
      wins :
          replace_needed pubkey n.public_key ex.is_inbound ≡ true
          → s.is_inbound ≡ bytes_lt pubkey n.public_key
      wins new = ground (arith, bytes_trichotomy pubkey n.public_key other)

      stays :
          replace_needed pubkey n.public_key ex.is_inbound ≡ false
          → ex.is_inbound ≡ bytes_lt pubkey n.public_key
      stays old = ground (arith, bytes_trichotomy pubkey n.public_key other)

-- The two connections that a node has with a peer, in the order in which their challenges were
-- answered, and the network after both.
pub record Link : Type 0 where
  pub id : ℕ
  pub session : PeerSession
  pub response : ChallengeResponse

abbrev pub resolve_both : Node → Link → Link → PeerNetwork → PeerNetwork
resolve_both n x y net =
    (resolve_peer_challenge n y.response y.id y.session
      (resolve_peer_challenge n x.response x.id x.session net).1).1

abbrev pub IsLinkOf : Node → Bytes → Link → Type 0
IsLinkOf n peer x = Answers n x.session x.response × (x.response.pubkey ≡ peer)

both_direction :
    (n : Node) (x y : Link) (net : PeerNetwork)
    → Answers n x.session x.response
    → IsLinkOf n x.response.pubkey y
    → find x.response.pubkey net.peer_connections ≡ none
    → (y.id == x.id) ≡ false
    → x.session.is_inbound ≡ not y.session.is_inbound
    → direction x.response.pubkey (resolve_both n x y net)
      ≡ some (bytes_lt x.response.pubkey n.public_key)
both_direction n x y net ax (ay, same) fresh apart opposite =
    let peer = x.response.pubkey in
    let ex = verified n peer x.session in
    let mid = add_session n peer x.id x.session net in
    let conn : find peer mid.peer_connections ≡ some x.id =
      rw (find-put peer peer x.id net.peer_connections, bytes_keyed.same_refl peer) refl in
    let sess : find x.id mid.sessions ≡ some ex =
      rw (find-put x.id x.id ex net.sessions, nat_keyed.same_refl x.id) refl in
    let one : resolve_peer_challenge n x.response x.id x.session net ≡ (true, mid) =
      answered n x.response x.id x.session net ax ∙ rw fresh refl in
    let two : resolve_peer_challenge n y.response y.id y.session mid
        ≡ meet_existing n peer y.id y.session x.id ex mid =
      answered n y.response y.id y.session mid ay ∙ rw (same, conn, sess) refl in
    ap
      (λ (r : Bool × PeerNetwork).
        direction peer (resolve_peer_challenge n y.response y.id y.session r.1).1)
      one
    ∙ ap (λ (r : Bool × PeerNetwork). direction peer r.1) two
    ∙ met_direction n peer y.id y.session x.id ex mid conn sess apart opposite ax.2

-- Two nodes open a connection to each other at the same time, so each gets to resolve one that it
-- opened and one that the other opened. In whatever order the challenges are answered at either
-- node, the nodes keep the same of the two connections: the one that is inbound at one node is
-- outbound at the other. The nodes have different keys, neither had a connection to the other, and
-- all responses answer their challenges and are signed.
pub links_agree :
    (a b : Node) (xa ya xb yb : Link) (net_a net_b : PeerNetwork)
    → IsLinkOf a b.public_key xa
    → IsLinkOf a b.public_key ya
    → IsLinkOf b a.public_key xb
    → IsLinkOf b a.public_key yb
    → find b.public_key net_a.peer_connections ≡ none
    → find a.public_key net_b.peer_connections ≡ none
    → (ya.id == xa.id) ≡ false
    → (yb.id == xb.id) ≡ false
    → xa.session.is_inbound ≡ not ya.session.is_inbound
    → xb.session.is_inbound ≡ not yb.session.is_inbound
    → (inbound : Bool) × (direction b.public_key (resolve_both a xa ya net_a) ≡ some inbound)
      × (direction a.public_key (resolve_both b xb yb net_b) ≡ some (not inbound))
links_agree a b xa ya xb yb net_a net_b (axa, pxa) (aya, pya) (axb, pxb) (ayb, pyb) fresh_a fresh_b
      apart_a apart_b opposite_a opposite_b =
    (
      bytes_lt b.public_key a.public_key,
      subst
          (λ (k : Bytes). direction k (resolve_both a xa ya net_a) ≡ some (bytes_lt k a.public_key))
          pxa
          (both_direction a xa ya net_a axa (aya, pya ∙ sym pxa) (rw pxa fresh_a) apart_a
            opposite_a),
      subst
            (λ (k : Bytes).
              direction k (resolve_both b xb yb net_b) ≡ some (bytes_lt k b.public_key))
            pxb
            (both_direction b xb yb net_b axb (ayb, pyb ∙ sym pxb) (rw pxb fresh_b) apart_b
              opposite_b)
          ∙ ap some (
              bytes_trichotomy a.public_key b.public_key
                (subst (λ (k : Bytes). bytes_eq k b.public_key ≡ false) pxb axb.2)),
    )
