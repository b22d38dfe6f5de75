-- ===== src/P2p/Messages/Members.antt =====
-- Whether a session belongs to a member of the UNL is known after every change of the UNL.
use hpcore.Base.{
  ℕ, ◌≡◌, refl, subst, sym, Bool, true, false, List, [], ◌∷◌, Option, none, some, Bytes, find,
  find-put, nat_keyed, ◌==◌, All, Bool-cases, Option-cases, inl, inr, ◌∙◌,
}
use hpcore.P2p.Types.{PeerSession, PeerNetwork}
use hpcore.P2p.Messages.{
  set_unl, update_unl_sessions, update_unl_connections, update_unl_changes_from_patch,
}
use hpcore.Unl.{Unl, listed, merge_latest_unl_config}
use hpcore.Unl.Merging.{IsCurrent, merge-IsCurrent}

abbrev FlaggedBy : (Bytes → Bool) → Option PeerSession → Type 0
FlaggedBy exists none = Unit
FlaggedBy exists (some s) = s.is_unl ≡ exists s.pubkey

-- The sessions of the connections know whether their peers are members.
abbrev pub IsFlagged : (Bytes → Bool) → PeerNetwork → Type 0
IsFlagged exists net =
    All (λ (c : Bytes × ℕ). FlaggedBy exists (find c.1 net.sessions)) net.peer_connections

module _ (exists : Bytes → Bool) where
  set_unl-flags :
      (i : ℕ) (sessions : List (ℕ × PeerSession))
      → FlaggedBy exists (find i (set_unl exists i (find i sessions) sessions))
  set_unl-flags i sessions = elim (Option-cases (find i sessions)) [
    | inl absent ↦ rw (absent, absent) tt
    | inr (s, present) ↦
        rw
          (
            present,
            find-put i i (record s { is_unl = exists s.pubkey }) sessions,
            nat_keyed.same_refl i,
          )
          refl
  ]

  set_unl-keeps :
      (j i : ℕ) (sessions : List (ℕ × PeerSession))
      → FlaggedBy exists (find j sessions)
      → FlaggedBy exists (find j (set_unl exists i (find i sessions) sessions))
  set_unl-keeps j i sessions h = elim (Option-cases (find i sessions)) [
    | inl absent ↦ rw absent h
    | inr (s, present) ↦
        let found = find-put i j (record s { is_unl = exists s.pubkey }) sessions in
        elim (Bool-cases (i == j)) [
          | inl same ↦ rw (present, found, same) refl
          | inr other ↦ rw (present, found, other) h
        ]
  ]

  update-keeps :
      (j : ℕ) (conns : List (Bytes × ℕ)) (sessions : List (ℕ × PeerSession))
      → FlaggedBy exists (find j sessions)
      → FlaggedBy exists (find j (update_unl_sessions exists conns sessions))
  unfolding update_unl_sessions
  update-keeps j [] sessions h = h
  update-keeps j ((k, i) ∷ conns) sessions h =
      update-keeps j conns (set_unl exists i (find i sessions) sessions)
        (set_unl-keeps j i sessions h)

  update-flags :
      (conns : List (Bytes × ℕ)) (sessions : List (ℕ × PeerSession))
      → All
          (λ (c : Bytes × ℕ).
            FlaggedBy exists (find c.1 (update_unl_sessions exists conns sessions)))
          conns
  unfolding update_unl_sessions
  update-flags [] sessions = tt
  update-flags ((k, i) ∷ conns) sessions =
      let next = set_unl exists i (find i sessions) sessions in
      (update-keeps i conns next (set_unl-flags i sessions), update-flags conns next)

-- After the UNL is taken from the patch file, every session of a connection knows whether its peer is
-- a member of the new UNL, whether or not the UNL changed. The sessions knew it of the old one, and
-- the printed list and the node's own membership were current.
pub update_unl_changes-IsFlagged :
    (to_hex : Bytes → Bytes) (unl : List Bytes) (public_key : Bytes) (s : Unl) (net : PeerNetwork)
    → IsCurrent to_hex unl public_key s
    → IsFlagged (λ q. listed q s.list) net
    → let (s', net') = update_unl_changes_from_patch to_hex unl public_key s net in
      IsFlagged (λ q. listed q s'.list) net'
unfolding update_unl_changes_from_patch update_unl_connections
update_unl_changes-IsFlagged to_hex unl public_key s net current flagged =
    let (s', changed) = merge_latest_unl_config to_hex unl public_key s in
    elim (Bool-cases (merge_latest_unl_config to_hex unl public_key s).1) [
      | inl yes_changed ↦ rw yes_changed (
          update-flags (λ q. listed q (merge_latest_unl_config to_hex unl public_key s).0.list)
            net.peer_connections net.sessions)
      | inr unchanged ↦ rw unchanged (elim (merge-IsCurrent to_hex unl public_key s current).1 [
        | inl did ↦ let clash : false ≡ true = sym unchanged ∙ did in cc
        | inr same ↦ subst (λ list. IsFlagged (λ q. listed q list) net) (sym same) flagged
      ])
    ]
