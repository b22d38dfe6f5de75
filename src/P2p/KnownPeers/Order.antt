-- ===== src/P2p/KnownPeers/Order.antt =====
-- How many known peers have an address, through every change to the list, and the order of the list.
use hpcore.Base.{
  ℕ, suc, ◌+◌, ◌≤◌, ◌≡◌, refl, ap, Bool, true, false, List, [], ◌∷◌, Option, none, some, arith,
  count, count-append, length, same_sym,
}
use hpcore.P2p.Types.{PeerIpPort, PeerProperties, ip_port_eq, ip_port_keyed}
use hpcore.P2p.KnownPeers.{
  knows, update_first, erase_first, merge_remote, insert_remote, sort_remotes, weigh_all, heavier,
  fresher, peer_list_cap,
}

-- How many peers have an address that passes a test.
abbrev pub tally : (PeerIpPort → Bool) → List PeerProperties → ℕ
tally f = count (λ p. f p.ip_port)

abbrev pub at : PeerIpPort → PeerIpPort → Bool
at a q = ip_port_eq q a

pub tally-length : (ps : List PeerProperties) → tally (λ q. true) ps ≡ length ps
tally-length [] = refl
tally-length (p ∷ ps) = ap suc (tally-length ps)

module _ (f : PeerIpPort → Bool) where
  pub tally-update_first :
      (g : PeerProperties → PeerProperties) (a : PeerIpPort) (ps : List PeerProperties)
      → ((p : PeerProperties) → (g p).ip_port ≡ p.ip_port)
      → tally f (update_first g a ps) ≡ tally f ps
  unfolding update_first
  tally-update_first g a [] keeps = refl
  tally-update_first g a (p ∷ ps) keeps =
      ground (arith, ap f (keeps p), tally-update_first g a ps keeps)

  pub tally-erase_first :
      (a : PeerIpPort) (ps : List PeerProperties) → tally f (erase_first a ps) ≤ tally f ps
  unfolding erase_first
  tally-erase_first a [] = omega arith
  tally-erase_first a (p ∷ ps) = ground (arith, tally-erase_first a ps)

  pub tally-insert_remote :
      (p : PeerProperties) (qs : List PeerProperties)
      → tally f (insert_remote p qs) ≡ tally f (p ∷ qs)
  unfolding insert_remote
  tally-insert_remote p [] = refl
  tally-insert_remote p (q ∷ qs) = ground (arith, tally-insert_remote p qs)

  pub tally-sort_remotes :
      (ps qs : List PeerProperties) → tally f (sort_remotes ps qs) ≡ tally f ps + tally f qs
  unfolding sort_remotes
  tally-sort_remotes [] qs = omega arith
  tally-sort_remotes (p ∷ ps) qs =
      ground (arith, tally-sort_remotes ps (insert_remote p qs), tally-insert_remote p qs)

  pub tally-weigh_all :
      (now : ℕ) (ps : List PeerProperties) → tally f (weigh_all now ps) ≡ tally f ps
  unfolding weigh_all
  tally-weigh_all now [] = refl
  tally-weigh_all now (p ∷ ps) = ground (arith, tally-weigh_all now ps)

  pub tally-merge_remote :
      (p : PeerProperties) (ps : List PeerProperties)
      → tally f (merge_remote p ps) ≤ tally f ps + tally f (p ∷ [])
  unfolding merge_remote
  tally-merge_remote p ps = ground (
    arith,
    tally-update_first (fresher p) p.ip_port ps (λ q. ground arith),
    count-append (λ q. f q.ip_port) ps (p ∷ []),
  )

knows-cong :
    (a b : PeerIpPort) (ps : List PeerProperties) → ip_port_eq a b ≡ true → knows a ps ≡ knows b ps
unfolding knows
knows-cong a b [] h = refl
knows-cong a b (p ∷ ps) h = ground (
  arith,
  ip_port_keyed.same_cong a b p.ip_port,
  same_sym ⦃k = ip_port_keyed⦄ a p.ip_port,
  same_sym ⦃k = ip_port_keyed⦄ b p.ip_port,
  knows-cong a b ps h,
)

tally-knows : (a : PeerIpPort) (ps : List PeerProperties) → knows a ps ≡ false → tally (at a) ps ≡ 0
unfolding knows
tally-knows a [] h = refl
tally-knows a (p ∷ ps) h = ground (arith, tally-knows a ps)

-- A peer is merged under the address that it has already, so no address comes in twice.
pub once-merge_remote :
    (a : PeerIpPort) (p : PeerProperties) (ps : List PeerProperties)
    → tally (at a) ps ≤ 1
    → tally (at a) (merge_remote p ps) ≤ 1
unfolding merge_remote
once-merge_remote a p ps once = ground (
  arith,
  tally-update_first (at a) (fresher p) p.ip_port ps (λ q. ground arith),
  count-append (λ q. at a q.ip_port) ps (p ∷ []),
  knows-cong p.ip_port a ps,
  tally-knows a ps,
)

pub capped-merge_remote :
    (p : PeerProperties) (ps : List PeerProperties)
    → tally (λ q. true) ps ≤ peer_list_cap
    → tally (λ q. true) (merge_remote p ps) ≤ peer_list_cap
unfolding merge_remote
capped-merge_remote p ps capped = ground (
  arith,
  tally-update_first (λ q. true) (fresher p) p.ip_port ps (λ q. ground arith),
  count-append (λ q. true) ps (p ∷ []),
  tally-length ps,
)

-- The list stands in the order of the weights: no peer comes before a heavier one.
abbrev pub IsSorted : List PeerProperties → Type 0
IsSorted [] = Unit
IsSorted (p ∷ []) = Unit
IsSorted (p ∷ q ∷ ps) = (heavier q.weight p.weight ≡ false) × IsSorted (q ∷ ps)

heavier_asym : (u v : Option ℕ) → heavier u v ≡ true → heavier v u ≡ false
heavier_asym none v h = cc
heavier_asym (some u) none h = refl
heavier_asym (some u) (some v) h = ground arith

insert_remote-IsSorted :
    (p : PeerProperties) (qs : List PeerProperties) → IsSorted qs → IsSorted (insert_remote p qs)
unfolding insert_remote
insert_remote-IsSorted p [] s = tt
insert_remote-IsSorted p (q ∷ []) s = ground (arith, heavier_asym p.weight q.weight)
insert_remote-IsSorted p (q ∷ r ∷ qs) s =
    ground (arith, heavier_asym p.weight q.weight, insert_remote-IsSorted p (r ∷ qs) s.1)

pub sort_remotes-IsSorted :
    (ps qs : List PeerProperties) → IsSorted qs → IsSorted (sort_remotes ps qs)
unfolding sort_remotes
sort_remotes-IsSorted [] qs s = s
sort_remotes-IsSorted (p ∷ ps) qs s =
    sort_remotes-IsSorted ps (insert_remote p qs) (insert_remote-IsSorted p qs s)
