-- ===== src/Consensus/Closing/Agreement.antt =====
-- A ledger is closed by a quorum, and two quorums do not close different ledgers.
use hpcore.Base.{
  ◌⊎◌, ℕ, ◌+◌, ◌*◌, ◌<◌, ◌≤◌, ◌≡◌, refl, ap, ◌∙◌, sym, inl, inr, Bool, true, false, ◌&&◌, List, [],
  ◌∷◌, Option, none, some, Bytes, find, map_find, ordered_keyed, equivalent, select, count, length,
  length-select, count-le-length, ltb, ◌==◌, arith, Bool-cases, Distinct, same_sym, bytes_keyed,
}
use hpcore.Util.SequenceHash.{H32, h32_empty, h32_lt}
use hpcore.Util.SequenceHash.Keys.{h32_ordered}
use hpcore.Consensus.Types.{Proposal}
use hpcore.Consensus.Candidates.{Proposals}
use hpcore.Consensus.Votes.{elect}
use hpcore.Consensus.Votes.Tally.{votes, elect_max, elect_votes, Won}
use hpcore.Consensus.Votes.Quorum.{quorums_meet, Within}
use hpcore.Consensus.Closing.{
  stage3_proposals, group_all, sizes, min_votes_required, close_with, front, decide_close,
}
use hpcore.Consensus.Closing.Grouping.{
  or_nil, members, alike, group_all-Ascending, members-group_all, sizes-Ascending, votes-sizes,
}

-- Who supports closing the ledger with a root hash: a stage 3 proposal whose root hash is the same
-- key.
abbrev pub supports : H32 → Proposal → Bool
supports h p = (p.stage == 3) && alike h p

count-stage3 :
    (q : H32) (candidates : Proposals)
    → count (alike q) (stage3_proposals candidates) ≡ count (λ e. supports q e.1) candidates
count-stage3 q [] = refl
count-stage3 q ((k, p) ∷ candidates) = ground (arith, count-stage3 q candidates)

-- The proposal is one of those.
abbrev pub IsAmong : List Proposal → Proposal → Type 0
IsAmong [] p = ⊥
IsAmong (v ∷ ps) p = (v ≡ p) ⊎ IsAmong ps p

head_alike :
    (q : H32) (ps rest : List Proposal) (p : Proposal)
    → select (alike q) ps ≡ p ∷ rest
    → alike q p ≡ true
head_alike q [] rest p h = cc
head_alike q (v ∷ ps) rest p h = elim (Bool-cases (alike q v)) [
  | inl hit ↦ same v (rw hit at h) hit
  | inr miss ↦ head_alike q ps rest p (rw miss at h)
]
  where
    same : (w : Proposal) → w ∷ select (alike q) ps ≡ p ∷ rest → alike q w ≡ true → alike q p ≡ true
    same w e hit = cc

supports-cong :
    (h q : H32) (candidates : Proposals)
    → equivalent h32_ordered h q ≡ true
    → count (λ e. supports q e.1) candidates ≡ count (λ e. supports h e.1) candidates
supports-cong h q [] e = refl
supports-cong h q ((k, p) ∷ candidates) e =
    let agree : equivalent h32_ordered p.root_hash q ≡ equivalent h32_ordered p.root_hash h =
      same_sym ⦃k = ordered_keyed h32_ordered⦄ p.root_hash q
      ∙ sym ((ordered_keyed h32_ordered).same_cong h q p.root_hash e)
      ∙ same_sym ⦃k = ordered_keyed h32_ordered⦄ h p.root_hash in
    rw agree (ground (arith, supports-cong h q candidates e))

front_lem :
    (o : Option (List Proposal)) (p : Proposal)
    → front o ≡ close_with p
    → (rest : List Proposal) × (or_nil o ≡ p ∷ rest)
unfolding front
front_lem none p h = cc
front_lem (some []) p h = cc
front_lem (some (v ∷ rest)) p h = (rest, ground arith)

members_lem : (q : H32) (ps : List Proposal) → members q (group_all ps []) ≡ select (alike q) ps
unfolding find
members_lem q ps = members-group_all q ps [] tt

votes_lem :
    (q : H32) (candidates : Proposals)
    → votes h32_ordered q (sizes (group_all (stage3_proposals candidates) []))
      ≡ count (λ e. supports q e.1) candidates
votes_lem q candidates =
    let stage3 = stage3_proposals candidates in
    votes-sizes q (group_all stage3 [])
    ∙ ap length (members_lem q stage3)
    ∙ length-select (alike q) stage3
    ∙ count-stage3 q candidates

abbrev winner_of : Proposals → H32 × ℕ
winner_of candidates = elect (sizes (group_all (stage3_proposals candidates) [])) h32_empty 0

winner_votes :
    (candidates : Proposals)
    → (winner_of candidates).1 ≤ count (λ e. supports (winner_of candidates).0 e.1) candidates
winner_votes candidates =
    let groups = group_all (stage3_proposals candidates) [] in
    bound (
      elect_votes h32_ordered (sizes groups) h32_empty 0
        (sizes-Ascending groups (group_all-Ascending (stage3_proposals candidates) [] tt)))
  where
    bound :
        Won h32_ordered
          (sizes (group_all (stage3_proposals candidates) []))
          h32_empty
          0
          (winner_of candidates)
        → (winner_of candidates).1 ≤ count (λ e. supports (winner_of candidates).0 e.1) candidates
    bound (inl e) = omega (arith, ap (λ (w : H32 × ℕ). w.1) e)
    bound (inr found) = ground (arith, found, votes_lem (winner_of candidates).0 candidates)

-- The decision, taken apart.
close_parts :
    (threshold unl_count : ℕ) (candidates : Proposals) (p : Proposal)
    → decide_close threshold unl_count candidates ≡ close_with p
    → (min_votes_required threshold unl_count ≤ (winner_of candidates).1)
      × (front (
            map_find h32_ordered
              (winner_of candidates).0
              (group_all (stage3_proposals candidates) []))
          ≡ close_with p)
unfolding decide_close
close_parts threshold unl_count candidates p h = ground arith

-- The ledger is closed with a proposal only if enough votes are there: the stage 3 proposals among
-- the candidates whose root hash is the same key as that of the proposal are at least the required
-- number.
pub close_has_quorum :
    (threshold unl_count : ℕ) (candidates : Proposals) (p : Proposal)
    → decide_close threshold unl_count candidates ≡ close_with p
    → min_votes_required threshold unl_count ≤ count (λ e. supports p.root_hash e.1) candidates
close_has_quorum threshold unl_count candidates p h =
    let w = (winner_of candidates).0 in
    let stage3 = stage3_proposals candidates in
    let (enough, fronted) = close_parts threshold unl_count candidates p h in
    let (rest, e) = front_lem (map_find h32_ordered w (group_all stage3 [])) p fronted in
    let hit = head_alike w stage3 rest p (sym (members_lem w stage3) ∙ e) in
    omega (arith, winner_votes candidates, supports-cong p.root_hash w candidates hit)

front_some :
    (o : Option (List Proposal)) → 0 < length (or_nil o) → (p : Proposal) × (front o ≡ close_with p)
unfolding front
front_some none h = absurd (omega arith)
front_some (some []) h = absurd (omega arith)
front_some (some (p ∷ ps)) h = (p, refl)

-- A member of the selected ones was one of all.
selected-IsAmong :
    (q : H32) (ps rest : List Proposal) (p : Proposal)
    → select (alike q) ps ≡ p ∷ rest
    → IsAmong ps p
selected-IsAmong q [] rest p h = cc
selected-IsAmong q (v ∷ ps) rest p h = elim (Bool-cases (alike q v)) [
  | inl hit ↦ inl (first v (select (alike q) ps) (rw hit at h))
  | inr miss ↦ inr (selected-IsAmong q ps rest p (rw miss at h))
]
  where
    first : (w : Proposal) (ws : List Proposal) → w ∷ ws ≡ p ∷ rest → w ≡ p
    first w ws e = cc

-- The other way round, if any root hash has the required votes, and at least one is required, then the
-- decision is to close the ledger with one of the stage 3 proposals among the candidates, and no root hash
-- has more votes than that of this proposal. (Preparing the users and committing can still fail.)
pub quorum_closes :
    (threshold unl_count : ℕ) (candidates : Proposals) (q : H32)
    → 0 < min_votes_required threshold unl_count
    → min_votes_required threshold unl_count ≤ count (λ e. supports q e.1) candidates
    → (p : Proposal) × (decide_close threshold unl_count candidates ≡ close_with p)
      × IsAmong (stage3_proposals candidates) p
      × ((h : H32)
          → count (λ e. supports h e.1) candidates
            ≤ count (λ e. supports p.root_hash e.1) candidates)
unfolding decide_close
quorum_closes threshold unl_count candidates q pos enough =
    let stage3 = stage3_proposals candidates in
    let groups = group_all stage3 [] in
    let w = winner_of candidates in
    let most = λ (h : H32). (elect_max h32_ordered (sizes groups) h32_empty 0 h).1 in
    let won : min_votes_required threshold unl_count ≤ w.1 =
      omega (arith, most q, votes_lem q candidates) in
    let voted = winner_votes candidates in
    let held : 0 < length (members w.0 groups) =
      omega (arith, votes_lem w.0 candidates, votes-sizes w.0 groups) in
    let (p, fronted) = front_some (map_find h32_ordered w.0 groups) held in
    let all : count (alike q) stage3 ≤ length stage3 = count-le-length (alike q) stage3 in
    let enough_stage3 : ltb (length stage3) (min_votes_required threshold unl_count) ≡ false =
      ground (arith, count-stage3 q candidates) in
    let enough_won : ltb w.1 (min_votes_required threshold unl_count) ≡ false = ground arith in
    let (rest, e) = front_lem (map_find h32_ordered w.0 groups) p fronted in
    let selected = sym (members_lem w.0 stage3) ∙ e in
    let hit = head_alike w.0 stage3 rest p selected in
    (
      p,
      rw (enough_stage3, enough_won, fronted),
      selected-IsAmong w.0 stage3 rest p selected,
      λ h. omega (
        arith,
        most h,
        votes_lem h candidates,
        voted,
        supports-cong p.root_hash w.0 candidates hit,
      ),
    )

-- More than half of the votes are required.
majority :
    (threshold n : ℕ)
    → 51 ≤ threshold
    → 0 < n
    → n < min_votes_required threshold n + min_votes_required threshold n
majority threshold n half pos = let more : 51 * n ≤ threshold * n = grind arith in omega arith

-- Agreement. Two nodes with the same UNL hold candidates from its members, and each closes its
-- ledger with a proposal, at a threshold above one half. If no member's stage 3 proposals at the
-- two nodes differ in their root hash, the two ledgers are closed with root hashes that are the same
-- key: their first eight bytes are equal.
pub close_agreement :
    (threshold : ℕ) (unl : List Bytes) (a b : Proposals) (p q : Proposal)
    → 51 ≤ threshold
    → 0 < length unl
    → Distinct a
    → Within unl a
    → Distinct b
    → Within unl b
    → ((u : Bytes) (v w : Proposal)
        → find u a ≡ some v
        → find u b ≡ some w
        → v.stage ≡ 3
        → w.stage ≡ 3
        → v.root_hash ≡ w.root_hash)
    → decide_close threshold (length unl) a ≡ close_with p
    → decide_close threshold (length unl) b ≡ close_with q
    → p.root_hash.word0 ≡ q.root_hash.word0
close_agreement threshold unl a b p q half pos da wa db wb honest closes_a closes_b =
    let (u, v, w, (found_a, for_p), (found_b, for_q)) =
      quorums_meet (supports p.root_hash) (supports q.root_hash) a b unl da wa db wb (
        omega (
          arith,
          majority threshold (length unl) half pos,
          close_has_quorum threshold (length unl) a p closes_a,
          close_has_quorum threshold (length unl) b q closes_b,
        )) in
    let same = honest u v w found_a found_b (ground (arith, for_p)) (ground (arith, for_q)) in
    keys v w same for_p for_q
  where
    keys :
        (v w : Proposal)
        → v.root_hash ≡ w.root_hash
        → supports p.root_hash v ≡ true
        → supports q.root_hash w ≡ true
        → p.root_hash.word0 ≡ q.root_hash.word0
    keys v w same for_p for_q = unfold h32_lt in ground (arith, ap (λ (h : H32). h.word0) same)
