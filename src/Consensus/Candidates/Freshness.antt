-- ===== src/Consensus/Candidates/Freshness.antt =====
-- What is in the candidate set after a revision.
use hpcore.Base.{
  ◌↔◌, ltb, leb, ◌==◌, ◌&&◌, ◌||◌, ◌+◌, ◌<◌, ◌≤◌, ◌≡◌, ◌⊎◌, refl, ap, ◌∙◌, sym, Bool, true, false,
  not, ◌++◌, List, [], ◌∷◌, Option, none, some, Bytes, bytes_eq, find, erase, find-remove_if,
  find_unless, find-erase, find-cong, Distinct, select, if◌then◌else◌, bytes_keyed, same_sym, arith,
  Bool-cases, inl, inr, erase-Distinct, remove_if-Distinct,
}
use hpcore.Consensus.Types.{Proposal, Context, ConsensusConfig}
use hpcore.Consensus.Candidates.{
  Proposals, is_older, prune_collected, move_collected, keep_candidate, revise_candidate_proposals,
}

find-snoc :
    (q p : Bytes) (v : Proposal) (m : Proposals)
    → find q (m ++ (p, v) ∷ [])
      ≡ (elim (find q m) [ none ↦ (if bytes_eq p q then some v else none) | some w ↦ some w ])
unfolding find
find-snoc q p v [] = refl
find-snoc q p v ((j, w) ∷ m) = ground (arith, find-snoc q p v m)

snoc-Distinct :
    (p : Bytes) (v : Proposal) (m : Proposals)
    → find p m ≡ none
    → Distinct m
    → Distinct (m ++ (p, v) ∷ [])
unfolding find
snoc-Distinct p v [] h d = (refl, tt)
snoc-Distinct p v ((j, w) ∷ m) h d = ground (
  arith,
  find-snoc j p v m,
  bytes_keyed.same_cong j p j,
  bytes_keyed.same_refl j,
  same_sym ⦃k = bytes_keyed⦄ p j,
  snoc-Distinct p v m,
)

-- One proposal moved into the candidates replaces that of its node, and no other.
find-move_one :
    (q : Bytes) (p : Proposal) (m : Proposals)
    → find q (erase p.pubkey m ++ (p.pubkey, p) ∷ [])
      ≡ (if bytes_eq p.pubkey q then some p else find q m)
find-move_one q p m =
    ground (arith, find-snoc q p.pubkey p (erase p.pubkey m), find-erase p.pubkey q m)

move_one-Distinct :
    (p : Proposal) (m : Proposals) → Distinct m → Distinct (erase p.pubkey m ++ (p.pubkey, p) ∷ [])
move_one-Distinct p m d =
    snoc-Distinct p.pubkey p (erase p.pubkey m)
      (rw (find-erase p.pubkey p.pubkey m, bytes_keyed.same_refl p.pubkey))
      (erase-Distinct p.pubkey m d)

pub move_collected-Distinct :
    (ps : List Proposal) (m : Proposals) → Distinct m → Distinct (move_collected ps m)
unfolding move_collected
move_collected-Distinct [] m d = d
move_collected-Distinct (p ∷ ps) m d =
    move_collected-Distinct ps (erase p.pubkey m ++ (p.pubkey, p) ∷ []) (move_one-Distinct p m d)

-- The last of the proposals of a node, or else what there was.
pub last_of : Bytes → List Proposal → Option Proposal → Option Proposal
last_of q [] o = o
last_of q (p ∷ ps) o = last_of q ps (if bytes_eq p.pubkey q then some p else o)

find-move_collected :
    (q : Bytes) (ps : List Proposal) (m : Proposals)
    → find q (move_collected ps m) ≡ last_of q ps (find q m)
unfolding move_collected last_of
find-move_collected q [] m = refl
find-move_collected q (p ∷ ps) m =
    find-move_collected q ps (erase p.pubkey m ++ (p.pubkey, p) ∷ [])
    ∙ ap (last_of q ps) (find-move_one q p m)

-- The candidate of each node after a revision, in terms of the candidates and the collected
-- proposals before: the last one to arrive that is not older than the candidate the node had, or
-- else that candidate; if it may not be used at the current stage, the node has no candidate.
pub find-revise_candidate_proposals :
    (q : Bytes) (in_sync : Bool) (cfg : ConsensusConfig) (collected : List Proposal) (ctx : Context)
    → Distinct ctx.candidate_proposals
    → find q (revise_candidate_proposals in_sync cfg collected ctx).candidate_proposals
      ≡ find_unless
          (λ cp. not (keep_candidate in_sync cfg ctx cp))
          (last_of q
            (prune_collected ctx.candidate_proposals collected)
            (find q ctx.candidate_proposals))
unfolding revise_candidate_proposals
find-revise_candidate_proposals q in_sync cfg collected ctx d =
    let fresh = prune_collected ctx.candidate_proposals collected in
    find-remove_if (λ cp. not (keep_candidate in_sync cfg ctx cp)) q
      (move_collected fresh ctx.candidate_proposals)
      (move_collected-Distinct fresh ctx.candidate_proposals d)
    ∙ ap (find_unless (λ cp. not (keep_candidate in_sync cfg ctx cp)))
        (find-move_collected q fresh ctx.candidate_proposals)

-- A revision keeps one candidate to a node.
pub revise-Distinct :
    (in_sync : Bool) (cfg : ConsensusConfig) (collected : List Proposal) (ctx : Context)
    → Distinct ctx.candidate_proposals
    → Distinct (revise_candidate_proposals in_sync cfg collected ctx).candidate_proposals
unfolding revise_candidate_proposals
revise-Distinct in_sync cfg collected ctx d =
    remove_if-Distinct (λ cp. not (keep_candidate in_sync cfg ctx cp)) _
      (move_collected-Distinct (prune_collected ctx.candidate_proposals collected)
        ctx.candidate_proposals d)

find_unless-some :
    (f : Proposal → Bool) (o : Option Proposal) (p : Proposal)
    → find_unless f o ≡ some p
    → (o ≡ some p) × (f p ≡ false)
find_unless-some f none p h = cc
find_unless-some f (some w) p h = ground arith

-- Whether a proposal that arrives may take the place of what its node had.
abbrev pub supersedes : Proposal → Option Proposal → Bool
supersedes v none = true
supersedes v (some w) = ltb w.time v.time || ((w.time == v.time) && leb w.stage v.stage)

-- The last of the node's proposals to arrive that may take the place of what there was, or else that.
pub latest : Bytes → Option Proposal → List Proposal → Option Proposal → Option Proposal
latest q existing [] o = o
latest q existing (v ∷ vs) o =
    latest q existing vs (if bytes_eq v.pubkey q && supersedes v existing then some v else o)

-- The proposal is at most a round time old and of no later round. In sync, it is also of this round and of
-- this or the previous stage, or, at stage 0, of stage 3 of an earlier round.
abbrev pub IsUsable : Bool → ConsensusConfig → Context → Proposal → Type 0
IsUsable in_sync cfg ctx p =
    (p.time ≤ ctx.round_start_time)
    × (ctx.round_start_time ≤ p.time + cfg.roundtime)
    × (in_sync ≡ true
        → ((p.time ≡ ctx.round_start_time) × (p.stage ≤ ctx.stage) × (ctx.stage ≤ p.stage + 1))
          ⊎ ((p.time < ctx.round_start_time) × (ctx.stage ≡ 0) × (p.stage ≡ 3)))

is_older-supersedes : (v : Proposal) (o : Option Proposal) → not (is_older v o) ≡ supersedes v o
unfolding is_older
is_older-supersedes v none = refl
is_older-supersedes v (some w) = ground arith

supersedes_here :
    (q : Bytes) (candidates : Proposals) (v : Proposal)
    → bytes_eq v.pubkey q ≡ true
    → is_older v (find v.pubkey candidates) ≡ is_older v (find q candidates)
supersedes_here q candidates v mine = ap (is_older v) (find-cong v.pubkey q candidates mine)

last_of-latest :
    (q : Bytes) (candidates : Proposals) (ps : List Proposal) (o : Option Proposal)
    → last_of q (prune_collected candidates ps) o ≡ latest q (find q candidates) ps o
unfolding prune_collected last_of latest
last_of-latest q candidates [] o = refl
last_of-latest q candidates (v ∷ vs) o =
    let before = find q candidates in
    let taken : Option Proposal = if bytes_eq v.pubkey q then some v else o in
    let taken' : Option Proposal =
      if bytes_eq v.pubkey q && supersedes v before then some v else o in
    elim (Bool-cases (is_older v (find v.pubkey candidates))) [
      | inl older ↦
          let stays : o ≡ taken' =
            ground (arith, supersedes_here q candidates v, is_older-supersedes v before, older) in
          rw older (last_of-latest q candidates vs o ∙ ap (latest q before vs) stays)
      | inr newer ↦
          let same : taken ≡ taken' =
            ground (arith, supersedes_here q candidates v, is_older-supersedes v before, newer) in
          rw newer (last_of-latest q candidates vs taken ∙ ap (latest q before vs) same)
    ]

keep-IsUsable :
    (in_sync : Bool) (cfg : ConsensusConfig) (ctx : Context) (p : Proposal)
    → (not (keep_candidate in_sync cfg ctx p) ≡ false) ↔ IsUsable in_sync cfg ctx p
unfolding keep_candidate
keep-IsUsable true cfg ctx p = (λ h. ground arith, λ h. ground arith)
keep-IsUsable false cfg ctx p = (λ h. ground arith, λ h. ground arith)

some_unless :
    (f : Proposal → Bool) (o : Option Proposal) (p : Proposal)
    → o ≡ some p
    → f p ≡ false
    → find_unless f o ≡ some p
some_unless f none p e h = cc
some_unless f (some w) p e h = ground arith

-- With one candidate to a node, a proposal is the candidate of its node after a revision exactly when it
-- is the last to arrive of those that are not older than the candidate before, or else that candidate,
-- and it is usable at the stage: at most a round time old and of no later round, and for a node in sync
-- also of this round and of this or the previous stage, or at stage 0 of stage 3 of an earlier round.
pub revised_exactly :
    (q : Bytes) (p : Proposal) (in_sync : Bool) (cfg : ConsensusConfig) (collected : List Proposal)
    (ctx : Context)
    → Distinct ctx.candidate_proposals
    → (find q (revise_candidate_proposals in_sync cfg collected ctx).candidate_proposals ≡ some p)
      ↔ ((latest q (find q ctx.candidate_proposals) collected (find q ctx.candidate_proposals)
            ≡ some p)
          × IsUsable in_sync cfg ctx p)
revised_exactly q p in_sync cfg collected ctx d =
    let before = find q ctx.candidate_proposals in
    let drops = λ (cp : Proposal). not (keep_candidate in_sync cfg ctx cp) in
    let last = last_of-latest q ctx.candidate_proposals collected before in
    let (usable, kept) = keep-IsUsable in_sync cfg ctx p in
    let after = find-revise_candidate_proposals q in_sync cfg collected ctx d in
    (
      λ h.
          let (found, stays) =
            find_unless-some drops
              (last_of q (prune_collected ctx.candidate_proposals collected) before) p
              (sym after ∙ h) in
          (sym last ∙ found, usable stays),
      λ (found, h).
          after
          ∙ some_unless drops (last_of q (prune_collected ctx.candidate_proposals collected) before)
              p (last ∙ found) (kept h),
    )

-- The proposal does not belong to an earlier round, or to an earlier stage of the same round.
abbrev pub NotBefore : Proposal → Proposal → Type 0
NotBefore existing p =
    (existing.time < p.time) ⊎ ((existing.time ≡ p.time) × (existing.stage ≤ p.stage))

not_older :
    (q : Bytes) (existing : Proposal) (candidates : Proposals) (v p : Proposal)
    (o : Option Proposal)
    → find q candidates ≡ some existing
    → is_older v (find v.pubkey candidates) ≡ false
    → (if bytes_eq v.pubkey q then some v else o) ≡ some p
    → (o ≡ some p) ⊎ NotBefore existing p
unfolding is_older
not_older q existing candidates v p o e fresh h = elim (Bool-cases (bytes_eq v.pubkey q)) [
  | inl mine ↦
      let same : some v ≡ some p = rw mine at h in
      inr (newer v p same (rw (find-cong v.pubkey q candidates mine, e) at fresh))
  | inr other ↦ inl (rw other at h)
]
  where
    newer :
        (w r : Proposal)
        → some w ≡ some r
        → is_older w (some existing) ≡ false
        → NotBefore existing r
    newer w r same h = ground arith

last_of-select :
    (q : Bytes) (existing : Proposal) (candidates : Proposals) (ps : List Proposal)
    (o : Option Proposal) (p : Proposal)
    → find q candidates ≡ some existing
    → last_of q (select (λ v. not (is_older v (find v.pubkey candidates))) ps) o ≡ some p
    → (o ≡ some p) ⊎ NotBefore existing p
unfolding last_of
last_of-select q existing candidates [] o p e h = inl h
last_of-select q existing candidates (v ∷ ps) o p e h =
    elim (Bool-cases (is_older v (find v.pubkey candidates))) [
      | inl older ↦ last_of-select q existing candidates ps o p e (rw older at h)
      | inr fresh ↦
          finish
            (last_of-select q existing candidates ps (if bytes_eq v.pubkey q then some v else o) p e
              (rw fresh at h))
            fresh
    ]
  where
    finish :
        ((if bytes_eq v.pubkey q then some v else o) ≡ some p) ⊎ NotBefore existing p
        → is_older v (find v.pubkey candidates) ≡ false
        → (o ≡ some p) ⊎ NotBefore existing p
    finish (inl h) fresh = not_older q existing candidates v p o e fresh h
    finish (inr h) fresh = inr h

-- A node's candidate never gives way to one of an earlier round, or of an earlier stage of the same
-- round, whatever arrives and whether or not the node is in sync.
pub never_goes_back :
    (q : Bytes) (existing p : Proposal) (in_sync : Bool) (cfg : ConsensusConfig)
    (collected : List Proposal) (ctx : Context)
    → Distinct ctx.candidate_proposals
    → find q ctx.candidate_proposals ≡ some existing
    → find q (revise_candidate_proposals in_sync cfg collected ctx).candidate_proposals ≡ some p
    → NotBefore existing p
never_goes_back q existing p in_sync cfg collected ctx d before after =
    let candidates = ctx.candidate_proposals in
    let (last, _) =
      find_unless-some (λ cp. not (keep_candidate in_sync cfg ctx cp))
        (last_of q (prune_collected candidates collected) (find q candidates)) p
        (sym (find-revise_candidate_proposals q in_sync cfg collected ctx d) ∙ after) in
    unfold prune_collected in
    finish (last_of-select q existing candidates collected (find q candidates) p before last)
  where
    finish : (find q ctx.candidate_proposals ≡ some p) ⊎ NotBefore existing p → NotBefore existing p
    finish (inl same) =
        let e : some existing ≡ some p = sym before ∙ same in inr (ground arith, ground arith)
    finish (inr h) = h
