-- ===== src/Consensus/Round/Pruned.antt =====
-- When a visit proposes, and from which candidates.
use hpcore.Base.{
  ◌⊎◌, ◌≡◌, refl, ◌∙◌, ap, Bool, true, false, not, List, [], ◌∷◌, Bytes, All, Option, some,
  if◌then◌else◌, All-remove_if, Bool-cases, inl, inr, arith,
}
use hpcore.Consensus.Types.{Proposal, Context, ConsensusConfig}
use hpcore.Consensus.Timing.{refresh_time_config}
use hpcore.Consensus.Candidates.{
  Proposals, revise_candidate_proposals, keep_candidate, move_collected, prune_collected,
}
use hpcore.Consensus.VoteStatus.{
  VoteStatus, unknown, unreliable, desync, synced, VoteCounter, reset, NodeView, check_vote_status,
}
use hpcore.Consensus.Proposing.{create_stage123_proposal}
use hpcore.Consensus.Inputs.{cleanup_output_collections}
use hpcore.P2p.Types.{has_value}
use hpcore.Consensus.Round.{
  Round, Visit, is_synced, Checked, check_votes, dispatch_synced_ledger_input_statuses,
  count_unreliable, propose, act, settle, finish_stage123, run_stage123,
}

-- The candidate passes the rules for a node in sync at the time of a context.
abbrev pub IsProper : ConsensusConfig → Context → Proposal → Type 0
IsProper cfg ctx cp = keep_candidate true cfg ctx cp ≡ true

abbrev AllProper : ConsensusConfig → Context → Proposals → Type 0
AllProper cfg ctx candidates = All (λ (e : Bytes × Proposal). IsProper cfg ctx e.1) candidates

anything : (m : Proposals) → All {0, 0} (λ (e : Bytes × Proposal). Unit) m
anything [] = tt
anything (e ∷ m) = (tt, anything m)

revised-AllProper :
    (cfg : ConsensusConfig) (collected : List Proposal) (ctx : Context)
    → AllProper cfg ctx (revise_candidate_proposals true cfg collected ctx).candidate_proposals
unfolding revise_candidate_proposals
revised-AllProper cfg collected ctx =
    let moved =
      move_collected (prune_collected ctx.candidate_proposals collected) ctx.candidate_proposals in
    All-remove_if (λ cp. Unit) (IsProper cfg ctx) (λ cp. not (keep_candidate true cfg ctx cp)) moved
      (λ cp _ stays. ground (arith, stays)) (anything moved)

-- The candidates that a visit considers when it proposes: revised by the rules for a node in sync, where
-- the node was out of sync after a revision by the weaker rules.
abbrev pub considered : Visit → Round → Proposals
considered v r =
    let revised = revise_candidate_proposals (is_synced r.vote_status) r.cfg v.collected r.ctx in
    let again = revise_candidate_proposals true r.cfg v.collected_again revised in
    if is_synced r.vote_status then revised.candidate_proposals else again.candidate_proposals

considered-AllProper :
    (v : Visit) (r : Round) (was_in_sync : Bool)
    → is_synced r.vote_status ≡ was_in_sync
    → AllProper r.cfg r.ctx (considered v r)
unfolding keep_candidate revise_candidate_proposals
considered-AllProper v r true h = rw h (revised-AllProper r.cfg v.collected r.ctx)
considered-AllProper v r false h = rw h (
    revised-AllProper r.cfg v.collected_again
      (revise_candidate_proposals false r.cfg v.collected r.ctx))

-- Of a check that finds the node in sync: its candidates are those considered, its votes are counted over
-- them, and the stage is that of the round.
record IsChecked (v : Visit) (r : Round) (k : Checked) : Type 0 where
  candidates : k.ctx.candidate_proposals ≡ considered v r
  stage : k.ctx.stage ≡ r.ctx.stage
  counted :
      (node : NodeView) × (k.votes
        ≡ (check_vote_status v.required node (considered v r) reset).votes)

check-IsChecked :
    (v : Visit) (r : Round) (was_in_sync : Bool)
    → is_synced r.vote_status ≡ was_in_sync
    → let revised = revise_candidate_proposals was_in_sync r.cfg v.collected r.ctx in
      let k = check_votes was_in_sync v r.cfg r.node revised in
      is_synced k.status ≡ true → IsChecked v r k
unfolding check_votes revise_candidate_proposals
check-IsChecked v r true h in_sync = record {
  candidates = rw h;
  stage = refl;
  counted = (r.node, rw h);
}
check-IsChecked v r false h in_sync =
    let revised = revise_candidate_proposals false r.cfg v.collected r.ctx in
    let k = check_vote_status v.required r.node revised.candidate_proposals reset in
    elim (Bool-cases (is_synced k.status)) [
      | inl again ↦ rw again (record { candidates = rw h; stage = refl; counted = (k.node, rw h) })
      | inr once ↦ let found : is_synced k.status ≡ true = rw once at in_sync in cc
    ]

settled_candidates :
    (was_in_sync : Bool) (v : Visit) (k : Checked) (r : Round)
    → (settle was_in_sync v k r).ctx.candidate_proposals ≡ k.ctx.candidate_proposals
unfolding dispatch_synced_ledger_input_statuses cleanup_output_collections
settled_candidates was_in_sync v k r = ground arith

acted_candidates :
    (status : VoteStatus) (v : Visit) (votes : VoteCounter) (r : Round)
    → (act status v votes r).1.ctx.candidate_proposals ≡ r.ctx.candidate_proposals
unfolding act count_unreliable propose refresh_time_config create_stage123_proposal
acted_candidates unknown v votes r = refl
acted_candidates desync v votes r = refl
acted_candidates synced v votes r = ground arith
acted_candidates unreliable v votes r = ground arith

acted_proposal :
    (status : VoteStatus) (v : Visit) (votes : VoteCounter) (r : Round)
    → (has_value (act status v votes r).0 ≡ is_synced status)
      × ((act status v votes r).1.vote_status ≡ r.vote_status)
unfolding act count_unreliable propose
acted_proposal unknown v votes r = (refl, refl)
acted_proposal desync v votes r = (refl, refl)
acted_proposal synced v votes r = (refl, refl)
acted_proposal unreliable v votes r = (refl, ground arith)

settled_stage :
    (was_in_sync : Bool) (v : Visit) (k : Checked) (r : Round)
    → (settle was_in_sync v k r).ctx.stage ≡ k.ctx.stage
unfolding dispatch_synced_ledger_input_statuses cleanup_output_collections
settled_stage was_in_sync v k r = ground arith

-- The proposal is the one that is made of the candidates that the visit considers, by the votes counted
-- over them, at the stage of the round.
abbrev pub IsMadeFrom : Visit → Round → Option Proposal → Type 0
IsMadeFrom v r p =
    (ctx : Context) × (node : NodeView) × (p
      ≡ some
          (create_stage123_proposal v.get_list_hash v.now v.stage_votes v.majority_votes v.own r.cfg
            ctx (check_vote_status v.required node (considered v r) reset).votes).0)
    × (ctx.candidate_proposals ≡ considered v r)
    × (ctx.stage ≡ r.ctx.stage)

acted_made :
    (status : VoteStatus) (v : Visit) (votes : VoteCounter) (r : Round)
    → is_synced status ≡ true
    → (act status v votes r).0
      ≡ some
          (create_stage123_proposal v.get_list_hash v.now v.stage_votes v.majority_votes v.own r.cfg
            (record r.ctx { unreliable_votes_attempts = 0 })
            votes).0
unfolding act propose
acted_made synced v votes r h = refl
acted_made unknown v votes r h = cc
acted_made desync v votes r h = cc
acted_made unreliable v votes r h = cc

-- A visit of stage 1, 2 or 3 proposes nothing when it finds the node out of sync. Else its proposal is
-- made of the candidates that it considers and of the votes counted over them, those candidates all pass
-- the rules for a node in sync, also where the node was out of sync before and had revised its candidates
-- by the weaker rules, and they are the candidates that the node is left with.
pub proposes_in_sync :
    (v : Visit) (r : Round)
    → let ((p, requests), r') = run_stage123 v r in
      ((is_synced r'.vote_status ≡ false) × (has_value p ≡ false))
      ⊎ ((is_synced r'.vote_status ≡ true)
          × IsMadeFrom v r p
          × All (λ (e : Bytes × Proposal). IsProper r.cfg r.ctx e.1) (considered v r)
          × (r'.ctx.candidate_proposals ≡ considered v r))
unfolding finish_stage123 run_stage123
proposes_in_sync v r =
    let was_in_sync = is_synced r.vote_status in
    let revised = revise_candidate_proposals was_in_sync r.cfg v.collected r.ctx in
    let k = check_votes was_in_sync v r.cfg r.node revised in
    let s = settle was_in_sync v k (record r { ctx = revised }) in
    let (proposed, status) = acted_proposal k.status v k.votes s in
    let candidates =
      acted_candidates k.status v k.votes s
      ∙ settled_candidates was_in_sync v k (record r { ctx = revised }) in
    elim (Bool-cases (is_synced k.status)) [
      | inl in_sync ↦
          let c : IsChecked v r k = check-IsChecked v r was_in_sync refl in_sync in
          inr (
            ap is_synced status ∙ in_sync,
            (
              record s.ctx { unreliable_votes_attempts = 0 },
              c.counted.0,
              acted_made k.status v k.votes s in_sync ∙ ap (made s) c.counted.1,
              settled_candidates was_in_sync v k (record r { ctx = revised }) ∙ c.candidates,
              settled_stage was_in_sync v k (record r { ctx = revised }) ∙ c.stage,
            ),
            considered-AllProper v r was_in_sync refl,
            candidates ∙ c.candidates,
          )
      | inr out ↦ inl (ap is_synced status ∙ out, proposed ∙ out)
    ]
  where
    made : Round → VoteCounter → Option Proposal
    made s votes =
        some
          (create_stage123_proposal v.get_list_hash v.now v.stage_votes v.majority_votes v.own r.cfg
            (record s.ctx { unreliable_votes_attempts = 0 }) votes).0
