-- ===== src/Consensus/Round/Stages.antt =====
-- How a visit moves the stage, the count of unreliable votes and the sync cycle on.
use hpcore.Base.{
  ℕ, ◌+◌, ◌%◌, ◌^◌, ◌<◌, ◌≡◌, refl, sym, ◌∙◌, ap, Bool, true, false, not, ◌&&◌, leb, ◌==◌,
  if◌then◌else◌, arith, Bool-cases, inl, inr,
}
use hpcore.Consensus.Types.{Context, ConsensusConfig}
use hpcore.Consensus.Timing.{refresh_time_config}
use hpcore.Consensus.Candidates.{revise_candidate_proposals}
use hpcore.Consensus.VoteStatus.{
  VoteStatus, unknown, unreliable, desync, synced, VoteCounter, reset, NodeView, check_vote_status,
}
use hpcore.Consensus.Proposing.{create_stage123_proposal}
use hpcore.Consensus.Inputs.{cleanup_output_collections}
use hpcore.Consensus.Round.{
  Round, Visit, is_synced, is_desync, Checked, check_votes, dispatch_synced_ledger_input_statuses,
  max_unreliable_votes_attempts, count_unreliable, propose, act, settle, finish_stage123,
  run_stage123,
}
use hpcore.Unl.{get_majority_time_config}

-- The part of the context that moves the rounds on.
abbrev pub Progress : Type 0
Progress = ℕ × ℕ × Bool

abbrev pub progress : Context → Progress
progress ctx = (ctx.stage, ctx.unreliable_votes_attempts, ctx.sync_ongoing)

checked_progress :
    (was_in_sync : Bool) (v : Visit) (cfg : ConsensusConfig) (node : NodeView) (ctx : Context)
    → progress (check_votes was_in_sync v cfg node ctx).ctx ≡ progress ctx
unfolding check_votes revise_candidate_proposals
checked_progress was_in_sync v cfg node ctx =
    elim (Bool-cases (
      not was_in_sync
      && is_synced (check_vote_status v.required node ctx.candidate_proposals reset).status)) [
        | inl again ↦ rw again refl
        | inr once ↦ rw once refl
      ]

started : VoteStatus → Progress → Progress
started unknown p = p
started unreliable p = p
started synced p = p
started desync (stage, attempts, ongoing) = (stage, attempts, true)

settled_progress :
    (was_in_sync : Bool) (v : Visit) (k : Checked) (r : Round)
    → progress (settle was_in_sync v k r).ctx ≡ started k.status (progress k.ctx)
unfolding dispatch_synced_ledger_input_statuses cleanup_output_collections started
settled_progress was_in_sync v k r = ground arith

-- What an action does to the stage, before the transition to the next one.
acted : VoteStatus → Progress → Progress
acted unknown (stage, attempts, ongoing) = (stage, 0, ongoing)
acted desync (stage, attempts, ongoing) = (stage, 0, ongoing)
acted unreliable (stage, attempts, ongoing) =
    (0, if leb max_unreliable_votes_attempts (attempts + 1) then 0 else attempts + 1, ongoing)
acted synced (stage, attempts, ongoing) = (stage, 0, if stage == 1 then false else ongoing)

refreshed_progress :
    (majority hash : ℕ) (cfg : ConsensusConfig) (ctx : Context)
    → progress (refresh_time_config true majority hash (cfg, ctx)).1 ≡ progress ctx
unfolding refresh_time_config
refreshed_progress majority hash cfg ctx = ground arith

acted-progress :
    (status : VoteStatus) (v : Visit) (votes : VoteCounter) (r : Round)
    → r.ctx.unreliable_votes_attempts < max_unreliable_votes_attempts
    → progress (act status v votes r).1.ctx ≡ acted status (progress r.ctx)
unfolding act count_unreliable propose acted create_stage123_proposal
acted-progress unknown v votes r small = refl
acted-progress desync v votes r small = refl
acted-progress synced v votes r small = ground arith
acted-progress unreliable v votes r small =
    let attempts = (r.ctx.unreliable_votes_attempts + 1) % 2 ^ 16 in
    let small' : attempts ≡ r.ctx.unreliable_votes_attempts + 1 = omega (arith, small) in
    let ctx : Context = record r.ctx { stage = 0; unreliable_votes_attempts = attempts } in
    let majority = (get_majority_time_config v.reported_time_config r.unl).0 in
    let kept = refreshed_progress majority v.contract_id_hash r.cfg ctx in
    elim (Bool-cases (leb max_unreliable_votes_attempts attempts)) [
      | inl over ↦
          let over' : leb max_unreliable_votes_attempts (r.ctx.unreliable_votes_attempts + 1)
              ≡ true =
            rw small' at over in
          rw over (ap (λ (p : Progress). (p.0, 0, p.2)) kept ∙ rw over' refl)
      | inr under ↦
          let under' : leb max_unreliable_votes_attempts (r.ctx.unreliable_votes_attempts + 1)
              ≡ false =
            rw small' at under in
          rw (under, under', small') refl
    ]

acted_status :
    (status : VoteStatus) (v : Visit) (votes : VoteCounter) (r : Round)
    → (act status v votes r).1.vote_status ≡ r.vote_status
unfolding act count_unreliable propose
acted_status unknown v votes r = refl
acted_status desync v votes r = refl
acted_status synced v votes r = refl
acted_status unreliable v votes r = ground arith

started_attempts : (status : VoteStatus) (p : Progress) → (started status p).1 ≡ p.1
unfolding started
started_attempts unknown p = refl
started_attempts unreliable p = refl
started_attempts synced p = refl
started_attempts desync p = refl

abbrev is_unreliable : VoteStatus → Bool
is_unreliable unknown = false
is_unreliable unreliable = true
is_unreliable desync = false
is_unreliable synced = false

abbrev advanced : Progress → Progress
advanced (stage, attempts, ongoing) = ((stage + 1) % 4, attempts, ongoing)

-- Where a visit leaves the stage, the count of unreliable votes and the sync cycle.
abbrev pub moved : VoteStatus → Progress → Progress
moved status (stage, attempts, ongoing) = (
  if is_unreliable status then 1 else (stage + 1) % 4,
  if is_unreliable status then (attempts + 1) % 5 else 0,
  if is_desync status then true else if is_synced status && (stage == 1) then false else ongoing,
)

moved_lem :
    (status : VoteStatus) (p : Progress)
    → p.1 < max_unreliable_votes_attempts
    → advanced (acted status (started status p)) ≡ moved status p
unfolding acted started
moved_lem unknown p small = refl
moved_lem desync p small = refl
moved_lem synced p small = ground arith
moved_lem unreliable p small = ground arith

-- A visit of stage 1, 2 or 3 goes on to the next stage, and to stage 1 when the votes are unreliable.
-- The count of unreliable votes in a row goes up, and is reset by the fifth or by reliable votes. A
-- sync cycle is on after a visit that finds the node out of sync, it ends with a visit of stage 1
-- that finds it in sync, and else it stays. The count was below five.
pub visit_moves :
    (v : Visit) (r : Round)
    → r.ctx.unreliable_votes_attempts < max_unreliable_votes_attempts
    → let r' = (run_stage123 v r).1 in progress r'.ctx ≡ moved r'.vote_status (progress r.ctx)
unfolding finish_stage123 run_stage123 revise_candidate_proposals
visit_moves v r small =
    let was_in_sync = is_synced r.vote_status in
    let revised = revise_candidate_proposals was_in_sync r.cfg v.collected r.ctx in
    let k = check_votes was_in_sync v r.cfg r.node revised in
    let s = settle was_in_sync v k r in
    let checks : progress k.ctx ≡ progress r.ctx =
      checked_progress was_in_sync v r.cfg r.node revised in
    let settles : progress s.ctx ≡ started k.status (progress r.ctx) =
      settled_progress was_in_sync v k r ∙ ap (started k.status) checks in
    let same : s.ctx.unreliable_votes_attempts ≡ r.ctx.unreliable_votes_attempts =
      ap (λ (p : Progress). p.1) settles ∙ started_attempts k.status (progress r.ctx) in
    ap advanced (
      acted-progress k.status v k.votes s (omega (arith, same, small))
      ∙ ap (acted k.status) settles)
    ∙ moved_lem k.status (progress r.ctx) small
    ∙ ap (λ (st : VoteStatus). moved st (progress r.ctx)) (sym (acted_status k.status v k.votes s))

-- So the stages stay 0 to 3, and the count stays below five, over any visits.
pub visits_bounded :
    (v : Visit) (r : Round)
    → r.ctx.unreliable_votes_attempts < max_unreliable_votes_attempts
    → let ctx = (run_stage123 v r).1.ctx in
      (ctx.stage < 4) × (ctx.unreliable_votes_attempts < max_unreliable_votes_attempts)
visits_bounded v r small = ground (arith, visit_moves v r small)
