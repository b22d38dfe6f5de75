-- ===== src/Consensus/Timing/Windows.antt =====
-- The windows of the rounds and of their stages.
use native.Mathlib.Nat.{div-mul-le_self, mul-mod_left}
use hpcore.Base.{
  ℕ, ◌+◌, ◌-◌, ◌*◌, ◌/◌, ◌%◌, ◌^◌, ◌<◌, ◌≤◌, ◌≡◌, refl, ◌∙◌, sym, true, arith, ◌==◌, sub64,
}
use hpcore.Consensus.Types.{Context, ConsensusConfig}
use hpcore.Consensus.Timing.{next_round_start, wait_and_proceed_stage}

-- The next multiple of the round time after `now`, counted from the offset, with no wrap-around.
window_after : (now offset roundtime : ℕ) → ℕ
window_after now offset roundtime = (now - offset) / roundtime * roundtime + offset + roundtime

next_round_start_lem :
    (now offset roundtime : ℕ)
    → offset ≤ now
    → now + roundtime < 2 ^ 64
    → next_round_start now offset roundtime ≡ window_after now offset roundtime
unfolding window_after
next_round_start_lem now offset roundtime le small =
    let e : sub64 now offset ≡ now - offset = omega arith in
    rw e (omega (arith, div-mul-le_self (now - offset) roundtime))

window_bounds :
    (now offset roundtime : ℕ)
    → 0 < roundtime
    → offset ≤ now
    → (now < window_after now offset roundtime)
      × (window_after now offset roundtime ≤ now + roundtime)
unfolding window_after
window_bounds now offset roundtime pos le = (grind arith, grind arith)

window_aligned :
    (now offset roundtime : ℕ) → (window_after now offset roundtime - offset) % roundtime ≡ 0
unfolding window_after
window_aligned now offset roundtime =
    let q = (now - offset) / roundtime in
    let e : q * roundtime + offset + roundtime - offset ≡ (q + 1) * roundtime = omega arith in
    rw e (mul-mod_left (q + 1) roundtime)

window_same :
    (now later offset roundtime : ℕ)
    → 0 < roundtime
    → offset ≤ now
    → now ≤ later
    → later < window_after now offset roundtime
    → window_after later offset roundtime ≡ window_after now offset roundtime
unfolding window_after
window_same now later offset roundtime pos le order before =
    let q = (now - offset) / roundtime in
    let lower : q * roundtime ≤ now - offset = div-mul-le_self (now - offset) roundtime in
    let e : (later - offset) / roundtime ≡ q = grind arith in rw e

abbrev start_of : ℕ → ConsensusConfig → Context → ℕ
start_of now cfg ctx = next_round_start now ctx.round_boundry_offset cfg.roundtime

stage0_lem :
    (now : ℕ) (cfg : ConsensusConfig) (ctx : Context)
    → ctx.stage ≡ 0
    → wait_and_proceed_stage now cfg ctx ≡ record {
      proceeds = true;
      to_wait = sub64 (start_of now cfg ctx) now;
      ctx = record ctx { round_start_time = start_of now cfg ctx };
    }
unfolding wait_and_proceed_stage
stage0_lem now cfg ctx e = let zero_stage : (ctx.stage == 0) ≡ true = ground arith in rw zero_stage

-- Stage 0 always goes on. It waits at least one millisecond and at most one round time, until a
-- window boundary: the new round start lies a whole number of round times after the offset.
pub stage0_waits :
    (now : ℕ) (cfg : ConsensusConfig) (ctx : Context)
    → ctx.stage ≡ 0
    → 0 < cfg.roundtime
    → ctx.round_boundry_offset ≤ now
    → now + cfg.roundtime < 2 ^ 64
    → let p = wait_and_proceed_stage now cfg ctx in
      (p.proceeds ≡ true)
      × (0 < p.to_wait)
      × (p.to_wait ≤ cfg.roundtime)
      × (p.ctx.round_start_time ≡ now + p.to_wait)
      × ((p.ctx.round_start_time - ctx.round_boundry_offset) % cfg.roundtime ≡ 0)
      × (p.ctx.stage ≡ 0)
stage0_waits now cfg ctx at0 pos le small =
    let offset = ctx.round_boundry_offset in
    let e = next_round_start_lem now offset cfg.roundtime le small in
    let (after, before) = window_bounds now offset cfg.roundtime pos le in
    rw (stage0_lem now cfg ctx at0) (
      refl,
      omega (arith, e, after, before),
      omega (arith, e, after, before),
      omega (arith, e, after, before),
      rw e (window_aligned now offset cfg.roundtime),
      at0,
    )

-- Nodes agree on the round: two nodes with the same configuration whose clocks are in the same
-- window, or one of which waits while the other comes to wait, start it at the same time.
pub same_round :
    (now later : ℕ) (cfg : ConsensusConfig) (ctx ctx' : Context)
    → ctx.stage ≡ 0
    → ctx'.stage ≡ 0
    → ctx'.round_boundry_offset ≡ ctx.round_boundry_offset
    → 0 < cfg.roundtime
    → ctx.round_boundry_offset ≤ now
    → later + cfg.roundtime < 2 ^ 64
    → now ≤ later
    → later < (wait_and_proceed_stage now cfg ctx).ctx.round_start_time
    → (wait_and_proceed_stage later cfg ctx').ctx.round_start_time
      ≡ (wait_and_proceed_stage now cfg ctx).ctx.round_start_time
same_round now later cfg ctx ctx' at0 at0' same pos le small order before =
    let offset = ctx.round_boundry_offset in
    let e = next_round_start_lem now offset cfg.roundtime le (omega arith) in
    let e' = next_round_start_lem later offset cfg.roundtime (omega arith) small in
    let before' : later < window_after now offset cfg.roundtime =
      rw (stage0_lem now cfg ctx at0, e) at before in
    rw (stage0_lem now cfg ctx at0, stage0_lem later cfg ctx' at0', same)
      (e' ∙ window_same now later offset cfg.roundtime pos le order before' ∙ sym e)
