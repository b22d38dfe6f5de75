-- ===== src/Consensus/Timing/Stages.antt =====
-- The durations of the stages, when a stage is joined or missed, and the time config that nodes
-- take over from the majority.
use native.Mathlib.Nat.{mod-lt}
use hpcore.Base.{
  ℕ, zero, suc, ◌+◌, ◌-◌, ◌*◌, ◌/◌, ◌^◌, ◌<◌, ◌≤◌, ◌≡◌, ◌≢◌, refl, true, false, ◌||◌, arith, ltb,
  leb, ◌==◌, if◌then◌else◌, wrap32, sub64, sub32,
}
use hpcore.Consensus.Types.{Context, ConsensusConfig}
use hpcore.Consensus.Timing.{
  proceed_after, reset_stage, current_time_config, stage_start, wait_and_proceed_stage,
  decode_time_config, refresh_time_config,
}

-- What the configuration is checked for when it is loaded: a round time of at most an hour, and a
-- slice of at most a third of the round for each of the stages 1, 2 and 3.
pub record IsSensible (cfg : ConsensusConfig) : Type 0 where
  pub positive : 0 < cfg.roundtime
  pub an_hour : cfg.roundtime ≤ 3600000
  pub a_third : cfg.stage_slice ≤ 33

slice_le : (r s : ℕ) → s ≤ 33 → r * s ≤ r * 33
slice_le r s h = grind arith

-- The four stages fill the round: the durations of stage 0 and of the three others add up to the
-- round time, and stage 0 has at least one hundredth of it. The offset of the windows is less than
-- a round time.
pub durations_fill_round :
    (contract_id_hash : ℕ) (cfg : ConsensusConfig) (ctx : Context)
    → IsSensible cfg
    → let q = (refresh_time_config false 0 contract_id_hash (cfg, ctx)).1 in
      (q.stage0_duration + 3 * q.stage123_duration ≡ cfg.roundtime)
      × (cfg.roundtime ≤ 100 * q.stage0_duration)
      × (q.round_boundry_offset < cfg.roundtime)
unfolding refresh_time_config
durations_fill_round contract_id_hash cfg ctx v =
    let small = slice_le cfg.roundtime cfg.stage_slice v.a_third in
    let fits : cfg.roundtime * cfg.stage_slice < 2 ^ 32 = omega (arith, v.an_hour) in
    (omega (arith, v.an_hour), omega (arith, v.an_hour), mod-lt contract_id_hash v.positive)

-- A stage that is not the first is joined exactly when its start is at least the reset threshold
-- ahead: the thread sleeps until that start, and the context is unchanged. Otherwise the stage is
-- missed, and the node goes back to stage 0 at once, with nothing else changed.
pub stage_joined :
    (now : ℕ) (cfg : ConsensusConfig) (ctx : Context)
    → ctx.stage ≢ 0
    → now < 2 ^ 64
    → stage_start ctx ctx.stage < 2 ^ 64
    → wait_and_proceed_stage now cfg ctx ≡ (
        if leb (now + ctx.stage_reset_wait_threshold) (stage_start ctx ctx.stage)
        then proceed_after (stage_start ctx ctx.stage - now) ctx
        else reset_stage ctx)
unfolding wait_and_proceed_stage
stage_joined now cfg ctx later small fits =
    let other : (ctx.stage == 0) ≡ false = ground arith in
    rw other (missed now (stage_start ctx ctx.stage) ctx.stage_reset_wait_threshold ctx small fits)
  where
    missed :
        (n start threshold : ℕ) (c : Context)
        → n < 2 ^ 64
        → start < 2 ^ 64
        → (if ltb start n || ltb (sub64 start n) threshold
            then reset_stage c
            else proceed_after (sub64 start n) c)
          ≡ (if leb (n + threshold) start then proceed_after (start - n) c else reset_stage c)
    missed n start threshold c small fits = ground arith

stage_starts :
    (ctx : Context) (stage : ℕ)
    → ctx.round_start_time + ctx.stage0_duration + 2 * ctx.stage123_duration < 2 ^ 64
    → 3 * ctx.stage123_duration < 2 ^ 32
    → stage < 3
    → stage_start ctx (suc stage)
      ≡ ctx.round_start_time + ctx.stage0_duration + stage * ctx.stage123_duration
unfolding stage_start
stage_starts ctx zero fits small h = omega arith
stage_starts ctx (suc zero) fits small h = omega arith
stage_starts ctx (suc (suc zero)) fits small h = omega arith
stage_starts ctx (suc (suc (suc n))) fits small h = absurd (omega arith)

-- A time config is read back as the round time and the slice that it was made of.
pub decode-current_time_config :
    (cfg other : ConsensusConfig)
    → other.stage_slice < 100
    → other.roundtime * 100 + other.stage_slice < 2 ^ 32
    → decode_time_config (current_time_config other) cfg
      ≡ record cfg { roundtime = other.roundtime; stage_slice = other.stage_slice }
decode-current_time_config cfg other small fits = ground arith

-- When detection finds that the majority of the UNL reports the time config of another node's
-- configuration, this node takes over that node's round time and slice, and then runs the same
-- windows and stages as that node.
pub detection_adopts :
    (contract_id_hash : ℕ) (cfg other : ConsensusConfig) (ctx other_ctx : Context)
    → IsSensible other
    → current_time_config cfg ≢ current_time_config other
    → let majority = current_time_config other in
      let (cfg', ctx') = refresh_time_config true majority contract_id_hash (cfg, ctx) in
      let (_, reference) = refresh_time_config false 0 contract_id_hash (other, other_ctx) in
      (cfg' ≡ record other { threshold = cfg.threshold })
      × (ctx'.stage0_duration ≡ reference.stage0_duration)
      × (ctx'.stage123_duration ≡ reference.stage123_duration)
      × (ctx'.stage_reset_wait_threshold ≡ reference.stage_reset_wait_threshold)
      × (ctx'.round_boundry_offset ≡ reference.round_boundry_offset)
unfolding refresh_time_config
detection_adopts contract_id_hash cfg other ctx other_ctx v differs =
    let wanted : ((current_time_config other == 0)
          || (current_time_config cfg == current_time_config other))
        ≡ false =
      ground (arith, v.positive, v.an_hour, v.a_third) in
    let fits : other.roundtime * 100 + other.stage_slice < 2 ^ 32 = omega arith in
    let e : current_time_config other / 100 ≡ other.roundtime = omega arith in
    let e' : sub32 (current_time_config other) (wrap32 (other.roundtime * 100))
        ≡ other.stage_slice =
      omega arith in
    rw (wanted, e, e') (refl, refl, refl, refl, refl)
