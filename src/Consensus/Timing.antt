-- ===== src/Consensus/Timing.antt =====
-- src/consensus.cpp: `wait_and_proceed_stage` and `refresh_time_config`. The clock, the hash of the
-- contract id and the majority time config of the UNL are arguments. The times are 64-bit, the
-- durations 32-bit unsigned integers.
pub mod Windows
pub mod Stages
use hpcore.Base.{
  ℕ, ◌+◌, ◌-◌, ◌*◌, ◌/◌, ◌%◌, Bool, true, false, ◌||◌, ltb, ◌==◌, if◌then◌else◌, wrap32, wrap64,
  sub64, sub32,
}
use hpcore.Consensus.Types.{Context, ConsensusConfig}

-- Whether the round goes on, how long the thread sleeps, and the context.
pub record Proceed : Type 0 where
  pub proceeds : Bool
  pub to_wait : ℕ
  pub ctx : Context

-- CURRENT_TIME_CONFIG.
abbrev pub current_time_config : ConsensusConfig → ℕ
current_time_config cfg = wrap32 (cfg.roundtime * 100 + cfg.stage_slice)

abbrev pub next_round_start : ℕ → ℕ → ℕ → ℕ
next_round_start now offset roundtime =
    let previous_round_start = wrap64 (sub64 now offset / roundtime * roundtime + offset) in
    wrap64 (previous_round_start + roundtime)

-- The start of stages 1, 2 and 3.
unfoldable pub stage_start : Context → ℕ → ℕ
stage_start ctx stage =
    wrap64
      (ctx.round_start_time + ctx.stage0_duration + wrap32 ((stage - 1) * ctx.stage123_duration))

abbrev pub proceed_after : ℕ → Context → Proceed
proceed_after to_wait ctx = record { proceeds = true; to_wait = to_wait; ctx = ctx }

abbrev pub reset_stage : Context → Proceed
reset_stage ctx = record { proceeds = false; to_wait = 0; ctx = record ctx { stage = 0 } }

unfoldable pub wait_and_proceed_stage : ℕ → ConsensusConfig → Context → Proceed
unfolding stage_start
wait_and_proceed_stage now cfg ctx =
    if ctx.stage == 0
    then (let start = next_round_start now ctx.round_boundry_offset cfg.roundtime in
        proceed_after (sub64 start now) (record ctx { round_start_time = start }))
    else (let start = stage_start ctx ctx.stage in
        let to_wait = sub64 start now in
        if ltb start now || ltb to_wait ctx.stage_reset_wait_threshold
        then reset_stage ctx
        else proceed_after to_wait ctx)

-- The durations of the stages, from the configuration.
abbrev pub set_durations : ℕ → ConsensusConfig → Context → Context
set_durations contract_id_hash cfg ctx =
    let stage123 = wrap32 (cfg.roundtime * cfg.stage_slice) / 100 in
    record ctx {
      stage123_duration = stage123;
      stage0_duration = sub32 cfg.roundtime (wrap32 (stage123 * 3));
      stage_reset_wait_threshold = cfg.roundtime / 10;
      round_boundry_offset = contract_id_hash % cfg.roundtime;
    }

abbrev pub decode_time_config : ℕ → ConsensusConfig → ConsensusConfig
decode_time_config t cfg = record cfg {
  roundtime = t / 100;
  stage_slice = sub32 t (wrap32 (t / 100 * 100));
}

-- With detection, nothing is done unless the majority has a time config of its own.
unfoldable pub refresh_time_config :
    Bool → ℕ → ℕ → ConsensusConfig × Context → ConsensusConfig × Context
refresh_time_config false majority contract_id_hash (cfg, ctx) =
    (cfg, set_durations contract_id_hash cfg ctx)
refresh_time_config true majority contract_id_hash (cfg, ctx) =
    let cfg' = decode_time_config majority cfg in
    if (majority == 0) || (current_time_config cfg == majority)
    then (cfg, ctx)
    else (cfg', set_durations contract_id_hash cfg' ctx)
